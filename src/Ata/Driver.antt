-- ===== src/Ata/Driver.antt =====
-- src/block_device.c: reading a block, the interrupt handler, and the probe.
use banj_os.Base.{
  ℕ, ◌+◌, ◌/◌, Bool, true, false, ◌||◌, not, Option, none, some, List, [], ◌∷◌, ◌==◌, if◌then◌else◌,
  update,
}
use banj_os.Irq.{IrqTableEntry, handler_set, send_eoi}
use banj_os.Proc.Sched.{Sched, unblock_head}
use banj_os.Ports.{Ports, inb, read_words, out_all, unmask}
use banj_os.Ata.{
  pata, AtaBlockDevice, AtaRequests, busy, ready, ata_soft_reset, detect_devtype, dev_identify,
  ata_req_queue, ata_req_unqueue, ata_req_queue_execute,
}

-- What happens while the process is blocked, up to a wake-up: requests that other processes queue,
-- and the drive's own doing.
pub record Wake (S : Type 0) : Type 0 where
  pub queued : List ℕ
  pub runs : S → S

unfoldable pub queue_all : List ℕ → AtaBlockDevice → AtaRequests → AtaBlockDevice × AtaRequests
queue_all [] ata reqs = (ata, reqs)
queue_all (r ∷ rs) ata reqs =
    let (ata', reqs') = ata_req_queue r ata reqs in queue_all rs ata' reqs'

-- The test of the loop of `ata_48_read_block`.
abbrev pub not_ready : ℕ → Bool
not_ready status = busy status || not (ready status)

module _ {S : Type 0} (io : Ports S) where
  -- The loop; `none` is a process that is still blocked after these wake-ups.
  unfoldable pub await :
      List (Wake S)
      → (status : ℕ) → AtaBlockDevice
      → AtaRequests
      → S
      → Option (AtaBlockDevice × AtaRequests × S)
  await [] status ata reqs s = if not_ready status then none else some (ata, reqs, s)
  await (w ∷ ws) status ata reqs s = elim (not_ready status) [
    | false ↦ some (ata, reqs, s)
    | true ↦
        let (ata', reqs') = queue_all (w.queued) ata reqs in
        let (status', s') = inb io (ata.ata_master) (w.runs s) in await ws status' ata' reqs' s'
  ]

  -- `req` is what kmalloc returns for the request. The words are those written to `dst`.
  unfoldable pub ata_48_read_block :
      (fuel req blk_num : ℕ)
      → List (Wake S)
      → AtaBlockDevice
      → AtaRequests
      → S
      → Option (List ℕ × AtaBlockDevice × AtaRequests × S)
  ata_48_read_block fuel req blk_num wakes ata reqs s =
      let reqs0 = record reqs { blk_num = update (reqs.blk_num) req blk_num } in
      elim (ata_req_queue_execute io fuel req ata reqs0 s) [
        | none ↦ none
        | some (ata1, reqs1, s1) ↦
            let (status, s2) = inb io (ata1.ata_master) s1 in
            elim (await wakes status ata1 reqs1 s2) [
              | none ↦ none
              | some (ata2, reqs2, s3) ↦
                  let (words, s4) = read_words io (ata2.blk_size / 2) (ata2.ata_base) s3 in
                  let (_, ata3, reqs3) = ata_req_unqueue ata2 reqs2 in some (words, ata3, reqs3, s4)
            ]
      ]

  -- The queue of the processes that wait for a request is at the request's address; `none` is the
  -- halt of `PROC_unblock_head`.
  pub read_block_handler : (number : ℕ) → AtaBlockDevice → Sched → S → Option (Sched × S)
  read_block_handler number ata procs s =
      let (_, s1) = inb io (ata.ata_base + 7) s in
      let s2 = out_all io (send_eoi number) s1 in
      if procs.queues (ata.req_head) == 0
      then some (procs, s2)
      else elim (unblock_head (ata.req_head) procs) [
        | none ↦ none
        | some procs' ↦ some (procs', s2)
      ]

  -- The second Option is NULL; `handler` is the address of the handler, `ata` that of the device.
  pub ata_probe :
      (fuel base master slave irq handler ata : ℕ)
      → List IrqTableEntry
      → S
      → Option (Option (AtaBlockDevice × List IrqTableEntry) × S)
  ata_probe fuel base master slave irq handler ata table s =
      let (dev_type, s1) = detect_devtype io slave base master s in
      elim dev_type [
        | pata ↦ elim (dev_identify io fuel base s1) [
          | none ↦ none
          | some (sectors, s2) ↦
              let s3 = unmask io 14 (unmask io 2 (ata_soft_reset io base true s2)) in
              if sectors == 0
              then none
              else some (
                some (
                  record {
                    ata_base = base;
                    ata_master = master;
                    slave = slave;
                    irq = irq;
                    req_head = 0;
                    req_tail = 0;
                    blk_size = 512;
                    tot_length = sectors;
                  },
                  handler_set (0x20 + 14) handler ata table,
                ),
                s3,
              )
        ]
        | _ ↦ some (none, s1)
      ]

-- The registered devices, the last one first.
pub blk_register : (dev : ℕ) → List ℕ → List ℕ
blk_register dev registered_devs = dev ∷ registered_devs
