-- ===== src/Ata/Tests.antt =====
-- A drive whose status is always ready, with the registers of 48-bit addressing.
use banj_os.Base.{
  Bool, if◌then◌else◌, ◌==◌, true, false, ◌&&◌, not, inr, ℕ, ◌+◌, ◌*◌, ◌^◌, ◌≡◌, refl, some, [],
  ◌∷◌, arith, update,
}
use banj_os.Ports.{Ports, wait}
use banj_os.Ata.{
  AtaBlockDevice, AtaRequests, ata_req_queue, ata_req_execute, send_request, ata_req_queue_execute,
}
use banj_os.Ata.Requests.{IsRequests, ata_req_queue-IsRequests}
use banj_os.Ata.Lba.{HasRegisters, lba, ata_req_execute_lem}
use banj_os.Ata.Reads.{ata_req_queue_execute-IsRequests, Serves, ata_48_read_block-Serves}
use banj_os.Ata.Driver.{Wake}

record Drive : Type 0 where
  cur : ℕ → ℕ
  prev : ℕ → ℕ

abbrev drive : Ports Drive
drive = record {
  inp = λ port s. (8, s);
  out = λ port val s. record {
    cur = update (s.cur) port val;
    prev = update (s.prev) port (s.cur port);
  };
  inp_word = λ port s. (7, s);
  out_word = λ port val s. s;
}

drive-HasRegisters : HasRegisters drive (λ s. s.cur) (λ s. s.prev)
drive-HasRegisters = record {
  cur_here = λ port val s. ground arith;
  prev_here = λ port val s. ground arith;
  cur_else = λ port val q s h. ground (arith, h);
  prev_else = λ port val q s h. ground (arith, h);
  cur_read = λ port q s. refl;
}

abbrev start : Drive
start = record { cur = λ _. 0; prev = λ _. 0 }

abbrev ata : AtaBlockDevice
ata = record {
  ata_base = 0x1F0;
  ata_master = 0x3F6;
  slave = 0;
  irq = 14;
  req_head = 0;
  req_tail = 0;
  blk_size = 512;
  tot_length = 2048;
}

abbrev reqs : AtaRequests
reqs = record { blk_num = λ _. 0x123456789ABC; next = λ _. 0 }

ata_req_execute_lem_example :
    (s' : Drive) × (ata_req_execute drive 1 ata 0x123456789ABC start ≡ some s')
    × (lba (s'.cur) (s'.prev) 0x1F0 ≡ 0x123456789ABC)
    × (s'.cur 0x1F2 + s'.prev 0x1F2 * 2 ^ 8 ≡ 1)
    × (s'.cur 0x1F7 ≡ 0x24)
    × (s'.cur 0x1F6 ≡ 0x40)
ata_req_execute_lem_example =
    ata_req_execute_lem drive (λ s. s.cur) (λ s. s.prev) drive-HasRegisters 0 1 ata 0x123456789ABC
      start refl (omega arith)

none_waiting : IsRequests ata reqs []
none_waiting = record { chain = refl; tail = refl; once = tt }

one_waiting : IsRequests (record ata { req_head = 32; req_tail = 32 }) reqs (32 ∷ [])
one_waiting = record { chain = (refl, λ e. omega (arith, e), refl); tail = refl; once = (refl, tt) }

ata_req_queue-IsRequests_example :
    let (ata', reqs') = ata_req_queue 64 (record ata { req_head = 32; req_tail = 32 }) reqs in
    IsRequests ata' reqs' (32 ∷ 64 ∷ [])
ata_req_queue-IsRequests_example =
    ata_req_queue-IsRequests (record ata { req_head = 32; req_tail = 32 }) reqs (32 ∷ []) 64
      one_waiting refl (λ e. omega (arith, e))

abbrev queued : AtaBlockDevice × AtaRequests
queued = ata_req_queue 32 ata (record reqs { blk_num = update (reqs.blk_num) 32 5 })

sent : (s1 : Drive) × (ata_req_execute drive 1 (queued.0) (queued.1.blk_num 32) start ≡ some s1)
sent =
    let r =
      ata_req_execute_lem drive (λ s. s.cur) (λ s. s.prev) drive-HasRegisters 0 1 (queued.0)
        (queued.1.blk_num 32) start refl (omega arith) in
    (r.0, r.1)

-- A drive that is busy with a block until an interrupt, by which another request has come in.
record SlowDrive : Type 0 where
  done : Bool

abbrev slow : Ports SlowDrive
slow = record {
  inp = λ port s. (if (port == 0x3F6) && not (s.done) then 0x80 else 8, s);
  out = λ port val s. s;
  inp_word = λ port s. (7, s);
  out_word = λ port val s. s;
}

abbrev busy_drive : SlowDrive
busy_drive = record { done = false }

abbrev interrupt : Wake SlowDrive
interrupt = record { queued = 64 ∷ []; runs = λ s. record { done = true } }

slow_sent : ata_req_execute slow 1 (queued.0) (queued.1.blk_num 32) busy_drive ≡ some busy_drive
unfolding ata_req_execute wait send_request ata_req_queue
slow_sent = refl

ata_48_read_block-Serves_example :
    Serves slow 1 1 32 5 (interrupt ∷ []) ata reqs busy_drive busy_drive
ata_48_read_block-Serves_example =
    ata_48_read_block-Serves slow 1 1 32 5 (interrupt ∷ []) ata reqs busy_drive busy_drive
      none_waiting (λ e. omega (arith, e)) slow_sent ((refl, λ e. omega (arith, e), tt), tt)
      (inr refl)

-- A disk with a request only queues the next one.
sent_and_queued :
    (ata' : AtaBlockDevice) × (reqs' : AtaRequests) × (ata_req_queue_execute drive 1 32 ata
        (record reqs { blk_num = update (reqs.blk_num) 32 5 })
        start
      ≡ some (ata', reqs', sent.0))
    × IsRequests ata' reqs' (32 ∷ [])
sent_and_queued =
    ata_req_queue_execute-IsRequests drive 1 32 ata
      (record reqs { blk_num = update (reqs.blk_num) 32 5 }) [] start (sent.0)
      (record { chain = refl; tail = refl; once = tt }) refl (λ e. omega (arith, e)) (sent.1)
