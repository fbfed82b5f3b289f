-- ===== src/Ata.antt =====
-- src/block_device.c, and include/block_device.h: the disk behind the ATA ports. A request is its
-- address, 0 for NULL, and the fields of the requests are maps from addresses. `none` is a failed
-- assertion, or the end of the fuel of a loop that waits for the disk.
pub mod Requests
pub mod Lba
pub mod Driver
pub mod Waiting
pub mod Reads
mod Tests
use Prim.Native.Nat.{bit_or}
use banj_os.Base.{
  ℕ, zero, suc, ◌+◌, ◌-◌, ◌*◌, ◌/◌, ◌%◌, ◌^◌, Bool, true, false, ◌&&◌, ◌||◌, not, Option, none,
  some, List, [], ◌∷◌, ltb, ◌==◌, if◌then◌else◌, update, get_or,
}
use banj_os.Ports.{Ports, inb, outb, inw, outw, wait, read_words, bit}

pub data AtaDevType : Type 0 where
  patapi : AtaDevType
  satapi : AtaDevType
  pata : AtaDevType
  sata : AtaDevType
  unknown : AtaDevType

pub record AtaBlockDevice : Type 0 where
  pub ata_base : ℕ
  pub ata_master : ℕ
  pub slave : ℕ
  pub irq : ℕ
  pub req_head : ℕ
  pub req_tail : ℕ
  pub blk_size : ℕ
  pub tot_length : ℕ

pub record AtaRequests : Type 0 where
  pub blk_num : ℕ → ℕ
  pub next : ℕ → ℕ

abbrev pub busy : ℕ → Bool
busy status = bit 7 status

-- STATUS_DRQ or STATUS_ERR.
abbrev pub ready : ℕ → Bool
ready status = bit 3 status || bit 0 status

module _ {S : Type 0} (io : Ports S) where
  unfoldable pub ata_soft_reset : (ctl_base : ℕ) (interrupts : Bool) → S → S
  ata_soft_reset ctl_base interrupts s =
      outb io ctl_base (if interrupts then 0 else 1) (outb io ctl_base 4 s)

  unfoldable pub detect_devtype : (slavebit base ctl_base : ℕ) → S → AtaDevType × S
  detect_devtype slavebit base ctl_base s =
      let s0 = ata_soft_reset ctl_base false s in
      let s1 = outb io (base + 6) (bit_or 0xA0 (slavebit * 2 ^ 4)) s0 in
      let (_, s2) = inb io ctl_base s1 in
      let (_, s3) = inb io ctl_base s2 in
      let (_, s4) = inb io ctl_base s3 in
      let (_, s5) = inb io ctl_base s4 in
      let (cl, s6) = inb io (base + 4) s5 in
      let (ch, s7) = inb io (base + 5) s6 in
      (
        if (cl == 0x14) && (ch == 0xEB)
            then patapi
            else (if (cl == 0x69) && (ch == 0x96)
                then satapi
                else (if (cl == 0) && (ch == 0)
                    then pata
                    else (if (cl == 0x3C) && (ch == 0xC3) then sata else unknown))),
        s7,
      )

-- The loop over the words of IDENTIFY, `n` turns from the word `i` down.
unfoldable pub add_words : (n i : ℕ) (block : List ℕ) (sectors : ℕ) → ℕ
add_words zero i block sectors = sectors
add_words (suc n) i block sectors =
    add_words n (i - 1) block (bit_or (sectors * 2 ^ 8 % 2 ^ 64) (get_or block i 0))

module _ {S : Type 0} (io : Ports S) where
  unfoldable pub dev_identify : (fuel base : ℕ) → S → Option (ℕ × S)
  dev_identify fuel base s =
      let s1 = outw io (base + 2) 0 s in
      let s2 = outw io (base + 3) 0 s1 in
      let s3 = outw io (base + 4) 0 s2 in
      let s4 = outw io (base + 5) 0 s3 in
      let s5 = outw io (base + 7) 0xEC s4 in
      let (status, s6) = inb io (base + 7) s5 in
      if status == 0 then none else elim (wait io fuel (base + 7) (λ v. not (busy v)) status s6) [
        | none ↦ none
        | some (status', s7) ↦ elim (wait io fuel (base + 7) ready status' s7) [
          | none ↦ none
          | some (status'', s8) ↦
              let (block, s9) = read_words io 256 base s8 in
              if bit 0 status'' then none else some (add_words 5 104 block 0, s9)
        ]
      ]

-- A request goes to the end of the queue.
pub ata_req_queue : (req : ℕ) → AtaBlockDevice → AtaRequests → AtaBlockDevice × AtaRequests
ata_req_queue req ata reqs =
    let cleared = update (reqs.next) req 0 in
    if ata.req_tail == 0
    then (record ata { req_head = req; req_tail = req }, record reqs { next = cleared })
    else (record ata { req_tail = req }, record reqs { next = update cleared (ata.req_tail) req })

-- The first request leaves the queue.
pub ata_req_unqueue : AtaBlockDevice → AtaRequests → ℕ × AtaBlockDevice × AtaRequests
ata_req_unqueue ata reqs =
    let req = ata.req_head in
    let head = reqs.next req in
    if req == 0 then (0, ata, reqs) else (
      req,
      record ata { req_head = head; req_tail = if head == 0 then head else ata.req_tail },
      record reqs { next = update (reqs.next) req 0 },
    )

module _ {S : Type 0} (io : Ports S) where
  unfoldable pub send_request : AtaBlockDevice → (blk_num : ℕ) → S → S
  send_request ata blk_num s =
      let base = ata.ata_base in
      let s1 = outb io (base + 2) (1 / 2 ^ 8) s in
      let s2 = outb io (base + 3) (blk_num / 2 ^ 24) s1 in
      let s3 = outb io (base + 4) (blk_num / 2 ^ 32) s2 in
      let s4 = outb io (base + 5) (blk_num / 2 ^ 40) s3 in
      let s5 = outb io (base + 2) 1 s4 in
      let s6 = outb io (base + 3) blk_num s5 in
      let s7 = outb io (base + 4) (blk_num / 2 ^ 8) s6 in
      let s8 = outb io (base + 5) (blk_num / 2 ^ 16) s7 in outb io (base + 7) 0x24 s8

  -- The registers of the drive and the sector are set once the status is not busy.
  unfoldable pub ata_req_execute : (fuel : ℕ) → AtaBlockDevice → (blk_num : ℕ) → S → Option S
  ata_req_execute fuel ata blk_num s =
      let s1 = outb io (ata.ata_base + 6) (bit_or 0x40 (ata.slave * 2 ^ 4)) s in
      let (status, s2) = inb io (ata.ata_base) s1 in
      elim (wait io fuel (ata.ata_base) (λ v. not (busy v)) status s2) [
        | none ↦ none
        | some (_, s3) ↦ some (send_request ata blk_num s3)
      ]

  unfoldable pub ata_req_queue_execute :
      (fuel req : ℕ) → AtaBlockDevice → AtaRequests → S → Option (AtaBlockDevice × AtaRequests × S)
  ata_req_queue_execute fuel req ata reqs s =
      let (ata', reqs') = ata_req_queue req ata reqs in
      let sent = ata_req_execute fuel ata' (reqs'.blk_num req) s in
      if ata.req_head == 0
      then elim sent [ none ↦ none | some s' ↦ some (ata', reqs', s') ]
      else some (ata', reqs', s)
