-- ===== src/Ata/Lba.antt =====
-- The sector that a request reaches a drive with.
use Prim.Native.Nat.{bit_or}
use banj_os.Base.{
  ℕ, ◌+◌, ◌*◌, ◌/◌, ◌%◌, ◌^◌, ◌<◌, ◌≡◌, ◌≢◌, ◌∙◌, refl, not, some, arith, ◌==◌, if◌then◌else◌,
  Bool-cases, inl, inr, ==→eq,
}
use banj_os.Ports.{Ports, inb, outb}
use banj_os.Ports.Polling.{StopsWithin, wait-stops}
use banj_os.Ata.{AtaBlockDevice, busy, send_request, ata_req_execute}

-- Registers as the ATA standard has them for addresses of 48 bits: a write to a port keeps the value
-- before it, and a read changes no register.
pub record HasRegisters {S : Type 0} (io : Ports S) (cur prev : S → ℕ → ℕ) : Type 0 where
  pub cur_here : (port val : ℕ) (s : S) → cur (io.out port val s) port ≡ val
  pub prev_here : (port val : ℕ) (s : S) → prev (io.out port val s) port ≡ cur s port
  pub cur_else : (port val q : ℕ) (s : S) → port ≢ q → cur (io.out port val s) q ≡ cur s q
  pub prev_else : (port val q : ℕ) (s : S) → port ≢ q → prev (io.out port val s) q ≡ prev s q
  pub cur_read : (port q : ℕ) (s : S) → cur ((io.inp port s).1) q ≡ cur s q

-- The 48 bits of the address in the registers at `base`.
abbrev pub lba : (cur prev : ℕ → ℕ) (base : ℕ) → ℕ
lba cur prev base =
    cur (base + 3)
    + cur (base + 4) * 2 ^ 8
    + cur (base + 5) * 2 ^ 16
    + prev (base + 3) * 2 ^ 24
    + prev (base + 4) * 2 ^ 32
    + prev (base + 5) * 2 ^ 40

bytes_lem :
    (n : ℕ)
    → n % 2 ^ 8
        + n / 2 ^ 8 % 2 ^ 8 * 2 ^ 8
        + n / 2 ^ 16 % 2 ^ 8 * 2 ^ 16
        + n / 2 ^ 24 % 2 ^ 8 * 2 ^ 24
        + n / 2 ^ 32 % 2 ^ 8 * 2 ^ 32
        + n / 2 ^ 40 % 2 ^ 8 * 2 ^ 40
      ≡ n % 2 ^ 48
bytes_lem n = omega arith

same_offset : (b i j : ℕ) → (b + i == b + j) ≡ (i == j)
same_offset b i j = ground arith

module _ {S : Type 0} (io : Ports S) (cur prev : S → ℕ → ℕ) (regs : HasRegisters io cur prev) where
  cur_out :
      (port val q : ℕ) (s : S) → cur (io.out port val s) q ≡ (if port == q then val else cur s q)
  cur_out port val q s = elim (Bool-cases (port == q)) [
    | inl e ↦ rw (e, ← ==→eq port q e) (regs.cur_here port val s)
    | inr n ↦ rw n (regs.cur_else port val q s (λ e. ground (arith, e, n)))
  ]

  prev_out :
      (port val q : ℕ) (s : S)
      → prev (io.out port val s) q ≡ (if port == q then cur s q else prev s q)
  prev_out port val q s = elim (Bool-cases (port == q)) [
    | inl e ↦ rw (e, ← ==→eq port q e) (regs.prev_here port val s)
    | inr n ↦ rw n (regs.prev_else port val q s (λ e. ground (arith, e, n)))
  ]

  send_request_lem :
      (ata : AtaBlockDevice) (blk_num : ℕ) (s : S)
      → let s' = send_request io ata blk_num s in
        (lba (cur s') (prev s') (ata.ata_base) ≡ blk_num % 2 ^ 48)
        × (cur s' (ata.ata_base + 2) + prev s' (ata.ata_base + 2) * 2 ^ 8 ≡ 1)
        × (cur s' (ata.ata_base + 7) ≡ 0x24)
        × (cur s' (ata.ata_base + 6) ≡ cur s (ata.ata_base + 6))
  unfolding send_request
  send_request_lem ata blk_num s =
      let e = bytes_lem blk_num in simp (cur_out, prev_out, same_offset) (e, refl, refl, refl)

  -- On a drive with the registers of 48-bit addressing, whose status stops being busy within `k`
  -- reads, and with more fuel than `k`: `ata_req_execute` ends with the registers holding the
  -- request's sector modulo 2 ^ 48, a count of one, the command to read, and the drive's bit.
  pub ata_req_execute_lem :
      (k fuel : ℕ) (ata : AtaBlockDevice) (blk_num : ℕ) (s : S)
      → let s1 = outb io (ata.ata_base + 6) (bit_or 0x40 (ata.slave * 2 ^ 4)) s in
        let (status, s2) = inb io (ata.ata_base) s1 in
        StopsWithin io (ata.ata_base) (λ v. not (busy v)) k status s2
        → k < fuel
        → (s' : S) × (ata_req_execute io fuel ata blk_num s ≡ some s')
          × (lba (cur s') (prev s') (ata.ata_base) ≡ blk_num % 2 ^ 48)
          × (cur s' (ata.ata_base + 2) + prev s' (ata.ata_base + 2) * 2 ^ 8 ≡ 1)
          × (cur s' (ata.ata_base + 7) ≡ 0x24)
          × (cur s' (ata.ata_base + 6) ≡ bit_or 0x40 (ata.slave * 2 ^ 4) % 2 ^ 8)
  unfolding ata_req_execute
  ata_req_execute_lem k fuel ata blk_num s h l =
      let s1 = outb io (ata.ata_base + 6) (bit_or 0x40 (ata.slave * 2 ^ 4)) s in
      let sel = bit_or 0x40 (ata.slave * 2 ^ 4) % 2 ^ 8 in
      let first : cur ((inb io (ata.ata_base) s1).1) (ata.ata_base + 6) ≡ sel =
        regs.cur_read (ata.ata_base) (ata.ata_base + 6) s1
        ∙ regs.cur_here (ata.ata_base + 6) sel s in
      let (v, s3, e, f, q) =
        wait-stops io (ata.ata_base) (λ v. not (busy v)) (λ t. cur t (ata.ata_base + 6) ≡ sel)
          (λ t p. regs.cur_read (ata.ata_base) (ata.ata_base + 6) t ∙ p) k fuel
          ((inb io (ata.ata_base) s1).0) ((inb io (ata.ata_base) s1).1) h l first in
      let (a, b, c, d) = send_request_lem ata blk_num s3 in
      (send_request io ata blk_num s3, rw (ata_req_execute, e) refl, a, b, c, d ∙ q)
