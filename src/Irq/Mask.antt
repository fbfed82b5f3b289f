-- ===== src/Irq/Mask.antt =====
-- Masking a line sets its bit and no other, and clearing takes it away again.
use Prim.Native.Nat.{bit_and, bit_or}
use banj_os.Base.{
  ℕ, ◌-◌, ◌/◌, ◌%◌, ◌^◌, ◌<◌, ◌≡◌, refl, true, all_below, all_below_lem, arith, ltb, ◌==◌, ==→eq,
  if◌then◌else◌, Bool-cases, inl, inr, ltb→lt, ltb→le,
}
use banj_os.Irq.{Outb, mask_port, mask_bit, set_mask, clear_mask}

abbrev bit : ℕ → ℕ → ℕ
bit v j = v / 2 ^ j % 2

set_table :
    all_below 256 (λ v.
      all_below 8
        (λ i. all_below 8 (λ j. bit (bit_or v (2 ^ i) % 256) j == (if i == j then 1 else bit v j))))
    ≡ true
unfolding all_below
set_table = refl

clear_table :
    all_below 256 (λ v. all_below 8 (λ i.
      all_below 8 (λ j. bit (bit_and v (255 - 2 ^ i) % 256) j == (if i == j then 0 else bit v j))))
    ≡ true
unfolding all_below
clear_table = refl

set_bit :
    (v i j : ℕ)
    → v < 256
    → i < 8
    → j < 8
    → bit (bit_or v (2 ^ i) % 256) j ≡ (if i == j then 1 else bit v j)
set_bit v i j hv hi hj =
    ==→eq _ _ (all_below_lem 8 _ j (all_below_lem 8 _ i (all_below_lem 256 _ v set_table hv) hi) hj)

clear_bit :
    (v i j : ℕ)
    → v < 256
    → i < 8
    → j < 8
    → bit (bit_and v (255 - 2 ^ i) % 256) j ≡ (if i == j then 0 else bit v j)
clear_bit v i j hv hi hj =
    ==→eq _ _
      (all_below_lem 8 _ j (all_below_lem 8 _ i (all_below_lem 256 _ v clear_table hv) hi) hj)

-- A data port reads back the mask that was written last.
abbrev pub after : Outb → (ℕ → ℕ) → ℕ → ℕ
after w inb port = if w.port == port then w.byte else inb port

-- The bit of a line in the mask of its controller: 1 when it is masked.
abbrev pub masked : (ℕ → ℕ) → ℕ → ℕ
masked inb irq_line = inb (mask_port irq_line) / mask_bit irq_line % 2

-- What a write at the line `i` must do for a new bit `b`: the line's bit is `b`, and every other
-- line's is as before.
abbrev pub Puts : ℕ → (ℕ → ℕ) → ℕ → Outb → Type 0
Puts b inb i w = (j : ℕ) → j < 16 → masked (after w inb) j ≡ (if i == j then b else masked inb j)

-- On a controller whose bits change that way, so do the lines.
puts :
    (b : ℕ) (inb : ℕ → ℕ) (i w : ℕ)
    → i < 16
    → ((j : ℕ)
        → j < 8
        → bit w j ≡ (if (if ltb i 8 then i else i - 8) == j then b else bit (inb (mask_port i)) j))
    → Puts b inb i (record { port = mask_port i; byte = w })
puts b inb i w hi h j hj = elim (Bool-cases (ltb i 8)) [
  | inl p ↦ elim (Bool-cases (ltb j 8)) [
    | inl q ↦ let e = h j (ltb→lt j 8 q) in rw (p, q) (rw p at e)
    | inr q ↦ rw (p, q) (ground (arith, p, q))
  ]
  | inr p ↦ elim (Bool-cases (ltb j 8)) [
    | inl q ↦ rw (p, q) (ground (arith, p, q))
    | inr q ↦ let e = h (j - 8) (omega arith) in ground (arith, p, q, e, ltb→le j 8 q, ltb→le i 8 p)
  ]
]

line_bit : (i : ℕ) → mask_bit i ≡ 2 ^ (if ltb i 8 then i else i - 8)
line_bit i = elim (Bool-cases (ltb i 8)) [ inl p ↦ rw p refl | inr p ↦ rw p refl ]

line_bound : (i : ℕ) → i < 16 → (if ltb i 8 then i else i - 8) < 8
line_bound i h = ground arith

-- Masking a line sets the bit of this line and leaves the other fifteen as they are.
pub set_mask-Puts :
    (inb : ℕ → ℕ) (i : ℕ) → ((port : ℕ) → inb port < 256) → i < 16 → Puts 1 inb i (set_mask inb i)
unfolding set_mask
set_mask-Puts inb i bytes h = puts 1 inb i (bit_or (inb (mask_port i)) (mask_bit i) % 256) h (λ j k.
    rw (line_bit i) (
      set_bit (inb (mask_port i)) (if ltb i 8 then i else i - 8) j (bytes (mask_port i))
        (line_bound i h) k))

-- Clearing a line's mask clears the bit of this line and leaves the other fifteen as they are.
pub clear_mask-Puts :
    (inb : ℕ → ℕ) (i : ℕ) → ((port : ℕ) → inb port < 256) → i < 16 → Puts 0 inb i (clear_mask inb i)
unfolding clear_mask
clear_mask-Puts inb i bytes h =
    puts 0 inb i (bit_and (inb (mask_port i)) (255 - mask_bit i) % 256) h (λ j k. rw (line_bit i) (
      clear_bit (inb (mask_port i)) (if ltb i 8 then i else i - 8) j (bytes (mask_port i))
        (line_bound i h) k))
