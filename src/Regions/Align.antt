-- ===== src/Regions/Align.antt =====
-- What `align_pointer` returns.
use native.Mathlib.Nat.{mul-mod_left, div-add-mod', mod-lt}
use banj_os.Base.{
  ℕ, ◌+◌, ◌-◌, ◌*◌, ◌/◌, ◌%◌, ◌^◌, ◌≤◌, ◌<◌, ◌≡◌, ◌≢◌, ap, ◌∙◌, true, false, arith, ◌==◌, inl, inr,
  Bool-cases,
}
use banj_os.Regions.{align_pointer}

-- What is left after the whole multiples is a multiple.
down_multiple : (a b : ℕ) → (a - a % b) % b ≡ 0
down_multiple a b =
    let e : a - a % b ≡ a / b * b = omega (arith, div-add-mod' a b) in
    ap (λ n. n % b) e ∙ mul-mod_left (a / b) b

up_multiple : (a b : ℕ) → 0 < b → (a + (b - a % b)) % b ≡ 0
up_multiple a b h =
    let e : a + (b - a % b) ≡ (a / b + 1) * b = omega (arith, div-add-mod' a b, mod-lt a h) in
    ap (λ n. n % b) e ∙ mul-mod_left (a / b + 1) b

-- `align_pointer` gives the nearest multiple of a boundary that is not zero: with `after` the first
-- one not below the address, provided that it does not wrap, and else the last one not above it.
pub align_pointer_nearest :
    (addr boundary : ℕ)
    → 0 < boundary
    → addr + boundary ≤ 2 ^ 64
    → let up = align_pointer addr boundary true in
      let down = align_pointer addr boundary false in
      ((addr ≤ up) × (up < addr + boundary) × (up % boundary ≡ 0))
      × ((down ≤ addr) × (addr < down + boundary) × (down % boundary ≡ 0))
unfolding align_pointer
align_pointer_nearest addr boundary h w = elim (Bool-cases (addr % boundary == 0)) [
  | inl e ↦ rw e (ground arith, ground arith)
  | inr e ↦
      let m = mod-lt addr h in
      let p : addr % boundary ≢ 0 = ground arith in
      let s : (addr + (boundary - addr % boundary)) % 2 ^ 64 ≡ addr + (boundary - addr % boundary) =
        omega (arith, m, p) in
      rw (e, s)
        (
          (omega (arith, m), omega (arith, m, p), up_multiple addr boundary h),
          (omega (arith, m), omega (arith, m), down_multiple addr boundary),
        )
]
