-- ===== src/Ports/Polling.antt =====
-- Waiting at a port.
use banj_os.Base.{ℕ, zero, suc, ◌<◌, ◌≡◌, ◌⊎◌, refl, Bool, true, some, arith, inl, inr, Bool-cases}
use banj_os.Ports.{Ports, inb, wait}

module _ {S : Type 0} (io : Ports S) (port : ℕ) (stop : ℕ → Bool) where
  -- The test holds after `k` more reads at the latest.
  abbrev pub StopsWithin : (k status : ℕ) → S → Type 0
  StopsWithin zero status s = stop status ≡ true
  StopsWithin (suc k) status s =
      (stop status ≡ true) ⊎ (let (status', s') = inb io port s in StopsWithin k status' s')

  -- The loop ends when the test holds, in a state that reads have led to.
  pub wait-stops :
      (P : S → Type 0)
      → ((s : S) → P s → P ((inb io port s).1))
      → (k fuel status : ℕ) (s : S) → StopsWithin k status s
      → k < fuel
      → P s
      → (v : ℕ) × (s' : S) × (wait io fuel port stop status s ≡ some (v, s'))
        × (stop v ≡ true)
        × P s'
  unfolding wait
  wait-stops P keep k zero status s c h p = absurd (omega (arith, h))
  wait-stops P keep zero (suc fuel) status s c h p = (status, s, rw (wait, c) refl, c, p)
  wait-stops P keep (suc k) (suc fuel) status s c h p = elim (Bool-cases (stop status)) [
    | inl e ↦ (status, s, rw (wait, e) refl, e, p)
    | inr n ↦ elim c [
      | inl e ↦ (status, s, rw (wait, e) refl, e, p)
      | inr more ↦
          let (v, s', e, f, q) =
            wait-stops P keep k fuel ((inb io port s).0) ((inb io port s).1) more (omega (arith, h))
              (keep s p) in
          (v, s', rw (wait, n) e, f, q)
    ]
  ]
