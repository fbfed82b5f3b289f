-- ===== src/Str/Copy.antt =====
-- Copying a string.
use banj_os.Base.{
  ℕ, zero, suc, ◌+◌, ◌≤◌, ◌<◌, ◌≡◌, ◌≢◌, ◌⊎◌, inl, inr, ◌∙◌, ap, sym, refl, false, some, arith,
  ◌==◌, Bool-cases, ltb, ltb→lt, ltb→le,
}
use banj_os.Str.{Memory, put, memcpy, strlen_from, strlen, strcpy}

-- At `s` stands a string of length `n`.
pub record IsString (m : Memory) (s n : ℕ) : Type 0 where
  pub inside : (i : ℕ) → i < n → 0 < m (s + i)
  pub terminator : m (s + n) ≡ 0

put_ne : (m : Memory) (p v q : ℕ) → p ≢ q → put m p v q ≡ m q
put_ne m p v q h = ground (arith, h)

put_self : (m : Memory) (p v : ℕ) → put m p v p ≡ v
put_self m p v = ground arith

memcpy-outside :
    (dest src n : ℕ) (m : Memory) (q : ℕ)
    → (q < dest) ⊎ (dest + n ≤ q)
    → memcpy dest src n m q ≡ m q
unfolding memcpy
memcpy-outside dest src zero m q h = refl
memcpy-outside dest src (suc n) m q h =
    memcpy-outside (dest + 1) (src + 1) n (put m dest (m src)) q
      (elim h [ inl l ↦ inl (omega arith) | inr r ↦ inr (omega arith) ])
    ∙ put_ne m dest (m src) q (λ e. elim h [ inl l ↦ omega (arith, e) | inr r ↦ omega (arith, e) ])

memcpy-inside :
    (dest src n : ℕ) (m : Memory) (i : ℕ)
    → (dest + n ≤ src) ⊎ (src + n ≤ dest)
    → i < n
    → memcpy dest src n m (dest + i) ≡ m (src + i)
unfolding memcpy
memcpy-inside dest src zero m i apart h = absurd (omega arith)
memcpy-inside dest src (suc n) m zero apart h =
    let e : dest + 0 ≡ dest = omega arith in
    let e' : src + 0 ≡ src = omega arith in
    rw (e, e')
      (memcpy-outside (dest + 1) (src + 1) n (put m dest (m src)) dest (inl (omega arith))
        ∙ put_self m dest (m src))
memcpy-inside dest src (suc n) m (suc i) apart h =
    let e : dest + suc i ≡ dest + 1 + i = omega arith in
    let e' : src + suc i ≡ src + 1 + i = omega arith in
    rw (e, e')
      (memcpy-inside (dest + 1) (src + 1) n (put m dest (m src)) i
          (elim apart [ inl l ↦ inl (omega arith) | inr r ↦ inr (omega arith) ]) (omega arith)
        ∙ put_ne m dest (m src) (src + 1 + i)
            (λ q. elim apart [ inl l ↦ omega (arith, q) | inr r ↦ omega (arith, q, h) ]))

strlen_from_lem :
    (fuel k s n : ℕ) (m : Memory)
    → IsString m s n
    → n < fuel
    → strlen_from fuel k s m ≡ some (k + n)
unfolding strlen_from
strlen_from_lem zero k s n m str h = absurd (omega arith)
strlen_from_lem (suc fuel) k s zero m str h =
    let t = str.terminator in
    let e : s + 0 ≡ s = omega arith in let t' = rw e at t in rw t' (ap some (omega arith))
strlen_from_lem (suc fuel) k s (suc n) m str h =
    let e : s + 0 ≡ s = omega arith in
    let first = rw e at (str.inside 0 (omega arith)) in
    let z : (m s == 0) ≡ false = ground (arith, first) in
    rw z (
      strlen_from_lem fuel (k + 1) (s + 1) n m (shifted s n m str) (omega arith)
      ∙ ap some (omega arith))
  where
    shifted : (s n : ℕ) (m : Memory) → IsString m s (suc n) → IsString m (s + 1) n
    shifted s n m str = record {
      inside = λ i h.
          let e : s + 1 + i ≡ s + suc i = omega arith in
          rw e (str.inside (suc i) (omega (arith, h)));
      terminator = let e : s + 1 + n ≡ s + suc n = omega arith in rw e (str.terminator);
    }

pub strlen_lem : (fuel s n : ℕ) (m : Memory) → IsString m s n → n < fuel → strlen fuel s m ≡ some n
unfolding strlen
strlen_lem fuel s n m str h = strlen_from_lem fuel 0 s n m str h ∙ ap some (omega arith)

-- What `strcpy` leaves: the bytes of the string with its terminator, and all else as it was.
pub record Copied (m m' : Memory) (dest src n : ℕ) : Type 0 where
  pub string : IsString m' dest n
  pub same : (i : ℕ) → i ≤ n → m' (dest + i) ≡ m (src + i)
  pub kept : (q : ℕ) → (q < dest) ⊎ (dest + n < q) → m' q ≡ m q

-- With more fuel than the string is long, `strcpy` ends; when the two places do not overlap, a copy
-- of the string stands at `dest` and no byte outside of it has changed.
pub strcpy-Copied :
    (fuel dest src n : ℕ) (m : Memory)
    → IsString m src n
    → n < fuel
    → (dest + n < src) ⊎ (src + n < dest)
    → (m' : Memory) × (strcpy fuel dest src m ≡ some m') × Copied m m' dest src n
unfolding strcpy
strcpy-Copied fuel dest src n m str h apart =
    let m' : Memory = put (memcpy dest src n m) (dest + n) 0 in
    (
      m',
      rw (strcpy, strlen_lem fuel src n m str h) refl,
      copied m' (λ i k. same i k) (λ q k. kept q k),
    )
  where
    same : (i : ℕ) → i ≤ n → put (memcpy dest src n m) (dest + n) 0 (dest + i) ≡ m (src + i)
    same i k = elim (Bool-cases (ltb i n)) [
      | inl l ↦
          put_ne (memcpy dest src n m) (dest + n) 0 (dest + i) (λ e. omega (arith, e, ltb→lt i n l))
          ∙ memcpy-inside dest src n m i
              (elim apart [ inl a ↦ inl (omega arith) | inr b ↦ inr (omega arith) ]) (ltb→lt i n l)
      | inr r ↦
          let e : i ≡ n = omega (arith, ltb→le i n r) in
          rw e (put_self (memcpy dest src n m) (dest + n) 0 ∙ sym (str.terminator))
    ]

    kept : (q : ℕ) → (q < dest) ⊎ (dest + n < q) → put (memcpy dest src n m) (dest + n) 0 q ≡ m q
    kept q k =
        put_ne (memcpy dest src n m) (dest + n) 0 q
          (λ e. elim k [ inl a ↦ omega (arith, e) | inr b ↦ omega (arith, e) ])
        ∙ memcpy-outside dest src n m q (elim k [ inl a ↦ inl a | inr b ↦ inr (omega arith) ])

    copied :
        (m' : Memory)
        → ((i : ℕ) → i ≤ n → m' (dest + i) ≡ m (src + i))
        → ((q : ℕ) → (q < dest) ⊎ (dest + n < q) → m' q ≡ m q)
        → Copied m m' dest src n
    copied m' same kept = record {
      string = record {
        inside = λ i k. rw (same i (omega (arith, k))) (str.inside i k);
        terminator = same n (omega arith) ∙ str.terminator;
      };
      same = same;
      kept = kept;
    }
