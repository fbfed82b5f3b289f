-- ===== src/Str/Compare.antt =====
-- Comparing strings.
use banj_os.Base.{ℕ, zero, suc, ◌+◌, ◌≤◌, ◌<◌, ◌≡◌, refl, ap, some, arith}
use banj_os.Str.{Memory, min, difference, strcmp_from, strcmp}
use banj_os.Str.Copy.{IsString, strlen_lem}

difference_self : (c : ℕ) → difference c c ≡ 0
difference_self c = ground arith

strcmp_from-same :
    (n i a b : ℕ) (m : Memory)
    → ((j : ℕ) → j < i + n → m (a + j) ≡ m (b + j))
    → strcmp_from n i a b m ≡ 0
unfolding strcmp_from
strcmp_from-same zero i a b m h = refl
strcmp_from-same (suc n) i a b m h =
    let e = h i (omega arith) in
    let d = difference_self (m (b + i)) in
    let ih = strcmp_from-same n (i + 1) a b m (λ j k. h j (omega arith)) in rw (e, d) ih

-- With fuel for both strings, `strcmp` ends with 0 whenever the first is the beginning of the second,
-- equal or not.
pub strcmp-beginning :
    (fuel a b n k : ℕ) (m : Memory)
    → IsString m a n
    → IsString m b k
    → n ≤ k
    → k < fuel
    → ((j : ℕ) → j < n → m (a + j) ≡ m (b + j))
    → strcmp fuel a b m ≡ some 0
unfolding strcmp
strcmp-beginning fuel a b n k m sa sb h l same =
    rw (strcmp, strlen_lem fuel a n m sa (omega arith), strlen_lem fuel b k m sb l)
      (ap some (strcmp_from-same (min n k) 0 a b m (λ j q. same j (ground (arith, q, h)))))
