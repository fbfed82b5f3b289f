-- ===== src/Ext2/Pow.antt =====
-- The power of two that is the block size.
use native.Mathlib.Nat.{pow-succ'}
use banj_os.Base.{ℕ, zero, suc, ◌+◌, ◌%◌, ◌^◌, ◌≡◌, ap, ◌∙◌, arith}
use banj_os.Ext2.{double, pow2}

double_wrapped : (n k : ℕ) → double n (2 ^ k % 2 ^ 64) ≡ 2 ^ (n + k) % 2 ^ 64
double_wrapped zero k = ap (λ m. 2 ^ m % 2 ^ 64) (omega arith)
double_wrapped (suc n) k =
    ap (double n) (let e = pow-succ' 2 k in omega (arith, e))
    ∙ double_wrapped n (suc k)
    ∙ ap (λ m. 2 ^ m % 2 ^ 64) (omega arith)

-- `pow2` is the power of two, modulo 2 ^ 64.
pub pow2_lem : (n : ℕ) → pow2 n ≡ 2 ^ n % 2 ^ 64
unfolding pow2
pow2_lem n = double_wrapped n 0 ∙ ap (λ m. 2 ^ m % 2 ^ 64) (omega arith)
