-- ===== src/Str/Tests.antt =====
-- Strings in a small memory, and the theorems there.
use banj_os.Base.{◌≡◌, refl, inr, some, [], ◌∷◌, get_or, arith}
use banj_os.Str.{Memory, strcpy, strcmp, strlen, strlen_from, strcmp_from}
use banj_os.Str.Copy.{IsString, Copied, strcpy-Copied}
use banj_os.Str.Compare.{strcmp-beginning}

-- "ac" at 0, "ae" at 3, "a" at 6.
abbrev memory : Memory
memory q = get_or (b'a' ∷ b'c' ∷ 0 ∷ b'a' ∷ b'e' ∷ 0 ∷ b'a' ∷ 0 ∷ []) q 0

short-IsString : IsString memory 6 1
short-IsString = record { inside = λ i h. ground (arith, h); terminator = refl }

long-IsString : IsString memory 0 2
long-IsString = record { inside = λ i h. ground (arith, h); terminator = refl }

-- The first string is the lesser one, and the result is 2.
wrong_sign : strcmp 8 0 3 memory ≡ some 2
unfolding strcmp strlen strlen_from strcmp_from
wrong_sign = refl

strcpy-Copied_example : (m' : Memory) × (strcpy 8 20 0 memory ≡ some m') × Copied memory m' 20 0 2
strcpy-Copied_example =
    strcpy-Copied 8 20 0 2 memory long-IsString (omega arith) (inr (omega arith))

strcmp-beginning_example : strcmp 8 6 0 memory ≡ some 0
strcmp-beginning_example =
    strcmp-beginning 8 6 0 1 2 memory short-IsString long-IsString (omega arith) (omega arith)
      (λ j h. ground (arith, h))
