-- ===== src/Str.antt =====
-- src/string.c: the memory and string functions, over a memory of bytes. A string ends at its zero
-- byte; a loop that looks for it runs on fuel, and `none` is the end of the fuel.
pub mod Copy
pub mod Compare
mod Tests
use banj_os.Base.{
  ℕ, zero, suc, ◌+◌, ◌-◌, ◌%◌, ◌^◌, Bool, true, false, Option, none, some, ltb, ◌==◌, if◌then◌else◌,
}

abbrev pub Memory : Type 0
Memory = ℕ → ℕ

abbrev pub put : Memory → ℕ → ℕ → Memory
put m p v q = if p == q then v else m q

pub memset : (dst c n : ℕ) → Memory → Memory
memset dst c zero m = m
memset dst c (suc n) m = memset (dst + 1) c n (put m dst (c % 256))

pub memcpy : (dest src n : ℕ) → Memory → Memory
memcpy dest src zero m = m
memcpy dest src (suc n) m = memcpy (dest + 1) (src + 1) n (put m dest (m src))

-- The loop of `strlen` with the length so far.
unfoldable pub strlen_from : (fuel n s : ℕ) → Memory → Option ℕ
strlen_from zero n s m = none
strlen_from (suc fuel) n s m =
    let rest = strlen_from fuel (n + 1) (s + 1) m in if m s == 0 then some n else rest

unfoldable pub strlen : (fuel s : ℕ) → Memory → Option ℕ
strlen fuel s m = strlen_from fuel 0 s m

pub strcpy : (fuel dest src : ℕ) → Memory → Option Memory
strcpy fuel dest src m = elim (strlen fuel src m) [
  | none ↦ none
  | some n ↦ some (put (memcpy dest src n m) (dest + n) 0)
]

abbrev pub min : ℕ → ℕ → ℕ
min a b = if ltb a b then a else b

-- `char` is signed; the difference of two is the bit pattern of an `int`.
abbrev pub signed : ℕ → ℕ
signed c = if ltb c 0x80 then c else 2 ^ 32 - 0x100 + c

abbrev pub difference : ℕ → ℕ → ℕ
difference a b = (signed a + 2 ^ 32 - signed b) % 2 ^ 32

-- The loop of `strcmp`, `n` turns from `i` on.
unfoldable pub strcmp_from : (n i a b : ℕ) → Memory → ℕ
strcmp_from zero i a b m = 0
strcmp_from (suc n) i a b m =
    let rest = strcmp_from n (i + 1) a b m in
    if difference (m (a + i)) (m (b + i)) == 0 then rest else difference (m (a + i)) (m b)

unfoldable pub strcmp : (fuel a b : ℕ) → Memory → Option ℕ
strcmp fuel a b m = elim (strlen fuel a m) [
  | none ↦ none
  | some la ↦ elim (strlen fuel b m) [
    | none ↦ none
    | some lb ↦ some (strcmp_from (min la lb) 0 a b m)
  ]
]
