-- ===== src/Printk/Sign.antt =====
-- Signed numbers: the minus sign is on the screen alone, and the wide hexadecimal printer is off.
use banj_os.Base.{ℕ, ◌+◌, ◌-◌, ◌^◌, ◌≡◌, true, some, List, [], ◌∷◌, ◌++◌, length, arith}
use banj_os.Printk.{
  Out, Size, int, short, long, long_long, width, unsigned, is_negative, display_char, print_signed,
  Printed,
}
use banj_os.Printk.Digits.{text, IsDigits, print_unsigned_lem}

abbrev pub negated : Size → ℕ → ℕ
negated z n = 2 ^ width z - unsigned z n

small_negated : (z : Size) (n : ℕ) → is_negative z n ≡ true → unsigned z (negated z n) ≡ negated z n
small_negated int n p = ground arith
small_negated short n p = ground arith
small_negated long n p = ground arith
small_negated long_long n p = ground arith

-- What a negative number leaves: on the screen a minus sign and the digits of its absolute value,
-- on the serial line the digits alone.
abbrev pub PrintsNegative : Size → ℕ → Out → Printed → Type 0
PrintsNegative z n o result =
    (ds : List ℕ) × (result
      ≡ some (
        record { screen = (o.screen ++ (b'-' ∷ [])) ++ text ds; serial = o.serial ++ text ds },
        1 + length ds,
      ))
    × IsDigits 10 (negated z n) ds

-- A negative argument of `%d` is printed as a minus sign and the digits of its absolute value on the
-- screen; the serial line gets the digits without the sign. The count includes the sign.
pub print_signed-negative :
    (z : Size) (n : ℕ) (o : Out)
    → is_negative z n ≡ true
    → PrintsNegative z n o (print_signed z n o)
unfolding print_signed display_char
print_signed-negative z n o p =
    let (ds, e, d) = print_unsigned_lem z (negated z n) (display_char b'-' o) in
    (ds, rw (p, e), rw (small_negated z n p) at d)
