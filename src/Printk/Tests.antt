-- ===== src/Printk/Tests.antt =====
-- Runs of `printk`, and the theorems at concrete inputs.
use banj_os.Base.{ℕ, ◌≡◌, refl, some, List, [], ◌∷◌, ◌^◌, ◌-◌}
use banj_os.Printk.{
  Out, int, short, long_long, num, print_unsigned, print_hex, print_signed, printk, format, turn,
  print_char, directive, with_num, print_filled, fill, print_buf, put, display_char, ser_write,
}
use banj_os.Printk.Digits.{Prints, print_unsigned_lem}
use banj_os.Printk.Sign.{PrintsNegative, print_signed-negative}
use banj_os.Printk.Plain.{NoPercent}

abbrev blank : Out
blank = record { screen = []; serial = [] }

-- "n=%d!" of 42.
formatted :
    printk (b'n' ∷ b'=' ∷ b'%' ∷ b'd' ∷ b'!' ∷ []) (num 42 ∷ []) blank
    ≡ some (
      record {
        screen = b'n' ∷ b'=' ∷ b'4' ∷ b'2' ∷ b'!' ∷ [];
        serial = b'n' ∷ b'=' ∷ b'4' ∷ b'2' ∷ b'!' ∷ [];
      },
      5,
    )
unfolding printk format turn print_char directive with_num print_signed print_unsigned print_hex
    print_filled fill print_buf put display_char ser_write
formatted = refl

-- The sign of -5 is missing on the serial line.
minus_five :
    print_signed int (2 ^ 32 - 5) blank
    ≡ some (record { screen = b'-' ∷ b'5' ∷ []; serial = b'5' ∷ [] }, 2)
unfolding print_signed print_unsigned print_hex print_filled fill print_buf put display_char
    ser_write
minus_five = refl

-- -1 as a `long long` in hexadecimal is one character, the one below `0`.
minus_one_hex :
    print_hex long_long (2 ^ 64 - 1) blank
    ≡ some (record { screen = b'/' ∷ []; serial = b'/' ∷ [] }, 1)
unfolding print_hex print_filled fill print_buf put display_char ser_write
minus_one_hex = refl

print_unsigned_lem_example : Prints 10 1234 blank (print_unsigned short 1234 blank)
print_unsigned_lem_example = print_unsigned_lem short 1234 blank

print_signed-negative_example :
    PrintsNegative int (2 ^ 32 - 5) blank (print_signed int (2 ^ 32 - 5) blank)
print_signed-negative_example = print_signed-negative int (2 ^ 32 - 5) blank refl

abbrev word : List ℕ
word = b'o' ∷ b'k' ∷ []

word-NoPercent : NoPercent word
word-NoPercent = (refl, (refl, tt))
