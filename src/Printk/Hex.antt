-- ===== src/Printk/Hex.antt =====
-- A byte in hexadecimal.
use native.Mathlib.Nat.{mod-eq_of_lt}
use banj_os.Base.{
  ℕ, ◌+◌, ◌/◌, ◌%◌, ◌^◌, ◌<◌, ◌≤◌, ◌≡◌, refl, ap, ◌∙◌, none, some, arith, List, [], ◌∷◌, length,
}
use banj_os.Printk.{
  Printed, Out, num, int, fill, hex_digit, print_filled, print_hex, printk, format, turn, directive,
  with_num, buf_size,
}
use banj_os.Printk.Digits.{append_both, text, print_buf_lem, fill_done, fill_more, hex_inv}

-- One digit of a number below 16, and two of the bytes from there on.
fill_low : (d : ℕ) → d < 16 → fill 16 hex_digit buf_size d ≡ some (hex_digit (d % 16) ∷ [])
fill_low d h = fill_done 16 hex_digit (omega arith) hex_inv 31 d (omega (arith, h))

fill_high :
    (d : ℕ)
    → 16 ≤ d
    → d < 256
    → fill 16 hex_digit buf_size d ≡ some (hex_digit (d % 16) ∷ (hex_digit (d / 16) ∷ []))
fill_high d h1 h2 =
    let small : d / 16 % 16 ≡ d / 16 = omega (arith, h2) in
    fill_more 16 hex_digit (omega arith) hex_inv 31 d (hex_digit (d / 16) ∷ []) (omega (arith, h1))
      (fill_done 16 hex_digit (omega arith) hex_inv 30 (d / 16) (omega (arith, h2)) ∙ rw small refl)

-- What `printk` returns for a format that is one directive.
abbrev only : Printed → Printed
only none = none
only (some (o, k)) = some (o, 0 + 0 + k)

printk-x : (d : ℕ) (o : Out) → printk (b'%' ∷ (b'x' ∷ [])) (num d ∷ []) o ≡ only (print_hex int d o)
unfolding printk format turn directive with_num
printk-x d o = go (print_hex int d o) refl
  where
    go : (p : Printed) → print_hex int d o ≡ p → printk (b'%' ∷ (b'x' ∷ [])) (num d ∷ []) o ≡ only p
    go none e = rw (printk, format, turn, directive, e) refl
    go (some (o', k)) e = rw (printk, format, turn, directive, e) refl

print_hex_byte :
    (d : ℕ) (o : Out) (ds : List ℕ)
    → d < 256
    → fill 16 hex_digit buf_size d ≡ some ds
    → print_hex int d o ≡ some (append_both o (text ds), length ds)
unfolding print_hex print_filled
print_hex_byte d o ds h e =
    let w : d % 2 ^ 32 ≡ d = mod-eq_of_lt {n = d} {m = 2 ^ 32} (omega (arith, h)) in
    rw (w, e, print_buf_lem ds o) refl

print_x :
    (d : ℕ) (o : Out) (ds : List ℕ)
    → d < 256
    → fill 16 hex_digit buf_size d ≡ some ds
    → (k : ℕ) × (printk (b'%' ∷ (b'x' ∷ [])) (num d ∷ []) o ≡ some (append_both o (text ds), k))
print_x d o ds h e = (0 + 0 + length ds, printk-x d o ∙ ap only (print_hex_byte d o ds h e))

-- `printk("%x", d)` for a byte below 16, and for the others.
pub print_x-low :
    (d : ℕ) (o : Out)
    → d < 16
    → (k : ℕ) × (printk (b'%' ∷ (b'x' ∷ [])) (num d ∷ []) o
        ≡ some (append_both o (hex_digit (d % 16) ∷ []), k))
print_x-low d o h = print_x d o (hex_digit (d % 16) ∷ []) (omega (arith, h)) (fill_low d h)

pub print_x-high :
    (d : ℕ) (o : Out)
    → 16 ≤ d
    → d < 256
    → (k : ℕ) × (printk (b'%' ∷ (b'x' ∷ [])) (num d ∷ []) o
        ≡ some (append_both o (hex_digit (d / 16) ∷ (hex_digit (d % 16) ∷ [])), k))
print_x-high d o h1 h2 =
    print_x d o (hex_digit (d % 16) ∷ (hex_digit (d / 16) ∷ [])) h2 (fill_high d h1 h2)
