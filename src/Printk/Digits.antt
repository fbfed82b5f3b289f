-- ===== src/Printk/Digits.antt =====
-- The digits that are printed are those of the number, and they fit into the buffer.
use native.Mathlib.Nat.{
  pow-suc, pow-zero, div-lt_iff_lt-mul, mul-le-mul_right, div-add-mod', mod-lt,
}
use banj_os.Base.{
  ℕ, zero, suc, ◌+◌, ◌-◌, ◌*◌, ◌/◌, ◌%◌, ◌^◌, ◌≤◌, ◌<◌, ◌≡◌, ap, false, some, List, [], ◌∷◌, ◌++◌,
  ltb, ltb→lt, ltb→le, if◌then◌else◌, length, arith, ◌⊎◌, inl, inr, All, Bool-cases, append_assoc,
  append-nil,
}
use banj_os.Printk.{
  Out, Size, int, short, long, long_long, unsigned, is_negative, put, fill, buf_size, print_buf,
  print_filled, dec_digit, hex_digit, print_unsigned, print_hex, Printed,
}

-- The digit characters, the highest digit first.
abbrev pub text : List ℕ → List ℕ
text [] = []
text (d ∷ ds) = text ds ++ (d ∷ [])

-- What a text adds to both outputs.
abbrev pub append_both : Out → List ℕ → Out
append_both o t = record { screen = o.screen ++ t; serial = o.serial ++ t }

-- The value of digit characters in a base, the lowest digit first.
abbrev pub digit_value : ℕ → ℕ
digit_value c = if ltb c b'a' then c - b'0' else c + 10 - b'a'

abbrev pub value : (base : ℕ) → List ℕ → ℕ
value base [] = 0
value base (c ∷ cs) = digit_value c + value base cs * base

pub print_buf_lem : (ds : List ℕ) (o : Out) → print_buf ds o ≡ append_both o (text ds)
unfolding print_buf put
print_buf_lem [] o = rw (append-nil, append-nil)
print_buf_lem (d ∷ ds) o = rw (print_buf_lem ds o, append_assoc, append_assoc)

-- A character from `0` to `9` or from `a` to `f` whose value is a digit of the base.
abbrev pub IsDigit : (base c : ℕ) → Type 0
IsDigit base c = (digit_value c < base) × (((b'0' ≤ c) × (c ≤ b'9')) ⊎ ((b'a' ≤ c) × (c ≤ b'f')))

-- All characters are digits of the base, their value is `n`, and there is no leading zero but for 0 itself.
abbrev pub IsDigits : (base n : ℕ) → List ℕ → Type 0
IsDigits base n ds =
    All (IsDigit base) ds
    × (value base ds ≡ n)
    × (0 < length ds)
    × (0 < n → base ^ (length ds - 1) ≤ n)

module _ (base : ℕ) (digit : ℕ → ℕ) (b : 2 ≤ base)
    (inv : (r : ℕ) → r < base → (digit_value (digit r) ≡ r) × IsDigit base (digit r)) where
  last_digit : (n : ℕ) → n / base ≡ 0 → IsDigits base n (digit (n % base) ∷ [])
  last_digit n e =
      let d = div-add-mod' n base in
      let d' : n % base ≡ n = ground (arith, d) in
      let (same, digit_here) = inv (n % base) (mod-lt n (omega arith)) in
      ((digit_here, tt), omega (arith, same, d'), omega arith, λ p. omega (arith, pow-zero base))

  more-IsDigits :
      (n : ℕ) (ds : List ℕ)
      → 0 < n / base
      → IsDigits base (n / base) ds
      → IsDigits base n (digit (n % base) ∷ ds)
  more-IsDigits n ds p (all, v, l, t) =
      let d = div-add-mod' n base in
      let (same, digit_here) = inv (n % base) (mod-lt n (omega arith)) in
      (
        (digit_here, all),
        omega (arith, same, d, ap (λ k. k * base) v),
        omega arith,
        λ _.
            let e : suc (length ds) - 1 ≡ length ds = omega arith in
            rw e (longer (length ds) l (t p)),
      )
    where
      longer : (k : ℕ) → 0 < k → base ^ (k - 1) ≤ n / base → base ^ k ≤ n
      longer zero k0 h = absurd (omega arith)
      longer (suc k) k0 h =
          let h' : base ^ k ≤ n / base = ground (arith, h) in
          omega (arith, pow-suc base k, div-add-mod' n base, mul-le-mul_right base h')

  less : (room n : ℕ) → n < base ^ suc room → n / base < base ^ room
  less room n h = (div-lt_iff_lt-mul (omega arith)).1 (rw pow-suc at h)

  pub fill_done :
      (room n : ℕ) → n / base ≡ 0 → fill base digit (suc room) n ≡ some (digit (n % base) ∷ [])
  unfolding fill
  fill_done room n e = ground arith

  pub fill_more :
      (room n : ℕ) (ds : List ℕ)
      → 0 < n / base
      → fill base digit room (n / base) ≡ some ds
      → fill base digit (suc room) n ≡ some (digit (n % base) ∷ ds)
  unfolding fill
  fill_more room n ds p e = ground arith

  -- With enough room for the digits the loop ends inside the buffer, with the digits of `n`.
  pub fill_lem :
      (room n : ℕ)
      → n < base ^ suc room
      → (ds : List ℕ) × (fill base digit (suc room) n ≡ some ds) × IsDigits base n ds
  fill_lem zero n h =
      let e : n / base ≡ 0 = omega (arith, less zero n h, pow-zero base) in
      (digit (n % base) ∷ [], fill_done zero n e, last_digit n e)
  fill_lem (suc room) n h = elim (Bool-cases (ltb 0 (n / base))) [
    | inr done ↦
        let e : n / base ≡ 0 = omega (arith, ltb→le 0 (n / base) done) in
        (digit (n % base) ∷ [], fill_done (suc room) n e, last_digit n e)
    | inl more ↦
        let p = ltb→lt 0 (n / base) more in
        let (ds, e, d) = fill_lem room (n / base) (less (suc room) n h) in
        (digit (n % base) ∷ ds, fill_more (suc room) n ds p e, more-IsDigits n ds p d)
  ]

dec_inv : (r : ℕ) → r < 10 → (digit_value (dec_digit r) ≡ r) × IsDigit 10 (dec_digit r)
dec_inv r h =
    let e : digit_value (dec_digit r) ≡ r = ground (arith, h) in
    (e, (omega (arith, e, h), inl (omega arith, omega (arith, h))))

pub hex_inv : (r : ℕ) → r < 16 → (digit_value (hex_digit r) ≡ r) × IsDigit 16 (hex_digit r)
hex_inv r h =
    let e : digit_value (hex_digit r) ≡ r = ground (arith, h) in
    (
      e,
      (
        omega (arith, e, h),
        elim (Bool-cases (ltb r 10)) [
          | inl y ↦ inl (ground (arith, y), ground (arith, y))
          | inr n ↦ inr (ground (arith, n, h), ground (arith, n, h))
        ],
      ),
    )

-- What a number that was printed in a base has added to both outputs.
abbrev pub Prints : (base n : ℕ) → Out → Printed → Type 0
Prints base n o result =
    (ds : List ℕ) × (result ≡ some (append_both o (text ds), length ds)) × IsDigits base n ds

unsigned_small : (z : Size) (n : ℕ) → unsigned z n < 2 ^ 64
unsigned_small int n = omega arith
unsigned_small short n = omega arith
unsigned_small long n = omega arith
unsigned_small long_long n = omega arith

filled_lem :
    (base : ℕ) (digit : ℕ → ℕ) (room n : ℕ) (o : Out)
    → (ds : List ℕ) × (fill base digit room n ≡ some ds) × IsDigits base n ds
    → Prints base n o (print_filled (fill base digit room n) o)
unfolding print_filled
filled_lem base digit room n o (ds, e, d) =
    (ds, rw e (ap (λ out. some (out, length ds)) (print_buf_lem ds o)), d)

-- `print_unsigned_*` never overruns its buffer: it prints the decimal digits of its argument,
-- converted to the type, as characters from `0` to `9`, on both outputs, with no leading zero, and
-- returns how many.
pub print_unsigned_lem :
    (z : Size) (n : ℕ) (o : Out) → Prints 10 (unsigned z n) o (print_unsigned z n o)
unfolding print_unsigned
print_unsigned_lem z n o = filled_lem 10 dec_digit buf_size (unsigned z n) o (
    fill_lem 10 dec_digit (omega arith) dec_inv 31 (unsigned z n)
      (omega (arith, unsigned_small z n)))

-- The hexadecimal printers print the digits of the argument too, as long as `print_hex_long_long`
-- gets no negative number.
pub print_hex_lem :
    (z : Size) (n : ℕ) (o : Out)
    → is_negative long_long n ≡ false
    → Prints 16 (unsigned z n) o (print_hex z n o)
unfolding print_hex
print_hex_lem int n o p = filled_lem 16 hex_digit buf_size (unsigned int n) o (
    fill_lem 16 hex_digit (omega arith) hex_inv 31 (unsigned int n)
      (omega (arith, unsigned_small int n)))
print_hex_lem short n o p = filled_lem 16 hex_digit buf_size (unsigned short n) o (
    fill_lem 16 hex_digit (omega arith) hex_inv 31 (unsigned short n)
      (omega (arith, unsigned_small short n)))
print_hex_lem long n o p = filled_lem 16 hex_digit buf_size (unsigned long n) o (
    fill_lem 16 hex_digit (omega arith) hex_inv 31 (unsigned long n)
      (omega (arith, unsigned_small long n)))
print_hex_lem long_long n o p = rw p (
    filled_lem 16 hex_digit buf_size (unsigned long_long n) o (
      fill_lem 16 hex_digit (omega arith) hex_inv 31 (unsigned long_long n)
        (omega (arith, unsigned_small long_long n))))
