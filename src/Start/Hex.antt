-- ===== src/Start/Hex.antt =====
-- src/kmain.c: how the digest is printed.
use banj_os.Base.{
  ℕ, ◌/◌, ◌%◌, ◌<◌, ◌≡◌, refl, ap, ◌∙◌, some, arith, ltb, List, [], ◌∷◌, ◌++◌, inl, inr, Bool-cases,
  ltb→lt, ltb→le, All, append_assoc, get_or, zero, suc, ◌+◌, length, sym,
}
use banj_os.Printk.{Out, hex_digit}
use banj_os.Printk.Digits.{append_both}
use banj_os.Printk.Plain.{printk-NoPercent}
use banj_os.Printk.Hex.{print_x-low, print_x-high}
use banj_os.Start.{print_digest}

abbrev hex_characters : List ℕ
hex_characters =
    b'0' ∷ b'1' ∷ b'2' ∷ b'3' ∷ b'4' ∷ b'5' ∷ b'6' ∷ b'7' ∷ b'8' ∷ b'9' ∷ b'a' ∷ b'b' ∷ b'c' ∷ b'd'
    ∷ b'e' ∷ b'f' ∷ []

abbrev pub hex_character : ℕ → ℕ
hex_character d = get_or hex_characters d 0

-- The two hexadecimal digits of each byte.
abbrev pub hex : List ℕ → List ℕ
hex [] = []
hex (d ∷ ds) = hex_character (d / 16) ∷ (hex_character (d % 16) ∷ hex ds)

-- The characters are the digits from `k` on.
abbrev AreDigits : List ℕ → ℕ → Type 0
AreDigits [] k = Unit
AreDigits (c ∷ cs) k = (hex_digit k ≡ c) × AreDigits cs (suc k)

AreDigits-get_or :
    (cs : List ℕ) (k d : ℕ) → AreDigits cs k → d < length cs → hex_digit (k + d) ≡ get_or cs d 0
AreDigits-get_or [] k d h l = absurd (omega (arith, l))
AreDigits-get_or (c ∷ cs) k zero (h, hs) l = let z : k + 0 ≡ k = omega arith in rw z h
AreDigits-get_or (c ∷ cs) k (suc d) (h, hs) l =
    let e : k + suc d ≡ suc k + d = omega arith in
    rw e (AreDigits-get_or cs (suc k) d hs (omega (arith, l)))

hex_digit-hex_character : (d : ℕ) → d < 16 → hex_digit d ≡ hex_character d
hex_digit-hex_character d h =
    let all : AreDigits hex_characters 0 =
      ((
        refl,
        (
          refl,
          (
            refl,
            (
              refl,
              (
                refl,
                (
                  refl,
                  (
                    refl,
                    (refl, (refl, (refl, (refl, (refl, (refl, (refl, (refl, (refl, tt))))))))),
                  ),
                ),
              ),
            ),
          ),
        ),
      )) in
    let z : 0 + d ≡ d = omega arith in
    ap hex_digit (sym z) ∙ AreDigits-get_or hex_characters 0 d all (omega (arith, h))

appended : (o : Out) (s t : List ℕ) → append_both (append_both o s) t ≡ append_both o (s ++ t)
appended o s t = rw (append_assoc, append_assoc) refl

print_byte_digits :
    (d : ℕ) (ds : List ℕ) (o : Out)
    → d < 256
    → print_digest (d ∷ ds) o
      ≡ print_digest ds (append_both o (hex_digit (d / 16) ∷ (hex_digit (d % 16) ∷ [])))
unfolding print_digest
print_byte_digits d ds o h = elim (Bool-cases (ltb d 16)) [
  | inl y ↦
      let zero_digit = printk-NoPercent (b'0' ∷ []) [] o (refl, tt) in
      let (k, e) = print_x-low d (append_both o (b'0' ∷ [])) (ltb→lt d 16 y) in
      let z : d / 16 ≡ 0 = ground (arith, y) in
      rw (print_digest, y, zero_digit, e, z)
        (ap (print_digest ds) (appended o (b'0' ∷ []) (hex_digit (d % 16) ∷ [])))
  | inr n ↦ let (k, e) = print_x-high d o (ltb→le d 16 n) h in rw (print_digest, n, e) refl
]

print_byte :
    (d : ℕ) (ds : List ℕ) (o : Out)
    → d < 256
    → print_digest (d ∷ ds) o
      ≡ print_digest ds (append_both o (hex_character (d / 16) ∷ (hex_character (d % 16) ∷ [])))
print_byte d ds o h =
    let high = hex_digit-hex_character (d / 16) (omega (arith, h)) in
    let low = hex_digit-hex_character (d % 16) (omega arith) in
    rw (← high, ← low) (print_byte_digits d ds o h)

-- For bytes, the two hexadecimal digits of each and a line feed go to the screen and to the serial
-- line.
pub print_digest-hex :
    (ds : List ℕ) (o : Out)
    → All (λ d. d < 256) ds
    → print_digest ds o ≡ some (append_both o (hex ds ++ (b'\n' ∷ [])))
unfolding print_digest
print_digest-hex [] o h = rw (print_digest, printk-NoPercent (b'\n' ∷ []) [] o (refl, tt)) refl
print_digest-hex (d ∷ ds) o (h, hs) =
    print_byte d ds o h
    ∙ print_digest-hex ds (append_both o (hex_character (d / 16) ∷ (hex_character (d % 16) ∷ [])))
        hs
    ∙ ap some (
        appended o (hex_character (d / 16) ∷ (hex_character (d % 16) ∷ []))
          (hex ds ++ (b'\n' ∷ [])))
