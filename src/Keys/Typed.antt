-- ===== src/Keys/Typed.antt =====
-- Which scan codes give a character, and which characters a key gives.
use banj_os.Base.{
  ℕ, zero, suc, ◌+◌, ◌-◌, ◌≡◌, ◌≤◌, ◌<◌, refl, Bool, true, false, List, [], ◌∷◌, ltb, ◌==◌,
  if◌then◌else◌, ltb→lt, ==→eq, arith, all_below, all_below_lem, Bool-cases, inl, inr,
}
use banj_os.Keys.{KeyCode}
use banj_os.Keys.Codes.{code}
use banj_os.Keys.Chars.{cases, switch, scan_code_to_char}

abbrev pressed : List (KeyCode × ℕ) → Bool
pressed [] = true
pressed ((k, c) ∷ rest) = if ltb (code k) 0x80 then pressed rest else false

switch-released :
    (rest : List (KeyCode × ℕ)) (n : ℕ) → pressed rest ≡ true → 0x80 ≤ n → switch rest n ≡ 0
unfolding switch
switch-released [] n p h = refl
switch-released ((k, c) ∷ rest) n p h = elim (Bool-cases (ltb (code k) 0x80)) [
  | inl below ↦
      let ih = switch-released rest n (rw below at p) h in
      let b = ltb→lt (code k) 0x80 below in ground (arith, ih, b, h)
  | inr above ↦ absurd (ground (arith, above, p))
]

-- The release of a key, and every other byte with the top bit set, gives no character.
pub scan_code_to_char-released : (n : ℕ) → 0x80 ≤ n → scan_code_to_char n ≡ 0
unfolding scan_code_to_char cases code
scan_code_to_char-released n h = switch-released cases n refl h

-- The scan code that gives `c`, searched below `n`; 0 when there is none.
abbrev key_of : (n c : ℕ) → ℕ
key_of zero c = 0
key_of (suc n) c = if scan_code_to_char n == c then n else key_of n c

abbrev gives : ℕ → Bool
gives c = scan_code_to_char (key_of 0x80 c) == c

letters : all_below 26 (λ i. gives (b'a' + i)) ≡ true
unfolding all_below scan_code_to_char switch cases code
letters = refl

abbrev pub IsTyped : ℕ → Type 0
IsTyped c = (n : ℕ) × (n < 0x80) × (scan_code_to_char n ≡ c)

key_of-bound : (n c : ℕ) → 0 < n → key_of n c < n
key_of-bound zero c h = absurd (omega arith)
key_of-bound (suc n) c h = elim (Bool-cases (scan_code_to_char n == c)) [
  | inl here ↦ ground (arith, here)
  | inr on ↦ rw on (elim (Bool-cases (ltb 0 n)) [
    | inl more ↦ let b = key_of-bound n c (ltb→lt 0 n more) in omega (arith, b)
    | inr last ↦ last_key n c (ground (arith, last))
  ])
]
  where
    last_key : (n c : ℕ) → n ≡ 0 → key_of n c < suc n
    last_key zero c e = omega arith
    last_key (suc n) c e = absurd (omega arith)

typed : (c : ℕ) → gives c ≡ true → IsTyped c
typed c h = (key_of 0x80 c, key_of-bound 0x80 c (omega arith), ==→eq _ c h)

-- Every letter can be typed: pressing one key gives it.
pub letter-IsTyped : (c : ℕ) → b'a' ≤ c → c ≤ b'z' → IsTyped c
letter-IsTyped c h k =
    let e : b'a' + (c - b'a') ≡ c = omega arith in
    rw e at (
      typed (b'a' + (c - b'a'))
        (all_below_lem 26 (λ i. gives (b'a' + i)) (c - b'a') letters (omega arith)))
