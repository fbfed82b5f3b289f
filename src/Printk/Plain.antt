-- ===== src/Printk/Plain.antt =====
-- The text around the directives, and a format that stops inside one.
use banj_os.Base.{
  ℕ, ◌+◌, ◌≡◌, ap, ◌∙◌, false, none, some, List, [], ◌∷◌, ◌++◌, ◌==◌, length, arith, All,
  append_assoc, append-nil,
}
use banj_os.Printk.{Out, Arg, plain, format, printk, turn, put, print_char, display_char, ser_write}
use banj_os.Printk.Digits.{append_both}

abbrev pub NoPercent : List ℕ → Type 0
NoPercent s = All (λ c. (c == b'%') ≡ false) s

format_one :
    (c : ℕ) (fmt : List ℕ) (args : List Arg) (o : Out) (k : ℕ)
    → (c == b'%') ≡ false
    → format plain (c ∷ fmt) args o k ≡ format plain fmt args (append_both o (c ∷ [])) (k + 1)
unfolding format turn print_char put display_char ser_write
format_one c fmt args o k p = rw (format, p)

pub format_text :
    (s fmt : List ℕ) (args : List Arg) (o : Out) (k : ℕ)
    → NoPercent s
    → format plain (s ++ fmt) args o k ≡ format plain fmt args (append_both o s) (k + length s)
format_text [] fmt args o k p =
    rw (append-nil, append-nil) (ap (format plain fmt args o) (omega arith))
format_text (c ∷ s) fmt args o k (p, ps) =
    format_one c (s ++ fmt) args o k p
    ∙ format_text s fmt args (append_both o (c ∷ [])) (k + 1) ps
    ∙ ap (λ out. format plain fmt args out (k + 1 + length s)) joined
    ∙ ap (format plain fmt args (append_both o (c ∷ s))) (omega arith)
  where
    joined : append_both (append_both o (c ∷ [])) s ≡ append_both o (c ∷ s)
    joined = rw (append_assoc, append_assoc)

-- A format without `%` is printed as it is on both outputs, and its length is returned.
pub printk-NoPercent :
    (s : List ℕ) (args : List Arg) (o : Out)
    → NoPercent s
    → printk s args o ≡ some (append_both o s, length s)
unfolding printk format
printk-NoPercent s args o p =
    let e = format_text s [] args o 0 p in
    rw append-nil at e ∙ ap (λ k. some (append_both o s, k)) (omega arith)

-- A format that ends in a lone `%` behind text makes `printk` read past the end of the format.
pub printk-NoPercent_percent :
    (s : List ℕ) (args : List Arg) (o : Out) → NoPercent s → printk (s ++ (b'%' ∷ [])) args o ≡ none
unfolding printk format turn
printk-NoPercent_percent s args o p = format_text s (b'%' ∷ []) args o 0 p
