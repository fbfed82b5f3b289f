-- ===== src/Printk.antt =====
-- src/printk.c: formatted output to the screen and the serial line. Integers are bit patterns of
-- their type; the macros' copies for each type are one function over the type's width. What goes to
-- `VGA_display_char` and to `SER_write` is collected in two lists.
pub mod Digits
pub mod Plain
pub mod Sign
pub mod Hex
mod Tests
use banj_os.Base.{
  ℕ, zero, suc, ◌+◌, ◌-◌, ◌*◌, ◌/◌, ◌%◌, ◌^◌, Bool, true, false, Option, none, some, List, [], ◌∷◌,
  ◌++◌, ltb, ◌==◌, if◌then◌else◌, length,
}

pub record Out : Type 0 where
  pub screen : List ℕ
  pub serial : List ℕ

pub data Size : Type 0 where
  int short long long_long : Size

abbrev pub width : Size → ℕ
width int = 32
width short = 16
width long = 64
width long_long = 64

-- The conversion to the unsigned type.
abbrev pub unsigned : Size → ℕ → ℕ
unsigned z n = n % 2 ^ width z

abbrev pub is_negative : Size → ℕ → Bool
is_negative z n = ltb (2 ^ (width z - 1) - 1) (unsigned z n)

pub display_char : ℕ → Out → Out
display_char c o = record o { screen = o.screen ++ (c ∷ []) }

pub ser_write : ℕ → Out → Out
ser_write c o = record o { serial = o.serial ++ (c ∷ []) }

-- Every printing function returns how much it printed; `none` is a fault.
abbrev pub Printed : Type 0
Printed = Option (Out × ℕ)

pub put : ℕ → Out → Out
unfolding display_char ser_write
put c o = ser_write c (display_char c o)

pub print_char : ℕ → Out → Printed
unfolding put
print_char c o = some (put c o, 1)

abbrev pub buf_size : ℕ
buf_size = 32

-- The do-while loop that fills `buf`, the lowest digit first. The fuel is the room left in `buf`, so
-- that `none` is a write past its end.
pub fill : (base : ℕ) → (digit : ℕ → ℕ) → (room n : ℕ) → Option (List ℕ)
fill base digit zero n = none
fill base digit (suc room) n =
    let rest = fill base digit room (n / base) in
    if ltb 0 (n / base)
    then elim rest [ none ↦ none | some ds ↦ some (digit (n % base) ∷ ds) ]
    else some (digit (n % base) ∷ [])

-- The loop from the last digit in `buf` down to the first.
pub print_buf : List ℕ → Out → Out
print_buf [] o = o
print_buf (d ∷ ds) o = put d (print_buf ds o)

pub print_filled : Option (List ℕ) → Out → Printed
print_filled none o = none
print_filled (some ds) o = some (print_buf ds o, length ds)

abbrev pub dec_digit : ℕ → ℕ
dec_digit r = b'0' + r

abbrev pub hex_digit : ℕ → ℕ
hex_digit r = if ltb r 10 then b'0' + r else b'a' + r - 10

pub print_unsigned : Size → ℕ → Out → Printed
print_unsigned z n o = print_filled (fill 10 dec_digit buf_size (unsigned z n)) o

-- `print_hex_long_long` alone takes a signed number: of a negative one the first remainder is not
-- positive, and the loop ends after it.
pub print_hex : Size → ℕ → Out → Printed
print_hex long_long n o =
    if is_negative long_long n
    then print_filled (some ((b'0' + 256 - (2 ^ 64 - unsigned long_long n) % 16) % 256 ∷ [])) o
    else print_filled (fill 16 hex_digit buf_size (unsigned long_long n)) o
print_hex z n o = print_filled (fill 16 hex_digit buf_size (unsigned z n)) o

-- `1 + …` of a result.
abbrev pub one_more : Printed → Printed
one_more none = none
one_more (some (o, k)) = some (o, 1 + k)

-- The minus sign goes to the screen alone.
pub print_signed : Size → ℕ → Out → Printed
unfolding display_char print_unsigned
print_signed z n o =
    if is_negative z n
    then one_more (print_unsigned z (2 ^ width z - unsigned z n) (display_char b'-' o))
    else print_unsigned z n o

pub print_sized : Size → ℕ → (specifier : ℕ) → Out → Printed
print_sized z n specifier o =
    if specifier == b'd'
    then print_signed z n o
    else if specifier == b'u'
    then print_unsigned z n o
    else if specifier == b'x'
    then print_hex z n o
    else some (o, 0)

pub print_string : List ℕ → Out → Out
print_string [] o = o
print_string (c ∷ s) o = print_string s (put c o)

-- What `va_arg` gives: an integer or a string.
pub data Arg : Type 0 where
  num : ℕ → Arg
  str : List ℕ → Arg

-- Where `fmt` stands: at a plain character, behind `%`, or behind a size.
pub data Mode : Type 0 where
  plain : Mode
  percent : Mode
  sized : Size → Mode

-- What is behind `%`: a size, or a directive with no argument, an integer or a string. The result
-- is the next mode, the arguments left, and what was printed.
abbrev pub Step : Type 0
Step = Option (Mode × List Arg × Out × ℕ)

abbrev pub then_plain : List Arg → Printed → Step
then_plain args none = none
then_plain args (some (o, k)) = some (plain, args, o, k)

-- A missing argument or one of the other kind is undefined.
pub with_num : List Arg → (ℕ → Printed) → Step
with_num (num n ∷ args) f = then_plain args (f n)
with_num _ f = none

pub with_str : List Arg → (List ℕ → Printed) → Step
with_str (str s ∷ args) f = then_plain args (f s)
with_str _ f = none

pub directive : ℕ → List Arg → Out → Step
directive c args o =
    if c == b'%'
    then then_plain args (print_char b'%' o)
    else if c == b's'
    then with_str args (λ s. some (print_string s o, length s))
    else if c == b'c'
    then with_num args (λ n. print_char (n % 256) o)
    else if c == b'd'
    then with_num args (λ n. print_signed int n o)
    else if c == b'u'
    then with_num args (λ n. print_unsigned int n o)
    else if c == b'x'
    then with_num args (λ n. print_hex int n o)
    else if c == b'p'
    then with_num args (λ n. print_hex long n o)
    else if c == b'h'
    then some (sized short, args, o, 0)
    else if c == b'l'
    then some (sized long, args, o, 0)
    else if c == b'q'
    then some (sized long_long, args, o, 0)
    else some (plain, args, put c (put b'%' o), 2)

-- One turn of `printk` at the character `c`.
pub turn : Mode → ℕ → List Arg → Out → Step
turn plain c args o =
    if c == b'%' then some (percent, args, o, 0) else then_plain args (print_char c o)
turn percent c args o = directive c args o
turn (sized z) c args o = with_num args (λ n. print_sized z n c o)

-- The loop over the format, with what is printed so far. Behind `%` and behind a size the terminator
-- is taken for a directive, and `fmt` then runs past it: a fault.
pub format : Mode → List ℕ → List Arg → Out → ℕ → Printed
format plain [] args o printed = some (o, printed)
format percent [] args o printed = none
format (sized z) [] args o printed = none
format mode (c ∷ fmt) args o printed = elim (turn mode c args o) [
  | none ↦ none
  | some (mode', args', o', k) ↦ format mode' fmt args' o' (printed + k)
]

pub printk : List ℕ → List Arg → Out → Printed
printk fmt args o = format plain fmt args o 0
