-- ===== src/Vga.antt =====
-- src/vga.c: the text screen. The screen memory is a list of cells; characters are bytes. Cells are
-- words of the low byte a character and the high byte its colours.
pub mod Cells
pub mod Cursor
mod Tests
use Prim.Native.Nat.{bit_or}
use banj_os.Base.{
  ℕ, zero, suc, ◌+◌, ◌-◌, ◌*◌, ◌/◌, ◌%◌, ◌^◌, Bool, true, false, Option, none, some, List, [], ◌∷◌,
  ltb, leb, ◌==◌, if◌then◌else◌, length, get_or, set,
}

abbrev pub width : ℕ
width = 80

abbrev pub height : ℕ
height = 25

abbrev pub size : ℕ
size = 2000

pub record Vga : Type 0 where
  pub buf : List ℕ
  pub cursor : ℕ

abbrev pub line : ℕ → ℕ
line cursor = cursor / width

abbrev pub column : ℕ → ℕ
column cursor = cursor % width

-- `memset` of `n` cells from `i` on, with a byte that is 0.
pub clear_cells : (n i : ℕ) → List ℕ → List ℕ
clear_cells zero i b = b
clear_cells (suc n) i b = clear_cells n (suc i) (set b i 0)

-- The value of `memset` is converted to a byte, so 0x0f << 8 clears with 0.
pub clear : Vga → Vga
clear v = record v { buf = clear_cells size 0 (v.buf) }

-- The loop of `VGA_scroll`: `n` turns from `i` on.
pub move_up : (n i : ℕ) → List ℕ → List ℕ
move_up zero i b = b
move_up (suc n) i b = move_up n (suc i) (set b i (get_or b (i + width) 0))

pub scroll : Vga → Vga
scroll v = record {
  buf = clear_cells width (size - width) (move_up (size - width) 0 (v.buf));
  cursor = (line (v.cursor) - 1) * width;
}

pub newline : Vga → Vga
newline v =
    let next = (line (v.cursor) + 1) * width in
    if leb (width * height) next
    then scroll (record v { cursor = next })
    else record v { cursor = next }

-- `char` is signed: a byte with the top bit set covers the colours.
abbrev pub cell : ℕ → ℕ
cell c = if ltb c 0x80 then 0x0f00 + c else 0xff00 + c

pub display_char : ℕ → Vga → Vga
display_char c v =
    if c == 0x0a
    then newline v
    else if c == 0x0d
    then record v { cursor = line (v.cursor) }
    else if ltb (column (v.cursor)) (width - 1)
    then record { buf = set (v.buf) (v.cursor) (cell c); cursor = v.cursor + 1 }
    else newline (record v { buf = set (v.buf) (v.cursor) (cell c) })

pub display_str : List ℕ → Vga → Vga
display_str [] v = v
display_str (c ∷ s) v = display_str s (display_char c v)

abbrev pub row_count : ℕ
row_count = height

abbrev pub col_count : ℕ
col_count = width

-- A character as an `int`, of 32 bits.
abbrev pub int_of_char : ℕ → ℕ
int_of_char c = if ltb c 0x80 then c else 0xffffff00 + c

-- `VGA_display_attr_char` at a place that is not negative. There is no test of the place: `none` is a
-- write behind the screen's memory.
unfoldable pub display_attr_char : (x y c fg bg : ℕ) → Vga → Option Vga
display_attr_char x y c fg bg v =
    if ltb (width * y + x) size
    then some (record v {
      buf = set (v.buf) (width * y + x) (bit_or (bit_or fg bg * 256) (int_of_char c) % 2 ^ 16);
    })
    else none
