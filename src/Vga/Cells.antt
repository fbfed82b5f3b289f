-- ===== src/Vga/Cells.antt =====
-- What the loops of the screen leave in each cell, and what scrolling does to the picture.
use Prim.Native.Nat.{bit_or}
use banj_os.Base.{
  ◌*◌, ◌%◌, ◌^◌, ◌≢◌, some, sym, ℕ, zero, suc, ◌+◌, ◌-◌, ◌≤◌, ◌<◌, ◌≡◌, ◌∙◌, refl, List, length,
  get_or, set, length-set, get_or-set_self, get_or-set_ne, arith, ltb, Bool-cases, inl, inr, ltb→lt,
  ltb→le,
}
use banj_os.Vga.{
  Vga, width, size, clear_cells, clear, move_up, scroll, display_attr_char, int_of_char,
}

pub length-clear_cells : (n i : ℕ) (b : List ℕ) → length (clear_cells n i b) ≡ length b
unfolding clear_cells
length-clear_cells zero i b = refl
length-clear_cells (suc n) i b = length-clear_cells n (suc i) (set b i 0) ∙ length-set b i 0

clear_cells-before :
    (n i : ℕ) (b : List ℕ) (j : ℕ) → j < i → get_or (clear_cells n i b) j 0 ≡ get_or b j 0
unfolding clear_cells
clear_cells-before zero i b j h = refl
clear_cells-before (suc n) i b j h =
    clear_cells-before n (suc i) (set b i 0) j (omega arith)
    ∙ get_or-set_ne b i j 0 0 (λ e. omega (arith, e))

clear_cells-inside :
    (n i : ℕ) (b : List ℕ) (j : ℕ)
    → i ≤ j
    → j < i + n
    → j < length b
    → get_or (clear_cells n i b) j 0 ≡ 0
unfolding clear_cells
clear_cells-inside zero i b j h k l = absurd (omega arith)
clear_cells-inside (suc n) i b j h k l = elim (Bool-cases (ltb i j)) [
  | inl later ↦
      clear_cells-inside n (suc i) (set b i 0) j (ltb→lt i j later) (omega arith)
        (omega (arith, length-set b i 0))
  | inr here ↦
      let e : i ≡ j = omega (arith, ltb→le i j here) in
      clear_cells-before n (suc i) (set b i 0) j (omega arith) ∙ rw e (get_or-set_self b j 0 0 l)
]

pub length-move_up : (n i : ℕ) (b : List ℕ) → length (move_up n i b) ≡ length b
unfolding move_up
length-move_up zero i b = refl
length-move_up (suc n) i b =
    length-move_up n (suc i) (set b i (get_or b (i + width) 0))
    ∙ length-set b i (get_or b (i + width) 0)

move_up-before : (n i : ℕ) (b : List ℕ) (j : ℕ) → j < i → get_or (move_up n i b) j 0 ≡ get_or b j 0
unfolding move_up
move_up-before zero i b j h = refl
move_up-before (suc n) i b j h =
    move_up-before n (suc i) (set b i (get_or b (i + width) 0)) j (omega arith)
    ∙ get_or-set_ne b i j (get_or b (i + width) 0) 0 (λ e. omega (arith, e))

move_up-inside :
    (n i : ℕ) (b : List ℕ) (j : ℕ)
    → i ≤ j
    → j < i + n
    → j < length b
    → get_or (move_up n i b) j 0 ≡ get_or b (j + width) 0
unfolding move_up
move_up-inside zero i b j h k l = absurd (omega arith)
move_up-inside (suc n) i b j h k l =
    let v = get_or b (i + width) 0 in
    elim (Bool-cases (ltb i j)) [
      | inl later ↦
          move_up-inside n (suc i) (set b i v) j (ltb→lt i j later) (omega arith)
            (omega (arith, length-set b i v))
          ∙ get_or-set_ne b i (j + width) v 0 (λ e. omega (arith, e, ltb→lt i j later))
      | inr here ↦
          let e : i ≡ j = omega (arith, ltb→le i j here) in
          move_up-before n (suc i) (set b i v) j (omega arith)
          ∙ rw e (get_or-set_self b j (get_or b (j + width) 0) 0 l)
    ]

-- Scrolling a whole screen moves each row one up and leaves the last row empty.
pub scroll_lem :
    (v : Vga)
    → length (v.buf) ≡ size
    → (j : ℕ)
    → (j < size - width → get_or ((scroll v).buf) j 0 ≡ get_or (v.buf) (j + width) 0)
      × (size - width ≤ j → j < size → get_or ((scroll v).buf) j 0 ≡ 0)
unfolding scroll
scroll_lem v len j =
    let moved = move_up (size - width) 0 (v.buf) in
    let l = length-move_up (size - width) 0 (v.buf) in
    (
      λ h.
          clear_cells-before width (size - width) moved j h
          ∙ move_up-inside (size - width) 0 (v.buf) j (omega arith) (omega arith)
              (omega (arith, len)),
      λ h k. clear_cells-inside width (size - width) moved j h k (omega (arith, l, len)),
    )

-- Clearing a whole screen empties every cell and leaves the cursor where it is.
pub clear_lem :
    (v : Vga) (j : ℕ)
    → length (v.buf) ≡ size
    → j < size
    → (get_or ((clear v).buf) j 0 ≡ 0) × ((clear v).cursor ≡ v.cursor)
unfolding clear
clear_lem v j len h =
    (clear_cells-inside size 0 (v.buf) j (omega arith) h (omega (arith, len)), refl)

-- A character that is given its place and its colours stands there, and nothing else changes.
pub display_attr_char_lem :
    (x y c fg bg : ℕ) (v v' : Vga)
    → length (v.buf) ≡ size
    → display_attr_char x y c fg bg v ≡ some v'
    → (get_or (v'.buf) (width * y + x) 0 ≡ bit_or (bit_or fg bg * 256) (int_of_char c) % 2 ^ 16)
      × ((k : ℕ) → width * y + x ≢ k → get_or (v'.buf) k 0 ≡ get_or (v.buf) k 0)
      × (v'.cursor ≡ v.cursor)
unfolding display_attr_char
display_attr_char_lem x y c fg bg v v' len e =
    let char = bit_or (bit_or fg bg * 256) (int_of_char c) % 2 ^ 16 in
    elim (Bool-cases (ltb (width * y + x) size)) [
      | inl on ↦
          let same : record v { buf = set (v.buf) (width * y + x) char } ≡ v' =
            let q = rw (display_attr_char, on) at e in ground (arith, q) in
          let inside = ltb→lt _ _ on in
          rw (sym same) (
            get_or-set_self (v.buf) (width * y + x) char 0 (omega (arith, inside, len)),
            λ k n. get_or-set_ne (v.buf) (width * y + x) k char 0 n,
            refl,
          )
      | inr off ↦ absurd (let q = rw (display_attr_char, off) at e in ground (arith, q))
    ]
