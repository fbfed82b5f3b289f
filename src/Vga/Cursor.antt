-- ===== src/Vga/Cursor.antt =====
-- The cursor stays on the screen, and a text on one line is shown where the cursor stood.
use banj_os.Base.{
  ℕ, zero, suc, ◌+◌, ◌-◌, ◌*◌, ◌≤◌, ◌<◌, ◌≡◌, ◌∙◌, refl, ap, false, List, [], ◌∷◌, All, length,
  get_or, set, length-set, get_or-set_self, get_or-set_ne, arith, ltb, leb, ◌==◌, Bool-cases, inl,
  inr, ltb→lt, lt→ltb,
}
use banj_os.Vga.{
  Vga, width, height, size, line, column, cell, move_up, scroll, newline, display_char, display_str,
}
use banj_os.Vga.Cells.{length-clear_cells, length-move_up}

-- The screen has all its cells, and the cursor stands on one.
pub record IsScreen (v : Vga) : Type 0 where
  pub cells : length (v.buf) ≡ size
  pub on_screen : v.cursor < size

scroll-cells : (v : Vga) → length (v.buf) ≡ size → length ((scroll v).buf) ≡ size
unfolding scroll
scroll-cells v h =
    length-clear_cells width (size - width) (move_up (size - width) 0 (v.buf))
    ∙ length-move_up (size - width) 0 (v.buf)
    ∙ h

scroll-on_screen :
    (v : Vga)
    → v.cursor < size
    → (scroll (record v { cursor = (line (v.cursor) + 1) * width })).cursor < size
unfolding scroll
scroll-on_screen v h = omega (arith, h)

newline-IsScreen : (v : Vga) → IsScreen v → IsScreen (newline v)
unfolding newline
newline-IsScreen v s =
    let next = (line (v.cursor) + 1) * width in
    elim (Bool-cases (leb (width * height) next)) [
      | inl below ↦ rw below (record {
        cells = scroll-cells (record v { cursor = next }) (s.cells);
        on_screen = scroll-on_screen v (s.on_screen);
      })
      | inr fits ↦ rw fits (record { cells = s.cells; on_screen = ground (arith, fits) })
    ]

-- Every character, the controls included, leaves all cells of the screen and the cursor on one.
pub display_char-IsScreen : (c : ℕ) (v : Vga) → IsScreen v → IsScreen (display_char c v)
unfolding display_char
display_char-IsScreen c v s = elim (Bool-cases (c == 0x0a)) [
  | inl nl ↦ rw nl (newline-IsScreen v s)
  | inr p ↦ elim (Bool-cases (c == 0x0d)) [
    | inl cr ↦
        rw (p, cr) (record { cells = s.cells; on_screen = let h = s.on_screen in omega (arith, h) })
    | inr q ↦
        let wrote = length-set (v.buf) (v.cursor) (cell c) ∙ s.cells in
        elim (Bool-cases (ltb (column (v.cursor)) (width - 1))) [
          | inl inside ↦
              rw (p, q, inside)
                (record {
                  cells = wrote;
                  on_screen =
                      let h = s.on_screen in
                      let k = ltb→lt (column (v.cursor)) (width - 1) inside in omega (arith, h, k);
                })
          | inr last ↦
              rw (p, q, last)
                (newline-IsScreen (record v { buf = set (v.buf) (v.cursor) (cell c) })
                  (record { cells = wrote; on_screen = s.on_screen }))
        ]
  ]
]

abbrev pub IsPrintable : ℕ → Type 0
IsPrintable c = ((c == 0x0a) ≡ false) × ((c == 0x0d) ≡ false)

display_char-inside :
    (c : ℕ) (v : Vga)
    → IsPrintable c
    → column (v.cursor) < width - 1
    → display_char c v ≡ record { buf = set (v.buf) (v.cursor) (cell c); cursor = v.cursor + 1 }
unfolding display_char
display_char-inside c v (p, q) h = let e = lt→ltb _ _ h in rw (p, q, e)

-- From `v` to `v'` the text `s` was written at the cursor, which moved behind it.
pub record Shows (v : Vga) (s : List ℕ) (v' : Vga) : Type 0 where
  pub behind : v'.cursor ≡ v.cursor + length s
  pub written : (i : ℕ) → i < length s → get_or (v'.buf) (v.cursor + i) 0 ≡ cell (get_or s i 0)
  pub kept_before : (j : ℕ) → j < v.cursor → get_or (v'.buf) j 0 ≡ get_or (v.buf) j 0
  pub kept_behind : (j : ℕ) → v.cursor + length s ≤ j → get_or (v'.buf) j 0 ≡ get_or (v.buf) j 0

Shows-more :
    (c : ℕ) (s : List ℕ) (v w v' : Vga)
    → v.cursor < size
    → length (v.buf) ≡ size
    → w.cursor ≡ v.cursor + 1
    → w.buf ≡ set (v.buf) (v.cursor) (cell c)
    → Shows w s v'
    → Shows v (c ∷ s) v'
Shows-more c s v w v' on len next e rest = record {
  behind = let b = rest.behind in omega (arith, b, next);
  written = written;
  kept_before = λ j h.
      rest.kept_before j (omega (arith, next, h))
      ∙ rw e (get_or-set_ne (v.buf) (v.cursor) j (cell c) 0 (λ q. omega (arith, q, h)));
  kept_behind = λ j h.
      rest.kept_behind j (omega (arith, next, h))
      ∙ rw e (get_or-set_ne (v.buf) (v.cursor) j (cell c) 0 (λ q. omega (arith, q, h)));
}
  where
    written :
        (i : ℕ) → i < suc (length s) → get_or (v'.buf) (v.cursor + i) 0 ≡ cell (get_or (c ∷ s) i 0)
    written zero h =
        let here : v.cursor + 0 ≡ v.cursor = omega arith in
        rw here (
          rest.kept_before (v.cursor) (omega (arith, next))
          ∙ rw e (get_or-set_self (v.buf) (v.cursor) (cell c) 0 (omega (arith, on, len))))
    written (suc i) h =
        let there : v.cursor + suc i ≡ w.cursor + i = omega (arith, next) in
        rw there (rest.written i (omega (arith, h)))

-- A text without line ends that fits behind the cursor is shown there, in order, and no other cell
-- changes; the cursor stands behind it.
pub display_str-Shows :
    (s : List ℕ) (v : Vga)
    → IsScreen v
    → All IsPrintable s
    → column (v.cursor) + length s < width
    → Shows v s (display_str s v)
unfolding display_str
display_str-Shows [] v ok p fits = record {
  behind = omega arith;
  written = λ i h. absurd (omega (arith, h));
  kept_before = λ j h. refl;
  kept_behind = λ j h. refl;
}
display_str-Shows (c ∷ s) v ok (p, ps) fits =
    let w = display_char c v in
    let e = display_char-inside c v p (omega (arith, fits)) in
    let at_next : w.cursor ≡ v.cursor + 1 = ap (λ w. w.cursor) e in
    let in_buf : w.buf ≡ set (v.buf) (v.cursor) (cell c) = ap (λ w. w.buf) e in
    let rest =
      display_str-Shows s w (display_char-IsScreen c v ok) ps (omega (arith, fits, at_next)) in
    Shows-more c s v w (display_str s w) (ok.on_screen) (ok.cells) at_next in_buf rest
