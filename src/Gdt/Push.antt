-- ===== src/Gdt/Push.antt =====
-- Pushing descriptors appends them to the table, as long as it has room.
use banj_os.Base.{
  ℕ, zero, suc, ◌+◌, ◌*◌, ◌≤◌, ◌<◌, ◌≡◌, ◌∙◌, refl, some, List, [], ◌∷◌, lt→ltb, length, get_or,
  set, length-set, get_or-set_self, get_or-set_ne, arith,
}
use banj_os.Gdt.{Gdt, gdt_size, push_dq, push_all, push}

-- From `g` to `g'` the words `ds` were appended.
pub record Appends (ds : List ℕ) (g g' : Gdt) : Type 0 where
  pub room : length (g'.table) ≡ gdt_size
  pub moved : g'.top ≡ g.top + length ds
  pub stored : (i : ℕ) → i < length ds → get_or (g'.table) (g.top + i) 0 ≡ get_or ds i 0
  pub kept : (j : ℕ) → j < g.top → get_or (g'.table) j 0 ≡ get_or (g.table) j 0
  pub same_offset : g'.kernel_desc_offset ≡ g.kernel_desc_offset

push_dq-room :
    (d : ℕ) (g : Gdt)
    → g.top < gdt_size
    → push_dq d g ≡ some (g.top * 8, record g { table = set (g.table) (g.top) d; top = g.top + 1 })
unfolding push_dq
push_dq-room d g h = let e = lt→ltb _ _ h in rw e

Appends-more :
    (d : ℕ) (ds : List ℕ) (g g' : Gdt)
    → length (g.table) ≡ gdt_size
    → g.top < gdt_size
    → Appends ds (record g { table = set (g.table) (g.top) d; top = g.top + 1 }) g'
    → Appends (d ∷ ds) g g'
Appends-more d ds g g' len h a = record {
  room = a.room;
  moved = let m = a.moved in omega (arith, m);
  stored = stored;
  kept = λ j k.
      a.kept j (omega (arith, k))
      ∙ get_or-set_ne (g.table) (g.top) j d 0 (λ e. omega (arith, e, k));
  same_offset = a.same_offset;
}
  where
    stored : (i : ℕ) → i < suc (length ds) → get_or (g'.table) (g.top + i) 0 ≡ get_or (d ∷ ds) i 0
    stored zero k =
        let e : g.top + 0 ≡ g.top = omega arith in
        rw e (
          a.kept (g.top) (omega arith)
          ∙ get_or-set_self (g.table) (g.top) d 0 (omega (arith, h, len)))
    stored (suc i) k =
        let e : g.top + suc i ≡ g.top + 1 + i = omega arith in rw e (a.stored i (omega (arith, k)))

push_all-room :
    (ds : List ℕ) (g : Gdt)
    → length (g.table) ≡ gdt_size
    → g.top + length ds ≤ gdt_size
    → (g' : Gdt) × (push_all ds g ≡ some g') × Appends ds g g'
unfolding push_all
push_all-room [] g len h = (
  g,
  refl,
  record {
    room = len;
    moved = omega arith;
    stored = λ i k. absurd (omega (arith, k));
    kept = λ j k. refl;
    same_offset = refl;
  },
)
push_all-room (d ∷ ds) g len h =
    let next : Gdt = record g { table = set (g.table) (g.top) d; top = g.top + 1 } in
    let (g', e, a) =
      push_all-room ds next (length-set (g.table) (g.top) d ∙ len) (omega (arith, h)) in
    (
      g',
      rw (push_all, push_dq-room d g (omega (arith, h))) e,
      Appends-more d ds g g' len (omega (arith, h)) a,
    )

-- With room for the words, `GDT_push` stores them in order behind those already in the table, which
-- stay as they are, and returns the offset in bytes of the first one.
pub push-Appends :
    (ds : List ℕ) (g : Gdt)
    → length (g.table) ≡ gdt_size
    → g.top + length ds ≤ gdt_size
    → (g' : Gdt) × (push ds g ≡ some (8 * g.top, g')) × Appends ds g g'
unfolding push
push-Appends ds g len h =
    let (g', e, a) = push_all-room ds g len h in
    let swap : 8 * g.top ≡ g.top * 8 = omega arith in (g', rw (push, e, swap) refl, a)
