-- ===== src/Paging/Mapped.antt =====
-- A range of pages that `page_table_walk` goes over with a callback that sets each page's entry.
use banj_os.Base.{
  ℕ, ◌+◌, ◌/◌, ◌%◌, ◌^◌, ◌≤◌, ◌<◌, ◌≡◌, ◌∙◌, refl, some, List, arith, Bool-cases, inl, inr, ltb,
  ltb→lt, ltb→le, ◌==◌, ==→eq,
}
use banj_os.Paging.{Entry, Tables, Mmu, set_entry}
use banj_os.Paging.Tree.{IsTree, Walked, lookup}
use banj_os.Paging.Translate.{lookup-kept, set_entry_self}
use banj_os.Paging.Apart.{SameIndices-page, lookup-lowest, lookup-Keeps, lookup-single, lookup-page}
use banj_os.Paging.Range.{Callback}

-- The callback sets the entry of a page to `set addr` of what it was.
abbrev pub callback_of : (ℕ → Entry → Entry) → Callback
callback_of set addr t i s = record s {
  tables = set_entry (s.tables) t i (set addr (s.tables t i));
}

-- The entry of `v` is there, and `P` holds of it.
abbrev pub IsMapped : (P : ℕ → Entry → Type 0) (table : ℕ) → Mmu → ℕ → Type 0
IsMapped P table s v =
    (t : ℕ) × (i : ℕ) × (lookup 3 table v (s.tables) ≡ some (t, i)) × P v (s.tables t i)

abbrev pub AllMapped : (P : ℕ → Entry → Type 0) (table lo hi : ℕ) → Mmu → Type 0
AllMapped P table lo hi s = (v : ℕ) → lo ≤ v → v < hi → IsMapped P table s v

-- What the callback sets, `P` holds of.
abbrev pub Sets : (P : ℕ → Entry → Type 0) (set : ℕ → Entry → Entry) → Type 0
Sets P set =
    (addr v : ℕ) (e : Entry)
    → addr % 4096 ≡ 0
    → addr < 2 ^ 48
    → v / 4096 ≡ addr / 4096
    → P v (set addr e)

pub set_entry_above :
    (f : Tables) (t i : ℕ) (e : Entry) (lev : ℕ → ℕ) (q j : ℕ)
    → lev t ≡ 1
    → 1 < lev q
    → set_entry f t i e q j ≡ f q j
set_entry_above f t i e lev q j low h = elim (Bool-cases (t == q)) [
  | inl same ↦ absurd (ground (arith, same, low, h))
  | inr n ↦ rw n refl
]

-- An entry of the lowest level has no part in the tree.
set_entry-IsTree :
    (s : Mmu) (lev : ℕ → ℕ) (out : List ℕ) (t i : ℕ) (e : Entry)
    → IsTree s lev out
    → lev t ≡ 1
    → IsTree (record s { tables = set_entry (s.tables) t i e }) lev out
set_entry-IsTree s lev out t i e tree low = record {
  pool = tree.pool;
  in_use = tree.in_use;
  below = λ q j k h p.
      let same = set_entry_above (s.tables) t i e lev q j low (omega (arith, h)) in
      rw same (tree.below q j k h (rw same at p));
  single = λ q j q' j' k h h' p p' a.
      let same = set_entry_above (s.tables) t i e lev q j low (omega (arith, h)) in
      let same' = set_entry_above (s.tables) t i e lev q' j' low (omega (arith, h')) in
      tree.single q j q' j' k h h' (rw same at p) (rw same' at p') (rw (same, same') at a);
}

-- The walk for `addr` reached the entry `i` of `t`, which the callback then sets.
module _ (P : ℕ → Entry → Type 0) (set : ℕ → Entry → Entry) (sets : Sets P set) (table addr lo : ℕ)
    (s s' : Mmu) (lev : ℕ → ℕ) (out : List ℕ) (t i : ℕ) (tree : IsTree s lev out)
    (top : lev table ≡ 4) (aligned : addr % 4096 ≡ 0) (bound : addr < 2 ^ 48)
    (w : Walked 3 table addr s s' lev t i) where
  abbrev pub after_callback : Mmu
  after_callback = callback_of set addr t i s'

  abbrev pub new_entry : Entry
  new_entry = set addr (s'.tables t i)

  pub callback-IsTree : IsTree after_callback (w.lev') (w.out')
  callback-IsTree = set_entry-IsTree s' (w.lev') (w.out') t i new_entry (w.tree) (w.lowest)

  callback-lookup :
      (v : ℕ) → lookup 3 table v (after_callback.tables) ≡ lookup 3 table v (s'.tables)
  callback-lookup v =
      lookup-kept 3 table v s' after_callback (w.lev') (w.out') (w.tree) (w.level)
        (λ q j h. (set_entry_above (s'.tables) t i new_entry (w.lev') q j (w.lowest) h))

  new_page : (v : ℕ) → v / 4096 ≡ addr / 4096 → IsMapped P table after_callback v
  new_page v same = (
    t,
    i,
    callback-lookup v ∙ lookup-page table v addr (s'.tables) same ∙ w.found,
    rw (set_entry_self (s'.tables) t i new_entry) (sets addr v (s'.tables t i) aligned bound same),
  )

  old_page : (v : ℕ) → v < addr → IsMapped P table s v → IsMapped P table after_callback v
  old_page v less (t0, i0, l, a) =
      let l' = lookup-Keeps s lev out tree s' (w.lev') (w.keeps) 3 table v t0 i0 top l in
      let low = lookup-lowest s lev out tree 3 table v t0 i0 top l in
      let same = w.keeps.entries t0 i0 (omega (arith, low)) (inl low) in
      (t0, i0, callback-lookup v ∙ l', rw (other l' same) a)
    where
      other :
          lookup 3 table v (s'.tables) ≡ some (t0, i0)
          → s'.tables t0 i0 ≡ s.tables t0 i0
          → set_entry (s'.tables) t i new_entry t0 i0 ≡ s.tables t0 i0
      other l' same = elim (Bool-cases (t == t0)) [
        | inl e ↦ elim (Bool-cases (i == i0)) [
          | inl e' ↦ absurd (
              let t1 = ==→eq t t0 e in
              let i1 = ==→eq i i0 e' in
              let l2 : lookup 3 table v (s'.tables) ≡ some (t, i) = rw (t1, i1) l' in
              let (_, indices) =
                lookup-single s' (w.lev') (w.out') (w.tree) 3 table table addr v t i (w.level)
                  (w.level) (w.found) l2 in
              let p = SameIndices-page addr v bound (omega (arith, less, bound)) indices in
              omega (arith, p, less, aligned))
          | inr n ↦ rw (e, n) same
        ]
        | inr n ↦ rw n same
      ]

  pub callback-AllMapped :
      AllMapped P table lo addr s → AllMapped P table lo (addr + 4096) after_callback
  callback-AllMapped h v l u = elim (Bool-cases (ltb v addr)) [
    | inl old ↦ old_page v (ltb→lt v addr old) (h v l (ltb→lt v addr old))
    | inr new ↦ new_page v (omega (arith, u, ltb→le v addr new, aligned))
  ]
