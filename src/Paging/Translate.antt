-- ===== src/Paging/Translate.antt =====
-- A page that is mapped translates to the address it was mapped to, and stays mapped.
use banj_os.Base.{
  ℕ, zero, suc, ◌*◌, ◌<◌, ◌≡◌, ◌∙◌, refl, Bool, true, false, some, List, arith, ◌==◌, Bool-cases,
  inl, inr,
}
use banj_os.Paging.{
  Entry, Tables, Mmu, set_entry, index, frame_number, at, next_table, descend, get_entry,
  virt_to_phys, direct_map_callback,
}
use banj_os.Paging.Pool.{reach}
use banj_os.Paging.Tree.{IsTree, lookup, descend-Walked}

-- Where all tables are there, the walk is the lookup.
pub descend-lookup :
    (l table v : ℕ) (allocate : Bool) (s : Mmu) (t i : ℕ)
    → lookup l table v (s.tables) ≡ some (t, i)
    → descend l table v allocate s ≡ (at t i, s)
unfolding descend next_table
descend-lookup zero table v allocate s t i e = ground arith
descend-lookup (suc l) table v allocate s t i e =
    let entry = s.tables table (index (suc l) v) in
    elim (Bool-cases (entry.present)) [
      | inl p ↦ rw (descend, p) (descend-lookup l (entry.addr * 4096) v allocate s t i (rw p at e))
      | inr n ↦ absurd (let e' = rw n at e in ground arith)
    ]

-- Only the tables above the lowest level matter for the way.
pub lookup-kept :
    (l table v : ℕ) (s s' : Mmu) (lev : ℕ → ℕ) (out : List ℕ)
    → IsTree s lev out
    → lev table ≡ suc l
    → ((q j : ℕ) → 1 < lev q → s'.tables q j ≡ s.tables q j)
    → lookup l table v (s'.tables) ≡ lookup l table v (s.tables)
lookup-kept zero table v s s' lev out tree h same = refl
lookup-kept (suc l) table v s s' lev out tree h same =
    let entry = s.tables table (index (suc l) v) in
    let e = same table (index (suc l) v) (omega (arith, h)) in
    elim (Bool-cases (entry.present)) [
      | inl p ↦
          rw (e, p)
            (lookup-kept l (entry.addr * 4096) v s s' lev out tree
              (tree.below table (index (suc l) v) l h p) same)
      | inr n ↦ rw (e, n) refl
    ]

-- The processor finds the entry of `v` with no table missing; it is present and writable, and `v`
-- translates to `p`.
abbrev pub Reaches : (table v p : ℕ) → Mmu → Type 0
Reaches table v p s =
    (t : ℕ) × (i : ℕ) × (get_entry table v false s ≡ (at t i, s))
    × ((s.tables t i).present ≡ true)
    × ((s.tables t i).read_write ≡ true)
    × (virt_to_phys table v s ≡ p)

pub set_entry_self : (f : Tables) (t i : ℕ) (e : Entry) → set_entry f t i e t i ≡ e
set_entry_self f t i e = ground arith

-- From tables that form a tree below `table`: the entry that a walk with allocation found is the one
-- that the next walk for the address finds, whether it may allocate or not, and it changes nothing.
pub get_entry-get_entry :
    (table v : ℕ) (s : Mmu) (lev : ℕ → ℕ) (out : List ℕ) (t i : ℕ) (s' : Mmu)
    → IsTree s lev out
    → lev table ≡ 4
    → get_entry table v true s ≡ (at t i, s')
    → (allocate : Bool) → get_entry table v allocate s' ≡ (at t i, s')
unfolding get_entry
get_entry-get_entry table v s lev out t i s' tree h e allocate =
    descend-lookup 3 table v allocate s' t i
      ((descend-Walked 3 table v s lev out t i s' tree h e).found)

-- From tables that form a tree below `table`: after the direct map's callback at the entry that the
-- walk with allocation found for an address below 2 ^ 52, that address translates to itself.
pub virt_to_phys-direct_map_callback :
    (table v : ℕ) (s : Mmu) (lev : ℕ → ℕ) (out : List ℕ) (t i : ℕ) (s' : Mmu)
    → IsTree s lev out
    → lev table ≡ 4
    → v < reach
    → get_entry table v true s ≡ (at t i, s')
    → virt_to_phys table v (direct_map_callback v t i s') ≡ v
unfolding virt_to_phys get_entry direct_map_callback
virt_to_phys-direct_map_callback table v s lev out t i s' tree h b e =
    let w = descend-Walked 3 table v s lev out t i s' tree h e in
    let mapped = direct_map_callback v t i s' in
    let way = lookup-kept 3 table v s' mapped (w.lev') (w.out') (w.tree) (w.level) (λ q j k.
      elim (Bool-cases (t == q)) [
        | inl same ↦ absurd (let low = w.lowest in ground (arith, same, low, k))
        | inr n ↦ rw n refl
      ]) in
    let found = descend-lookup 3 table v false mapped t i (way ∙ w.found) in
    rw
      (
        found,
        set_entry_self (s'.tables) t i
            (record (s'.tables t i) { present = true; read_write = true; addr = frame_number v }),
      )
      (omega (arith, b))
