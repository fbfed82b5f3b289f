-- ===== src/Paging/Apart.antt =====
-- Walks for different pages end at different entries, and what a walk found stays where it is.
use banj_os.Base.{
  ℕ, zero, suc, ◌*◌, ◌/◌, ◌^◌, ◌<◌, ◌≡◌, refl, true, none, some, List, arith, ◌⊎◌, Bool-cases,
  Option-cases, inl, inr,
}
use banj_os.Frames.{pf_alloc}
use banj_os.Paging.{Tables, Mmu, index, frame_number, link, at, halted, next_table, descend}
use banj_os.Paging.Tree.{IsTree, Keeps, lookup}

-- Every index of the two addresses is the same.
abbrev pub SameIndices : (l v v' : ℕ) → Type 0
SameIndices zero v v' = index 0 v ≡ index 0 v'
SameIndices (suc l) v v' = (index (suc l) v ≡ index (suc l) v') × SameIndices l v v'

lookup-present :
    (l table v t i : ℕ) (f : Tables)
    → lookup (suc l) table v f ≡ some (t, i)
    → (f table (index (suc l) v)).present ≡ true
lookup-present l table v t i f e = elim (Bool-cases ((f table (index (suc l) v)).present)) [
  | inl p ↦ p
  | inr n ↦ absurd (let e' = rw n at e in ground arith)
]

lookup-next :
    (l table v t i : ℕ) (f : Tables)
    → lookup (suc l) table v f ≡ some (t, i)
    → lookup l ((f table (index (suc l) v)).addr * 4096) v f ≡ some (t, i)
lookup-next l table v t i f e = rw (lookup-present l table v t i f e) at e

module _ (s : Mmu) (lev : ℕ → ℕ) (out : List ℕ) (tree : IsTree s lev out) where
  pub lookup-lowest :
      (l table v t i : ℕ)
      → lev table ≡ suc l
      → lookup l table v (s.tables) ≡ some (t, i)
      → lev t ≡ 1
  lookup-lowest zero table v t i h e = let q : table ≡ t = ground (arith, e) in rw q at h
  lookup-lowest (suc l) table v t i h e =
      lookup-lowest l ((s.tables table (index (suc l) v)).addr * 4096) v t i
        (tree.below table (index (suc l) v) l h (lookup-present l table v t i (s.tables) e))
        (lookup-next l table v t i (s.tables) e)

  pub lookup-Keeps :
      (s' : Mmu) (lev' : ℕ → ℕ)
      → Keeps s s' lev lev'
      → (l table v t i : ℕ) → lev table ≡ suc l
      → lookup l table v (s.tables) ≡ some (t, i)
      → lookup l table v (s'.tables) ≡ some (t, i)
  lookup-Keeps s' lev' keep zero table v t i h e = e
  lookup-Keeps s' lev' keep (suc l) table v t i h e =
      let p = lookup-present l table v t i (s.tables) e in
      let same = keep.entries table (index (suc l) v) (omega (arith, h)) (inr p) in
      rw (same, p)
        (lookup-Keeps s' lev' keep l ((s.tables table (index (suc l) v)).addr * 4096) v t i
          (tree.below table (index (suc l) v) l h p) (lookup-next l table v t i (s.tables) e))

  pub lookup-single :
      (l table table' v v' t i : ℕ)
      → lev table ≡ suc l
      → lev table' ≡ suc l
      → lookup l table v (s.tables) ≡ some (t, i)
      → lookup l table' v' (s.tables) ≡ some (t, i)
      → (table ≡ table') × SameIndices l v v'
  lookup-single zero table table' v v' t i h h' e e' =
      (ground (arith, e, e'), ground (arith, e, e'))
  lookup-single (suc l) table table' v v' t i h h' e e' =
      let p = lookup-present l table v t i (s.tables) e in
      let p' = lookup-present l table' v' t i (s.tables) e' in
      let (same, rest) =
        lookup-single l ((s.tables table (index (suc l) v)).addr * 4096)
          ((s.tables table' (index (suc l) v')).addr * 4096) v v' t i
          (tree.below table (index (suc l) v) l h p) (tree.below table' (index (suc l) v') l h' p')
          (lookup-next l table v t i (s.tables) e) (lookup-next l table' v' t i (s.tables) e') in
      let (x, y) = tree.single table (index (suc l) v) table' (index (suc l) v') l h h' p p' same in
      (x, (y, rest))

-- Below 2 ^ 48 the four indices are those of one page only.
pub SameIndices-page :
    (v v' : ℕ) → v < 2 ^ 48 → v' < 2 ^ 48 → SameIndices 3 v v' → v / 4096 ≡ v' / 4096
SameIndices-page v v' h h' (a, (b, (c, d))) = omega (arith, a, b, c, d)

-- The addresses of a page lead to one entry.
pub lookup-page :
    (table v v' : ℕ) (f : Tables) → v / 4096 ≡ v' / 4096 → lookup 3 table v f ≡ lookup 3 table v' f
lookup-page table v v' f h =
    let a : index 3 v ≡ index 3 v' = omega (arith, h) in
    let b : index 2 v ≡ index 2 v' = omega (arith, h) in
    let c : index 1 v ≡ index 1 v' = omega (arith, h) in
    let d : index 0 v ≡ index 0 v' = omega (arith, h) in rw (a, b, c, d) refl

-- A walk that may allocate reaches an entry, or stops where no frame is left.
pub descend_total :
    (l table v : ℕ) (s : Mmu)
    → ((t : ℕ) × (i : ℕ) × (s' : Mmu) × (descend l table v true s ≡ (at t i, s')))
      ⊎ ((s' : Mmu) × (descend l table v true s ≡ (halted, s')) × (pf_alloc (s'.frames) ≡ none))
unfolding descend next_table
descend_total zero table v s = inl (table, index 0 v, s, refl)
descend_total (suc l) table v s =
    let entry = s.tables table (index (suc l) v) in
    elim (Bool-cases (entry.present)) [
      | inl p ↦ rw (descend, p) (descend_total l (entry.addr * 4096) v s)
      | inr n ↦ elim (Option-cases (pf_alloc (s.frames))) [
        | inl stop ↦ inr (s, rw (descend, n, stop) refl, stop)
        | inr ((p, f), a) ↦
            rw (descend, n, a)
              (descend_total l (frame_number p * 4096) v (link s f p table (index (suc l) v)))
      ]
    ]
