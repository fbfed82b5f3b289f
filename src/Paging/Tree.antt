-- ===== src/Paging/Tree.antt =====
-- The tables form levels, and a walk that allocates ends at an entry that later walks find.
use banj_os.Base.{
  ℕ, zero, suc, ◌*◌, ◌<◌, ◌≡◌, ◌∙◌, sym, ap, refl, true, false, Option, none, some, List, ◌∷◌, has,
  arith, ◌==◌, if◌then◌else◌, Bool-cases, Option-cases, inl, inr, ==→eq, ◌⊎◌, ◌≢◌,
}
use banj_os.Frames.{Frames, pf_alloc, write}
use banj_os.Paging.{Tables, Mmu, index, frame_number, link, next_table, at, descend}
use banj_os.Paging.Pool.{IsPool, IsNew, pf_alloc-IsNew}

-- `lev` is 0 for what is no table, and one more than the level of a table.
pub record IsTree (s : Mmu) (lev : ℕ → ℕ) (out : List ℕ) : Type 0 where
  pub pool : IsPool (s.frames) out
  pub in_use : (t : ℕ) → 0 < lev t → has t out ≡ true
  pub below :
      (t i k : ℕ)
      → lev t ≡ suc (suc k)
      → (s.tables t i).present ≡ true
      → lev ((s.tables t i).addr * 4096) ≡ suc k
  pub single :
      (t i t' i' k : ℕ)
      → lev t ≡ suc (suc k)
      → lev t' ≡ suc (suc k)
      → (s.tables t i).present ≡ true
      → (s.tables t' i').present ≡ true
      → (s.tables t i).addr * 4096 ≡ (s.tables t' i').addr * 4096
      → (t ≡ t') × (i ≡ i')

-- The walk that only reads.
abbrev pub lookup : (l table virt_addr : ℕ) → Tables → Option (ℕ × ℕ)
lookup zero table v f = some (table, index 0 v)
lookup (suc l) table v f =
    let entry = f table (index (suc l) v) in
    let rest = lookup l (entry.addr * 4096) v f in if entry.present then rest else none

-- What allocation leaves: all levels, the entries of the lowest level, and those that are present.
pub record Keeps (s s' : Mmu) (lev lev' : ℕ → ℕ) : Type 0 where
  pub levels : (q : ℕ) → 0 < lev q → lev' q ≡ lev q
  pub entries :
      (q j : ℕ)
      → 0 < lev q
      → (lev q ≡ 1) ⊎ ((s.tables q j).present ≡ true)
      → s'.tables q j ≡ s.tables q j

-- The walk from the level `l` reached the entry `i` of `t`: a later one finds it, and what stood in
-- the tables before stands there still.
pub record Walked (l table v : ℕ) (s s' : Mmu) (lev : ℕ → ℕ) (t i : ℕ) : Type 0 where
  pub lev' : ℕ → ℕ
  pub out' : List ℕ
  pub tree : IsTree s' lev' out'
  pub found : lookup l table v (s'.tables) ≡ some (t, i)
  pub lowest : lev' t ≡ 1
  pub level : lev' table ≡ suc l
  pub keeps : Keeps s s' lev lev'

-- A cleared new table of the level `k`, entered in a table above it.
module _ (s : Mmu) (lev : ℕ → ℕ) (out : List ℕ) (table i k p : ℕ) (f : Frames)
    (tr : IsTree s lev out) (above : lev table ≡ suc (suc k))
    (fresh : IsPool f (p ∷ out) × IsNew out p) where
  pub new_level : lev p ≡ 0
  new_level = elim (Bool-cases (0 == lev p)) [
    | inl z ↦ sym (==→eq 0 (lev p) z)
    | inr n ↦ let u = tr.in_use p (ground (arith, n)) in let v = fresh.1.unused in cc
  ]

  pub address : frame_number p * 4096 ≡ p
  address = let a = fresh.1.aligned in let b = fresh.1.below in omega (arith, a, b)

  -- An entry above a table is the new one, or one of before.
  link-cases :
      (t j m : ℕ)
      → write lev p (suc k) t ≡ suc (suc m)
      → ((link s f p table i).tables t j).present ≡ true
      → ((t ≡ table) × (j ≡ i) × (m ≡ k) × (((link s f p table i).tables t j).addr * 4096 ≡ p))
        ⊎ ((lev t ≡ suc (suc m))
            × ((s.tables t j).present ≡ true)
            × ((link s f p table i).tables t j ≡ s.tables t j))
  unfolding link
  link-cases t j m h q = elim (Bool-cases (p == t)) [
    | inl new ↦ elim (Bool-cases (table == t)) [
      | inl e ↦ absurd (let z = new_level in ground (arith, z, new, e, above))
      | inr n ↦ absurd (let q' = rw (n, new) at q in ground arith)
    ]
    | inr old ↦
        let h' = rw old at h in
        elim (Bool-cases (table == t)) [
          | inl e ↦ elim (Bool-cases (i == j)) [
            | inl here ↦
                let a = address in
                inl (
                  ground (arith, e),
                  ground (arith, here),
                  ground (arith, e, h', above),
                  rw (e, here) a,
                )
            | inr n ↦ let q' = rw (e, n, old) at q in inr (h', q', rw (e, n, old) refl)
          ]
          | inr n ↦ let q' = rw (n, old) at q in inr (h', q', rw (n, old) refl)
        ]
  ]

  -- A table of an old entry is not the new one.
  old_child :
      (t j m : ℕ)
      → lev t ≡ suc (suc m)
      → (s.tables t j).present ≡ true
      → p ≢ (s.tables t j).addr * 4096
  old_child t j m h q e =
      let c = tr.below t j m h q in let z = rw e at new_level in omega (arith, z, c)

  link-below :
      (t j m : ℕ)
      → write lev p (suc k) t ≡ suc (suc m)
      → ((link s f p table i).tables t j).present ≡ true
      → write lev p (suc k) (((link s f p table i).tables t j).addr * 4096) ≡ suc m
  link-below t j m h q = elim (link-cases t j m h q) [
    | inl (e, e', mk, a) ↦ rw (a, mk) (ground arith)
    | inr (l, o, e) ↦
        rw e (let c = tr.below t j m l o in let n = old_child t j m l o in ground (arith, c, n))
  ]

  link-single :
      (t j t' j' m : ℕ)
      → write lev p (suc k) t ≡ suc (suc m)
      → write lev p (suc k) t' ≡ suc (suc m)
      → ((link s f p table i).tables t j).present ≡ true
      → ((link s f p table i).tables t' j').present ≡ true
      → ((link s f p table i).tables t j).addr * 4096
        ≡ ((link s f p table i).tables t' j').addr * 4096
      → (t ≡ t') × (j ≡ j')
  link-single t j t' j' m h h' q q' e = elim (link-cases t j m h q) [
    | inl (x, y, _, a) ↦ elim (link-cases t' j' m h' q') [
      | inl (x', y', _, a') ↦ (x ∙ sym x', y ∙ sym y')
      | inr (l', o', b') ↦ absurd (old_child t' j' m l' o' (sym a ∙ e ∙ ap (λ x. x.addr * 4096) b'))
    ]
    | inr (l, o, b) ↦ elim (link-cases t' j' m h' q') [
      | inl (x', y', _, a') ↦
          absurd (old_child t j m l o (sym a' ∙ sym e ∙ ap (λ x. x.addr * 4096) b))
      | inr (l', o', b') ↦
          tr.single t j t' j' m l l' o o'
            (sym (ap (λ x. x.addr * 4096) b) ∙ e ∙ ap (λ x. x.addr * 4096) b')
    ]
  ]

  pub link-IsTree : IsTree (link s f p table i) (write lev p (suc k)) (p ∷ out)
  unfolding link
  link-IsTree = record {
    pool = fresh.0;
    in_use = λ t h. elim (Bool-cases (p == t)) [
      | inl e ↦ ground (arith, e)
      | inr n ↦ let u = tr.in_use t (ground (arith, n, h)) in ground (arith, n, u)
    ];
    below = link-below;
    single = link-single;
  }

  linked_entry : ((link s f p table i).tables table i).present ≡ true
  unfolding link
  linked_entry = ground arith

  linked_addr : ((link s f p table i).tables table i).addr * 4096 ≡ p
  unfolding link
  linked_addr = let a = address in ground (arith, a)

  not_new : (q : ℕ) → 0 < lev q → (p == q) ≡ false
  not_new q h = let z = new_level in ground (arith, z, h)

  link-Keeps :
      (s.tables table i).present ≡ false → Keeps s (link s f p table i) lev (write lev p (suc k))
  unfolding link
  link-Keeps absent_entry = record {
    levels = λ q h. rw (not_new q h) refl;
    entries = λ q j h c. elim (Bool-cases (table == q)) [
      | inl e ↦ elim (Bool-cases (i == j)) [
        | inl e' ↦ absurd (elim c [
          | inl low ↦ ground (arith, low, above, e)
          | inr on ↦ ground (arith, on, absent_entry, e, e')
        ])
        | inr n' ↦ rw (e, n', not_new q h) refl
      ]
      | inr n ↦ rw (n, not_new q h) refl
    ];
  }

  table_level : write lev p (suc k) table ≡ suc (suc k)
  table_level = rw (not_new table (omega (arith, above))) above

pub Keeps-trans :
    (s s1 s' : Mmu) (lev lev1 lev' : ℕ → ℕ)
    → Keeps s s1 lev lev1
    → Keeps s1 s' lev1 lev'
    → Keeps s s' lev lev'
Keeps-trans s s1 s' lev lev1 lev' a b = record {
  levels = λ q h. b.levels q (let e = a.levels q h in omega (arith, e, h)) ∙ a.levels q h;
  entries = λ q j h c.
      let e = a.levels q h in
      let x = a.entries q j h c in
      let c' : (lev1 q ≡ 1) ⊎ ((s1.tables q j).present ≡ true) = elim c [
        | inl low ↦ inl (e ∙ low)
        | inr on ↦ inr (ap (λ n. n.present) x ∙ on)
      ] in
      b.entries q j (omega (arith, e, h)) c' ∙ x;
}

-- One level more, over the table `c`.
Walked-down :
    (l table c v : ℕ) (s s1 s' : Mmu) (lev lev1 : ℕ → ℕ) (t i : ℕ)
    → Keeps s s1 lev lev1
    → lev1 table ≡ suc (suc l)
    → (s1.tables table (index (suc l) v)).present ≡ true
    → (s1.tables table (index (suc l) v)).addr * 4096 ≡ c
    → Walked l c v s1 s' lev1 t i
    → Walked (suc l) table v s s' lev t i
Walked-down l table c v s s1 s' lev lev1 t i step high p a w =
    let positive : 0 < lev1 table = omega (arith, high) in
    let same = w.keeps.entries table (index (suc l) v) positive (inr p) in
    record {
      lev' = w.lev';
      out' = w.out';
      tree = w.tree;
      found = rw (same, p, a) (w.found);
      lowest = w.lowest;
      level = w.keeps.levels table positive ∙ high;
      keeps = Keeps-trans s s1 s' lev lev1 (w.lev') step (w.keeps);
    }

pub Keeps-refl : (s : Mmu) (lev : ℕ → ℕ) → Keeps s s lev lev
Keeps-refl s lev = record { levels = λ q h. refl; entries = λ q j h c. refl }

-- A walk from a table of the level `l` that allocates what is absent and reaches an entry.
pub descend-Walked :
    (l table v : ℕ) (s : Mmu) (lev : ℕ → ℕ) (out : List ℕ) (t i : ℕ) (s' : Mmu)
    → IsTree s lev out
    → lev table ≡ suc l
    → descend l table v true s ≡ (at t i, s')
    → Walked l table v s s' lev t i
unfolding descend next_table
descend-Walked zero table v s lev out t i s' tree h e =
    let e0 : at table (index 0 v) ≡ at t i = ap (λ x. x.0) e in
    let e1 : s ≡ s' = ap (λ x. x.1) e in
    let t0 : table ≡ t = ground arith in
    let i0 : index 0 v ≡ i = ground arith in
    rw (← e1, ← t0, ← i0)
      (record {
        lev' = lev;
        out' = out;
        tree = tree;
        found = refl;
        lowest = h;
        level = h;
        keeps = Keeps-refl s lev;
      })
descend-Walked (suc l) table v s lev out t i s' tree h e =
    let entry = s.tables table (index (suc l) v) in
    elim (Bool-cases (entry.present)) [
      | inl p ↦
          Walked-down l table (entry.addr * 4096) v s s s' lev lev t i (Keeps-refl s lev) h p refl (
            descend-Walked l (entry.addr * 4096) v s lev out t i s' tree
              (tree.below table (index (suc l) v) l h p) (rw (descend, p) at e))
      | inr n ↦ elim (Option-cases (pf_alloc (s.frames))) [
        | inl none_left ↦ absurd (let e' = rw (descend, n, none_left) at e in ground arith)
        | inr ((p, f), a) ↦
            let fresh = pf_alloc-IsNew (s.frames) out p f (tree.pool) a in
            let m = index (suc l) v in
            let e' = rw (descend, n, a, address s lev out table m l p f tree h fresh) at e in
            Walked-down l table p v s (link s f p table m) s' lev (write lev p (suc l)) t i
              (link-Keeps s lev out table m l p f tree h fresh n)
              (table_level s lev out table m l p f tree h fresh)
              (linked_entry s lev out table m l p f tree h fresh)
              (linked_addr s lev out table m l p f tree h fresh)
              (descend-Walked l p v (link s f p table m) (write lev p (suc l)) (p ∷ out) t i s'
                (link-IsTree s lev out table m l p f tree h fresh) (ground arith) e')
      ]
    ]
