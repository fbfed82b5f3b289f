-- ===== src/Paging/Walk.antt =====
-- The loop of `page_table_walk` ends with every page of its range set, or where no frame is left.
use banj_os.Base.{
  ℕ, zero, suc, ◌+◌, ◌*◌, ◌%◌, ◌^◌, ◌≤◌, ◌<◌, ◌≡◌, ap, refl, true, false, none, List, arith,
  Bool-cases, inl, inr, ltb, ltb→lt, ltb→le,
}
use banj_os.Regions.{page_size}
use banj_os.Frames.{pf_alloc}
use banj_os.Paging.{Entry, Mmu, at, halted, get_entry}
use banj_os.Paging.Tree.{IsTree, descend-Walked}
use banj_os.Paging.Apart.{descend_total}
use banj_os.Paging.Mapped.{callback_of, AllMapped, Sets, callback-IsTree, callback-AllMapped}
use banj_os.Paging.Range.{Callback, Outcome, done, halts, faults, spins, page_table_walk}

walk_done :
    (k table addr end_addr : ℕ) (callback : Callback) (s : Mmu)
    → end_addr ≤ addr
    → page_table_walk (suc k) table addr end_addr callback s ≡ done s
unfolding page_table_walk
walk_done k table addr end_addr callback s h =
    let e : ltb addr end_addr ≡ false = ground arith in rw (page_table_walk, e) refl

walk_at :
    (k table addr end_addr t i : ℕ) (callback : Callback) (s s' : Mmu)
    → ltb addr end_addr ≡ true
    → get_entry table addr true s ≡ (at t i, s')
    → page_table_walk (suc k) table addr end_addr callback s
      ≡ page_table_walk k table (addr + page_size) end_addr callback (callback addr t i s')
unfolding page_table_walk
walk_at k table addr end_addr t i callback s s' more e =
    rw (page_table_walk, more, e)
      (ap
        (λ r.
          page_table_walk k table (addr + page_size) end_addr callback (callback addr t i (r.1)))
        e)

walk_halted :
    (k table addr end_addr : ℕ) (callback : Callback) (s s' : Mmu)
    → ltb addr end_addr ≡ true
    → get_entry table addr true s ≡ (halted, s')
    → page_table_walk (suc k) table addr end_addr callback s ≡ halts s'
unfolding page_table_walk
walk_halted k table addr end_addr callback s s' more e =
    rw (page_table_walk, more, e) (ap (λ r. halts (r.1)) e)

-- The tables still form a tree, and `P` holds of the entry of every address of the range; or the
-- memory ended, with no frame left.
abbrev pub Ends : (P : ℕ → Entry → Type 0) (table lo hi : ℕ) → Outcome → Type 0
Ends P table lo hi (done s) =
    (lev : ℕ → ℕ) × (out : List ℕ) × IsTree s lev out × (lev table ≡ 4) × AllMapped P table lo hi s
Ends P table lo hi (halts s) = pf_alloc (s.frames) ≡ none
Ends P table lo hi faults = ⊥
Ends P table lo hi spins = ⊥

module _ (P : ℕ → Entry → Type 0) (set : ℕ → Entry → Entry) (sets : Sets P set) where
  pub walk-Ends :
      (k table addr lo end_addr : ℕ) (s : Mmu) (lev : ℕ → ℕ) (out : List ℕ)
      → IsTree s lev out
      → lev table ≡ 4
      → addr % 4096 ≡ 0
      → end_addr ≤ 2 ^ 48
      → end_addr ≤ addr + 4096 * k
      → AllMapped P table lo addr s
      → Ends P table lo end_addr (page_table_walk (suc k) table addr end_addr (callback_of set) s)
  unfolding get_entry
  walk-Ends zero table addr lo end_addr s lev out tree top al b fuel h =
      let past : end_addr ≤ addr = omega (arith, fuel) in
      rw (walk_done zero table addr end_addr (callback_of set) s past)
        (lev, out, tree, top, λ v l u. h v l (omega (arith, u, past)))
  walk-Ends (suc k) table addr lo end_addr s lev out tree top al b fuel h =
      elim (Bool-cases (ltb addr end_addr)) [
        | inr stop ↦
            let past = ltb→le addr end_addr stop in
            rw (walk_done (suc k) table addr end_addr (callback_of set) s past)
              (lev, out, tree, top, λ v l u. h v l (omega (arith, u, past)))
        | inl more ↦ elim (descend_total 3 table addr s) [
          | inr (s', e, none_left) ↦
              rw (walk_halted (suc k) table addr end_addr (callback_of set) s s' more e) none_left
          | inl (t, i, s', e) ↦
              let less = ltb→lt addr end_addr more in
              let w = descend-Walked 3 table addr s lev out t i s' tree top e in
              let bound : addr < 2 ^ 48 = omega (arith, less, b) in
              rw (walk_at (suc k) table addr end_addr t i (callback_of set) s s' more e) (
                walk-Ends k table (addr + page_size) lo end_addr (callback_of set addr t i s')
                  (w.lev') (w.out')
                  (callback-IsTree P set sets table addr lo s s' lev out t i tree top al bound w)
                  (w.level) (omega (arith, al)) b (omega (arith, fuel))
                  (callback-AllMapped P set sets table addr lo s s' lev out t i tree top al bound w
                    h))
        ]
      ]
