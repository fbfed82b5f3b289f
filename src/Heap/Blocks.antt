-- ===== src/Heap/Blocks.antt =====
-- The blocks of the pools: where they are, which are free and which are handed out.
use banj_os.Base.{
  ℕ, zero, suc, ◌+◌, ◌-◌, ◌≤◌, ◌<◌, ◌≡◌, ◌≢◌, refl, sym, true, false, List, ◌∷◌, arith, ◌==◌, ==→eq,
  Bool-cases, inl, inr, has, Distinct, get_or, update, update_self, erase, has-erase,
  Distinct-erase, erase_self,
}
use banj_os.Frames.Alloc.{FreeChain, FreeChain-frame}
use banj_os.Heap.{Heap, header_size, block_sizes, set_head, push_block, take_block}

abbrev pub block_size : ℕ → ℕ
block_size i = get_or block_sizes i 0

-- `free` gives the free blocks of each pool, the last one first, `live` the blocks handed out, and
-- `owner` one more than the pool of each block; all blocks lie below `top`.
pub record IsHeap (h : Heap) (free : ℕ → List ℕ) (live : List ℕ) (owner : ℕ → ℕ) (top : ℕ)
    : Type 0 where
  pub sizes : (i : ℕ) → i < 6 → (h.pools i).max_size + header_size ≡ block_size i
  pub chain : (i : ℕ) → i < 6 → FreeChain (h.first) ((h.pools i).head) (free i)
  pub once : (i : ℕ) → i < 6 → Distinct (free i)
  pub once_live : Distinct live
  pub free_owner :
      (i a : ℕ) → i < 6 → has a (free i) ≡ true → (owner a ≡ suc i) × (has a live ≡ false)
  pub live_owner : (a : ℕ) → has a live ≡ true → (0 < owner a) × (h.first a ≡ owner a)
  pub range : (a : ℕ) → owner a < 7
  pub apart : (a b i : ℕ) → owner a ≡ suc i → 0 < owner b → a < b → a + block_size i ≤ b
  pub below : (a i : ℕ) → owner a ≡ suc i → (a + block_size i ≤ top) × (0 < a)

pub block_size_bound : (i : ℕ) → i < 6 → 32 ≤ block_size i
block_size_bound zero h = omega arith
block_size_bound (suc zero) h = omega arith
block_size_bound (suc (suc zero)) h = omega arith
block_size_bound (suc (suc (suc zero))) h = omega arith
block_size_bound (suc (suc (suc (suc zero)))) h = omega arith
block_size_bound (suc (suc (suc (suc (suc zero))))) h = omega arith
block_size_bound (suc (suc (suc (suc (suc (suc n)))))) h = absurd (omega arith)

has_of_erase : (b a : ℕ) (xs : List ℕ) → has b (erase a xs) ≡ true → has b xs ≡ true
has_of_erase b a xs y = elim (Bool-cases (has b xs)) [
  | inl h ↦ h
  | inr n ↦ absurd (let e = has-erase b a xs n in cc)
]

module _ (h : Heap) (free : ℕ → List ℕ) (live : List ℕ) (owner : ℕ → ℕ) (top : ℕ)
    (ok : IsHeap h free live owner top) where
  -- No block starts at the top or behind it.
  pub no_owner : (a : ℕ) → top ≤ a → owner a ≡ 0
  no_owner a l = elim (Bool-cases (0 == owner a)) [
    | inl z ↦ sym (==→eq 0 (owner a) z)
    | inr n ↦
        let r = ok.range a in
        let pos : 0 < owner a = ground (arith, n) in
        let e : owner a ≡ suc (owner a - 1) = omega (arith, pos) in
        let b = (ok.below a (owner a - 1) e).0 in
        let s = block_size_bound (owner a - 1) (omega (arith, r, pos)) in
        absurd (omega (arith, b, s, l))
  ]

  not_free : (a j : ℕ) → j < 6 → owner a ≢ suc j → has a (free j) ≡ false
  not_free a j l ne = elim (Bool-cases (has a (free j))) [
    | inl y ↦ absurd (ne ((ok.free_owner j a l y).0))
    | inr n ↦ n
  ]

  -- A change of the first word of what is no free block of a pool leaves that pool's list.
  chain-update :
      (a v j : ℕ)
      → j < 6
      → has a (free j) ≡ false
      → FreeChain (update (h.first) a v) ((h.pools j).head) (free j)
  chain-update a v j l n =
      FreeChain-frame (h.first) (update (h.first) a v) ((h.pools j).head) (free j)
        (λ b y. ground (arith, n, y)) (ok.chain j l)

  set_head_size : (i head j : ℕ) → (set_head h i head j).max_size ≡ (h.pools j).max_size
  set_head_size i head j = ground arith

  pub push_size : (i a j : ℕ) → ((push_block i a h).pools j).max_size ≡ (h.pools j).max_size
  unfolding push_block
  push_size i a j = set_head_size i a j

  pub push-chain :
      (i a : ℕ)
      → i < 6
      → a ≢ 0
      → ((j : ℕ) → j < 6 → has a (free j) ≡ false)
      → (j : ℕ) → j < 6
      → FreeChain
          ((push_block i a h).first)
          (((push_block i a h).pools j).head)
          (update free i (a ∷ free i) j)
  unfolding push_block
  push-chain i a li nz out j lj = elim (Bool-cases (i == j)) [
    | inl e ↦
        let there = ==→eq i j e in
        rw e (
          refl,
          nz,
          rw (update_self (h.first) a ((h.pools i).head))
              (chain-update a ((h.pools i).head) i li (out i li)),
        )
    | inr n ↦ rw n (chain-update a ((h.pools i).head) j lj (out j lj))
  ]

  pub push-once :
      (i a : ℕ)
      → i < 6
      → has a (free i) ≡ false
      → (j : ℕ) → j < 6
      → Distinct (update free i (a ∷ free i) j)
  push-once i a li out j lj = elim (Bool-cases (i == j)) [
    | inl e ↦ rw e (out, ok.once i li)
    | inr n ↦ rw n (ok.once j lj)
  ]

  -- A block that was handed out and comes back.
  pub push-IsHeap :
      (i a : ℕ)
      → has a live ≡ true
      → owner a ≡ suc i
      → IsHeap (push_block i a h) (update free i (a ∷ free i)) (erase a live) owner top
  unfolding push_block
  push-IsHeap i a y o =
      let r = ok.range a in
      let li : i < 6 = omega (arith, r, o) in
      let nz : a ≢ 0 = (λ z. let b = (ok.below a i o).1 in omega (arith, z, b)) in
      let out : (j : ℕ) → j < 6 → has a (free j) ≡ false = (λ j l.
        elim (Bool-cases (has a (free j))) [
          | inl f ↦ absurd (let b = (ok.free_owner j a l f).1 in cc)
          | inr n ↦ n
        ]) in
      record {
        sizes = λ j l. rw (push_size i a j) (ok.sizes j l);
        chain = push-chain i a li nz out;
        once = push-once i a li (out i li);
        once_live = Distinct-erase a live (ok.once_live);
        free_owner = λ j b l y. elim (Bool-cases (a == b)) [
          | inl e ↦ (
            let n = out j l in ground (arith, e, y, o, n),
            let n = erase_self a live (ok.once_live) in ground (arith, e, n),
          )
          | inr n ↦
              let fo = ok.free_owner j b l (ground (arith, y, n)) in
              (fo.0, has-erase b a live (fo.1))
        ];
        live_owner = λ b y.
            let ne : (a == b) ≡ false =
              (let n = erase_self a live (ok.once_live) in ground (arith, n, y)) in
            let lo = ok.live_owner b (has_of_erase b a live y) in (lo.0, rw ne (lo.1));
        range = ok.range;
        apart = ok.apart;
        below = ok.below;
      }

  -- A new block at the top.
  pub push_new-IsHeap :
      (i : ℕ)
      → i < 6
      → 0 < top
      → IsHeap
          (push_block i top h)
          (update free i (top ∷ free i))
          live
          (update owner top (suc i))
          (top + block_size i)
  unfolding push_block
  push_new-IsHeap i li pos =
      let none_here = no_owner top (omega arith) in
      let out : (j : ℕ) → j < 6 → has top (free j) ≡ false =
        (λ j l. not_free top j l (λ e. omega (arith, e, none_here))) in
      let no_live : has top live ≡ false = elim (Bool-cases (has top live)) [
        | inl y ↦ absurd (let q = (ok.live_owner top y).0 in omega (arith, q, none_here))
        | inr n ↦ n
      ] in
      let new_below : (a j : ℕ)
          → top ≡ a
          → suc i ≡ suc j
          → (a + block_size j ≤ top + block_size i) × (0 < a) =
        (λ a j e q. let q' : i ≡ j = omega (arith, q) in rw (← e, ← q') (omega arith, pos)) in
      record {
        sizes = λ j l. rw (push_size i top j) (ok.sizes j l);
        chain = push-chain i top li (λ z. omega (arith, z, pos)) out;
        once = push-once i top li (out i li);
        once_live = ok.once_live;
        free_owner = λ j b l y. elim (Bool-cases (top == b)) [
          | inl e ↦ (let n = out j l in ground (arith, e, y, n), rw (← ==→eq top b e) no_live)
          | inr n ↦ let fo = ok.free_owner j b l (ground (arith, y, n)) in (rw n (fo.0), fo.1)
        ];
        live_owner = λ b y.
            let ne : (top == b) ≡ false = ground (arith, no_live, y) in rw ne (ok.live_owner b y);
        range = λ a. let r = ok.range a in ground (arith, r, li);
        apart = λ a b j oa ob l. elim (Bool-cases (top == a)) [
          | inl e ↦
              absurd (let z = no_owner b (ground (arith, e, l)) in ground (arith, e, l, ob, z))
          | inr n ↦ elim (Bool-cases (top == b)) [
            | inl e ↦ let q = (ok.below a j (rw n at oa)).0 in ground (arith, e, q)
            | inr m ↦ ok.apart a b j (rw n at oa) (rw m at ob) l
          ]
        ];
        below = λ a j oa. elim (Bool-cases (top == a)) [
          | inl e ↦ new_below a j (==→eq top a e) (rw e at oa)
          | inr n ↦ let q = ok.below a j (rw n at oa) in (omega (arith, q), q.1)
        ];
      }

  take_head :
      (i x : ℕ) (xs : List ℕ)
      → i < 6
      → free i ≡ x ∷ xs
      → ((h.pools i).head ≡ x) × (x ≢ 0) × FreeChain (h.first) (h.first x) xs
  take_head i x xs li e = rw e at (ok.chain i li)

  take-chain :
      (i x : ℕ) (xs : List ℕ)
      → i < 6
      → free i ≡ x ∷ xs
      → (j : ℕ) → j < 6
      → FreeChain
          (update (h.first) x (suc i))
          ((set_head h i (h.first x) j).head)
          (update free i xs j)
  take-chain i x xs li e j lj = elim (Bool-cases (i == j)) [
    | inl here ↦ rw here (
        FreeChain-frame (h.first) (update (h.first) x (suc i)) (h.first x) xs
          (λ b y. let d = (rw e at (ok.once i li)).0 in ground (arith, d, y))
          ((take_head i x xs li e).2))
    | inr n ↦ rw n (
        chain-update x (suc i) j lj (
          not_free x j lj (λ q.
            let o = (ok.free_owner i x li (rw e (ground arith))).0 in ground (arith, o, q, n))))
  ]

  -- The first free block of a pool is handed out.
  pub take-IsHeap :
      (i x : ℕ) (xs : List ℕ)
      → i < 6
      → free i ≡ x ∷ xs
      → ((take_block i h).0 ≡ x + header_size)
        × IsHeap ((take_block i h).1) (update free i xs) (x ∷ live) owner top
  unfolding take_block
  take-IsHeap i x xs li e =
      let head = (take_head i x xs li e).0 in
      let d = rw e at (ok.once i li) in
      let fx = ok.free_owner i x li (rw e (ground arith)) in
      (
        rw head refl,
        rw head (record {
          sizes = λ j l. rw (set_head_size i (h.first x) j) (ok.sizes j l);
          chain = take-chain i x xs li e;
          once = λ j l. elim (Bool-cases (i == j)) [
            | inl here ↦ rw here (d.1)
            | inr n ↦ rw n (ok.once j l)
          ];
          once_live = (fx.1, ok.once_live);
          free_owner = λ j a l y. elim (Bool-cases (i == j)) [
            | inl here ↦
                let y' = rw here at y in
                let d0 = d.0 in
                let fo = ok.free_owner i a li (rw e (ground (arith, y'))) in
                let f0 = fo.0 in
                let f1 = fo.1 in (ground (arith, here, f0), ground (arith, d0, y', f1))
            | inr n ↦
                let fo = ok.free_owner j a l (rw n at y) in
                let f0 = fo.0 in
                let f1 = fo.1 in let f2 = fx.0 in (f0, ground (arith, f0, f1, f2, n))
          ];
          live_owner = λ a y. elim (Bool-cases (x == a)) [
            | inl q ↦ let f = fx.0 in (ground (arith, q, f), ground (arith, q, f))
            | inr n ↦ let lo = ok.live_owner a (ground (arith, y, n)) in (lo.0, rw n (lo.1))
          ];
          range = ok.range;
          apart = ok.apart;
          below = ok.below;
        }),
      )
