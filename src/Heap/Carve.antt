-- ===== src/Heap/Carve.antt =====
-- A new page cut into blocks of one pool, and the pool that a size goes to.
use native.Mathlib.Nat.{suc-mul}
use banj_os.Base.{
  ℕ, zero, suc, ◌+◌, ◌*◌, ◌≤◌, ◌<◌, ◌≡◌, ◌∙◌, refl, true, false, some, List, ◌∷◌, arith, ◌==◌, ltb,
  lt→ltb, length, update, update_self,
}
use banj_os.Heap.{Heap, push_block, carve}
use banj_os.Heap.Blocks.{IsHeap, block_size, no_owner, push_new-IsHeap}

-- After cutting: all blocks up to `end`, `n` of them new in the list of the pool.
pub record Carved (i n end : ℕ) (h h' : Heap) (free : ℕ → List ℕ) (live : List ℕ) (owner : ℕ → ℕ)
    : Type 0 where
  pub free' : ℕ → List ℕ
  pub owner' : ℕ → ℕ
  pub ok : IsHeap h' free' live owner' end
  pub more : length (free' i) ≡ n + length (free i)
  pub owners : (a : ℕ) → 0 < owner a → owner' a ≡ owner a
  pub space : h'.space ≡ h.space

pub push_space : (i a : ℕ) (h : Heap) → (push_block i a h).space ≡ h.space
unfolding push_block
push_space i a h = refl

suc_times : (n b : ℕ) → suc n * b ≡ b + n * b
suc_times n b = simp suc-mul (omega arith)

pub carve-Carved :
    (n fuel i top end : ℕ) (h : Heap) (free : ℕ → List ℕ) (live : List ℕ) (owner : ℕ → ℕ)
    → IsHeap h free live owner top
    → i < 6
    → 0 < top
    → end ≡ top + n * block_size i
    → 0 < block_size i
    → n ≤ fuel
    → (h' : Heap) × (carve (suc fuel) i top end (block_size i) h ≡ some h')
      × Carved i n end h h' free live owner
unfolding carve
carve-Carved zero fuel i top end h free live owner ok li pos e b f =
    let e' : end ≡ top = omega (arith, e) in
    (
      h,
      rw e' (let stop : ltb top top ≡ false = ground arith in rw stop refl),
      record {
        free' = free;
        owner' = owner;
        ok = rw e' ok;
        more = omega arith;
        owners = λ a p. refl;
        space = refl;
      },
    )
carve-Carved (suc n) zero i top end h free live owner ok li pos e b f = absurd (omega (arith, f))
carve-Carved (suc n) (suc fuel) i top end h free live owner ok li pos e b f =
    let bs = block_size i in
    let turns = suc_times n bs in
    let more' : ltb top end ≡ true = lt→ltb top end (omega (arith, e, b, turns)) in
    let (h', c, r) =
      carve-Carved n fuel i (top + bs) end (push_block i top h) (update free i (top ∷ free i)) live
        (update owner top (suc i)) (push_new-IsHeap h free live owner top ok i li pos) li
        (omega (arith, pos)) (omega (arith, e, turns)) b (omega (arith, f)) in
    let self : update free i (top ∷ free i) i ≡ top ∷ free i = update_self free i (top ∷ free i) in
    (
      h',
      rw (carve, more') c,
      record {
        free' = r.free';
        owner' = r.owner';
        ok = r.ok;
        more = r.more ∙ rw self (omega arith);
        owners = λ a p.
            let ne : (top == a) ≡ false =
              (let z = no_owner h free live owner top ok a in ground (arith, z, p)) in
            r.owners a (rw ne p) ∙ rw ne refl;
        space = r.space ∙ push_space i top h;
      },
    )
