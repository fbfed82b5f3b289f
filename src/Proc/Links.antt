-- ===== src/Proc/Links.antt =====
-- Circular chains of nodes, and how they change when a link is set.
use banj_os.Base.{
  has, Distinct, erase, ℕ, ◌≡◌, ◌≢◌, true, false, List, [], ◌∷◌, arith, ◌==◌, ◌∙◌, inl, inr,
  Bool-cases, ==→eq,
}
use banj_os.Proc.{Nodes}

-- From `a` the `next` links lead through `xs` to `z`, and the `prev` links lead back.
abbrev pub Linked : Nodes → ℕ → List ℕ → ℕ → Type 0
Linked h a [] z = (h.next a ≡ z) × (h.prev z ≡ a)
Linked h a (b ∷ xs) z = (h.next a ≡ b) × (h.prev b ≡ a) × Linked h b xs z

abbrev pub last : ℕ → List ℕ → ℕ
last a [] = a
last a (b ∷ xs) = last b xs

pub has-last : (a : ℕ) (xs : List ℕ) → has (last a xs) (a ∷ xs) ≡ true
has-last a [] = ground arith
has-last a (b ∷ xs) = ground (arith, has-last b xs)

-- A node outside a list is not its last one.
pub ne-last : (q a : ℕ) (xs : List ℕ) → has q (a ∷ xs) ≡ false → q ≢ last a xs
ne-last q a xs h e = ground (arith, has-last a xs)

pub prev-last : (h : Nodes) (z a : ℕ) (xs : List ℕ) → Linked h a xs z → h.prev z ≡ last a xs
prev-last h z a [] l = l.1
prev-last h z a (b ∷ xs) l = prev-last h z b xs l.2

-- `g` has the links of `h` but for `next` at `p` and `prev` at `q`.
abbrev pub Relinked : Nodes → Nodes → ℕ → ℕ → Type 0
Relinked h g p q = ((a : ℕ) → a ≢ p → g.next a ≡ h.next a) × ((a : ℕ) → a ≢ q → g.prev a ≡ h.prev a)

module _ {h g : Nodes} where
  -- A chain whose sources and targets keep their links.
  pub Linked-frame :
      (a z : ℕ) (xs : List ℕ)
      → ((q : ℕ) → has q (a ∷ xs) ≡ true → g.next q ≡ h.next q)
      → ((q : ℕ) → has q (z ∷ xs) ≡ true → g.prev q ≡ h.prev q)
      → Linked h a xs z
      → Linked g a xs z
  Linked-frame a z [] n p l = ground (arith, n a, p z)
  Linked-frame a z (b ∷ xs) n p l = (
    n a (ground arith) ∙ l.0,
    p b (ground arith) ∙ l.1,
    Linked-frame b z xs (λ q e. n q (ground arith)) (λ q e. p q (ground arith)) l.2,
  )

  -- The last link of a chain is led elsewhere.
  pub Linked-retarget :
      (a z z' : ℕ) (xs : List ℕ)
      → Linked h a xs z
      → Distinct (a ∷ xs)
      → has z' xs ≡ false
      → Relinked h g (last a xs) z'
      → g.next (last a xs) ≡ z'
      → g.prev z' ≡ last a xs
      → Linked g a xs z'
  Linked-retarget a z z' [] l d f r n p = (n, p)
  Linked-retarget a z z' (b ∷ xs) l d f r n p = (
    r.0 a (ne-last a b xs d.0) ∙ l.0,
    r.1 b (ground arith) ∙ l.1,
    Linked-retarget b z z' xs l.2 d.1 (ground arith) r n p,
  )

module _ (h : Nodes) (z n : ℕ) where
  -- The predecessor of a node in a chain is in the chain too, and so is the successor.
  pub prev-mem :
      (a : ℕ) (xs : List ℕ) → Linked h a xs z → has n xs ≡ true → has (h.prev n) (a ∷ xs) ≡ true
  prev-mem a [] l e = cc
  prev-mem a (b ∷ xs) l e = elim (Bool-cases (b == n)) [
    | inl i ↦ ground (arith, l.1)
    | inr o ↦ ground (arith, prev-mem b xs l.2)
  ]

  pub next-mem :
      (a : ℕ) (xs : List ℕ) → Linked h a xs z → has n xs ≡ true → has (h.next n) (z ∷ xs) ≡ true
  next-mem a (b ∷ []) l e = ground (arith, l.2.0)
  next-mem a [] l e = cc
  next-mem a (b ∷ (c ∷ xs)) l e = elim (Bool-cases (b == n)) [
    | inl i ↦ ground (arith, l.2.0)
    | inr o ↦ ground (arith, next-mem b (c ∷ xs) l.2)
  ]

  pub prev-ne :
      (a : ℕ) (xs : List ℕ) → Linked h a xs z → Distinct (a ∷ xs) → has n xs ≡ true → h.prev n ≢ n
  prev-ne a [] l d e = cc
  prev-ne a (b ∷ xs) l d e = elim (Bool-cases (b == n)) [
    | inl i ↦ ground (arith, l.1)
    | inr o ↦ prev-ne b xs l.2 d.1 (ground arith)
  ]

  -- The node `n` left out behind `a`.
  Linked-bypass :
      {g : Nodes} (a : ℕ) (xs : List ℕ)
      → Linked h n xs z
      → has a xs ≡ false
      → has z xs ≡ false
      → Distinct (n ∷ xs)
      → Relinked h g a (h.next n)
      → g.next a ≡ h.next n
      → g.prev (h.next n) ≡ a
      → Linked g a xs z
  Linked-bypass a [] l o f d r nx pv = ground arith
  Linked-bypass {g} a (c ∷ xs) l o f d r nx pv = (
    nx ∙ l.0,
    rw l.0 at pv,
    Linked-frame {h = h} {g = g} c z xs (λ q e. r.0 q (ground arith)) (λ q e. r.1 q (ground arith))
        l.2,
  )

  -- Leading the links round `n` takes it out of the chain.
  pub Linked-unlink :
      {g : Nodes} (a : ℕ) (xs : List ℕ)
      → Linked h a xs z
      → Distinct (a ∷ xs)
      → has z xs ≡ false
      → has n xs ≡ true
      → Relinked h g (h.prev n) (h.next n)
      → g.next (h.prev n) ≡ h.next n
      → g.prev (h.next n) ≡ h.prev n
      → Linked g a (erase n xs) z
  unfolding erase
  Linked-unlink a [] l d f e r nx pv = cc
  Linked-unlink {g} a (b ∷ xs) l d f e r nx pv = elim (Bool-cases (b == n)) [
    | inl i ↦
        let eq : b ≡ n = ==→eq b n i in
        let back : h.prev n ≡ a = ground (arith, l.1) in
        rw i (
          Linked-bypass a xs (rw eq at l.2) (ground arith) (ground arith) (rw eq at d.1)
            (rw back at r) (rw back at nx) (rw back at pv))
    | inr o ↦ rw o (
      r.0 a (ground (arith, prev-mem b xs l.2)) ∙ l.0,
      r.1 b (ground (arith, next-mem b xs l.2)) ∙ l.1,
      Linked-unlink b xs l.2 d.1 (ground arith) (ground arith) r nx pv,
    )
  ]
