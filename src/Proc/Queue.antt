-- ===== src/Proc/Queue.antt =====
-- The queues as lists of processes.
use banj_os.Base.{
  has, Distinct, has-append, erase, has-erase, Distinct-erase, ne_of_mem, ℕ, ◌≡◌, refl, ◌≢◌, true,
  false, List, [], ◌∷◌, ◌++◌, arith, ◌==◌, if◌then◌else◌, ◌∙◌, inl, inr, Bool-cases, ==→eq,
}
use banj_os.Proc.{Nodes, append_proc, unlink_proc, cycle_next_proc}
use banj_os.Proc.Links.{
  Linked, last, has-last, ne-last, prev-last, Relinked, Linked-frame, Linked-retarget,
  Linked-unlink, prev-ne, prev-mem, next-mem,
}

-- The queue with this head holds these nodes, its first one first.
abbrev pub IsQueue : Nodes → ℕ → List ℕ → Type 0
IsQueue h head [] = head ≡ 0
IsQueue h head (x ∷ xs) =
    (head ≡ x) × Linked h x xs x × Distinct (x ∷ xs) × (has 0 (x ∷ xs) ≡ false)

-- `g` has the links of `h` outside the listed nodes.
abbrev pub SameOutside : List ℕ → Nodes → Nodes → Type 0
SameOutside xs h g = (q : ℕ) → has q xs ≡ false → (g.next q ≡ h.next q) × (g.prev q ≡ h.prev q)

-- A chain of which the last link to `z` is cut and led through the new node `n`.
Linked-snoc :
    {h g : Nodes} (a z n : ℕ) (xs : List ℕ)
    → Linked h a xs z
    → Distinct (a ∷ xs)
    → has z xs ≡ false
    → has n (a ∷ xs) ≡ false
    → ((q : ℕ) → q ≢ n → q ≢ last a xs → g.next q ≡ h.next q)
    → ((q : ℕ) → q ≢ n → q ≢ z → g.prev q ≡ h.prev q)
    → (g.next (last a xs) ≡ n) × (g.prev n ≡ last a xs) × (g.next n ≡ z) × (g.prev z ≡ n)
    → Linked g a (xs ++ (n ∷ [])) z
Linked-snoc a z n [] l d f o nx pv (e1, e2, e3, e4) = (e1, e2, (e3, e4))
Linked-snoc a z n (b ∷ xs) l d f o nx pv e = (
  nx a (ground arith) (ne-last a b xs d.0) ∙ l.0,
  pv b (ground arith) (ground arith) ∙ l.1,
  Linked-snoc b z n xs l.2 d.1 (ground arith) (ground arith) nx pv e,
)

Distinct-snoc : (n : ℕ) (xs : List ℕ) → Distinct xs → has n xs ≡ false → Distinct (xs ++ (n ∷ []))
Distinct-snoc n [] d h = (refl, tt)
Distinct-snoc n (x ∷ xs) d h =
    (ground (arith, has-append x xs (n ∷ [])), Distinct-snoc n xs d.1 (ground arith))

-- The links after an append behind the last node `t` of a queue with a first node.
append_links :
    (h : Nodes) (x n t : ℕ)
    → x ≢ 0
    → h.prev x ≡ t
    → n ≢ x
    → n ≢ t
    → let (head, g) = append_proc n x h in
      (head ≡ x)
      × ((q : ℕ) → q ≢ n → q ≢ t → g.next q ≡ h.next q)
      × ((q : ℕ) → q ≢ n → q ≢ x → g.prev q ≡ h.prev q)
      × ((g.next t ≡ n) × (g.prev n ≡ t) × (g.next n ≡ x) × (g.prev x ≡ n))
unfolding append_proc
append_links h x n t x0 e nx nt =
    let head : (x == 0) ≡ false = ground arith in
    rw head (refl, ground arith, ground arith, ground arith)

append_cons :
    (h : Nodes) (x n : ℕ) (xs : List ℕ)
    → IsQueue h x (x ∷ xs)
    → n ≢ 0
    → has n (x ∷ xs) ≡ false
    → let (head, g) = append_proc n x h in
      IsQueue g head (x ∷ (xs ++ (n ∷ []))) × SameOutside (n ∷ (x ∷ xs)) h g
append_cons h x n xs (_, l, d, nz) n0 out =
    let (e, nx, pv, ends) =
      append_links h x n (last x xs) (ground arith) (prev-last h x x xs l) (ground arith)
        (ne-last n x xs out) in
    (
      (
        e,
        Linked-snoc x x n xs l d d.0 out nx pv ends,
        Distinct-snoc n (x ∷ xs) d out,
        ground (arith, has-append 0 (x ∷ xs) (n ∷ [])),
      ),
      λ q o.
          (nx q (ground arith) (ne-last q x xs (ground arith)), pv q (ground arith) (ground arith)),
    )

append_nil :
    (h : Nodes) (n : ℕ)
    → n ≢ 0
    → let (head, g) = append_proc n 0 h in IsQueue g head (n ∷ []) × SameOutside (n ∷ []) h g
unfolding append_proc
append_nil h n n0 =
    ((refl, (ground arith, ground arith), (refl, tt), ground arith), λ q o. ground arith)

-- Appending a node that the queue does not hold makes it the last one, and changes no link of any
-- node outside the queue.
pub append_proc_lem :
    (h : Nodes) (head n : ℕ) (xs : List ℕ)
    → IsQueue h head xs
    → n ≢ 0
    → has n xs ≡ false
    → let (head', g) = append_proc n head h in
      IsQueue g head' (xs ++ (n ∷ [])) × SameOutside (n ∷ xs) h g
append_proc_lem h head n [] e n0 out = rw e (append_nil h n n0)
append_proc_lem h head n (x ∷ xs) q n0 out =
    rw q.0 (append_cons h x n xs (refl, q.1, q.2, q.3) n0 out)

unlink_links :
    (h : Nodes) (head n : ℕ)
    → h.prev n ≢ n
    → let (head', g) = unlink_proc n head h in
      (head' ≡ (if n == head then h.next n else head))
      × Relinked h g (h.prev n) (h.next n)
      × (g.next (h.prev n) ≡ h.next n)
      × (g.prev (h.next n) ≡ h.prev n)
unfolding unlink_proc
unlink_links h head n e =
    let alone : (n == h.prev n) ≡ false = ground arith in
    rw alone (ground arith, (ground arith, ground arith), ground arith, ground arith)

unlink_inner :
    (h : Nodes) (x n : ℕ) (xs : List ℕ)
    → IsQueue h x (x ∷ xs)
    → x ≢ n
    → has n xs ≡ true
    → let (head, g) = unlink_proc n x h in
      IsQueue g head (x ∷ erase n xs) × SameOutside (x ∷ xs) h g
unlink_inner h x n xs (_, l, d, nz) ne i =
    let (e, r, nx, pv) = unlink_links h x n (prev-ne h x n x xs l d i) in
    (
      (
        e ∙ ground arith,
        Linked-unlink h x n x xs l d d.0 i r nx pv,
        (has-erase x n xs d.0, Distinct-erase n xs d.1),
        ground (arith, has-erase 0 n xs),
      ),
      λ q o. (
        r.0 q (ne_of_mem q (h.prev n) (x ∷ xs) o (prev-mem h x n x xs l i)),
        r.1 q (ne_of_mem q (h.next n) (x ∷ xs) o (next-mem h x n x xs l i)),
      ),
    )

unlink_first :
    (h : Nodes) (n b : ℕ) (xs : List ℕ)
    → IsQueue h n (n ∷ (b ∷ xs))
    → let (head, g) = unlink_proc n n h in IsQueue g head (b ∷ xs) × SameOutside (n ∷ (b ∷ xs)) h g
unlink_first h n b xs (_, l, d, nz) =
    let back : h.prev n ≡ last b xs = prev-last h n n (b ∷ xs) l in
    let other : h.prev n ≢ n = ground (arith, has-last b xs) in
    let (e, r, nx, pv) = unlink_links h n n other in
    let r' = rw (back, l.0) at r in
    (
      (
        e ∙ ground (arith, l.0),
        Linked-retarget b n b xs l.2 d.1 d.1.0 r' (rw (back, l.0) at nx) (rw (back, l.0) at pv),
        d.1,
        ground arith,
      ),
      λ q o. (r'.0 q (ne-last q b xs (ground arith)), r'.1 q (ground arith)),
    )

unlink_only : (h : Nodes) (n : ℕ) → IsQueue h n (n ∷ []) → unlink_proc n n h ≡ (0, h)
unfolding unlink_proc
unlink_only h n q = ground arith

unlink_head :
    (h : Nodes) (n : ℕ) (xs : List ℕ)
    → IsQueue h n (n ∷ xs)
    → let (head, g) = unlink_proc n n h in IsQueue g head xs × SameOutside (n ∷ xs) h g
unlink_head h n [] q = rw (unlink_only h n q) (refl, λ q o. (refl, refl))
unlink_head h n (b ∷ xs) q = unlink_first h n b xs q

-- Unlinking a node that the queue holds removes it and keeps the order of the others, and changes
-- no link of any node outside the queue. The last node leaves an empty queue.
pub unlink_proc_lem :
    (h : Nodes) (head n : ℕ) (xs : List ℕ)
    → IsQueue h head xs
    → has n xs ≡ true
    → let (head', g) = unlink_proc n head h in IsQueue g head' (erase n xs) × SameOutside xs h g
unfolding erase
unlink_proc_lem h head n [] q i = cc
unlink_proc_lem h head n (x ∷ xs) q i = elim (Bool-cases (x == n)) [
  | inl eq ↦
      let q' : IsQueue h x (x ∷ xs) = (refl, q.1, q.2, q.3) in
      let e : x ≡ n = ==→eq x n eq in rw (q.0, eq, e) (unlink_head h n xs (rw e at q'))
  | inr ne ↦
      rw (q.0, ne) (unlink_inner h x n xs (refl, q.1, q.2, q.3) (ground arith) (ground arith))
]

Linked-append :
    (h : Nodes) (a z w : ℕ) (xs ys : List ℕ)
    → Linked h a xs z
    → Linked h z ys w
    → Linked h a (xs ++ (z ∷ ys)) w
Linked-append h a z w [] ys l m = (l.0, l.1, m)
Linked-append h a z w (b ∷ xs) ys l m = (l.0, l.1, Linked-append h b z w xs ys l.2 m)

rotate-IsQueue :
    (h : Nodes) (x : ℕ) (xs : List ℕ) → IsQueue h x (x ∷ xs) → IsQueue h (h.next x) (xs ++ (x ∷ []))
rotate-IsQueue h x [] q = (q.1.0, q.1, q.2, q.3)
rotate-IsQueue h x (b ∷ xs) (_, l, d, nz) = (
  l.0,
  Linked-append h b x b xs [] l.2 (l.0, l.1),
  Distinct-snoc x (b ∷ xs) d.1 d.0,
  ground (arith, has-append 0 (b ∷ xs) (x ∷ [])),
)

-- `cycle_next_proc` of a queue that is not empty gives the first process and makes the second one
-- the head: the same circle, read from the next process on.
pub cycle_next_proc_lem :
    (h : Nodes) (head x : ℕ) (xs : List ℕ)
    → IsQueue h head (x ∷ xs)
    → let (p, head') = cycle_next_proc head h in (p ≡ x) × IsQueue h head' (xs ++ (x ∷ []))
unfolding cycle_next_proc
cycle_next_proc_lem h head x xs q =
    let ne : (x == 0) ≡ false = ground (arith, q.3) in
    rw (q.0, ne) (refl, rotate-IsQueue h x xs (refl, q.1, q.2, q.3))

-- A queue none of whose nodes is among the changed ones is the same queue.
pub IsQueue-frame :
    (h g : Nodes) (head : ℕ) (xs ys : List ℕ)
    → SameOutside ys h g
    → ((q : ℕ) → has q xs ≡ true → has q ys ≡ false)
    → IsQueue h head xs
    → IsQueue g head xs
IsQueue-frame h g head [] ys s o q = q
IsQueue-frame h g head (x ∷ xs) ys s o (e, l, d, nz) = (
  e,
  Linked-frame {h = h} {g = g} x x xs (λ q i. (s q (o q i)).0) (λ q i. (s q (o q i)).1) l,
  d,
  nz,
)

pub IsQueue-Distinct : (h : Nodes) (head : ℕ) (xs : List ℕ) → IsQueue h head xs → Distinct xs
IsQueue-Distinct h head [] q = tt
IsQueue-Distinct h head (x ∷ xs) q = q.2

pub IsQueue-ne_zero :
    (h : Nodes) (head a : ℕ) (xs : List ℕ) → IsQueue h head xs → has a xs ≡ true → a ≢ 0
IsQueue-ne_zero h head a [] q i = cc
IsQueue-ne_zero h head a (x ∷ xs) q i = ground (arith, q.3)

pub cycle_next_proc-zero : {head : ℕ} (h : Nodes) → head ≡ 0 → cycle_next_proc head h ≡ (0, head)
unfolding cycle_next_proc
cycle_next_proc-zero h e = ground arith
