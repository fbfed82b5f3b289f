-- ===== src/Ring/Blocking.antt =====
-- The blocking read: it gives the first character that arrives.
use banj_os.Base.{
  ℕ, zero, suc, ◌≤◌, ◌≡◌, ◌≢◌, refl, sym, ap, ◌∙◌, true, some, List, [], ◌∷◌, ◌++◌, arith, inl, inr,
  length, take, replicate, append-nil, append_assoc, Bool-cases, ltb, ltb→le,
}
use banj_os.Ring.{
  RingBuffer, producer_add_char, add_all, Read, got, consumer_block_next, is_empty, consumer_next,
}
use banj_os.Ring.Fifo.{
  IsValid, contents, enqueue, dequeue, length-contents, add_char_refines, add_char-IsValid,
  next_refines, next-IsValid,
}

take-all {ℓ} : {A : Type ℓ} (n : ℕ) (xs : List A) → length xs ≤ n → take n xs ≡ xs
take-all zero [] h = refl
take-all zero (x ∷ xs) h = absurd (omega arith)
take-all (suc n) [] h = refl
take-all (suc n) (x ∷ xs) h = ap (◌∷◌ x) (take-all n xs (omega arith))

take-append_full {ℓ} :
    {A : Type ℓ} (n : ℕ) (xs ys : List A) → length xs ≡ n → take n (xs ++ ys) ≡ xs
take-append_full zero [] ys h = refl
take-append_full zero (x ∷ xs) ys h = absurd (omega arith)
take-append_full (suc n) [] ys h = absurd (omega arith)
take-append_full (suc n) (x ∷ xs) ys h = ap (◌∷◌ x) (take-append_full n xs ys (omega arith))

pub add_all-IsValid : (r : RingBuffer) (cs : List ℕ) → IsValid r → IsValid (add_all r cs)
unfolding add_all
add_all-IsValid r [] v = v
add_all-IsValid r (c ∷ cs) v = add_all-IsValid (producer_add_char r c).1 cs (add_char-IsValid r c v)

blocked-add_all : (r : RingBuffer) (cs : List ℕ) → (add_all r cs).blocked ≡ r.blocked
unfolding add_all producer_add_char
blocked-add_all r [] = refl
blocked-add_all r (c ∷ cs) = ground (arith, blocked-add_all (producer_add_char r c).1 cs)

contents-add_char :
    (r : RingBuffer) (c : ℕ)
    → IsValid r
    → contents (producer_add_char r c).1 ≡ (enqueue (contents r) c).1
contents-add_char r c v = ap (λ p. p.1) (add_char_refines r c v)

enqueue-take :
    (q : List ℕ) (c : ℕ) (cs : List ℕ)
    → length q ≤ 15
    → take 15 ((enqueue q c).1 ++ cs) ≡ take 15 (q ++ (c ∷ cs))
unfolding enqueue
enqueue-take q c cs h = elim (Bool-cases (ltb (length q) 15)) [
  | inl room ↦ rw (room, append_assoc)
  | inr full ↦
      let e : length q ≡ 15 = omega (arith, ltb→le (length q) 15 full) in
      rw full (take-append_full 15 q cs e ∙ sym (take-append_full 15 q (c ∷ cs) e))
]

waiting-le : (r : RingBuffer) → length (contents r) ≤ 15
waiting-le r = omega (arith, length-contents r)

-- What does not fit is lost: the ring keeps the first fifteen characters.
pub contents-add_all :
    (r : RingBuffer) (cs : List ℕ)
    → IsValid r
    → contents (add_all r cs) ≡ take 15 (contents r ++ cs)
unfolding add_all
contents-add_all r [] v = rw append-nil (sym (take-all 15 (contents r) (waiting-le r)))
contents-add_all r (c ∷ cs) v =
    contents-add_all (producer_add_char r c).1 cs (add_char-IsValid r c v)
    ∙ ap (λ q. take 15 (q ++ cs)) (contents-add_char r c v)
    ∙ enqueue-take (contents r) c cs (waiting-le r)

pub is_empty_iff : (r : RingBuffer) → IsValid r → contents r ≡ [] → is_empty r ≡ true
unfolding is_empty
is_empty_iff r v e = let e' = ap length e in ground (arith, length-contents r)

pub next-cons :
    (r : RingBuffer) (c : ℕ) (cs : List ℕ)
    → IsValid r
    → contents r ≡ c ∷ cs
    → ((consumer_next r).0 ≡ some c) × (contents (consumer_next r).1 ≡ cs)
unfolding dequeue
next-cons r c cs v e = let p = next_refines r v ∙ ap dequeue e in (ap (λ p. p.0) p, ap (λ p. p.1) p)

block_next-next :
    (r : RingBuffer) (c : ℕ) (wakes : List (List ℕ))
    → (consumer_next r).0 ≡ some c
    → consumer_block_next r wakes ≡ got c (consumer_next r).1
unfolding consumer_block_next consumer_next
block_next-next r c [] h = ground arith
block_next-next r c (arrived ∷ wakes) h = ground arith

-- What a read that ends with character `c` leaves, where `cs` wait behind it.
abbrev pub Gives : Read → ℕ → List ℕ → Type 0
Gives read c cs = (r' : RingBuffer) × (read ≡ got c r') × IsValid r' × (contents r' ≡ cs)

-- A blocking read of a valid ring that holds characters gives the oldest one at once, and leaves
-- the others.
pub block_next_ready :
    (r : RingBuffer) (c : ℕ) (cs : List ℕ) (wakes : List (List ℕ))
    → IsValid r
    → contents r ≡ c ∷ cs
    → Gives (consumer_block_next r wakes) c cs
block_next_ready r c cs wakes v e =
    let (now, rest) = next-cons r c cs v e in
    ((consumer_next r).1, block_next-next r c wakes now, next-IsValid r v, rest)

block_next_wakes :
    (r : RingBuffer) (arrived : List ℕ) (wakes : List (List ℕ))
    → IsValid r
    → r.blocked ≢ 0
    → contents r ≡ []
    → consumer_block_next r (arrived ∷ wakes) ≡ consumer_block_next (add_all r arrived) wakes
unfolding consumer_block_next
block_next_wakes r arrived wakes v h e = ground (arith, is_empty_iff r v e)

-- A reader that blocks on an empty valid ring with a queue of waiting processes, and is woken `k`
-- times for nothing before the characters `c` and `cs` arrive, gets `c` at that wake-up. The ring
-- then holds the first fourteen of `cs`; later wake-ups do not matter.
pub block_next_first :
    (k : ℕ) (r : RingBuffer) (c : ℕ) (cs : List ℕ) (wakes : List (List ℕ))
    → IsValid r
    → r.blocked ≢ 0
    → contents r ≡ []
    → Gives (consumer_block_next r (replicate k [] ++ ((c ∷ cs) ∷ wakes))) c (take 14 cs)
unfolding add_all
block_next_first zero r c cs wakes v h e = rw (block_next_wakes r (c ∷ cs) wakes v h e) (
    block_next_ready (add_all r (c ∷ cs)) c (take 14 cs) wakes (add_all-IsValid r (c ∷ cs) v)
      (contents-add_all r (c ∷ cs) v ∙ ap (λ q. take 15 (q ++ (c ∷ cs))) e))
block_next_first (suc k) r c cs wakes v h e =
    rw (block_next_wakes r [] (replicate k [] ++ ((c ∷ cs) ∷ wakes)) v h e, add_all)
      (block_next_first k r c cs wakes v h e)
