-- ===== src/Ring/Fifo.antt =====
-- The ring is a first-in first-out queue of at most fifteen characters.
use banj_os.Base.{
  ℕ, zero, suc, ◌+◌, ◌-◌, ◌%◌, ◌<◌, ◌≡◌, refl, ap, Bool, true, false, Option, none, some, List, [],
  ◌∷◌, ◌++◌, arith, ltb, if◌then◌else◌, length, get_or, set, length-set, get_or-set_self,
  get_or-set_ne,
}
use banj_os.Ring.{RingBuffer, buff_size, init, advance, consumer_next, producer_add_char}

-- The pointers stay inside the buffer.
pub record IsValid (r : RingBuffer) : Type 0 where
  pub storage : length r.buff ≡ buff_size
  pub consumer_in : r.consumer < buff_size
  pub producer_in : r.producer < buff_size

-- The `n` characters from index `p` on, going round the end.
pub chars : List ℕ → ℕ → ℕ → List ℕ
chars buff p zero = []
chars buff p (suc n) = get_or buff p 0 ∷ chars buff (advance p) n

-- How many characters wait to be read.
abbrev pub waiting : RingBuffer → ℕ
waiting r = (r.producer + buff_size - r.consumer) % buff_size

-- What the ring holds, oldest first.
unfoldable pub contents : RingBuffer → List ℕ
unfolding chars
contents r = chars r.buff r.consumer (waiting r)

-- The queue that a ring stands for: a character that does not fit is refused.
unfoldable pub enqueue : List ℕ → ℕ → Bool × List ℕ
enqueue q c = if ltb (length q) 15 then (true, q ++ (c ∷ [])) else (false, q)

unfoldable pub dequeue : List ℕ → Option ℕ × List ℕ
dequeue [] = (none, [])
dequeue (c ∷ q) = (some c, q)

length-chars : (buff : List ℕ) (p n : ℕ) → length (chars buff p n) ≡ n
unfolding chars
length-chars buff p zero = refl
length-chars buff p (suc n) = ap suc (length-chars buff (advance p) n)

-- A write outside the window leaves it; one just behind it makes it longer.
chars-set :
    (buff : List ℕ) (c p n i : ℕ)
    → length buff ≡ 16
    → p < 16
    → n < 16
    → i ≡ (p + n) % 16
    → chars (set buff i c) p (suc n) ≡ chars buff p n ++ (c ∷ [])
unfolding chars advance
chars-set buff c p zero i hb hp hn e =
    let at : i ≡ p = omega arith in ground (arith, get_or-set_self buff p c 0)
chars-set buff c p (suc n) i hb hp hn e =
    ground (
      arith,
      get_or-set_ne buff i p c 0,
      chars-set buff c (p + 1) n i hb,
      chars-set buff c 0 n i hb,
    )

chars_of_pos :
    (buff : List ℕ) (p n : ℕ)
    → 0 < n
    → chars buff p n ≡ get_or buff p 0 ∷ chars buff (advance p) (n - 1)
unfolding chars
chars_of_pos buff p zero h = absurd (omega arith)
chars_of_pos buff p (suc n) h = ap (λ k. chars buff p (suc k)) (omega arith)

pub length-contents : (r : RingBuffer) → length (contents r) ≡ waiting r
unfolding contents
length-contents r = length-chars r.buff r.consumer (waiting r)

-- A fresh ring is valid and empty.
pub init-IsValid :
    (r : RingBuffer) (blockable : Bool) (fresh : ℕ)
    → length r.buff ≡ buff_size
    → IsValid (init r blockable fresh) × (contents (init r blockable fresh) ≡ [])
unfolding init contents chars
init-IsValid r blockable fresh h = (ground arith, refl)

-- `ring_producer_add_char` keeps the pointers inside the buffer.
pub add_char-IsValid : (r : RingBuffer) (c : ℕ) → IsValid r → IsValid (producer_add_char r c).1
unfolding producer_add_char
add_char-IsValid r c v = ground (arith, length-set r.buff r.producer c)

-- `ring_consumer_next` keeps the pointers inside the buffer.
pub next-IsValid : (r : RingBuffer) → IsValid r → IsValid (consumer_next r).1
unfolding consumer_next
next-IsValid r v = ground arith

-- On a ring with its pointers inside the buffer, `ring_producer_add_char` is the queue's enqueue:
-- it answers true exactly while fewer than fifteen characters wait, and the character is then the
-- last to be read; else nothing changes.
pub add_char_refines :
    (r : RingBuffer) (c : ℕ)
    → IsValid r
    → ((producer_add_char r c).0, contents (producer_add_char r c).1) ≡ enqueue (contents r) c
unfolding producer_add_char enqueue contents
add_char_refines r c v = ground (
  arith,
  length-chars r.buff r.consumer (waiting r),
  chars-set r.buff c r.consumer (waiting r) r.producer,
)

-- On a ring with its pointers inside the buffer, `ring_consumer_next` is the queue's dequeue: it
-- gives the oldest character and removes it, or says that there is none and changes nothing.
pub next_refines :
    (r : RingBuffer)
    → IsValid r
    → ((consumer_next r).0, contents (consumer_next r).1) ≡ dequeue (contents r)
unfolding consumer_next dequeue contents
next_refines r v = ground (arith, chars_of_pos r.buff r.consumer (waiting r))
