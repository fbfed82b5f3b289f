-- ===== src/Ring.antt =====
-- src/ring_buffer.c: the ring of characters between an interrupt handler and its reader. The two
-- pointers into `buff` are indices, and a function that updates `*state` returns the new state.
pub mod Fifo
pub mod Blocking
mod Tests
use banj_os.Base.{
  ℕ, ◌+◌, Bool, true, false, List, [], ◌∷◌, ◌&&◌, ◌||◌, Option, none, some, leb, ◌==◌,
  if◌then◌else◌, get_or, set,
}

abbrev pub buff_size : ℕ
buff_size = 16

-- `blocked` is the address of the queue of waiting processes, 0 for NULL.
pub record RingBuffer : Type 0 where
  pub buff : List ℕ
  pub consumer : ℕ
  pub producer : ℕ
  pub blocked : ℕ

-- `fresh` is what `kmalloc` returns for the queue of waiting processes.
unfoldable pub init : RingBuffer → Bool → (fresh : ℕ) → RingBuffer
init state blockable fresh = record state {
  consumer = 0;
  producer = 0;
  blocked = if blockable then fresh else 0;
}

-- `p++`, and back to the start past the end.
unfoldable pub advance : ℕ → ℕ
advance p = if leb buff_size (p + 1) then 0 else p + 1

-- The read both consumers make once the ring is not empty.
unfoldable pub take_char : RingBuffer → ℕ × RingBuffer
unfolding advance
take_char state =
    (get_or state.buff state.consumer 0, record state { consumer = advance state.consumer })

unfoldable pub is_empty : RingBuffer → Bool
is_empty state = state.consumer == state.producer

-- `none` is the result `false`, with `*next` not written.
unfoldable pub consumer_next : RingBuffer → Option ℕ × RingBuffer
unfolding take_char is_empty
consumer_next state =
    if is_empty state
    then (none, state)
    else (let (c, state') = take_char state in (some c, state'))

-- `producer == consumer - 1` at the start of the buffer compares with the address before it, which
-- no pointer of the ring is.
unfoldable pub is_full : RingBuffer → Bool
is_full state =
    (state.producer + 1 == state.consumer)
    || ((state.consumer == 0) && (state.producer + 1 == buff_size))

unfoldable pub producer_add_char : RingBuffer → ℕ → Bool × RingBuffer
unfolding advance is_full
producer_add_char state to_add = if is_full state then (false, state) else (
  true,
  record state { buff = set state.buff state.producer to_add; producer = advance state.producer },
)

-- The characters that the interrupt handler adds, in order.
unfoldable pub add_all : RingBuffer → List ℕ → RingBuffer
add_all state [] = state
add_all state (c ∷ cs) = add_all (producer_add_char state c).1 cs

-- How a blocking read stands after a given number of wake-ups.
pub data Read : Type 0 where
  got : ℕ → RingBuffer → Read
  blocked_on : RingBuffer → Read
  spins : RingBuffer → Read

-- Each list holds the characters that arrive before the next wake-up, while the reader is blocked.
-- `PROC_block_on` returns at once on a NULL queue, with interrupts still off, so that the loop then
-- never ends.
pub consumer_block_next : RingBuffer → List (List ℕ) → Read
unfolding take_char is_empty
consumer_block_next state [] =
    if is_empty state
    then (if state.blocked == 0 then spins state else blocked_on state)
    else (let (c, state') = take_char state in got c state')
consumer_block_next state (arrived ∷ wakes) =
    let rest = consumer_block_next (add_all state arrived) wakes in
    if is_empty state
    then (if state.blocked == 0 then spins state else rest)
    else (let (c, state') = take_char state in got c state')
