-- ===== src/Ring/Tests.antt =====
-- The ring run on small inputs, and its theorems at concrete rings.
use banj_os.Base.{◌≡◌, refl, true, false, some, [], ◌∷◌, ◌++◌, arith, replicate, take}
use banj_os.Ring.{
  RingBuffer, init, producer_add_char, consumer_next, add_all, consumer_block_next, spins,
}
use banj_os.Ring.Fifo.{
  IsValid, contents, enqueue, dequeue, init-IsValid, add_char_refines, next_refines,
}
use banj_os.Ring.Blocking.{Gives, block_next_first}

abbrev blank : RingBuffer
blank = record { buff = replicate 16 0; consumer = 9; producer = 4; blocked = 0 }

abbrev empty : RingBuffer
empty = record { buff = replicate 16 0; consumer = 15; producer = 15; blocked = 0x8000 }

-- one character at the last index, and the producer gone round
abbrev one : RingBuffer
one = record { buff = replicate 15 0 ++ (7 ∷ []); consumer = 15; producer = 0; blocked = 0x8000 }

fills : (producer_add_char (add_all empty (replicate 15 1)) 2).0 ≡ false
unfolding add_all producer_add_char
fills = refl

goes_round : (consumer_next (add_all (consumer_next one).1 (8 ∷ 9 ∷ []))).0 ≡ some 8
unfolding add_all producer_add_char consumer_next
goes_round = refl

no_queue : consumer_block_next (init blank false 5) ((1 ∷ []) ∷ []) ≡ spins (init blank false 5)
unfolding consumer_block_next init
no_queue = refl

init-IsValid_example : IsValid (init blank true 5) × (contents (init blank true 5) ≡ [])
init-IsValid_example = init-IsValid blank true 5 refl

add_char_refines_example :
    ((producer_add_char one 8).0, contents (producer_add_char one 8).1) ≡ enqueue (contents one) 8
add_char_refines_example = add_char_refines one 8 (omega arith)

next_refines_example :
    ((consumer_next one).0, contents (consumer_next one).1) ≡ dequeue (contents one)
next_refines_example = next_refines one (omega arith)

empty-contents : contents empty ≡ []
unfolding contents
empty-contents = refl

block_next_first_example :
    Gives
      (consumer_block_next empty (replicate 2 [] ++ ((65 ∷ 66 ∷ []) ∷ [])))
      65
      (take 14 (66 ∷ []))
block_next_first_example =
    block_next_first 2 empty 65 (66 ∷ []) [] (omega arith) (omega arith) empty-contents
