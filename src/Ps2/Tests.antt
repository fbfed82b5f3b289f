-- ===== src/Ps2/Tests.antt =====
-- The key S, on a controller that holds its code, with two readers waiting for the ring.
use banj_os.Base.{ℕ, ◌%◌, ◌^◌, ◌≡◌, refl, some, [], ◌++◌, arith, replicate}
use banj_os.Ports.{Ports}
use banj_os.Proc.Sched.{Sched}
use banj_os.Proc.Sched.View.{IsView, at}
use banj_os.Proc.Sched.Tests.{state, ready, waiting, state-IsView}
use banj_os.Ring.{RingBuffer}
use banj_os.Ring.Fifo.{IsValid, contents}
use banj_os.Ps2.{ps2_irq_handler}
use banj_os.Ps2.Typing.{type_key, HasKey, ps2_irq_handler_lem}

-- The status has the bit of waiting output, and every port gives the same byte.
abbrev controller : Ports ℕ
controller = record {
  inp = λ port s. (s, s);
  out = λ port val s. s;
  inp_word = λ port s. (0, s);
  out_word = λ port val s. s;
}

controller-HasKey : HasKey controller (λ s. s % 2 ^ 8)
controller-HasKey = record { kept = λ s. refl; gives = λ s. refl }

abbrev ring : RingBuffer
ring = record { buff = replicate 16 0; consumer = 0; producer = 0; blocked = 7 }

-- 0x1F is the key S.
ps2_irq_handler_lem_example :
    (ring' : RingBuffer) × (procs' : Sched) × (s' : ℕ) × (ps2_irq_handler controller 1 3 0x21 ring
        state 0x1F
      ≡ some ((ring', procs'), s'))
    × IsValid ring'
    × (contents ring' ≡ type_key 0x1F (contents ring))
    × IsView procs' (ready ++ waiting 7) (at waiting 7 [])
ps2_irq_handler_lem_example =
    ps2_irq_handler_lem controller (λ s. s % 2 ^ 8) controller-HasKey 0 1 3 0x21 ring state ready
      waiting 0x1F refl (omega arith)
      (record { storage = refl; consumer_in = omega arith; producer_in = omega arith }) state-IsView
      (omega arith)
