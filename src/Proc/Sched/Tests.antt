-- ===== src/Proc/Sched/Tests.antt =====
-- The scheduler run on three processes, and its theorems at that state.
use banj_os.Base.{erase, ℕ, ◌≡◌, refl, some, List, [], ◌∷◌, ◌++◌, arith}
use banj_os.Proc.{Nodes, update, unlink_proc, cycle_next_proc}
use banj_os.Proc.Sched.{
  Sched, yield_proc, context_switch, reschedule, append_queue, unlink_avail, block_on, unblock_all,
  kexit,
}
use banj_os.Proc.Sched.View.{IsView, at}
use banj_os.Proc.Sched.Blocking.{rotate, first_or, block_on_lem, unblock_all_lem}
use banj_os.Proc.Sched.Exit.{kexit_lem}
use banj_os.Proc.Sched.Fair.{yields, yields_fair}

-- Three ready processes at 10, 20 and 30, of which 30 runs, and two at 40 and 50 that wait in
-- queue 7.
abbrev pub nodes : Nodes
nodes = record {
  next = update (update (update (update (update (λ _. 0) 10 20) 20 30) 30 10) 40 50) 50 40;
  prev = update (update (update (update (update (λ _. 0) 10 30) 20 10) 30 20) 40 50) 50 40;
}

abbrev pub state : Sched
state = record {
  nodes = nodes;
  context = update (λ _. 0) 30 300;
  frame = update (λ _. 0) 300 3000;
  avail = 10;
  queues = update (λ _. 0) 7 40;
  cur_proc = 30;
  next_proc = 30;
  source = 99;
  pid_count = 3;
  freed = [];
}

abbrev pub ready : List ℕ
ready = 10 ∷ (20 ∷ (30 ∷ []))

abbrev pub waiting : ℕ → List ℕ
waiting = at (λ _. []) 7 (40 ∷ (50 ∷ []))

pub state-IsView : IsView state ready waiting
state-IsView = record {
  avail = ground arith;
  queues = λ q. ground arith;
  apart = λ q a i. ground arith;
  separate = λ p q a ne i. ground arith;
}

next_after_block : (block_on 7 state).cur_proc ≡ 10
unfolding block_on yield_proc context_switch reschedule append_queue unlink_avail cycle_next_proc
    unlink_proc
next_after_block = refl

block_on_lem_example :
    IsView (block_on 7 state) (rotate (erase 30 ready)) (at waiting 7 (waiting 7 ++ (30 ∷ [])))
    × ((block_on 7 state).cur_proc ≡ first_or 99 (erase 30 ready))
block_on_lem_example = block_on_lem 7 state-IsView refl (omega arith)

unblock_all_lem_example :
    (t : Sched) × (unblock_all 3 7 state ≡ some t) × IsView t (ready ++ waiting 7) (at waiting 7 [])
unblock_all_lem_example = unblock_all_lem 3 7 state-IsView (omega arith)

kexit_lem_example :
    IsView (kexit state) (erase 30 ready) waiting
    × ((kexit state).cur_proc ≡ first_or 99 (erase 30 ready))
    × ((kexit state).freed ≡ 30 ∷ (300 ∷ (3000 ∷ [])))
kexit_lem_example = kexit_lem state-IsView refl (omega arith)

yields_fair_example : (yields 3 state).cur_proc ≡ 30
yields_fair_example = yields_fair (10 ∷ (20 ∷ [])) [] 30 state-IsView (omega arith)
