-- ===== src/Proc/Sched/Exit.antt =====
-- Creating a process and leaving one.
use banj_os.Base.{
  has, erase, ℕ, ◌+◌, ◌≡◌, ◌≢◌, refl, ◌∙◌, true, List, [], ◌∷◌, ◌++◌, arith, ◌==◌, if◌then◌else◌,
}
use banj_os.Proc.{Nodes, update}
use banj_os.Proc.Queue.{IsQueue}
use banj_os.Proc.Sched.{Sched, unlink_avail, append_avail, kexit_handler, kexit, create_kthread}
use banj_os.Proc.Sched.View.{IsView, Loose, unlink_avail-IsView, append_avail-IsView, IsView-same}
use banj_os.Proc.Sched.Blocking.{
  first_or, context_switch-IsView, context_switch_zero, freed-context_switch,
}

-- The head of a queue, or another address if the queue is empty.
head_or_first :
    (h : Nodes) (head d : ℕ) (xs : List ℕ)
    → IsQueue h head xs
    → (if head == 0 then d else head) ≡ first_or d xs
unfolding first_or
head_or_first h head d [] q = ground arith
head_or_first h head d (x ∷ xs) q = ground (arith, q.3)

-- `kexit` of a ready process takes it out of the ready ones, frees its stack, its context and its
-- node once each, and runs the first of the other ready processes (the source if there is none).
pub kexit_lem :
    {s : Sched} {ready : List ℕ} {waiting : ℕ → List ℕ}
    → IsView s ready waiting
    → has s.cur_proc ready ≡ true
    → s.source ≢ 0
    → let rest = erase s.cur_proc ready in
      let ctx = s.context s.cur_proc in
      IsView (kexit s) rest waiting
      × ((kexit s).cur_proc ≡ first_or s.source rest)
      × ((kexit s).freed ≡ s.cur_proc ∷ (ctx ∷ (s.frame ctx ∷ s.freed)))
unfolding kexit kexit_handler unlink_avail
kexit_lem {s} {ready} v i h =
    let (w, loose) = unlink_avail-IsView v s.cur_proc i in
    let first = head_or_first _ _ s.source (erase s.cur_proc ready) w.avail in
    let zero : (kexit_handler s).cur_proc ≡ 0 = ground arith in
    let next : (kexit_handler s).next_proc ≡ first_or s.source (erase s.cur_proc ready) =
      ground (arith, first) in
    (
      context_switch-IsView
          (IsView-same (kexit_handler s) w (ground arith) (ground arith) (ground arith)),
      context_switch_zero (kexit_handler s) zero (ground arith) ∙ next,
      freed-context_switch (kexit_handler s) ∙ ground arith,
    )

-- `PROC_create_kthread` with three new blocks puts the new process behind the ready ones, with its
-- context and stack, and gives it the next process number. What else is queued stays.
pub create_kthread_lem :
    {s : Sched} {ready : List ℕ} {waiting : ℕ → List ℕ} (ctx stack node : ℕ)
    → IsView s ready waiting
    → node ≢ 0
    → Loose node ready waiting
    → let (pid, t) = create_kthread ctx stack node s in
      (pid ≡ s.pid_count)
      × (t.pid_count ≡ s.pid_count + 1)
      × IsView t (ready ++ (node ∷ [])) waiting
      × (t.context node ≡ ctx)
      × (t.frame ctx ≡ stack)
unfolding create_kthread append_avail
create_kthread_lem {s} {ready} {waiting} ctx stack node v h loose =
    let t : Sched = record s {
      context = update s.context node ctx;
      frame = update s.frame ctx stack;
      pid_count = s.pid_count + 1;
    } in
    let w : IsView t ready waiting = IsView-same t v refl refl refl in
    (refl, refl, append_avail-IsView w node h loose, ground arith, ground arith)
