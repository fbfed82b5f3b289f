-- ===== src/Proc/Sched/Blocking.antt =====
-- Yielding, blocking on a queue and being woken.
use banj_os.Base.{
  has, erase, erase-head, has-append, ℕ, zero, suc, ◌<◌, ◌≡◌, ◌≢◌, refl, ap, ◌∙◌, true, false, List,
  [], ◌∷◌, ◌++◌, arith, ◌==◌, if◌then◌else◌, some, length, append-nil, append_assoc,
}
use mathlib.Core.Path.{fun_ext}
use banj_os.Proc.{Nodes, cycle_next_proc}
use banj_os.Proc.Queue.{IsQueue, cycle_next_proc_lem, cycle_next_proc-zero, IsQueue-ne_zero}
use banj_os.Proc.Sched.{
  Sched, reschedule, context_switch, yield_proc, block_on, unblock_head, unblock_all, unlink_avail,
  append_queue, append_avail, unlink_queue,
}
use banj_os.Proc.Sched.View.{
  IsView, at, unlink_avail-IsView, append_queue-IsView, unlink_queue-IsView, append_avail-IsView,
  IsView-same, IsView-ready,
}

unfoldable pub rotate : List ℕ → List ℕ
rotate [] = []
rotate (x ∷ xs) = xs ++ (x ∷ [])

unfoldable pub first_or : ℕ → List ℕ → ℕ
first_or d [] = d
first_or d (x ∷ xs) = x

has-rotate : (a : ℕ) (xs : List ℕ) → has a (rotate xs) ≡ has a xs
unfolding rotate
has-rotate a [] = refl
has-rotate a (x ∷ xs) = ground (arith, has-append a xs (x ∷ []))

reschedule_lem :
    {s : Sched} {ready : List ℕ} {waiting : ℕ → List ℕ}
    → IsView s ready waiting
    → IsView (reschedule s) (rotate ready) waiting × ((reschedule s).next_proc ≡ first_or 0 ready)
unfolding reschedule rotate first_or
reschedule_lem {s} {ready = []} v =
    let e : cycle_next_proc s.avail s.nodes ≡ (0, s.avail) = cycle_next_proc-zero s.nodes v.avail in
    (IsView-same _ v refl (ap (λ p. p.1) e) refl, ap (λ p. p.0) e)
reschedule_lem {s} {ready = x ∷ xs} v =
    let (e, q) = cycle_next_proc_lem s.nodes s.avail x xs v.avail in
    (IsView-ready _ (xs ++ (x ∷ [])) v refl refl (λ a. has-rotate a (x ∷ xs)) q, e)

pub context_switch-IsView :
    {s : Sched} {ready : List ℕ} {waiting : ℕ → List ℕ}
    → IsView s ready waiting
    → IsView (context_switch s) ready waiting
unfolding context_switch
context_switch-IsView {s} v =
    IsView-same (context_switch s) v (ground arith) (ground arith) (ground arith)

context_switch_lem :
    (s : Sched)
    → s.cur_proc ≢ 0
    → (context_switch s).cur_proc ≡ (if s.next_proc == 0 then s.source else s.next_proc)
unfolding context_switch
context_switch_lem s h = ground arith

-- After an exit no process is left to save.
pub context_switch_zero :
    (s : Sched) → s.cur_proc ≡ 0 → s.next_proc ≢ 0 → (context_switch s).cur_proc ≡ s.next_proc
unfolding context_switch
context_switch_zero s e h = ground arith

pub freed-context_switch : (s : Sched) → (context_switch s).freed ≡ s.freed
unfolding context_switch
freed-context_switch s = ground arith

first_or_lem :
    (h : Nodes) (head d : ℕ) (xs : List ℕ)
    → IsQueue h head xs
    → (if first_or 0 xs == 0 then d else first_or 0 xs) ≡ first_or d xs
unfolding first_or
first_or_lem h head d [] q = refl
first_or_lem h head d (x ∷ xs) q = ground (arith, q.3)

-- A yield runs the first ready process, or the source if there is none, and the ready processes
-- go round by one place. The waiting ones stay as they are.
pub yield_proc_lem :
    {s : Sched} {ready : List ℕ} {waiting : ℕ → List ℕ}
    → IsView s ready waiting
    → s.cur_proc ≢ 0
    → IsView (yield_proc s) (rotate ready) waiting
      × ((yield_proc s).cur_proc ≡ first_or s.source ready)
unfolding yield_proc reschedule
yield_proc_lem {s} {ready} v h =
    let (w, e) = reschedule_lem v in
    (
      context_switch-IsView w,
      context_switch_lem (reschedule s) h
          ∙ ap (λ p. if p == 0 then s.source else p) e
          ∙ first_or_lem s.nodes s.avail s.source ready v.avail,
    )

-- `PROC_block_on` by a ready process, on a queue that is not NULL: the process goes to the end of
-- that queue, the first of the other ready processes runs (the source if there is none), and they go
-- round by one place. No other queue changes.
pub block_on_lem :
    {s : Sched} {ready : List ℕ} {waiting : ℕ → List ℕ} (q : ℕ)
    → IsView s ready waiting
    → has s.cur_proc ready ≡ true
    → q ≢ 0
    → let rest = erase s.cur_proc ready in
      IsView (block_on q s) (rotate rest) (at waiting q (waiting q ++ (s.cur_proc ∷ [])))
      × ((block_on q s).cur_proc ≡ first_or s.source rest)
unfolding block_on append_queue unlink_avail
block_on_lem {s} {ready} q v i h =
    let q0 : (q == 0) ≡ false = ground arith in
    let c0 : s.cur_proc ≢ 0 = IsQueue-ne_zero s.nodes s.avail s.cur_proc ready v.avail i in
    let (w, loose) = unlink_avail-IsView v s.cur_proc i in
    rw q0 (yield_proc_lem (append_queue-IsView w s.cur_proc q c0 loose) c0)

at-at :
    (waiting : ℕ → List ℕ) (q : ℕ) (xs ys : List ℕ) → at (at waiting q xs) q ys ≡ at waiting q ys
at-at waiting q xs ys = fun_ext λ p. ground arith

at_self : (waiting : ℕ → List ℕ) (q : ℕ) (xs : List ℕ) → at waiting q xs q ≡ xs
at_self waiting q xs = ground arith

at-same : (waiting : ℕ → List ℕ) (q : ℕ) (xs : List ℕ) → waiting q ≡ xs → at waiting q xs ≡ waiting
at-same waiting q xs e = fun_ext λ p. ground arith

unblock_head-some :
    (s : Sched) (q x : ℕ)
    → s.queues q ≡ x
    → x ≢ 0
    → unblock_head q s ≡ some (append_avail x (unlink_queue x q s))
unfolding unblock_head
unblock_head-some s q x e h = let n : (x == 0) ≡ false = ground arith in rw (e, n)

-- `PROC_unblock_head` of a queue that is not empty moves its first process to the end of the ready
-- ones, and changes no other queue.
pub unblock_head_lem :
    {s : Sched} {ready : List ℕ} {waiting : ℕ → List ℕ} (q x : ℕ) (xs : List ℕ)
    → IsView s ready waiting
    → waiting q ≡ x ∷ xs
    → (t : Sched) × (unblock_head q s ≡ some t) × IsView t (ready ++ (x ∷ [])) (at waiting q xs)
unblock_head_lem {s} {ready} {waiting} q x xs v e =
    let l = rw e at (v.queues q) in
    let x0 : x ≢ 0 = IsQueue-ne_zero s.nodes (s.queues q) x (x ∷ xs) l (ground arith) in
    let (w, loose) = unlink_queue-IsView v x q (rw e (ground arith)) in
    let shorter = ap (erase x) e ∙ erase-head x xs in
    (
      append_avail x (unlink_queue x q s),
      unblock_head-some s q x l.0 x0,
      rw shorter at (append_avail-IsView w x x0 loose),
    )

unblock_all_go :
    (fuel q : ℕ) (xs : List ℕ) (s : Sched) (ready : List ℕ) (waiting : ℕ → List ℕ)
    → IsView s ready waiting
    → waiting q ≡ xs
    → length xs < fuel
    → (t : Sched) × (unblock_all fuel q s ≡ some t) × IsView t (ready ++ xs) (at waiting q [])
unfolding unblock_all
unblock_all_go zero q xs s ready waiting v e h = absurd (omega arith)
unblock_all_go (suc fuel) q [] s ready waiting v e h =
    let l = rw e at (v.queues q) in (s, rw l, rw (append-nil, at-same waiting q [] e) v)
unblock_all_go (suc fuel) q (x ∷ xs) s ready waiting v e h =
    let l = rw e at (v.queues q) in
    let x0 : (s.queues q == 0) ≡ false = ground (arith, l.3) in
    let (t, r, w) = unblock_head_lem q x xs v e in
    let (u, r', w') =
      unblock_all_go fuel q xs t (ready ++ (x ∷ [])) (at waiting q xs) w (at_self waiting q xs)
        (omega arith) in
    (u, rw (x0, r) r', rw (append_assoc, at-at waiting q xs []) at w')

-- `PROC_unblock_all` ends, with fuel for one round more than there are processes in the queue, and
-- moves them all behind the ready ones, in their order; it leaves the queue empty and every other
-- queue as it is.
pub unblock_all_lem :
    {s : Sched} {ready : List ℕ} {waiting : ℕ → List ℕ} (fuel q : ℕ)
    → IsView s ready waiting
    → length (waiting q) < fuel
    → (t : Sched) × (unblock_all fuel q s ≡ some t)
      × IsView t (ready ++ waiting q) (at waiting q [])
unblock_all_lem {s} {ready} {waiting} fuel q v h =
    unblock_all_go fuel q (waiting q) s ready waiting v refl h
