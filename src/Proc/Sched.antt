-- ===== src/Proc/Sched.antt =====
-- The scheduler of src/processes.c over its queues, with the context switch of
-- src/isr_handler.asm that the traps 0x80 and 0x81 end in. A process is its node's address. The
-- registers and stacks that the switch saves are in Context, the interrupt flag in Traps.
pub mod View
pub mod Blocking
pub mod Exit
pub mod Fair
pub mod Tests
use banj_os.Base.{
  ℕ, zero, suc, ◌+◌, Bool, true, false, not, List, [], ◌∷◌, Option, none, some, ◌==◌, if◌then◌else◌,
}
use banj_os.Proc.{Nodes, update, append_proc, unlink_proc, cycle_next_proc}

-- `avail` is the head of `avail_procs`, `queues` gives the head of the queue at an address,
-- `source` is the address of `source_proc`. `freed` lists what was given to `kfree`, latest first.
pub record Sched : Type 0 where
  pub nodes : Nodes
  pub context : ℕ → ℕ
  pub frame : ℕ → ℕ
  pub avail : ℕ
  pub queues : ℕ → ℕ
  pub cur_proc : ℕ
  pub next_proc : ℕ
  pub source : ℕ
  pub pid_count : ℕ
  pub freed : List ℕ

pub resume_source : Sched → Sched
resume_source s = record s { next_proc = s.source }

pub reschedule : Sched → Sched
reschedule s =
    let (p, head) = cycle_next_proc s.avail s.nodes in record s { avail = head; next_proc = p }

-- The end of an interrupt: nothing if the process stays; a NULL `next_proc` resumes the source.
pub context_switch : Sched → Sched
unfolding resume_source
context_switch s =
    if s.cur_proc == s.next_proc
    then s
    else (let t = if s.next_proc == 0 then resume_source s else s in
        record t { cur_proc = t.next_proc })

-- The trap 0x80 calls `noop_handler`, and then switches.
pub yield_proc : Sched → Sched
yield_proc s = context_switch (reschedule s)

pub unlink_avail : ℕ → Sched → Sched
unlink_avail node s =
    let (head, h) = unlink_proc node s.avail s.nodes in record s { avail = head; nodes = h }

pub append_avail : ℕ → Sched → Sched
append_avail node s =
    let (head, h) = append_proc node s.avail s.nodes in record s { avail = head; nodes = h }

pub unlink_queue : ℕ → ℕ → Sched → Sched
unlink_queue node q s =
    let (head, h) = unlink_proc node (s.queues q) s.nodes in
    record s { queues = update s.queues q head; nodes = h }

pub append_queue : ℕ → ℕ → Sched → Sched
append_queue node q s =
    let (head, h) = append_proc node (s.queues q) s.nodes in
    record s { queues = update s.queues q head; nodes = h }

-- `PROC_block_on`, up to the moment when the process is switched away from; `queue` may be NULL.
pub block_on : ℕ → Sched → Sched
block_on q s =
    if q == 0 then s else yield_proc (append_queue s.cur_proc q (unlink_avail s.cur_proc s))

-- `none` is the failed assertion, which halts.
pub unblock_head : ℕ → Sched → Option Sched
unblock_head q s =
    let node = s.queues q in
    if node == 0 then none else some (append_avail node (unlink_queue node q s))

-- The loop runs on fuel; `none` also when it runs out.
pub unblock_all : ℕ → ℕ → Sched → Option Sched
unblock_all zero q s = none
unblock_all (suc fuel) q s =
    if s.queues q == 0
    then some s
    else elim (unblock_head q s) [ none ↦ none | some t ↦ unblock_all fuel q t ]

pub has_unblocked : Sched → Bool
has_unblocked s = not (s.avail == 0)

pub init_queue : ℕ → Sched → Sched
init_queue q s = record s { queues = update s.queues q 0 }

pub kexit_handler : Sched → Sched
unfolding unlink_avail resume_source
kexit_handler s =
    let t = unlink_avail s.cur_proc s in
    let ctx = t.context s.cur_proc in
    let u = record t { freed = s.cur_proc ∷ (ctx ∷ (t.frame ctx ∷ t.freed)); cur_proc = 0 } in
    if u.avail == 0 then resume_source u else record u { next_proc = u.avail }

-- The trap 0x81: the handler, and the switch.
pub kexit : Sched → Sched
kexit s = context_switch (kexit_handler s)

-- `ctx`, `stack` and `node` are what the three calls of `kmalloc` return. The initial frame on the
-- new stack is in Context.
pub create_kthread : (ctx stack node : ℕ) → Sched → ℕ × Sched
unfolding append_avail
create_kthread ctx stack node s =
    let t = append_avail node (record s {
      context = update s.context node ctx;
      frame = update s.frame ctx stack;
      pid_count = s.pid_count + 1;
    }) in
    (s.pid_count, t)

-- `PROC_run` up to the switch into a process; the handlers that it sets are in Traps.
pub run : Sched → Sched
run s = if s.avail == 0 then s else yield_proc (record s { cur_proc = s.source })
