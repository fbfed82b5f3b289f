-- ===== src/Proc.antt =====
-- src/processes.c: process nodes in circular doubly linked queues, and the scheduler over them.
-- A pointer is a number, 0 for NULL, and the `next` and `prev` fields of the nodes are two maps
-- from addresses.
pub mod Links
pub mod Queue
pub mod Sched
pub mod Context
pub mod Traps
use banj_os.Base.{ℕ, Bool, true, false, ◌==◌, if◌then◌else◌}

pub record Nodes : Type 0 where
  pub next : ℕ → ℕ
  pub prev : ℕ → ℕ

-- A write through a pointer.
abbrev pub update : (ℕ → ℕ) → ℕ → ℕ → ℕ → ℕ
update f p v q = if p == q then v else f q

abbrev pub set_next : ℕ → ℕ → Nodes → Nodes
set_next p v h = record h { next = update h.next p v }

abbrev pub set_prev : ℕ → ℕ → Nodes → Nodes
set_prev p v h = record h { prev = update h.prev p v }

-- `struct ProcessQueue` is its `head`; the functions return the new head with the new nodes.
pub append_proc : (node head : ℕ) → Nodes → ℕ × Nodes
append_proc node head h =
    if head == 0
    then (node, set_prev node node (set_next node node h))
    else (let h1 = set_prev node (h.prev head) h in
        let h2 = set_next node head h1 in
        let h3 = set_next (h2.prev node) node h2 in (head, set_prev (h3.next node) node h3))

pub unlink_proc : (node head : ℕ) → Nodes → ℕ × Nodes
unlink_proc node head h =
    if node == h.prev node
    then (0, h)
    else (let h1 = set_next (h.prev node) (h.next node) h in
        let h2 = set_prev (h1.next node) (h1.prev node) h1 in
        (if node == head then h2.next node else head, h2))

-- The node that was first, and the new head; 0 for an empty queue.
pub cycle_next_proc : (head : ℕ) → Nodes → ℕ × ℕ
cycle_next_proc head h = if head == 0 then (0, head) else (head, h.next head)
