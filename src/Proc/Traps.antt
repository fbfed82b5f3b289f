-- ===== src/Proc/Traps.antt =====
-- src/processes.c: the handlers of the traps 0x80 and 0x81 that PROC_run sets, and the interrupt flag
-- in PROC_block_on. A handler is named by its address.
use banj_os.Base.{
  ℕ, ◌<◌, ◌≡◌, ◌≢◌, ◌∙◌, Bool, true, ◌==◌, if◌then◌else◌, List, length, length-set, arith,
}
use banj_os.Irq.{IrqTableEntry, calls, irq_handler, handler_set, max_descriptors}
use banj_os.Irq.Handlers.{irq_handler-handler_set}

-- The table while the processes run, and after they have.
unfoldable pub run_handlers :
    (noop_handler kexit_handler : ℕ) → List IrqTableEntry → List IrqTableEntry
run_handlers noop_handler kexit_handler table =
    handler_set 0x81 kexit_handler 0 (handler_set 0x80 noop_handler 0 table)

unfoldable pub run_ended : List IrqTableEntry → List IrqTableEntry
run_ended table = handler_set 0x81 0 0 (handler_set 0x80 0 0 table)

-- The interrupt flag when the process is switched away from.
abbrev pub block_on_flag : (queue : ℕ) (enable_ints flag : Bool) → Bool
block_on_flag queue enable_ints flag =
    if queue == 0 then flag else (if enable_ints then true else flag)

-- With a table of full length and handlers that are not NULL: while the processes run, the two traps
-- call their handlers, and every other interrupt does what it did before.
pub run_handlers_lem :
    (noop_handler kexit_handler error_code : ℕ) (table : List IrqTableEntry)
    → length table ≡ max_descriptors
    → 0 < noop_handler
    → 0 < kexit_handler
    → let running = run_handlers noop_handler kexit_handler table in
      (irq_handler running 0x80 error_code ≡ calls noop_handler 0x80 error_code 0)
      × (irq_handler running 0x81 error_code ≡ calls kexit_handler 0x81 error_code 0)
      × ((other : ℕ)
          → 0x80 ≢ other
          → 0x81 ≢ other
          → irq_handler running other error_code ≡ irq_handler table other error_code)
unfolding run_handlers handler_set
run_handlers_lem noop_handler kexit_handler error_code table len h1 h2 =
    let first = handler_set 0x80 noop_handler 0 table in
    let (noop, others) =
      irq_handler-handler_set table 0x80 noop_handler 0 error_code len (omega arith) h1 in
    let (exit, others') =
      irq_handler-handler_set first 0x81 kexit_handler 0 error_code
        (length-set table 0x80 (record { arg = 0; handler = noop_handler }) ∙ len) (omega arith)
        h2 in
    (
      others' 0x80 (λ e. omega (arith, e)) ∙ noop,
      exit,
      λ other n m. others' other m ∙ others other n,
    )
