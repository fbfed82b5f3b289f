-- ===== src/Irq/Handlers.antt =====
-- A handler that is set is the one that is called, and the others stay.
use banj_os.Base.{
  ℕ, ◌<◌, ◌≡◌, ◌≢◌, refl, List, length, get_or, set, get_or-set_self, get_or-set_ne, arith, ◌∙◌,
}
use banj_os.Irq.{IrqTableEntry, cleared, calls, irq_handler, handler_set, max_descriptors, enter}

pub irq_handler-valid :
    (table : List IrqTableEntry) (number error_code : ℕ)
    → number < max_descriptors
    → irq_handler table number error_code ≡ enter (get_or table number cleared) number error_code
unfolding irq_handler
irq_handler-valid table number error_code h = ground arith

-- After `IRQ_handler_set` of a handler at a valid number, an interrupt of that number calls the handler with its argument, and one of
-- another number, valid or not, does what it did before.
pub irq_handler-handler_set :
    (table : List IrqTableEntry) (number handler arg error_code : ℕ)
    → length table ≡ max_descriptors
    → number < max_descriptors
    → 0 < handler
    → (irq_handler (handler_set number handler arg table) number error_code
        ≡ calls handler number error_code arg)
      × ((other : ℕ)
          → number ≢ other
          → irq_handler (handler_set number handler arg table) other error_code
            ≡ irq_handler table other error_code)
unfolding handler_set irq_handler
irq_handler-handler_set table number handler arg error_code len h p =
    let entry : IrqTableEntry = record { arg = arg; handler = handler } in
    (
      irq_handler-valid (set table number entry) number error_code h
          ∙ rw (get_or-set_self table number entry cleared (omega (arith, len))) (ground arith),
      λ other ne. rw (get_or-set_ne table number other entry cleared ne) refl,
    )
