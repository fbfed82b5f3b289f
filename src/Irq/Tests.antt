-- ===== src/Irq/Tests.antt =====
-- The controllers and the handlers at concrete values.
use banj_os.Base.{ℕ, false, List, [], ◌∷◌, replicate}
use banj_os.Irq.{IdtEntry, IrqTableEntry, cleared, idt_set_descriptor}
use banj_os.Gdt.{Gdt}
use banj_os.Irq.Init.{Machine, Places}

abbrev blank : IdtEntry
blank = idt_set_descriptor 0 0 0

abbrev stubs : ℕ → ℕ
stubs i = 0x100000

abbrev no_handlers : List IrqTableEntry
no_handlers = replicate 256 cleared

-- After `GDT_setup`.
abbrev gdt : Gdt
gdt = record {
  table = 0 ∷ (0x20980000000000 ∷ replicate 6 0);
  top = 2;
  kernel_desc_offset = 8;
  limit = 15;
}

abbrev machine : Machine
machine = record {
  gdt = gdt;
  interrupt_stack_table = [];
  task_register = 0;
  idt = replicate 256 blank;
  idt_limit = 0;
  irq_table = no_handlers;
  interrupts = false;
}

abbrev places : Places
places = record {
  tss = 0x108000;
  df_stack = 0x109000;
  pf_stack = 0x10A000;
  gp_stack = 0x10B000;
  ex_stack = 0x10C000;
}

abbrev all_masked : ℕ → ℕ
all_masked port = 0xff
