-- ===== src/Irq/Init.antt =====
-- src/interrupts.c: IRQ_init with IRQ_init_tss. The addresses of the task state segment, of the stacks
-- and of the stubs are the linker's. A register is what was loaded into it.
use banj_os.Base.{
  ℕ, ◌+◌, ◌-◌, ◌*◌, ◌/◌, ◌%◌, ◌^◌, ◌<◌, ◌≡◌, Bool, true, false, Option, none, some, List, [], ◌∷◌,
  get_or, set, replicate,
}
use banj_os.Gdt.{Gdt, push, load}
use banj_os.Irq.{
  IdtEntry, fill_idt, ist_of, max_descriptors, TssDescriptor, tss_set_descriptor, IrqTableEntry,
  cleared, irq_handler, unhandled, Outb, pic_remap,
}
use banj_os.Irq.Idt.{Enters}

-- The addresses of `tss`, `DF_stack`, `PF_stack`, `GP_stack` and `EX_stack`.
pub record Places : Type 0 where
  pub tss : ℕ
  pub df_stack : ℕ
  pub pf_stack : ℕ
  pub gp_stack : ℕ
  pub ex_stack : ℕ

-- The descriptor as an array of two words.
pub tss_words : TssDescriptor → List ℕ
tss_words d =
    (d.limit_low
      + d.base_low * 2 ^ 16
      + d.gate * 2 ^ 40
      + d.zero_bit * 2 ^ 44
      + d.privilege * 2 ^ 45
      + d.present * 2 ^ 47
      + d.limit_mid * 2 ^ 48
      + d.available * 2 ^ 52
      + d.ignored * 2 ^ 53
      + d.granularity * 2 ^ 55
      + d.base_mid * 2 ^ 56)
    ∷ ((d.base_high + d.reserved * 2 ^ 32) ∷ [])

-- The tables and the registers. Of the task state segment the other fields are 0.
pub record Machine : Type 0 where
  pub gdt : Gdt
  pub interrupt_stack_table : List ℕ
  pub task_register : ℕ
  pub idt : List IdtEntry
  pub idt_limit : ℕ
  pub irq_table : List IrqTableEntry
  pub interrupts : Bool

-- `none` is a write past the end of the descriptor table.
pub irq_init_tss : Places → Machine → Option Machine
irq_init_tss p m =
    let stacks = replicate 7 0 in
    let stacks1 = set stacks (1 - 1) (p.df_stack) in
    let stacks2 = set stacks1 (2 - 1) (p.pf_stack) in
    let stacks3 = set stacks2 (3 - 1) (p.gp_stack) in
    let stacks4 = set stacks3 (4 - 1) (p.ex_stack) in
    elim (push (tss_words (tss_set_descriptor (p.tss))) (m.gdt)) [
      | none ↦ none
      | some (tss_offset, gdt') ↦ some (record m {
        gdt = load gdt';
        interrupt_stack_table = stacks4;
        task_register = tss_offset;
      })
    ]

-- The machine, and what is written to the ports.
pub irq_init : Places → (isr_stub_table : ℕ → ℕ) → Machine → Option (Machine × List Outb)
irq_init p stubs m = elim (irq_init_tss p (record m { interrupts = false })) [
  | none ↦ none
  | some m1 ↦ some (
    record m1 {
      idt = fill_idt max_descriptors 0 (m1.gdt.kernel_desc_offset) stubs (m1.idt);
      idt_limit = (16 * max_descriptors - 1) % 2 ^ 16;
      irq_table = replicate max_descriptors cleared;
      interrupts = true;
    },
    pic_remap 0x20,
  )
]

-- What the processor reads from the two words of a task state segment's descriptor: an available
-- segment of 64 bits, with its address and its limit.
pub record IsTss (low high base : ℕ) : Type 0 where
  pub limit : low % 2 ^ 16 + low / 2 ^ 48 % 2 ^ 4 * 2 ^ 16 ≡ 103
  pub address : low / 2 ^ 16 % 2 ^ 24 + low / 2 ^ 56 * 2 ^ 24 + high % 2 ^ 32 * 2 ^ 32 ≡ base
  pub type : low / 2 ^ 40 % 2 ^ 5 ≡ 9
  pub present : low / 2 ^ 47 % 2 ≡ 1

-- What the processor finds after `IRQ_init`. The entries for the stacks are their lowest addresses, as
-- the code sets them, though a stack grows downwards.
pub record IsReady (p : Places) (stubs : ℕ → ℕ) (g : Gdt) (m : Machine) : Type 0 where
  pub vectors :
      (i : ℕ) (d : IdtEntry)
      → i < max_descriptors
      → Enters (get_or (m.idt) i d) (g.kernel_desc_offset) (stubs i) (ist_of i)
  pub whole_idt : m.idt_limit ≡ 16 * max_descriptors - 1
  pub segment : m.task_register ≡ 8 * g.top
  pub task_segment :
      IsTss (get_or (m.gdt.table) (g.top) 0) (get_or (m.gdt.table) (g.top + 1) 0) (p.tss)
  pub in_gdt : m.gdt.limit ≡ 8 * (g.top + 2) - 1
  pub stacks :
      (get_or (m.interrupt_stack_table) (ist_of 0x8 - 1) 0 ≡ p.df_stack)
      × (get_or (m.interrupt_stack_table) (ist_of 0xE - 1) 0 ≡ p.pf_stack)
      × (get_or (m.interrupt_stack_table) (ist_of 0xD - 1) 0 ≡ p.gp_stack)
      × (get_or (m.interrupt_stack_table) (ist_of 0x81 - 1) 0 ≡ p.ex_stack)
  pub no_handlers :
      (number error_code : ℕ)
      → number < max_descriptors
      → irq_handler (m.irq_table) number error_code ≡ unhandled number error_code
  pub enabled : m.interrupts ≡ true

-- The machine after it, with the pushed table.
abbrev after : Places → (stubs : ℕ → ℕ) → Machine → Gdt → Machine
after p stubs m g' = record {
  gdt = load g';
  interrupt_stack_table =
      p.df_stack ∷ (p.pf_stack ∷ (p.gp_stack ∷ (p.ex_stack ∷ (0 ∷ (0 ∷ (0 ∷ []))))));
  task_register = 8 * m.gdt.top;
  idt = fill_idt max_descriptors 0 (g'.kernel_desc_offset) stubs (m.idt);
  idt_limit = 4095;
  irq_table = replicate max_descriptors cleared;
  interrupts = true;
}
