-- ===== src/Irq.antt =====
-- src/interrupts.c, include/interrupts.h: the descriptor table of the interrupts, the task state
-- segment's descriptor, the table of handlers, and the two interrupt controllers.
pub mod Idt
pub mod Handlers
pub mod Mask
pub mod Init
mod Tests
use Prim.Native.Nat.{bit_and, bit_or}
use banj_os.Base.{
  ℕ, zero, suc, ◌+◌, ◌-◌, ◌*◌, ◌/◌, ◌%◌, ◌^◌, Bool, true, false, not, Option, none, some, List, [],
  ◌∷◌, ltb, leb, ◌==◌, if◌then◌else◌, replicate, set, get_or, get_elem?, ◌++◌, map,
}

abbrev pub max_descriptors : ℕ
max_descriptors = 256

-- The bit fields, each as a number.
pub record IdtEntry : Type 0 where
  pub isr_low : ℕ
  pub kernel_cs : ℕ
  pub ist : ℕ
  pub reserved1 : ℕ
  pub gate : ℕ
  pub zero_bit : ℕ
  pub dpl : ℕ
  pub present : ℕ
  pub isr_mid : ℕ
  pub isr_high : ℕ
  pub reserved2 : ℕ

pub idt_set_descriptor : (kernel_desc_offset isr ist : ℕ) → IdtEntry
idt_set_descriptor kernel_desc_offset isr ist = record {
  isr_low = isr % 2 ^ 16;
  kernel_cs = kernel_desc_offset % 2 ^ 16;
  ist = ist % 8;
  reserved1 = 0;
  gate = 0xE;
  zero_bit = 0;
  dpl = 0;
  present = 1;
  isr_mid = isr / 2 ^ 16 % 2 ^ 16;
  isr_high = isr / 2 ^ 32 % 2 ^ 32;
  reserved2 = 0;
}

-- The `switch` of `IRQ_init`: the stack of each vector.
pub ist_of : ℕ → ℕ
ist_of i =
    if i == 0x8
    then 1
    else if i == 0xE
    then 2
    else if i == 0xD
    then 3
    else if i == 0x81
    then 4
    else 0

-- The loop of `IRQ_init`, `n` turns from `i` on; the table of stubs is the assembly's.
pub fill_idt :
    (n i : ℕ) → (kernel_desc_offset : ℕ) → (isr_stub_table : ℕ → ℕ) → List IdtEntry → List IdtEntry
fill_idt zero i cs stubs idt = idt
fill_idt (suc n) i cs stubs idt =
    fill_idt n (suc i) cs stubs (set idt i (idt_set_descriptor cs (stubs i) (ist_of i)))

pub record TssDescriptor : Type 0 where
  pub limit_low : ℕ
  pub base_low : ℕ
  pub gate : ℕ
  pub zero_bit : ℕ
  pub privilege : ℕ
  pub present : ℕ
  pub limit_mid : ℕ
  pub available : ℕ
  pub ignored : ℕ
  pub granularity : ℕ
  pub base_mid : ℕ
  pub base_high : ℕ
  pub reserved : ℕ

abbrev pub tss_size : ℕ
tss_size = 104

pub tss_set_descriptor : (base : ℕ) → TssDescriptor
tss_set_descriptor base = record {
  limit_low = tss_size - 1;
  base_low = base % 2 ^ 24;
  gate = 0x9;
  zero_bit = 0;
  privilege = 0;
  present = 1;
  limit_mid = 0;
  available = 0;
  ignored = 0;
  granularity = 0;
  base_mid = base / 2 ^ 24 % 2 ^ 8;
  base_high = base / 2 ^ 32 % 2 ^ 32;
  reserved = 0;
}

-- A handler is named by its address, 0 for none.
pub record IrqTableEntry : Type 0 where
  pub arg : ℕ
  pub handler : ℕ

abbrev pub cleared : IrqTableEntry
cleared = record { arg = 0; handler = 0 }

-- What an interrupt leads to.
pub data Dispatch : Type 0 where
  invalid : ℕ → Dispatch
  unhandled : (number error_code : ℕ) → Dispatch
  calls : (handler number error_code arg : ℕ) → Dispatch

abbrev pub enter : IrqTableEntry → (number error_code : ℕ) → Dispatch
enter entry number error_code =
    if entry.handler == 0
    then unhandled number error_code
    else calls (entry.handler) number error_code (entry.arg)

-- `number` is the bit pattern of an `int`: the negative ones are those from 2 ^ 31 on.
pub irq_handler : List IrqTableEntry → (number error_code : ℕ) → Dispatch
irq_handler table number error_code =
    if leb (2 ^ 31) number
    then invalid number
    else if leb max_descriptors number
    then invalid number
    else enter (get_or table number cleared) number error_code

-- `irq_handler` with the interrupt flag, over what a call does to the flag and to the rest: `CLI`
-- before the call and `STI` behind it.
abbrev pub irq_entry :
    {S : Type 0}
    → (call : Dispatch → Bool × S → Bool × S) → List IrqTableEntry
    → (number error_code : ℕ) → Bool × S
    → Bool × S
irq_entry call table number error_code (flag, s) =
    let (flag', s') = call (irq_handler table number error_code) (false, s) in (true, s')

-- `are_interrupts_enabled`, of the flags register.
abbrev pub are_interrupts_enabled : (flags : ℕ) → Bool
are_interrupts_enabled flags = not (flags / 2 ^ 9 % 2 == 0)

-- `enable_ints` and the interrupt flag after `CLI_GUARD`, and the flag after `STI_GUARD`.
abbrev pub cli_guard : (interrupts : Bool) → Bool × Bool
cli_guard interrupts = if interrupts then (true, false) else (false, interrupts)

abbrev pub sti_guard : (enable_ints interrupts : Bool) → Bool
sti_guard enable_ints interrupts = if enable_ints then true else interrupts

unfoldable pub handler_set : (number handler arg : ℕ) → List IrqTableEntry → List IrqTableEntry
handler_set number handler arg table = set table number (record { arg = arg; handler = handler })

abbrev pub pic1_command : ℕ
pic1_command = 0x20

abbrev pub pic1_data : ℕ
pic1_data = 0x21

abbrev pub pic2_command : ℕ
pic2_command = 0xA0

abbrev pub pic2_data : ℕ
pic2_data = 0xA1

-- A write of a byte to a port.
pub record Outb : Type 0 where
  pub port : ℕ
  pub byte : ℕ

abbrev pub outb : ℕ → ℕ → Outb
outb port value = record { port = port; byte = value % 256 }

pub pic_remap : ℕ → List Outb
pic_remap offset =
    outb pic1_command 0x11
    ∷ outb pic2_command 0x11
    ∷ outb pic1_data offset
    ∷ outb pic2_data (offset + 8)
    ∷ outb pic1_data 4
    ∷ outb pic2_data 2
    ∷ outb pic1_data 1
    ∷ outb pic2_data 1
    ∷ outb pic1_data 0xff
    ∷ outb pic2_data 0xff
    ∷ []

unfoldable pub send_eoi : ℕ → List Outb
send_eoi irq =
    if leb 8 irq
    then outb pic2_command 0x20 ∷ outb pic1_command 0x20 ∷ []
    else outb pic1_command 0x20 ∷ []

abbrev pub mask_port : ℕ → ℕ
mask_port irq_line = if ltb irq_line 8 then pic1_data else pic2_data

abbrev pub mask_bit : ℕ → ℕ
mask_bit irq_line = if ltb irq_line 8 then 2 ^ irq_line else 2 ^ (irq_line - 8)

-- `inb` gives what is read from each port.
pub set_mask : (inb : ℕ → ℕ) → (irq_line : ℕ) → Outb
set_mask inb irq_line =
    outb (mask_port irq_line) (bit_or (inb (mask_port irq_line)) (mask_bit irq_line))

-- `& ~(1 << line)` on the bits of a byte.
unfoldable pub clear_mask : (inb : ℕ → ℕ) → (irq_line : ℕ) → Outb
clear_mask inb irq_line =
    outb (mask_port irq_line) (bit_and (inb (mask_port irq_line)) (255 - mask_bit irq_line))
