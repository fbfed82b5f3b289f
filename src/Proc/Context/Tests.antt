-- ===== src/Proc/Context/Tests.antt =====
-- A process with different values in its registers.
use banj_os.Base.{◌≡◌}
use banj_os.Proc.Context.{
  Regs, IretqFrame, Stack, isr_no_err, isr_with_err, restore_context, switch_out,
}
use banj_os.Proc.Context.Resume.{restore_context-switch_out, isr_with_err_lem}

abbrev before : Regs
before = record {
  rax = 1;
  rbx = 2;
  rcx = 3;
  rdx = 4;
  rsi = 5;
  rdi = 6;
  rbp = 7;
  r8 = 8;
  r9 = 9;
  r10 = 10;
  r11 = 11;
  r12 = 12;
  r13 = 13;
  r14 = 14;
  r15 = 15;
  ds = 16;
  es = 17;
  fs = 18;
  gs = 19;
}

abbrev other : Regs
other = record before { rax = 0; r11 = 0; rbx = 0 }

abbrev frame : IretqFrame
frame = record { rip = 0x101000; cs = 8; rflags = 0x202; rsp = 0x300000; ss = 0 }

abbrev below : Stack
below k = 0

restore_context-switch_out_example :
    (isr_no_err other before frame below ≡ (before, frame))
    × (restore_context (switch_out other before frame below) other
        ≡ (record before { ds = 19; gs = 16 }, frame))
restore_context-switch_out_example = restore_context-switch_out other other before frame below

isr_with_err_lem_example :
    isr_with_err other before frame 2 below ≡ (record before { r11 = 10 }, frame)
isr_with_err_lem_example = isr_with_err_lem other before frame 2 below
