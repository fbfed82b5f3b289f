-- ===== src/Proc/Context/Resume.antt =====
-- What a process finds in its registers after an interrupt.
use banj_os.Base.{ℕ, ◌+◌, ◌-◌, ◌≡◌, refl}
use banj_os.Proc.Context.{
  Regs, IretqFrame, Stack, push_frame, push_scratch_regs, pop_scratch_regs, iretq, leave,
  isr_no_err, isr_with_err, isr_err, shift_stack, save_context, restore_context, switch_out,
  initial,
}

-- Whatever the handler does to the scratch registers and whatever the next process leaves in all of
-- them: a process that was interrupted goes on where it was, with the registers that it had, both
-- without a switch and when it is resumed after one; only that a switch exchanges `ds` and `gs`.
pub restore_context-switch_out :
    (clobbered other r : Regs) (f : IretqFrame) (s : Stack)
    → (isr_no_err clobbered r f s ≡ (r, f))
      × (restore_context (switch_out clobbered r f s) other
          ≡ (record r { ds = r.gs; gs = r.ds }, f))
unfolding isr_no_err restore_context switch_out save_context leave push_scratch_regs
    pop_scratch_regs push_frame iretq
restore_context-switch_out clobbered other r f s = (refl, refl)

-- After an interrupt with an error code, without a switch, a process goes on where it was, and has
-- its registers but for `r11`, in which it finds what was in `r10`.
pub isr_with_err_lem :
    (clobbered r : Regs) (f : IretqFrame) (error_code : ℕ) (s : Stack)
    → isr_with_err clobbered r f error_code s ≡ (record r { r11 = r.r10 }, f)
unfolding isr_with_err isr_err shift_stack leave push_scratch_regs pop_scratch_regs push_frame iretq
isr_with_err_lem clobbered r f error_code s = refl

-- A new process begins at its entry point, in the kernel's segment, with its argument in `rdi` and
-- with its stack pointer at the address of `kexit`, which it returns to; the other registers and the
-- flags, with that of interrupts, are 0.
pub restore_context-initial :
    (kernel_desc_offset entry_point arg frame kexit : ℕ) (other : Regs)
    → let stack = initial kernel_desc_offset entry_point arg frame kexit in
      let zeros : Regs = record {
        rax = 0;
        rbx = 0;
        rcx = 0;
        rdx = 0;
        rsi = 0;
        rdi = arg;
        rbp = 0;
        r8 = 0;
        r9 = 0;
        r10 = 0;
        r11 = 0;
        r12 = 0;
        r13 = 0;
        r14 = 0;
        r15 = 0;
        ds = 0;
        es = 0;
        fs = 0;
        gs = 0;
      } in
      let start : IretqFrame = record {
        rip = entry_point;
        cs = kernel_desc_offset;
        rflags = 0;
        rsp = frame + 8192 - 8;
        ss = 0;
      } in
      (restore_context stack other ≡ (zeros, start)) × (stack 24 ≡ kexit)
unfolding restore_context leave pop_scratch_regs iretq initial
restore_context-initial kernel_desc_offset entry_point arg frame kexit other = (refl, refl)
