-- ===== src/Proc/Context.antt =====
-- The registers of a process: src/isr_handler.asm, where an interrupt begins and ends, and the initial
-- stack of PROC_create_kthread in src/processes.c. A stack gives its words from the stack pointer up,
-- and each process has its own; what a process is resumed from is the stack in its context.
pub mod Resume
mod Tests
use banj_os.Base.{ℕ, zero, suc, ◌+◌, ◌-◌, ◌%◌, ◌≡◌, refl, update}

pub record Regs : Type 0 where
  pub rax : ℕ
  pub rbx : ℕ
  pub rcx : ℕ
  pub rdx : ℕ
  pub rsi : ℕ
  pub rdi : ℕ
  pub rbp : ℕ
  pub r8 : ℕ
  pub r9 : ℕ
  pub r10 : ℕ
  pub r11 : ℕ
  pub r12 : ℕ
  pub r13 : ℕ
  pub r14 : ℕ
  pub r15 : ℕ
  pub ds : ℕ
  pub es : ℕ
  pub fs : ℕ
  pub gs : ℕ

-- What the processor pushes when an interrupt begins, and takes back with `iretq`.
pub record IretqFrame : Type 0 where
  pub rip : ℕ
  pub cs : ℕ
  pub rflags : ℕ
  pub rsp : ℕ
  pub ss : ℕ

abbrev pub Stack : Type 0
Stack = ℕ → ℕ

abbrev pub push : ℕ → Stack → Stack
push v s zero = v
push v s (suc k) = s k

-- `add rsp, 8`.
abbrev pub drop : Stack → Stack
drop s k = s (suc k)

pub push_frame : IretqFrame → Stack → Stack
push_frame f s = push (f.rip) (push (f.cs) (push (f.rflags) (push (f.rsp) (push (f.ss) s))))

pub iretq : Stack → IretqFrame
iretq s = record { rip = s 0; cs = s 1; rflags = s 2; rsp = s 3; ss = s 4 }

pub push_scratch_regs : Regs → Stack → Stack
push_scratch_regs r s = push (r.r11) (
    push (r.r10) (
      push (r.r9)
        (push (r.r8) (push (r.rdi) (push (r.rsi) (push (r.rdx) (push (r.rcx) (push (r.rax) s))))))))

-- The registers after it; the stack after it begins at the tenth word.
pub pop_scratch_regs : Stack → Regs → Regs
pop_scratch_regs s r = record r {
  r11 = s 0;
  r10 = s 1;
  r9 = s 2;
  r8 = s 3;
  rdi = s 4;
  rsi = s 5;
  rdx = s 6;
  rcx = s 7;
  rax = s 8;
}

-- The loop `shift_stack`, `n` turns from the word `n` on down: each word is copied one place up.
pub shift_stack : (n : ℕ) → Stack → Stack
shift_stack zero s = s
shift_stack (suc n) s = shift_stack n (update s (suc (suc n)) (s (suc n)))

-- `isr_err`: the error code, and the stack without it.
pub isr_err : Stack → ℕ × Stack
isr_err s = (s 9, drop (shift_stack 8 s))

-- The registers that a switch saves on top, and the stack that it leaves in the context.
pub save_context : Regs → Stack → Stack
save_context r s = push (r.rbp) (
    push (r.gs) (
      push (r.fs) (
        push (r.es) (
          push (r.ds)
            (push (r.r15) (push (r.r14) (push (r.r13) (push (r.r12) (push (r.rbx) s)))))))))

-- The end of an interrupt without a switch: the registers, and where the process goes on.
pub leave : Stack → Regs → Regs × IretqFrame
leave s r = (pop_scratch_regs s r, iretq (λ k. s (9 + k)))

-- The end of an interrupt with a switch, from the stack in the context of the next process.
pub restore_context : Stack → Regs → Regs × IretqFrame
restore_context s r =
    leave (λ k. s (10 + k))
      (record r {
        rbp = s 0;
        ds = s 1;
        fs = s 2;
        es = s 3;
        gs = s 4;
        r15 = s 5;
        r14 = s 6;
        r13 = s 7;
        r12 = s 8;
        rbx = s 9;
      })

-- What `irq_handler` may change, by the calling convention: `clobbered` has the registers after it.
abbrev pub called : (clobbered r : Regs) → Regs
called clobbered r = record r {
  rax = clobbered.rax;
  rcx = clobbered.rcx;
  rdx = clobbered.rdx;
  rsi = clobbered.rsi;
  rdi = clobbered.rdi;
  r8 = clobbered.r8;
  r9 = clobbered.r9;
  r10 = clobbered.r10;
  r11 = clobbered.r11;
}

-- The whole of an interrupt without an error code, without a switch and up to one.
pub isr_no_err : (clobbered r : Regs) → IretqFrame → Stack → Regs × IretqFrame
isr_no_err clobbered r f s = leave (push_scratch_regs r (push_frame f s)) (called clobbered r)

pub switch_out : (clobbered r : Regs) → IretqFrame → Stack → Stack
switch_out clobbered r f s =
    save_context (called clobbered r) (push_scratch_regs r (push_frame f s))

-- With the error code that the processor pushes, without a switch.
pub isr_with_err : (clobbered r : Regs) → IretqFrame → (error_code : ℕ) → Stack → Regs × IretqFrame
isr_with_err clobbered r f error_code s =
    let (code, s') = isr_err (push_scratch_regs r (push error_code (push_frame f s))) in
    leave s' (called clobbered r)

-- `struct InitalProcFrame` of a new process, with what is above it on its stack of 8192 bytes at
-- `frame`, as `PROC_create_kthread` fills it.
pub initial : (kernel_desc_offset entry_point arg frame kexit : ℕ) → Stack
initial kernel_desc_offset entry_point arg frame kexit k =
    update
      (update (update (update (update (λ i. 0) 20 kernel_desc_offset) 14 arg) 19 entry_point) 22
        (frame + 8192 - 8))
      24 kexit k
