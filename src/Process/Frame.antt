-- ===== src/Process/Frame.antt =====
-- InterruptFrame of kernel/kernel.h, and the frame of a process that has not run yet.
use ore_os.Base.{ℕ}

pub record InterruptFrame : Type 0 where
  pub r15 : ℕ
  pub r14 : ℕ
  pub r13 : ℕ
  pub r12 : ℕ
  pub r11 : ℕ
  pub r10 : ℕ
  pub r9 : ℕ
  pub r8 : ℕ
  pub rdi : ℕ
  pub rsi : ℕ
  pub rbp : ℕ
  pub rdx : ℕ
  pub rcx : ℕ
  pub rbx : ℕ
  pub rax : ℕ
  pub vector : ℕ
  pub error_code : ℕ
  pub rip : ℕ
  pub cs : ℕ
  pub rflags : ℕ
  pub rsp : ℕ
  pub ss : ℕ

-- The registers that process_schedule_user_tick sets for a process without a saved frame.
abbrev pub fresh_frame : (rip rsp : ℕ) → InterruptFrame
fresh_frame rip rsp = record {
  r15 = 0;
  r14 = 0;
  r13 = 0;
  r12 = 0;
  r11 = 0;
  r10 = 0;
  r9 = 0;
  r8 = 0;
  rdi = 0;
  rsi = 0;
  rbp = 0;
  rdx = 0;
  rcx = 0;
  rbx = 0;
  rax = 0;
  vector = 32;
  error_code = 0;
  rip = rip;
  cs = 0x23;
  rflags = 0x202;
  rsp = rsp;
  ss = 0x1b;
}
