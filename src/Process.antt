-- ===== src/Process.antt =====
-- The processes of kernel/process.c and kernel/kernel.h: the table, the search for the next process
-- that is ready, and the switch on a timer tick. A pointer to a process is its index in the table; a
-- string is the list of its characters without the final NUL.
pub mod Frame
pub mod Ready
pub mod Find
pub mod Switch
pub mod Resume
pub mod Invariant
mod Tests
use ore_os.Base.{
  Bool, List, Option, [], codes, false, if◌then◌else◌, leb, none, not, some, suc, take, true,
  u32_mod, update, zero, ℕ, ◌%◌, ◌&&◌, ◌+◌, ◌-◌, ◌==◌, ◌||◌,
}
use Frame.{InterruptFrame, fresh_frame}

abbrev pub max_processes : ℕ
max_processes = 32

abbrev pub user_base : ℕ
user_base = 0x0000008000000000

abbrev pub user_limit : ℕ
user_limit = 0x0000800000000000

abbrev pub user_alloc_base : ℕ
user_alloc_base = 0x000000a000000000

-- ORE_PROC_UNUSED to ORE_PROC_BLOCKED, 0 to 4.
pub data ProcState : Type 0 where
  unused ready running exited blocked : ProcState

pub record AddressSpace : Type 0 where
  pub pml4_phys : ℕ
  pub user_base : ℕ
  pub user_limit : ℕ

pub record UserAllocation : Type 0 where
  pub virt : ℕ
  pub phys : ℕ
  pub pages : ℕ
  pub used : Bool

pub record Handle : Type 0 where
  pub kind : ℕ
  pub offset : ℕ
  pub flags : ℕ
  pub path : List ℕ

pub record Process : Type 0 where
  pub pid : ℕ
  pub name : List ℕ
  pub state : ProcState
  pub user_entry : ℕ
  pub user_stack : ℕ
  pub user_segment_count : ℕ
  pub parent_pid : ℕ
  pub syscall_count : ℕ
  pub saved_user_rip : ℕ
  pub saved_user_rsp : ℕ
  pub waiting_for_pid : ℕ
  pub wait_return_rip : ℕ
  pub wait_return_rsp : ℕ
  pub has_user_frame : Bool
  pub user_frame : InterruptFrame
  pub args : List ℕ
  pub address_space : AddressSpace
  pub handles : ℕ → Handle
  pub user_allocs : ℕ → UserAllocation
  pub user_alloc_next : ℕ
  pub user_alloc_pages_total : ℕ
  pub exited : Bool
  pub exit_code : ℕ

-- The static variables of process.c, and the page table root that the processor uses. `current` is
-- the index of `process_current()`, 0 for the kernel's process.
pub record Procs : Type 0 where
  pub table : ℕ → Process
  pub count : ℕ
  pub current : ℕ
  pub cr3 : ℕ

abbrev pub is_ready : ProcState → Bool
is_ready ready = true
is_ready _ = false

abbrev pub is_running : ProcState → Bool
is_running running = true
is_running _ = false

-- `*process = p`
abbrev pub put : ℕ → Process → Procs → Procs
put i p s = record s { table = update s.table i p }

-- What `mem_zero_local(proc, sizeof(*proc))` leaves.
abbrev pub zero_process : Process
zero_process = record {
  pid = 0;
  name = [];
  state = unused;
  user_entry = 0;
  user_stack = 0;
  user_segment_count = 0;
  parent_pid = 0;
  syscall_count = 0;
  saved_user_rip = 0;
  saved_user_rsp = 0;
  waiting_for_pid = 0;
  wait_return_rip = 0;
  wait_return_rsp = 0;
  has_user_frame = false;
  user_frame = fresh_frame 0 0;
  args = [];
  address_space = record { pml4_phys = 0; user_base = 0; user_limit = 0 };
  handles = λ i. record { kind = 0; offset = 0; flags = 0; path = [] };
  user_allocs = λ i. record { virt = 0; phys = 0; pages = 0; used = false };
  user_alloc_next = 0;
  user_alloc_pages_total = 0;
  exited = false;
  exit_code = 0;
}

-- store_process_name, for a process of the table: at most 63 characters.
pub store_process_name : Option (List ℕ) → List ℕ
store_process_name none = codes "(unnamed)"
store_process_name (some name) = take 63 name

-- process_init; `pml4` is what vmm_kernel_pml4() returns.
pub process_init : (pml4 : ℕ) → Procs → Procs
unfolding store_process_name
process_init pml4 s = record s {
  count = 1;
  table = update s.table 0 (record (s.table 0) {
    pid = 0;
    name = store_process_name (some (codes "kernel"));
    state = running;
    address_space = record { pml4_phys = pml4; user_base = user_base; user_limit = user_limit };
  });
  current = 0;
}

-- process_create_kernel: the new process, if the table has room.
pub process_create_kernel : Option (List ℕ) → Procs → Option (ℕ × Procs)
unfolding store_process_name
process_create_kernel name s =
    if leb max_processes s.count
    then none
    else some (
      s.count,
      record s {
        count = s.count + 1;
        table = update s.table s.count (record zero_process {
          pid = s.count;
          name = store_process_name name;
          state = ready;
          address_space = (s.table 0).address_space;
        });
      },
    )

-- process_create_user; `pml4` is what vmm_create_user_pml4() returns.
pub process_create_user : (pml4 : ℕ) → Option (List ℕ) → Procs → Option (ℕ × Procs)
unfolding process_create_kernel
process_create_user pml4 name s = elim (process_create_kernel name s) [
  | none ↦ none
  | some (i, t) ↦
      let p = t.table i in
      some (
        i,
        put i
            (record p {
              address_space = record {
                pml4_phys = pml4;
                user_base = p.address_space.user_base;
                user_limit = p.address_space.user_limit;
              };
              user_alloc_next = user_alloc_base;
            })
            t,
      )
]

-- process_set_current of a process of the table.
unfoldable pub process_set_current : ℕ → Procs → Procs
process_set_current i s = record s {
  current = i;
  table = update s.table i (record (s.table i) { state = running });
}

pub find_from : (rounds i pid : ℕ) → Procs → Option ℕ
find_from zero i pid s = none
find_from (suc rounds) i pid s =
    let rest = find_from rounds (i + 1) pid s in if (s.table i).pid == pid then some i else rest

unfoldable pub process_find : ℕ → Procs → Option ℕ
unfolding find_from
process_find pid s = find_from s.count 0 pid s

-- process_table_at
pub process_table_at : ℕ → Procs → Option ℕ
process_table_at index s = if leb s.count index then none else some index

-- The test of the scan for a process that can run.
pub eligible : (exclude_pid : ℕ) → Process → Bool
eligible exclude_pid p = not (p.pid == exclude_pid) && is_ready p.state

-- The index that the scan looks at in the round `scanned`.
pub scan_index : (start count scanned : ℕ) → ℕ
scan_index start count scanned =
    let i = start + scanned - 1 in if leb count i then 1 + (i - count) else i

pub ready_scan : (rounds scanned start exclude_pid : ℕ) → Procs → Option ℕ
unfolding eligible scan_index
ready_scan zero scanned start exclude_pid s = none
ready_scan (suc rounds) scanned start exclude_pid s =
    let i = scan_index start s.count scanned in
    let rest = ready_scan rounds (scanned + 1) start exclude_pid s in
    if eligible exclude_pid (s.table i) then some i else rest

-- Where the scan starts; the pid is a uint32_t.
pub scan_start : (exclude_pid count : ℕ) → ℕ
scan_start exclude_pid count =
    let start = (exclude_pid + 1) % u32_mod in if start == 0 || leb count start then 1 else start

-- next_ready_process of process.c, and the function of the same name of syscall.c.
unfoldable pub next_ready_process : (exclude_pid : ℕ) → Procs → Option ℕ
unfolding ready_scan scan_start
next_ready_process exclude_pid s =
    if leb s.count 1
    then none
    else ready_scan (s.count - 1) 1 (scan_start exclude_pid s.count) exclude_pid s

-- `p->saved_user_rip ? p->saved_user_rip : p->user_entry`, and the same for the stack.
abbrev pub resume_rip : Process → ℕ
resume_rip p = if p.saved_user_rip == 0 then p.user_entry else p.saved_user_rip

abbrev pub resume_rsp : Process → ℕ
resume_rsp p = if p.saved_user_rsp == 0 then p.user_stack else p.saved_user_rsp

-- The process that is left, with the frame of the interrupt.
pub suspend : InterruptFrame → Process → Process
suspend frame p = record p {
  user_frame = frame;
  has_user_frame = true;
  saved_user_rip = frame.rip;
  saved_user_rsp = frame.rsp;
  state = ready;
}

-- The frame that the process returns to, and the process with that frame.
pub resume : Process → InterruptFrame × Process
resume p =
    if p.has_user_frame
    then (p.user_frame, p)
    else (let frame = fresh_frame (resume_rip p) (resume_rsp p) in
        (frame, record p { user_frame = frame; has_user_frame = true }))

-- The switch from the current process to the process `next`.
pub switch_to : ℕ → InterruptFrame → Procs → InterruptFrame × Procs
unfolding suspend resume process_set_current
switch_to next frame s =
    let s1 = put s.current (suspend frame (s.table s.current)) s in
    let (frame', p) = resume (s1.table next) in
    let s2 = process_set_current next (put next p s1) in
    (frame', record s2 { cr3 = (s2.table next).address_space.pml4_phys })

-- process_schedule_user_tick: whether it switched, the frame to return to, and the new state.
unfoldable pub process_schedule_user_tick : InterruptFrame → Procs → Bool × InterruptFrame × Procs
unfolding switch_to next_ready_process
process_schedule_user_tick frame s =
    let current = s.table s.current in
    if not (frame.cs % 4 == 3) || not (is_running current.state) || current.pid == 1
    then (false, frame, s)
    else elim (next_ready_process current.pid s) [
      | none ↦ (false, frame, s)
      | some next ↦ let (frame', s') = switch_to next frame s in (true, frame', s')
    ]
