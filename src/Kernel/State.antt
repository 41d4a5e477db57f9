-- ===== src/Kernel/State.antt =====
-- The globals of kernel.c and scheduler2.c, and the structs of defs.h that they hold.
-- A `PROCESS *` is the node that `GetProcessByPID` finds; the linked list `ready` is a list. Heap
-- addresses, the text of names and the screen are left out.
use tpe_so.Base.{ℕ, ℤ, pos, Bool, false, List}

-- `enum state`
pub data ProcessState : Type 0 where
  running ready blocked : ProcessState

-- `state == READY` and its like.
abbrev pub is_running : ProcessState → Bool
is_running ProcessState.running = Bool.true
is_running _ = false

abbrev pub is_ready : ProcessState → Bool
is_ready ProcessState.ready = Bool.true
is_ready _ = false

abbrev pub is_blocked : ProcessState → Bool
is_blocked ProcessState.blocked = Bool.true
is_blocked _ = false

-- `PROCESS`
pub record Process : Type 0 where
  pub state : ProcessState
  pub pid : ℤ
  pub priority : ℤ
  pub tty : ℕ
  pub foreground : Bool
  pub parent : ℤ
  pub esp : ℤ
  pub stackstart : ℤ
  pub stacksize : ℤ
  pub waiting_pid : ℤ
  pub sleep : ℤ
  pub acum : ℤ

-- `semItem`
pub record SemItem : Type 0 where
  pub key : ℤ
  pub value : ℤ
  pub blocked_proc_pid : ℤ
  pub status : ℤ

-- The globals. `terminal_pids` is the field `PID` of the four terminals.
pub record Kernel : Type 0 where
  pub ready : List Process
  pub idle : Process
  pub next_pid : ℤ
  pub current_pid : ℤ
  pub current_tty : ℕ
  pub current_process_tty : ℕ
  pub timeslot : ℤ
  pub first_time : Bool
  pub actual_killed : Bool
  pub last100 : List ℤ
  pub counter100 : ℕ
  pub next_free : ℕ
  pub semaphore_table : List SemItem
  pub sem_count : ℕ
  pub terminal_pids : List ℤ
  pub usr_loged : Bool
  pub log_pid : ℤ
  pub logout_pid : ℤ

-- `TIMESLOT`
abbrev pub full_slot : ℤ
full_slot = pos 3
