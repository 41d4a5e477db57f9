-- ===== src/Kernel/Process.antt =====
-- Processes by pid, and the life of a process: creation, blocking, waking, ending, killing
-- (Chinux/src/kernel.c).
use tpe_so.Base.{
  ℕ, ◌+◌, ◌-◌, ℤ, pos, minus_one, ◌+ℤ◌, ◌==ℤ◌, is_zero, Bool, true, not, ◌&&◌, if◌then◌else◌,
  Option, none, some, List, [], ◌∷◌, ◌++◌,
}
use tpe_so.Kernel.State.{ready, blocked, is_blocked, Process, Kernel}

-- The first process of the list with this pid.
unfoldable pub find_pid : List Process → ℤ → Option Process
find_pid [] pid = none
find_pid (p ∷ ps) pid = if p.pid ==ℤ pid then some p else find_pid ps pid

-- An assignment through the pointer to that process.
unfoldable pub update_pid : List Process → ℤ → (Process → Process) → List Process
update_pid [] pid f = []
update_pid (p ∷ ps) pid f = if p.pid ==ℤ pid then f p ∷ ps else p ∷ update_pid ps pid f

-- Unlinking that process from the list.
unfoldable pub unlink : List Process → ℤ → List Process
unlink [] pid = []
unlink (p ∷ ps) pid = if p.pid ==ℤ pid then ps else p ∷ unlink ps pid

-- `GetProcessByPID`: pid 0, and a pid that no process has, give the idle process.
unfoldable pub get_process_by_pid : Kernel → ℤ → Process
get_process_by_pid k pid =
    if is_zero pid then k.idle else elim (find_pid k.ready pid) [ none ↦ k.idle | some p ↦ p ]

-- An assignment through the pointer that `GetProcessByPID` returns.
unfoldable pub set_process : Kernel → ℤ → (Process → Process) → Kernel
set_process k pid f =
    if is_zero pid then record k { idle = f k.idle } else elim (find_pid k.ready pid) [
      | none ↦ record k { idle = f k.idle }
      | some p ↦ record k { ready = update_pid k.ready pid f }
    ]

abbrev pub to_ready : Process → Process
to_ready p = record p { state = ready }

abbrev pub to_blocked : Process → Process
to_blocked p = record p { state = blocked }

-- `awake_process`
unfoldable pub awake_process : Kernel → ℤ → Kernel
awake_process k pid =
    let proc = get_process_by_pid k pid in
    if is_blocked proc.state && is_zero proc.waiting_pid then set_process k pid to_ready else k

-- `malloc`: the next free address moves up, and nothing is ever given back.
unfoldable pub malloc : Kernel → ℕ → ℕ × Kernel
malloc k size = (k.next_free, record k { next_free = k.next_free + size })

-- `createProcessParam`, without the name and the entry point.
pub record CreateProcessParam : Type 0 where
  pub tty : ℕ
  pub stacklength : ℕ
  pub priority : ℤ
  pub is_front : Bool

-- The sizes of `createProcessParam`, `PROCESS`, `STACK_FRAME` and `processNode`, and of the copy of
-- the name.
abbrev pub param_size : ℕ
param_size = 32

abbrev pub process_size : ℕ
process_size = 52

abbrev pub stack_frame_size : ℕ
stack_frame_size = 56

abbrev pub node_size : ℕ
node_size = 8

abbrev pub name_size : ℕ
name_size = 15

-- `set_Process_ready`: a new node at the end of the list. It allocates a second node, never used.
unfoldable pub set_process_ready : Kernel → Process → Kernel
unfolding malloc
set_process_ready k proc =
    let (node, k1) = malloc k node_size in
    let (aux, k2) = malloc k1 node_size in record k2 { ready = k2.ready ++ (proc ∷ []) }

-- `LoadStackFrame`: where the frame is put.
unfoldable pub load_stack_frame : ℕ → ℕ
load_stack_frame bottom = bottom - stack_frame_size

-- `CreateProcessAt_in_kernel`
unfoldable pub create_process_at_in_kernel : Kernel → CreateProcessParam → ℤ × Kernel
unfolding malloc set_process_ready load_stack_frame
create_process_at_in_kernel k param =
    let (stack, k1) = malloc k param.stacklength in
    let (proc_address, k2) = malloc k1 process_size in
    let (name, k3) = malloc k2 name_size in
    let proc : Process = record {
      state = ready;
      pid = k.next_pid;
      priority = param.priority;
      tty = param.tty;
      foreground = param.is_front;
      parent = k.current_pid;
      esp = pos (load_stack_frame (stack + param.stacklength - 1));
      stackstart = pos stack;
      stacksize = pos param.stacklength;
      waiting_pid = pos 0;
      sleep = pos 0;
      acum = param.priority +ℤ pos 1;
    } in
    (k.next_pid, set_process_ready k3 proc)

-- `CreateProcessAt` of pisix.c up to its call of int 79h: a `createProcessParam` is allocated, and the
-- kernel makes the process. What int 79h gives is not used.
unfoldable pub create_process_at : Kernel → CreateProcessParam → Kernel
unfolding malloc create_process_at_in_kernel
create_process_at k param =
    let (block, k1) = malloc k param_size in
    let (pid, k2) = create_process_at_in_kernel k1 param in k2

-- The rest of `CreateProcessAt`, `return nextPID++`, outside any handler: interrupts and other
-- processes' calls can come before it.
unfoldable pub take_pid : Kernel → ℤ × Kernel
take_pid k = (k.next_pid, record k { next_pid = k.next_pid +ℤ pos 1 })

-- `if (last100[i] == pid) last100[i] = -1;` over the table.
unfoldable pub forget_last100 : ℤ → List ℤ → List ℤ
forget_last100 pid [] = []
forget_last100 pid (x ∷ xs) = (if x ==ℤ pid then minus_one else x) ∷ forget_last100 pid xs

-- The parent of a foreground process that ends stops waiting for it.
unfoldable pub release_parent : Kernel → Process → Kernel
unfolding awake_process
release_parent k proc =
    let parent = get_process_by_pid k proc.parent in
    if parent.waiting_pid ==ℤ proc.pid
    then awake_process (set_process k proc.parent (λ p. record p { waiting_pid = pos 0 }))
        parent.pid
    else k

-- `end_process`. The process runs, so it is in the list: the code would read through a null `ready`.
unfoldable pub end_process : Kernel → Kernel
unfolding release_parent forget_last100
end_process k =
    let k1 = record k { actual_killed = true } in
    let proc = get_process_by_pid k1 k1.current_pid in
    let k2 = if not proc.foreground then k1 else release_parent k1 proc in
    record k2 {
      ready = unlink k2.ready k2.current_pid;
      last100 = forget_last100 proc.pid k2.last100;
    }
