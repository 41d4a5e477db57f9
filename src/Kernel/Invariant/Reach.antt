-- ===== src/Kernel/Invariant/Reach.antt =====
-- Every history of the kernel: interrupts, calls of int 79h and their continuations, in any order but for
-- the `nextPID++` that ends `CreateProcessAt`, which comes before the next process is created.
use tpe_so.Base.{
  Bool, true, false, ◌≡◌, ℕ, ℤ, pos, minus_one, ◌*ℤ◌, ◌==ℤ◌, is_zero, ◌==◌, refl, inl, inr,
  Bool-cases, Option-cases, List, [], ◌∷◌, set,
}
use tpe_so.Kernel.State.{SemItem, Kernel}
use tpe_so.Kernel.Process.{
  set_process, awake_process, get_process_by_pid, to_blocked, CreateProcessParam, create_process_at,
  take_pid, end_process,
}
use tpe_so.Kernel.Scheduler.{int_08_hand}
use tpe_so.Kernel.Blocking.{mark_blocked, block_process_in_kernel, waitpid_in_kernel, sleep_secs}
use tpe_so.Kernel.Kill.{kill_in_kernel}
use tpe_so.Kernel.Semaphore.{
  max_semaphores, sem_at, set_sem, find_new_sem_key, delete_sem_key, semget_in_kernel, up_in_kernel,
  down_take, DownResult, taken, waiting, down_in_kernel,
}
use tpe_so.Kernel.Invariant.{IsFormed}
use tpe_so.Kernel.Invariant.Frame.{
  IsQuiet, Frame, Frame-refl, Frame-trans, Frame-IsFormed, update_pid-Frame, set_process-Frame,
  awake_process-Frame, to_blocked-IsQuiet,
}
use tpe_so.Kernel.Invariant.Timer.{timeslot-Frame}
use tpe_so.Kernel.Invariant.Switch.{int_08_hand-IsFormed}
use tpe_so.Kernel.Invariant.Lifecycle.{create_process_at-IsFormed, take_pid-WellFormed}
use tpe_so.Kernel.Invariant.Ending.{end_process-IsFormed, kill_in_kernel-IsFormed}

-- What can happen next: `create` is the call that makes a process, and `count_pid` the `nextPID++` of its
-- caller. A stack pointer is the one at which the processor is given up.
pub data Event : Type 0 where
  timer : ℤ → Event
  create : CreateProcessParam → Event
  count_pid : Event
  kill : ℤ → Event
  finish : Event
  block wait_pid sleep : ℤ → ℤ → Event
  awake : ℤ → Event
  sem_get : SemItem → Event
  sem_up sem_rm sem_take : ℕ → Event
  sem_down : ℕ → ℤ → Event

abbrev after_down : DownResult → Kernel
after_down (taken k) = k
after_down (waiting r) = r.1

unfoldable pub step : Kernel → Event → Kernel
step k (timer esp) = (int_08_hand k esp).1
step k (create param) = create_process_at k param
step k count_pid = (take_pid k).1
step k (kill pid) = kill_in_kernel k pid
step k finish = end_process k
step k (block pid esp) = (block_process_in_kernel k pid esp).1
step k (wait_pid pid esp) = (waitpid_in_kernel k pid esp).1
step k (sleep secs esp) = (sleep_secs k secs esp).1
step k (awake pid) = awake_process k pid
step k (sem_get param) = (semget_in_kernel k param).1
step k (sem_up key) = up_in_kernel k key
step k (sem_rm key) = (delete_sem_key k key).1
step k (sem_take key) = down_take k key
step k (sem_down key esp) = after_down (down_in_kernel k key esp)

-- Whether a `nextPID++` is pending after what happens.
abbrev pub pending_after : Bool → Event → Bool
pending_after b (create param) = true
pending_after b count_pid = false
pending_after b e = b

-- No process is created while a `nextPID++` is pending, and none is made that is not.
abbrev pub IsInTurn : Bool → Event → Type 0
IsInTurn b (create param) = b ≡ false
IsInTurn b count_pid = b ≡ true
IsInTurn b e = Unit

abbrev pub IsOrderly : Bool → List Event → Type 0
IsOrderly b [] = Unit
IsOrderly b (e ∷ es) = IsInTurn b e × IsOrderly (pending_after b e) es

abbrev pub pending_at_end : Bool → List Event → Bool
pending_at_end b [] = b
pending_at_end b (e ∷ es) = pending_at_end (pending_after b e) es

unfoldable pub run : Kernel → List Event → Kernel
run k [] = k
run k (e ∷ es) = run (step k e) es

sems-Frame :
    (k : Kernel) (ss : List SemItem) (n : ℕ)
    → Frame k (record k { semaphore_table = ss; sem_count = n })
sems-Frame k ss n = record {
  same_lineage = refl;
  same_next = refl;
  same_current = refl;
  same_first = refl;
  same_killed = refl;
  same_idle = refl;
  same_protected = (refl, refl, refl, refl);
  keeps_single = λ cur h. h;
}

mark_blocked-Frame : (k : Kernel) (pid : ℤ) → Frame k (mark_blocked k pid)
unfolding mark_blocked
mark_blocked-Frame k pid =
    Frame-trans k (record k { timeslot = pos 1 }) _ (timeslot-Frame k (pos 1))
      (update_pid-Frame (record k { timeslot = pos 1 }) pid to_blocked to_blocked-IsQuiet)

block-IsFormed :
    {b : Bool} (k : Kernel) (pid esp : ℤ)
    → IsFormed b k
    → IsFormed b (block_process_in_kernel k pid esp).1
unfolding block_process_in_kernel
block-IsFormed k pid esp w =
    int_08_hand-IsFormed (mark_blocked k pid) esp (Frame-IsFormed k _ (mark_blocked-Frame k pid) w)

waiting-IsQuiet : (pid : ℤ) → IsQuiet (λ p. record p { waiting_pid = pid })
waiting-IsQuiet pid = record { same_pid = λ p. refl; same_parent = λ p. refl; no_run = λ p h. h }

sleeping-IsQuiet : (t : ℤ) → IsQuiet (λ p. record p { sleep = t })
sleeping-IsQuiet t = record { same_pid = λ p. refl; same_parent = λ p. refl; no_run = λ p h. h }

waitpid-IsFormed :
    {b : Bool} (k : Kernel) (pid esp : ℤ)
    → IsFormed b k
    → IsFormed b (waitpid_in_kernel k pid esp).1
unfolding waitpid_in_kernel
waitpid-IsFormed k pid esp w =
    block-IsFormed _ k.current_pid esp
      (Frame-IsFormed k _ (set_process-Frame k k.current_pid _ (waiting-IsQuiet pid)) w)

sleep-IsFormed :
    {b : Bool} (k : Kernel) (secs esp : ℤ) → IsFormed b k → IsFormed b (sleep_secs k secs esp).1
unfolding sleep_secs
sleep-IsFormed k secs esp w =
    block-IsFormed _ k.current_pid esp (
      Frame-IsFormed k _ (set_process-Frame k k.current_pid _ (sleeping-IsQuiet (pos 18 *ℤ secs)))
        w)

set_sem-Frame : (k : Kernel) (key : ℕ) (s : SemItem) → Frame k (set_sem k key s)
unfolding set_sem
set_sem-Frame k key s = sems-Frame k (set k.semaphore_table key s) k.sem_count

semget-Frame : (k : Kernel) (param : SemItem) → Frame k (semget_in_kernel k param).1
unfolding semget_in_kernel
semget-Frame k param = elim (Bool-cases (k.sem_count == max_semaphores)) [
  | inl e ↦ rw e (Frame-refl k)
  | inr e ↦ rw e (elim (Option-cases (find_new_sem_key k)) [
    | inl n ↦ rw n (sems-Frame k k.semaphore_table _)
    | inr (key, s) ↦ rw s (sems-Frame k _ _)
  ])
]

delete-Frame : (k : Kernel) (key : ℕ) → Frame k (delete_sem_key k key).1
unfolding delete_sem_key
delete-Frame k key = elim (Bool-cases ((sem_at k key).key ==ℤ minus_one)) [
  | inl e ↦ rw e (Frame-refl k)
  | inr e ↦ rw e (sems-Frame k _ _)
]

up-Frame : (k : Kernel) (key : ℕ) → Frame k (up_in_kernel k key)
unfolding up_in_kernel
up-Frame k key =
    let pid = (sem_at k key).blocked_proc_pid in
    let k1 = set_process k pid to_blocked in
    let k2 = awake_process k1 (get_process_by_pid k1 pid).pid in
    Frame-trans k k1 _ (set_process-Frame k pid to_blocked to_blocked-IsQuiet) (
      Frame-trans k1 k2 _ (awake_process-Frame k1 (get_process_by_pid k1 pid).pid)
        (set_sem-Frame k2 key _))

down_take-Frame : (k : Kernel) (key : ℕ) → Frame k (down_take k key)
unfolding down_take
down_take-Frame k key = set_sem-Frame k key _

down-IsFormed :
    {b : Bool} (k : Kernel) (key : ℕ) (esp : ℤ)
    → IsFormed b k
    → IsFormed b (after_down (down_in_kernel k key esp))
unfolding down_in_kernel
down-IsFormed k key esp w = elim (Bool-cases (is_zero (sem_at k key).value)) [
  | inl e ↦ rw e (block-IsFormed _ k.current_pid esp (Frame-IsFormed k _ (set_sem-Frame k key _) w))
  | inr e ↦ rw e (Frame-IsFormed k _ (down_take-Frame k key) w)
]

-- Every operation of the kernel on processes and semaphores keeps the process list well formed.
pub step-IsFormed :
    (b : Bool) (k : Kernel) (e : Event)
    → IsInTurn b e
    → IsFormed b k
    → IsFormed (pending_after b e) (step k e)
unfolding step
step-IsFormed b k (timer esp) turn w = int_08_hand-IsFormed k esp w
step-IsFormed false k (create param) turn w = create_process_at-IsFormed k param w
step-IsFormed true k (create param) turn w = cc
step-IsFormed true k count_pid turn w = take_pid-WellFormed k w
step-IsFormed false k count_pid turn w = cc
step-IsFormed b k (kill pid) turn w = kill_in_kernel-IsFormed k pid w
step-IsFormed b k finish turn w = end_process-IsFormed k w
step-IsFormed b k (block pid esp) turn w = block-IsFormed k pid esp w
step-IsFormed b k (wait_pid pid esp) turn w = waitpid-IsFormed k pid esp w
step-IsFormed b k (sleep secs esp) turn w = sleep-IsFormed k secs esp w
step-IsFormed b k (awake pid) turn w = Frame-IsFormed k _ (awake_process-Frame k pid) w
step-IsFormed b k (sem_get param) turn w = Frame-IsFormed k _ (semget-Frame k param) w
step-IsFormed b k (sem_up key) turn w = Frame-IsFormed k _ (up-Frame k key) w
step-IsFormed b k (sem_rm key) turn w = Frame-IsFormed k _ (delete-Frame k key) w
step-IsFormed b k (sem_take key) turn w = Frame-IsFormed k _ (down_take-Frame k key) w
step-IsFormed b k (sem_down key esp) turn w = down-IsFormed k key esp w

-- Every history of interrupts and calls keeps the process list well formed: pids are positive,
-- distinct, below `nextPID` and later than the parent's, only the current process can be running,
-- and it is not in the list before the first slot and once it has been killed. (It starts well
-- formed. The `nextPID++` of a created process comes once, at any time after the call that made it,
-- with interrupts and other calls between, but before the next process is created. While it is
-- pending, pids may be `nextPID` itself.)
pub run-IsFormed :
    (b : Bool) (k : Kernel) (es : List Event)
    → IsOrderly b es
    → IsFormed b k
    → IsFormed (pending_at_end b es) (run k es)
unfolding run
run-IsFormed b k [] orderly w = w
run-IsFormed b k (e ∷ es) orderly w =
    run-IsFormed (pending_after b e) (step k e) es orderly.1 (step-IsFormed b k e orderly.0 w)
