-- ===== src/Kernel/Tests.antt =====
-- The theorems on small kernels.
use tpe_so.Kernel.Samples.{
  plain, two, two-IsCalm, two-WellFormed, child, one_unit, two_over, two_over-WellFormed, three,
  three-WellFormed,
}
use tpe_so.Base.{
  All, if◌then◌else◌, ℕ, ℤ, pos, minus_one, ◌≡◌, refl, true, false, ◌⊎◌, some, List, [], ◌∷◌, ◌<◌,
  set, All-get_elem?, replicate, arith,
}
use tpe_so.Kernel.State.{running}
use tpe_so.Kernel.Process.{find_pid, get_process_by_pid, create_process_at}
use tpe_so.Kernel.Scheduler.{get_next_task, int_08_hand, is_time_slot, sleep_walk, sleep_tick}
use tpe_so.Kernel.Scheduler.Choice.{IsCounted, AllCounted, IsBestChoice, get_next_task-IsBestChoice}
use tpe_so.Kernel.Scheduler.Fairness.{RunsWithin, no_starvation}
use tpe_so.Kernel.Semaphore.{max_semaphores, sem_at, semget_in_kernel}
use tpe_so.Kernel.Semaphore.Table.{IsFree, IsTable, used, granted, semget_lem}
use tpe_so.Kernel.Protection.Descendants.{kill_in_kernel_children}
use tpe_so.Kernel.Kill.{
  is_terminal, is_protected, kill_begin, kill_children, kill_end, kill_in_kernel,
}
use tpe_so.Kernel.Recursion.{kill_in_kernel-recursion}
use tpe_so.Kernel.Protection.{is_in, kill_in_kernel_lem}
use tpe_so.Kernel.ContextSwitch.{int_08_hand_switches}
use tpe_so.Kernel.Table.{NotIn, pids}
use tpe_so.Kernel.RoundRobin
use tpe_so.Kernel.RoundRobin.{first_ready}
use tpe_so.Kernel.RoundRobin.Cyclic.{or_from_start, get_next_task_cyclic}
use tpe_so.Kernel.Invariant.{IsFormed}
use tpe_so.Kernel.Invariant.Reach.{
  Event, step, timer, create, count_pid, kill, finish, sem_get, run, run-IsFormed,
}

-- With 2 processes of priority at most 2, at most 8 slots pass.
no_starvation_example : RunsWithin (replicate 8 (pos 7)) two (pos 2)
no_starvation_example =
    no_starvation two 2 1 (plain (pos 2) (pos 0) (pos 1)) (replicate 8 (pos 7)) two-IsCalm
      (omega arith) refl (omega arith)

-- A process is created, an interrupt comes before its `nextPID++`, and the next one is created after it.
abbrev history : List Event
history =
    create child
    ∷ timer (pos 9)
    ∷ sem_get one_unit
    ∷ count_pid
    ∷ kill (pos 2)
    ∷ create child
    ∷ finish
    ∷ []

run-IsFormed_example : IsFormed true (run two history)
run-IsFormed_example =
    run-IsFormed false two history (refl, (tt, (tt, (refl, (tt, (refl, (tt, tt))))))) two-WellFormed

-- Two processes that are created before the first one's `nextPID++` have the same pid.
same_pid_twice :
    pids (run two (create child ∷ create child ∷ [])).ready ≡ pos 1 ∷ pos 2 ∷ pos 3 ∷ pos 3 ∷ []
unfolding run step create_process_at
same_pid_twice = refl

kill_in_kernel_lem_example :
    (is_protected two (pos 2) ≡ true → kill_in_kernel two (pos 2) ≡ two)
    × (is_protected two (pos 2) ≡ false → NotIn (pos 2) (pids (kill_in_kernel two (pos 2)).ready))
    × ((x : ℤ)
        → is_protected two x ≡ true
        → is_in x (pids (kill_in_kernel two (pos 2)).ready) ≡ is_in x (pids two.ready))
kill_in_kernel_lem_example = kill_in_kernel_lem two (pos 2) two-WellFormed

slot_over : (is_time_slot two_over).0 ≡ pos 0
unfolding is_time_slot sleep_walk sleep_tick
slot_over = refl

found_running :
    find_pid two_over.ready (pos 1)
    ≡ some (record (plain (pos 1) (pos 2) (pos 0)) { state = running })
unfolding find_pid
found_running = refl

int_08_hand_switches_example :
    let (loaded, k') = int_08_hand two_over (pos 9) in
    ((get_process_by_pid k' (pos 1)).esp ≡ pos 9)
    × (loaded ≡ (get_process_by_pid k' k'.current_pid).esp)
int_08_hand_switches_example =
    int_08_hand_switches two_over (pos 9)
      (record (plain (pos 1) (pos 2) (pos 0)) { state = running }) two_over-WellFormed refl refl
      (ground arith) found_running slot_over

two-counted : AllCounted two.ready
two-counted j q g = All-get_elem? IsCounted two.ready j q (ground arith, (ground arith, tt)) g

get_next_task_example : IsBestChoice two (get_next_task two).0
get_next_task_example = get_next_task-IsBestChoice two two-counted

two-IsTable : IsTable two
unfolding used
two-IsTable = record { entries = refl; counted = refl }

semget_example :
    let (item, k') = semget_in_kernel two one_unit in
    IsTable k'
    × (((0 ≡ max_semaphores) × (item ≡ record one_unit { status = minus_one }) × (k' ≡ two))
        ⊎ ((key : ℕ) × (key < max_semaphores)
            × IsFree (sem_at two key)
            × (item ≡ granted one_unit key)
            × (k'.semaphore_table ≡ set two.semaphore_table key item)
            × (k'.sem_count ≡ 1)))
semget_example = semget_lem two one_unit two-IsTable

-- Process 2 runs: process 3 behind it is next.
get_next_task_cyclic_example :
    let all =
      plain (pos 1) (pos 2) (pos 0)
      ∷ plain (pos 2) (pos 0) (pos 1)
      ∷ plain (pos 3) (pos 0) (pos 1)
      ∷ [] in
    RoundRobin.get_next_task (pos 2) all
    ≡ or_from_start (first_ready (plain (pos 3) (pos 0) (pos 1) ∷ []) 2) all
get_next_task_cyclic_example =
    get_next_task_cyclic (pos 2) (plain (pos 1) (pos 2) (pos 0) ∷ [])
      (plain (pos 2) (pos 0) (pos 1)) (plain (pos 3) (pos 0) (pos 1) ∷ []) (ground arith) refl
      ((ground arith), tt)

kill_in_kernel-recursion_example : kill_in_kernel three (pos 1) ≡ (
    if is_protected three (pos 1)
    then three
    else kill_end
        (kill_children kill_in_kernel
          (pos 1)
          (kill_begin three (pos 1)).ready
          (kill_begin three (pos 1)))
        (pos 1)
        (get_process_by_pid three (pos 1)).pid)
kill_in_kernel-recursion_example = kill_in_kernel-recursion three (pos 1) three-WellFormed

unprotected : is_protected three (pos 2) ≡ false
unfolding is_protected is_terminal
unprotected = refl

kill_in_kernel_children_example :
    All
      (λ q. q.parent ≡ pos 2 → is_protected three q.pid ≡ true)
      (kill_in_kernel three (pos 2)).ready
kill_in_kernel_children_example = kill_in_kernel_children three (pos 2) three-WellFormed unprotected
