-- ===== src/Kernel/Semaphore.antt =====
-- The semaphores of Chinux/src/kernel.c. A key is an index into the table of 20.
pub mod Table
use tpe_so.Base.{
  ℕ, zero, suc, ◌+◌, ◌*◌, ◌-◌, ℤ, pos, minus_one, ◌+ℤ◌, ◌-ℤ◌, ◌==ℤ◌, is_zero, ◌==◌, Bool, true,
  false, if◌then◌else◌, Option, none, some, List, [], ◌∷◌, get_or, set,
}
use tpe_so.Kernel.State.{blocked, is_blocked, Process, SemItem, Kernel}
use tpe_so.Kernel.Process.{get_process_by_pid, set_process, awake_process, to_blocked, malloc}
use tpe_so.Kernel.Blocking.{block_process_in_kernel}

abbrev pub max_semaphores : ℕ
max_semaphores = 20

abbrev pub sem_item_size : ℕ
sem_item_size = 16

-- An entry outside the table, which a valid key never reads.
abbrev pub no_sem : SemItem
no_sem = record { key = minus_one; value = pos 0; blocked_proc_pid = minus_one; status = minus_one }

unfoldable pub sem_at : Kernel → ℕ → SemItem
sem_at k key = get_or k.semaphore_table key no_sem

unfoldable pub set_sem : Kernel → ℕ → SemItem → Kernel
set_sem k key s = record k { semaphore_table = set k.semaphore_table key s }

-- The loop of `find_new_sem_key`, from the entry at `i` on; `none` is the result -1.
unfoldable pub first_free_sem : List SemItem → ℕ → Option ℕ
first_free_sem [] i = none
first_free_sem (s ∷ ss) i = if s.key ==ℤ minus_one then some i else first_free_sem ss (suc i)

-- `find_new_sem_key`
unfoldable pub find_new_sem_key : Kernel → Option ℕ
unfolding first_free_sem
find_new_sem_key k =
    if k.sem_count == max_semaphores then none else first_free_sem k.semaphore_table 0

-- `delete_sem_key`: whether the key was in use (the result 0), and the state.
unfoldable pub delete_sem_key : Kernel → ℕ → Bool × Kernel
unfolding sem_at set_sem
delete_sem_key k key =
    let s = sem_at k key in
    if s.key ==ℤ minus_one then (false, k) else (
      true,
      record (set_sem k key (record s { key = minus_one })) { sem_count = k.sem_count - 1 },
    )

-- `semget_in_kernel`: what goes back through `param`, and the state.
unfoldable pub semget_in_kernel : Kernel → SemItem → SemItem × Kernel
unfolding set_sem
semget_in_kernel k param =
    if k.sem_count == max_semaphores
    then (record param { status = minus_one }, k)
    else elim (find_new_sem_key k) [
      -- The code writes in front of the table.
      | none ↦ (
        record param { key = minus_one; status = pos 0; blocked_proc_pid = minus_one },
        record k { sem_count = k.sem_count + 1 },
      )
      | some key ↦
          let item : SemItem = record param {
            key = pos key;
            status = pos 0;
            blocked_proc_pid = minus_one;
          } in
          (item, record (set_sem k key item) { sem_count = k.sem_count + 1 })
    ]

-- `up_in_kernel`. Its test `proc->state = BLOCKED` is an assignment, and always holds.
unfoldable pub up_in_kernel : Kernel → ℕ → Kernel
unfolding sem_at set_sem
up_in_kernel k key =
    let pid = (sem_at k key).blocked_proc_pid in
    let k1 = set_process k pid to_blocked in
    let k2 = awake_process k1 (get_process_by_pid k1 pid).pid in
    let s = sem_at k2 key in set_sem k2 key (record s { value = s.value +ℤ pos 1 })

-- The last statement of `down_in_kernel`, which a blocked caller reaches when it is loaded again.
unfoldable pub down_take : Kernel → ℕ → Kernel
unfolding sem_at set_sem
down_take k key = let s = sem_at k key in set_sem k key (record s { value = s.value -ℤ pos 1 })

pub data DownResult : Type 0 where
  taken : Kernel → DownResult
  waiting : ℤ × Kernel → DownResult

-- `down_in_kernel`: it takes a unit, or the caller waits, and `down_take` is still to come.
unfoldable pub down_in_kernel : Kernel → ℕ → ℤ → DownResult
unfolding sem_at set_sem down_take
down_in_kernel k key esp =
    let s = sem_at k key in
    if is_zero s.value
    then waiting (
        block_process_in_kernel (set_sem k key (record s { blocked_proc_pid = k.current_pid }))
          k.current_pid esp)
    else taken (down_take k key)

-- `for (j = 0; j < 20; j++) semaphoreTable[j].key = -1;` over the table.
unfoldable pub free_keys : List SemItem → List SemItem
free_keys [] = []
free_keys (s ∷ ss) = record s { key = minus_one } ∷ free_keys ss

-- The semaphores' part of `initializeSemaphoreTable`. `memory` is what `malloc` finds in the 20
-- entries that it allocates.
unfoldable pub initialize_semaphore_table : Kernel → List SemItem → Kernel
unfolding malloc free_keys
initialize_semaphore_table k memory =
    let (table, k1) = malloc k (sem_item_size * max_semaphores) in
    record k1 { semaphore_table = free_keys memory; sem_count = 0 }
