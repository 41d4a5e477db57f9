-- ===== src/Kernel/Fifo.antt =====
-- The table of fifos of Chinux/src/kernel.c. A descriptor is an index into it.
pub mod Table
mod Tests
use tpe_so.Base.{
  ℕ, zero, suc, ◌-◌, ℤ, pos, minus_one, ◌==ℤ◌, is_zero, ◌==◌, Bool, true, false, if◌then◌else◌,
  Option, none, some, List, [], ◌∷◌, get_or, set,
}

-- `MAX_FIFO`
abbrev pub max_fifo : ℕ
max_fifo = 100

-- `my_fdItem`, without the address of its bytes.
pub record FifoItem : Type 0 where
  pub fd : ℤ
  pub curr_size : ℤ
  pub sem_key : ℤ

-- An entry outside the table, which a descriptor never reads.
abbrev pub no_fifo : FifoItem
no_fifo = record { fd = minus_one; curr_size = pos 0; sem_key = minus_one }

-- `fifo_table` and `fifoCount`
pub record Fifos : Type 0 where
  pub table : List FifoItem
  pub count : ℕ

-- The loop of `find_new_fifo_fd`, from the entry at `i` on; `none` is the result -1.
unfoldable pub first_free_fifo : List FifoItem → ℕ → Option ℕ
first_free_fifo [] i = none
first_free_fifo (f ∷ fs) i =
    let rest = first_free_fifo fs (suc i) in if f.fd ==ℤ minus_one then some i else rest

-- `find_new_fifo_fd`
unfoldable pub find_new_fifo_fd : Fifos → Option ℕ
unfolding first_free_fifo
find_new_fifo_fd f = if f.count == max_fifo then none else first_free_fifo f.table 0

-- `delete_fifo_fd`: whether its result is 0, and the table.
unfoldable pub delete_fifo_fd : Fifos → ℕ → Bool × Fifos
delete_fifo_fd f fd =
    let item = get_or f.table fd no_fifo in
    if is_zero item.fd
    then (
      true,
      record {
        table = set f.table fd (record item { fd = minus_one; curr_size = pos 0 });
        count = f.count - 1;
      },
    )
    else (false, f)

-- `for (i = 0; i < MAX_FIFO; i++) fifo_table[i].fd = -1;` over the table.
unfoldable pub free_fifos : List FifoItem → List FifoItem
free_fifos [] = []
free_fifos (f ∷ fs) = record f { fd = minus_one } ∷ free_fifos fs

-- The fifos' part of `initializeSemaphoreTable`, with what `malloc` finds in the table.
unfoldable pub initialize_fifo_table : List FifoItem → Fifos
unfolding free_fifos
initialize_fifo_table memory = record { table = free_fifos memory; count = 0 }
