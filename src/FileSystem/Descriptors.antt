-- ===== src/FileSystem/Descriptors.antt =====
-- The table of open files (Chinux/fileSystem/newFs.c, from `search_for_inode` to `delete_fd`). The loops go
-- over 100 entries of 12 bytes, and Chinux/src/kernel.c allocates 100 bytes: 8 entries are the table's
-- own. What lies behind them is read as it stands, and a write there hits other memory, which is `none`.
-- That memory is the file system's (the boot record, the superblock, the bit map); how it changes when
-- these do is not followed.
pub mod Lookup
pub mod Search
use tpe_so.Base.{
  ℕ, zero, suc, ltb, ℤ, pos, minus_one, ◌==ℤ◌, is_zero, if◌then◌else◌, Option, none, some, List,
  get_or, set,
}

-- `filedescriptor`, without the key that nothing uses.
pub record Entry : Type 0 where
  pub fd : ℤ
  pub inode : ℤ

abbrev pub unused : Entry
unused = record { fd = pos 0; inode = pos 0 }

-- The entries for which the allocation has room.
abbrev pub own_count : ℕ
own_count = 8

-- `fd_table`: its own entries, and the memory behind them, read as entries by their index.
pub record Descriptors : Type 0 where
  pub own : List Entry
  pub behind : ℕ → Entry

-- The loops run from 3 to 99: for `n` more entries from `i` on.
abbrev pub first_fd : ℕ
first_fd = 3

abbrev pub fd_count : ℕ
fd_count = 97

-- `fd_table[i]`, read.
unfoldable pub entry : Descriptors → ℕ → Entry
entry t i = if ltb i own_count then get_or t.own i unused else t.behind i

-- `fd_table[i]`, written.
unfoldable pub set_entry : Descriptors → ℕ → Entry → Option Descriptors
set_entry t i e = if ltb i own_count then some (record t { own = set t.own i e }) else none

-- The loop of `search_for_inode`.
unfoldable pub inode_from : Descriptors → ℕ → ℕ → ℤ → ℤ
unfolding entry
inode_from t zero i number = minus_one
inode_from t (suc n) i number =
    let rest = inode_from t n (suc i) number in
    if number ==ℤ (entry t i).inode then (entry t i).fd else rest

-- `search_for_inode`: the descriptor under which an inode is open.
unfoldable pub search_for_inode : Descriptors → ℤ → ℤ
unfolding inode_from
search_for_inode t number = inode_from t fd_count first_fd number

-- The loop of `search_for_fd`.
unfoldable pub fd_from : Descriptors → ℕ → ℕ → ℤ → ℤ
unfolding entry
fd_from t zero i fd = minus_one
fd_from t (suc n) i fd =
    let rest = fd_from t n (suc i) fd in if fd ==ℤ (entry t i).fd then (entry t i).inode else rest

-- `search_for_fd`: the inode of an open file.
unfoldable pub search_for_fd : Descriptors → ℤ → ℤ
search_for_fd t fd = fd_from t fd_count first_fd fd

-- The loop of `insert_fd`: the first entry whose descriptor is 0.
unfoldable pub free_from : Descriptors → ℕ → ℕ → Option ℕ
unfolding entry
free_from t zero i = none
free_from t (suc n) i =
    let rest = free_from t n (suc i) in if is_zero (entry t i).fd then some i else rest

abbrev pub handed_out : ℕ → Option Descriptors → Option (ℤ × Descriptors)
handed_out i none = none
handed_out i (some t) = some (pos i, t)

-- What `insert_fd` does at that entry.
unfoldable pub insert_at : Descriptors → ℤ → Option ℕ → Option (ℤ × Descriptors)
unfolding set_entry
insert_at t number none = some (minus_one, t)
insert_at t number (some i) = handed_out i (set_entry t i (record { fd = pos i; inode = number }))

-- `insert_fd`: the new descriptor, or -1, if it does not write behind the table.
unfoldable pub insert_fd : Descriptors → ℤ → Option (ℤ × Descriptors)
unfolding insert_at free_from
insert_fd t number = insert_at t number (free_from t fd_count first_fd)

-- `delete_fd`, which `do_close` calls.
unfoldable pub delete_fd : Descriptors → ℕ → Option Descriptors
unfolding set_entry
delete_fd t fd = set_entry t fd unused
