-- ===== src/Shell.antt =====
-- The shell's command line (Chinux/src/shell.c): the line that has been read, `buffcopy`, and its words,
-- the ten rows of 256 characters of `buffcopyparsed`, which stand one behind the other in memory.
pub mod Words
pub mod Splitting
pub mod History
pub mod Recall
pub mod Saving
pub mod Tests
use tpe_so.Base.{ℕ, suc, ◌+◌, ◌*◌, ◌==◌, ltb, ◌&&◌, if◌then◌else◌, List, [], ◌∷◌}
use tpe_so.FileSystem.Memory.{Mem}
use tpe_so.Screen.{write_byte}

abbrev pub row_size : ℕ
row_size = 256

-- The words, and the row and the column of the next character.
pub record Split : Type 0 where
  pub rows : Mem
  pub i : ℕ
  pub k : ℕ

-- One round of the loop of `splitbuffer`: a blank ends a word, and stays in it, until the tenth.
unfoldable pub split_char : Split → ℕ → Split
split_char w c =
    let rows = write_byte w.rows (row_size * w.i + w.k) c in
    if (c == 32) && ltb w.i 9
    then record w { rows = write_byte rows (row_size * w.i + w.k + 1) 0; i = suc w.i; k = 0 }
    else record w { rows = rows; k = suc w.k }

unfoldable pub split_chars : Split → List ℕ → Split
split_chars w [] = w
split_chars w (c ∷ buffcopy) = split_chars (split_char w c) buffcopy

-- `splitbuffer`, of as many characters as the terminal's buffer counts.
unfoldable pub splitbuffer : Mem → List ℕ → Mem
splitbuffer rows buffcopy =
    let w = split_chars (record { rows = rows; i = 0; k = 0 }) buffcopy in
    write_byte w.rows (row_size * w.i + w.k) 0
