-- ===== src/FileSystem/Tree.antt =====
-- The current directory, and new directories (Chinux/fileSystem/newFs.c, `cd_in_kernel`, `makeDir`,
-- `print_directories` and `substr`).
pub mod MakeDir
use tpe_so.Base.{
  ℕ, zero, suc, ◌+◌, ◌-◌, ◌*◌, ◌==◌, leb, ltb, Bool, not, ◌&&◌, ◌||◌, if◌then◌else◌, Option, none,
  some, List, [], ◌∷◌, get_or,
}
use tpe_so.Text.{Chars, str_len}
use tpe_so.FileSystem.Memory.{Mem}
use tpe_so.FileSystem.State.{file_type, Inode, Fs, ok, fault, out_of_fuel, Cmd, and_then}
use tpe_so.FileSystem.Directory.{type_at, name_at, read_directory, search_directory}
use tpe_so.FileSystem.Create.{Fresh, insert_directory}
use tpe_so.FileSystem.Path.{slash, Walk, arrived, crashed, unfinished, parser_path}

-- What the commands print.
pub data Answer : Type 0 where
  done : Answer
  permission_denied : Answer
  directories_only : Answer
  wrong_path : Answer

-- A command that goes on with what `parser_path` returns.
abbrev pub at_path : {A : Type 0} → Walk → (Option Inode → Cmd A) → Cmd A
at_path (arrived r) k fs = k r fs
at_path crashed k fs = fault
at_path unfinished k fs = out_of_fuel

-- The rest of `cd_in_kernel`, which reads through the pointer before it tests it.
unfoldable pub change_to : Option Inode → Cmd Answer
change_to none fs = fault
change_to (some node) fs =
    if ltb node.gid fs.group && not (node.number == fs.root.number)
    then ok permission_denied fs
    else if node.identifier == file_type
    then ok directories_only fs
    else ok done (record fs { current = node })

-- `cd_in_kernel`, with as many rounds for the parser.
unfoldable pub cd_in_kernel : ℕ → Chars → Cmd Answer
unfolding change_to
cd_in_kernel n path fs = at_path (parser_path fs n path fs.current) change_to fs

-- The loop of `substr`, for at most `n` characters from `k` on.
unfoldable pub substr_from : Chars → ℕ → ℕ → Chars
substr_from src zero k = 0 ∷ []
substr_from src (suc n) k =
    let rest = substr_from src n (suc k) in
    let c = get_or src k 0 in if c == 0 then 0 ∷ [] else c ∷ rest

-- `substr`: what `dest` holds.
unfoldable pub substr : Chars → ℕ → ℕ → Chars
unfolding substr_from
substr src offset len = substr_from src (len - offset) offset

-- The inner loop of `makeDir`: where the name ends, at most `n` characters behind `j`.
unfoldable pub name_end : Chars → ℕ → ℕ → ℕ
name_end path zero j = j
name_end path (suc n) j =
    let rest = name_end path n (suc j) in
    let c = get_or path j 0 in if c == slash || c == 0 then j else rest

-- The directory under a name, which is made if it is not there.
unfoldable pub make_unless : Fresh → Chars → Inode → Option Inode → Cmd (Option Inode)
make_unless fresh name here (some found) fs = ok (some found) fs
make_unless fresh name here none fs =
    and_then (insert_directory fresh name here fs)
      (λ _ fs1. ok (search_directory fs1 name here) fs1)

-- The end of a round of `makeDir` in `makeDir_current`.
unfoldable pub make_in : Fresh → Chars → Option Inode → Cmd (Option Inode)
unfolding make_unless
make_in fresh name none fs = fault
make_in fresh name (some here) fs = make_unless fresh name here (search_directory fs name here) fs

-- `parcialName` has room for 25 characters.
abbrev pub partial_size : ℕ
partial_size = 25

-- The loop of `makeDir`, for at most `n` rounds, each of which moves `i` on. Round by round `fresh` is
-- what `malloc` hands out.
unfoldable pub make_from : (ℕ → Fresh) → Chars → ℕ → ℕ → Option Inode → Cmd (Option Inode)
unfolding make_in name_end substr
make_from fresh path zero i here fs = ok here fs
make_from fresh path (suc n) i here fs =
    let c = get_or path i 0 in
    let first = if c == slash then suc i else i in
    let j = name_end path (str_len path - first) first in
    let next = make_in (fresh i) (substr path first j) here fs in
    let rest = and_then next (make_from fresh path n j) in
    if c == 0 then ok here fs else if leb partial_size (j - first) then fault else rest

-- `makeDir`: the last of the directories.
unfoldable pub make_dir : (ℕ → Fresh) → Chars → Cmd (Option Inode)
unfolding make_from
make_dir fresh path fs = make_from fresh path (str_len path) 0 (some fs.current) fs

-- The test of `print_directories`: an entry in use, and no hidden one.
unfoldable pub is_shown : Mem → ℕ → Bool
unfolding type_at
is_shown dr i =
    let name = 64 * i + 12 in
    not (type_at dr i == 0)
    && (not (dr name == 46) || dr (name + 1) == 0 || dr (name + 1) == 46 && dr (name + 2) == 0)

-- The loop, for `n` more entries from `i` on: the names that it prints, up to 52 characters of them.
unfoldable pub names_from : Mem → ℕ → ℕ → List Chars
unfolding is_shown name_at
names_from dr zero i = []
names_from dr (suc n) i =
    let rest = names_from dr n (suc i) in if is_shown dr i then name_at dr i 52 ∷ rest else rest

-- `print_directories`
unfoldable pub print_directories : Fs → Inode → List Chars
unfolding names_from
print_directories fs node = names_from (read_directory fs node) 96 0

-- `ls_in_kernel`
unfoldable pub ls_in_kernel : Fs → List Chars
unfolding print_directories
ls_in_kernel fs = print_directories fs fs.current
