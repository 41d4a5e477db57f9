-- ===== src/FileSystem/Remove.antt =====
-- Removal of files and of directories with all that is in them (Chinux/fileSystem/newFs.c, `rmDir`,
-- `is_base_case` and `recursive_remove`).
pub mod Entries
pub mod Files
use tpe_so.Base.{
  ℕ, zero, suc, ◌+◌, ◌*◌, ◌==◌, ltb, Bool, true, false, not, if◌then◌else◌, Option, none, some,
  List, [], ◌∷◌,
}
use tpe_so.Text.{Chars}
use tpe_so.FileSystem.Memory.{Mem, put_words, put_chars}
use tpe_so.FileSystem.State.{directory_type, Inode, Fs, Run, ok, fault, out_of_fuel, Cmd, and_then}
use tpe_so.FileSystem.InodeTable.{fs_get_inode}
use tpe_so.FileSystem.Directory.{
  entry_size, type_at, inode_number_at, read_directory, write_directory,
}
use tpe_so.FileSystem.Path.{parser_path}
use tpe_so.FileSystem.Tree.{Answer, done, permission_denied, wrong_path, at_path}

-- How many entries the loops go through, from the entry 2 on.
abbrev pub removable : ℕ
removable = 94

-- The loop of `is_base_case`: no more of `n` entries from `i` on is in use.
unfoldable pub none_used : Mem → ℕ → ℕ → Bool
unfolding type_at
none_used dr zero i = true
none_used dr (suc n) i =
    let rest = none_used dr n (suc i) in if not (type_at dr i == 0) then false else rest

-- `is_base_case`
unfoldable pub is_base_case : Fs → Inode → Bool
unfolding none_used
is_base_case fs node =
    let empty = none_used (read_directory fs node) removable 2 in
    if not (node.identifier == directory_type) then true else empty

-- `type`, `inode` and `lenght` of an entry are cleared.
unfoldable pub clear_entry : Mem → ℕ → Mem
clear_entry dr i = put_words dr (entry_size * i) (0 ∷ 0 ∷ 0 ∷ [])

-- What is below an entry is removed; the result is 1, here `true`, where something had to stay.
unfoldable pub remove_child : (Inode → Cmd Bool) → Option Inode → Cmd Bool
remove_child remove none fs = fault
remove_child remove (some node) fs = remove node fs

-- The loop of `recursive_remove`, for `n` more entries from `i` on, with `ret` and what `dr` holds.
unfoldable pub remove_entries : (Inode → Cmd Bool) → Bool → Mem → ℕ → ℕ → Cmd (Bool × Mem)
unfolding type_at inode_number_at remove_child clear_entry
remove_entries remove ret dr zero i fs = ok (ret, dr) fs
remove_entries remove ret dr (suc n) i fs =
    let skip = remove_entries remove ret dr n (suc i) fs in
    let child = remove_child remove (fs_get_inode fs (inode_number_at dr i)) fs in
    let rest =
      and_then child
        (λ r. remove_entries remove r (if r then dr else clear_entry dr i) n (suc i)) in
    if not (type_at dr i == 0) then rest else skip

-- The end of `recursive_remove`: the entries are written.
unfoldable pub write_entries : Inode → Bool × Mem → Cmd Bool
write_entries node (ret, dr) fs = ok ret (write_directory fs node dr)

-- `recursive_remove`, to a depth below `n`.
unfoldable pub recursive_remove : ℕ → Inode → Cmd Bool
unfolding is_base_case remove_entries write_entries
recursive_remove zero node fs = out_of_fuel
recursive_remove (suc n) node fs =
    let below =
      and_then (remove_entries (recursive_remove n) false (read_directory fs node) removable 2 fs)
        (write_entries node) in
    if ltb node.gid fs.group
    then ok true fs
    else if is_base_case fs node
    then ok false fs
    else below

-- The loop that clears the entry of an inode; the name gets two characters 0.
unfoldable pub forget_entry : ℕ → Mem → ℕ → ℕ → Mem
unfolding inode_number_at clear_entry
forget_entry number dr zero i = dr
forget_entry number dr (suc n) i =
    let rest = forget_entry number dr n (suc i) in
    if inode_number_at dr i == number
    then put_chars (clear_entry dr i) (entry_size * i + 12) (0 ∷ 0 ∷ []) 2
    else rest

-- The entry of an inode in the current directory is cleared, on disk.
unfoldable pub unlink_current : ℕ → Cmd Answer
unfolding forget_entry
unlink_current number fs =
    ok done (
      write_directory fs fs.current
        (forget_entry number (read_directory fs fs.current) removable 2))

-- The branch of `rmDir` for a directory.
unfoldable pub after_remove : Inode → Bool → Cmd Answer
unfolding unlink_current
after_remove node true fs = ok done fs
after_remove node false fs = unlink_current node.number fs

-- `rmDir` with what the parser finds.
unfoldable pub remove_at : ℕ → Option Inode → Cmd Answer
unfolding after_remove recursive_remove
remove_at n none fs = ok wrong_path fs
remove_at n (some node) fs =
    let tree = and_then (recursive_remove n node fs) (after_remove node) in
    if ltb node.gid fs.group
    then ok permission_denied fs
    else if not (node.identifier == directory_type)
    then unlink_current node.number fs
    else tree

-- `rmDir`, with as many rounds for the parser and as deep a tree.
unfoldable pub rm_dir : ℕ → Chars → Cmd Answer
unfolding remove_at
rm_dir n path fs = at_path (parser_path fs n path fs.current) (remove_at n) fs
