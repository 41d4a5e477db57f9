-- ===== src/FileSystem/Files/Calls.antt =====
-- The calls on files by name, and the shell's commands over them (Chinux/fileSystem/newFs.c, from
-- `creat_in_kernel` to `cat_in_kernel`). What a command prints is its result.
use tpe_so.Base.{
  ℕ, zero, suc, ◌-◌, ◌==◌, ℤ, minus_one, ◌==ℤ◌, not, ◌&&◌, if◌then◌else◌, Option, none, some, [],
  ◌∷◌, get_or, set,
}
use tpe_so.Text.{Chars, str_len}
use tpe_so.FileSystem.Memory.{Mem}
use tpe_so.FileSystem.Descriptors.{search_for_fd}
use tpe_so.FileSystem.State.{file_type, link_type, Inode, ok, fault, Cmd, and_then}
use tpe_so.FileSystem.Create.{Fresh, do_creat}
use tpe_so.FileSystem.Files.{inode_of_number, do_open, do_write, do_read}

-- What the commands print: a line, or a file.
pub data Reply : Type 0 where
  creat_error : Reply
  created : Reply
  not_exist : Reply
  files_only : Reply
  content : Mem → Reply
  nothing : Reply

-- `memcpy` of `n` characters over the text `old`.
unfoldable pub overwrite : Chars → Chars → ℕ → Chars
overwrite old s zero = old
overwrite [] s (suc n) = []
overwrite (c ∷ old) [] (suc n) = c ∷ old
overwrite (c ∷ old) (d ∷ s) (suc n) = d ∷ overwrite old s n

-- `creat_in_kernel`, where `buffer` is what `malloc` hands out. It copies as many characters as the
-- buffer's own text has.
unfoldable pub creat_in_kernel : Fresh → Chars → Chars → Cmd ℤ
unfolding overwrite
creat_in_kernel fresh buffer filename =
    do_creat fresh (overwrite buffer filename (str_len buffer)) 777

-- `touch_in_kernel`
unfoldable pub touch_in_kernel : Fresh → Chars → Cmd Reply
touch_in_kernel fresh filename fs =
    and_then (do_creat fresh filename 777 fs)
      (λ fd fs1. ok (if fd ==ℤ minus_one then creat_error else created) fs1)

abbrev pub memory_of : Chars → Mem
memory_of s x = get_or s x 0

-- What `writefile_in_kernel` does with the result of `do_open`, which is always there with the flag 1.
unfoldable pub write_opened : Mem → Chars → Option ℤ → Cmd Reply
write_opened heap buffer none fs = fault
write_opened heap buffer (some fd) fs =
    if fd ==ℤ minus_one
    then ok not_exist fs
    else and_then (do_write heap fd (memory_of buffer) (str_len buffer) fs)
        (λ n fs1. ok nothing fs1)

-- `writefile_in_kernel`, which cuts off the last character of the name. The empty name has none.
unfoldable pub writefile_in_kernel : Mem → Fresh → Chars → Chars → Cmd Reply
unfolding write_opened
writefile_in_kernel heap fresh name buffer fs =
    if str_len name == 0
    then fault
    else and_then (do_open fresh (set name (str_len name - 1) 0) 1 777 fs)
        (write_opened heap buffer)

-- A field of the inode behind a descriptor.
unfoldable pub field_of : (Inode → ℕ) → Option Inode → Cmd ℕ
field_of field none fs = fault
field_of field (some node) fs = ok (field node) fs

-- `getsize`
unfoldable pub getsize : ℤ → Cmd ℕ
unfolding field_of inode_of_number
getsize fd fs = field_of (λ node. node.size) (inode_of_number fs (search_for_fd fs.table fd)) fs

-- `getidentifier`
unfoldable pub getidentifier : ℤ → Cmd ℕ
unfolding field_of inode_of_number
getidentifier fd fs =
    field_of (λ node. node.identifier) (inode_of_number fs (search_for_fd fs.table fd)) fs

-- The rest of `cat_in_kernel`, with the file's type. `buffer` is what `malloc` hands out.
unfoldable pub show_file : Mem → Mem → ℤ → ℕ → Cmd Reply
show_file heap buffer fd id fs =
    if not (id == file_type) && not (id == link_type)
    then ok files_only fs
    else and_then (getsize fd fs)
        (λ size fs1. and_then (do_read heap fd buffer none fs1) (λ r fs2. ok (content r.1) fs2))

unfoldable pub cat_opened : Mem → Mem → Option ℤ → Cmd Reply
unfolding show_file
cat_opened heap buffer none fs = fault
cat_opened heap buffer (some fd) fs =
    if fd ==ℤ minus_one
    then ok not_exist fs
    else and_then (getidentifier fd fs) (show_file heap buffer fd)

-- `cat_in_kernel`
unfoldable pub cat_in_kernel : Mem → Fresh → Mem → Chars → Cmd Reply
unfolding cat_opened
cat_in_kernel heap fresh buffer filename fs =
    and_then (do_open fresh filename 1 2 fs) (cat_opened heap buffer)
