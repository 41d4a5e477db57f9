-- ===== src/FileSystem/Create.antt =====
-- New inodes, and the files, directories and fifos that they become (Chinux/fileSystem/newFs.c).
pub mod Streams
pub mod Apart
pub mod Files
pub mod NewEntries
pub mod Directories
use tpe_so.Base.{
  ℕ, ◌+◌, ◌/◌, ◌%◌, ◌^◌, ◌==◌, ℤ, pos, minus_one, if◌then◌else◌, Option, none, some, List, [], ◌∷◌,
  set, map,
}
use tpe_so.Text.{Chars}
use tpe_so.FileSystem.Bitmap.{block_size, header_blocks, set_bit}
use tpe_so.FileSystem.Memory.{Mem, cleared, minus_one_word, write_disk, put_words, put_chars}
use tpe_so.FileSystem.Alloc.{Maps, search_free_inode, search_free_blocks}
use tpe_so.FileSystem.Descriptors.{Descriptors, insert_fd}
use tpe_so.FileSystem.State.{
  file_type, directory_type, fifo_type, Inode, Fs, Run, ok, fault, Cmd, pure, ◌>>=◌, ◌>>◌,
}
use tpe_so.FileSystem.InodeTable.{fs_insert_inode}
use tpe_so.FileSystem.Directory.{
  entry_size, directory_size, search_directory, insert_directory_entry, insert_fifo_entry,
  insert_file_entry,
}

-- What `malloc` hands out when an inode is made: an `iNode` and a `dataStream` with whatever their
-- memory holds, and the address of the bytes of a fifo.
pub record Fresh : Type 0 where
  pub inode : Inode
  pub pointer : ℕ

-- The result -1 of an allocation, as a block.
abbrev pub block_word : Option ℕ → ℕ
block_word none = minus_one_word
block_word (some b) = b

-- `dr[0]` and `dr[1]` of a new directory: "." and "..".
unfoldable pub first_entries : ℕ → ℕ → Mem
first_entries number parent =
    put_chars
      (put_words (put_chars (put_words cleared 0 (directory_type ∷ number ∷ 0 ∷ [])) 12 (46 ∷ []) 1)
        entry_size (directory_type ∷ parent ∷ 0 ∷ []))
      (entry_size + 12) (46 ∷ 46 ∷ []) 2

abbrev parent_number : ℕ → Option Inode → ℕ
parent_number number none = number
parent_number number (some current) = current.number

-- `freeblock + i`, for `i` from 0 to 11.
abbrev pub twelve_blocks : ℕ → List ℕ
twelve_blocks b = map (λ i. (b + i) % 2 ^ 32) (0 ∷ 1 ∷ 2 ∷ 3 ∷ 4 ∷ 5 ∷ 6 ∷ 7 ∷ 8 ∷ 9 ∷ 10 ∷ 11 ∷ [])

-- `fs_init_fifoStream`
unfoldable pub fs_init_fifo_stream : Fresh → ℕ → List ℕ
fs_init_fifo_stream fresh size = set (set fresh.inode.direct_blocks 0 fresh.pointer) 1 size

-- The branch of `fs_init_dataStream` for a directory. It does not look whether there was room.
unfoldable pub directory_stream : Fs → ℕ → Option Inode → List ℕ × Fs
unfolding first_entries
directory_stream fs number current =
    let (found, maps) = search_free_blocks fs.maps 12 in
    let b = block_word found in
    (
      twelve_blocks b,
      record fs {
        maps = maps;
        disk =
            write_disk fs.disk b (first_entries number (parent_number number current))
              directory_size;
      },
    )

-- The stream of a file: its first block and how many it has. Without room it stays as `malloc` gave it.
unfoldable pub file_blocks : Fresh → ℕ → Option ℕ → List ℕ
file_blocks fresh quantity none = fresh.inode.direct_blocks
file_blocks fresh quantity (some b) = set (set fresh.inode.direct_blocks 0 b) 1 quantity

-- The branch for a file.
unfoldable pub file_stream : Fresh → Fs → ℕ → List ℕ × Fs
unfolding file_blocks
file_stream fresh fs size =
    let quantity = size / block_size + 1 in
    let (found, maps) = search_free_blocks fs.maps quantity in
    (file_blocks fresh quantity found, record fs { maps = maps })

-- `fs_init_dataStream`
unfoldable pub fs_init_data_stream : Fresh → Fs → ℕ → ℕ → ℕ → Option Inode → List ℕ × Fs
unfolding directory_stream file_stream
fs_init_data_stream fresh fs size id number current =
    if id == directory_type then directory_stream fs number current else file_stream fresh fs size

-- `fs_init_inode` from the number on.
unfoldable pub init_numbered : Fresh → ℕ → ℕ → ℕ → Option Inode → ℕ → Fs → Inode × Fs
unfolding fs_init_data_stream fs_init_fifo_stream
init_numbered fresh id mode size current number fs =
    let (blocks, fs1) =
      if id == fifo_type
      then (fs_init_fifo_stream fresh size, fs)
      else fs_init_data_stream fresh fs size id number current in
    (
      record {
        identifier = id;
        number = number;
        uid = fs.usr_id;
        gid = fs.group;
        mode = mode;
        size = size;
        link = fresh.inode.link;
        direct_blocks = blocks;
      },
      fs1,
    )

-- `fs_creat_inode` with what `search_free_inode` gives. When no number is free the code goes on with
-- -1, outside the map and the table.
unfoldable pub creat_numbered : Fresh → ℕ → ℕ → ℕ → Option Inode → Option ℕ × Maps → Cmd Inode
unfolding init_numbered
creat_numbered fresh id mode size current (none, maps) fs = fault
creat_numbered fresh id mode size current (some number, maps) fs =
    let (node, fs1) = init_numbered fresh id mode size current number (record fs { maps = maps }) in
    ok node fs1

-- `fs_creat_inode`
unfoldable pub fs_creat_inode : Fresh → ℕ → ℕ → ℕ → Option Inode → Cmd Inode
unfolding creat_numbered
fs_creat_inode fresh id mode size current fs =
    creat_numbered fresh id mode size current (search_free_inode fs.maps) fs

-- `insert_directory`
unfoldable pub insert_directory : Fresh → Chars → Inode → Cmd (Unit {0})
unfolding fs_creat_inode
insert_directory fresh name current = do
  node ← fs_creat_inode fresh directory_type 777 512 (some current)
  λ fs. ok tt (insert_directory_entry (fs_insert_inode fs node) node current name)

-- The end of `insert_file`.
unfoldable pub add_file : Chars → Inode → Inode → Cmd (Option Inode)
add_file name current node fs =
    ok (some node) (insert_file_entry (fs_insert_inode fs node) node current name)

-- `insert_file` with what `search_directory` gives. `none` is a null pointer: the name is in use.
unfoldable pub insert_unless : Fresh → Chars → ℕ → Inode → Option Inode → Cmd (Option Inode)
unfolding fs_creat_inode add_file
insert_unless fresh name mode current (some _) = pure none
insert_unless fresh name mode current none = do
  node ← fs_creat_inode fresh file_type mode 0 (some current)
  add_file name current node

-- `insert_file`
unfoldable pub insert_file : Fresh → Chars → ℕ → Inode → Cmd (Option Inode)
unfolding insert_unless
insert_file fresh name mode current fs =
    insert_unless fresh name mode current (search_directory fs name current) fs

-- `insert_fifo`, which puts the entry in the current directory.
unfoldable pub insert_fifo : Fresh → Chars → ℕ → Cmd Inode
unfolding fs_creat_inode
insert_fifo fresh name size = do
  node ← fs_creat_inode fresh fifo_type 1 size none
  λ fs. ok node (insert_fifo_entry (fs_insert_inode fs node) node fs.current name)

-- The state with a new table, if no memory behind the table has been written.
abbrev pub with_table : Fs → Option (ℤ × Descriptors) → Run ℤ
with_table fs none = fault
with_table fs (some (fd, table)) = ok fd (record fs { table = table })

-- `insert_fd` as a command.
unfoldable pub open_number : ℕ → Cmd ℤ
open_number number fs = with_table fs (insert_fd fs.table (pos number))

-- The end of `do_creat`.
unfoldable pub open_created : Option Inode → Cmd ℤ
unfolding open_number
open_created none = pure minus_one
open_created (some node) = open_number node.number

-- `do_creat`
unfoldable pub do_creat : Fresh → Chars → ℕ → Cmd ℤ
unfolding insert_file open_created
do_creat fresh filename mode fs =
    (do ret ← insert_file fresh filename mode fs.current; open_created ret) fs

-- `init_root`
unfoldable pub init_root : Fresh → Cmd (Unit {0})
unfolding fs_creat_inode
init_root fresh fs =
    let maps = record fs.maps {
      bitmap = set_bit fs.maps.bitmap header_blocks;
      inodemap = set_bit fs.maps.inodemap 0;
    } in
    (do
      node ← fs_creat_inode fresh directory_type 777 512 none
      λ fs1. ok tt (fs_insert_inode (record fs1 { root = node }) node))
      (record fs { maps = maps })
