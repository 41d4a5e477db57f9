-- ===== src/FileSystem/Directory.antt =====
-- Directories: 96 entries of 64 bytes in 12 blocks (Chinux/fileSystem/newFs.c).
pub mod Entries
pub mod Lookup
use tpe_so.Base.{
  ℕ, zero, suc, ◌+◌, ◌*◌, ◌==◌, Bool, if◌then◌else◌, Option, none, some, List, [], ◌∷◌,
}
use tpe_so.Text.{Chars, str_len, strcmp}
use tpe_so.FileSystem.Bitmap.{block_size}
use tpe_so.FileSystem.Memory.{Mem, read_disk, write_disk, word_at, put_words, chars_at, put_chars}
use tpe_so.FileSystem.State.{file_type, directory_type, fifo_type, Inode, init_block, Fs}
use tpe_so.FileSystem.InodeTable.{fs_get_inode}

abbrev pub entry_size : ℕ
entry_size = 64

abbrev pub entry_count : ℕ
entry_count = 96

abbrev pub directory_size : ℕ
directory_size = block_size * 12

-- `dr[i].type`, `dr[i].inode`, and as many characters of `dr[i].name` as a name is compared with.
unfoldable pub type_at : Mem → ℕ → ℕ
type_at dr i = word_at dr (entry_size * i)

unfoldable pub inode_number_at : Mem → ℕ → ℕ
inode_number_at dr i = word_at dr (entry_size * i + 4)

unfoldable pub name_at : Mem → ℕ → ℕ → Chars
name_at dr i n = chars_at dr (entry_size * i + 12) n

-- `strcmp(name, dr[i].name) == 1`
unfoldable pub matches : Mem → ℕ → Chars → Bool
unfolding name_at
matches dr i name = strcmp name (name_at dr i (suc (str_len name)))

-- The loop of `search_directory`, for `n` more entries from `i` on: the inode's number.
unfoldable pub find_entry : Mem → Chars → ℕ → ℕ → Option ℕ
unfolding inode_number_at
find_entry dr name zero i = none
find_entry dr name (suc n) i =
    let rest = find_entry dr name n (suc i) in
    if matches dr i name then some (inode_number_at dr i) else rest

-- `read_disk(0, init_block, dr, BLOCK_SIZE * 12, 0)`
unfoldable pub read_directory : Fs → Inode → Mem
read_directory fs node = read_disk fs.disk (init_block node) directory_size

unfoldable pub write_directory : Fs → Inode → Mem → Fs
write_directory fs node dr = record fs {
  disk = write_disk fs.disk (init_block node) dr directory_size;
}

-- The number under a name in a directory; the loop starts at 1.
unfoldable pub lookup : Fs → Chars → Inode → Option ℕ
unfolding read_directory
lookup fs name node = find_entry (read_directory fs node) name 95 1

-- The inode of the number that the loop has found, or a null pointer.
unfoldable pub inode_of : Fs → Option ℕ → Option Inode
inode_of fs none = none
inode_of fs (some number) = fs_get_inode fs number

-- `search_directory`
unfoldable pub search_directory : Fs → Chars → Inode → Option Inode
unfolding inode_of
search_directory fs name node = inode_of fs (lookup fs name node)

-- The assignments to an entry that is not in use.
unfoldable pub fill_entry : Mem → ℕ → ℕ → ℕ → Chars → Mem
fill_entry dr i type number name =
    put_chars (put_words dr (entry_size * i) (type ∷ number ∷ 0 ∷ [])) (entry_size * i + 12) name
      (str_len name)

-- The loop that looks for such an entry.
unfoldable pub insert_loop : Mem → ℕ → ℕ → Chars → ℕ → ℕ → Mem
unfolding type_at
insert_loop dr type number name zero i = dr
insert_loop dr type number name (suc n) i =
    let rest = insert_loop dr type number name n (suc i) in
    if type_at dr i == 0 then fill_entry dr i type number name else rest

-- The body that the three functions share.
unfoldable pub insert_entry : ℕ → Fs → Inode → Inode → Chars → Fs
unfolding insert_loop read_directory write_directory
insert_entry type fs node directory name =
    write_directory fs directory
      (insert_loop (read_directory fs directory) type node.number name entry_count 0)

unfoldable pub insert_directory_entry : Fs → Inode → Inode → Chars → Fs
unfolding insert_entry
insert_directory_entry = insert_entry directory_type

unfoldable pub insert_fifo_entry : Fs → Inode → Inode → Chars → Fs
unfolding insert_entry
insert_fifo_entry = insert_entry fifo_type

unfoldable pub insert_file_entry : Fs → Inode → Inode → Chars → Fs
unfolding insert_entry
insert_file_entry = insert_entry file_type
