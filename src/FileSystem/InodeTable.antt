-- ===== src/FileSystem/InodeTable.antt =====
-- The table of inodes on disk (Chinux/fileSystem/newFs.c, `fs_get_inode` and `fs_insert_inode`). A
-- number is not negative here: four inodes to a sector.
pub mod Lookup
use tpe_so.Base.{ℕ, ◌+◌, ◌*◌, ◌/◌, ◌%◌, if◌then◌else◌, Option, none, some}
use tpe_so.FileSystem.Bitmap.{Words, block_size, inodetable_sector, is_free, set_bit}
use tpe_so.FileSystem.Memory.{Mem, cleared, copy, read_disk, write_disk, words_at, put_words}
use tpe_so.FileSystem.Alloc.{Maps}
use tpe_so.FileSystem.State.{Inode, inode_words, of_words, Fs}

-- `sizeof(iNode)`, and how many of its words are read.
abbrev pub inode_size : ℕ
inode_size = 128

abbrev pub inode_length : ℕ
inode_length = 19

-- `memcpy(ret, m + a, 128)` and `memcpy(m + a, node, 128)`
unfoldable pub inode_at : Mem → ℕ → Inode
inode_at m a = of_words (words_at m a inode_length)

unfoldable pub put_inode : Mem → ℕ → Inode → Mem
put_inode m a node = put_words m a (inode_words node)

-- `fs_get_inode`; `none` is a null pointer.
unfoldable pub fs_get_inode : Fs → ℕ → Option Inode
unfolding inode_at
fs_get_inode fs number =
    let recieve = read_disk fs.disk (inodetable_sector + number / 4) block_size in
    if is_free fs.maps.inodemap number
    then none
    else some (inode_at recieve (inode_size * (number % 4)))

-- `fs_insert_inode`, whose result is the number.
unfoldable pub fs_insert_inode : Fs → Inode → Fs
unfolding put_inode
fs_insert_inode fs node =
    let sector = inodetable_sector + node.number / 4 in
    let recieve = read_disk fs.disk sector block_size in
    record fs {
      maps = record fs.maps {
        inodemap =
            if is_free fs.maps.inodemap node.number
            then set_bit fs.maps.inodemap node.number
            else fs.maps.inodemap;
      };
      disk =
          write_disk fs.disk sector (put_inode recieve (inode_size * (node.number % 4)) node)
            block_size;
    }
