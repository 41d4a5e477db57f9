-- ===== src/FileSystem/Files.antt =====
-- Reading and writing of files (Chinux/fileSystem/newFs.c, from `write_inode` on). Sizes are far below
-- the bound of an `int`. `heap` is what the memory holds that `malloc` hands out.
pub mod Content
pub mod ReadBack
pub mod Calls
pub mod Opening
use tpe_so.Base.{
  ℕ, zero, suc, ◌+◌, ◌-◌, ◌*◌, ◌/◌, ◌==◌, ltb, ℤ, pos, negsuc, minus_one, ◌==ℤ◌, not, ◌&&◌, Bool,
  if◌then◌else◌, Option, none, some, List, [], ◌∷◌, set,
}
use tpe_so.Text.{Chars, str_len}
use tpe_so.FileSystem.Bitmap.{block_size}
use tpe_so.FileSystem.Memory.{
  Mem, cleared, copy, minus_one_word, sector_address, read_disk, write_disk, put_chars,
}
use tpe_so.FileSystem.Alloc.{Maps, search_free_blocks, free_used_blocks}
use tpe_so.FileSystem.Descriptors.{search_for_inode, search_for_fd, delete_fd}
use tpe_so.FileSystem.State.{
  file_type, link_type, Inode, init_block, block_count, Fs, Run, ok, fault, Cmd, pure, and_then,
  ◌>>=◌, ◌>>◌,
}
use tpe_so.FileSystem.InodeTable.{fs_get_inode, fs_insert_inode}
use tpe_so.FileSystem.Directory.{search_directory}
use tpe_so.FileSystem.Create.{Fresh, block_word, do_creat, open_number}

-- `freeblock` and `newrequeried_blocks` of `write_inode`, and the maps.
unfoldable pub place : Maps → Inode → ℕ → ℕ × ℕ × Maps
place maps node n =
    let required = (node.size + n) / block_size + 1 in
    let (found, maps1) = search_free_blocks maps required in
    if ltb (block_count node) required
    then (block_word found, required, maps1)
    else (init_block node, block_count node, maps)

-- `insert_buffer`: the old bytes, and the new ones behind them.
unfoldable pub joined : Mem → Fs → Inode → Mem → ℕ → Mem
joined heap fs node buf n =
    copy
      (copy heap 0 (read_disk fs.disk (init_block node) (block_count node * block_size)) 0
        (block_count node * block_size))
      node.size buf 0 n

-- The inode that has been moved to `block` and has grown by `n` bytes.
unfoldable pub moved : Inode → ℕ → ℕ → ℕ → Inode
moved node block quantity n = record node {
  size = node.size + n;
  direct_blocks = set (set node.direct_blocks 0 block) 1 quantity;
}

-- What `write_inode` does when it has a place.
unfoldable pub write_at : Mem → Inode → Mem → ℕ → ℕ → ℕ → Fs → Inode × Fs
unfolding joined moved
write_at heap node buf n block quantity fs =
    let node1 = moved node block quantity n in
    (
      node1,
      fs_insert_inode
          (record fs {
            maps = free_used_blocks fs.maps (init_block node) (block_count node);
            disk = write_disk fs.disk block (joined heap fs node buf n) (quantity * block_size);
          })
          node1,
    )

-- `write_inode`: the inode, which the code changes in place, and the state. The result is always `n`.
unfoldable pub write_inode : Mem → Inode → Mem → ℕ → Fs → Inode × Fs
unfolding place write_at
write_inode heap node buf n fs =
    let (block, quantity, maps) = place fs.maps node n in
    let fs1 = record fs { maps = maps } in
    if block == minus_one_word then (node, fs1) else write_at heap node buf n block quantity fs1

-- `read_inode`: what `buf` holds then. Both of its branches do the same.
unfoldable pub read_inode : Mem → Fs → Inode → Mem → ℕ → Mem
read_inode heap fs node buf n =
    copy buf 0
      (copy heap 0 (read_disk fs.disk (init_block node) (block_count node * block_size)) 0
        (block_count node * block_size))
      0 n

-- A file that is found: `posible_file` behind a link.
unfoldable pub behind_link : Inode → Fs → Option Inode
behind_link node fs = if node.identifier == link_type then fs_get_inode fs node.link else some node

-- The descriptor under which a file is open, or a new one.
unfoldable pub open_inode : Option Inode → Cmd (Option ℤ)
unfolding open_number
open_inode none fs = fault
open_inode (some node) fs =
    let fd = search_for_inode fs.table (pos node.number) in
    if not (fd ==ℤ minus_one)
    then ok (some fd) fs
    else and_then (open_number node.number fs) (λ r. pure (some r))

-- The branches of `do_open`. After `do_creat` it ends without a result, which is `none`.
unfoldable pub open_found : Fresh → Chars → ℕ → ℕ → Option Inode → Cmd (Option ℤ)
unfolding open_inode behind_link
open_found fresh filename flags mode (some node) fs =
    if ltb node.gid fs.group then ok (some (negsuc 1)) fs else open_inode (behind_link node fs) fs
open_found fresh filename flags mode none fs =
    if flags == 0
    then and_then (do_creat fresh filename mode fs) (λ fd. pure none)
    else ok (some minus_one) fs

-- `do_open`, and `open`
unfoldable pub do_open : Fresh → Chars → ℕ → ℕ → Cmd (Option ℤ)
unfolding open_found
do_open fresh filename flags mode fs =
    open_found fresh filename flags mode (search_directory fs filename fs.current) fs

-- `fs_get_inode(search_for_fd(fd))`, where the inode is read. A number below 0 is outside the table.
unfoldable pub inode_of_number : Fs → ℤ → Option Inode
inode_of_number fs (pos number) = fs_get_inode fs number
inode_of_number fs (negsuc _) = none

-- The branches of `do_write`, which reads through a null pointer if the inode has been freed.
unfoldable pub write_number : Mem → Mem → ℕ → Option Inode → Cmd ℤ
write_number heap buf n none fs = fault
write_number heap buf n (some node) fs = ok (pos n) (write_inode heap node buf n fs).1

-- `do_write`, and `write`
unfoldable pub do_write : Mem → ℤ → Mem → ℕ → Cmd ℤ
unfolding inode_of_number write_number
do_write heap fd buf n fs =
    let number = search_for_fd fs.table fd in
    if number ==ℤ minus_one
    then ok minus_one fs
    else write_number heap buf n (inode_of_number fs number) fs

-- The count -1, here `none`, stands for the whole file.
abbrev pub read_count : Inode → Option ℕ → ℕ
read_count node none = node.size
read_count node (some n) = n

unfoldable pub read_number : Mem → Mem → Option ℕ → Option Inode → Cmd (ℤ × Mem)
read_number heap buf n none fs = fault
read_number heap buf n (some node) fs =
    ok (pos (read_count node n), read_inode heap fs node buf (read_count node n)) fs

-- `do_read`, and `read`: its result, and what `buf` holds.
unfoldable pub do_read : Mem → ℤ → Mem → Option ℕ → Cmd (ℤ × Mem)
unfolding inode_of_number read_number
do_read heap fd buf n fs =
    let number = search_for_fd fs.table fd in
    if number ==ℤ minus_one
    then ok (minus_one, buf) fs
    else read_number heap buf n (inode_of_number fs number) fs

-- `do_close`, and `close`
unfoldable pub do_close : ℕ → Cmd ℤ
do_close fd fs = elim (delete_fd fs.table fd) [
  | none ↦ fault
  | some table ↦ ok (pos 1) (record fs { table = table })
]
