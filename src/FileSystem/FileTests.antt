-- ===== src/FileSystem/FileTests.antt =====
-- The theorems on reading and writing at the small disk.
use tpe_so.Base.{◌+◌, ◌*◌, ◌<◌, pos, ◌≡◌, refl, inr, true, none, replicate, length, All, arith}
use tpe_so.FileSystem.Bitmap.{word_size, is_free, get_bit, bindex, boffset, set_bit}
use tpe_so.FileSystem.Memory.{Mem, cleared, sector_address}
use tpe_so.FileSystem.Memory.Laws.{IsWord}
use tpe_so.FileSystem.Alloc.{grant, take_run, find_run, search_free_blocks}
use tpe_so.FileSystem.Descriptors.{entry, fd_from, search_for_fd}
use tpe_so.FileSystem.Descriptors.Lookup.{with_entry}
use tpe_so.FileSystem.State.{Inode, inode_words, init_block, block_count, Fs, ok}
use tpe_so.FileSystem.InodeTable.{fs_get_inode, fs_insert_inode}
use tpe_so.FileSystem.InodeTable.Lookup.{fs_get_inode-fs_insert_inode}
use tpe_so.FileSystem.Directory.{search_directory, insert_entry, write_directory}
use tpe_so.FileSystem.Create.{Fresh}
use tpe_so.FileSystem.Files.{place, moved, write_inode, do_open, do_read, do_write}
use tpe_so.FileSystem.Files.Content.{CanWrite}
use tpe_so.FileSystem.Files.ReadBack.{IsAppended, IsOpen, do_read-do_write, write_inode_in_place}
use tpe_so.FileSystem.Files.Opening.{Opening, do_open_lem}
use tpe_so.FileSystem.Sample.{
  closed, closed-IsTable, closed-IsTidy, zeros, zeros-length, small_words, file_5, file_5-IsInode,
  sample, with_file, name_a,
}

-- The file, open under the descriptor 3.
abbrev opened : Fs
opened = record (fs_insert_inode sample file_5) {
  table = with_entry closed 3 (record { fd = pos 3; inode = pos 5 });
}

opened-number : search_for_fd opened.table (pos 3) ≡ pos 5
unfolding search_for_fd fd_from entry
opened-number = refl

opened-room : 5 < length opened.maps.inodemap * word_size
unfolding fs_insert_inode is_free get_bit bindex boffset set_bit zeros
opened-room = ground arith

opened-IsOpen : IsOpen opened (pos 3) file_5
opened-IsOpen = record {
  number = opened-number;
  stored =
      unfold fs_get_inode in
      fs_get_inode-fs_insert_inode sample file_5 5 file_5-IsInode (omega arith) (omega arith)
        (omega (arith, zeros-length 1299));
  room = opened-room;
}

-- 600 bytes more need a second block.
grown_maps : place opened.maps file_5 600 ≡ (0, 2, take_run opened.maps 0 2)
unfolding place search_free_blocks grant find_run is_free get_bit bindex boffset fs_insert_inode
    zeros
grown_maps = refl

moved-IsInode : All IsWord (inode_words (moved file_5 0 2 600))
unfolding moved
moved-IsInode = small_words (inode_words (moved file_5 0 2 600)) refl

opened-CanWrite : CanWrite opened file_5 600 0 2 (take_run opened.maps 0 2)
opened-CanWrite = record {
  found = grown_maps;
  granted = refl;
  fits = omega arith;
  words = record { blocks = unfold moved in refl; words = moved-IsInode };
  number = omega arith;
  apart = unfold sector_address in inr (omega arith);
}

do_read-do_write_example :
    (fs' : Fs) × (old memory : Mem) × (do_read cleared (pos 3) cleared none opened
      ≡ ok (pos 3, old) opened)
    × (do_write cleared (pos 3) (λ x. 65) 600 opened ≡ ok (pos 600) fs')
    × (do_read cleared (pos 3) cleared none fs' ≡ ok (pos (3 + 600), memory) fs')
    × IsAppended memory 3 old (λ x. 65) 600
do_read-do_write_example =
    do_read-do_write cleared (pos 3) (λ x. 65) 600 opened file_5 0 2 (take_run opened.maps 0 2)
      cleared cleared opened-IsOpen opened-CanWrite

-- 4 bytes more fit in the block.
write_inode_in_place_example :
    let (node', fs') = write_inode cleared file_5 (λ x. 65) 4 sample in
    (init_block node' ≡ 300) × (block_count node' ≡ 1) × (is_free fs'.maps.bitmap 300 ≡ true)
write_inode_in_place_example =
    write_inode_in_place cleared file_5 (λ x. 65) 4 sample 300 refl (omega arith) refl
      (omega (arith, zeros-length 1300)) refl

abbrev blank : Inode
blank = record {
  identifier = 0;
  number = 0;
  uid = 0;
  gid = 0;
  mode = 0;
  size = 0;
  link = 0;
  direct_blocks = replicate 12 0;
}

abbrev fresh : Fresh
fresh = record { inode = blank; pointer = 0 }

do_open_example :
    Opening with_file
      (search_directory with_file name_a with_file.current)
      (do_open fresh name_a 1 777 with_file)
do_open_example =
    do_open_lem fresh name_a 1 777 with_file (omega arith)
      (unfold insert_entry write_directory fs_insert_inode in closed-IsTable)
      (unfold insert_entry write_directory fs_insert_inode in closed-IsTidy)
