-- ===== src/FileSystem/Tests.antt =====
-- Small maps and tables on which the theorems apply.
use tpe_so.Base.{
  ℕ, pos, ◌≡◌, refl, ◌⊎◌, true, false, none, some, replicate, length-replicate, length, arith,
}
use tpe_so.FileSystem.Bitmap.{
  Words, bitmap_size, inodemap_size, bindex, boffset, get_bit, set_bit, set_run, is_free,
}
use tpe_so.FileSystem.Alloc.{
  Maps, is_full, grant, take_run, find_run, search_free_blocks, free_used_blocks, search_free_inode,
}
use tpe_so.FileSystem.Alloc.FirstFit.{IsFirstFit}
use tpe_so.FileSystem.Alloc.Blocks
use tpe_so.FileSystem.Alloc.Blocks.{
  HasRoom, search_free_blocks_lem, search_free_blocks_disjoint, free_used_blocks-search_free_blocks,
}
use tpe_so.FileSystem.Alloc.Inodes
use tpe_so.FileSystem.Alloc.Inodes.{IsFirstFree, search_free_inode_lem}
use tpe_so.FileSystem.Descriptors.{Descriptors, insert_fd}
use tpe_so.FileSystem.Descriptors.Lookup.{HandsOut, AllTaken, Overflows, insert_fd_lem}
use tpe_so.FileSystem.Sample.{closed, closed-IsTable}

insert_fd_example :
    ((f : ℕ) × (t' : Descriptors) × (insert_fd closed (pos 7) ≡ some (pos f, t'))
      × HandsOut closed (pos 7) f t')
    ⊎ (AllTaken closed × Overflows closed (insert_fd closed (pos 7)))
insert_fd_example = insert_fd_lem closed (pos 7) closed-IsTable

-- Maps of 1300 words, all free.
unfoldable zeros : ℕ → Words
zeros n = replicate n 0

zeros-length : (n : ℕ) → length (zeros n) ≡ n
unfolding zeros
zeros-length n = length-replicate n 0

abbrev fresh : Maps
fresh = record {
  bitmap = zeros 1300;
  inodemap = zeros 1300;
  free_blocks = pos 40960;
  used_blocks = pos 0;
  stored = zeros 1300;
}

fresh-HasRoom : HasRoom fresh 12
fresh-HasRoom = omega (arith, zeros-length 1300)

search_free_blocks_example :
    let (r, m') = search_free_blocks fresh 12 in
    ((is_full fresh ≡ true) × (r ≡ none) × (m' ≡ fresh))
    ⊎ ((is_full fresh ≡ false)
        × IsFirstFit fresh.bitmap bitmap_size 12 r
        × Blocks.Outcome fresh 12 r m')
search_free_blocks_example = search_free_blocks_lem fresh 12 (omega arith) fresh-HasRoom

first_run : search_free_blocks fresh 12 ≡ (some 0, take_run fresh 0 12)
unfolding search_free_blocks grant find_run is_free get_bit bindex boffset zeros
first_run = refl

second_run :
    search_free_blocks (take_run fresh 0 12) 12 ≡ (some 12, take_run (take_run fresh 0 12) 12 12)
unfolding search_free_blocks grant find_run is_free get_bit bindex boffset set_run set_bit zeros
second_run = refl

free_example :
    let m2 = free_used_blocks (take_run fresh 0 12) 0 12 in
    (is_free m2.bitmap 5 ≡ is_free fresh.bitmap 5)
    × (m2.free_blocks ≡ pos 40960)
    × (m2.used_blocks ≡ pos 0)
free_example =
    free_used_blocks-search_free_blocks fresh (take_run fresh 0 12) 12 0 5 (omega arith)
      fresh-HasRoom first_run (omega arith)

search_free_inode_example :
    let (r, m') = search_free_inode fresh in
    IsFirstFree fresh.inodemap 0 inodemap_size r × Inodes.Outcome fresh r m'
search_free_inode_example = search_free_inode_lem fresh (omega (arith, zeros-length 1300))
