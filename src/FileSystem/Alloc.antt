-- ===== src/FileSystem/Alloc.antt =====
-- Allocation of inodes and of runs of blocks (Chinux/fileSystem/newFs.c).
pub mod FirstFit
pub mod Blocks
pub mod Inodes
use tpe_so.Base.{
  ℕ, zero, suc, ◌+◌, ℤ, pos, ◌+ℤ◌, ◌-ℤ◌, ltb_ℤ, ltb, Bool, true, false, if◌then◌else◌, Option, none,
  some,
}
use tpe_so.FileSystem.Bitmap.{
  Words, bitmap_size, inodemap_size, header_blocks, is_free, set_bit, set_run, clear_run, clear_all,
}

-- `bitmap`, `inodemap`, the two counters of `superblock`, and the bit map as last written on disk.
pub record Maps : Type 0 where
  pub bitmap : Words
  pub inodemap : Words
  pub free_blocks : ℤ
  pub used_blocks : ℤ
  pub stored : Words

-- The loop of `search_free_inode`, for `n` more numbers from `i` on.
unfoldable pub first_free : Words → ℕ → ℕ → Option ℕ
first_free ws zero i = none
first_free ws (suc n) i =
    let rest = first_free ws n (suc i) in if is_free ws i then some i else rest

-- What `search_free_inode` does with the number that its loop finds.
unfoldable pub take_inode : Maps → Option ℕ → Option ℕ × Maps
take_inode m none = (none, m)
take_inode m (some i) = (some i, record m { inodemap = set_bit m.inodemap i })

-- `search_free_inode`; `none` is the result -1.
unfoldable pub search_free_inode : Maps → Option ℕ × Maps
unfolding take_inode
search_free_inode m = take_inode m (first_free m.inodemap inodemap_size 0)

-- `candidate`, where -1 is `none`, after a free block `i`.
abbrev pub or_start : Option ℕ → ℕ → ℕ
or_start none i = i
or_start (some c) i = c

-- The loop of `search_free_blocks`, for `n` more blocks from `i` on: `candidate` at its end.
unfoldable pub find_run : Words → ℕ → ℕ → ℕ → ℕ → Option ℕ → Option ℕ
find_run ws quantity zero i count candidate = candidate
find_run ws quantity (suc n) i count candidate =
    let free = is_free ws i in
    let rest =
      find_run ws quantity n (suc i) (if free then suc count else 0)
        (if free then some (or_start candidate i) else none) in
    if ltb count quantity then rest else candidate

-- The guard `freeBlocks < 100`.
abbrev pub is_full : Maps → Bool
is_full m = ltb_ℤ m.free_blocks (pos 100)

-- The blocks are taken and counted, and the map is written.
abbrev pub take_run : Maps → ℕ → ℕ → Maps
take_run m candidate quantity = record m {
  bitmap = set_run m.bitmap candidate quantity;
  free_blocks = m.free_blocks -ℤ pos quantity;
  used_blocks = m.used_blocks +ℤ pos quantity;
  stored = set_run m.bitmap candidate quantity;
}

-- What `search_free_blocks` does with its candidate.
unfoldable pub grant : Maps → ℕ → Option ℕ → Option ℕ × Maps
grant m quantity none = (none, m)
grant m quantity (some candidate) = (some candidate, take_run m candidate quantity)

-- `search_free_blocks`; `none` is the result -1, which is also `NO_SPACE`.
unfoldable pub search_free_blocks : Maps → ℕ → Option ℕ × Maps
unfolding grant
search_free_blocks m quantity =
    if is_full m
    then (none, m)
    else grant m quantity (find_run m.bitmap quantity bitmap_size 0 0 none)

-- `free_used_blocks` on the map of blocks.
unfoldable pub free_used_blocks : Maps → ℕ → ℕ → Maps
free_used_blocks m init_bit quantity = record m {
  bitmap = clear_run m.bitmap init_bit quantity;
  free_blocks = m.free_blocks +ℤ pos quantity;
  used_blocks = m.used_blocks -ℤ pos quantity;
}

-- `init_bitmap`
unfoldable pub init_bitmap : Maps → Maps
unfolding clear_all set_run
init_bitmap m =
    let ws = set_run (clear_all m.bitmap bitmap_size) 0 header_blocks in
    record m { bitmap = ws; stored = ws }

-- `init_inodemap`, without what it writes on disk: the map of blocks, over sectors 6 to 25.
unfoldable pub init_inodemap : Maps → Maps
unfolding clear_all
init_inodemap m = record m { inodemap = set_bit (clear_all m.inodemap inodemap_size) 0 }
