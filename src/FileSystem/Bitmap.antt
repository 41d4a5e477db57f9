-- ===== src/FileSystem/Bitmap.antt =====
-- The bit maps of blocks and inodes (Chinux/fileSystem/newFs.c, "BITMAP Funcitons"): words of 32
-- bits as their bit patterns, a word's sign being read nowhere but in the test against 0.
pub mod Laws
use Prim.Native.Nat.{bit_and, bit_or}
use tpe_so.Base.{
  ℕ, zero, suc, ◌+◌, ◌-◌, ◌*◌, ◌/◌, ◌%◌, ◌^◌, ◌==◌, Bool, true, false, if◌then◌else◌, Option, none,
  some, List, [], ◌∷◌, get_or, set, not,
}

-- `WORD_SIZE`, `BLOCK_SIZE`, `DISK_SIZE` and what fs.h derives from them.
abbrev pub word_size : ℕ
word_size = 32

abbrev pub block_size : ℕ
block_size = 512

abbrev pub disk_size : ℕ
disk_size = 20971520

abbrev pub bitmap_size : ℕ
bitmap_size = disk_size / 512

abbrev pub inodemap_size : ℕ
inodemap_size = disk_size / 512 / 4

abbrev pub inodetable_size : ℕ
inodetable_size = inodemap_size * 4

abbrev pub bitmap_sector : ℕ
bitmap_sector = 2

abbrev pub inodemap_sector : ℕ
inodemap_sector = bitmap_sector + bitmap_size / 512

abbrev pub inodetable_sector : ℕ
inodetable_sector = inodemap_sector + inodemap_size / 512

abbrev pub header_blocks : ℕ
header_blocks =
    (block_size + block_size + bitmap_size + inodemap_size + inodetable_size + block_size) / 512

-- A map is its array of words.
abbrev pub Words : Type 0
Words = List ℕ

unfoldable pub bindex : ℕ → ℕ
bindex b = b / word_size

unfoldable pub boffset : ℕ → ℕ
boffset b = b % word_size

-- `1 << boffset(b)` and its complement in a word.
abbrev pub mask : ℕ → ℕ
mask o = 2 ^ o

abbrev pub mask_complement : ℕ → ℕ
mask_complement o = 2 ^ word_size - 1 - 2 ^ o

-- `set_bit`, `clear_bit` and `get_bit`, on the map that their `mode` selects.
unfoldable pub set_bit : Words → ℕ → Words
unfolding bindex boffset
set_bit ws b = set ws (bindex b) (bit_or (get_or ws (bindex b) 0) (mask (boffset b)))

unfoldable pub clear_bit : Words → ℕ → Words
unfolding bindex boffset
clear_bit ws b = set ws (bindex b) (bit_and (get_or ws (bindex b) 0) (mask_complement (boffset b)))

unfoldable pub get_bit : Words → ℕ → ℕ
unfolding bindex boffset
get_bit ws b = bit_and (get_or ws (bindex b) 0) (mask (boffset b))

-- `get_bit(b) == FREE`
unfoldable pub is_free : Words → ℕ → Bool
unfolding get_bit
is_free ws b = get_bit ws b == 0

-- `for (i = first; i < first + n; i++) set_bit(i);`
unfoldable pub set_run : Words → ℕ → ℕ → Words
set_run ws first zero = ws
set_run ws first (suc n) = set_run (set_bit ws first) (suc first) n

-- The same with `clear_bit`.
unfoldable pub clear_run : Words → ℕ → ℕ → Words
clear_run ws first zero = ws
clear_run ws first (suc n) = clear_run (clear_bit ws first) (suc first) n

-- `clear_all` and `set_all`, for a map of `size` bits.
unfoldable pub clear_all : Words → ℕ → Words
unfolding clear_run
clear_all ws size = clear_run ws 0 size

unfoldable pub set_all : Words → ℕ → Words
unfolding set_run
set_all ws size = set_run ws 0 size
