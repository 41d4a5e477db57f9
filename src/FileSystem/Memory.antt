-- ===== src/FileSystem/Memory.antt =====
-- Bytes at addresses: the disk, and the buffers that the file system copies it to and from
-- (Chinux/fileSystem/newFs.c, `write_disk` and `read_disk`). An `int` is its 32 bits, lowest byte first.
pub mod Laws
use tpe_so.Base.{
  ℕ, zero, suc, ◌+◌, ◌-◌, ◌*◌, ◌/◌, ◌%◌, ◌^◌, ◌==◌, leb, ltb, ◌&&◌, if◌then◌else◌, List, [], ◌∷◌,
}
use tpe_so.FileSystem.Bitmap.{block_size}

abbrev pub Mem : Type 0
Mem = ℕ → ℕ

-- What `calloc` gives.
abbrev pub cleared : Mem
cleared x = 0

-- `memcpy(to + p, from + q, n)`
unfoldable pub copy : Mem → ℕ → Mem → ℕ → ℕ → Mem
copy to p from q n x = if leb p x && ltb x (p + n) then from (q + (x - p)) else to x

-- The 32 bits of -1.
abbrev pub minus_one_word : ℕ
minus_one_word = 4294967295

-- The address of a sector, which the driver counts from 1 on.
unfoldable pub sector_address : ℕ → ℕ
sector_address s = (s + 1) % 2 ^ 32 * block_size

-- `read_disk`, to a buffer of its own: what it holds behind the `n` bytes is not used.
unfoldable pub read_disk : Mem → ℕ → ℕ → Mem
unfolding copy sector_address
read_disk disk s n = copy cleared 0 disk (sector_address s) n

-- `write_disk`
unfoldable pub write_disk : Mem → ℕ → Mem → ℕ → Mem
unfolding copy sector_address
write_disk disk s msg n = copy disk (sector_address s) msg 0 n

-- An `int` at an address, and an assignment to it.
unfoldable pub word_at : Mem → ℕ → ℕ
word_at m a = m a + 256 * (m (a + 1) + 256 * (m (a + 2) + 256 * m (a + 3)))

unfoldable pub put_word : Mem → ℕ → ℕ → Mem
put_word m a w x =
    if x == a
    then w % 256
    else if x == a + 1
    then w / 256 % 256
    else if x == a + 2
    then w / 65536 % 256
    else if x == a + 3
    then w / 16777216 % 256
    else m x

unfoldable pub words_at : Mem → ℕ → ℕ → List ℕ
words_at m a zero = []
words_at m a (suc n) = word_at m a ∷ words_at m (a + 4) n

unfoldable pub put_words : Mem → ℕ → List ℕ → Mem
put_words m a [] = m
put_words m a (w ∷ ws) = put_word (put_words m (a + 4) ws) a w

-- The characters from an address on.
unfoldable pub chars_at : Mem → ℕ → ℕ → List ℕ
chars_at m a zero = []
chars_at m a (suc n) = m a ∷ chars_at m (a + 1) n

-- `memcpy` from a text that is not in a buffer.
unfoldable pub put_chars : Mem → ℕ → List ℕ → ℕ → Mem
put_chars m a s zero x = m x
put_chars m a [] (suc n) x = m x
put_chars m a (c ∷ s) (suc n) x = if x == a then c else put_chars m (a + 1) s n x
