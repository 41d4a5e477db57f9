-- ===== src/FileSystem/State.antt =====
-- The globals of the file system and the structs of fs.h that they hold (Chinux/include/fs.h).
use tpe_so.Base.{ℕ, List, ◌∷◌, drop, get_or}
use tpe_so.FileSystem.Memory.{Mem}
use tpe_so.FileSystem.Alloc.{Maps}
use tpe_so.FileSystem.Descriptors.{Descriptors}

-- `identifier`
abbrev pub unknown_type : ℕ
unknown_type = 0

abbrev pub file_type : ℕ
file_type = 1

abbrev pub directory_type : ℕ
directory_type = 2

abbrev pub link_type : ℕ
link_type = 8

abbrev pub fifo_type : ℕ
fifo_type = 9

-- `iNode`, with the 12 words of its `dataStream`. The 52 bytes that fill it up to 128 are left out.
pub record Inode : Type 0 where
  pub identifier : ℕ
  pub number : ℕ
  pub uid : ℕ
  pub gid : ℕ
  pub mode : ℕ
  pub size : ℕ
  pub link : ℕ
  pub direct_blocks : List ℕ

abbrev pub init_block : Inode → ℕ
init_block i = get_or i.direct_blocks 0 0

abbrev pub block_count : Inode → ℕ
block_count i = get_or i.direct_blocks 1 0

-- The words of an inode in memory, and the inode of such words.
abbrev pub inode_words : Inode → List ℕ
inode_words i = i.identifier ∷ i.number ∷ i.uid ∷ i.gid ∷ i.mode ∷ i.size ∷ i.link ∷ i.direct_blocks

abbrev pub of_words : List ℕ → Inode
of_words ws = record {
  identifier = get_or ws 0 0;
  number = get_or ws 1 0;
  uid = get_or ws 2 0;
  gid = get_or ws 3 0;
  mode = get_or ws 4 0;
  size = get_or ws 5 0;
  link = get_or ws 6 0;
  direct_blocks = drop 7 ws;
}

-- `bitmap`, `inodemap` and the counters; the disk without the sectors of the bit map, which are
-- `maps.stored`; `fd_table`, `superblock->root`, `current` and `currentUsr`.
pub record Fs : Type 0 where
  pub maps : Maps
  pub disk : Mem
  pub table : Descriptors
  pub root : Inode
  pub current : Inode
  pub usr_id : ℕ
  pub group : ℕ

-- A call that returns, one that goes on with what C leaves undefined (a null pointer or a variable that
-- was never assigned), or one that does not end within the fuel.
pub data Run (A : Type 0) : Type 0 where
  ok : A → Fs → Run A
  fault : Run A
  out_of_fuel : Run A

abbrev pub Cmd : Type 0 → Type 0
Cmd A = Fs → Run A

abbrev pub pure : {A : Type 0} → A → Cmd A
pure = ok

module _ {A B : Type 0} where
  abbrev pub and_then : Run A → (A → Cmd B) → Run B
  and_then (ok a fs) k = k a fs
  and_then fault k = fault
  and_then out_of_fuel k = out_of_fuel

  infixl 5 ◌>>=◌ ◌>>◌
  abbrev pub ◌>>=◌ : Cmd A → (A → Cmd B) → Cmd B
  m >>= k = λ fs. and_then (m fs) k

  abbrev pub ◌>>◌ : Cmd A → Cmd B → Cmd B
  m >> n = m >>= λ _. n
