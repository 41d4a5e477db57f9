-- ===== src/FileSystem/Files/ReadBack.antt =====
-- Writing to an open file, and reading it.
use tpe_so.Base.{
  ℕ, ◌+◌, ◌*◌, ◌/◌, ◌≤◌, ◌<◌, ◌==◌, ltb, ℤ, pos, ◌≡◌, refl, sym, ap, ◌∙◌, inl, inr, true, false,
  Bool-cases, Option, none, some, length, arith,
}
use tpe_so.FileSystem.Bitmap.{word_size, block_size, bitmap_size, is_free}
use tpe_so.FileSystem.Bitmap.Laws.{in_run, is_free-clear_run}
use tpe_so.FileSystem.Memory.{Mem, minus_one_word}
use tpe_so.FileSystem.Alloc.{Maps, is_full, grant, find_run, search_free_blocks, free_used_blocks}
use tpe_so.FileSystem.Descriptors.{search_for_fd}
use tpe_so.FileSystem.State.{Inode, init_block, block_count, Fs, ok}
use tpe_so.FileSystem.InodeTable.{fs_get_inode, fs_insert_inode}
use tpe_so.FileSystem.InodeTable.Lookup.{fs_get_inode-fs_insert_inode}
use tpe_so.FileSystem.Files.{
  place, moved, write_at, write_inode, read_inode, inode_of_number, write_number, do_write,
  read_number, do_read,
}
use tpe_so.FileSystem.Files.Content.{
  CanWrite, written_node, written_state, write_inode-state, moved-blocks, read_inode-disk,
  write_inode-disk,
}

-- What `memory` holds for `n` bytes is what the file held, with what `buf` holds behind it.
pub record IsAppended (memory : Mem) (size : ℕ) (old buf : Mem) (n : ℕ) : Type 0 where
  pub before : (x : ℕ) → x < size → memory x ≡ old x
  pub behind : (x : ℕ) → x < n → memory (size + x) ≡ buf x

-- The file is open under the number, and its inode is the one of its number.
pub record IsOpen (fs : Fs) (fd : ℤ) (node : Inode) : Type 0 where
  pub number : search_for_fd fs.table fd ≡ pos node.number
  pub stored : fs_get_inode fs node.number ≡ some node
  pub room : node.number < length fs.maps.inodemap * word_size

do_write-open :
    (heap : Mem) (fd : ℤ) (buf : Mem) (n : ℕ) (fs : Fs) (node : Inode)
    → IsOpen fs fd node
    → do_write heap fd buf n fs ≡ ok (pos n) (write_inode heap node buf n fs).1
unfolding do_write inode_of_number write_number
do_write-open heap fd buf n fs node o =
    rw (o.number) (ap (λ r. write_number heap buf n r fs) o.stored)

do_read-open :
    (heap : Mem) (fd : ℤ) (out : Mem) (fs : Fs) (node : Inode)
    → search_for_fd fs.table fd ≡ pos node.number
    → fs_get_inode fs node.number ≡ some node
    → do_read heap fd out none fs ≡ ok (pos node.size, read_inode heap fs node out node.size) fs
unfolding do_read inode_of_number read_number
do_read-open heap fd out fs node e s = rw e (ap (λ r. read_number heap out none r fs) s)

grant-inodes :
    (m : Maps) (quantity : ℕ) (r : Option ℕ) → (grant m quantity r).1.inodemap ≡ m.inodemap
unfolding grant
grant-inodes m quantity none = refl
grant-inodes m quantity (some c) = refl

search-inodes : (m : Maps) (quantity : ℕ) → (search_free_blocks m quantity).1.inodemap ≡ m.inodemap
unfolding search_free_blocks
search-inodes m quantity = elim (Bool-cases (is_full m)) [
  | inl e ↦ rw e refl
  | inr e ↦ rw e (grant-inodes m quantity (find_run m.bitmap quantity bitmap_size 0 0 none))
]

place-inodes :
    (maps : Maps) (node : Inode) (n block quantity : ℕ) (maps' : Maps)
    → place maps node n ≡ (block, quantity, maps')
    → maps'.inodemap ≡ maps.inodemap
unfolding place
place-inodes maps node n block quantity maps' e =
    let required = (node.size + n) / block_size + 1 in
    elim (Bool-cases (ltb (block_count node) required)) [
      | inl h ↦ sym (ap (λ r. r.2.inodemap) (rw h at e)) ∙ search-inodes maps required
      | inr h ↦ sym (ap (λ r. r.2.inodemap) (rw h at e))
    ]

module _ (heap : Mem) (fd : ℤ) (buf : Mem) (n : ℕ) (fs : Fs) (node : Inode) (block quantity : ℕ)
    (maps : Maps) where
  abbrev node' : Inode
  node' = written_node heap node buf n fs block quantity maps

  abbrev fs' : Fs
  fs' = written_state heap node buf n fs block quantity maps

  stored_again :
      IsOpen fs fd node
      → CanWrite fs node n block quantity maps
      → fs_get_inode fs' node.number ≡ some node'
  unfolding moved free_used_blocks
  stored_again o c =
      let room = o.room in
      let self : (node.number == node.number) ≡ true = ground arith in
      fs_get_inode-fs_insert_inode _ node' node.number c.words c.number c.number
        (rw (place-inodes fs.maps node n block quantity maps c.found) room)
      ∙ rw self refl

  number_again : IsOpen fs fd node → search_for_fd fs'.table fd ≡ pos node.number
  unfolding fs_insert_inode
  number_again o = o.number

  contents :
      IsOpen fs fd node
      → CanWrite fs node n block quantity maps
      → (heap' out : Mem)
      → IsAppended
          (read_inode heap' fs' node' out node'.size)
          node.size
          (read_inode heap fs node out node.size)
          buf
          n
  unfolding moved
  contents o c heap' out = record {
    before = λ x h.
        let l : ltb x node.size ≡ true = ground arith in
        let fits = c.fits in
        write_inode-disk heap node buf n fs block quantity maps c heap' out (node.size + n) x
          (omega arith) (omega arith)
        ∙ rw l refl
        ∙ sym (read_inode-disk heap fs node out node.size x h (omega arith));
    behind = λ x h.
        let l : ltb (node.size + x) node.size ≡ false = ground arith in
        write_inode-disk heap node buf n fs block quantity maps c heap' out (node.size + n)
          (node.size + x) (omega arith) (omega arith)
        ∙ rw l (ap buf (omega arith));
  }

-- What `do_write` has written to an open file is read again: its result is the number of bytes, and a
-- `do_read` of the whole file that follows gives the bytes the file held before and then the new ones.
-- (There is a place for the file, its new inode is made of words of 32 bits, its size does not exceed
-- its blocks, and its inode does not lie in the blocks that are written.)
pub do_read-do_write :
    (heap : Mem) (fd : ℤ) (buf : Mem) (n : ℕ) (fs : Fs) (node : Inode) (block quantity : ℕ)
    (maps : Maps) (heap' out : Mem)
    → IsOpen fs fd node
    → CanWrite fs node n block quantity maps
    → (fs' : Fs) × (old memory : Mem) × (do_read heap fd out none fs ≡ ok (pos node.size, old) fs)
      × (do_write heap fd buf n fs ≡ ok (pos n) fs')
      × (do_read heap' fd out none fs' ≡ ok (pos (node.size + n), memory) fs')
      × IsAppended memory node.size old buf n
do_read-do_write heap fd buf n fs node block quantity maps heap' out o c = (
  fs' heap fd buf n fs node block quantity maps,
  read_inode heap fs node out node.size,
  read_inode heap' (fs' heap fd buf n fs node block quantity maps)
      (node' heap fd buf n fs node block quantity maps) out (node.size + n),
  do_read-open heap fd out fs node o.number o.stored,
  do_write-open heap fd buf n fs node o
      ∙ ap (λ r. ok (pos n) r.1) (write_inode-state heap node buf n fs block quantity maps c),
  unfold moved in
      do_read-open heap' fd out (fs' heap fd buf n fs node block quantity maps)
        (node' heap fd buf n fs node block quantity maps)
        (number_again heap fd buf n fs node block quantity maps o)
        (stored_again heap fd buf n fs node block quantity maps o c),
  unfold moved in contents heap fd buf n fs node block quantity maps o c heap' out,
)

place-in_place :
    (maps : Maps) (node : Inode) (n : ℕ)
    → (node.size + n) / block_size + 1 ≤ block_count node
    → place maps node n ≡ (init_block node, block_count node, maps)
unfolding place
place-in_place maps node n small =
    let fits : ltb (block_count node) ((node.size + n) / block_size + 1) ≡ false = ground arith in
    rw fits refl

-- A write to a file whose blocks have room for the new bytes leaves the file in these blocks, but
-- marks every one of them free, so that the next file may get them. (The blocks lie in the map, and
-- the first of them is not the word of -1.)
pub write_inode_in_place :
    (heap : Mem) (node : Inode) (buf : Mem) (n : ℕ) (fs : Fs) (b : ℕ)
    → length node.direct_blocks ≡ 12
    → (node.size + n) / block_size + 1 ≤ block_count node
    → (init_block node == minus_one_word) ≡ false
    → init_block node + block_count node ≤ length fs.maps.bitmap * word_size
    → in_run (init_block node) (block_count node) b ≡ true
    → let (node', fs') = write_inode heap node buf n fs in
      (init_block node' ≡ init_block node)
      × (block_count node' ≡ block_count node)
      × (is_free fs'.maps.bitmap b ≡ true)
write_inode_in_place heap node buf n fs b twelve small real room inside =
    let runs : write_inode heap node buf n fs
        ≡ write_at heap node buf n (init_block node) (block_count node) fs =
      unfold write_inode in rw (place-in_place fs.maps node n small, real) refl in
    let (same_block, same_count) =
      moved-blocks node (init_block node) (block_count node) n twelve in
    let freed = is_free-clear_run fs.maps.bitmap (init_block node) (block_count node) b room in
    rw runs (
      unfold write_at in same_block,
      unfold write_at in same_count,
      unfold write_at free_used_blocks fs_insert_inode in (freed ∙ rw inside refl),
    )
