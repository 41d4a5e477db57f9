-- ===== src/FileSystem/Files/Content.antt =====
-- What a file holds after `write_inode`.
use tpe_so.Base.{
  ℕ, ◌+◌, ◌-◌, ◌*◌, ◌/◌, ◌≤◌, ◌<◌, ◌==◌, ltb, ◌≡◌, refl, ap, ◌∙◌, ◌⊎◌, inl, inr, if◌then◌else◌,
  false, Bool-cases, length, set, length-set, get_or-set_self, get_or-set_ne, arith,
}
use tpe_so.FileSystem.Bitmap.{block_size}
use tpe_so.FileSystem.Memory.{
  Mem, copy, cleared, minus_one_word, sector_address, read_disk, write_disk,
}
use tpe_so.FileSystem.Memory.Laws.{copy-in, copy-out}
use tpe_so.FileSystem.Alloc.{Maps, free_used_blocks}
use tpe_so.FileSystem.State.{Inode, init_block, block_count, Fs}
use tpe_so.FileSystem.InodeTable.{fs_insert_inode}
use tpe_so.FileSystem.InodeTable.Lookup.{IsInode, InTable, inode_address, insert-out}
use tpe_so.FileSystem.Files.{place, joined, moved, write_at, write_inode, read_inode}

-- The bytes of an inode lie outside these blocks.
abbrev pub OutOfBlocks : ℕ → ℕ → ℕ → Type 0
OutOfBlocks number block quantity =
    (inode_address number + 76 ≤ sector_address block)
    ⊎ (sector_address block + quantity * block_size ≤ inode_address number)

-- A file that can take `n` bytes more: `block` is where it goes, and `quantity` the blocks it has then.
pub record CanWrite (fs : Fs) (node : Inode) (n block quantity : ℕ) (maps : Maps) : Type 0 where
  pub found : place fs.maps node n ≡ (block, quantity, maps)
  pub granted : (block == minus_one_word) ≡ false
  pub fits : node.size ≤ block_count node * block_size
  pub words : IsInode (moved node block quantity n)
  pub number : InTable node.number
  pub apart : OutOfBlocks node.number block quantity

-- There is a block for every byte.
pub place-room :
    (maps : Maps) (node : Inode) (n block quantity : ℕ) (maps' : Maps)
    → place maps node n ≡ (block, quantity, maps')
    → node.size + n < quantity * block_size
unfolding place
place-room maps node n block quantity maps' e =
    let required = (node.size + n) / block_size + 1 in
    let room : node.size + n < required * block_size = omega arith in
    elim (Bool-cases (ltb (block_count node) required)) [
      | inl h ↦ let same : required ≡ quantity = ap (λ r. r.1) (rw h at e) in omega arith
      | inr h ↦
          let same : block_count node ≡ quantity = ap (λ r. r.1) (rw h at e) in
          ground (arith, h, same, room)
    ]

pub moved-blocks :
    (node : Inode) (block quantity n : ℕ)
    → length node.direct_blocks ≡ 12
    → (init_block (moved node block quantity n) ≡ block)
      × (block_count (moved node block quantity n) ≡ quantity)
unfolding moved
moved-blocks node block quantity n twelve =
    let l = length-set node.direct_blocks 0 block in
    (
      get_or-set_ne (set node.direct_blocks 0 block) quantity 0 (omega arith)
          ∙ get_or-set_self node.direct_blocks 0 block 0 (omega arith),
      get_or-set_self (set node.direct_blocks 0 block) 1 quantity 0 (omega arith),
    )

twelve_before :
    (node : Inode) (block quantity n : ℕ)
    → IsInode (moved node block quantity n)
    → length node.direct_blocks ≡ 12
unfolding moved
twelve_before node block quantity n i =
    let l = length-set (set node.direct_blocks 0 block) 1 quantity in
    let k = length-set node.direct_blocks 0 block in let twelve = i.blocks in omega arith

-- `write_inode` when there is a place.
pub write_inode-runs :
    (heap : Mem) (node : Inode) (buf : Mem) (n : ℕ) (fs : Fs) (block quantity : ℕ) (maps : Maps)
    → CanWrite fs node n block quantity maps
    → write_inode heap node buf n fs
      ≡ write_at heap node buf n block quantity (record fs { maps = maps })
unfolding write_inode
write_inode-runs heap node buf n fs block quantity maps c = rw (c.found, c.granted) refl

module _ (heap : Mem) (node : Inode) (buf : Mem) (n : ℕ) (fs : Fs) (block quantity : ℕ)
    (maps : Maps) where
  abbrev pub written_node : Inode
  written_node = moved node block quantity n

  abbrev placed_state : Fs
  placed_state = record fs {
    maps = free_used_blocks maps (init_block node) (block_count node);
    disk = write_disk fs.disk block (joined heap fs node buf n) (quantity * block_size);
  }

  abbrev pub written_state : Fs
  written_state = fs_insert_inode placed_state written_node

  pub write_inode-state :
      CanWrite fs node n block quantity maps
      → write_inode heap node buf n fs ≡ (written_node, written_state)
  unfolding write_at
  write_inode-state c = write_inode-runs heap node buf n fs block quantity maps c

  -- The bytes of the blocks are those of `insert_buffer`.
  written-disk :
      CanWrite fs node n block quantity maps
      → (x : ℕ) → x < quantity * block_size
      → written_state.disk (sector_address block + x) ≡ joined heap fs node buf n x
  unfolding write_disk moved
  written-disk c x u =
      insert-out placed_state written_node (sector_address block + x) c.words c.number
        (let apart = c.apart in ground (arith, apart))
      ∙ copy-in fs.disk (sector_address block) (joined heap fs node buf n) 0 (quantity * block_size)
          (sector_address block + x) (omega arith) (omega arith)
      ∙ ap (joined heap fs node buf n) (omega arith)

-- Where `read_inode` reads within the file's blocks, it gives the bytes of the disk.
pub read_inode-disk :
    (heap : Mem) (fs : Fs) (node : Inode) (out : Mem) (m x : ℕ)
    → x < m
    → x < block_count node * block_size
    → read_inode heap fs node out m x ≡ fs.disk (sector_address (init_block node) + x)
unfolding read_inode read_disk
read_inode-disk heap fs node out m x u v =
    let size = block_count node * block_size in
    let blocks = read_disk fs.disk (init_block node) size in
    copy-in out 0 (copy heap 0 blocks 0 size) 0 m x (omega arith) (omega arith)
    ∙ copy-in heap 0 blocks 0 size (0 + (x - 0)) (omega arith) (omega arith)
    ∙ copy-in cleared 0 fs.disk (sector_address (init_block node)) size (0 + (0 + (x - 0) - 0))
        (omega arith) (omega arith)
    ∙ ap fs.disk (omega arith)

-- `insert_buffer`: the old bytes, and behind them the new ones.
joined-content :
    (heap : Mem) (fs : Fs) (node : Inode) (buf : Mem) (n x : ℕ)
    → node.size ≤ block_count node * block_size
    → x < node.size + n
    → joined heap fs node buf n x ≡ (
        if ltb x node.size
        then fs.disk (sector_address (init_block node) + x)
        else buf (x - node.size))
unfolding joined read_disk
joined-content heap fs node buf n x fits u =
    let size = block_count node * block_size in
    let blocks = read_disk fs.disk (init_block node) size in
    elim (Bool-cases (ltb x node.size)) [
      | inl e ↦
          let l : x < node.size = ground (arith, e) in
          rw e (
            copy-out (copy heap 0 blocks 0 size) node.size buf 0 n x (inl l)
            ∙ copy-in heap 0 blocks 0 size x (omega arith) (omega arith)
            ∙ copy-in cleared 0 fs.disk (sector_address (init_block node)) size (0 + (x - 0))
                (omega arith) (omega arith)
            ∙ ap fs.disk (omega arith))
      | inr e ↦ rw e (
          copy-in (copy heap 0 blocks 0 size) node.size buf 0 n x (ground (arith, e)) u
          ∙ ap buf (omega arith))
    ]

-- The bytes of a file that `write_inode` has written, in terms of the disk before.
pub write_inode-disk :
    (heap : Mem) (node : Inode) (buf : Mem) (n : ℕ) (fs : Fs) (block quantity : ℕ) (maps : Maps)
    → CanWrite fs node n block quantity maps
    → (heap' out : Mem) (m x : ℕ) → x < m
    → x < node.size + n
    → read_inode heap'
        (written_state heap node buf n fs block quantity maps)
        (written_node heap node buf n fs block quantity maps)
        out
        m
        x
      ≡ (if ltb x node.size
          then fs.disk (sector_address (init_block node) + x)
          else buf (x - node.size))
write_inode-disk heap node buf n fs block quantity maps c heap' out m x u v =
    let (same_block, same_count) =
      moved-blocks node block quantity n (twelve_before node block quantity n c.words) in
    let room = place-room fs.maps node n block quantity maps c.found in
    let fs1 = written_state heap node buf n fs block quantity maps in
    read_inode-disk heap' fs1 (written_node heap node buf n fs block quantity maps) out m x u
      (rw same_count (omega arith))
    ∙ ap (λ b. fs1.disk (sector_address b + x)) same_block
    ∙ written-disk heap node buf n fs block quantity maps c x (omega arith)
    ∙ joined-content heap fs node buf n x c.fits v
