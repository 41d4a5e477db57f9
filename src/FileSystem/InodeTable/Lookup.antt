-- ===== src/FileSystem/InodeTable/Lookup.antt =====
-- The table on disk as a map from numbers to inodes.
use tpe_so.Base.{
  ℕ, ◌+◌, ◌*◌, ◌/◌, ◌%◌, ◌≤◌, ◌<◌, ◌==◌, ==_iff, ◌≡◌, refl, sym, ap, ◌∙◌, ◌⊎◌, inl, inr,
  if◌then◌else◌, false, Bool-cases, none, some, All, length, arith,
}
use tpe_so.FileSystem.Bitmap.{word_size, block_size, inodetable_sector, is_free}
use tpe_so.FileSystem.Bitmap.Laws.{is_free-set_bit}
use tpe_so.FileSystem.Memory.{cleared, sector_address, read_disk, write_disk, words_at, put_words}
use tpe_so.FileSystem.Memory.Laws.{
  IsWord, words_at-Agree, write_back-out, words_at-put_words, words_at-copy,
}
use tpe_so.FileSystem.State.{Inode, inode_words, of_words, Fs}
use tpe_so.FileSystem.InodeTable.{
  inode_size, inode_length, inode_at, put_inode, fs_get_inode, fs_insert_inode,
}

-- An inode that the code can hold.
pub record IsInode (i : Inode) : Type 0 where
  pub blocks : length i.direct_blocks ≡ 12
  pub words : All IsWord (inode_words i)

-- Where an inode is on disk.
abbrev pub inode_address : ℕ → ℕ
inode_address number = (inodetable_sector + number / 4 + 1) * block_size + inode_size * (number % 4)

-- A number whose sector the driver can name.
abbrev pub InTable : ℕ → Type 0
InTable number = number < 4000000000

table_address :
    (number : ℕ)
    → InTable number
    → sector_address (inodetable_sector + number / 4)
      ≡ (inodetable_sector + number / 4 + 1) * block_size
unfolding sector_address
table_address number h = omega arith

-- `fs_get_inode` reads the words at the inode's address.
pub fs_get_inode-address :
    (fs : Fs) (number : ℕ)
    → InTable number
    → fs_get_inode fs number ≡ (
        if is_free fs.maps.inodemap number
        then none
        else some (of_words (words_at fs.disk (inode_address number) inode_length)))
unfolding fs_get_inode inode_at read_disk
fs_get_inode-address fs number h =
    let sector = inodetable_sector + number / 4 in
    let same =
      words_at-copy cleared 0 fs.disk (sector_address sector) block_size (inode_size * (number % 4))
        (inode_address number) inode_length (omega arith) (omega arith)
        (omega (arith, table_address number h)) in
    rw same refl

-- `fs_insert_inode` changes the disk at the inode's address only.
pub insert-out :
    (fs : Fs) (node : Inode) (x : ℕ)
    → IsInode node
    → InTable node.number
    → (x < inode_address node.number) ⊎ (inode_address node.number + 76 ≤ x)
    → (fs_insert_inode fs node).disk x ≡ fs.disk x
unfolding fs_insert_inode write_disk put_inode read_disk
insert-out fs node x i h out =
    let sector = inodetable_sector + node.number / 4 in
    let address = table_address node.number h in
    write_back-out fs.disk (sector_address sector) block_size (inode_size * (node.number % 4))
      (inode_words node) x (omega (arith, i.blocks)) (ground (arith, address, i.blocks))

pub words_at-insert :
    (fs : Fs) (node : Inode)
    → IsInode node
    → InTable node.number
    → words_at (fs_insert_inode fs node).disk (inode_address node.number) inode_length
      ≡ inode_words node
unfolding fs_insert_inode write_disk put_inode
words_at-insert fs node i h =
    let sector = inodetable_sector + node.number / 4 in
    let a = inode_size * (node.number % 4) in
    let recieve = read_disk fs.disk sector block_size in
    words_at-copy fs.disk (sector_address sector) (put_words recieve a (inode_words node)) 0
      block_size (inode_address node.number) a inode_length
      (omega (arith, table_address node.number h)) (omega (arith, table_address node.number h))
      (omega (arith, table_address node.number h))
    ∙ words_at-put_words recieve a (inode_words node) inode_length i.words (omega (arith, i.blocks))

-- An inode is its words.
of_words-inode_words : (node : Inode) → of_words (inode_words node) ≡ node
of_words-inode_words node = refl

-- `fs_insert_inode` takes its number in the map.
inodemap-insert :
    (fs : Fs) (node : Inode) (n : ℕ)
    → node.number < length fs.maps.inodemap * word_size
    → is_free (fs_insert_inode fs node).maps.inodemap n
      ≡ (if node.number == n then false else is_free fs.maps.inodemap n)
unfolding fs_insert_inode
inodemap-insert fs node n room = elim (Bool-cases (is_free fs.maps.inodemap node.number)) [
  | inl e ↦ rw e (is_free-set_bit fs.maps.inodemap node.number n room)
  | inr e ↦ rw e (elim (Bool-cases (node.number == n)) [
    | inl same ↦
        rw same (let k = (==_iff node.number n).0 same in ap (is_free fs.maps.inodemap) (sym k) ∙ e)
    | inr other ↦ rw other refl
  ])
]

-- `fs_insert_inode` stores the inode: `fs_get_inode` gives it back under its number, and under every
-- other number what it gave before. (The inode is made of 19 words of 32 bits, its number lies in the
-- map, and the numbers are such that the driver can name their sectors.)
pub fs_get_inode-fs_insert_inode :
    (fs : Fs) (node : Inode) (n : ℕ)
    → IsInode node
    → InTable node.number
    → InTable n
    → node.number < length fs.maps.inodemap * word_size
    → fs_get_inode (fs_insert_inode fs node) n
      ≡ (if node.number == n then some node else fs_get_inode fs n)
fs_get_inode-fs_insert_inode fs node n i h k room =
    let fs1 = fs_insert_inode fs node in
    fs_get_inode-address fs1 n k
    ∙ rw (inodemap-insert fs node n room) (elim (Bool-cases (node.number == n)) [
      | inl e ↦
          let same = (==_iff node.number n).0 e in rw (e, ← same, words_at-insert fs node i h) refl
      | inr e ↦
          let apart =
            words_at-Agree fs1.disk fs.disk (inode_address n) inode_length
              (λ x l u. insert-out fs node x i h (ground (arith, e))) in
          rw (e, apart) (sym (fs_get_inode-address fs n k))
    ])
