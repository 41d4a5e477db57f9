-- ===== src/FileSystem/Create/Apart.antt =====
-- Inodes and directories that do not share bytes of the disk.
use tpe_so.Base.{
  ℕ, zero, suc, ◌+◌, ◌≤◌, ◌<◌, ◌≡◌, refl, sym, ap, ◌∙◌, ◌⊎◌, inl, inr, funext, leb, ltb, ◌&&◌,
  Bool-cases, none, arith,
}
use tpe_so.Text.{Chars}
use tpe_so.FileSystem.Memory.{Mem, copy, sector_address, read_disk, write_disk}
use tpe_so.FileSystem.Memory.Laws.{copy-out, words_at-Agree}
use tpe_so.FileSystem.State.{Inode, init_block, Fs}
use tpe_so.FileSystem.InodeTable.{inode_length, fs_get_inode, fs_insert_inode}
use tpe_so.FileSystem.InodeTable.Lookup.{
  IsInode, InTable, inode_address, fs_get_inode-address, insert-out,
}
use tpe_so.FileSystem.Directory.{
  directory_size, entry_count, find_entry, lookup, read_directory, write_directory, insert_loop,
  insert_entry, search_directory, inode_of,
}
use tpe_so.FileSystem.Directory.Lookup.{IsAbsent}

-- The bytes of an inode lie outside the blocks of a directory.
abbrev pub IsApart : ℕ → Inode → Type 0
IsApart number directory =
    (inode_address number + 76 ≤ sector_address (init_block directory))
    ⊎ (sector_address (init_block directory) + directory_size ≤ inode_address number)

find_entry-absent :
    (dr : Mem) (name : Chars) (n k : ℕ)
    → IsAbsent dr name
    → 0 < k
    → k + n ≤ entry_count
    → find_entry dr name n k ≡ none
unfolding find_entry
find_entry-absent dr name zero k gone p u = refl
find_entry-absent dr name (suc n) k gone p u =
    rw (gone k p (omega arith))
      (find_entry-absent dr name n (suc k) gone (omega arith) (omega arith))

pub search_directory-absent :
    (fs : Fs) (name : Chars) (directory : Inode)
    → IsAbsent (read_directory fs directory) name
    → search_directory fs name directory ≡ none
unfolding search_directory lookup inode_of
search_directory-absent fs name directory gone =
    ap (inode_of fs)
      (find_entry-absent (read_directory fs directory) name 95 1 gone (omega arith) (omega arith))

-- An inode that is stored apart from a directory leaves it as it is.
pub read_directory-fs_insert_inode :
    (fs : Fs) (node directory : Inode)
    → IsInode node
    → InTable node.number
    → IsApart node.number directory
    → read_directory (fs_insert_inode fs node) directory ≡ read_directory fs directory
unfolding read_directory read_disk copy
read_directory-fs_insert_inode fs node directory i h apart = funext λ x.
    elim (Bool-cases (leb 0 x && ltb x (0 + directory_size))) [
      | inl e ↦ rw e (insert-out fs node _ i h (ground (arith, e, apart)))
      | inr e ↦ rw e refl
    ]

-- An entry that is inserted apart from an inode leaves it as it is.
pub fs_get_inode-insert_entry :
    (type : ℕ) (fs : Fs) (node directory : Inode) (name : Chars) (n : ℕ)
    → InTable n
    → IsApart n directory
    → fs_get_inode (insert_entry type fs node directory name) n ≡ fs_get_inode fs n
unfolding insert_entry write_directory write_disk
fs_get_inode-insert_entry type fs node directory name n h apart =
    let fs1 = insert_entry type fs node directory name in
    let same = words_at-Agree fs1.disk fs.disk (inode_address n) inode_length (λ x l u.
      copy-out fs.disk _
        (insert_loop (read_directory fs directory) type node.number name entry_count 0) 0
        directory_size x (ground (arith, apart))) in
    fs_get_inode-address fs1 n h ∙ rw same refl ∙ sym (fs_get_inode-address fs n h)
