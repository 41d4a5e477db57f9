-- ===== src/FileSystem/Links/Stored.antt =====
-- A link in the current directory.
use tpe_so.Base.{
  ℕ, ◌-◌, ◌*◌, ◌<◌, ◌==◌, ◌≡◌, ◌≢◌, refl, sym, ap, ◌∙◌, inl, inr, if◌then◌else◌, true, false,
  Bool-cases, none, some, length, set, arith,
}
use tpe_so.Text.{Chars, str_len}
use tpe_so.FileSystem.Bitmap.{Words, word_size, is_free, set_bit}
use tpe_so.FileSystem.Bitmap.Laws.{set_bit-length}
use tpe_so.FileSystem.Alloc.{Maps, search_free_blocks}
use tpe_so.FileSystem.Alloc.Inodes.{search_free_inode_lem}
use tpe_so.FileSystem.State.{file_type, link_type, Inode, Fs, ok}
use tpe_so.FileSystem.InodeTable.{fs_get_inode, fs_insert_inode}
use tpe_so.FileSystem.InodeTable.Lookup.{
  IsInode, InTable, fs_get_inode-address, fs_get_inode-fs_insert_inode,
}
use tpe_so.FileSystem.Directory.{
  find_entry, lookup, inode_of, write_directory, search_directory, insert_entry, insert_file_entry,
}
use tpe_so.FileSystem.Create.{Fresh}
use tpe_so.FileSystem.Create.Apart.{
  IsApart, read_directory-fs_insert_inode, fs_get_inode-insert_entry,
}
use tpe_so.FileSystem.Create.Streams.{search_free_blocks-keeps}
use tpe_so.FileSystem.Create.Files.{
  CanCreate, created_node, created_node-IsInode, stored_state, named_state, number_small,
  insert_file-runs, named-lookup,
}
use tpe_so.FileSystem.Files.{behind_link}
use tpe_so.FileSystem.Path.{arrived, parser_path}
use tpe_so.FileSystem.Links.{copy_link_inode, copy_link, last_slash, link_here, links_at, links}

-- The inode that the link is to, which is stored and lies outside the current directory.
pub record IsTarget (fs : Fs) (number : ℕ) (target : Inode) : Type 0 where
  pub small : InTable target.number
  pub stored : fs_get_inode fs target.number ≡ some target
  pub other : target.number ≢ number
  pub target_apart : IsApart target.number fs.current

take-length : (ws : Words) (n : ℕ) → length (if is_free ws n then set_bit ws n else ws) ≡ length ws
take-length ws n = elim (Bool-cases (is_free ws n)) [
  | inl e ↦ rw e (set_bit-length ws n)
  | inr e ↦ rw e refl
]

module _ (fresh : Fresh) (fs : Fs) (name : Chars) (number i : ℕ) (maps : Maps)
    (target : Inode) where
  abbrev node : Inode
  node = created_node fresh fs name 2 number i maps

  abbrev fs1 : Fs
  fs1 = named_state fresh fs name 2 number i maps

  abbrev link_node : Inode
  link_node = copy_link_inode target node

  abbrev fs2 : Fs
  fs2 = fs_insert_inode fs1 link_node

  link_node-IsInode :
      CanCreate fresh fs name 2 number i maps → IsTarget fs number target → IsInode link_node
  unfolding copy_link_inode
  link_node-IsInode c t =
      let ok_node = created_node-IsInode fresh fs name 2 number i maps c in
      let w = ok_node.words in
      let small = t.small in
      record {
        blocks = ok_node.blocks;
        words = (
          omega arith,
          (
            w.1.0,
            (w.1.1.0, (w.1.1.1.0, (w.1.1.1.1.0, (w.1.1.1.1.1.0, (omega arith, w.1.1.1.1.1.1.1))))),
          ),
        );
      }

  links-runs :
      (n : ℕ) (path1 : Chars)
      → CanCreate fresh fs name 2 number i maps
      → 0 < str_len path1
      → parser_path fs n (set path1 (str_len path1 - 1) 0) fs.current ≡ arrived (some target)
      → last_slash name (str_len name) ≡ none
      → links n fresh path1 name fs ≡ ok tt fs2
  unfolding links links_at link_here copy_link
  links-runs n path1 c h arrive alone =
      let some_text : (str_len path1 == 0) ≡ false = ground arith in
      rw (some_text, arrive, alone, insert_file-runs fresh fs name 2 number i maps c) refl

  room-kept :
      CanCreate fresh fs name 2 number i maps → number < length fs1.maps.inodemap * word_size
  unfolding insert_file_entry insert_entry write_directory fs_insert_inode
  room-kept c =
      let (small, room) = number_small fresh fs name 2 number i maps c in
      let kept = (search_free_blocks-keeps maps c.block_room).0 in
      let inode_room = c.inode_room in
      let same = take-length (search_free_blocks maps 1).1.inodemap number in
      let same_blocks = ap length kept in omega arith

  -- The inode of the target, before the link is stored.
  target-alloc :
      CanCreate fresh fs name 2 number i maps
      → IsTarget fs number target
      → fs_get_inode (record fs { maps = (search_free_blocks maps 1).1 }) target.number
        ≡ some target
  target-alloc c t =
      let kept = (search_free_blocks-keeps maps c.block_room).0 in
      let taken = (rw c.found at (search_free_inode_lem fs.maps c.inode_room)).1.2 target.number in
      let apart : (number == target.number) ≡ false = let h = t.other in ground arith in
      fs_get_inode-address (record fs { maps = (search_free_blocks maps 1).1 }) target.number
        t.small
      ∙ rw (kept, taken, apart) (sym (fs_get_inode-address fs target.number t.small))
      ∙ t.stored

  target-kept :
      CanCreate fresh fs name 2 number i maps
      → IsTarget fs number target
      → fs_get_inode fs1 target.number ≡ some target
  unfolding insert_file_entry
  target-kept c t =
      let (small, room) = number_small fresh fs name 2 number i maps c in
      let kept = (search_free_blocks-keeps maps c.block_room).0 in
      let inode_room = c.inode_room in
      let apart : (number == target.number) ≡ false = let h = t.other in ground arith in
      fs_get_inode-insert_entry file_type (stored_state fresh fs name 2 number i maps) node
        fs.current name target.number t.small t.target_apart
      ∙ fs_get_inode-fs_insert_inode (record fs { maps = (search_free_blocks maps 1).1 }) node
          target.number (created_node-IsInode fresh fs name 2 number i maps c) (omega arith) t.small
          (rw kept (omega arith))
      ∙ rw apart (target-alloc c t)

  link-behind :
      CanCreate fresh fs name 2 number i maps
      → IsTarget fs number target
      → behind_link link_node fs2 ≡ some target
  unfolding behind_link copy_link_inode
  link-behind c t =
      let (small, room) = number_small fresh fs name 2 number i maps c in
      let apart : (number == target.number) ≡ false = let h = t.other in ground arith in
      fs_get_inode-fs_insert_inode fs1 link_node target.number (link_node-IsInode c t) (omega arith)
        t.small (room-kept c)
      ∙ rw apart (target-kept c t)

  link-search :
      CanCreate fresh fs name 2 number i maps
      → IsTarget fs number target
      → search_directory fs2 name fs.current ≡ some link_node
  unfolding search_directory lookup inode_of copy_link_inode
  link-search c t =
      let (small, room) = number_small fresh fs name 2 number i maps c in
      let self : (number == number) ≡ true = ground arith in
      let same =
        read_directory-fs_insert_inode fs1 link_node fs.current (link_node-IsInode c t)
          (omega arith) c.apart in
      ap (inode_of fs2)
        (ap (λ dr. find_entry dr name 95 1) same ∙ (named-lookup fresh fs name 2 number i maps c).0)
      ∙ fs_get_inode-fs_insert_inode fs1 link_node number (link_node-IsInode c t) (omega arith)
          (omega arith) (room-kept c)
      ∙ rw self refl

-- `links` makes a link of this name in the current directory: the name leads to an inode that is a
-- link to the number of the inode at the path, and `do_open` behind it finds that inode. (The path leads
-- to an inode that is stored, the name has no slash, the directory can take a file of this name, and the
-- new inode is another one. Both inodes lie outside the directory.)
pub links_lem :
    (fresh : Fresh) (fs : Fs) (name : Chars) (number i : ℕ) (maps : Maps) (target : Inode) (n : ℕ)
    (path1 : Chars)
    → CanCreate fresh fs name 2 number i maps
    → IsTarget fs number target
    → 0 < str_len path1
    → parser_path fs n (set path1 (str_len path1 - 1) 0) fs.current ≡ arrived (some target)
    → last_slash name (str_len name) ≡ none
    → (fs' : Fs) × (link : Inode) × (links n fresh path1 name fs ≡ ok tt fs')
      × (search_directory fs' name fs.current ≡ some link)
      × (link.identifier ≡ link_type)
      × (link.link ≡ target.number)
      × (behind_link link fs' ≡ some target)
links_lem fresh fs name number i maps target n path1 c t h arrive alone = (
  fs2 fresh fs name number i maps target,
  link_node fresh fs name number i maps target,
  links-runs fresh fs name number i maps target n path1 c h arrive alone,
  link-search fresh fs name number i maps target c t,
  unfold copy_link_inode in refl,
  unfold copy_link_inode in refl,
  link-behind fresh fs name number i maps target c t,
)
