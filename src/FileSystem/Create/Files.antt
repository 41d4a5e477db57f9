-- ===== src/FileSystem/Create/Files.antt =====
-- A new file in the current directory.
use tpe_so.Base.{
  ℤ, ℕ, ◌*◌, ◌≤◌, ◌<◌, ◌==◌, pos, minus_one, ◌≡◌, refl, ap, ◌∙◌, true, false, some, length, arith,
}
use tpe_so.Text.{Chars, str_len, strcmp}
use tpe_so.FileSystem.Bitmap.{word_size, inodemap_size}
use tpe_so.FileSystem.Memory.Laws.{IsWord}
use tpe_so.FileSystem.Alloc.{Maps, search_free_inode, search_free_blocks}
use tpe_so.FileSystem.Alloc.Blocks.{HasRoom}
use tpe_so.FileSystem.Alloc.Inodes.{search_free_inode_lem}
use tpe_so.FileSystem.Descriptors.{Descriptors, insert_fd}
use tpe_so.FileSystem.State.{file_type, Inode, Fs, ok, and_then}
use tpe_so.FileSystem.InodeTable.{fs_get_inode, fs_insert_inode}
use tpe_so.FileSystem.InodeTable.Lookup.{IsInode, fs_get_inode-fs_insert_inode}
use tpe_so.FileSystem.Directory.{
  find_entry, lookup, read_directory, write_directory, insert_entry, insert_file_entry,
  search_directory, inode_of,
}
use tpe_so.FileSystem.Directory.Entries.{IsName}
use tpe_so.FileSystem.Directory.Lookup.{IsSlot, IsAbsent, lookup-insert_entry}
use tpe_so.FileSystem.Create.{
  Fresh, with_table, insert_unless, add_file, open_created, open_number, insert_file, do_creat,
}
use tpe_so.FileSystem.Create.Streams.{
  file_node, fs_creat_inode-file, search_free_blocks-keeps, file_node-IsInode,
}
use tpe_so.FileSystem.Create.Apart.{
  IsApart, search_directory-absent, read_directory-fs_insert_inode, fs_get_inode-insert_entry,
}

-- The current directory can take a file of this name: there is a free inode, `number`, whose bytes lie
-- outside the directory, the entry `i` is the first one that is not in use, and nobody has the name.
pub record CanCreate (fresh : Fresh) (fs : Fs) (name : Chars) (mode number i : ℕ) (maps : Maps)
    : Type 0 where
  pub fresh_inode : IsInode fresh.inode
  pub small_mode : IsWord mode
  pub small_usr : IsWord fs.usr_id
  pub small_group : IsWord fs.group
  pub named : IsName name
  pub found : search_free_inode fs.maps ≡ (some number, maps)
  pub inode_room : inodemap_size ≤ length fs.maps.inodemap * word_size
  pub block_room : HasRoom maps 1
  pub slot : IsSlot (read_directory fs fs.current) i
  pub absent : IsAbsent (read_directory fs fs.current) name
  pub apart : IsApart number fs.current

-- The file is in the directory under its name, and its inode on disk; all other names are as before.
pub record IsCreated (fs : Fs) (name : Chars) (node : Inode) (fs' : Fs) : Type 0 where
  pub same_current : fs'.current ≡ fs.current
  pub leads : lookup fs' name fs.current ≡ some node.number
  pub stored : search_directory fs' name fs.current ≡ some node
  pub others :
      (s : Chars)
      → IsName s
      → 0 < str_len s
      → strcmp s name ≡ false
      → lookup fs' s fs.current ≡ lookup fs s fs.current

module _ (fresh : Fresh) (fs : Fs) (name : Chars) (mode number i : ℕ) (maps : Maps) where
  -- The new inode, the state when it is stored, and the one when it has its entry.
  abbrev pub created_node : Inode
  created_node = file_node fresh fs mode number (search_free_blocks maps 1).0

  abbrev pub stored_state : Fs
  stored_state = fs_insert_inode (record fs { maps = (search_free_blocks maps 1).1 }) created_node

  abbrev pub named_state : Fs
  named_state = insert_file_entry stored_state created_node fs.current name

  -- The state at the end, with the new table.
  abbrev pub created_state : Descriptors → Fs
  created_state table = record named_state { table = table }

  pub insert_file-runs :
      CanCreate fresh fs name mode number i maps
      → insert_file fresh name mode fs.current fs ≡ ok (some created_node) named_state
  unfolding insert_file insert_unless add_file
  insert_file-runs c =
      ap (λ r. insert_unless fresh name mode fs.current r fs)
        (search_directory-absent fs name fs.current c.absent)
      ∙ ap (λ r. and_then r (add_file name fs.current))
          (fs_creat_inode-file fresh fs mode number maps (some fs.current) c.found)

  do_creat-runs :
      (fd : ℤ) (table : Descriptors)
      → insert_fd fs.table (pos number) ≡ some (fd, table)
      → CanCreate fresh fs name mode number i maps
      → do_creat fresh name mode fs ≡ ok fd (created_state table)
  unfolding do_creat open_created open_number fs_insert_inode insert_file_entry insert_entry
      write_directory
  do_creat-runs fd table free c =
      ap (λ r. and_then r open_created) (insert_file-runs c) ∙ ap (with_table named_state) free

  pub number_small :
      CanCreate fresh fs name mode number i maps
      → (number < inodemap_size) × (length maps.inodemap ≡ length fs.maps.inodemap)
  number_small c =
      let (first, out) = rw c.found at (search_free_inode_lem fs.maps c.inode_room) in
      (first.1, out.1)

  pub created_node-IsInode : CanCreate fresh fs name mode number i maps → IsInode created_node
  created_node-IsInode c =
      let small = (number_small c).0 in
      file_node-IsInode fresh fs mode number (search_free_blocks maps 1).0 c.fresh_inode
        c.small_mode (omega arith) c.small_usr c.small_group
        (search_free_blocks-keeps maps c.block_room).1

  pub stored-read :
      CanCreate fresh fs name mode number i maps
      → read_directory stored_state fs.current ≡ read_directory fs fs.current
  unfolding read_directory
  stored-read c =
      let small = (number_small c).0 in
      read_directory-fs_insert_inode (record fs { maps = (search_free_blocks maps 1).1 })
        created_node fs.current (created_node-IsInode c) (omega arith) c.apart

  stored-get :
      CanCreate fresh fs name mode number i maps
      → fs_get_inode stored_state number ≡ some created_node
  stored-get c =
      let (small, room) = number_small c in
      let fs1 = record fs { maps = (search_free_blocks maps 1).1 } in
      let kept = (search_free_blocks-keeps maps c.block_room).0 in
      let inode_room = c.inode_room in
      let self : (number == number) ≡ true = ground arith in
      fs_get_inode-fs_insert_inode fs1 created_node number (created_node-IsInode c) (omega arith)
        (omega arith) (rw kept (omega arith))
      ∙ rw self refl

  pub named-get :
      CanCreate fresh fs name mode number i maps
      → fs_get_inode named_state number ≡ some created_node
  unfolding insert_file_entry
  named-get c =
      let small = (number_small c).0 in
      fs_get_inode-insert_entry file_type stored_state created_node fs.current name number
        (omega arith) c.apart
      ∙ stored-get c

  pub named-lookup :
      CanCreate fresh fs name mode number i maps
      → (lookup named_state name fs.current ≡ some number)
        × ((s : Chars)
            → IsName s
            → 0 < str_len s
            → strcmp s name ≡ false
            → lookup named_state s fs.current ≡ lookup stored_state s fs.current)
  unfolding insert_file_entry
  named-lookup c =
      let small = (number_small c).0 in
      let same = stored-read c in
      lookup-insert_entry file_type stored_state created_node fs.current name i c.named
        (omega arith) (omega arith) (rw same c.slot) (rw same c.absent)

  created :
      (table : Descriptors)
      → CanCreate fresh fs name mode number i maps
      → IsCreated fs name created_node (created_state table)
  unfolding search_directory inode_of lookup read_directory fs_get_inode
  created table c =
      let (leads, others) = named-lookup c in
      record {
        same_current =
            unfold insert_file_entry insert_entry write_directory fs_insert_inode in refl;
        leads = leads;
        stored = ap (inode_of (created_state table)) leads ∙ named-get c;
        others =
            λ s v h other. others s v h other ∙ ap (λ dr. find_entry dr s 95 1) (stored-read c);
      }

-- `do_creat` of a name that the current directory does not have makes an empty file of this mode
-- under the name, owned by the current user: the search for the name gives its inode, and every
-- other name of at least one and fewer than 52 characters leads to the number it led to before. The
-- result and the table are those that `insert_fd` gives for the new inode. (The name ends and has
-- fewer than 52 characters. There is a free inode, whose bytes lie outside the directory and whose
-- mode, user and group are words of 32 bits, as are those of the memory that `malloc` hands out for
-- it. The first entry of the current directory that is not in use is behind the first entry and has
-- never been used, so that no longer name's end is left in it. The maps have room for their bits,
-- and `insert_fd` does not write behind its table.)
pub do_creat_lem :
    (fresh : Fresh) (fs : Fs) (name : Chars) (mode number i : ℕ) (maps : Maps) (fd : ℤ)
    (table : Descriptors)
    → CanCreate fresh fs name mode number i maps
    → insert_fd fs.table (pos number) ≡ some (fd, table)
    → (node : Inode) × (fs' : Fs) × (do_creat fresh name mode fs ≡ ok fd fs')
      × (node.identifier ≡ file_type)
      × (node.size ≡ 0)
      × (node.mode ≡ mode)
      × (node.uid ≡ fs.usr_id)
      × (node.number ≡ number)
      × (fs'.table ≡ table)
      × IsCreated fs name node fs'
do_creat_lem fresh fs name mode number i maps fd table c free = (
  created_node fresh fs name mode number i maps,
  created_state fresh fs name mode number i maps table,
  do_creat-runs fresh fs name mode number i maps fd table free c,
  refl,
  refl,
  refl,
  refl,
  refl,
  refl,
  created fresh fs name mode number i maps table c,
)

-- `do_creat` of a name that is in use fails and changes nothing.
pub do_creat_used :
    (fresh : Fresh) (fs : Fs) (name : Chars) (mode : ℕ) (node : Inode)
    → search_directory fs name fs.current ≡ some node
    → do_creat fresh name mode fs ≡ ok minus_one fs
unfolding do_creat insert_file insert_unless open_created
do_creat_used fresh fs name mode node e =
    ap (λ r. and_then (insert_unless fresh name mode fs.current r fs) open_created) e
