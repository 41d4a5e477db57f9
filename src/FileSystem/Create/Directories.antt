-- ===== src/FileSystem/Create/Directories.antt =====
-- A new directory.
use tpe_so.Base.{
  ℕ, ◌+◌, ◌*◌, ◌≤◌, ◌<◌, ◌==◌, ◌≡◌, refl, ap, ◌∙◌, ◌⊎◌, true, false, none, some, length, arith,
}
use tpe_so.Text.{Chars, str_len, strcmp}
use tpe_so.FileSystem.Bitmap.{word_size, bitmap_size, inodemap_size}
use tpe_so.FileSystem.Memory.{sector_address, write_disk}
use tpe_so.FileSystem.Memory.Laws.{IsWord, copy-out, read_disk-write_disk}
use tpe_so.FileSystem.Alloc.{Maps, search_free_inode, search_free_blocks}
use tpe_so.FileSystem.State.{directory_type, Inode, init_block, Fs, ok}
use tpe_so.FileSystem.InodeTable.{fs_insert_inode}
use tpe_so.FileSystem.InodeTable.Lookup.{IsInode, inode_address, fs_get_inode-fs_insert_inode}
use tpe_so.FileSystem.Directory.{
  directory_size, entry_count, find_entry, lookup, inode_of, read_directory, write_directory,
  search_directory, insert_loop, insert_entry, insert_directory_entry,
}
use tpe_so.FileSystem.Directory.Entries.{IsName}
use tpe_so.FileSystem.Directory.Lookup.{IsSlot, IsAbsent, lookup-insert_entry}
use tpe_so.FileSystem.Create.{
  Fresh, first_entries, twelve_blocks, directory_stream, fs_init_data_stream, init_numbered,
  creat_numbered, fs_creat_inode, insert_directory,
}
use tpe_so.FileSystem.Create.NewEntries.{
  read_directory-Agree, first_entries-out, parent-found, dots, other-absent,
}
use tpe_so.FileSystem.Create.Apart.{
  IsApart, read_directory-fs_insert_inode, fs_get_inode-insert_entry,
}

-- The blocks of the new directory and those of the old one.
abbrev pub AreApart : ℕ → ℕ → Type 0
AreApart b c =
    (sector_address b + directory_size ≤ sector_address c)
    ⊎ (sector_address c + directory_size ≤ sector_address b)

-- A directory `current` can take a directory of this name: there is a free inode, `number`, with 12
-- blocks from `b` on.
pub record CanInsert (fresh : Fresh) (fs : Fs) (name : Chars) (current : Inode) (number b i : ℕ)
    (maps maps' : Maps) : Type 0 where
  pub fresh_link : IsWord fresh.inode.link
  pub small_usr : IsWord fs.usr_id
  pub small_group : IsWord fs.group
  pub small_parent : IsWord current.number
  pub named : IsName name
  pub found : search_free_inode fs.maps ≡ (some number, maps)
  pub found_blocks : search_free_blocks maps 12 ≡ (some b, maps')
  pub in_map : number < inodemap_size
  pub inode_room : inodemap_size ≤ length maps'.inodemap * word_size
  pub in_disk : b < bitmap_size
  pub slot : IsSlot (read_directory fs current) i
  pub absent : IsAbsent (read_directory fs current) name
  pub apart : IsApart number current
  pub new_apart :
      (inode_address number + 76 ≤ sector_address b)
      ⊎ (sector_address b + directory_size ≤ inode_address number)
  pub blocks_apart : AreApart b (init_block current)

module _ (fresh : Fresh) (fs : Fs) (name : Chars) (current : Inode) (number b i : ℕ)
    (maps maps' : Maps) where
  abbrev node : Inode
  node = record {
    identifier = directory_type;
    number = number;
    uid = fs.usr_id;
    gid = fs.group;
    mode = 777;
    size = 512;
    link = fresh.inode.link;
    direct_blocks = twelve_blocks b;
  }

  abbrev fs1 : Fs
  fs1 = record fs {
    maps = maps';
    disk = write_disk fs.disk b (first_entries number current.number) directory_size;
  }

  abbrev fs2 : Fs
  fs2 = fs_insert_inode fs1 node

  abbrev fs3 : Fs
  fs3 = insert_directory_entry fs2 node current name

  insert_directory-runs :
      CanInsert fresh fs name current number b i maps maps'
      → insert_directory fresh name current fs ≡ ok tt fs3
  unfolding insert_directory fs_creat_inode creat_numbered init_numbered fs_init_data_stream
      directory_stream
  insert_directory-runs c = rw (c.found, c.found_blocks) refl

  node-IsInode : CanInsert fresh fs name current number b i maps maps' → IsInode node
  node-IsInode c =
      let small = c.in_map in
      record {
        blocks = refl;
        words = (
          omega arith,
          (
            omega arith,
            (
              c.small_usr,
              (
                c.small_group,
                (
                  omega arith,
                  (
                    omega arith,
                    (
                      c.fresh_link,
                      (
                        omega arith,
                        (
                          omega arith,
                          (
                            omega arith,
                            (
                              omega arith,
                              (
                                omega arith,
                                (
                                  omega arith,
                                  (
                                    omega arith,
                                    (
                                      omega arith,
                                      (
                                        omega arith,
                                        (omega arith, (omega arith, (omega arith, tt))),
                                      ),
                                    ),
                                  ),
                                ),
                              ),
                            ),
                          ),
                        ),
                      ),
                    ),
                  ),
                ),
              ),
            ),
          ),
        );
      }

  old-read :
      CanInsert fresh fs name current number b i maps maps'
      → read_directory fs2 current ≡ read_directory fs current
  unfolding write_disk
  old-read c =
      let small = c.in_map in
      read_directory-fs_insert_inode fs1 node current (node-IsInode c) (omega arith) c.apart
      ∙ read_directory-Agree fs1 fs current (λ x l u.
        copy-out fs.disk (sector_address b) (first_entries number current.number) 0 directory_size x
          (let apart = c.blocks_apart in ground (arith, apart)))

  written :
      CanInsert fresh fs name current number b i maps maps'
      → init_block node ≡ b
      → read_directory fs1 node ≡ first_entries number current.number
  unfolding read_directory
  written c same = rw same (
      read_disk-write_disk fs.disk b (first_entries number current.number) directory_size
        (λ x h. first_entries-out number current.number x (omega arith)))

  -- The blocks of the new directory are as they were written.
  new-read :
      CanInsert fresh fs name current number b i maps maps'
      → read_directory fs3 node ≡ first_entries number current.number
  unfolding insert_directory_entry insert_entry write_directory write_disk
  new-read c =
      let small = c.in_map in
      let in_disk = c.in_disk in
      let same : init_block node ≡ b = omega arith in
      read_directory-Agree fs3 fs2 node (λ x l u.
        copy-out fs2.disk (sector_address (init_block current))
          (insert_loop (read_directory fs2 current) directory_type number name entry_count 0) 0
          directory_size x
          (let apart = c.blocks_apart in let at = ap sector_address same in ground arith))
      ∙ read_directory-fs_insert_inode fs1 node node (node-IsInode c) (omega arith)
          (let apart = c.new_apart in let at = ap sector_address same in ground arith)
      ∙ written c same

  new-search :
      CanInsert fresh fs name current number b i maps maps'
      → (search_directory fs3 name current ≡ some node)
        × ((s : Chars)
            → IsName s
            → 0 < str_len s
            → strcmp s name ≡ false
            → lookup fs3 s current ≡ lookup fs s current)
  unfolding search_directory insert_directory_entry lookup
  new-search c =
      let small = c.in_map in
      let room = c.inode_room in
      let self : (number == number) ≡ true = ground arith in
      let same = old-read c in
      let (leads, others) =
        lookup-insert_entry directory_type fs2 node current name i c.named (omega arith)
          (omega arith) (rw same c.slot) (rw same c.absent) in
      (
        ap (inode_of fs3) leads
            ∙ fs_get_inode-insert_entry directory_type fs2 node current name number (omega arith)
                c.apart
            ∙ fs_get_inode-fs_insert_inode fs1 node number (node-IsInode c) (omega arith)
                (omega arith) (omega arith)
            ∙ rw self refl,
        (λ s v h other. others s v h other ∙ ap (λ dr. find_entry dr s 95 1) same),
      )

-- `insert_directory` makes a directory of this name: the search for the name gives its inode, every
-- other name of the old directory leads to the number it led to before, and the new directory has the
-- name "..", which leads to the old one's number, and no other that the search finds. (There are a free
-- inode and 12 blocks, the first entry of the old directory that is not in use has never been used,
-- nobody has the name, and the inode, the new blocks and the old ones do not overlap.)
pub insert_directory_lem :
    (fresh : Fresh) (fs : Fs) (name : Chars) (current : Inode) (number b i : ℕ) (maps maps' : Maps)
    → CanInsert fresh fs name current number b i maps maps'
    → (fs' : Fs) × (node : Inode) × (insert_directory fresh name current fs ≡ ok tt fs')
      × (search_directory fs' name current ≡ some node)
      × (node.identifier ≡ directory_type)
      × (node.number ≡ number)
      × ((s : Chars)
          → IsName s
          → 0 < str_len s
          → strcmp s name ≡ false
          → lookup fs' s current ≡ lookup fs s current)
      × (lookup fs' dots node ≡ some current.number)
      × ((s : Chars) → 0 < str_len s → strcmp s dots ≡ false → lookup fs' s node ≡ none)
insert_directory_lem fresh fs name current number b i maps maps' c =
    let (found, others) = new-search fresh fs name current number b i maps maps' c in
    let read = new-read fresh fs name current number b i maps maps' c in
    (
      fs3 fresh fs name current number b i maps maps',
      node fresh fs name current number b i maps maps',
      insert_directory-runs fresh fs name current number b i maps maps' c,
      found,
      refl,
      refl,
      others,
      unfold lookup in
          (ap (λ dr. find_entry dr dots 95 1) read
            ∙ parent-found number current.number c.small_parent),
      unfold lookup in
          (λ s h other.
            ap (λ dr. find_entry dr s 95 1) read ∙ other-absent number current.number s h other),
    )
