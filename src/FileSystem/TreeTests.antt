-- ===== src/FileSystem/TreeTests.antt =====
-- The theorems on the inodes, directories and files at the small disk.
use tpe_so.Base.{
  ℕ, suc, ◌+◌, ◌<◌, ◌==◌, pos, ◌≡◌, ◌≢◌, refl, ◌∙◌, inl, true, false, if◌then◌else◌, none, some, [],
  ◌∷◌, length, arith,
}
use tpe_so.Text.{Chars, str_len, strcmp}
use tpe_so.FileSystem.Bitmap.{is_free, get_bit, bindex, boffset, set_bit}
use tpe_so.FileSystem.Memory.{sector_address}
use tpe_so.FileSystem.Alloc.{Maps, search_free_inode, take_inode, first_free}
use tpe_so.FileSystem.Descriptors.{Entry, entry, set_entry, free_from, insert_at, insert_fd}
use tpe_so.FileSystem.Descriptors.Lookup.{with_entry}
use tpe_so.FileSystem.Sample.{closed}
use tpe_so.FileSystem.State.{file_type, Inode, inode_words, Fs, ok}
use tpe_so.FileSystem.InodeTable.{fs_get_inode, fs_insert_inode}
use tpe_so.FileSystem.InodeTable.Lookup.{IsInode, fs_get_inode-fs_insert_inode}
use tpe_so.FileSystem.Directory.{
  entry_count, matches, inode_number_at, read_directory, write_directory, lookup, insert_entry,
}
use tpe_so.FileSystem.Directory.Entries.{IsName, inode_number_at-fill, matches-fill_ne}
use tpe_so.FileSystem.Directory.Lookup.{lookup-insert_entry}
use tpe_so.FileSystem.Create.{Fresh, first_entries, do_creat}
use tpe_so.FileSystem.Create.Files.{CanCreate, IsCreated, do_creat_lem}
use tpe_so.FileSystem.Path.{slash, arrived, crashed, unfinished, parser_path}
use tpe_so.FileSystem.Path.Resolve.{IsSegment, origin, path_of, resolve, parser_path_lem}
use tpe_so.FileSystem.Path.Endless.{parser_path_two_slashes}
use tpe_so.FileSystem.Path.Bounds.{parser_path_bounded}
use tpe_so.FileSystem.Tree.{done}
use tpe_so.FileSystem.Remove.{rm_dir}
use tpe_so.FileSystem.Remove.Entries.{IsEntry}
use tpe_so.FileSystem.Remove.Files.{CanRemove, rm_dir_file}
use tpe_so.FileSystem.Sample.{
  sample-read, zeros, zeros-length, small_words, file_5, file_5-IsInode, with_file,
  with_file-search, with_file-read, sample, sample_maps, sample_root, name_a, name_a-IsName,
  sample-IsSlot, sample-IsAbsent,
}

abbrev blank : Inode
blank = record {
  identifier = 0;
  number = 0;
  uid = 0;
  gid = 0;
  mode = 0;
  size = 0;
  link = 0;
  direct_blocks = 0 ∷ 0 ∷ 0 ∷ 0 ∷ 0 ∷ 0 ∷ 0 ∷ 0 ∷ 0 ∷ 0 ∷ 0 ∷ 0 ∷ [];
}

abbrev fresh : Fresh
fresh = record { inode = blank; pointer = 0 }

blank-IsInode : IsInode blank
blank-IsInode = record { blocks = refl; words = small_words (inode_words blank) refl }

abbrev maps_after : Maps
maps_after = record sample_maps { inodemap = set_bit sample_maps.inodemap 1 }

first_number : search_free_inode sample_maps ≡ (some 1, maps_after)
unfolding search_free_inode take_inode first_free is_free get_bit bindex boffset zeros
first_number = refl

sample-CanCreate : CanCreate fresh sample name_a 777 1 2 maps_after
sample-CanCreate = record {
  fresh_inode = blank-IsInode;
  small_mode = omega arith;
  small_usr = omega arith;
  small_group = omega arith;
  named = name_a-IsName;
  found = first_number;
  inode_room = omega (arith, zeros-length 1299);
  block_room = omega (arith, zeros-length 1300);
  slot = sample-IsSlot;
  absent = sample-IsAbsent;
  apart = unfold sector_address in inl (omega arith);
}

-- The first descriptor that is handed out.
abbrev first_entry : Entry
first_entry = record { fd = pos 3; inode = pos 1 }

first_opened : insert_fd closed (pos 1) ≡ some (pos 3, with_entry closed 3 first_entry)
unfolding insert_fd insert_at free_from set_entry entry
first_opened = refl

-- A file "a" in the empty root.
do_creat_example :
    (node : Inode) × (fs' : Fs) × (do_creat fresh name_a 777 sample ≡ ok (pos 3) fs')
    × (node.identifier ≡ file_type)
    × (node.size ≡ 0)
    × (node.mode ≡ 777)
    × (node.uid ≡ 1)
    × (node.number ≡ 1)
    × (fs'.table ≡ with_entry closed 3 first_entry)
    × IsCreated sample name_a node fs'
do_creat_example =
    do_creat_lem fresh sample name_a 777 1 2 maps_after (pos 3) (with_entry closed 3 first_entry)
      sample-CanCreate first_opened

fs_get_inode_example :
    fs_get_inode (fs_insert_inode sample file_5) 5
    ≡ (if 5 == 5 then some file_5 else fs_get_inode sample 5)
fs_get_inode_example =
    fs_get_inode-fs_insert_inode sample file_5 5 file_5-IsInode (omega arith) (omega arith)
      (omega (arith, zeros-length 1299))

insert_entry_example :
    let fs' = insert_entry file_type sample file_5 sample_root name_a in
    (lookup fs' name_a sample_root ≡ some 5)
    × ((s : Chars)
        → IsName s
        → 0 < str_len s
        → strcmp s name_a ≡ false
        → lookup fs' s sample_root ≡ lookup sample s sample_root)
insert_entry_example =
    lookup-insert_entry file_type sample file_5 sample_root name_a 2 name_a-IsName (omega arith)
      (omega arith) sample-IsSlot sample-IsAbsent

-- The path "/a", and the path "a//".
a-IsSegment : IsSegment (97 ∷ [])
a-IsSegment = (omega arith, ((ground arith, ground arith, ground arith), tt), omega arith)

parser_path_example :
    parser_path with_file
      (length (path_of true (97 ∷ []) []) + 0)
      (path_of true (97 ∷ []) [])
      sample_root
    ≡ arrived (resolve with_file (97 ∷ []) [] (origin true with_file sample_root))
parser_path_example = parser_path_lem true with_file (97 ∷ []) [] 0 sample_root a-IsSegment tt tt

parser_path_two_slashes_example :
    parser_path with_file (1 + 100) (97 ∷ slash ∷ slash ∷ 0 ∷ []) sample_root ≡ unfinished
parser_path_two_slashes_example =
    parser_path_two_slashes with_file 100 97 [] (0 ∷ []) sample_root file_5 a-IsSegment
      with_file-search

-- The removal of the file.
entry_number : inode_number_at (read_directory with_file sample_root) 2 ≡ 5
entry_number = rw with_file-read (
    inode_number_at-fill (first_entries 0 0) 2 file_type 5 name_a name_a-IsName (omega arith)
      (omega arith))

with_file-IsEntry : IsEntry (read_directory with_file sample_root) 5 2
with_file-IsEntry = record {
  behind = omega arith;
  inside = omega arith;
  same = entry_number;
  first = λ j l h. absurd (omega arith);
}

with_file-alone :
    (j : ℕ)
    → 0 < j
    → j < entry_count
    → j ≢ 2
    → matches (read_directory with_file sample_root) j name_a ≡ false
with_file-alone j p u n = rw with_file-read (
    matches-fill_ne (first_entries 0 0) 2 file_type 5 name_a name_a-IsName j name_a n
      name_a-IsName.short
    ∙ rw sample-read at (sample-IsAbsent j p u))

with_file-CanRemove : CanRemove with_file (97 ∷ []) file_5 2
unfolding insert_entry write_directory fs_insert_inode
with_file-CanRemove = record {
  segment = a-IsSegment;
  short = omega arith;
  found = with_file-search;
  allowed = omega arith;
  no_directory = ground arith;
  listed = with_file-IsEntry;
  alone = with_file-alone;
}

rm_dir_file_example :
    (fs' : Fs) × (rm_dir (suc (length {A = ℕ} (97 ∷ [])) + 0) name_a with_file ≡ ok done fs')
    × (lookup fs' name_a with_file.current ≡ none)
    × ((t : Chars)
        → 0 < str_len t
        → str_len t < 52
        → matches (read_directory with_file with_file.current) 2 t ≡ false
        → lookup fs' t with_file.current ≡ lookup with_file t with_file.current)
rm_dir_file_example = rm_dir_file with_file (97 ∷ []) file_5 2 0 with_file-CanRemove

-- The path "b/a", where "b" is not there.
parser_path_bounded_example :
    parser_path with_file 10 (98 ∷ slash ∷ 97 ∷ 0 ∷ []) sample_root ≢ crashed
parser_path_bounded_example =
    parser_path_bounded with_file 10 98 (slash ∷ 97 ∷ 0 ∷ []) sample_root (omega arith)
      (omega arith) (ground arith, (ground arith, (ground arith, (ground arith, tt))))
