-- ===== src/FileSystem/LinkTests.antt =====
-- The theorems on links and new directories at the small disk: a link "a" to the root, and a directory.
use tpe_so.Base.{◌<◌, none, false, ◌≡◌, refl, inl, inr, some, [], ◌∷◌, replicate, arith}
use tpe_so.Text.{Chars, str_len, strcmp}
use tpe_so.FileSystem.Bitmap.{is_free, get_bit, bindex, boffset, set_bit}
use tpe_so.FileSystem.Memory.{sector_address}
use tpe_so.FileSystem.Alloc.{
  Maps, take_run, grant, find_run, search_free_blocks, search_free_inode, take_inode, first_free,
}
use tpe_so.FileSystem.State.{directory_type, link_type, Inode, inode_words, Fs, ok}
use tpe_so.FileSystem.InodeTable.{fs_insert_inode}
use tpe_so.FileSystem.InodeTable.Lookup.{IsInode, fs_get_inode-fs_insert_inode}
use tpe_so.FileSystem.Directory.{lookup, read_directory, search_directory}
use tpe_so.FileSystem.Directory.Entries.{IsName}
use tpe_so.FileSystem.Create.{Fresh}
use tpe_so.FileSystem.Create.NewEntries.{dots}
use tpe_so.FileSystem.Create.Directories.{CanInsert}
use tpe_so.FileSystem.Create.Apart.{read_directory-fs_insert_inode}
use tpe_so.FileSystem.Create.Files.{CanCreate}
use tpe_so.FileSystem.Files.{behind_link}
use tpe_so.FileSystem.Path.{slash, parser_path, start, walk, round, by_status, after_slash}
use tpe_so.FileSystem.Path.Resolve.{IsSegment}
use tpe_so.FileSystem.Tree.{make_dir}
use tpe_so.FileSystem.Tree.MakeDir.{make_dir_lem}
use tpe_so.FileSystem.Links.{links, last_slash}
use tpe_so.FileSystem.Links.Stored.{IsTarget, links_lem}
use tpe_so.FileSystem.Sample.{
  zeros, zeros-length, small_words, sample, sample_root, name_a, name_a-IsName, sample-IsSlot,
  sample-IsAbsent,
}

abbrev blank : Inode
blank = record {
  identifier = 0;
  number = 0;
  uid = 0;
  gid = 0;
  mode = 0;
  size = 0;
  link = 0;
  direct_blocks = replicate 12 0;
}

abbrev fresh : Fresh
fresh = record { inode = blank; pointer = 0 }

root-IsInode : IsInode sample_root
root-IsInode = record { blocks = refl; words = small_words (inode_words sample_root) refl }

-- The disk with the root's inode.
abbrev rooted : Fs
rooted = fs_insert_inode sample sample_root

rooted-read : read_directory rooted sample_root ≡ read_directory sample sample_root
rooted-read =
    read_directory-fs_insert_inode sample sample_root sample_root root-IsInode (omega arith)
      (unfold sector_address in inl (omega arith))

abbrev maps_after : Maps
maps_after = record rooted.maps { inodemap = set_bit rooted.maps.inodemap 1 }

first_number : search_free_inode rooted.maps ≡ (some 1, maps_after)
unfolding search_free_inode take_inode first_free fs_insert_inode is_free get_bit bindex boffset
    set_bit zeros
first_number = refl

rooted-CanCreate : CanCreate fresh rooted name_a 2 1 2 maps_after
unfolding fs_insert_inode
rooted-CanCreate = record {
  fresh_inode = record { blocks = refl; words = small_words (inode_words blank) refl };
  small_mode = omega arith;
  small_usr = omega arith;
  small_group = omega arith;
  named = name_a-IsName;
  found = first_number;
  inode_room = unfold is_free get_bit bindex boffset set_bit zeros in ground arith;
  block_room = omega (arith, zeros-length 1300);
  slot = rw rooted-read sample-IsSlot;
  absent = rw rooted-read sample-IsAbsent;
  apart = unfold sector_address in inl (omega arith);
}

rooted-IsTarget : IsTarget rooted 1 sample_root
rooted-IsTarget = record {
  small = omega arith;
  stored =
      fs_get_inode-fs_insert_inode sample sample_root 0 root-IsInode (omega arith) (omega arith)
        (omega (arith, zeros-length 1299));
  other = omega arith;
  target_apart = unfold sector_address fs_insert_inode in inl (omega arith);
}

links_example :
    (fs' : Fs) × (link : Inode) × (links 1 fresh (slash ∷ 10 ∷ 0 ∷ []) name_a rooted ≡ ok tt fs')
    × (search_directory fs' name_a rooted.current ≡ some link)
    × (link.identifier ≡ link_type)
    × (link.link ≡ 0)
    × (behind_link link fs' ≡ some sample_root)
links_example =
    links_lem fresh rooted name_a 1 2 maps_after sample_root 1 (slash ∷ 10 ∷ 0 ∷ [])
      rooted-CanCreate rooted-IsTarget (unfold str_len in omega arith)
      (unfold parser_path start walk round by_status after_slash str_len fs_insert_inode in refl)
      (unfold last_slash str_len in refl)

-- A directory "a" in the root.
abbrev sample_after : Maps
sample_after = record sample.maps { inodemap = set_bit sample.maps.inodemap 1 }

sample_number : search_free_inode sample.maps ≡ (some 1, sample_after)
unfolding search_free_inode take_inode first_free is_free get_bit bindex boffset set_bit zeros
sample_number = refl

sample_blocks : search_free_blocks sample_after 12 ≡ (some 0, take_run sample_after 0 12)
unfolding search_free_blocks grant find_run is_free get_bit bindex boffset zeros
sample_blocks = refl

sample-CanInsert :
    CanInsert fresh sample name_a sample_root 1 0 2 sample_after (take_run sample_after 0 12)
unfolding set_bit
sample-CanInsert = record {
  fresh_link = omega arith;
  small_usr = omega arith;
  small_group = omega arith;
  small_parent = omega arith;
  named = name_a-IsName;
  found = sample_number;
  found_blocks = sample_blocks;
  in_map = omega arith;
  inode_room = omega (arith, zeros-length 1299);
  in_disk = omega arith;
  slot = sample-IsSlot;
  absent = sample-IsAbsent;
  apart = unfold sector_address in inl (omega arith);
  new_apart = unfold sector_address in inr (omega arith);
  blocks_apart = unfold sector_address in inl (omega arith);
}

a-IsSegment : IsSegment (97 ∷ [])
a-IsSegment = (omega arith, ((omega arith, omega arith, omega arith), tt), omega arith)

make_dir_example :
    (fs' : Fs) × (node : Inode) × (make_dir (λ n. fresh) name_a sample ≡ ok (some node) fs')
    × (search_directory fs' name_a sample_root ≡ some node)
    × (node.identifier ≡ directory_type)
    × (node.number ≡ 1)
    × ((s : Chars)
        → IsName s
        → 0 < str_len s
        → strcmp s name_a ≡ false
        → lookup fs' s sample_root ≡ lookup sample s sample_root)
    × (lookup fs' dots node ≡ some 0)
    × ((s : Chars) → 0 < str_len s → strcmp s dots ≡ false → lookup fs' s node ≡ none)
make_dir_example =
    make_dir_lem (λ n. fresh) sample (97 ∷ []) 1 0 2 sample_after (take_run sample_after 0 12)
      a-IsSegment (omega arith) sample-CanInsert
