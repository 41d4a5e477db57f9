-- ===== src/FileSystem/Sample.antt =====
-- A small disk: an empty root, and a root with the file "a".
use tpe_so.Base.{
  ℕ, zero, suc, ◌+◌, ◌*◌, ◌≤◌, ◌<◌, ltb, pos, ◌≡◌, refl, ap, ◌∙◌, inl, true, Bool, ◌&&◌, some, List,
  [], ◌∷◌, replicate, length, length-replicate, All, arith,
}
use tpe_so.Text.{Chars, str_len, strcmp}
use tpe_so.FileSystem.Bitmap.{Words}
use tpe_so.FileSystem.Memory.{
  cleared, sector_address, write_disk, word_at, put_word, put_words, chars_at, put_chars,
}
use tpe_so.FileSystem.Memory.Laws.{read_disk-write_disk, IsWord}
use tpe_so.FileSystem.Alloc.{Maps}
use tpe_so.FileSystem.Descriptors.{own_count, unused, Descriptors, entry}
use tpe_so.FileSystem.Descriptors.Lookup.{IsTable}
use tpe_so.FileSystem.Descriptors.Search.{IsTidy}
use tpe_so.FileSystem.State.{file_type, directory_type, Inode, inode_words, Fs}
use tpe_so.FileSystem.InodeTable.{fs_insert_inode}
use tpe_so.FileSystem.InodeTable.Lookup.{IsInode, fs_get_inode-fs_insert_inode}
use tpe_so.FileSystem.Directory.{
  entry_size, directory_size, type_at, name_at, matches, fill_entry, insert_entry, inode_of,
  read_directory, search_directory,
}
use tpe_so.FileSystem.Directory.Entries.{IsClean, IsName}
use tpe_so.FileSystem.Directory.Lookup.{
  IsSlot, IsAbsent, matches-clean, lookup-insert_entry, read_directory-insert,
}
use tpe_so.FileSystem.Create.{first_entries}
use tpe_so.FileSystem.Create.NewEntries.{first_entries-out}
use tpe_so.FileSystem.Create.Apart.{read_directory-fs_insert_inode, fs_get_inode-insert_entry}

unfoldable pub zeros : ℕ → Words
zeros n = replicate n 0

pub zeros-length : (n : ℕ) → length (zeros n) ≡ n
unfolding zeros
zeros-length n = length-replicate n 0

-- An empty file system; number 0, the root, is taken.
abbrev pub sample_maps : Maps
sample_maps = record {
  bitmap = zeros 1300;
  inodemap = 1 ∷ zeros 1299;
  free_blocks = pos 40960;
  used_blocks = pos 0;
  stored = zeros 1300;
}

abbrev pub sample_root : Inode
sample_root = record {
  identifier = directory_type;
  number = 0;
  uid = 1;
  gid = 1;
  mode = 777;
  size = 512;
  link = 0;
  direct_blocks = 200 ∷ 201 ∷ 202 ∷ 203 ∷ 204 ∷ 205 ∷ 206 ∷ 207 ∷ 208 ∷ 209 ∷ 210 ∷ 211 ∷ [];
}

-- A table with no open file, and nothing but zeros behind it.
abbrev pub closed : Descriptors
closed = record { own = replicate own_count unused; behind = λ i. unused }

closed-unused : (i : ℕ) → i < own_count → entry closed i ≡ unused
unfolding entry
closed-unused zero l = refl
closed-unused (suc zero) l = refl
closed-unused (suc (suc zero)) l = refl
closed-unused (suc (suc (suc zero))) l = refl
closed-unused (suc (suc (suc (suc zero)))) l = refl
closed-unused (suc (suc (suc (suc (suc zero))))) l = refl
closed-unused (suc (suc (suc (suc (suc (suc zero)))))) l = refl
closed-unused (suc (suc (suc (suc (suc (suc (suc zero))))))) l = refl
closed-unused (suc (suc (suc (suc (suc (suc (suc (suc i)))))))) l = absurd (omega arith)

pub closed-IsTable : IsTable closed
closed-IsTable = record { entries = refl; numbered = λ i l. rw (closed-unused i l) (inl refl) }

pub closed-IsTidy : IsTidy closed
closed-IsTidy i l z = rw (closed-unused i l) refl

abbrev pub sample : Fs
sample = record {
  maps = sample_maps;
  disk = write_disk cleared 200 (first_entries 0 0) directory_size;
  table = closed;
  root = sample_root;
  current = sample_root;
  usr_id = 1;
  group = 1;
}

-- The directory of the root.
pub sample-read : read_directory sample sample_root ≡ first_entries 0 0
unfolding read_directory
sample-read =
    read_disk-write_disk cleared 200 (first_entries 0 0) directory_size
      (λ x h. first_entries-out 0 0 x (omega arith))

pub sample-IsClean : (i : ℕ) → 2 ≤ i → IsClean (first_entries 0 0) i
sample-IsClean i h j l = first_entries-out 0 0 (entry_size * i + 12 + j) (omega arith)

used_types : (j : ℕ) → j < 2 → type_at (first_entries 0 0) j ≡ directory_type
unfolding type_at word_at first_entries put_words put_word put_chars
used_types zero h = refl
used_types (suc zero) h = refl
used_types (suc (suc j)) h = absurd (omega arith)

pub sample-IsSlot : IsSlot (read_directory sample sample_root) 2
sample-IsSlot = rw sample-read (record {
  behind = omega arith;
  inside = omega arith;
  empty = unfold type_at word_at first_entries put_words put_word put_chars in refl;
  first = λ j h e. absurd (omega (arith, used_types j h, e));
  clean = sample-IsClean 2 (omega arith);
})

-- The name "a".
abbrev pub name_a : Chars
name_a = 97 ∷ 0 ∷ []

pub name_a-IsName : IsName name_a
unfolding str_len
name_a-IsName = record { ends = omega arith; short = omega arith }

pub sample-IsAbsent : IsAbsent (read_directory sample sample_root) name_a
sample-IsAbsent zero p u = absurd (omega arith)
sample-IsAbsent (suc zero) p u = rw sample-read (
    unfold matches name_at chars_at strcmp str_len first_entries put_words put_word put_chars in
    refl)
sample-IsAbsent (suc (suc j)) p u = rw sample-read (
    matches-clean (first_entries 0 0) (suc (suc j)) name_a
      (sample-IsClean (suc (suc j)) (omega arith)) (unfold str_len in omega arith))

-- Words by computation.
abbrev are_small : List ℕ → Bool
are_small [] = true
are_small (w ∷ ws) = ltb w 4294967296 && are_small ws

pub small_words : (ws : List ℕ) → are_small ws ≡ true → All IsWord ws
small_words [] e = tt
small_words (w ∷ ws) e = (ground (arith, e), small_words ws (ground (arith, e)))

-- The inode of a file with 3 bytes in block 300.
abbrev pub file_5 : Inode
file_5 = record {
  identifier = file_type;
  number = 5;
  uid = 1;
  gid = 1;
  mode = 777;
  size = 3;
  link = 0;
  direct_blocks = 300 ∷ 1 ∷ 0 ∷ 0 ∷ 0 ∷ 0 ∷ 0 ∷ 0 ∷ 0 ∷ 0 ∷ 0 ∷ 0 ∷ [];
}

pub file_5-IsInode : IsInode file_5
file_5-IsInode = record { blocks = refl; words = small_words (inode_words file_5) refl }

-- The disk with the file, its entry and its inode.
abbrev pub with_file : Fs
with_file = insert_entry file_type (fs_insert_inode sample file_5) file_5 sample_root name_a

abbrev inserted : Fs
inserted = fs_insert_inode sample file_5

inserted-read : read_directory inserted sample_root ≡ read_directory sample sample_root
inserted-read =
    read_directory-fs_insert_inode sample file_5 sample_root file_5-IsInode (omega arith)
      (unfold sector_address in inl (omega arith))

pub with_file-search : search_directory with_file name_a sample_root ≡ some file_5
unfolding search_directory inode_of
with_file-search =
    let found =
      lookup-insert_entry file_type inserted file_5 sample_root name_a 2 name_a-IsName (omega arith)
        (omega arith) (rw inserted-read sample-IsSlot) (rw inserted-read sample-IsAbsent) in
    ap (inode_of with_file) found.0
    ∙ fs_get_inode-insert_entry file_type inserted file_5 sample_root name_a 5 (omega arith)
        (unfold sector_address in inl (omega arith))
    ∙ fs_get_inode-fs_insert_inode sample file_5 5 file_5-IsInode (omega arith) (omega arith)
        (omega (arith, zeros-length 1299))

pub with_file-read :
    read_directory with_file sample_root ≡ fill_entry (first_entries 0 0) 2 file_type 5 name_a
with_file-read =
    read_directory-insert file_type inserted file_5 sample_root name_a 2 name_a-IsName
      (rw inserted-read sample-IsSlot)
    ∙ ap (λ dr. fill_entry dr 2 file_type 5 name_a) (inserted-read ∙ sample-read)
