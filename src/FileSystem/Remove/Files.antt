-- ===== src/FileSystem/Remove/Files.antt =====
-- The removal of a file from the current directory.
use tpe_so.Base.{
  ℕ, suc, ◌+◌, ◌≤◌, ◌<◌, ◌==◌, ltb, ◌≡◌, ◌≢◌, refl, ap, ◌∙◌, inr, false, none, some, [], ◌∷◌, ◌++◌,
  length, length-append, arith,
}
use tpe_so.Text.{Chars, str_len}
use tpe_so.FileSystem.State.{directory_type, Inode, Fs, ok}
use tpe_so.FileSystem.Directory.{
  entry_count, matches, find_entry, lookup, read_directory, write_directory, search_directory,
}
use tpe_so.FileSystem.Directory.Lookup.{read_directory-write_directory, read_directory-out}
use tpe_so.FileSystem.Path.{arrived, parser_path}
use tpe_so.FileSystem.Path.Segments.{str_len-plain}
use tpe_so.FileSystem.Path.Resolve.{IsSegment, parser_path_lem}
use tpe_so.FileSystem.Tree.{done, at_path}
use tpe_so.FileSystem.Remove.{removable, forget_entry, unlink_current, remove_at, rm_dir}
use tpe_so.FileSystem.Remove.Entries.{
  IsEntry, forgotten, forgotten-out, forget_entry-finds, find_entry-forgotten, find_entry-gone,
}

-- The file of this name, in the entry `i` of the current directory alone, may be removed.
pub record CanRemove (fs : Fs) (s : Chars) (node : Inode) (i : ℕ) : Type 0 where
  pub segment : IsSegment s
  pub short : length s < 52
  pub found : search_directory fs (s ++ (0 ∷ [])) fs.current ≡ some node
  pub allowed : fs.group ≤ node.gid
  pub no_directory : node.identifier ≢ directory_type
  pub listed : IsEntry (read_directory fs fs.current) node.number i
  pub alone :
      (j : ℕ)
      → 0 < j
      → j < entry_count
      → j ≢ i
      → matches (read_directory fs fs.current) j (s ++ (0 ∷ [])) ≡ false

module _ (fs : Fs) (s : Chars) (node : Inode) (i : ℕ) where
  removed_state : Fs
  removed_state =
      write_directory fs fs.current
        (forget_entry node.number (read_directory fs fs.current) removable 2)

  rm_dir-runs :
      (n : ℕ)
      → CanRemove fs s node i
      → rm_dir (suc (length s) + n) (s ++ (0 ∷ [])) fs ≡ ok done removed_state
  unfolding rm_dir remove_at unlink_current removed_state
  rm_dir-runs n c =
      let permitted : ltb node.gid fs.group ≡ false = let h = c.allowed in ground arith in
      let file : (node.identifier == directory_type) ≡ false =
        let h = c.no_directory in ground arith in
      let fuel : suc (length s) + n ≡ length (s ++ (0 ∷ [])) + n =
        omega (arith, length-append s (0 ∷ [])) in
      let arrive = parser_path_lem false fs s [] n fs.current c.segment tt tt in
      ap
        (λ k.
          at_path (parser_path fs k (s ++ (0 ∷ [])) fs.current) (remove_at (suc (length s) + n)) fs)
        fuel
      ∙ ap (λ r. at_path r (remove_at (suc (length s) + n)) fs) (arrive ∙ ap arrived c.found)
      ∙ rw (permitted, file) refl

  removed-read :
      CanRemove fs s node i
      → read_directory removed_state fs.current ≡ forgotten (read_directory fs fs.current) i
  unfolding removed_state
  removed-read c =
      let dr = read_directory fs fs.current in
      let entry = c.listed in
      let inside = entry.inside in
      let behind = entry.behind in
      rw (forget_entry-finds dr node.number i removable 2 entry (omega arith) behind (omega arith))
        (read_directory-write_directory fs fs.current (forgotten dr i)
          (λ x h. forgotten-out dr i x (inr (omega arith)) ∙ read_directory-out fs fs.current x h))

-- `rmDir` with the name of a file in the current directory removes the file's entry and no other:
-- the name leads nowhere then, and every other name of at least one and fewer than 52 characters to
-- the number it led to before. (The name has at least one and fewer than 52 characters, no slash and
-- no dot, and leads to an inode that is no directory. The user's group may remove it, only one entry
-- has the name, and it is the first one with the file's inode. As many rounds as the name has
-- characters are enough for the parser.)
pub rm_dir_file :
    (fs : Fs) (s : Chars) (node : Inode) (i n : ℕ)
    → CanRemove fs s node i
    → (fs' : Fs) × (rm_dir (suc (length s) + n) (s ++ (0 ∷ [])) fs ≡ ok done fs')
      × (lookup fs' (s ++ (0 ∷ [])) fs.current ≡ none)
      × ((t : Chars)
          → 0 < str_len t
          → str_len t < 52
          → matches (read_directory fs fs.current) i t ≡ false
          → lookup fs' t fs.current ≡ lookup fs t fs.current)
unfolding lookup
rm_dir_file fs s node i n c =
    let dr = read_directory fs fs.current in
    let after = removed-read fs s node i c in
    let (some_char, plain, fits) = c.segment in
    let size = str_len-plain s plain in
    let short = c.short in
    (
      removed_state fs s node i,
      rm_dir-runs fs s node i n c,
      ap (λ dr1. find_entry dr1 (s ++ (0 ∷ [])) 95 1) after
          ∙ find_entry-gone dr i (s ++ (0 ∷ [])) 95 1 (omega (arith, size)) (omega (arith, size))
              c.alone (omega arith) (omega arith),
      (λ t h l other.
          ap (λ dr1. find_entry dr1 t 95 1) after ∙ find_entry-forgotten dr i t 95 1 h l other),
    )
