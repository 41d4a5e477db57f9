-- ===== src/FileSystem/Directory/Lookup.antt =====
-- A directory as a map from names to inode numbers.
use tpe_so.Base.{
  ℕ, zero, suc, ◌+◌, ◌*◌, ◌≤◌, ◌<◌, ◌==◌, ==_iff, ◌≡◌, ◌≢◌, refl, ◌∙◌, inl, inr, true, false,
  Bool-cases, some, [], ◌∷◌, arith,
}
use tpe_so.Text.{Chars, str_len, strcmp}
use tpe_so.Text.Compare.{strcmp_lem}
use tpe_so.FileSystem.Memory.{Mem, cleared, read_disk}
use tpe_so.FileSystem.Memory.Laws.{IsWord, copy-out, read_disk-write_disk}
use tpe_so.FileSystem.State.{Inode, init_block, Fs}
use tpe_so.FileSystem.Directory.{
  entry_size, entry_count, directory_size, type_at, matches, find_entry, lookup, fill_entry,
  insert_loop, insert_entry, read_directory, write_directory,
}
use tpe_so.FileSystem.Directory.Entries.{
  IsClean, IsName, strcmp-Holds, fill_entry-out, matches-fill, inode_number_at-fill,
  matches-fill_ne, inode_number_at-fill_ne,
}

-- The first entry that is not in use, and has never been.
pub record IsSlot (dr : Mem) (i : ℕ) : Type 0 where
  pub behind : 0 < i
  pub inside : i < entry_count
  pub empty : type_at dr i ≡ 0
  pub first : (j : ℕ) → j < i → type_at dr j ≢ 0
  pub clean : IsClean dr i

-- No entry but the first, which the search leaves out, has this name.
abbrev pub IsAbsent : Mem → Chars → Type 0
IsAbsent dr name = (j : ℕ) → 0 < j → j < entry_count → matches dr j name ≡ false

strcmp_refl : (s : Chars) → IsName s → strcmp s s ≡ true
strcmp_refl s w = (strcmp_lem s s w.ends w.ends).1 refl

strcmp-empty : (s : Chars) → 0 < str_len s → strcmp s (0 ∷ []) ≡ false
unfolding strcmp str_len
strcmp-empty [] h = refl
strcmp-empty (c ∷ s) h = ground arith

-- A clean entry has no name.
pub matches-clean :
    (dr : Mem) (i : ℕ) (s : Chars) → IsClean dr i → 0 < str_len s → matches dr i s ≡ false
unfolding matches str_len
matches-clean dr i s clean h =
    strcmp-Holds dr (entry_size * i + 12) s (0 ∷ []) (omega arith)
      (λ j l. let z : j ≡ 0 = omega arith in rw z (clean 0 (omega arith)))
    ∙ strcmp-empty s h

module _ (dr : Mem) (i type number : ℕ) (name : Chars) (w : IsName name) where
  insert_loop-fill :
      (n k : ℕ)
      → IsSlot dr i
      → k ≤ i
      → i < k + n
      → insert_loop dr type number name n k ≡ fill_entry dr i type number name
  unfolding insert_loop
  insert_loop-fill zero k slot l u = absurd (omega arith)
  insert_loop-fill (suc n) k slot l u = elim (Bool-cases (k == i)) [
    | inl e ↦ let same = (==_iff k i).0 e in rw (same, slot.empty) refl
    | inr e ↦
        let busy : (type_at dr k == 0) ≡ false =
          let used = slot.first k (ground (arith, e)) in ground (arith, used) in
        rw busy (insert_loop-fill n (suc k) slot (ground (arith, e)) (omega arith))
  ]

  find_entry-fill :
      (n k : ℕ)
      → IsSlot dr i
      → IsAbsent dr name
      → IsWord type
      → IsWord number
      → 0 < k
      → k ≤ i
      → i < k + n
      → find_entry (fill_entry dr i type number name) name n k ≡ some number
  unfolding find_entry
  find_entry-fill zero k slot gone t m p l u = absurd (omega arith)
  find_entry-fill (suc n) k slot gone t m p l u = elim (Bool-cases (k == i)) [
    | inl e ↦
        let same = (==_iff k i).0 e in
        rw
          (
            same,
            matches-fill dr i type number name w name slot.clean,
            strcmp_refl name w,
            inode_number_at-fill dr i type number name w t m,
          )
          refl
    | inr e ↦
        let inside = slot.inside in
        rw
          (
            matches-fill_ne dr i type number name w k name (ground (arith, e)) w.short,
            gone k p (omega arith),
          )
          (find_entry-fill n (suc k) slot gone t m (omega arith) (ground (arith, e)) (omega arith))
  ]

  find_entry-fill_other :
      (s : Chars) (n k : ℕ)
      → IsName s
      → 0 < str_len s
      → strcmp s name ≡ false
      → IsSlot dr i
      → find_entry (fill_entry dr i type number name) s n k ≡ find_entry dr s n k
  unfolding find_entry
  find_entry-fill_other s zero k v h other slot = refl
  find_entry-fill_other s (suc n) k v h other slot =
      let ih = find_entry-fill_other s n (suc k) v h other slot in
      elim (Bool-cases (k == i)) [
        | inl e ↦
            let same = (==_iff k i).0 e in
            rw
              (
                same,
                matches-fill dr i type number name w s slot.clean,
                other,
                matches-clean dr i s slot.clean h,
                ← same,
              )
              ih
        | inr e ↦
            rw
              (
                matches-fill_ne dr i type number name w k s (ground (arith, e)) v.short,
                inode_number_at-fill_ne dr i type number name w k (ground (arith, e)),
                ih,
              )
              refl
      ]

-- The buffer of a directory ends behind its entries.
pub read_directory-out :
    (fs : Fs) (directory : Inode) (x : ℕ) → directory_size ≤ x → read_directory fs directory x ≡ 0
unfolding read_directory read_disk
read_directory-out fs directory x h =
    copy-out cleared 0 fs.disk _ directory_size x (inr (omega arith))

pub read_directory-write_directory :
    (fs : Fs) (directory : Inode) (dr : Mem)
    → ((x : ℕ) → directory_size ≤ x → dr x ≡ 0)
    → read_directory (write_directory fs directory dr) directory ≡ dr
unfolding read_directory write_directory
read_directory-write_directory fs directory dr h =
    read_disk-write_disk fs.disk (init_block directory) dr directory_size h

-- The directory after an insertion.
pub read_directory-insert :
    (type : ℕ) (fs : Fs) (node directory : Inode) (name : Chars) (i : ℕ)
    → IsName name
    → IsSlot (read_directory fs directory) i
    → read_directory (insert_entry type fs node directory name) directory
      ≡ fill_entry (read_directory fs directory) i type node.number name
unfolding insert_entry
read_directory-insert type fs node directory name i w slot =
    let dr = read_directory fs directory in
    let inside = slot.inside in
    let filled =
      insert_loop-fill dr i type node.number name w entry_count 0 slot (omega arith)
        (omega arith) in
    rw filled (
      read_directory-write_directory fs directory (fill_entry dr i type node.number name) (λ x h.
        fill_entry-out dr i type node.number name w x (inr (omega arith))
        ∙ read_directory-out fs directory x h))

-- After an entry has been inserted in a directory, its name leads to the new inode's number and every
-- other name to the number it led to before. (The first entry that is not in use is behind the first
-- entry and has never been used, the names end, are shorter than 52 characters and, but for the
-- new one, not empty, and the new one was not in the directory.)
pub lookup-insert_entry :
    (type : ℕ) (fs : Fs) (node directory : Inode) (name : Chars) (i : ℕ)
    → IsName name
    → IsWord type
    → IsWord node.number
    → IsSlot (read_directory fs directory) i
    → IsAbsent (read_directory fs directory) name
    → let fs' = insert_entry type fs node directory name in
      (lookup fs' name directory ≡ some node.number)
      × ((s : Chars)
          → IsName s
          → 0 < str_len s
          → strcmp s name ≡ false
          → lookup fs' s directory ≡ lookup fs s directory)
unfolding lookup
lookup-insert_entry type fs node directory name i w t n slot gone =
    let dr = read_directory fs directory in
    let after = read_directory-insert type fs node directory name i w slot in
    let behind = slot.behind in
    let inside = slot.inside in
    (
      rw after (
          find_entry-fill dr i type node.number name w 95 1 slot gone t n (omega arith)
            (omega arith) (omega arith)),
      (λ s v h other.
          rw after (find_entry-fill_other dr i type node.number name w s 95 1 v h other slot)),
    )
