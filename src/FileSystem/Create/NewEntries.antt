-- ===== src/FileSystem/Create/NewEntries.antt =====
-- What a new directory holds.
use tpe_so.Base.{
  ℕ, zero, suc, ◌+◌, ◌*◌, ◌≤◌, ◌<◌, ◌≡◌, refl, ap, inl, inr, funext, leb, ltb, ◌&&◌, false,
  Bool-cases, none, some, [], ◌∷◌, arith,
}
use tpe_so.Text.{Chars, str_len, strcmp}
use tpe_so.FileSystem.Memory.{
  copy, sector_address, read_disk, word_at, put_word, put_words, chars_at, put_chars,
}
use tpe_so.FileSystem.Memory.Laws.{IsWord}
use tpe_so.FileSystem.State.{Inode, init_block, Fs}
use tpe_so.FileSystem.Directory.{
  directory_size, matches, name_at, inode_number_at, find_entry, read_directory,
}
use tpe_so.FileSystem.Directory.Entries.{Holds, strcmp-Holds}
use tpe_so.FileSystem.Directory.Lookup.{matches-clean}
use tpe_so.FileSystem.Create.{first_entries}

-- A directory is what the disk holds in its blocks.
pub read_directory-Agree :
    (fs fs' : Fs) (node : Inode)
    → ((x : ℕ)
        → sector_address (init_block node) ≤ x
        → x < sector_address (init_block node) + directory_size
        → fs.disk x ≡ fs'.disk x)
    → read_directory fs node ≡ read_directory fs' node
unfolding read_directory read_disk copy
read_directory-Agree fs fs' node h = funext λ x.
    elim (Bool-cases (leb 0 x && ltb x (0 + directory_size))) [
      | inl e ↦ rw e (h _ (omega arith) (ground (arith, e)))
      | inr e ↦ rw e refl
    ]

pub first_entries-out : (number parent x : ℕ) → 90 ≤ x → first_entries number parent x ≡ 0
unfolding first_entries put_words put_word put_chars
first_entries-out number parent x h = ground arith

-- ".." in a new directory.
pub parent-found :
    (number parent : ℕ)
    → IsWord parent
    → find_entry (first_entries number parent) (46 ∷ 46 ∷ 0 ∷ []) 95 1 ≡ some parent
parent-found number parent w =
    unfold find_entry matches name_at chars_at strcmp str_len first_entries put_words put_word
      put_chars inode_number_at word_at in
    ap some (ground arith)

-- Entry 1 is "..", and every entry behind it is clean.
others-absent :
    (number parent : ℕ) (s : Chars) (n k : ℕ)
    → 0 < str_len s
    → 2 ≤ k
    → find_entry (first_entries number parent) s n k ≡ none
unfolding find_entry
others-absent number parent s zero k h l = refl
others-absent number parent s (suc n) k h l =
    rw
      (matches-clean (first_entries number parent) k s
        (λ j u. first_entries-out number parent (64 * k + 12 + j) (omega arith)) h)
      (others-absent number parent s n (suc k) h (omega arith))

-- The name "..".
abbrev pub dots : Chars
dots = 46 ∷ 46 ∷ 0 ∷ []

dots-Holds : (number parent : ℕ) → Holds (first_entries number parent) 76 dots
unfolding first_entries put_words put_word put_chars str_len
dots-Holds number parent zero h = refl
dots-Holds number parent (suc zero) h = refl
dots-Holds number parent (suc (suc zero)) h = refl
dots-Holds number parent (suc (suc (suc j))) h = absurd (omega arith)

pub other-absent :
    (number parent : ℕ) (s : Chars)
    → 0 < str_len s
    → strcmp s dots ≡ false
    → find_entry (first_entries number parent) s 95 1 ≡ none
unfolding find_entry matches name_at
other-absent number parent s h other =
    rw
      (
        strcmp-Holds (first_entries number parent) 76 s dots (unfold str_len in omega arith)
            (dots-Holds number parent),
        other,
      )
      (others-absent number parent s 94 2 h (omega arith))
