-- ===== src/FileSystem/Remove/Entries.antt =====
-- The entry of a removed file.
use tpe_so.Base.{
  ℕ, zero, suc, ◌+◌, ◌-◌, ◌*◌, ◌≤◌, ◌<◌, ◌==◌, ==_iff, ◌≡◌, ◌≢◌, refl, ap, ◌∙◌, ◌⊎◌, inl, inr, true,
  false, Bool-cases, none, [], ◌∷◌, get_or, arith,
}
use tpe_so.Text.{Chars, str_len, strcmp}
use tpe_so.FileSystem.Memory.{Mem, put_words, chars_at, put_chars}
use tpe_so.FileSystem.Memory.Laws.{
  word_at-Agree, chars_at-Agree, put_words-out, put_chars-out, put_chars-in,
}
use tpe_so.FileSystem.Directory.{entry_size, entry_count, inode_number_at, matches, find_entry}
use tpe_so.FileSystem.Remove.{clear_entry, forget_entry}

-- The first entry behind "." and ".." that has this inode.
pub record IsEntry (dr : Mem) (number i : ℕ) : Type 0 where
  pub behind : 2 ≤ i
  pub inside : i < entry_count
  pub same : inode_number_at dr i ≡ number
  pub first : (j : ℕ) → 2 ≤ j → j < i → inode_number_at dr j ≢ number

abbrev pub forgotten : Mem → ℕ → Mem
forgotten dr i = put_chars (clear_entry dr i) (entry_size * i + 12) (0 ∷ 0 ∷ []) 2

pub forget_entry-finds :
    (dr : Mem) (number i n k : ℕ)
    → IsEntry dr number i
    → 2 ≤ k
    → k ≤ i
    → i < k + n
    → forget_entry number dr n k ≡ forgotten dr i
unfolding forget_entry
forget_entry-finds dr number i zero k entry p l u = absurd (omega arith)
forget_entry-finds dr number i (suc n) k entry p l u = elim (Bool-cases (k == i)) [
  | inl e ↦
      let at = (==_iff k i).0 e in
      let self : (inode_number_at dr i == number) ≡ true = let h = entry.same in ground arith in
      rw (at, self) refl
  | inr e ↦
      let less : k < i = ground (arith, e) in
      let other : (inode_number_at dr k == number) ≡ false =
        let h = entry.first k p less in ground arith in
      rw other (forget_entry-finds dr number i n (suc k) entry (omega arith) less (omega arith))
]

-- Outside the entry nothing changes.
pub forgotten-out :
    (dr : Mem) (i x : ℕ)
    → (x < entry_size * i) ⊎ (entry_size * i + 64 ≤ x)
    → forgotten dr i x ≡ dr x
unfolding clear_entry
forgotten-out dr i x h =
    put_chars-out (put_words dr (entry_size * i) (0 ∷ 0 ∷ 0 ∷ [])) (entry_size * i + 12)
      (0 ∷ 0 ∷ []) 2 x (ground arith)
    ∙ put_words-out dr (entry_size * i) (0 ∷ 0 ∷ 0 ∷ []) x (ground arith)

-- No name matches the entry.
matches-forgotten :
    (dr : Mem) (i : ℕ) (s : Chars) → 0 < str_len s → matches (forgotten dr i) i s ≡ false
unfolding matches chars_at strcmp str_len
matches-forgotten dr i [] h = absurd (omega arith)
matches-forgotten dr i (c ∷ s) h =
    let start : forgotten dr i (entry_size * i + 12) ≡ 0 =
      put_chars-in (clear_entry dr i) (entry_size * i + 12) (0 ∷ 0 ∷ []) 2 (entry_size * i + 12)
        (omega arith) (omega arith) (omega arith)
      ∙ ap (λ k. get_or (0 ∷ 0 ∷ []) k 0)
          (let z : entry_size * i + 12 - (entry_size * i + 12) ≡ 0 = omega arith in z) in
    rw start (ground arith)

matches-forgotten_ne :
    (dr : Mem) (i j : ℕ) (s : Chars)
    → j ≢ i
    → str_len s < 52
    → matches (forgotten dr i) j s ≡ matches dr j s
unfolding matches
matches-forgotten_ne dr i j s n short = ap (strcmp s) (
    chars_at-Agree (forgotten dr i) dr (entry_size * j + 12) (suc (str_len s))
      (λ x h k. forgotten-out dr i x (ground arith)))

number-forgotten_ne :
    (dr : Mem) (i j : ℕ) → j ≢ i → inode_number_at (forgotten dr i) j ≡ inode_number_at dr j
unfolding inode_number_at
number-forgotten_ne dr i j n =
    word_at-Agree (forgotten dr i) dr (entry_size * j + 4)
      (λ x h k. forgotten-out dr i x (ground arith))

-- The search goes past the entry.
pub find_entry-forgotten :
    (dr : Mem) (i : ℕ) (s : Chars) (n k : ℕ)
    → 0 < str_len s
    → str_len s < 52
    → matches dr i s ≡ false
    → find_entry (forgotten dr i) s n k ≡ find_entry dr s n k
unfolding find_entry
find_entry-forgotten dr i s zero k h short other = refl
find_entry-forgotten dr i s (suc n) k h short other =
    let ih = find_entry-forgotten dr i s n (suc k) h short other in
    elim (Bool-cases (k == i)) [
      | inl e ↦ let at = (==_iff k i).0 e in rw (at, matches-forgotten dr i s h, other, ← at) ih
      | inr e ↦
          let n = let t : k ≢ i = ground (arith, e) in t in
          rw (matches-forgotten_ne dr i k s n short, number-forgotten_ne dr i k n, ih) refl
    ]

-- The name of the entry alone is not found any more.
pub find_entry-gone :
    (dr : Mem) (i : ℕ) (s : Chars) (n k : ℕ)
    → 0 < str_len s
    → str_len s < 52
    → ((j : ℕ) → 0 < j → j < entry_count → j ≢ i → matches dr j s ≡ false)
    → 0 < k
    → k + n ≤ entry_count
    → find_entry (forgotten dr i) s n k ≡ none
unfolding find_entry
find_entry-gone dr i s zero k h short alone p u = refl
find_entry-gone dr i s (suc n) k h short alone p u =
    let ih = find_entry-gone dr i s n (suc k) h short alone (omega arith) (omega arith) in
    elim (Bool-cases (k == i)) [
      | inl e ↦ let at = (==_iff k i).0 e in rw (at, matches-forgotten dr i s h, ← at) ih
      | inr e ↦
          let n = let t : k ≢ i = ground (arith, e) in t in
          rw (matches-forgotten_ne dr i k s n short, alone k p (omega arith) n) ih
    ]
