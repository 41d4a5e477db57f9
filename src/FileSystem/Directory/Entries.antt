-- ===== src/FileSystem/Directory/Entries.antt =====
-- One entry of a directory after an entry has been filled.
use tpe_so.Base.{
  ℕ, suc, ◌+◌, ◌*◌, ◌≤◌, ◌<◌, ◌==◌, ==_iff, ltb, ◌≡◌, ◌≢◌, refl, sym, ap, ◌∙◌, ◌⊎◌, inl, inr,
  Bool-cases, [], ◌∷◌, length, get_or, arith,
}
use tpe_so.Text.{Chars, str_len, strcmp}
use tpe_so.FileSystem.Memory.{Mem, word_at, put_words, words_at, chars_at}
use tpe_so.FileSystem.Memory.Laws.{
  IsWord, word_at-Agree, words_at-put_words, put_words-out, put_chars-out, put_chars-in,
  chars_at-Agree,
}
use tpe_so.FileSystem.Directory.{entry_size, type_at, inode_number_at, matches, fill_entry}

-- The 52 characters of an entry's name are 0.
abbrev pub IsClean : Mem → ℕ → Type 0
IsClean dr i = (j : ℕ) → j < 52 → dr (entry_size * i + 12 + j) ≡ 0

-- A name that ends within its memory, and that an entry has room for.
pub record IsName (name : Chars) : Type 0 where
  pub ends : str_len name < length name
  pub short : str_len name < 52

str_len-ends : (s : Chars) → str_len s < length s → get_or s (str_len s) 0 ≡ 0
unfolding str_len
str_len-ends [] h = refl
str_len-ends (c ∷ s) h = elim (Bool-cases (c == 0)) [
  | inl e ↦ rw e ((==_iff c 0).0 e)
  | inr e ↦ rw e (str_len-ends s (ground (arith, e)))
]

-- The memory at `a` holds a string.
abbrev pub Holds : Mem → ℕ → Chars → Type 0
Holds m a s = (j : ℕ) → j ≤ str_len s → m (a + j) ≡ get_or s j 0

-- Comparing with memory that holds a string is comparing with the string.
pub strcmp-Holds :
    (m : Mem) (a : ℕ) (s t : Chars)
    → str_len t < length t
    → Holds m a t
    → strcmp s (chars_at m a (suc (str_len s))) ≡ strcmp s t
unfolding strcmp str_len chars_at
strcmp-Holds m a [] t l h = refl
strcmp-Holds m a (c ∷ s) [] l h = absurd (omega arith)
strcmp-Holds m a (c ∷ s) (d ∷ t) l h =
    let start : m a ≡ d = ap m (omega arith) ∙ h 0 (omega arith) in
    elim (Bool-cases (c == 0)) [
      | inl e ↦ rw (e, start) refl
      | inr e ↦ elim (Bool-cases (d == 0)) [
        | inl f ↦ rw (e, start, f) refl
        | inr f ↦
            let ih =
              strcmp-Holds m (a + 1) s t (ground (arith, f))
                (λ j u. ap m (omega arith) ∙ rw f at (h (suc j)) (omega arith)) in
            rw (e, start, f, ih) refl
      ]
    ]

module _ (dr : Mem) (i type number : ℕ) (name : Chars) (w : IsName name) where
  -- A filled entry changes its own bytes only.
  pub fill_entry-out :
      (x : ℕ)
      → (x < entry_size * i) ⊎ (entry_size * i + 64 ≤ x)
      → fill_entry dr i type number name x ≡ dr x
  unfolding fill_entry
  fill_entry-out x h =
      let short = w.short in
      put_chars-out (put_words dr (entry_size * i) (type ∷ number ∷ 0 ∷ [])) (entry_size * i + 12)
        name (str_len name) x (ground arith)
      ∙ put_words-out dr (entry_size * i) (type ∷ number ∷ 0 ∷ []) x (ground arith)

  word_at-fill :
      (a : ℕ)
      → entry_size * i ≤ a
      → a + 4 ≤ entry_size * i + 12
      → word_at (fill_entry dr i type number name) a
        ≡ word_at (put_words dr (entry_size * i) (type ∷ number ∷ 0 ∷ [])) a
  unfolding fill_entry
  word_at-fill a l u = word_at-Agree _ _ a (λ x h k.
      put_chars-out (put_words dr (entry_size * i) (type ∷ number ∷ 0 ∷ [])) (entry_size * i + 12)
        name (str_len name) x (inl (omega arith)))

  name-Holds : IsClean dr i → Holds (fill_entry dr i type number name) (entry_size * i + 12) name
  unfolding fill_entry
  name-Holds clean j u =
      let head = put_words dr (entry_size * i) (type ∷ number ∷ 0 ∷ []) in
      let a = entry_size * i + 12 in
      let short = w.short in
      elim (Bool-cases (ltb j (str_len name))) [
        | inl e ↦
            put_chars-in head a name (str_len name) (a + j) (omega arith) (ground (arith, e))
              (let ends = w.ends in omega arith)
            ∙ ap (λ k. get_or name k 0) (omega arith)
        | inr e ↦
            let same : j ≡ str_len name = ground (arith, e) in
            put_chars-out head a name (str_len name) (a + j) (inr (omega arith))
            ∙ put_words-out dr (entry_size * i) (type ∷ number ∷ 0 ∷ []) (a + j) (inr (omega arith))
            ∙ clean j (omega arith)
            ∙ sym (ap (λ k. get_or name k 0) same ∙ str_len-ends name w.ends)
      ]

  -- The filled entry is found under its name.
  pub matches-fill :
      (s : Chars) → IsClean dr i → matches (fill_entry dr i type number name) i s ≡ strcmp s name
  unfolding matches
  matches-fill s clean =
      strcmp-Holds (fill_entry dr i type number name) (entry_size * i + 12) s name w.ends
        (name-Holds clean)

  pub inode_number_at-fill :
      IsWord type → IsWord number → inode_number_at (fill_entry dr i type number name) i ≡ number
  unfolding inode_number_at words_at
  inode_number_at-fill t n =
      word_at-fill (entry_size * i + 4) (omega arith) (omega arith)
      ∙ ap (λ ws. get_or ws 1 0)
          (words_at-put_words dr (entry_size * i) (type ∷ number ∷ 0 ∷ []) 3
            (t, (n, (omega arith, tt))) refl)

  -- The other entries are as before.
  pub type_at-fill_ne :
      (j : ℕ) → j ≢ i → type_at (fill_entry dr i type number name) j ≡ type_at dr j
  unfolding type_at
  type_at-fill_ne j n =
      word_at-Agree _ dr (entry_size * j) (λ x h k. fill_entry-out x (ground arith))

  pub inode_number_at-fill_ne :
      (j : ℕ) → j ≢ i → inode_number_at (fill_entry dr i type number name) j ≡ inode_number_at dr j
  unfolding inode_number_at
  inode_number_at-fill_ne j n =
      word_at-Agree _ dr (entry_size * j + 4) (λ x h k. fill_entry-out x (ground arith))

  pub matches-fill_ne :
      (j : ℕ) (s : Chars)
      → j ≢ i
      → str_len s < 52
      → matches (fill_entry dr i type number name) j s ≡ matches dr j s
  unfolding matches
  matches-fill_ne j s n short = ap (strcmp s) (
      chars_at-Agree _ dr (entry_size * j + 12) (suc (str_len s))
        (λ x h k. fill_entry-out x (ground arith)))
