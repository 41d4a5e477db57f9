-- ===== src/FileSystem/Memory/Laws.antt =====
-- What is read where something has been written, and elsewhere.
use tpe_so.Base.{
  ℕ, zero, suc, ◌+◌, ◌-◌, ◌*◌, ◌≤◌, ◌<◌, ◌==◌, leb, ltb, ◌≡◌, refl, sym, ap, ◌∙◌, ◌⊎◌, inl, inr,
  ◌&&◌, true, false, Bool-cases, List, [], ◌∷◌, All, length, get_or, funext, arith,
}
use tpe_so.FileSystem.Memory.{
  Mem, cleared, copy, sector_address, read_disk, write_disk, word_at, put_word, words_at, put_words,
  chars_at, put_chars,
}

-- The memories hold the same from `a` on, for `n` bytes.
abbrev pub Agree : Mem → Mem → ℕ → ℕ → Type 0
Agree m m' a n = (x : ℕ) → a ≤ x → x < a + n → m x ≡ m' x

abbrev pub IsWord : ℕ → Type 0
IsWord w = w < 4294967296

pub word_at-put_word : (m : Mem) (a w : ℕ) → IsWord w → word_at (put_word m a w) a ≡ w
unfolding word_at put_word
word_at-put_word m a w h = ground arith

pub word_at-Agree : (m m' : Mem) (a : ℕ) → Agree m m' a 4 → word_at m a ≡ word_at m' a
unfolding word_at
word_at-Agree m m' a h =
    let h0 = h a (omega arith) (omega arith) in
    let h1 = h (a + 1) (omega arith) (omega arith) in
    let h2 = h (a + 2) (omega arith) (omega arith) in
    let h3 = h (a + 3) (omega arith) (omega arith) in omega arith

pub words_at-Agree :
    (m m' : Mem) (a n : ℕ) → Agree m m' a (4 * n) → words_at m a n ≡ words_at m' a n
unfolding words_at
words_at-Agree m m' a zero h = refl
words_at-Agree m m' a (suc n) h =
    let one = word_at-Agree m m' a (λ x l u. h x l (omega arith)) in
    let rest = words_at-Agree m m' (a + 4) n (λ x l u. h x (omega arith) (omega arith)) in cc

pub put_word-out : (m : Mem) (a w x : ℕ) → (x < a) ⊎ (a + 4 ≤ x) → put_word m a w x ≡ m x
unfolding put_word
put_word-out m a w x h = ground arith

pub put_words-out :
    (m : Mem) (a : ℕ) (ws : List ℕ) (x : ℕ)
    → (x < a) ⊎ (a + 4 * length ws ≤ x)
    → put_words m a ws x ≡ m x
unfolding put_words
put_words-out m a [] x h = refl
put_words-out m a (w ∷ ws) x h =
    put_word-out (put_words m (a + 4) ws) a w x (ground arith)
    ∙ put_words-out m (a + 4) ws x (ground arith)

-- Words that have been written are read again.
pub words_at-put_words :
    (m : Mem) (a : ℕ) (ws : List ℕ) (n : ℕ)
    → All IsWord ws
    → length ws ≡ n
    → words_at (put_words m a ws) a n ≡ ws
unfolding words_at put_words
words_at-put_words m a [] zero h e = refl
words_at-put_words m a [] (suc n) h e = absurd (omega arith)
words_at-put_words m a (w ∷ ws) zero h e = absurd (omega arith)
words_at-put_words m a (w ∷ ws) (suc n) h e =
    let one = word_at-put_word (put_words m (a + 4) ws) a w h.0 in
    let apart =
      words_at-Agree (put_word (put_words m (a + 4) ws) a w) (put_words m (a + 4) ws) (a + 4) n
        (λ x l u. put_word-out (put_words m (a + 4) ws) a w x (inr l)) in
    let rest = words_at-put_words m (a + 4) ws n h.1 (omega arith) in cc

pub copy-in :
    (to : Mem) (p : ℕ) (from : Mem) (q n x : ℕ)
    → p ≤ x
    → x < p + n
    → copy to p from q n x ≡ from (q + (x - p))
unfolding copy
copy-in to p from q n x l u = ground arith

pub copy-out :
    (to : Mem) (p : ℕ) (from : Mem) (q n x : ℕ)
    → (x < p) ⊎ (p + n ≤ x)
    → copy to p from q n x ≡ to x
unfolding copy
copy-out to p from q n x h = ground arith

-- Reading at a place of a copy is reading at the place it was copied from.
pub word_at-copy :
    (to : Mem) (p : ℕ) (from : Mem) (q n a b : ℕ)
    → p ≤ a
    → a + 4 ≤ p + n
    → q + (a - p) ≡ b
    → word_at (copy to p from q n) a ≡ word_at from b
unfolding word_at
word_at-copy to p from q n a b l u e =
    let step = λ (k : ℕ) (h : k < 4).
      copy-in to p from q n (a + k) (omega arith) (omega arith)
      ∙ ap from (let s : q + (a + k - p) ≡ b + k = omega arith in s) in
    let h0 = copy-in to p from q n a (omega arith) (omega arith) ∙ ap from e in
    let h1 = step 1 (omega arith) in
    let h2 = step 2 (omega arith) in let h3 = step 3 (omega arith) in omega arith

pub words_at-copy :
    (to : Mem) (p : ℕ) (from : Mem) (q n a b k : ℕ)
    → p ≤ a
    → a + 4 * k ≤ p + n
    → q + (a - p) ≡ b
    → words_at (copy to p from q n) a k ≡ words_at from b k
unfolding words_at
words_at-copy to p from q n a b zero l u e = refl
words_at-copy to p from q n a b (suc k) l u e =
    let one = word_at-copy to p from q n a b l (omega arith) e in
    let rest =
      words_at-copy to p from q n (a + 4) (b + 4) k (omega arith) (omega arith) (omega arith) in
    cc

pub chars_at-Agree : (m m' : Mem) (a n : ℕ) → Agree m m' a n → chars_at m a n ≡ chars_at m' a n
unfolding chars_at
chars_at-Agree m m' a zero h = refl
chars_at-Agree m m' a (suc n) h =
    let one = h a (omega arith) (omega arith) in
    let rest = chars_at-Agree m m' (a + 1) n (λ x l u. h x (omega arith) (omega arith)) in cc

pub chars_at-copy :
    (to : Mem) (p : ℕ) (from : Mem) (q n a b k : ℕ)
    → p ≤ a
    → a + k ≤ p + n
    → q + (a - p) ≡ b
    → chars_at (copy to p from q n) a k ≡ chars_at from b k
unfolding chars_at
chars_at-copy to p from q n a b zero l u e = refl
chars_at-copy to p from q n a b (suc k) l u e =
    let one = copy-in to p from q n a l (omega arith) ∙ ap from e in
    let rest =
      chars_at-copy to p from q n (a + 1) (b + 1) k (omega arith) (omega arith) (omega arith) in
    cc

-- A part of the disk that is read, changed in some words and written back changes in these only.
pub write_back-out :
    (disk : Mem) (s n a : ℕ) (ws : List ℕ) (x : ℕ)
    → a + 4 * length ws ≤ n
    → (x < s + a) ⊎ (s + a + 4 * length ws ≤ x)
    → copy disk s (put_words (copy cleared 0 disk s n) a ws) 0 n x ≡ disk x
write_back-out disk s n a ws x inside out =
    let buffer = copy cleared 0 disk s n in
    elim (Bool-cases (leb s x && ltb x (s + n))) [
      | inl e ↦
          let l : s ≤ x = ground (arith, e) in
          let u : x < s + n = ground (arith, e) in
          copy-in disk s (put_words buffer a ws) 0 n x l u
          ∙ put_words-out buffer a ws (0 + (x - s)) (ground arith)
          ∙ copy-in cleared 0 disk s n (0 + (x - s)) (omega arith) (omega arith)
          ∙ ap disk (omega arith)
      | inr e ↦ copy-out disk s (put_words buffer a ws) 0 n x (ground (arith, e))
    ]

-- What is written on disk is read again.
pub read_disk-write_disk :
    (disk : Mem) (s : ℕ) (m : Mem) (n : ℕ)
    → ((x : ℕ) → n ≤ x → m x ≡ 0)
    → read_disk (write_disk disk s m n) s n ≡ m
unfolding read_disk write_disk copy
read_disk-write_disk disk s m n h = funext λ x. elim (Bool-cases (ltb x n)) [
  | inl e ↦
      let a = sector_address s in
      let at : 0 + (a + (x - 0) - a) ≡ x = omega arith in
      let l : (leb 0 x && ltb x (0 + n)) ≡ true = ground (arith, e) in
      let u : (leb a (a + (x - 0)) && ltb (a + (x - 0)) (a + n)) ≡ true = ground (arith, e) in
      rw (l, u, at) refl
  | inr e ↦
      let l : (leb 0 x && ltb x (0 + n)) ≡ false = ground (arith, e) in
      rw l (sym (h x (ground (arith, e))))
]

pub put_chars-out :
    (m : Mem) (a : ℕ) (s : List ℕ) (n x : ℕ) → (x < a) ⊎ (a + n ≤ x) → put_chars m a s n x ≡ m x
unfolding put_chars
put_chars-out m a s zero x h = refl
put_chars-out m a [] (suc n) x h = refl
put_chars-out m a (c ∷ s) (suc n) x h =
    let rest = put_chars-out m (a + 1) s n x (ground arith) in ground arith

pub put_chars-in :
    (m : Mem) (a : ℕ) (s : List ℕ) (n x : ℕ)
    → a ≤ x
    → x < a + n
    → n ≤ length s
    → put_chars m a s n x ≡ get_or s (x - a) 0
unfolding put_chars
put_chars-in m a s zero x l u h = absurd (omega arith)
put_chars-in m a [] (suc n) x l u h = absurd (omega arith)
put_chars-in m a (c ∷ s) (suc n) x l u h = elim (Bool-cases (x == a)) [
  | inl e ↦ let z : x - a ≡ 0 = ground (arith, e) in rw (e, z) refl
  | inr e ↦
      let next : x - a ≡ suc (x - (a + 1)) = ground (arith, e) in
      rw (e, next) (put_chars-in m (a + 1) s n x (ground (arith, e)) (omega arith) (omega arith))
]
