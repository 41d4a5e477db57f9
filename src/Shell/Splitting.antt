-- ===== src/Shell/Splitting.antt =====
-- `splitbuffer` stores the words of a line.
use tpe_so.Base.{
  ℕ, zero, suc, ◌+◌, ◌*◌, ◌≤◌, ◌<◌, ◌==◌, ltb, ◌≡◌, refl, sym, ap, subst, ◌∙◌, inl, inr, true,
  false, Bool-cases, ◌&&◌, List, [], ◌∷◌, length, get_elem?, some, some_inj, arith,
}
use tpe_so.FileSystem.Memory.{Mem}
use tpe_so.Screen.{write_byte}
use tpe_so.Shell.{row_size, Split, split_char, split_chars, splitbuffer}
use tpe_so.Shell.Words.{
  lengthen, words, joined, Holds, write_byte_self, write_byte_other, word_start, Stored,
  words-positive, same_word, next_word, word_start-zero,
}

abbrev finish : Split → Mem
finish w = write_byte w.rows (row_size * w.i + w.k) 0

split_char-same :
    (m : Mem) (i k c : ℕ)
    → ((c == 32) && ltb i 9) ≡ false
    → split_char (record { rows = m; i = i; k = k }) c
      ≡ record { rows = write_byte m (row_size * i + k) c; i = i; k = suc k }
unfolding split_char
split_char-same m i k c e = rw e refl

split_char-next :
    (m : Mem) (i k c : ℕ)
    → ((c == 32) && ltb i 9) ≡ true
    → let a = row_size * i + k in
      split_char (record { rows = m; i = i; k = k }) c
      ≡ record { rows = write_byte (write_byte m a c) (a + 1) 0; i = suc i; k = 0 }
unfolding split_char
split_char-next m i k c e = rw e refl

stored :
    (s : List ℕ) (m : Mem) (i k n : ℕ)
    → i + n ≡ 9
    → k + length s < row_size
    → Stored m (finish (split_chars (record { rows = m; i = i; k = k }) s)) i k (words n s)
unfolding split_chars
stored [] m i k n e l =
    let a = row_size * i + k in
    record {
      held = λ n.
          elim n
            as (λ n.
              (v : List ℕ)
              → get_elem? ([] ∷ []) n ≡ some v
              → Holds (write_byte m a 0) (word_start i k n) v) [
                | zero ↦ λ v f.
                    subst (Holds (write_byte m a 0) a) (some_inj f)
                      (λ x le. ap (write_byte m a 0) (omega arith) ∙ write_byte_self m a 0)
                | suc n ↦ λ v f. cc
              ];
      before = λ x lt. write_byte_other m a 0 x (omega arith);
      behind = λ x le. write_byte_other m a 0 x (omega arith);
    }
stored (c ∷ s) m i k zero e l =
    let tenth : ((c == 32) && ltb i 9) ≡ false = ground arith in
    subst (λ w. Stored m (finish (split_chars w s)) i k (lengthen c (words zero s)))
      (sym (split_char-same m i k c tenth))
      (same_word m _ i k c (words zero s) (omega arith) (words-positive zero s)
        (stored s (write_byte m (row_size * i + k) c) i (suc k) zero e (omega arith)))
stored (c ∷ s) m i k (suc n) e l =
    let a = row_size * i + k in
    let room : ltb i 9 ≡ true = ground arith in
    elim (Bool-cases (c == 32)) [
      | inl f ↦
          let ends : ((c == 32) && ltb i 9) ≡ true = rw (f, room) refl in
          rw f (
            subst (λ w. Stored m (finish (split_chars w s)) i k ((c ∷ []) ∷ words n s))
              (sym (split_char-next m i k c ends))
              (next_word m _ i k c (words n s) (omega arith) (
                stored s (write_byte (write_byte m a c) (a + 1) 0) (suc i) 0 n (omega arith)
                  (omega arith))))
      | inr f ↦
          let stays : ((c == 32) && ltb i 9) ≡ false = rw f refl in
          rw f (
            subst (λ w. Stored m (finish (split_chars w s)) i k (lengthen c (words (suc n) s)))
              (sym (split_char-same m i k c stays))
              (same_word m _ i k c (words (suc n) s) (omega arith) (words-positive (suc n) s)
                (stored s (write_byte m a c) i (suc k) (suc n) e (omega arith))))
    ]

joined-lengthen : (c : ℕ) (ws : List (List ℕ)) → joined (lengthen c ws) ≡ c ∷ joined ws
joined-lengthen c [] = refl
joined-lengthen c (w ∷ ws) = refl

joined-words : (n : ℕ) (s : List ℕ) → joined (words n s) ≡ s
joined-words n [] = refl
joined-words zero (c ∷ s) = joined-lengthen c (words zero s) ∙ ap (λ t. c ∷ t) (joined-words zero s)
joined-words (suc n) (c ∷ s) = elim (Bool-cases (c == 32)) [
  | inl e ↦ rw e (ap (λ t. c ∷ t) (joined-words n s))
  | inr e ↦ rw e (joined-lengthen c (words (suc n) s) ∙ ap (λ t. c ∷ t) (joined-words (suc n) s))
]

-- `splitbuffer` of a line of at most 255 characters stores its words in the rows in their order, each
-- ended by 0: words that together are the line again. Behind the last word's row nothing changes, so
-- that the words of an earlier line stay there.
pub splitbuffer_lem :
    (m : Mem) (s : List ℕ)
    → length s < row_size
    → let m' = splitbuffer m s in
      (joined (words 9 s) ≡ s)
      × ((n : ℕ) (w : List ℕ) → get_elem? (words 9 s) n ≡ some w → Holds m' (row_size * n) w)
      × ((x : ℕ) → row_size * length (words 9 s) ≤ x → m' x ≡ m x)
unfolding splitbuffer
splitbuffer_lem m s l =
    let all = stored s m 0 0 9 (omega arith) (omega arith) in
    let m' = finish (split_chars (record { rows = m; i = 0; k = 0 }) s) in
    (
      joined-words 9 s,
      λ n w e x le.
          let place : word_start 0 0 n ≡ row_size * n = word_start-zero n in
          ap (λ b. m' (b + x)) (sym place) ∙ all.held n w e x le,
      λ x le. all.behind x (omega arith),
    )
