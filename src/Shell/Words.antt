-- ===== src/Shell/Words.antt =====
-- The words of a line, and where `splitbuffer` puts them.
use tpe_so.Base.{
  ℕ, zero, suc, ◌+◌, ◌*◌, ◌≤◌, ◌<◌, ◌==◌, ==_iff, ◌≡◌, ◌≢◌, refl, sym, ap, subst, ◌∙◌, inl, inr,
  false, Bool-cases, if◌then◌else◌, List, [], ◌∷◌, ◌++◌, length, get_or, get_elem?, some, some_inj,
  arith,
}
use tpe_so.FileSystem.Memory.{Mem}
use tpe_so.Screen.{write_byte}
use tpe_so.Shell.{row_size}

-- One more character in front of the first word.
abbrev pub lengthen : ℕ → List (List ℕ) → List (List ℕ)
lengthen c [] = (c ∷ []) ∷ []
lengthen c (w ∷ ws) = (c ∷ w) ∷ ws

-- The words of a line, each with the blank that ends it: of at most `n` more.
abbrev pub words : ℕ → List ℕ → List (List ℕ)
words n [] = [] ∷ []
words zero (c ∷ s) = lengthen c (words zero s)
words (suc n) (c ∷ s) = if c == 32 then (c ∷ []) ∷ words n s else lengthen c (words (suc n) s)

abbrev pub joined : List (List ℕ) → List ℕ
joined [] = []
joined (w ∷ ws) = w ++ joined ws

-- A string at an address, with its final 0.
abbrev pub Holds : Mem → ℕ → List ℕ → Type 0
Holds m a s = (x : ℕ) → x ≤ length s → m (a + x) ≡ get_or s x 0

pub write_byte_self : (m : Mem) (a v : ℕ) → write_byte m a v a ≡ v
unfolding write_byte
write_byte_self m a v = ap (λ b. if b then v else m a) ((==_iff a a).1 refl)

pub write_byte_other : (m : Mem) (a v x : ℕ) → x ≢ a → write_byte m a v x ≡ m x
unfolding write_byte
write_byte_other m a v x n = let other : (a == x) ≡ false = ground (arith, n) in rw other refl

-- Where word `n` starts when the first one is under way.
abbrev pub word_start : ℕ → ℕ → ℕ → ℕ
word_start i k zero = row_size * i + k
word_start i k (suc n) = row_size * (i + suc n)

-- What the loop and the final 0 leave in memory.
pub record Stored (m m' : Mem) (i k : ℕ) (ws : List (List ℕ)) : Type 0 where
  pub held : (n : ℕ) (w : List ℕ) → get_elem? ws n ≡ some w → Holds m' (word_start i k n) w
  pub before : (x : ℕ) → x < row_size * i + k → m' x ≡ m x
  pub behind : (x : ℕ) → row_size * (i + length ws) ≤ x → m' x ≡ m x

lengthen-positive : (c : ℕ) (ws : List (List ℕ)) → 0 < length (lengthen c ws)
lengthen-positive c [] = omega arith
lengthen-positive c (w ∷ ws) = omega arith

-- A string from its first character and the others.
Holds-cons :
    (m : Mem) (a c : ℕ) (s : List ℕ) → m (a + 0) ≡ c → Holds m (suc a) s → Holds m a (c ∷ s)
Holds-cons m a c s here others zero le = here
Holds-cons m a c s here others (suc x) le = ap m (omega arith) ∙ others x (omega arith)

word_start-next : (i n : ℕ) → word_start (suc i) 0 n ≡ row_size * (i + suc n)
word_start-next i zero = omega arith
word_start-next i (suc n) = omega arith

pub word_start-zero : (n : ℕ) → word_start 0 0 n ≡ row_size * n
word_start-zero zero = omega arith
word_start-zero (suc n) = omega arith

pub words-positive : (n : ℕ) (s : List ℕ) → 0 < length (words n s)
words-positive n [] = omega arith
words-positive zero (c ∷ s) = lengthen-positive c (words zero s)
words-positive (suc n) (c ∷ s) = elim (Bool-cases (c == 32)) [
  | inl e ↦ rw e (omega arith)
  | inr e ↦ rw e (lengthen-positive c (words (suc n) s))
]

-- A character that belongs to the word under way.
pub same_word :
    (m m' : Mem) (i k c : ℕ) (ws : List (List ℕ))
    → suc k < row_size
    → 0 < length ws
    → Stored (write_byte m (row_size * i + k) c) m' i (suc k) ws
    → Stored m m' i k (lengthen c ws)
same_word m m' i k c [] l p h = absurd (omega arith)
same_word m m' i k c (w ∷ ws) l p h =
    let a = row_size * i + k in
    let here : m' (a + 0) ≡ c =
      ap m' (omega arith) ∙ h.before a (omega arith) ∙ write_byte_self m a c in
    record {
      held = λ n.
          elim n
            as (λ n.
              (v : List ℕ) → get_elem? ((c ∷ w) ∷ ws) n ≡ some v → Holds m' (word_start i k n) v) [
                | zero ↦ λ v e. subst (Holds m' a) (some_inj e) (
                    Holds-cons m' a c w here
                      (λ x. λ le. ap m' (omega arith) ∙ h.held 0 w refl x le))
                | suc n ↦ λ v e. h.held (suc n) v e
              ];
      before = λ x lt. h.before x (omega arith) ∙ write_byte_other m a c x (omega arith);
      behind = λ x le. h.behind x le ∙ write_byte_other m a c x (omega arith);
    }

-- A blank that ends the word under way.
pub next_word :
    (m m' : Mem) (i k c : ℕ) (ws : List (List ℕ))
    → suc k < row_size
    → Stored
        (write_byte (write_byte m (row_size * i + k) c) (row_size * i + k + 1) 0)
        m'
        (suc i)
        0
        ws
    → Stored m m' i k ((c ∷ []) ∷ ws)
next_word m m' i k c ws l h =
    let a = row_size * i + k in
    let m1 = write_byte m a c in
    let here : m' (a + 0) ≡ c =
      ap m' (omega arith)
      ∙ h.before a (omega arith)
      ∙ write_byte_other m1 (a + 1) 0 a (omega arith)
      ∙ write_byte_self m a c in
    let ended : m' (suc a + 0) ≡ 0 =
      ap m' (omega arith) ∙ h.before (a + 1) (omega arith) ∙ write_byte_self m1 (a + 1) 0 in
    record {
      held = λ n.
          elim n
            as (λ n.
              (v : List ℕ) → get_elem? ((c ∷ []) ∷ ws) n ≡ some v → Holds m' (word_start i k n) v) [
                | zero ↦ λ v e. subst (Holds m' a) (some_inj e) (
                    Holds-cons m' a c [] here
                      (λ x le. let first : x ≡ 0 = omega arith in rw first ended))
                | suc n ↦ λ v e x le.
                    let place : word_start (suc i) 0 n ≡ row_size * (i + suc n) =
                      word_start-next i n in
                    ap (λ b. m' (b + x)) (sym place) ∙ h.held n v e x le
              ];
      before = λ x lt.
          h.before x (omega arith)
          ∙ write_byte_other m1 (a + 1) 0 x (omega arith)
          ∙ write_byte_other m a c x (omega arith);
      behind = λ x le.
          h.behind x (omega arith)
          ∙ write_byte_other m1 (a + 1) 0 x (omega arith)
          ∙ write_byte_other m a c x (omega arith);
    }
