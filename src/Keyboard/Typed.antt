-- ===== src/Keyboard/Typed.antt =====
-- A line that is typed, corrected and read.
use tpe_so.Base.{
  ℕ, zero, suc, ◌+◌, ◌-◌, ◌*◌, ◌%◌, ◌^◌, ◌≤◌, ◌<◌, ◌==◌, ==_iff, leb, not, ◌&&◌, ◌||◌, ◌≡◌, ◌≢◌,
  refl, sym, ap, ◌∙◌, ◌⊎◌, inl, inr, Bool, true, false, Bool-cases, List, [], ◌∷◌, ◌++◌, get_or,
  arith,
}
use tpe_so.Keyboard.{buffer_size, KeyBuffer, nothing_left, read_chars, read_keyboard}
use tpe_so.Keyboard.Stack.{prev, line, line_from, IsBuffer}

-- `n` characters from place `f` on, going round.
unfoldable pub forward : List ℕ → ℕ → ℕ → List ℕ
forward array f zero = []
forward array f (suc n) = get_or array (f % buffer_size) 0 ∷ forward array (suc f) n

abbrev pub backwards : List ℕ → List ℕ
backwards [] = []
backwards (c ∷ s) = backwards s ++ (c ∷ [])

forward-last :
    (array : List ℕ) (f n : ℕ)
    → forward array f (suc n) ≡ forward array f n ++ (get_or array ((f + n) % buffer_size) 0 ∷ [])
unfolding forward
forward-last array f zero = ap (λ x. get_or array (x % buffer_size) 0 ∷ []) (omega arith)
forward-last array f (suc n) =
    ap (λ s. get_or array (f % buffer_size) 0 ∷ s)
      (forward-last array (suc f) n
        ∙ ap (λ x. forward array (suc f) n ++ (get_or array (x % buffer_size) 0 ∷ []))
            (omega arith))

-- The line, its first character first.
forward-line :
    (array : List ℕ) (n f a : ℕ)
    → a < buffer_size
    → (f + n) % buffer_size ≡ (a + 1) % buffer_size
    → forward array f n ≡ backwards (line_from array a n)
unfolding forward line_from
forward-line array zero f a l e = refl
forward-line array (suc n) f a l e =
    forward-last array f n
    ∙ ap (λ s. s ++ (get_or array ((f + n) % buffer_size) 0 ∷ []))
        (forward-line array n f (prev a) (ground arith) (ground arith))
    ∙ ap (λ x. backwards (line_from array (prev a) n) ++ (get_or array x 0 ∷ [])) (omega arith)

-- The first character still to be read stands where the typed ones begin.
pub record Unread (b : KeyBuffer) : Type 0 where
  pub buffer : IsBuffer b
  pub begins : (b.first_char + b.size) % buffer_size ≡ (b.actual_char + 1) % buffer_size
  pub low : b.first_char ≤ buffer_size

and_false : (b : Bool) → (b && false) ≡ false
and_false true = refl
and_false false = refl

-- With `n` characters ahead the end has not come, or the buffer is full and that is not asked.
nothing_left-no :
    (b : KeyBuffer) (flag : Bool) (n : ℕ)
    → b.actual_char < buffer_size
    → 0 < n
    → n ≤ buffer_size
    → b.first_char + n ≤ 2 * buffer_size
    → (b.first_char + n) % buffer_size ≡ (b.actual_char + 1) % buffer_size
    → (n ≢ buffer_size) ⊎ (flag ≡ false)
    → nothing_left b flag ≡ false
unfolding nothing_left
nothing_left-no b flag n a p l m e (inr h) = rw h (and_false _)
nothing_left-no b flag n a p l m e (inl h) =
    let before : (b.actual_char == (b.first_char + (2 ^ 32 - 1)) % 2 ^ 32) ≡ false = ground arith in
    let wrapped : ((b.actual_char == buffer_size - 1) && (b.first_char == 0)) ≡ false =
      ground arith in
    rw (before, wrapped) refl

read_chars-forward :
    (n : ℕ) (b : KeyBuffer) (flag : Bool)
    → b.actual_char < buffer_size
    → n ≤ buffer_size
    → b.first_char + n ≤ 2 * buffer_size
    → (b.first_char + n) % buffer_size ≡ (b.actual_char + 1) % buffer_size
    → (n ≢ buffer_size) ⊎ (flag ≡ false)
    → (read_chars n b flag).0 ≡ forward b.array b.first_char n
unfolding read_chars forward
read_chars-forward zero b flag a l m e h = refl
read_chars-forward (suc n) b flag a l m e h =
    let next : (b.first_char + 1) % 2 ^ 32 ≡ suc b.first_char = omega arith in
    let rest =
      read_chars-forward n (record b { first_char = suc b.first_char }) true a (omega arith)
        (omega arith) (omega arith) (inl (omega arith)) in
    rw (nothing_left-no b flag (suc n) a (omega arith) l m e h, next)
      (ap (λ s. get_or b.array (b.first_char % buffer_size) 0 ∷ s) rest)

-- Reading as many characters as have been typed gives them all, in the order of typing.
pub read_keyboard-line :
    (b : KeyBuffer) → Unread b → (read_keyboard b b.size).0 ≡ backwards (line b)
unfolding read_keyboard line line_from
read_keyboard-line b u =
    let at = u.begins in
    let inside = u.buffer.inside in
    let bounded = u.buffer.bounded in
    let low = u.low in
    elim (Bool-cases (b.size == 0)) [
      | inl e ↦
          let empty = (==_iff b.size 0).0 e in
          rw e (ap (λ n. backwards (line_from b.array b.actual_char n)) (sym empty))
      | inr e ↦ rw e (
          read_chars-forward b.size b (not (leb buffer_size b.size || false)) inside bounded
            (omega arith) at
            (elim (Bool-cases (leb buffer_size b.size)) [
              | inl f ↦ inr (rw f refl)
              | inr f ↦ inl (ground (arith, f))
            ])
          ∙ forward-line b.array b.size b.first_char b.actual_char inside at)
    ]
