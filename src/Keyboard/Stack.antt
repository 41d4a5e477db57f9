-- ===== src/Keyboard/Stack.antt =====
-- The buffer as the line that is being typed, its last character first.
use tpe_so.Base.{
  ℕ, zero, suc, ◌+◌, ◌-◌, ◌%◌, ◌≤◌, ◌<◌, ◌==◌, ==_iff, leb, ltb, ◌≡◌, ◌≢◌, refl, sym, ap, ◌∙◌, ◌⊎◌,
  inl, inr, true, false, Bool-cases, if◌then◌else◌, List, [], ◌∷◌, length, length-set, get_or,
  get_or-set_self, get_or-set_ne, set, arith,
}
use tpe_so.Keyboard.{buffer_size, KeyBuffer, add_char_to_buff, delete_char_from_buff}

-- The place before.
abbrev pub prev : ℕ → ℕ
prev a = if a == 0 then buffer_size - 1 else a - 1

-- The `n` characters that end at place `a`.
unfoldable pub line_from : List ℕ → ℕ → ℕ → List ℕ
line_from array a zero = []
line_from array a (suc n) = get_or array a 0 ∷ line_from array (prev a) n

unfoldable pub line : KeyBuffer → List ℕ
line b = line_from b.array b.actual_char b.size

pub record IsBuffer (b : KeyBuffer) : Type 0 where
  pub places : length b.array ≡ buffer_size
  pub inside : b.actual_char < buffer_size
  pub bounded : b.size ≤ buffer_size

-- The place `d` before `p`.
abbrev back : ℕ → ℕ → ℕ
back p d = if leb d p then p - d else p + buffer_size - d

-- A character written at `p` is not among those of a round that starts and ends before.
line_from-set :
    (array : List ℕ) (p c n d : ℕ)
    → p < buffer_size
    → 0 < d
    → d + n ≤ buffer_size
    → line_from (set array p c) (back p d) n ≡ line_from array (back p d) n
unfolding line_from
line_from-set array p c zero d l h k = refl
line_from-set array p c (suc n) d l h k =
    let other : p ≢ back p d = ground arith in
    let next : prev (back p d) ≡ back p (suc d) = ground arith in
    let ih = line_from-set array p c n (suc d) l (omega arith) (omega arith) in
    rw (get_or-set_ne array c 0 other, next, ih) refl

-- A buffer with less than 256 characters takes one more and adds it to the line; a full one refuses it
-- and stays as it is.
pub add_char_to_buff_lem :
    (b : KeyBuffer) (c : ℕ)
    → IsBuffer b
    → let (done, b') = add_char_to_buff b c in
      IsBuffer b'
      × (((b.size ≡ buffer_size) × (done ≡ false) × (b' ≡ b))
          ⊎ ((b.size < buffer_size) × (done ≡ true) × (line b' ≡ c ∷ line b)))
unfolding add_char_to_buff line line_from
add_char_to_buff_lem b c w = elim (Bool-cases (ltb b.size buffer_size)) [
  | inr e ↦ rw e (w, inl (let k = w.bounded in ground (arith, e), refl, refl))
  | inl e ↦
      let p = (b.actual_char + 1) % buffer_size in
      let inside = w.inside in
      let l : p < buffer_size = omega arith in
      let before : prev p ≡ b.actual_char = ground arith in
      let at_back : b.actual_char ≡ back p 1 = ground arith in
      let room : b.size < buffer_size = ground (arith, e) in
      let same : line_from (set b.array p c) b.actual_char b.size
          ≡ line_from b.array b.actual_char b.size =
        ap (λ a. line_from (set b.array p c) a b.size) at_back
        ∙ line_from-set b.array p c b.size 1 l (omega arith) (omega arith)
        ∙ ap (λ a. line_from b.array a b.size) (sym at_back) in
      rw e (
        record { places = length-set b.array p c ∙ w.places; inside = l; bounded = room },
        inr (room, refl, rw (get_or-set_self b.array p c 0 (rw w.places l), before, same) refl),
      )
]

line_from-cons :
    (array : List ℕ) (a n : ℕ)
    → 0 < n
    → line_from array a n ≡ get_or array a 0 ∷ line_from array (prev a) (n - 1)
unfolding line_from
line_from-cons array a zero h = absurd (omega arith)
line_from-cons array a (suc n) h =
    ap (λ m. get_or array a 0 ∷ line_from array (prev a) m) (omega arith)

-- Deleting takes the last character off the line; an empty buffer stays as it is.
pub delete_char_from_buff_lem :
    (b : KeyBuffer)
    → IsBuffer b
    → let b' = delete_char_from_buff b in
      IsBuffer b' × (((line b ≡ []) × (b' ≡ b)) ⊎ ((c : ℕ) × (line b ≡ c ∷ line b')))
unfolding delete_char_from_buff line
delete_char_from_buff_lem b w = elim (Bool-cases (b.size == 0)) [
  | inl e ↦
      let none_left = (==_iff b.size 0).0 e in
      rw e
        (w, inl (ap (line_from b.array b.actual_char) none_left ∙ unfold line_from in refl, refl))
  | inr e ↦
      let inside = w.inside in
      let bounded = w.bounded in
      rw e (
        record { places = w.places; inside = ground arith; bounded = omega arith },
        inr (
          get_or b.array b.actual_char 0,
          line_from-cons b.array b.actual_char b.size (ground (arith, e)),
        ),
      )
]
