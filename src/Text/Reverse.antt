-- ===== src/Text/Reverse.antt =====
-- The loop that reverses a string in place.
use tpe_so.Base.{
  ℕ, zero, suc, ◌+◌, ◌-◌, ◌≤◌, ◌<◌, ◌==◌, leb, ltb, ◌≡◌, refl, ap, ◌∙◌, ◌≢◌, ◌⊎◌, inl, inr,
  Bool-cases, ◌&&◌, if◌then◌else◌, length, length-set, get_or, get_or-set_self, get_or-set_ne, set,
  ℕ_discrete, arith,
}
use tpe_so.Text.{Chars, str_len, swap, reverse_from, reverse}

get_or-set :
    (s : Chars) (i k x : ℕ)
    → i < length s
    → get_or (set s i x) k 0 ≡ (if i == k then x else get_or s k 0)
get_or-set s i k x l = elim (ℕ_discrete i k) [
  | yes e ↦ rw (← e, get_or-set_self s i x 0 l) (ground arith)
  | no n ↦ rw (get_or-set_ne s x 0 n) (ground arith)
]

swap-length : (s : Chars) (i j : ℕ) → length (swap s i j) ≡ length s
unfolding swap
swap-length s i j = length-set (set s i (get_or s j 0)) j _ ∙ length-set s i _

get_or-swap :
    (s : Chars) (i j k : ℕ)
    → i < length s
    → j < length s
    → get_or (swap s i j) k 0
      ≡ (if j == k then get_or s i 0 else (if i == k then get_or s j 0 else get_or s k 0))
unfolding swap
get_or-swap s i j k a b =
    get_or-set (set s i (get_or s j 0)) j k (get_or s i 0) (rw (length-set s i (get_or s j 0)) b)
    ∙ rw (get_or-set s i k (get_or s j 0) a) refl

-- Where the character of a place is to be found before the rounds: its mirror image.
abbrev mirror : ℕ → ℕ → ℕ → ℕ
mirror i j k = if leb i k && leb k j then i + j - k else k

-- One round more: the ends change places, and between them it is one mirror.
mirror-round :
    (i j k : ℕ)
    → i < j
    → ((mirror (suc i) (j - 1) k ≡ i) × (mirror i j k ≡ j))
      ⊎ ((mirror (suc i) (j - 1) k ≡ j) × (mirror i j k ≡ i))
      ⊎ ((mirror (suc i) (j - 1) k ≡ mirror i j k)
          × (mirror (suc i) (j - 1) k ≢ i)
          × (mirror (suc i) (j - 1) k ≢ j))
mirror-round i j k l = ground arith

after_swap :
    (g : ℕ → ℕ) (i j a b : ℕ)
    → i < j
    → ((a ≡ i) × (b ≡ j)) ⊎ ((a ≡ j) × (b ≡ i)) ⊎ ((a ≡ b) × (a ≢ i) × (a ≢ j))
    → (if j == a then g i else (if i == a then g j else g a)) ≡ g b
after_swap g i j a b l (inl (e, f)) = rw (e, f) (ground arith)
after_swap g i j a b l (inr (inl (e, f))) = rw (e, f) (ground arith)
after_swap g i j a b l (inr (inr (e, n, m))) = rw (← e) (ground arith)

-- The characters between `i` and `j` are mirrored, and the others stay.
get_or-reverse_from :
    (n : ℕ) (s : Chars) (i j k : ℕ)
    → j ≤ i + n
    → j < length s
    → get_or (reverse_from n s i j) k 0 ≡ get_or s (mirror i j k) 0
unfolding reverse_from
get_or-reverse_from zero s i j k f l = ap (λ x. get_or s x 0) (ground arith)
get_or-reverse_from (suc n) s i j k f l = elim (Bool-cases (ltb i j)) [
  | inr e ↦ rw e (ap (λ x. get_or s x 0) (ground (arith, e)))
  | inl e ↦
      let ih =
        get_or-reverse_from n (swap s i j) (suc i) (j - 1) k (ground (arith, e))
          (rw swap-length (omega arith)) in
      let at_swap = λ (m : ℕ). get_or-swap s i j m (ground (arith, e)) l in
      rw e (
        ih
        ∙ at_swap _
        ∙ after_swap (λ x. get_or s x 0) i j _ _ (ground (arith, e))
            (mirror-round i j k (ground (arith, e))))
]

-- `reverse` puts the characters of the string in the opposite order, and changes nothing from its
-- final 0 on.
pub reverse_lem :
    (s : Chars) (k : ℕ)
    → str_len s < length s
    → get_or (reverse s) k 0
      ≡ (if ltb k (str_len s) then get_or s (str_len s - 1 - k) 0 else get_or s k 0)
unfolding reverse
reverse_lem s k l =
    get_or-reverse_from (str_len s) s 0 (str_len s - 1) k (omega arith) (omega arith)
    ∙ elim (Bool-cases (ltb k (str_len s))) [
      | inl e ↦ rw e (ap (λ x. get_or s x 0) (ground (arith, e)))
      | inr e ↦ rw e (ap (λ x. get_or s x 0) (ground (arith, e)))
    ]
