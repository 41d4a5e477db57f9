-- ===== src/Users/Duplicates.antt =====
-- The test of `createusr` for a name that is in use.
use tpe_so.Base.{
  ℕ, suc, ◌-◌, ◌<◌, ◌==◌, false, Bool-cases, ◌≡◌, ◌≢◌, refl, subst, ◌∙◌, inl, inr, List, [], ◌∷◌,
  ◌++◌, ap, All, length, arith,
}
use tpe_so.Text.{str_len, strcmp}
use tpe_so.Text.Compare.{text, strcmp_lem}
use tpe_so.Users.{User, taken, find_place}
use tpe_so.Users.Login.{IsString}
use tpe_so.Users.Create.{word, str_len-word}

text-word : (s rest : List ℕ) → All (λ c. c ≢ 0) s → text (word s rest) ≡ s ++ (32 ∷ [])
text-word [] rest h = refl
text-word (c ∷ s) rest h =
    let n = h.0 in
    let more : (c == 0) ≡ false = ground (arith, n) in
    rw more (ap (λ t. c ∷ t) (text-word s rest h.1))

length-word : (s rest : List ℕ) → length s < length (word s rest) - 1
length-word [] rest = omega arith
length-word (c ∷ s) rest = let ih = length-word s rest in omega arith

-- The blank at the end is a character of the list.
blank_in : (s : List ℕ) → ¬ All (λ c. c ≢ 32) (s ++ (32 ∷ []))
blank_in [] h = h.0 refl
blank_in (c ∷ s) h = blank_in s h.1

-- A word of the command line is never found to be taken: it is compared with its blank, which no stored
-- name has. So the same name can be given to any number of users.
pub find_place_never_taken :
    (i : ℕ) (users : List User) (s rest : List ℕ)
    → All (λ c. c ≢ 0) s
    → All (λ (u : User). IsString u.name × All (λ c. c ≢ 32) (text u.name)) users
    → find_place i users (word s rest) ≢ taken
unfolding find_place
find_place_never_taken i [] s rest h a e = cc
find_place_never_taken i (u ∷ users) s rest h a e = elim (Bool-cases (u.usr_id == 0)) [
  | inl f ↦ let g = rw f at e in cc
  | inr f ↦ elim (Bool-cases (strcmp u.name (word s rest))) [
    | inl t ↦
        let size = length-word s rest in
        let ends : str_len (word s rest) < length (word s rest) =
          rw (str_len-word s rest h) (omega arith) in
        let same = (strcmp_lem u.name (word s rest) a.0.0 ends).0 t in
        absurd (blank_in s (subst (All (λ c. c ≢ 32)) (same ∙ text-word s rest h) a.0.1))
    | inr t ↦ find_place_never_taken (suc i) users s rest h a.1 (rw (f, t) at e)
  ]
]
