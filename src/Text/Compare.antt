-- ===== src/Text/Compare.antt =====
-- `strcmp` tells equal strings.
use tpe_so.Base.{
  ℕ, ◌<◌, ◌==◌, ==_iff, true, Bool-cases, if◌then◌else◌, ◌≡◌, refl, ◌≢◌, ◌↔◌, inl, inr, List, [],
  ◌∷◌, length, arith,
}
use tpe_so.Text.{Chars, str_len, strcmp}

-- The characters before the first 0.
abbrev pub text : Chars → List ℕ
text [] = []
text (c ∷ s) = let rest = text s in if c == 0 then [] else c ∷ rest

-- `strcmp` is TRUE exactly for strings with the same characters (both end within their memory).
pub strcmp_lem :
    (s t : Chars)
    → str_len s < length s
    → str_len t < length t
    → (strcmp s t ≡ true) ↔ (text s ≡ text t)
unfolding strcmp str_len
strcmp_lem [] t h k = absurd (omega arith)
strcmp_lem (a ∷ s) [] h k = absurd (omega arith)
strcmp_lem (a ∷ s) (b ∷ t) h k = elim (Bool-cases (a == 0)) [
  | inl e ↦ elim (Bool-cases (b == 0)) [
    | inl f ↦ rw (e, f) ((λ x. refl), (λ x. refl))
    | inr f ↦ rw (e, f) ((λ x. cc), (λ x. cc))
  ]
  | inr e ↦ elim (Bool-cases (b == 0)) [
    | inl f ↦ rw (e, f) ((λ x. cc), (λ x. cc))
    | inr f ↦
        let short : str_len s < length s = let u = rw e at h in omega arith in
        let short_t : str_len t < length t = let u = rw f at k in omega arith in
        let ih = strcmp_lem s t short short_t in
        elim (Bool-cases (a == b)) [
          | inl g ↦
              let same = (==_iff a b).0 g in
              rw (e, f, g) ((λ x. let rest = ih.0 x in cc), (λ x. ih.1 cc))
          | inr g ↦
              let other : a ≢ b = ground (arith, g) in
              rw (e, f, g) ((λ x. cc), (λ x. let head : a ≡ b = cc in absurd (other head)))
        ]
  ]
]
