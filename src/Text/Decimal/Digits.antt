-- ===== src/Text/Decimal/Digits.antt =====
-- The digits of a number, the lowest first, and what they are worth.
use tpe_so.Base.{
  ℕ, zero, suc, ◌+◌, ◌-◌, ◌*◌, ◌/◌, ◌^◌, ◌≤◌, ◌<◌, ltb, ◌≡◌, ap, ◌∙◌, inl, inr, Bool-cases, List,
  [], ◌∷◌, All, length, get_or, pos, ◌+ℤ◌, ◌*ℤ◌, sub_ℕ, arith,
}
use native.Mathlib.Nat.{pow-suc, mul_assoc, mul-add, mul_comm}
use tpe_so.Text.Decimal.{digits_from, scan_digits}

abbrev pub IsDigit : ℕ → Type 0
IsDigit c = (48 ≤ c) × (c < 58)

-- What digits are worth, the lowest first.
abbrev pub value : List ℕ → ℕ
value [] = 0
value (d ∷ ds) = (d - 48) + 10 * value ds

pub digits_from-IsDigit : (r n : ℕ) → All IsDigit (digits_from r n)
unfolding digits_from
digits_from-IsDigit zero n = tt
digits_from-IsDigit (suc r) n = elim (Bool-cases (ltb 0 (n / 10))) [
  | inl e ↦ rw e ((omega arith, omega arith), digits_from-IsDigit r (n / 10))
  | inr e ↦ rw e ((omega arith, omega arith), tt)
]

-- Enough rounds give the number.
pub value-digits_from : (r n : ℕ) → n < 10 ^ r → value (digits_from r n) ≡ n
unfolding digits_from
value-digits_from zero n h = omega arith
value-digits_from (suc r) n h = elim (Bool-cases (ltb 0 (n / 10))) [
  | inl e ↦
      let rest = value-digits_from r (n / 10) (omega (arith, pow-suc 10 r)) in
      rw (e, rest) (omega arith)
  | inr e ↦ rw e (ground (arith, e))
]

-- No more digits than that.
pub length-digits_from : (r k n : ℕ) → n < 10 ^ suc k → length (digits_from r n) ≤ suc k
unfolding digits_from
length-digits_from zero k n h = omega arith
length-digits_from (suc r) zero n h = elim (Bool-cases (ltb 0 (n / 10))) [
  | inl e ↦ absurd (ground (arith, e, h))
  | inr e ↦ rw e (omega arith)
]
length-digits_from (suc r) (suc k) n h = elim (Bool-cases (ltb 0 (n / 10))) [
  | inl e ↦
      let rest = length-digits_from r k (n / 10) (omega (arith, pow-suc 10 (suc k))) in
      rw e (omega arith)
  | inr e ↦ rw e (omega arith)
]

digit_ℤ : (aux d pow : ℕ) → 48 ≤ d → pos aux +ℤ sub_ℕ d 48 *ℤ pos pow ≡ pos (aux + (d - 48) * pow)
digit_ℤ aux d pow h = let digit : sub_ℕ d 48 ≡ pos (d - 48) = ground arith in rw digit (grind arith)

digit_worth : (aux pow d v : ℕ) → aux + d * pow + pow * 10 * v ≡ aux + pow * (d + 10 * v)
digit_worth aux pow d v = grind (arith, mul-add, mul_assoc, mul_comm)

-- Reading digits from the highest place down to the lowest, which stands last, adds what they are worth.
pub scan_digits-value :
    (ds origin : List ℕ) (low pow aux : ℕ)
    → All IsDigit ds
    → ((k : ℕ) → k < length ds → get_or origin (low + k) 0 ≡ get_or ds (length ds - 1 - k) 0)
    → scan_digits (length ds) origin low pow (pos aux) ≡ pos (aux + pow * value ds)
unfolding scan_digits
scan_digits-value [] origin low pow aux h at = ap pos (omega arith)
scan_digits-value (d ∷ ds) origin low pow aux h at =
    let here : get_or origin (low + length ds) 0 ≡ d =
      let last : suc (length ds) - 1 - length ds ≡ 0 = omega arith in
      at (length ds) (omega arith) ∙ ap (λ i. get_or (d ∷ ds) i 0) last in
    let rest = scan_digits-value ds origin low (pow * 10) (aux + (d - 48) * pow) h.1 (λ k l.
      let next : suc (length ds) - 1 - k ≡ suc (length ds - 1 - k) = omega arith in
      at k (omega arith) ∙ ap (λ i. get_or (d ∷ ds) i 0) next) in
    ap (λ c. scan_digits (length ds) origin low (pow * 10) (pos aux +ℤ sub_ℕ c 48 *ℤ pos pow)) here
    ∙ ap (scan_digits (length ds) origin low (pow * 10)) (digit_ℤ aux d pow h.0.0)
    ∙ rest
    ∙ ap pos (digit_worth aux pow (d - 48) (value ds))
