-- ===== src/Text/Decimal/RoundTrip.antt =====
-- What `itoa` prints, `scanfi` reads.
use tpe_so.Base.{
  ℕ, zero, suc, ◌+◌, ◌-◌, ◌^◌, ◌<◌, ◌==◌, ltb, ◌≡◌, ◌≢◌, refl, sym, ap, subst, ◌∙◌, true, false,
  List, [], ◌∷◌, ◌++◌, All, All-map, length, length-append, get_or, ℤ, pos, negsuc, pos_part,
  neg_part, ◌-ℤ◌, arith,
}
use mathlib.Core.List.{append_assoc}
use tpe_so.Text.{str_len, reverse}
use tpe_so.Text.Reverse.{reverse_lem}
use tpe_so.Text.Decimal.{
  max_num, digits_from, digits, negate, int_digits, itoa, scan_digits, scanfi,
}
use tpe_so.Text.Decimal.Digits.{
  IsDigit, digits_from-IsDigit, value-digits_from, length-digits_from, scan_digits-value,
}

module _ (rest : List ℕ) where
  -- A string of nonzero characters ends where they end.
  str_len-append : (s : List ℕ) → All (λ c. c ≢ 0) s → str_len (s ++ (0 ∷ rest)) ≡ length s
  unfolding str_len
  str_len-append [] h = refl
  str_len-append (c ∷ s) h =
      let more : (c == 0) ≡ false = let n = h.0 in ground (arith, n) in
      rw more (ap suc (str_len-append s h.1))

pub get_or-append_left : (s t : List ℕ) (k : ℕ) → k < length s → get_or (s ++ t) k 0 ≡ get_or s k 0
get_or-append_left [] t k l = absurd (omega arith)
get_or-append_left (c ∷ s) t zero l = refl
get_or-append_left (c ∷ s) t (suc k) l = get_or-append_left s t k (omega arith)

get_or-append_right : (s t : List ℕ) (k : ℕ) → get_or (s ++ t) (length s + k) 0 ≡ get_or t k 0
get_or-append_right [] t k = ap (λ i. get_or t i 0) (omega arith)
get_or-append_right (c ∷ s) t k =
    let next : suc (length s) + k ≡ suc (length s + k) = omega arith in
    ap (λ i. get_or (c ∷ s ++ t) i 0) next ∙ get_or-append_right s t k

-- A length that the characters determine.
str_len_unique :
    (s : List ℕ) (n : ℕ) → ((k : ℕ) → k < n → get_or s k 0 ≢ 0) → get_or s n 0 ≡ 0 → str_len s ≡ n
unfolding str_len
str_len_unique [] zero h e = refl
str_len_unique [] (suc n) h e = absurd (h 0 (omega arith) refl)
str_len_unique (c ∷ s) zero h e = let stop : (c == 0) ≡ true = ground (arith, e) in rw stop refl
str_len_unique (c ∷ s) (suc n) h e =
    let first = h 0 (omega arith) in
    let more : (c == 0) ≡ false = ground (arith, first) in
    rw more (ap suc (str_len_unique s n (λ k l. h (suc k) (omega arith)) e))

nonzero-get_or : (s : List ℕ) (k : ℕ) → All (λ c. c ≢ 0) s → k < length s → get_or s k 0 ≢ 0
nonzero-get_or [] k h l = absurd (omega arith)
nonzero-get_or (c ∷ s) zero h l = h.0
nonzero-get_or (c ∷ s) (suc k) h l = nonzero-get_or s k h.1 (omega arith)

-- A string that is reversed: its characters and its length.
reversed :
    (s : List ℕ)
    → All (λ c. c ≢ 0) s
    → let r = reverse (s ++ (0 ∷ [])) in
      (str_len r ≡ length s)
      × ((k : ℕ) → k < length s → get_or r k 0 ≡ get_or s (length s - 1 - k) 0)
reversed s h =
    let whole = s ++ (0 ∷ []) in
    let len = str_len-append [] s h in
    let size : length whole ≡ length s + 1 = length-append s (0 ∷ []) in
    let ends : str_len whole < length whole = omega arith in
    let at : (k : ℕ) → k < length s → get_or (reverse whole) k 0 ≡ get_or s (length s - 1 - k) 0 =
      λ k l.
        let inside : ltb k (str_len whole) ≡ true = ground (arith, len, l) in
        reverse_lem whole k ends
        ∙ rw (inside, len) (get_or-append_left s (0 ∷ []) (length s - 1 - k) (omega arith)) in
    let end : get_or (reverse whole) (length s) 0 ≡ 0 =
      let outside : ltb (length s) (str_len whole) ≡ false = ground (arith, len) in
      let last : length s ≡ length s + 0 = omega arith in
      reverse_lem whole (length s) ends
      ∙ rw outside (ap (λ i. get_or whole i 0) last ∙ get_or-append_right s (0 ∷ []) 0) in
    (
      str_len_unique (reverse whole) (length s)
          (λ k l e. nonzero-get_or s (length s - 1 - k) h (omega arith) (sym (at k l) ∙ e)) end,
      at,
    )

get_or-IsDigit : (s : List ℕ) (k : ℕ) → All IsDigit s → k < length s → IsDigit (get_or s k 0)
get_or-IsDigit [] k h l = absurd (omega arith)
get_or-IsDigit (c ∷ s) zero h l = h.0
get_or-IsDigit (c ∷ s) (suc k) h l = get_or-IsDigit s k h.1 (omega arith)

digits-IsDigit : (n : ℕ) → All IsDigit (digits n)
unfolding digits
digits-IsDigit n = digits_from-IsDigit (max_num + 1) n

All-append : (P : ℕ → Type 0) (s t : List ℕ) → All P s → All P t → All P (s ++ t)
All-append P [] t h k = k
All-append P (c ∷ s) t h k = (h.0, All-append P s t h.1 k)

nonzero : (s : List ℕ) → All IsDigit s → All (λ c. c ≢ 0) s
nonzero s h = All-map s (λ c d e. let low = d.0 in omega arith) h

-- The digits with the sign behind them, reversed.
reversed_signed :
    (n : ℕ)
    → let s = digits n ++ (45 ∷ []) in
      let r = reverse (digits n ++ (45 ∷ 0 ∷ [])) in
      (str_len r ≡ length s)
      × ((k : ℕ) → k < length s → get_or r k 0 ≡ get_or s (length s - 1 - k) 0)
reversed_signed n =
    let s = digits n ++ (45 ∷ []) in
    let all =
      All-append (λ c. c ≢ 0) (digits n) (45 ∷ []) (nonzero _ (digits-IsDigit n))
        ((λ e. omega arith), tt) in
    subst
      (λ (w : List ℕ).
        let r = reverse w in
        (str_len r ≡ length s)
        × ((k : ℕ) → k < length s → get_or r k 0 ≡ get_or s (length s - 1 - k) 0))
      (append_assoc (digits n) (45 ∷ []) (0 ∷ [])) (reversed s all)

digits-positive : (n : ℕ) → 0 < length (digits n)
unfolding digits digits_from
digits-positive n = omega arith

-- The scan of a reversed string of digits, behind a sign or not.
scanned :
    (n low : ℕ) (r : List ℕ)
    → n < 10 ^ 26
    → ((k : ℕ)
        → k < length (digits n)
        → get_or r (low + k) 0 ≡ get_or (digits n) (length (digits n) - 1 - k) 0)
    → str_len r ≡ low + length (digits n)
    → scan_digits (str_len r - low) r low 1 (pos 0) ≡ pos n
unfolding digits
scanned n low r h at len =
    let count : str_len r - low ≡ length (digits n) = omega arith in
    let worth = value-digits_from 26 n h in
    ap (λ m. scan_digits m r low 1 (pos 0)) count
    ∙ scan_digits-value (digits n) r low 1 0 (digits-IsDigit n) at
    ∙ ap pos (omega (arith, worth))

-- A number below 0, but for the least `int`, has the digits of its opposite.
int_digits-negate : (n : ℕ) → suc n < 2 ^ 31 → int_digits (negate (negsuc n)) ≡ digits (suc n)
unfolding int_digits negate
int_digits-negate n h = let other : (n == 0x7fffffff) ≡ false = ground (arith, h) in rw other refl

-- `scanfi` reads the digits of a number behind a sign, reversed.
scanfi-signed :
    (n : ℕ)
    → suc n < 2 ^ 31
    → let r = reverse (digits (suc n) ++ (45 ∷ 0 ∷ [])) in scanfi r ≡ (negsuc n, str_len r)
unfolding scanfi
scanfi-signed n h =
    let ds = digits (suc n) in
    let s = ds ++ (45 ∷ []) in
    let r = reverse (ds ++ (45 ∷ 0 ∷ [])) in
    let (len, at) = reversed_signed (suc n) in
    let size : length s ≡ length ds + 1 = length-append ds (45 ∷ []) in
    let place : length s - 1 - 0 ≡ length ds + 0 = omega arith in
    let first : get_or r 0 0 ≡ 45 =
      at 0 (omega arith) ∙ ap (λ i. get_or s i 0) place ∙ get_or-append_right ds (45 ∷ []) 0 in
    let sign : (get_or r 0 0 == 45) ≡ true = ground (arith, first) in
    let from_second : (k : ℕ)
        → k < length ds
        → get_or r (1 + k) 0 ≡ get_or ds (length ds - 1 - k) 0 =
      λ k l.
        let before : length s - 1 - (1 + k) ≡ length ds - 1 - k = omega arith in
        at (1 + k) (omega arith)
        ∙ ap (λ i. get_or s i 0) before
        ∙ get_or-append_left ds (45 ∷ []) (length ds - 1 - k) (omega arith) in
    let read = scanned (suc n) 1 r (omega arith) from_second (omega arith) in
    rw sign (ap (λ (y : ℤ). (pos 0 -ℤ y, str_len r)) read ∙ ap (λ y. (y, str_len r)) (ground arith))

-- `scanfi` reads back every `int` that `itoa` prints, and counts its characters. (The `int` has 32
-- bits and is not the least one, -2^31, which is its own opposite.)
pub scanfi-itoa :
    (x : ℤ) → pos_part x < 2 ^ 31 → neg_part x < 2 ^ 31 → scanfi (itoa x) ≡ (x, str_len (itoa x))
unfolding scanfi itoa int_digits
scanfi-itoa (pos n) h g =
    let ds = digits n in
    let r = reverse (ds ++ (0 ∷ [])) in
    let some_digit = digits-positive n in
    let (len, at) = reversed ds (nonzero ds (digits-IsDigit n)) in
    let first = get_or-IsDigit ds (length ds - 1 - 0) (digits-IsDigit n) (omega arith) in
    let plain : (get_or r 0 0 == 45) ≡ false =
      let low = first.0 in ground (arith, at 0 some_digit, low) in
    let from_start : (k : ℕ)
        → k < length ds
        → get_or r (0 + k) 0 ≡ get_or ds (length ds - 1 - k) 0 =
      λ k l. let here : 0 + k ≡ k = omega arith in ap (λ i. get_or r i 0) here ∙ at k l in
    let read = scanned n 0 r (omega arith) from_start (omega arith) in
    rw plain (ap (λ (y : ℤ). (y, str_len r)) read)
scanfi-itoa (negsuc n) h g = unfold itoa in rw (int_digits-negate n g) (scanfi-signed n g)

-- A positive `int` of 32 bits, and one below 0, are printed with at most 11 characters, so that
-- `string_number` holds them and the final 0.
pub itoa-fits : (x : ℤ) → pos_part x < 2 ^ 31 → neg_part x < 2 ^ 31 → str_len (itoa x) < max_num
unfolding itoa int_digits
itoa-fits (pos n) h g =
    unfold digits in
    let (len, at) = reversed (digits n) (nonzero (digits n) (digits-IsDigit n)) in
    let short = length-digits_from 26 9 n (omega arith) in omega arith
itoa-fits (negsuc n) h g =
    unfold digits in
    let ds = digits (suc n) in
    let (len, at) = reversed_signed (suc n) in
    let size : length (ds ++ (45 ∷ [])) ≡ length ds + 1 = length-append ds (45 ∷ []) in
    let short = length-digits_from 26 9 (suc n) (omega arith) in
    rw (int_digits-negate n g) (omega arith)
