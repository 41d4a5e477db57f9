-- ===== src/Text/Decimal.antt =====
-- Numbers as text: `itoa` and `ltoa` (Chinux/src/utils.c), less the printing, and `scanfi`
-- (Chinux/src/stdio.c). An `int` of `itoa` has 32 bits; the sums of `scanfi` have no bound, which is what
-- they come to for the text of an `int`.
pub mod Digits
pub mod RoundTrip
pub mod Tests
use tpe_so.Base.{
  ℕ, zero, suc, ◌+◌, ◌-◌, ◌*◌, ◌/◌, ◌%◌, ◌==◌, ltb, if◌then◌else◌, List, [], ◌∷◌, ◌++◌, get_or, ℤ,
  pos, negsuc, ◌+ℤ◌, ◌-ℤ◌, ◌*ℤ◌, sub_ℕ,
}
use tpe_so.Text.{Chars, str_len, reverse}

-- The places of `string_number`.
abbrev pub max_num : ℕ
max_num = 25

-- The loop over the digits, the lowest first, for at most `r` rounds.
unfoldable pub digits_from : ℕ → ℕ → Chars
digits_from zero n = []
digits_from (suc r) n =
    let rest = digits_from r (n / 10) in (n % 10 + 48) ∷ (if ltb 0 (n / 10) then rest else [])

-- The loop is left when `i - 1 >= MAX_NUM`.
unfoldable pub digits : ℕ → Chars
digits n = digits_from (max_num + 1) n

-- `n = -n` on 32 bits: the least `int` stays as it is.
unfoldable pub negate : ℤ → ℤ
negate (pos n) = pos 0 -ℤ pos n
negate (negsuc n) = if n == 0x7fffffff then negsuc n else pos (suc n)

-- The loop of `itoa`. A number below 0 has the remainder's sign in its digit, and its quotient ends
-- the loop.
unfoldable pub int_digits : ℤ → Chars
unfolding digits
int_digits (pos n) = digits n
int_digits (negsuc n) = (48 - suc n % 10) ∷ []

-- What `itoa` prints.
unfoldable pub itoa : ℤ → Chars
unfolding negate int_digits
itoa (pos n) = reverse (int_digits (pos n) ++ (0 ∷ []))
itoa (negsuc n) = reverse (int_digits (negate (negsuc n)) ++ (45 ∷ 0 ∷ []))

-- What `ltoa` prints: an unsigned number is never below 0.
unfoldable pub ltoa : ℕ → Chars
ltoa n = reverse (digits n ++ (0 ∷ []))

-- The loop of `scanfi`, with `n` characters from `low` on still to go.
unfoldable pub scan_digits : ℕ → Chars → ℕ → ℕ → ℤ → ℤ
scan_digits zero origin low pow aux = aux
scan_digits (suc n) origin low pow aux =
    scan_digits n origin low (pow * 10) (aux +ℤ sub_ℕ (get_or origin (low + n) 0) 48 *ℤ pos pow)

-- `scanfi`: the number and the count of characters.
unfoldable pub scanfi : Chars → ℤ × ℕ
scanfi origin =
    let max_count = if get_or origin 0 0 == 45 then 1 else 0 in
    let aux = scan_digits (str_len origin - max_count) origin max_count 1 (pos 0) in
    (if get_or origin 0 0 == 45 then pos 0 -ℤ aux else aux, str_len origin)
