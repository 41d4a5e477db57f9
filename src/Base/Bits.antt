-- ===== src/Base/Bits.antt =====
-- Single bits of a word under `|` and `&`, at every position.
use Prim.Native.Nat.{
  ℕ, zero, suc, ◌+◌, ◌-◌, ◌*◌, ◌/◌, ◌%◌, ◌^◌, ◌≤◌, ◌<◌, min, max, digits, bitwise, bit_and, bit_or,
  bit_and-bitwise, bit_or-bitwise,
}
use mathlib.Core.Path.{◌≡◌, refl, ap, ◌∙◌}
use native.Mathlib.Nat.{pow-suc, one-le-pow}
use native.Mathlib.Omega.{arith}
use tpe_so.Base.Tests.{◌==◌, if◌then◌else◌}

-- The bit at a position, counted from the lowest: 0 or 1.
unfoldable pub bit : ℕ → ℕ → ℕ
bit w zero = w % 2
bit w (suc i) = bit (w / 2) i

-- More fuel than digits changes nothing.
digits_enough :
    (z : ℕ → ℕ) (f : ℕ → ℕ → ℕ) (m n a b : ℕ) → a ≤ m → a ≤ n → digits z f m a b ≡ digits z f n a b
digits_enough z f zero zero a b p q = refl
digits_enough z f zero (suc n) zero b p q = refl
digits_enough z f zero (suc n) (suc a) b p q = elim p [ ]
digits_enough z f (suc m) zero zero b p q = refl
digits_enough z f (suc m) zero (suc a) b p q = elim q [ ]
digits_enough z f (suc m) (suc n) zero b p q = refl
digits_enough z f (suc m) (suc n) (suc a) b p q =
    ap (λ (t : ℕ). t * 2 + f (suc a % 2) (b % 2))
      (digits_enough z f m n (suc a / 2) (b / 2) (omega arith) (omega arith))

halve :
    (z : ℕ → ℕ) (f : ℕ → ℕ → ℕ) (a b : ℕ)
    → bitwise z f (suc a) b ≡ bitwise z f (suc a / 2) (b / 2) * 2 + f (suc a % 2) (b % 2)
halve z f a b =
    ap (λ (t : ℕ). t * 2 + f (suc a % 2) (b % 2))
      (digits_enough z f a (suc a / 2) (suc a / 2) (b / 2) (omega arith) (omega arith))

or_digit : (a b : ℕ) → bit_or a b ≡ bit_or (a / 2) (b / 2) * 2 + max (a % 2) (b % 2)
or_digit zero b = simp bit_or-bitwise (omega arith)
or_digit (suc a) b = simp bit_or-bitwise (halve (λ t. t) max a b)

and_digit : (a b : ℕ) → bit_and a b ≡ bit_and (a / 2) (b / 2) * 2 + min (a % 2) (b % 2)
and_digit zero b = simp bit_and-bitwise (omega arith)
and_digit (suc a) b = simp bit_and-bitwise (halve (λ t. 0) min a b)

pub bit-bit_or : (a b i : ℕ) → bit (bit_or a b) i ≡ max (bit a i) (bit b i)
unfolding bit
bit-bit_or a b zero = omega (arith, or_digit a b)
bit-bit_or a b (suc i) =
    ap (λ w. bit w i) (omega (arith, or_digit a b)) ∙ bit-bit_or (a / 2) (b / 2) i

pub bit-bit_and : (a b i : ℕ) → bit (bit_and a b) i ≡ min (bit a i) (bit b i)
unfolding bit
bit-bit_and a b zero = omega (arith, and_digit a b)
bit-bit_and a b (suc i) =
    ap (λ w. bit w i) (omega (arith, and_digit a b)) ∙ bit-bit_and (a / 2) (b / 2) i

pub bit-zero : (i : ℕ) → bit 0 i ≡ 0
unfolding bit
bit-zero zero = refl
bit-zero (suc i) = bit-zero i

pub bit-le_one : (w i : ℕ) → bit w i ≤ 1
unfolding bit
bit-le_one w zero = omega arith
bit-le_one w (suc i) = bit-le_one (w / 2) i

half_pow : (i : ℕ) → 2 ^ suc i / 2 ≡ 2 ^ i
half_pow i = omega (arith, pow-suc 2 i)

pub bit-pow : (i j : ℕ) → bit (2 ^ i) j ≡ (if i == j then 1 else 0)
unfolding bit
bit-pow zero zero = refl
bit-pow zero (suc j) = bit-zero j ∙ ground arith
bit-pow (suc i) zero = let e : 2 ^ suc i % 2 ≡ 0 = omega (arith, pow-suc 2 i) in e ∙ ground arith
bit-pow (suc i) (suc j) = ap (λ w. bit w j) (half_pow i) ∙ bit-pow i j ∙ ground arith

-- All ones below `n`.
bit-ones : (n j : ℕ) → j < n → bit (2 ^ n - 1) j ≡ 1
unfolding bit
bit-ones zero j h = elim h [ ]
bit-ones (suc n) zero h = omega (arith, pow-suc 2 n, one-le-pow n 2)
bit-ones (suc n) (suc j) h =
    ap (λ w. bit w j) (omega (arith, pow-suc 2 n, one-le-pow n 2)) ∙ bit-ones n j (omega arith)

pow-le : (n i : ℕ) → i < n → 2 ^ i + 1 ≤ 2 ^ n
pow-le zero i h = elim h [ ]
pow-le (suc n) zero h = omega (arith, pow-suc 2 n, one-le-pow n 2)
pow-le (suc n) (suc i) h = omega (arith, pow-suc 2 n, pow-suc 2 i, pow-le n i (omega arith))

-- `~(1 << i)` in a word of `n` bits.
pub bit-complement :
    (n i j : ℕ) → i < n → j < n → bit (2 ^ n - 1 - 2 ^ i) j ≡ (if i == j then 0 else 1)
unfolding bit
bit-complement zero i j h k = elim h [ ]
bit-complement (suc n) zero zero h k = omega (arith, pow-suc 2 n, one-le-pow n 2)
bit-complement (suc n) zero (suc j) h k =
    ap (λ w. bit w j) (omega (arith, pow-suc 2 n, one-le-pow n 2))
    ∙ bit-ones n j (omega arith)
    ∙ ground arith
bit-complement (suc n) (suc i) zero h k =
    let e : (2 ^ suc n - 1 - 2 ^ suc i) % 2 ≡ 1 =
      omega (arith, pow-suc 2 n, pow-suc 2 i, pow-le n i (omega arith)) in
    e ∙ ground arith
bit-complement (suc n) (suc i) (suc j) h k =
    ap (λ w. bit w j) (omega (arith, pow-suc 2 n, pow-suc 2 i, pow-le n i (omega arith)))
    ∙ bit-complement n i j (omega arith) (omega arith)
    ∙ ground arith

bit_and-right_zero : (n a : ℕ) → a ≤ n → bit_and a 0 ≡ 0
bit_and-right_zero n zero h = refl
bit_and-right_zero zero (suc a) h = elim h [ ]
bit_and-right_zero (suc n) (suc a) h =
    omega (arith, and_digit (suc a) 0, bit_and-right_zero n (suc a / 2) (omega arith))

-- A test `w & (1 << i)` reads the bit.
pub bit_and-pow : (w i : ℕ) → bit_and w (2 ^ i) ≡ bit w i * 2 ^ i
unfolding bit
bit_and-pow w zero = omega (arith, and_digit w 1, bit_and-right_zero (w / 2) (w / 2) (omega arith))
bit_and-pow w (suc i) =
    let ih : bit_and (w / 2) (2 ^ suc i / 2) ≡ bit (w / 2) i * 2 ^ i =
      ap (bit_and (w / 2)) (half_pow i) ∙ bit_and-pow (w / 2) i in
    let p : bit (w / 2) i * 2 ^ suc i ≡ bit (w / 2) i * 2 ^ i * 2 =
      omega (arith, ap (λ (t : ℕ). bit (w / 2) i * t) (pow-suc 2 i)) in
    omega (arith, and_digit w (2 ^ suc i), pow-suc 2 i)
