-- ===== src/FileSystem/Bitmap/Laws.antt =====
-- The maps as sets of numbers: what is free after each operation.
use native.Mathlib.Nat.{one-le-pow}
use tpe_so.Base.{
  ℕ, zero, suc, ◌+◌, ◌*◌, ◌/◌, ◌%◌, ◌≤◌, ◌<◌, ◌==◌, leb, ltb, ◌≡◌, refl, ◌∙◌, Bool, true, false,
  ◌&&◌, if◌then◌else◌, length, length-set, get_or, get_or-set_self, get_or-set_ne, ℕ_discrete,
  arith,
}
use tpe_so.Base.Bits.{
  bit, bit-bit_or, bit-bit_and, bit-pow, bit-complement, bit_and-pow, bit-le_one,
}
use tpe_so.FileSystem.Bitmap.{
  word_size, Words, bindex, boffset, set_bit, clear_bit, is_free, set_run, clear_run,
}

-- The map has room for this number.
abbrev pub InMap : Words → ℕ → Type 0
InMap ws b = b < length ws * word_size

-- The bit of a number, 0 or 1.
bit_at : Words → ℕ → ℕ
unfolding bindex boffset
bit_at ws b = bit (get_or ws (bindex b) 0) (boffset b)

is_free-bit_at : (ws : Words) (b : ℕ) → is_free ws b ≡ (bit_at ws b == 0)
unfolding is_free bit_at
is_free-bit_at ws b =
    let w = get_or ws (b / word_size) 0 in
    let o = b % word_size in
    let one = bit-le_one w o in
    let p = one-le-pow o 2 in
    rw (bit_and-pow w o) (elim (ℕ_discrete (bit w o) 0) [
      | yes e ↦ rw e (ground arith)
      | no n ↦ let e : bit w o ≡ 1 = omega arith in rw e (ground arith)
    ])

bit_at-set_bit :
    (ws : Words) (a b : ℕ)
    → InMap ws a
    → bit_at (set_bit ws a) b ≡ (if a == b then 1 else bit_at ws b)
unfolding bit_at set_bit
bit_at-set_bit ws a b h =
    let w = get_or ws (a / word_size) 0 in
    elim (ℕ_discrete (a / word_size) (b / word_size)) [
      | yes same ↦
          rw
            (
              ← same,
              get_or-set_self ws (a / word_size) _ 0 (omega arith),
              bit-bit_or,
              bit-pow (a % word_size) (b % word_size),
            )
            (let one = bit-le_one w (b % word_size) in ground arith)
      | no other ↦ rw (get_or-set_ne ws _ 0 other) (ground arith)
    ]

bit_at-clear_bit :
    (ws : Words) (a b : ℕ)
    → InMap ws a
    → bit_at (clear_bit ws a) b ≡ (if a == b then 0 else bit_at ws b)
unfolding bit_at clear_bit
bit_at-clear_bit ws a b h =
    let w = get_or ws (a / word_size) 0 in
    elim (ℕ_discrete (a / word_size) (b / word_size)) [
      | yes same ↦
          rw
            (
              ← same,
              get_or-set_self ws (a / word_size) _ 0 (omega arith),
              bit-bit_and,
              bit-complement 32 (a % word_size) (b % word_size) (omega arith) (omega arith),
            )
            (let one = bit-le_one w (b % word_size) in ground arith)
      | no other ↦ rw (get_or-set_ne ws _ 0 other) (ground arith)
    ]

pub set_bit-length : (ws : Words) (a : ℕ) → length (set_bit ws a) ≡ length ws
unfolding set_bit
set_bit-length ws a = length-set ws _ _

clear_bit-length : (ws : Words) (a : ℕ) → length (clear_bit ws a) ≡ length ws
unfolding clear_bit
clear_bit-length ws a = length-set ws _ _

-- After `set_bit` the number is taken, and every other one is as before.
pub is_free-set_bit :
    (ws : Words) (a b : ℕ)
    → InMap ws a
    → is_free (set_bit ws a) b ≡ (if a == b then false else is_free ws b)
is_free-set_bit ws a b h =
    rw (is_free-bit_at (set_bit ws a) b, is_free-bit_at ws b, bit_at-set_bit ws a b h)
      (ground arith)

-- After `clear_bit` the number is free, and every other one is as before.
pub is_free-clear_bit :
    (ws : Words) (a b : ℕ)
    → InMap ws a
    → is_free (clear_bit ws a) b ≡ (if a == b then true else is_free ws b)
is_free-clear_bit ws a b h =
    rw (is_free-bit_at (clear_bit ws a) b, is_free-bit_at ws b, bit_at-clear_bit ws a b h)
      (ground arith)

-- `first ≤ b < first + n`
abbrev pub in_run : ℕ → ℕ → ℕ → Bool
in_run first n b = leb first b && ltb b (first + n)

pub set_run-length : (ws : Words) (first n : ℕ) → length (set_run ws first n) ≡ length ws
unfolding set_run
set_run-length ws first zero = refl
set_run-length ws first (suc n) =
    set_run-length (set_bit ws first) (suc first) n ∙ set_bit-length ws first

-- The numbers of the run are taken, and the others are as before.
pub is_free-set_run :
    (ws : Words) (first n b : ℕ)
    → first + n ≤ length ws * word_size
    → is_free (set_run ws first n) b ≡ (if in_run first n b then false else is_free ws b)
unfolding set_run
is_free-set_run ws first zero b h = ground arith
is_free-set_run ws first (suc n) b h =
    is_free-set_run (set_bit ws first) (suc first) n b (rw set_bit-length (omega arith))
    ∙ rw (is_free-set_bit ws first b (omega arith)) (ground arith)

-- The numbers of the run are free, and the others are as before.
pub is_free-clear_run :
    (ws : Words) (first n b : ℕ)
    → first + n ≤ length ws * word_size
    → is_free (clear_run ws first n) b ≡ (if in_run first n b then true else is_free ws b)
unfolding clear_run
is_free-clear_run ws first zero b h = ground arith
is_free-clear_run ws first (suc n) b h =
    is_free-clear_run (clear_bit ws first) (suc first) n b (rw clear_bit-length (omega arith))
    ∙ rw (is_free-clear_bit ws first b (omega arith)) (ground arith)
