-- ===== src/Text.antt =====
-- Text in memory (Chinux/src/utils.c): a `char *` is the characters from there on, and a string ends
-- before its first 0.
pub mod Reverse
pub mod Compare
pub mod Decimal
pub mod Tests
use tpe_so.Base.{
  ℕ, zero, suc, ◌-◌, ◌==◌, ltb, not, Bool, true, false, ◌&&◌, if◌then◌else◌, List, [], ◌∷◌, get_or,
  set,
}

abbrev pub Chars : Type 0
Chars = List ℕ

-- `str_len`. The memory behind the last character listed is not read by a string that ends in it.
unfoldable pub str_len : Chars → ℕ
str_len [] = 0
str_len (c ∷ s) = let rest = str_len s in if c == 0 then 0 else suc rest

-- The three assignments of the loop of `reverse`.
unfoldable pub swap : Chars → ℕ → ℕ → Chars
swap s i j = let c = get_or s i 0 in set (set s i (get_or s j 0)) j c

-- The loop of `reverse`, for at most `n` rounds.
unfoldable pub reverse_from : ℕ → Chars → ℕ → ℕ → Chars
reverse_from zero s i j = s
reverse_from (suc n) s i j =
    let rest = reverse_from n (swap s i j) (suc i) (j - 1) in if ltb i j then rest else s

-- `reverse`. Of an empty string `j` is -1 in the code, and no round is made either way.
unfoldable pub reverse : Chars → Chars
reverse s = reverse_from (str_len s) s 0 (str_len s - 1)

-- `strcmp`, the index being the same in both.
unfoldable pub strcmp : Chars → Chars → Bool
strcmp [] t = false
strcmp (a ∷ s) [] = false
strcmp (a ∷ s) (b ∷ t) =
    let rest = strcmp s t in
    if not (a == 0) && not (b == 0)
    then (if not (a == b) then false else rest)
    else (if (a == 0) && (b == 0) then true else false)
