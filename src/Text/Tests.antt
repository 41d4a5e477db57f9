-- ===== src/Text/Tests.antt =====
-- The theorems on short strings.
use tpe_so.Base.{◌≡◌, ◌↔◌, true, [], ◌∷◌, get_or, arith}
use tpe_so.Text.{Chars, str_len, reverse, strcmp}
use tpe_so.Text.Reverse.{reverse_lem}
use tpe_so.Text.Compare.{text, strcmp_lem}

-- "abc", with a character behind its end.
abbrev abc : Chars
abc = 97 ∷ 98 ∷ 99 ∷ 0 ∷ 120 ∷ []

-- "abc" again, with other memory behind.
abbrev other_abc : Chars
other_abc = 97 ∷ 98 ∷ 99 ∷ 0 ∷ []

reverse_example : get_or (reverse abc) 0 0 ≡ 99
unfolding str_len
reverse_example = reverse_lem abc 0 (omega arith)

strcmp_example : (strcmp abc other_abc ≡ true) ↔ (text abc ≡ text other_abc)
unfolding str_len
strcmp_example = strcmp_lem abc other_abc (omega arith) (omega arith)
