-- ===== src/Text/Decimal/Tests.antt =====
-- The theorems on one number.
use tpe_so.Base.{◌≡◌, refl, [], ◌∷◌, ℤ, negsuc, arith}
use tpe_so.Text.{str_len, swap, reverse_from, reverse}
use tpe_so.Text.Decimal.{itoa, scanfi}
use tpe_so.Text.Decimal.RoundTrip.{scanfi-itoa}

-- -1207
abbrev sample : ℤ
sample = negsuc 1206

scanfi-itoa_example : scanfi (itoa sample) ≡ (sample, str_len (itoa sample))
scanfi-itoa_example = scanfi-itoa sample (omega arith) (omega arith)

-- The least `int` is printed as "-(".
itoa_least : itoa (negsuc 0x7fffffff) ≡ 45 ∷ 40 ∷ 0 ∷ []
unfolding itoa reverse reverse_from swap str_len
itoa_least = refl
