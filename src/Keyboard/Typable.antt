-- ===== src/Keyboard/Typable.antt =====
-- Which characters a person can type.
use tpe_so.Base.{
  ℕ, zero, suc, ◌-◌, ◌<◌, ◌==◌, leb, not, Bool, true, false, Bool-cases, ◌&&◌, ◌||◌, if◌then◌else◌,
  ◌↔◌, ◌≡◌, ◌≢◌, refl, sym, ap, ◌∙◌, inl, inr, ℕ_discrete, List, [], ◌∷◌, get_or, minus_one, Option,
  none, some, arith,
}
use tpe_so.Keyboard.Codes.{
  Modifiers, is_shifted, typed_by, is_modifier, Event, modifier, erase_last, end_line, arrow_up,
  arrow_down, kill_current, change_tty, types, ignored, event, event_of,
}

-- Printable characters but five, and 0, which the tabulator's key gives.
abbrev pub typable : ℕ → Bool
typable c =
    (c == 0) || (leb 32 c && leb c 125 && not ((c == 42) || (c == 63) || (c == 94) || (c == 96)))

-- A test that holds below a bound.
abbrev all_below : ℕ → (ℕ → Bool) → Bool
all_below zero f = true
all_below (suc n) f = let rest = all_below n f in if f n then rest else false

all_below-true : (n k : ℕ) (f : ℕ → Bool) → all_below n f ≡ true → k < n → f k ≡ true
all_below-true zero k f h l = absurd (omega arith)
all_below-true (suc n) k f h l = elim (Bool-cases (f n)) [
  | inr e ↦ let g = rw e at h in cc
  | inl e ↦ elim (ℕ_discrete k n) [
    | yes d ↦ ap f d ∙ e
    | no d ↦ all_below-true n k f (rw e at h) (omega arith)
  ]
]

abbrev holds : Option ℕ → Bool
holds none = true
holds (some c) = typable c

codes_checked : (shifted : Bool) → all_below 84 (λ code. holds (typed_by shifted code)) ≡ true
unfolding typed_by
codes_checked true = refl
codes_checked false = refl

ladder :
    (a p b : Bool) (x : Option ℕ)
    → b ≡ false
    → (if a then none else if p && b then x else none) ≡ none
ladder true p b x e = refl
ladder false true b x e = rw e refl
ladder false false b x e = refl

typed_by-far : (shifted : Bool) (code : ℕ) → leb code 83 ≡ false → typed_by shifted code ≡ none
unfolding typed_by
typed_by-far shifted code e = ladder _ (leb 2 code) (leb code 83) _ e

typed_by-holds : (shifted : Bool) (code : ℕ) → holds (typed_by shifted code) ≡ true
typed_by-holds shifted code = elim (Bool-cases (leb code 83)) [
  | inl e ↦
      all_below-true 84 code (λ k. holds (typed_by shifted k)) (codes_checked shifted)
        (ground (arith, e))
  | inr e ↦ ap holds (typed_by-far shifted code e)
]

typed_by-typable : (shifted : Bool) (code c : ℕ) → typed_by shifted code ≡ some c → typable c ≡ true
typed_by-typable shifted code c e = ap holds (sym e) ∙ typed_by-holds shifted code

event_of-types : (o : Option ℕ) (c : ℕ) → event_of o ≡ types c → o ≡ some c
event_of-types none c e = cc
event_of-types (some d) c e = cc

-- A case that does not type is not the one.
skip : (c : ℕ) (b : Bool) (x y : Event) → x ≢ types c → (if b then x else y) ≡ types c → y ≡ types c
skip c true x y n e = absurd (n e)
skip c false x y n e = e

event-types :
    (m : Modifiers) (usr_loged : Bool) (code c : ℕ)
    → event m usr_loged code ≡ types c
    → typed_by (is_shifted m) code ≡ some c
unfolding event
event-types m usr_loged code c e = event_of-types (typed_by (is_shifted m) code) c (
    skip c _ (change_tty (code - 2)) _ (λ f. cc)
      (skip c _ kill_current _ (λ f. cc)
        (skip c _ end_line _ (λ f. cc)
          (skip c _ erase_last _ (λ f. cc)
            (skip c _ arrow_down _ (λ f. cc)
              (skip c _ arrow_up _ (λ f. cc) (skip c _ modifier _ (λ f. cc) e)))))))

-- A key for each typable character: its code, and 128 more where the shift key is held.
abbrev keys : List ℕ
keys =
    15 ∷ 1 ∷ 1 ∷ 1 ∷ 1 ∷ 1 ∷ 1 ∷ 1 ∷ 1 ∷ 1 ∷ 1 ∷ 1 ∷ 1 ∷ 1 ∷ 1 ∷ 1 ∷ 1 ∷ 1 ∷ 1 ∷ 1 ∷ 1 ∷ 1 ∷ 1 ∷ 1
    ∷ 1 ∷ 1 ∷ 1 ∷ 1 ∷ 1 ∷ 1 ∷ 1 ∷ 1 ∷ 57 ∷ 130 ∷ 168 ∷ 132 ∷ 133 ∷ 134 ∷ 135 ∷ 40 ∷ 137 ∷ 138 ∷ 1
    ∷ 141 ∷ 51 ∷ 12 ∷ 52 ∷ 136 ∷ 11 ∷ 2 ∷ 3 ∷ 4 ∷ 5 ∷ 6 ∷ 7 ∷ 8 ∷ 9 ∷ 10 ∷ 167 ∷ 39 ∷ 179 ∷ 13 ∷ 180
    ∷ 1 ∷ 131 ∷ 158 ∷ 176 ∷ 174 ∷ 160 ∷ 146 ∷ 161 ∷ 162 ∷ 163 ∷ 151 ∷ 164 ∷ 165 ∷ 166 ∷ 178 ∷ 177
    ∷ 152 ∷ 153 ∷ 144 ∷ 147 ∷ 159 ∷ 148 ∷ 150 ∷ 175 ∷ 145 ∷ 173 ∷ 149 ∷ 172 ∷ 26 ∷ 43 ∷ 27 ∷ 1 ∷ 140
    ∷ 1 ∷ 30 ∷ 48 ∷ 46 ∷ 32 ∷ 18 ∷ 33 ∷ 34 ∷ 35 ∷ 23 ∷ 36 ∷ 37 ∷ 38 ∷ 50 ∷ 49 ∷ 24 ∷ 25 ∷ 16 ∷ 19
    ∷ 31 ∷ 20 ∷ 22 ∷ 47 ∷ 17 ∷ 45 ∷ 21 ∷ 44 ∷ 154 ∷ 171 ∷ 155 ∷ []

abbrev held : ℕ → Modifiers
held k = record {
  shift_state = leb 128 k;
  ctrl_state = false;
  alt_state = false;
  supr_state = false;
  caps_lock = minus_one;
}

abbrev is_typed : Event → ℕ → Bool
is_typed (types d) c = d == c
is_typed _ c = false

abbrev pressed : ℕ → Event
pressed c = let k = get_or keys c 0 in event (held k) false (if leb 128 k then k - 128 else k)

keys_checked : all_below 126 (λ c. not (typable c) || is_typed (pressed c) c) ≡ true
unfolding event typed_by is_shifted is_modifier
keys_checked = refl

is_typed-types : (e : Event) (c : ℕ) → is_typed e c ≡ true → e ≡ types c
is_typed-types (types d) c h = ap types (ground (arith, h))
is_typed-types modifier c h = cc
is_typed-types erase_last c h = cc
is_typed-types end_line c h = cc
is_typed-types arrow_up c h = cc
is_typed-types arrow_down c h = cc
is_typed-types kill_current c h = cc
is_typed-types (change_tty n) c h = cc
is_typed-types ignored c h = cc

-- The characters that can be typed, with some keys held and by some code, are exactly the character 0
-- and the printable ones without "*", "?", "^", "`" and "~".
pub typable_lem :
    (c : ℕ)
    → ((m : Modifiers) × (usr_loged : Bool) × (code : ℕ) × (event m usr_loged code ≡ types c))
      ↔ (typable c ≡ true)
typable_lem c = (
  (λ (m, usr_loged, code, e).
      typed_by-typable (is_shifted m) code c (event-types m usr_loged code c e)),
  (λ h.
      let k = get_or keys c 0 in
      let low : c < 126 = ground (arith, h) in
      let found : is_typed (pressed c) c ≡ true =
        let test =
          all_below-true 126 c (λ c. not (typable c) || is_typed (pressed c) c) keys_checked low in
        rw h at test in
      (held k, false, if leb 128 k then k - 128 else k, is_typed-types (pressed c) c found)),
)
