-- ===== src/Keyboard/Codes.antt =====
-- Scan codes (Chinux/src/keyboard.c, `int_09`): the state of the keys that modify others, and what each code
-- asks of the handler.
use tpe_so.Base.{
  ℕ, ◌-◌, ◌==◌, leb, not, Bool, true, false, ◌&&◌, ◌||◌, if◌then◌else◌, Option, none, some, List,
  [], ◌∷◌, get_or, ℤ, pos, minus_one, ◌-ℤ◌, ◌==ℤ◌,
}

-- The two rows of `shiftTable`, by the code less one.
abbrev pub plain_row : List ℕ
plain_row =
    0 ∷ 49 ∷ 50 ∷ 51 ∷ 52 ∷ 53 ∷ 54 ∷ 55 ∷ 56 ∷ 57 ∷ 48 ∷ 45 ∷ 61 ∷ 8 ∷ 0 ∷ 113 ∷ 119 ∷ 101 ∷ 114
    ∷ 116 ∷ 121 ∷ 117 ∷ 105 ∷ 111 ∷ 112 ∷ 91 ∷ 93 ∷ 10 ∷ 0 ∷ 97 ∷ 115 ∷ 100 ∷ 102 ∷ 103 ∷ 104 ∷ 106
    ∷ 107 ∷ 108 ∷ 59 ∷ 39 ∷ 96 ∷ 0 ∷ 92 ∷ 122 ∷ 120 ∷ 99 ∷ 118 ∷ 98 ∷ 110 ∷ 109 ∷ 44 ∷ 46 ∷ 47 ∷ 0
    ∷ 0 ∷ 0 ∷ 32 ∷ 0 ∷ 0 ∷ 0 ∷ 0 ∷ 0 ∷ 0 ∷ 0 ∷ 0 ∷ 0 ∷ 0 ∷ 0 ∷ 0 ∷ 0 ∷ 0 ∷ 0 ∷ 0 ∷ 0 ∷ 0 ∷ 0 ∷ 0 ∷ 0
    ∷ 0 ∷ 0 ∷ 0 ∷ 0 ∷ 0 ∷ []

abbrev pub shifted_row : List ℕ
shifted_row =
    0 ∷ 33 ∷ 64 ∷ 35 ∷ 36 ∷ 37 ∷ 38 ∷ 47 ∷ 40 ∷ 41 ∷ 61 ∷ 95 ∷ 43 ∷ 8 ∷ 0 ∷ 81 ∷ 87 ∷ 69 ∷ 82 ∷ 84
    ∷ 89 ∷ 85 ∷ 73 ∷ 79 ∷ 80 ∷ 123 ∷ 125 ∷ 10 ∷ 0 ∷ 65 ∷ 83 ∷ 68 ∷ 70 ∷ 71 ∷ 72 ∷ 74 ∷ 75 ∷ 76 ∷ 58
    ∷ 34 ∷ 126 ∷ 0 ∷ 124 ∷ 90 ∷ 88 ∷ 67 ∷ 86 ∷ 66 ∷ 78 ∷ 77 ∷ 60 ∷ 62 ∷ 63 ∷ 0 ∷ 0 ∷ 0 ∷ 32 ∷ 0 ∷ 0
    ∷ 0 ∷ 0 ∷ 0 ∷ 0 ∷ 0 ∷ 0 ∷ 0 ∷ 0 ∷ 0 ∷ 0 ∷ 0 ∷ 0 ∷ 0 ∷ 0 ∷ 0 ∷ 0 ∷ 0 ∷ 0 ∷ 0 ∷ 0 ∷ 0 ∷ 0 ∷ 0 ∷ 0
    ∷ []

-- `shift_state`, `ctrl_state`, `alt_state`, `supr_state` and `caps_lock`, which is -1 or 1.
pub record Modifiers : Type 0 where
  pub shift_state : Bool
  pub ctrl_state : Bool
  pub alt_state : Bool
  pub supr_state : Bool
  pub caps_lock : ℤ

-- The codes that only change the state of the keys.
unfoldable pub modify : Modifiers → ℕ → Modifiers
modify m code =
    if (code == 42) || (code == 54)
    then record m { shift_state = true }
    else if (code == 170) || (code == 182)
    then record m { shift_state = false }
    else if code == 29
    then record m { ctrl_state = true }
    else if code == 157
    then record m { ctrl_state = false }
    else if code == 56
    then record m { alt_state = true }
    else if code == 184
    then record m { alt_state = false }
    else if code == 58
    then record m { caps_lock = pos 0 -ℤ m.caps_lock }
    else if code == 83
    then record m { supr_state = true }
    else if code == 211
    then record m { supr_state = false }
    else m

-- Which row is read.
unfoldable pub is_shifted : Modifiers → Bool
is_shifted m =
    (m.shift_state && (m.caps_lock ==ℤ minus_one)) || (not m.shift_state && (m.caps_lock ==ℤ pos 1))

-- The end of the switch: the test looks at the place of the next key. A code behind the rows, whatever
-- stands there, types nothing either way.
unfoldable pub typed_by : Bool → ℕ → Option ℕ
typed_by shifted code =
    if (get_or plain_row code 0 == 0) && not (code == 57)
    then none
    else if leb 2 code && leb code 83
    then some (get_or (if shifted then shifted_row else plain_row) (code - 1) 0)
    else none

-- What a code asks for.
pub data Event : Type 0 where
  modifier : Event
  erase_last : Event
  end_line : Event
  arrow_up : Event
  arrow_down : Event
  kill_current : Event
  change_tty : ℕ → Event
  types : ℕ → Event
  ignored : Event

unfoldable pub is_modifier : ℕ → Bool
is_modifier code =
    (code == 42)
    || (code == 54)
    || (code == 170)
    || (code == 182)
    || (code == 29)
    || (code == 157)
    || (code == 56)
    || (code == 184)
    || (code == 58)
    || (code == 83)
    || (code == 211)

abbrev pub event_of : Option ℕ → Event
event_of none = ignored
event_of (some c) = types c

-- The switch of `int_09`.
unfoldable pub event : Modifiers → Bool → ℕ → Event
event m usr_loged code =
    if is_modifier code
    then modifier
    else if code == 72
    then arrow_up
    else if code == 80
    then arrow_down
    else if code == 14
    then erase_last
    else if code == 28
    then end_line
    else if (code == 46) && m.ctrl_state
    then kill_current
    else if leb 2 code && leb code 5 && m.alt_state && usr_loged
    then change_tty (code - 2)
    else event_of (typed_by (is_shifted m) code)
