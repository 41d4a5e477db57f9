-- ===== src/Keyboard/Tests.antt =====
-- The theorems on a buffer that has been wrapped round.
use tpe_so.Base.{◌≡◌, refl, List, [], ◌∷◌, replicate, arith, ℕ, ◌↔◌, Bool, true}
use tpe_so.Keyboard.{
  KeyBuffer, clear_terminal_buffer, read_keyboard, Key, character, backspace, press_all,
}
use tpe_so.Keyboard.Stack.{IsBuffer}
use tpe_so.Keyboard.Typed.{backwards}
use tpe_so.Keyboard.Codes.{Modifiers, types, event}
use tpe_so.Keyboard.Typable.{typable, typable_lem}
use tpe_so.Keyboard.Edit.{edit_all, read_keyboard-press_all}

-- Two characters, in the last place and in the first.
abbrev wrapped : KeyBuffer
wrapped = record { array = replicate 256 97; actual_char = 0; first_char = 255; size = 2 }

wrapped-IsBuffer : IsBuffer wrapped
wrapped-IsBuffer = record { places = refl; inside = omega arith; bounded = omega arith }

-- "ab", backspace, "c"
abbrev corrected : List Key
corrected = character 97 ∷ character 98 ∷ backspace ∷ character 99 ∷ []

read_keyboard_example :
    let b' = press_all (clear_terminal_buffer wrapped) corrected in
    (read_keyboard b' b'.size).0 ≡ backwards (edit_all [] corrected)
read_keyboard_example = read_keyboard-press_all wrapped corrected wrapped-IsBuffer

typable_example :
    ((m : Modifiers) × (usr_loged : Bool) × (code : ℕ) × (event m usr_loged code ≡ types 65))
    ↔ (typable 65 ≡ true)
typable_example = typable_lem 65
