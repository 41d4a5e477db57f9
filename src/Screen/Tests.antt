-- ===== src/Screen/Tests.antt =====
-- The theorems on a screen that is filled to its last place.
use tpe_so.Base.{
  ◌-◌, ◌*◌, ◌%◌, ◌==◌, ◌≡◌, refl, inl, false, if◌then◌else◌, [], ◌∷◌, length, get_or, arith,
}
use tpe_so.Text.{Chars}
use tpe_so.Text.Compare.{text}
use tpe_so.FileSystem.Memory.{Mem}
use tpe_so.Screen.{Screen, printstr, switch_tty}
use tpe_so.Screen.Tape.{Tape, Shows}
use tpe_so.Screen.Output.{display, cursor_of, Prints}
use tpe_so.Screen.Print.{type_text, printstr_lem}
use tpe_so.Screen.Plain.{printstr-visible}
use tpe_so.Screen.Change.{switch_tty_lem}

-- Nothing but blanks.
abbrev pub empty : Mem
empty x = if x % 2 == 0 then 32 else 7

abbrev pub full_screen : Screen
full_screen = record {
  vidmem = empty;
  terminals = λ t. record { terminal = empty; curpos = 4000 };
  current_tty = 1;
  current_process_tty = 1;
  keypressed = false;
}

abbrev pub full_tape : Tape
full_tape = record { chars = λ k. 32; pos = 2000; top = 0 }

pub full_screen-Shows : Shows (display full_screen 1) (cursor_of full_screen 1) full_tape
full_screen-Shows = record {
  visible = λ k h. ground arith;
  attributes = λ k h. ground arith;
  cursor = refl;
  inside = omega arith;
  ahead = λ k h. refl;
}

-- "ok"
abbrev ok : Chars
ok = 111 ∷ 107 ∷ 0 ∷ []

printstr_example :
    let (sc', n) = printstr full_screen ok in
    Prints full_screen sc' (type_text full_tape (text ok)) × (n ≡ length (text ok))
printstr_example = printstr_lem full_screen ok full_tape (inl refl) full_screen-Shows

printstr-visible_example :
    let sc' = (printstr full_screen ok).0 in
    display sc' 1 (cursor_of sc' 1 - 2 * (length (text ok) - 1)) ≡ get_or (text ok) 1 0
printstr-visible_example =
    printstr-visible full_screen ok full_tape 1 (inl refl) full_screen-Shows
      ((ground arith, ground arith), ((ground arith, ground arith), tt)) (omega arith) (omega arith)

switch_tty_example :
    let sc' = switch_tty full_screen 3 in
    (sc'.current_tty ≡ 3)
    × (display sc' 1 0 ≡ display full_screen 1 0)
    × (cursor_of sc' 1 ≡ cursor_of full_screen 1)
switch_tty_example = switch_tty_lem full_screen 3 1 0 (omega arith)
