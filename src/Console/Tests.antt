-- ===== src/Console/Tests.antt =====
-- The theorem on a screen that is filled to its last place.
use tpe_so.Base.{◌≡◌, refl, false, List, [], ◌∷◌, some, replicate, arith}
use tpe_so.Keyboard.{Key, character, backspace}
use tpe_so.Keyboard.Stack.{line}
use tpe_so.Keyboard.Edit.{edit_all}
use tpe_so.Screen.Tape.{Tape}
use tpe_so.Screen.Tests.{full_screen, full_tape, full_screen-Shows}
use tpe_so.Console.{Console, int_09_from}
use tpe_so.Console.Steps.{Echoed}
use tpe_so.Console.Echo.{int_09_from_lem}

-- Nothing has been typed.
abbrev waiting : Console
waiting = record {
  screen = full_screen;
  buffer = record { array = replicate 256 0; actual_char = 255; first_char = 0; size = 0 };
  password = false;
}

waiting-Echoed : Echoed waiting full_tape
waiting-Echoed = record {
  is_buffer = record { places = refl; inside = omega arith; bounded = omega arith };
  shows = full_screen-Shows;
  seen = λ k l. absurd (omega arith);
  room = omega arith;
  echoing = refl;
}

-- "ls", with a letter that is taken back
abbrev keys_of_ls : List Key
keys_of_ls = character 108 ∷ character 97 ∷ backspace ∷ character 115 ∷ []

int_09_from_example :
    (st' : Console) × (tape' : Tape) × (int_09_from (some waiting) keys_of_ls ≡ some st')
    × Echoed st' tape'
    × (line st'.buffer ≡ edit_all (line waiting.buffer) keys_of_ls)
int_09_from_example = int_09_from_lem keys_of_ls waiting full_tape waiting-Echoed (
  (ground arith, ground arith),
  ((ground arith, ground arith), (tt, ((ground arith, ground arith), tt))),
)
