-- ===== src/Shell/Tests.antt =====
-- The theorems on short commands.
use tpe_so.Base.{
  ℕ, ◌*◌, ◌≤◌, ◌≡◌, refl, true, false, List, [], ◌∷◌, length, get_elem?, some, replicate, arith,
}
use tpe_so.FileSystem.Memory.{cleared}
use tpe_so.Keyboard.{KeyBuffer, read_keyboard}
use tpe_so.Keyboard.Typed.{Unread}
use tpe_so.Shell.{row_size, splitbuffer}
use tpe_so.Shell.Words.{words, joined, Holds}
use tpe_so.Shell.Splitting.{splitbuffer_lem}
use tpe_so.Shell.History.{History, save_command, show_last_command}
use tpe_so.Shell.Saving.{show_last_command-save_command}

-- "cd a"
abbrev command : List ℕ
command = 99 ∷ 100 ∷ 32 ∷ 97 ∷ []

splitbuffer_example :
    let m' = splitbuffer cleared command in
    (joined (words 9 command) ≡ command)
    × ((n : ℕ) (w : List ℕ) → get_elem? (words 9 command) n ≡ some w → Holds m' (row_size * n) w)
    × ((x : ℕ) → row_size * length (words 9 command) ≤ x → m' x ≡ cleared x)
splitbuffer_example = splitbuffer_lem cleared command (omega arith)

-- Two characters have been typed, in the last place and in the first.
abbrev typed : KeyBuffer
typed = record { array = replicate 256 97; actual_char = 0; first_char = 255; size = 2 }

typed-Unread : Unread typed
typed-Unread = record {
  buffer = record { places = refl; inside = omega arith; bounded = omega arith };
  begins = refl;
  low = omega arith;
}

-- No command yet.
abbrev no_command : History
no_command = record {
  stored = λ i. replicate 257 0;
  sto_i = 99;
  sel_com = 99;
  arrow_pressed = false;
}

show_last_command_example :
    (h' : History) × (b' : KeyBuffer) × (show_last_command
        (save_command no_command (108 ∷ 115 ∷ 0 ∷ []) 2)
        true
        typed
      ≡ some (h', b'))
    × ((read_keyboard b' b'.size).0 ≡ 108 ∷ 115 ∷ [])
show_last_command_example =
    show_last_command-save_command no_command typed (108 ∷ 115 ∷ []) (0 ∷ []) typed-Unread
      ((λ e. omega arith), ((λ e. omega arith), tt)) (omega arith) (omega arith) (λ i. refl)
      (omega arith) (λ e. omega arith)
