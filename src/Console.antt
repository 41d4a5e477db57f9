-- ===== src/Console.antt =====
-- The handler of the keyboard, `int_09` (Chinux/src/keyboard.c), for the keys of a line: the buffer of the
-- terminal shown, and the echo on the screen.
pub mod Steps
pub mod Echo
pub mod Tests
use tpe_so.Base.{◌==◌, Bool, true, false, if◌then◌else◌, Option, none, some, List, [], ◌∷◌, get_or}
use tpe_so.Keyboard.{KeyBuffer, add_char_to_buff, delete_char_from_buff, Key, character, backspace}
use tpe_so.Screen.{Screen, putc, erase_screen, blank}

-- The screen, the buffer of the terminal shown, and whether a password is being typed.
pub record Console : Type 0 where
  pub screen : Screen
  pub buffer : KeyBuffer
  pub password : Bool

-- The handler works for the terminal that is shown, and sets `currentProcessTTY` back at its end, with
-- `keypressed` FALSE.
unfoldable pub for_shown : Screen → Bool → Screen
for_shown sc key = record sc { current_process_tty = sc.current_tty; keypressed = key }

unfoldable pub set_back : Screen → Screen → Screen
set_back aux sc = record sc { current_process_tty = aux.current_process_tty; keypressed = false }

-- The end of `int_09` for a character: its echo.
unfoldable pub echo_typed : Console → Bool → KeyBuffer → Console
echo_typed st key b = record st {
  screen =
      if key
      then (if st.password
          then set_back st.screen (for_shown st.screen true)
          else set_back st.screen
              (putc (for_shown st.screen true) (get_or b.array b.actual_char 0)))
      else set_back st.screen (for_shown st.screen false);
  buffer = b;
}

-- `deleteCharFromBuff`, with what it clears on the screen.
unfoldable pub erase_typed : Console → Option Screen → Option Console
erase_typed st none = none
erase_typed st (some sc) =
    some (record st { screen = set_back st.screen sc; buffer = delete_char_from_buff st.buffer })

-- `int_09` for a character's key and for the backspace key. `none` where the screen would be erased in
-- front of its memory.
unfoldable pub int_09 : Console → Key → Option Console
int_09 st (character c) = let (key, b) = add_char_to_buff st.buffer c in some (echo_typed st key b)
int_09 st backspace =
    let sc = for_shown st.screen false in
    if st.buffer.size == 0
    then some (record st { screen = set_back st.screen sc })
    else erase_typed st (if st.password then some sc else erase_screen sc (blank ∷ []))

unfoldable pub int_09_from : Option Console → List Key → Option Console
int_09_from none keys = none
int_09_from (some st) [] = some st
int_09_from (some st) (key ∷ keys) = int_09_from (int_09 st key) keys
