-- ===== src/Keyboard.antt =====
-- The buffer of typed characters of a terminal (Chinux/src/keyboard.c).
pub mod Stack
pub mod Typed
pub mod Edit
pub mod Codes
pub mod Typable
pub mod Tests
use tpe_so.Base.{
  ℕ, zero, suc, ◌+◌, ◌-◌, ◌%◌, ◌^◌, ◌==◌, leb, ltb, not, ◌&&◌, ◌||◌, Bool, true, false,
  if◌then◌else◌, List, [], ◌∷◌, get_or, set,
}

abbrev pub buffer_size : ℕ
buffer_size = 256

-- `KEY_BUFFER`
pub record KeyBuffer : Type 0 where
  pub array : List ℕ
  pub actual_char : ℕ
  pub first_char : ℕ
  pub size : ℕ

-- `addCharToBuff`: whether there was room, and the buffer.
unfoldable pub add_char_to_buff : KeyBuffer → ℕ → Bool × KeyBuffer
add_char_to_buff b c =
    if ltb b.size buffer_size
    then (
      true,
      record b {
        array = set b.array ((b.actual_char + 1) % buffer_size) c;
        actual_char = (b.actual_char + 1) % buffer_size;
        size = suc b.size;
      },
    )
    else (false, b)

-- `deleteCharFromBuff`, without what it clears on the screen.
unfoldable pub delete_char_from_buff : KeyBuffer → KeyBuffer
delete_char_from_buff b =
    if not (b.size == 0)
    then record b {
      actual_char = if b.actual_char == 0 then buffer_size - 1 else b.actual_char - 1;
      size = b.size - 1;
    }
    else b

-- `clearTerminalBuffer_in_kernel`. `%` binds before `+`, so `first_char` may become 256.
unfoldable pub clear_terminal_buffer : KeyBuffer → KeyBuffer
clear_terminal_buffer b = record b { first_char = b.actual_char + 1 % buffer_size; size = 0 }

-- Whether the read stops: `first_char` is unsigned, of 32 bits.
unfoldable pub nothing_left : KeyBuffer → Bool → Bool
nothing_left b flag =
    ((b.actual_char == (b.first_char + (2 ^ 32 - 1)) % 2 ^ 32)
      || ((b.actual_char == buffer_size - 1) && (b.first_char == 0)))
    && flag

-- The loop of `readKeyboard` with `n` characters still to read: what it puts in the buffer.
unfoldable pub read_chars : ℕ → KeyBuffer → Bool → List ℕ × KeyBuffer
read_chars zero b flag = ([], b)
read_chars (suc n) b flag =
    let c = get_or b.array (b.first_char % buffer_size) 0 in
    let (cs, b') = read_chars n (record b { first_char = (b.first_char + 1) % 2 ^ 32 }) true in
    if nothing_left b flag then ([], b) else (c ∷ cs, b')

-- `readKeyboard`
unfoldable pub read_keyboard : KeyBuffer → ℕ → List ℕ × KeyBuffer
read_keyboard b count =
    if not (b.size == 0)
    then read_chars count b (not (leb buffer_size b.size || (b.size == 0)))
    else ([], b)

-- What the handler of the keyboard does to the buffer for a character and for the backspace key.
pub data Key : Type 0 where
  character : ℕ → Key
  backspace : Key

unfoldable pub press : KeyBuffer → Key → KeyBuffer
press b (character c) = (add_char_to_buff b c).1
press b backspace = if not (b.size == 0) then delete_char_from_buff b else b

unfoldable pub press_all : KeyBuffer → List Key → KeyBuffer
press_all b [] = b
press_all b (key ∷ keys) = press_all (press b key) keys
