-- ===== src/Keyboard/Edit.antt =====
-- Keys pressed between two commands, against a line that is edited.
use tpe_so.Base.{
  ℕ, zero, suc, ◌-◌, ◌==◌, ltb, ◌≡◌, refl, sym, ap, subst, ◌∙◌, inl, inr, true, false, Bool-cases,
  if◌then◌else◌, List, [], ◌∷◌, length, arith,
}
use tpe_so.Keyboard.{
  buffer_size, KeyBuffer, add_char_to_buff, delete_char_from_buff, clear_terminal_buffer,
  read_keyboard, Key, character, backspace, press, press_all,
}
use tpe_so.Keyboard.Stack.{
  prev, line, line_from, IsBuffer, add_char_to_buff_lem, delete_char_from_buff_lem,
}
use tpe_so.Keyboard.Typed.{Unread, backwards, read_keyboard-line}

-- The line that a person sees, its last character first: of 256 characters at most.
abbrev pub edit : List ℕ → Key → List ℕ
edit s (character c) = if ltb (length s) buffer_size then c ∷ s else s
edit [] backspace = []
edit (c ∷ s) backspace = s

abbrev pub edit_all : List ℕ → List Key → List ℕ
edit_all s [] = s
edit_all s (key ∷ keys) = edit_all (edit s key) keys

length-line_from : (array : List ℕ) (a n : ℕ) → length (line_from array a n) ≡ n
unfolding line_from
length-line_from array a zero = refl
length-line_from array a (suc n) = ap suc (length-line_from array (prev a) n)

pub length-line : (b : KeyBuffer) → length (line b) ≡ b.size
unfolding line
length-line b = length-line_from b.array b.actual_char b.size

-- A backspace on an empty buffer is refused by either test.
pub press-backspace : (b : KeyBuffer) → press b backspace ≡ delete_char_from_buff b
unfolding press delete_char_from_buff
press-backspace b = elim (Bool-cases (b.size == 0)) [ inl e ↦ rw e refl | inr e ↦ rw e refl ]

pub line-empty : (b : KeyBuffer) → b.size ≡ 0 → line b ≡ []
unfolding line line_from
line-empty b e = ap (line_from b.array b.actual_char) e

pub edit-press : (b : KeyBuffer) (key : Key) → IsBuffer b → line (press b key) ≡ edit (line b) key
unfolding press
edit-press b (character c) w = elim (add_char_to_buff_lem b c w).1 [
  | inl (full, e, same) ↦
      let refused : ltb (length (line b)) buffer_size ≡ false =
        rw (length-line b) (ground (arith, full)) in
      rw refused (ap line same)
  | inr (room, e, taken) ↦
      let accepted : ltb (length (line b)) buffer_size ≡ true =
        rw (length-line b) (ground (arith, room)) in
      rw accepted taken
]
edit-press b backspace w = ap line (press-backspace b) ∙ elim (delete_char_from_buff_lem b w).1 [
  | inl (empty, same) ↦ ap line same ∙ empty ∙ sym (ap (λ s. edit s backspace) empty)
  | inr (c, cut) ↦ sym (ap (λ s. edit s backspace) cut)
]

begins-add : (b : KeyBuffer) (c : ℕ) → Unread b → Unread (add_char_to_buff b c).1
unfolding add_char_to_buff
begins-add b c u =
    let buffer : IsBuffer (add_char_to_buff b c).1 = (add_char_to_buff_lem b c u.buffer).0 in
    let at = u.begins in
    let low = u.low in
    elim (Bool-cases (ltb b.size buffer_size)) [
      | inl e ↦ rw e record { buffer = rw e at buffer; begins = omega arith; low = low }
      | inr e ↦ rw e u
    ]

pub size-delete : (b : KeyBuffer) → (delete_char_from_buff b).size ≡ b.size - 1
unfolding delete_char_from_buff
size-delete b = elim (Bool-cases (b.size == 0)) [
  | inl e ↦ rw e (ground (arith, e))
  | inr e ↦ rw e refl
]

pub begins-delete : (b : KeyBuffer) → Unread b → Unread (delete_char_from_buff b)
unfolding delete_char_from_buff
begins-delete b u =
    let buffer : IsBuffer (delete_char_from_buff b) = (delete_char_from_buff_lem b u.buffer).0 in
    let at = u.begins in
    let inside = u.buffer.inside in
    let low = u.low in
    elim (Bool-cases (b.size == 0)) [
      | inl e ↦ rw e u
      | inr e ↦ rw e record { buffer = rw e at buffer; begins = ground (arith, e); low = low }
    ]

press-Unread : (b : KeyBuffer) (key : Key) → Unread b → Unread (press b key)
unfolding press
press-Unread b (character c) u = begins-add b c u
press-Unread b backspace u =
    subst Unread (sym (unfold press in press-backspace b)) (begins-delete b u)

pub press_all-Unread : (b : KeyBuffer) (keys : List Key) → Unread b → Unread (press_all b keys)
unfolding press_all
press_all-Unread b [] u = u
press_all-Unread b (key ∷ keys) u = press_all-Unread (press b key) keys (press-Unread b key u)

pub edit-press_all :
    (b : KeyBuffer) (keys : List Key) → Unread b → line (press_all b keys) ≡ edit_all (line b) keys
unfolding press_all
edit-press_all b [] u = refl
edit-press_all b (key ∷ keys) u =
    edit-press_all (press b key) keys (press-Unread b key u)
    ∙ ap (λ s. edit_all s keys) (edit-press b key u.buffer)

clear-Unread : (b : KeyBuffer) → IsBuffer b → Unread (clear_terminal_buffer b)
unfolding clear_terminal_buffer
clear-Unread b w =
    let inside = w.inside in
    record {
      buffer = record { places = w.places; inside = w.inside; bounded = omega arith };
      begins = omega arith;
      low = omega arith;
    }

-- What the shell reads is the line that has been edited since the last command: after
-- `clearTerminalBuffer`, whatever characters and backspaces follow, `readKeyboard` of as many characters
-- as are counted gives the edited line in the order of typing. Wherever the buffer's places stand.
pub read_keyboard-press_all :
    (b : KeyBuffer) (keys : List Key)
    → IsBuffer b
    → let b' = press_all (clear_terminal_buffer b) keys in
      (read_keyboard b' b'.size).0 ≡ backwards (edit_all [] keys)
read_keyboard-press_all b keys w =
    let u = clear-Unread b w in
    read_keyboard-line (press_all (clear_terminal_buffer b) keys) (press_all-Unread _ keys u)
    ∙ ap backwards (edit-press_all (clear_terminal_buffer b) keys u)
    ∙ unfold clear_terminal_buffer line line_from in refl
