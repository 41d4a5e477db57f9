-- ===== src/Console/Echo.antt =====
-- What a person sees is the line that the buffer holds.
use tpe_so.Base.{
  ◌==◌, ==_iff, false, Bool-cases, if◌then◌else◌, ◌≡◌, refl, sym, ap, subst, ◌∙◌, inl, inr, some,
  List, [], ◌∷◌, length, All, arith,
}
use tpe_so.Keyboard.{add_char_to_buff, Key, character, backspace, press}
use tpe_so.Keyboard.Stack.{line, add_char_to_buff_lem, delete_char_from_buff_lem}
use tpe_so.Keyboard.Edit.{edit, edit_all, edit-press, length-line, line-empty}
use tpe_so.Screen.{erase_screen, blank}
use tpe_so.Screen.Tape.{Tape, type_char}
use tpe_so.Screen.Erase.{take_back}
use tpe_so.Console.{Console, for_shown, set_back, echo_typed, erase_typed, int_09, int_09_from}
use tpe_so.Console.Steps.{
  Echoed, IsLineKey, taken-Echoed, erased-Echoed, same-Echoed, echo_typed-echoed, line-head,
}

-- One key.
int_09_key :
    (st : Console) (tape : Tape) (key : Key)
    → Echoed st tape
    → IsLineKey key
    → (st' : Console) × (tape' : Tape) × (int_09 st key ≡ some st')
      × Echoed st' tape'
      × (line st'.buffer ≡ edit (line st.buffer) key)
unfolding int_09 echo_typed press
int_09_key st tape (character c) w plain =
    let added = add_char_to_buff st.buffer c in
    let st' = echo_typed st added.0 added.1 in
    let line_after : line added.1 ≡ edit (line st.buffer) (character c) =
      edit-press st.buffer (character c) w.is_buffer in
    elim (add_char_to_buff_lem st.buffer c w.is_buffer).1 [
      | inl (is_full, refused, same) ↦ (
        st',
        tape,
        refl,
        subst (λ key. Echoed (echo_typed st key added.1) tape) (sym refused)
            (same-Echoed st tape added.1 w same),
        line_after,
      )
      | inr (room, accepted, taken) ↦ (
        st',
        type_char tape c,
        refl,
        subst (λ key. Echoed (echo_typed st key added.1) (type_char tape c)) (sym accepted)
            (subst (λ s. Echoed s (type_char tape c))
              (sym (echo_typed-echoed st added.1 c w.echoing (line-head added.1 c _ taken)))
              (taken-Echoed st tape added.1 c w plain
                (add_char_to_buff_lem st.buffer c w.is_buffer).0 taken)),
        line_after,
      )
    ]
int_09_key st tape backspace w plain = elim (Bool-cases (st.buffer.size == 0)) [
  | inl e ↦
      let no_line = line-empty st.buffer ((==_iff st.buffer.size 0).0 e) in
      (
        record st { screen = set_back st.screen (for_shown st.screen false) },
        tape,
        ap
            (λ z.
              if z
              then some (record st { screen = set_back st.screen (for_shown st.screen false) })
              else erase_typed st (
                  if st.password
                  then some (for_shown st.screen false)
                  else erase_screen (for_shown st.screen false) (blank ∷ [])))
            e,
        same-Echoed st tape st.buffer w refl,
        no_line ∙ sym (ap (λ s. edit s backspace) no_line),
      )
  | inr e ↦ elim (delete_char_from_buff_lem st.buffer w.is_buffer).1 [
    | inl (no_line, same) ↦
        let none_counted = sym (length-line st.buffer) ∙ ap length no_line in
        absurd (ground (arith, e, none_counted))
    | inr (c, cut) ↦
        let (st', done, buffer, echoed_after) =
          erased-Echoed st tape c w (ground (arith, e))
            (delete_char_from_buff_lem st.buffer w.is_buffer).0 cut in
        (
          st',
          take_back tape,
          done,
          echoed_after,
          ap line buffer ∙ sym (ap (λ s. edit s backspace) cut),
        )
  ]
]

int_09_from-step :
    (st : Console) (key : Key) (keys : List Key) (st' : Console)
    → int_09 st key ≡ some st'
    → int_09_from (some st) (key ∷ keys) ≡ int_09_from (some st') keys
unfolding int_09_from
int_09_from-step st key keys st' e = ap (λ s. int_09_from s keys) e

-- What a person sees is the line that the shell will read. Whatever characters and backspaces are typed,
-- the handler never erases in front of the screen, the buffer holds the line as edited, and the terminal
-- shown ends in it before its cursor. To begin with it does, no password is asked for, and no new line
-- or tab is among the characters.
pub int_09_from_lem :
    (keys : List Key) (st : Console) (tape : Tape)
    → Echoed st tape
    → All IsLineKey keys
    → (st' : Console) × (tape' : Tape) × (int_09_from (some st) keys ≡ some st')
      × Echoed st' tape'
      × (line st'.buffer ≡ edit_all (line st.buffer) keys)
unfolding int_09_from
int_09_from_lem [] st tape w plain = (st, tape, refl, w, refl)
int_09_from_lem (key ∷ keys) st tape w plain =
    let (st1, tape1, first, w1, line1) = int_09_key st tape key w plain.0 in
    let (st', tape', later, w', line') = int_09_from_lem keys st1 tape1 w1 plain.1 in
    (
      st',
      tape',
      int_09_from-step st key keys st1 first ∙ later,
      w',
      line' ∙ ap (λ s. edit_all s keys) line1,
    )
