-- ===== src/Console/Steps.antt =====
-- The echo of a key, and its taking back, keep the end of the screen's text and the line the same.
use tpe_so.Base.{
  ℕ, zero, suc, ◌+◌, ◌-◌, ◌*◌, ◌≤◌, ◌<◌, ◌==◌, true, false, if◌then◌else◌, ◌≡◌, refl, sym, ap,
  subst, ◌∙◌, inl, inr, some, List, [], ◌∷◌, get_or, length, arith,
}
use tpe_so.Keyboard.{KeyBuffer, delete_char_from_buff, Key, character, backspace}
use tpe_so.Keyboard.Stack.{line, line_from, IsBuffer}
use tpe_so.Keyboard.Edit.{length-line}
use tpe_so.Screen.{putc, erase_screen, blank}
use tpe_so.Screen.Tape.{Tape, type_char}
use tpe_so.Screen.Output.{ShowsAt, Prints}
use tpe_so.Screen.Print.{putc-Prints}
use tpe_so.Screen.Plain.{IsPlain, type_any-plain, Typed-type_char}
use tpe_so.Screen.Erase.{take_back, erase_screen_lem}
use tpe_so.Console.{Console, for_shown, set_back, echo_typed, erase_typed, int_09}

-- The terminal shown shows a tape that ends in the line, the line's first character within the window.
pub record Echoed (st : Console) (tape : Tape) : Type 0 where
  pub is_buffer : IsBuffer st.buffer
  pub shows : ShowsAt st.screen st.screen.current_tty tape
  pub seen :
      (k : ℕ) → k < st.buffer.size → tape.chars (tape.pos - 1 - k) ≡ get_or (line st.buffer) k 0
  pub room : 80 * tape.top + st.buffer.size ≤ tape.pos
  pub echoing : st.password ≡ false

abbrev pub IsLineKey : Key → Type 0
IsLineKey (character c) = IsPlain c
IsLineKey backspace = Unit

line_from-head :
    (array : List ℕ) (a n c : ℕ) (s : List ℕ) → line_from array a n ≡ c ∷ s → get_or array a 0 ≡ c
unfolding line_from
line_from-head array a zero c s e = cc
line_from-head array a (suc n) c s e = cc

pub line-head :
    (b : KeyBuffer) (c : ℕ) (s : List ℕ) → line b ≡ c ∷ s → get_or b.array b.actual_char 0 ≡ c
unfolding line
line-head b c s e = line_from-head b.array b.actual_char b.size c s e

-- The echo where no password is typed.
pub echoed : Console → KeyBuffer → ℕ → Console
echoed st b c = record st {
  screen = set_back st.screen (putc (for_shown st.screen true) c);
  buffer = b;
}

pub echo_typed-echoed :
    (st : Console) (b : KeyBuffer) (c : ℕ)
    → st.password ≡ false
    → get_or b.array b.actual_char 0 ≡ c
    → echo_typed st true b ≡ echoed st b c
unfolding echo_typed echoed
echo_typed-echoed st b c e head =
    ap
      (λ p. record st {
        screen =
            if p
            then set_back st.screen (for_shown st.screen true)
            else set_back st.screen
                (putc (for_shown st.screen true) (get_or b.array b.actual_char 0));
        buffer = b;
      })
      e
    ∙ ap
        (λ x. record st {
          screen = set_back st.screen (putc (for_shown st.screen true) x);
          buffer = b;
        })
        head

-- A character that the buffer takes stands on the tape as it does in the line.
pub taken-Echoed :
    (st : Console) (tape : Tape) (b : KeyBuffer) (c : ℕ)
    → Echoed st tape
    → IsPlain c
    → IsBuffer b
    → line b ≡ c ∷ line st.buffer
    → Echoed (echoed st b c) (type_char tape c)
unfolding echoed set_back for_shown
taken-Echoed st tape b c w plain kept taken =
    let sc = for_shown st.screen true in
    let prints : Prints sc (putc sc c) (type_char tape c) =
      rw (← type_any-plain tape c plain) (putc-Prints sc c tape (inr refl) w.shows) in
    let typed = Typed-type_char tape c in
    let size : b.size ≡ suc st.buffer.size =
      sym (length-line b) ∙ ap length taken ∙ ap suc (length-line st.buffer) in
    let moved = typed.after in
    let room = w.room in
    let bounded = kept.bounded in
    record {
      is_buffer = kept;
      shows =
          subst (λ t. ShowsAt (putc sc c) t (type_char tape c)) (sym prints.same_shown)
            prints.shown;
      seen = λ k.
          elim k
            as (λ k.
              k < b.size
              → (type_char tape c).chars ((type_char tape c).pos - 1 - k) ≡ get_or (line b) k 0) [
                | zero ↦ λ l.
                    ap (type_char tape c).chars (omega arith)
                    ∙ typed.there 0 (omega arith)
                    ∙ ap (λ s. get_or s 0 0) (sym taken)
                | suc k ↦ λ l.
                    let at : (type_char tape c).pos - 1 - suc k ≡ tape.pos - 1 - k = omega arith in
                    ap (type_char tape c).chars at
                    ∙ typed.before (tape.pos - 1 - k) (omega arith)
                    ∙ w.seen k (omega arith)
                    ∙ ap (λ s. get_or s (suc k) 0) (sym taken)
              ];
      room = elim typed.window [ inl e ↦ omega arith | inr e ↦ omega arith ];
      echoing = w.echoing;
    }

-- The backspace key takes the last character from the line and from the tape.
pub erased-Echoed :
    (st : Console) (tape : Tape) (c : ℕ)
    → Echoed st tape
    → 0 < st.buffer.size
    → IsBuffer (delete_char_from_buff st.buffer)
    → line st.buffer ≡ c ∷ line (delete_char_from_buff st.buffer)
    → (st' : Console) × (int_09 st backspace ≡ some st')
      × (st'.buffer ≡ delete_char_from_buff st.buffer)
      × Echoed st' (take_back tape)
unfolding int_09 erase_typed set_back for_shown
erased-Echoed st tape c w more kept cut =
    let sc = for_shown st.screen false in
    let b = delete_char_from_buff st.buffer in
    let room = w.room in
    let at = w.shows.cursor in
    let some_char : (st.buffer.size == 0) ≡ false = ground (arith, more) in
    let size : st.buffer.size ≡ suc b.size =
      sym (length-line st.buffer) ∙ ap length cut ∙ ap suc (length-line b) in
    elim (erase_screen_lem sc tape refl w.shows) [
      | inl (zero_cursor, same) ↦ absurd (omega arith)
      | inr (positive, (sc', erased, prints)) ↦
          let st' : Console = record st { screen = set_back st.screen sc'; buffer = b } in
          (
            st',
            ap
                  (λ z.
                    if z
                    then some (record st { screen = set_back st.screen sc })
                    else erase_typed st
                        (if st.password then some sc else erase_screen sc (blank ∷ [])))
                  some_char
                ∙ ap (λ p. erase_typed st (if p then some sc else erase_screen sc (blank ∷ [])))
                    w.echoing
                ∙ ap (erase_typed st) erased,
            refl,
            record {
              is_buffer = kept;
              shows =
                  subst (λ t. ShowsAt sc' t (take_back tape)) (sym prints.same_shown) prints.shown;
              seen = λ k l.
                  let here : (tape.pos - 1 == tape.pos - 1 - 1 - k) ≡ false =
                    ground (arith, room, size) in
                  let next : tape.pos - 1 - 1 - k ≡ tape.pos - 1 - suc k = omega arith in
                  rw here (
                    ap tape.chars next
                    ∙ w.seen (suc k) (omega arith)
                    ∙ ap (λ s. get_or s (suc k) 0) cut);
              room = omega arith;
              echoing = w.echoing;
            },
          )
    ]

-- Where nothing is typed or erased, the screen stays.
pub same-Echoed :
    (st : Console) (tape : Tape) (b : KeyBuffer)
    → Echoed st tape
    → b ≡ st.buffer
    → Echoed
        (record st { screen = set_back st.screen (for_shown st.screen false); buffer = b })
        tape
unfolding set_back for_shown
same-Echoed st tape b w e =
    subst
      (λ b.
        Echoed (record st { screen = set_back st.screen (for_shown st.screen false); buffer = b })
          tape)
      (sym e)
      (record {
        is_buffer = w.is_buffer;
        shows = w.shows;
        seen = w.seen;
        room = w.room;
        echoing = w.echoing;
      })
