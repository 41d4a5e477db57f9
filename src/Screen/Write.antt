-- ===== src/Screen/Write.antt =====
-- Single characters, of a process and of the keyboard.
use tpe_so.Base.{
  ℕ, ◌+◌, ◌-◌, ◌*◌, ◌%◌, ◌<◌, ◌==◌, ==_iff, ltb, ◌≡◌, refl, sym, subst, ◌∙◌, ◌⊎◌, inl, inr,
  Bool-cases, true, false, if◌then◌else◌, arith,
}
use tpe_so.Screen.{
  Screen, process_terminal, on_both, write_cell, scroll_if_full, echo, write_key, write_char, enter,
  screen_size, last_row,
}
use tpe_so.Screen.Tape.{Tape, roll, put, type_char, new_line, put-Shows, new_line-Shows}
use tpe_so.Screen.Output.{
  ShowsAt, cursor_of, Prints, Prints-refl, Prints-trans, replaced_Prints, on_both_lem,
  scrolldown-Prints,
}

abbrev window : Tape → Tape
window tape = if tape.pos == 80 * tape.top + 2000 then roll tape else tape

-- A full screen is scrolled, and then there is room.
make_room :
    (sc : Screen) (tape : Tape)
    → ShowsAt sc sc.current_process_tty tape
    → let p = sc.current_process_tty in
      let sc1 = scroll_if_full sc p in Prints sc sc1 (window tape) × (cursor_of sc1 p < screen_size)
unfolding scroll_if_full
make_room sc tape w =
    let p = sc.current_process_tty in
    let at = w.cursor in
    let inside = w.inside in
    elim (Bool-cases (cursor_of sc p == screen_size)) [
      | inl e ↦
          let filled : tape.pos ≡ 80 * tape.top + 2000 = ground (arith, e) in
          let full = (==_iff tape.pos (80 * tape.top + 2000)).1 filled in
          let scrolled = scrolldown-Prints sc tape w in
          let after = scrolled.shown.cursor in rw (e, full) (rw (← filled) at scrolled, omega arith)
      | inr e ↦
          let room : (tape.pos == 80 * tape.top + 2000) ≡ false = ground (arith, e) in
          rw (e, room) (Prints-refl sc tape w, ground (arith, e))
    ]

put-Prints :
    (sc : Screen) (c : ℕ) (tape : Tape)
    → let curpos = cursor_of sc sc.current_process_tty in
      ShowsAt sc sc.current_process_tty tape
      → curpos < screen_size
      → Prints sc (on_both sc (λ m. write_cell m curpos c) (curpos + 2)) (put tape c)
put-Prints sc c tape w room = on_both_lem sc _ _ _ (put-Shows _ _ c tape room w)

write_char-Prints :
    (sc : Screen) (c : ℕ) (tape : Tape)
    → ShowsAt sc sc.current_process_tty tape
    → Prints sc (write_char sc c) (type_char tape c)
unfolding write_char process_terminal
write_char-Prints sc c tape w =
    let p = sc.current_process_tty in
    let sc1 = scroll_if_full sc p in
    let (scrolled, room) = make_room sc tape w in
    let same = scrolled.same_process in
    let at : ShowsAt sc1 sc1.current_process_tty (window tape) = rw same scrolled.shown in
    let room1 : cursor_of sc1 sc1.current_process_tty < screen_size = rw same room in
    Prints-trans scrolled (put-Prints sc1 c (window tape) at room1)

-- An echo goes to the display.
echo-Prints :
    (sc : Screen) (c : ℕ) (tape : Tape)
    → let p = sc.current_process_tty in
      let x = sc.terminals p in
      p ≡ sc.current_tty
      → ShowsAt sc p tape
      → x.curpos < screen_size
      → Prints sc (echo sc p c) (put tape c)
unfolding echo
echo-Prints sc c tape e w room =
    let p = sc.current_process_tty in
    let at = rw ((==_iff p sc.current_tty).1 e) at w in
    replaced_Prints sc _ _ _ (inl (e, put-Shows sc.vidmem _ c tape room at))

write_key-Prints :
    (sc : Screen) (c : ℕ) (tape : Tape)
    → sc.current_process_tty ≡ sc.current_tty
    → ShowsAt sc sc.current_process_tty tape
    → Prints sc (write_key sc c) (type_char tape c)
unfolding write_key
write_key-Prints sc c tape e w =
    let p = sc.current_process_tty in
    let sc1 = scroll_if_full sc p in
    let (scrolled, room) = make_room sc tape w in
    let same = scrolled.same_process in
    let at : ShowsAt sc1 sc1.current_process_tty (window tape) = rw same scrolled.shown in
    let room1 : cursor_of sc1 sc1.current_process_tty < screen_size = rw same room in
    let e1 : sc1.current_process_tty ≡ sc1.current_tty = same ∙ e ∙ sym scrolled.same_shown in
    let echoed = echo-Prints sc1 c (window tape) e1 at room1 in
    subst (λ t. Prints sc (echo (scroll_if_full sc t) t c) (type_char tape c)) e
      (Prints-trans scrolled
        (subst (λ t. Prints sc1 (echo sc1 t c) (put (window tape) c)) same echoed))

-- The one character `c` on the process's terminal, echoed or not. An echo is of the terminal shown.
pub write_one :
    (sc : Screen) (c : ℕ) (tape : Tape)
    → (sc.keypressed ≡ false) ⊎ (sc.current_process_tty ≡ sc.current_tty)
    → ShowsAt sc sc.current_process_tty tape
    → Prints sc (if sc.keypressed then write_key sc c else write_char sc c) (type_char tape c)
write_one sc c tape h w = elim (Bool-cases sc.keypressed) [
  | inl e ↦ elim h [
    | inl f ↦ cc
    | inr p ↦
        subst (λ b. Prints sc (if b then write_key sc c else write_char sc c) (type_char tape c))
          (sym e) (write_key-Prints sc c tape p w)
  ]
  | inr e ↦
      subst (λ b. Prints sc (if b then write_key sc c else write_char sc c) (type_char tape c))
        (sym e) (write_char-Prints sc c tape w)
]

pub enter-Prints :
    (sc : Screen) (tape : Tape)
    → ShowsAt sc sc.current_process_tty tape
    → Prints sc (enter sc) (new_line tape)
unfolding enter process_terminal
enter-Prints sc tape w =
    let p = sc.current_process_tty in
    let at = w.cursor in
    let x = sc.terminals p in
    elim (Bool-cases (ltb last_row (cursor_of sc p))) [
      | inl e ↦
          let low : ltb (80 * tape.top + 1920) tape.pos ≡ true = ground (arith, e) in
          rw (e, low) (scrolldown-Prints sc tape w)
      | inr e ↦
          let high : ltb (80 * tape.top + 1920) tape.pos ≡ false = ground (arith, e) in
          rw (e, high)
            (replaced_Prints sc sc.vidmem (record x { curpos = x.curpos + (160 - x.curpos % 160) })
              _
              (elim (Bool-cases (p == sc.current_tty)) [
                | inl f ↦
                    let shown = rw f at w in
                    inl (
                      (==_iff p sc.current_tty).0 f,
                      new_line-Shows _ _ tape (ground (arith, e)) shown,
                    )
                | inr f ↦
                    let shown = rw f at w in
                    inr (ground (arith, f), refl, new_line-Shows _ _ tape (ground (arith, e)) shown)
              ]))
    ]
