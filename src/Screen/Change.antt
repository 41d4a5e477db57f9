-- ===== src/Screen/Change.antt =====
-- Clearing a screen and changing to another terminal.
use tpe_so.Base.{
  ℕ, ◌+◌, ◌*◌, ◌<◌, ◌==◌, ==_iff, leb, ltb, ◌≡◌, refl, sym, ap, subst, ◌∙◌, inl, inr, Bool-cases,
  true, ◌&&◌, arith,
}
use tpe_so.FileSystem.Memory.{Mem, copy}
use tpe_so.Screen.{
  Terminal, Screen, set_terminal, blanks, k_clear_screen, switch_tty, blank, screen_size,
}
use tpe_so.Screen.Scroll.{blanks-char, blanks-attribute}
use tpe_so.Screen.Tape.{Tape, Shows}
use tpe_so.Screen.Output.{
  display, cursor_of, Prints, on_both_lem, set_terminal_self, set_terminal_other,
}

-- The tape on which nothing has been written.
abbrev pub blank_tape : Tape
blank_tape = record { chars = λ k. blank; pos = 0; top = 0 }

blanks-Shows : (m : Mem) → Shows (blanks 2000 0 m) 0 blank_tape
blanks-Shows m = record {
  visible = λ k h. blanks-char 2000 0 k (2 * k) m (omega arith) h;
  attributes = λ k h. blanks-attribute 2000 0 k (2 * k + 1) m (omega arith) h;
  cursor = refl;
  inside = omega arith;
  ahead = λ k h. refl;
}

-- Whatever a screen shows, `k_clear_screen` leaves a blank window with the cursor at its start on the
-- process's terminal, and changes nothing that another terminal shows.
pub k_clear_screen_lem : (sc : Screen) → Prints sc (k_clear_screen sc) blank_tape
unfolding k_clear_screen
k_clear_screen_lem sc =
    on_both_lem sc (blanks 2000 0) 0 blank_tape (blanks-Shows (display sc sc.current_process_tty))

copy-inside : (to from : Mem) (n x : ℕ) → x < n → copy to 0 from 0 n x ≡ from x
unfolding copy
copy-inside to from n x h =
    let inside : (leb 0 x && ltb x (0 + n)) ≡ true = ground (arith, h) in
    rw inside (ap from (omega arith))

abbrev put_away : Screen → Terminal
put_away sc =
    let shown = sc.terminals sc.current_tty in
    record shown { terminal = copy shown.terminal 0 sc.vidmem 0 screen_size }

-- The memory put away holds what every terminal shows.
stored :
    (sc : Screen) (t x : ℕ)
    → x < screen_size
    → let y = (set_terminal sc sc.current_tty (put_away sc)).terminals t in
      (y.terminal x ≡ display sc t x) × (y.curpos ≡ cursor_of sc t)
stored sc t x h =
    let c = sc.current_tty in
    let sc1 = set_terminal sc c (put_away sc) in
    elim (Bool-cases (t == c)) [
      | inl e ↦
          let same : sc1.terminals t ≡ put_away sc =
            subst (λ u. sc1.terminals u ≡ put_away sc) (sym ((==_iff t c).0 e))
              (set_terminal_self sc c (put_away sc)) in
          rw e (
            ap (λ (y : Terminal). y.terminal x) same ∙ copy-inside _ sc.vidmem screen_size x h,
            ap Terminal.curpos same ∙ ap (cursor_of sc) (sym ((==_iff t c).0 e)),
          )
      | inr e ↦
          let same = set_terminal_other sc c t (put_away sc) (ground (arith, e)) in
          rw e (ap (λ (y : Terminal). y.terminal x) same, ap Terminal.curpos same)
    ]

-- A change of terminal changes nothing that a terminal shows or where its cursor stands: the video
-- memory has been put away under the terminal that was shown, and shows the next one.
pub switch_tty_lem :
    (sc : Screen) (next_tty t x : ℕ)
    → x < screen_size
    → let sc' = switch_tty sc next_tty in
      (sc'.current_tty ≡ next_tty)
      × (display sc' t x ≡ display sc t x)
      × (cursor_of sc' t ≡ cursor_of sc t)
unfolding switch_tty
switch_tty_lem sc next_tty t x h =
    let sc1 = set_terminal sc sc.current_tty (put_away sc) in
    let (text, cursor) = stored sc t x h in
    (
      refl,
      elim (Bool-cases (t == next_tty)) [
        | inl e ↦ rw e (
            copy-inside _ (sc1.terminals next_tty).terminal screen_size x h
            ∙ ap (λ u. (sc1.terminals u).terminal x) (sym ((==_iff t next_tty).0 e))
            ∙ text)
        | inr e ↦ rw e text
      ],
      cursor,
    )
