-- ===== src/Screen/Erase.antt =====
-- Taking back the last character (`clearc`, which the backspace key calls).
use tpe_so.Base.{
  ℕ, ◌+◌, ◌-◌, ◌*◌, ◌<◌, ◌==◌, ==_iff, ltb, ◌≡◌, refl, subst, ◌⊎◌, inl, inr, Bool-cases, true,
  false, if◌then◌else◌, [], ◌∷◌, some, ℕ_discrete, arith,
}
use tpe_so.FileSystem.Memory.{Mem}
use tpe_so.Screen.{Screen, write_byte, set_terminal, erase_chars, erase_screen, blank}
use tpe_so.Screen.Tape.{Tape, Shows}
use tpe_so.Screen.Output.{ShowsAt, cursor_of, Prints, replaced_Prints}

-- The tape without its last character.
abbrev pub take_back : Tape → Tape
take_back t = record t { chars = λ k. if t.pos - 1 == k then blank else t.chars k; pos = t.pos - 1 }

take_back-Shows :
    (m : Mem) (curpos : ℕ) (t : Tape)
    → 0 < curpos
    → Shows m curpos t
    → Shows (write_byte m (curpos - 2) blank) (curpos - 2) (take_back t)
unfolding write_byte
take_back-Shows m curpos t l w =
    let at = w.cursor in
    let inside = w.inside in
    record {
      visible = λ k h. elim (ℕ_discrete (t.pos - 1) (80 * t.top + k)) [
        | yes e ↦
            let same : (curpos - 2 == 2 * k) ≡ true =
              (==_iff (curpos - 2) (2 * k)).1 (omega arith) in
            let same_char = (==_iff (t.pos - 1) (80 * t.top + k)).1 e in rw (same, same_char) refl
        | no n ↦
            let other : (curpos - 2 == 2 * k) ≡ false = ground (arith, n) in
            let other_char : (t.pos - 1 == 80 * t.top + k) ≡ false = ground (arith, n) in
            rw (other, other_char) (w.visible k h)
      ];
      attributes = λ k h.
          let other : (curpos - 2 == 2 * k + 1) ≡ false = ground arith in
          rw other (w.attributes k h);
      cursor = omega arith;
      inside = omega arith;
      ahead = λ k h. let rest = w.ahead k h in ground arith;
    }

-- Erasing the last character on the terminal shown: the tape loses it, with a blank in its place, and no
-- other terminal changes; with the cursor at the start of the screen nothing is done. The running
-- process is one of the terminal shown, which shows a tape.
pub erase_screen_lem :
    (sc : Screen) (tape : Tape)
    → sc.current_process_tty ≡ sc.current_tty
    → ShowsAt sc sc.current_process_tty tape
    → ((cursor_of sc sc.current_tty ≡ 0) × (erase_screen sc (blank ∷ []) ≡ some sc))
      ⊎ ((0 < cursor_of sc sc.current_tty)
          × ((sc' : Screen) × (erase_screen sc (blank ∷ []) ≡ some sc')
              × Prints sc sc' (take_back tape)))
unfolding erase_screen erase_chars
erase_screen_lem sc tape e w =
    let c = sc.current_tty in
    let shown = sc.terminals c in
    let p = shown.curpos - 2 in
    let at = rw e at w.cursor in
    elim (Bool-cases (ltb 0 shown.curpos)) [
      | inr f ↦ inl (ground (arith, f), rw f refl)
      | inl f ↦
          let more : 0 < shown.curpos = ground (arith, f) in
          let two : ltb shown.curpos 2 ≡ false = ground (arith, at, more) in
          let after = λ (t : ℕ).
            set_terminal (record sc { vidmem = write_byte sc.vidmem p blank }) t
              (record { terminal = write_byte shown.terminal p blank; curpos = p }) in
          let on_display : Shows sc.vidmem shown.curpos tape =
            subst (λ t. Shows sc.vidmem (cursor_of sc t) tape) e
              (rw ((==_iff sc.current_process_tty c).1 e) at w) in
          inr (
            more,
            (
              after c,
              rw (f, two) refl,
              subst (λ t. Prints sc (after t) (take_back tape)) e
                  (replaced_Prints sc _ _ _
                    (inl (e, take_back-Shows sc.vidmem shown.curpos tape more on_display))),
            ),
          )
    ]
