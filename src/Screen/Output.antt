-- ===== src/Screen/Output.antt =====
-- What a process writes on its terminal, and what it leaves alone.
use tpe_so.Base.{
  ℕ, suc, ◌+◌, ◌*◌, ◌==◌, ==_iff, ◌≡◌, ◌≢◌, refl, sym, ap, ◌∙◌, ◌⊎◌, inl, inr, Bool-cases, false,
  if◌then◌else◌, arith,
}
use tpe_so.FileSystem.Memory.{Mem}
use tpe_so.Screen.{
  Terminal, Screen, set_terminal, process_terminal, on_both, row_up, scrolldown, last_row,
}
use tpe_so.Screen.Tape.{Tape, Shows, row_up-Shows}

-- What a terminal shows, or would show when it is changed to.
abbrev pub display : Screen → ℕ → Mem
display sc t = if t == sc.current_tty then sc.vidmem else (sc.terminals t).terminal

abbrev pub cursor_of : Screen → ℕ → ℕ
cursor_of sc t = (sc.terminals t).curpos

abbrev pub ShowsAt : Screen → ℕ → Tape → Type 0
ShowsAt sc t tape = Shows (display sc t) (cursor_of sc t) tape

-- From one screen to the next the process's terminal has come to show the tape, and nothing else has
-- changed.
pub record Prints (sc sc' : Screen) (tape : Tape) : Type 0 where
  pub shown : ShowsAt sc' sc.current_process_tty tape
  pub same_process : sc'.current_process_tty ≡ sc.current_process_tty
  pub same_shown : sc'.current_tty ≡ sc.current_tty
  pub same_key : sc'.keypressed ≡ sc.keypressed
  pub others :
      (t : ℕ)
      → t ≢ sc.current_process_tty
      → (display sc' t ≡ display sc t) × (cursor_of sc' t ≡ cursor_of sc t)

pub Prints-refl :
    (sc : Screen) (tape : Tape) → ShowsAt sc sc.current_process_tty tape → Prints sc sc tape
Prints-refl sc tape w = record {
  shown = w;
  same_process = refl;
  same_shown = refl;
  same_key = refl;
  others = λ t n. (refl, refl);
}

pub Prints-trans :
    {sc sc' sc'' : Screen} {tape tape' : Tape}
    → Prints sc sc' tape
    → Prints sc' sc'' tape'
    → Prints sc sc'' tape'
Prints-trans {sc} {sc'} {sc''} {tape} {tape'} p q = record {
  shown = rw p.same_process at q.shown;
  same_process = q.same_process ∙ p.same_process;
  same_shown = q.same_shown ∙ p.same_shown;
  same_key = q.same_key ∙ p.same_key;
  others = λ t n.
      let later = q.others t (λ e. n (e ∙ p.same_process)) in
      let before = p.others t n in (later.0 ∙ before.0, later.1 ∙ before.1);
}

other_tty : {t u : ℕ} → t ≢ u → (t == u) ≡ false
other_tty n = ground (arith, n)

pub set_terminal_self : (sc : Screen) (t : ℕ) (x : Terminal) → (set_terminal sc t x).terminals t ≡ x
unfolding set_terminal
set_terminal_self sc t x = ap (λ b. if b then x else sc.terminals t) ((==_iff t t).1 refl)

pub set_terminal_other :
    (sc : Screen) (t u : ℕ) (x : Terminal)
    → u ≢ t
    → (set_terminal sc t x).terminals u ≡ sc.terminals u
unfolding set_terminal
set_terminal_other sc t u x n =
    let other : (t == u) ≡ false = ground (arith, n) in
    ap (λ b. if b then x else sc.terminals u) other

Shows-cast :
    {m m' : Mem} {curpos curpos' : ℕ} {tape : Tape}
    → m ≡ m'
    → curpos ≡ curpos'
    → Shows m' curpos' tape
    → Shows m curpos tape
Shows-cast d c w = rw (d, c) w

display_self :
    (sc : Screen) (t : ℕ) (x : Terminal)
    → display (set_terminal sc t x) t ≡ (if t == sc.current_tty then sc.vidmem else x.terminal)
unfolding set_terminal
display_self sc t x =
    ap (λ (y : Terminal). if t == sc.current_tty then sc.vidmem else y.terminal)
      (set_terminal_self sc t x)

display_other :
    (sc : Screen) (t u : ℕ) (x : Terminal)
    → u ≢ t
    → display (set_terminal sc t x) u
      ≡ (if u == sc.current_tty then sc.vidmem else (sc.terminals u).terminal)
unfolding set_terminal
display_other sc t u x n =
    ap (λ (y : Terminal). if u == sc.current_tty then sc.vidmem else y.terminal)
      (set_terminal_other sc t u x n)

-- Output that reaches the display, and no other terminal.
pub replaced_Prints :
    (sc : Screen) (vidmem : Mem) (x : Terminal) (tape : Tape)
    → let p = sc.current_process_tty in
      ((p ≡ sc.current_tty) × Shows vidmem x.curpos tape)
        ⊎ ((p ≢ sc.current_tty) × (vidmem ≡ sc.vidmem) × Shows x.terminal x.curpos tape)
      → Prints sc (set_terminal (record sc { vidmem = vidmem }) p x) tape
unfolding set_terminal
replaced_Prints sc vidmem x tape h =
    let p = sc.current_process_tty in
    let sc1 : Screen = record sc { vidmem = vidmem } in
    record {
      shown = elim h [
        | inl (e, w) ↦
            let e' = (==_iff p sc.current_tty).1 e in
            Shows-cast (display_self sc1 p x ∙ ap (λ b. if b then vidmem else x.terminal) e')
              (ap Terminal.curpos (set_terminal_self sc1 p x)) w
        | inr (n, e, w) ↦
            let n' = other_tty n in
            Shows-cast (display_self sc1 p x ∙ ap (λ b. if b then vidmem else x.terminal) n')
              (ap Terminal.curpos (set_terminal_self sc1 p x)) w
      ];
      same_process = refl;
      same_shown = refl;
      same_key = refl;
      others = λ t n. (
        display_other sc1 p t x n ∙ elim h [
          | inl (e, w) ↦
              let hidden = other_tty (λ e'. n (e' ∙ sym e)) in
              ap (λ b. if b then vidmem else (sc.terminals t).terminal) hidden
              ∙ ap (λ b. if b then sc.vidmem else (sc.terminals t).terminal) (sym hidden)
          | inr (m, e, w) ↦ ap (λ v. if t == sc.current_tty then v else (sc.terminals t).terminal) e
        ],
        ap Terminal.curpos (set_terminal_other sc1 p t x n),
      );
    }

pub on_both_lem :
    (sc : Screen) (f : Mem → Mem) (curpos : ℕ) (tape : Tape)
    → Shows (f (display sc sc.current_process_tty)) curpos tape
    → Prints sc (on_both sc f curpos) tape
unfolding on_both process_terminal
on_both_lem sc f curpos tape h =
    let p = sc.current_process_tty in
    replaced_Prints sc _ _ tape (elim (Bool-cases (p == sc.current_tty)) [
      | inl e ↦ let at = rw e at h in inl ((==_iff p sc.current_tty).0 e, rw e at)
      | inr e ↦ let at = rw e at h in inr (ground (arith, e), rw e refl, at)
    ])

pub scrolldown-Prints :
    (sc : Screen) (tape : Tape)
    → ShowsAt sc sc.current_process_tty tape
    → Prints sc (scrolldown sc) (record tape { pos = 80 * tape.top + 2000; top = suc tape.top })
unfolding scrolldown
scrolldown-Prints sc tape w = on_both_lem sc row_up last_row _ (row_up-Shows _ _ tape w)
