-- ===== src/Screen/Print.antt =====
-- Texts on the screen, against the tape.
use tpe_so.Base.{
  ℕ, suc, ◌==◌, ◌≡◌, refl, sym, ap, subst, ◌∙◌, ◌⊎◌, inl, inr, Bool-cases, false, if◌then◌else◌,
  List, [], ◌∷◌, length,
}
use tpe_so.Text.Compare.{text}
use tpe_so.Screen.{Screen, write_key, write_char, write_screen, putc, printstr, blank}
use tpe_so.Screen.Tape.{Tape, type_char, new_line}
use tpe_so.Screen.Output.{ShowsAt, Prints, Prints-refl, Prints-trans}
use tpe_so.Screen.Write.{write_one, enter-Prints}

-- The tape after a run of plain characters.
abbrev pub type_run : Tape → List ℕ → Tape
type_run t [] = t
type_run t (c ∷ s) = type_run (type_char t c) s

-- The tape after any character: a new line, eight blanks for a tab, or the character itself.
abbrev pub type_any : Tape → ℕ → Tape
type_any t c =
    if c == 10
    then new_line t
    else if c == 9
    then type_run t (blank ∷ blank ∷ blank ∷ blank ∷ blank ∷ blank ∷ blank ∷ blank ∷ [])
    else type_char t c

abbrev pub type_text : Tape → List ℕ → Tape
type_text t [] = t
type_text t (c ∷ s) = type_text (type_any t c) s

Prints-echoed :
    {sc sc' : Screen} {tape : Tape}
    → Prints sc sc' tape
    → (sc.keypressed ≡ false) ⊎ (sc.current_process_tty ≡ sc.current_tty)
    → (sc'.keypressed ≡ false) ⊎ (sc'.current_process_tty ≡ sc'.current_tty)
Prints-echoed p (inl e) = inl (p.same_key ∙ e)
Prints-echoed p (inr e) = inr (let a = p.same_process in let b = p.same_shown in cc)

shown_at :
    {sc sc' : Screen} {tape : Tape} → Prints sc sc' tape → ShowsAt sc' sc'.current_process_tty tape
shown_at {sc' = sc'} {tape} p = subst (λ t. ShowsAt sc' t tape) (sym p.same_process) p.shown

write_screen-Prints :
    (sc : Screen) (buffer : List ℕ) (tape : Tape)
    → (sc.keypressed ≡ false) ⊎ (sc.current_process_tty ≡ sc.current_tty)
    → ShowsAt sc sc.current_process_tty tape
    → Prints sc (write_screen sc buffer) (type_run tape buffer)
unfolding write_screen
write_screen-Prints sc [] tape h w = Prints-refl sc tape w
write_screen-Prints sc (c ∷ buffer) tape h w =
    let one = write_one sc c tape h w in
    Prints-trans one (
      write_screen-Prints (if sc.keypressed then write_key sc c else write_char sc c) buffer
        (type_char tape c) (Prints-echoed one h) (shown_at one))

pub putc-Prints :
    (sc : Screen) (c : ℕ) (tape : Tape)
    → (sc.keypressed ≡ false) ⊎ (sc.current_process_tty ≡ sc.current_tty)
    → ShowsAt sc sc.current_process_tty tape
    → Prints sc (putc sc c) (type_any tape c)
unfolding putc
putc-Prints sc c tape h w = elim (Bool-cases (c == 10)) [
  | inl e ↦ rw e (enter-Prints sc tape w)
  | inr e ↦ elim (Bool-cases (c == 9)) [
    | inl f ↦ rw (e, f) (write_screen-Prints sc _ tape h w)
    | inr f ↦ rw (e, f) (write_screen-Prints sc (c ∷ []) tape h w)
  ]
]

-- `printstr` shows the text on the process's terminal, as if each character had been typed on one long
-- tape of which the terminal is a window, changes nothing that another terminal shows, and returns
-- how many characters the text has. The terminal shows a tape to begin with, and a key that is
-- being echoed is one of the terminal shown.
pub printstr_lem :
    (sc : Screen) (s : List ℕ) (tape : Tape)
    → (sc.keypressed ≡ false) ⊎ (sc.current_process_tty ≡ sc.current_tty)
    → ShowsAt sc sc.current_process_tty tape
    → let (sc', n) = printstr sc s in
      Prints sc sc' (type_text tape (text s)) × (n ≡ length (text s))
unfolding printstr
printstr_lem sc [] tape h w = (Prints-refl sc tape w, refl)
printstr_lem sc (c ∷ s) tape h w = elim (Bool-cases (c == 0)) [
  | inl e ↦ rw e (Prints-refl sc tape w, refl)
  | inr e ↦
      let one = putc-Prints sc c tape h w in
      let (rest, n) =
        printstr_lem (putc sc c) s (type_any tape c) (Prints-echoed one h) (shown_at one) in
      rw e (Prints-trans one rest, ap suc n)
]
