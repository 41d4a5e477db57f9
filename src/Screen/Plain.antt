-- ===== src/Screen/Plain.antt =====
-- Text without new lines and tabs, read back from the screen.
use tpe_so.Base.{
  ℕ, zero, suc, ◌+◌, ◌-◌, ◌*◌, ◌≤◌, ◌<◌, ◌==◌, ◌≡◌, ◌≢◌, refl, ap, ◌∙◌, ◌⊎◌, inl, inr, Bool-cases,
  true, false, if◌then◌else◌, List, [], ◌∷◌, All, length, get_or, arith,
}
use tpe_so.Text.Compare.{text}
use tpe_so.Screen.{Screen, printstr}
use tpe_so.Screen.Tape.{Tape, type_char}
use tpe_so.Screen.Output.{display, cursor_of, ShowsAt}
use tpe_so.Screen.Print.{type_any, type_text, printstr_lem}

-- Neither a new line nor a tab.
abbrev pub IsPlain : ℕ → Type 0
IsPlain c = (c ≢ 10) × (c ≢ 9)

pub type_any-plain : (t : Tape) (c : ℕ) → IsPlain c → type_any t c ≡ type_char t c
type_any-plain t c (n, m) =
    let a : (c == 10) ≡ false = ground (arith, n) in
    let b : (c == 9) ≡ false = ground (arith, m) in rw (a, b) refl

-- What plain text leaves on a tape.
pub record Typed (t t' : Tape) (s : List ℕ) : Type 0 where
  pub after : t'.pos ≡ t.pos + length s
  pub before : (k : ℕ) → k < t.pos → t'.chars k ≡ t.chars k
  pub there : (k : ℕ) → k < length s → t'.chars (t.pos + k) ≡ get_or s k 0
  pub window : (t'.top ≡ t.top) ⊎ (80 * t'.top + 1920 < t'.pos)

there_char :
    (p c k : ℕ) (chars : ℕ → ℕ)
    → k < 1
    → (if p == p + k then c else chars (p + k)) ≡ get_or (c ∷ []) k 0
there_char p c zero chars h = let same : (p == p + 0) ≡ true = ground arith in rw same refl
there_char p c (suc k) chars h = absurd (omega arith)

pub Typed-type_char : (t : Tape) (c : ℕ) → Typed t (type_char t c) (c ∷ [])
Typed-type_char t c = elim (Bool-cases (t.pos == 80 * t.top + 2000)) [
  | inl e ↦ rw e record {
    after = omega arith;
    before = λ k h. ground arith;
    there = λ k h. there_char t.pos c k t.chars h;
    window = inr (ground (arith, e));
  }
  | inr e ↦ rw e record {
    after = omega arith;
    before = λ k h. ground arith;
    there = λ k h. there_char t.pos c k t.chars h;
    window = inl refl;
  }
]

Typed-trans :
    (t t1 t2 : Tape) (c : ℕ) (s : List ℕ) → Typed t t1 (c ∷ []) → Typed t1 t2 s → Typed t t2 (c ∷ s)
Typed-trans t t1 t2 c s one rest =
    let at = one.after in
    let end = rest.after in
    record {
      after = omega arith;
      before = λ k l. rest.before k (omega arith) ∙ one.before k l;
      there = λ k. elim k as (λ k. k < suc (length s) → t2.chars (t.pos + k) ≡ get_or (c ∷ s) k 0) [
        | zero ↦ λ l. rest.before (t.pos + 0) (omega arith) ∙ one.there 0 (omega arith)
        | suc k ↦ λ l. ap t2.chars (omega arith) ∙ rest.there k (omega arith)
      ];
      window = elim rest.window [
        | inr l ↦ inr l
        | inl e ↦ elim one.window [ inl f ↦ inl (e ∙ f) | inr l ↦ inr (omega arith) ]
      ];
    }

Typed-type_text : (s : List ℕ) (t : Tape) → All IsPlain s → Typed t (type_text t s) s
Typed-type_text [] t h = record {
  after = omega arith;
  before = λ k l. refl;
  there = λ k l. absurd (omega arith);
  window = inl refl;
}
Typed-type_text (c ∷ s) t h =
    let rest = Typed-type_text s (type_char t c) h.1 in
    rw (type_any-plain t c h.0) (Typed-trans t (type_char t c) _ c s (Typed-type_char t c) rest)

-- A text of at most 1921 characters, none of them a new line or a tab, stands in full before the cursor
-- after `printstr`, on a terminal that shows some tape, even if the screen has been scrolled for it.
-- A key that is being echoed is one of the terminal shown.
pub printstr-visible :
    (sc : Screen) (s : List ℕ) (tape : Tape) (k : ℕ)
    → (sc.keypressed ≡ false) ⊎ (sc.current_process_tty ≡ sc.current_tty)
    → ShowsAt sc sc.current_process_tty tape
    → All IsPlain (text s)
    → length (text s) ≤ 1921
    → k < length (text s)
    → let sc' = (printstr sc s).0 in
      let p = sc.current_process_tty in
      display sc' p (cursor_of sc' p - 2 * (length (text s) - k)) ≡ get_or (text s) k 0
printstr-visible sc s tape k h w plain short l =
    let p = sc.current_process_tty in
    let sc' = (printstr sc s).0 in
    let tape' = type_text tape (text s) in
    let n = length (text s) in
    let shown : ShowsAt sc' p tape' = (printstr_lem sc s tape h w).0.shown in
    let typed = Typed-type_text (text s) tape plain in
    let before = w.cursor in
    let inside = shown.inside in
    let after = shown.cursor in
    let moved = typed.after in
    let seen : 80 * tape'.top ≤ tape.pos = elim typed.window [
      | inl e ↦ omega arith
      | inr e ↦ omega arith
    ] in
    let place : cursor_of sc' p - 2 * (n - k) ≡ 2 * (tape.pos + k - 80 * tape'.top) = omega arith in
    ap (display sc' p) place
    ∙ shown.visible (tape.pos + k - 80 * tape'.top) (omega arith)
    ∙ ap tape'.chars (omega arith)
    ∙ typed.there k l
