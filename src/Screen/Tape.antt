-- ===== src/Screen/Tape.antt =====
-- An abstract view of a terminal: one long tape of rows of 80 characters that is written from left to
-- right, and a window of 25 rows on it.
use tpe_so.Base.{
  ℕ, suc, ◌+◌, ◌-◌, ◌*◌, ◌/◌, ◌%◌, ◌≤◌, ◌<◌, ◌==◌, ltb, ◌≡◌, refl, ap, ◌∙◌, ℕ_discrete, inl, inr,
  Bool-cases, if◌then◌else◌, arith,
}
use tpe_so.FileSystem.Memory.{Mem}
use tpe_so.Screen.{write_cell, row_up, white_txt, blank, screen_size, last_row}
use tpe_so.Screen.Scroll.{
  write_cell-char, write_cell-attribute, write_cell-other, row_up-char, row_up-last,
  row_up-attribute,
}

-- The characters, the place of the next one, and the first row of the window.
pub record Tape : Type 0 where
  pub chars : ℕ → ℕ
  pub pos : ℕ
  pub top : ℕ

abbrev pub roll : Tape → Tape
roll t = record t { top = suc t.top }

-- A character in the next place.
abbrev pub put : Tape → ℕ → Tape
put t c = record t { chars = λ k. if t.pos == k then c else t.chars k; pos = suc t.pos }

-- The window follows when a character would fall behind it.
abbrev pub type_char : Tape → ℕ → Tape
type_char t c = put (if t.pos == 80 * t.top + 2000 then roll t else t) c

-- To the start of the next row. A window that ends in the row left behind follows; one that has been
-- filled to its last place follows too, and stands in the next row already.
abbrev pub new_line : Tape → Tape
new_line t =
    if ltb (80 * t.top + 1920) t.pos
    then record t { pos = 80 * t.top + 2000; top = suc t.top }
    else record t { pos = 80 * (t.pos / 80 + 1) }

-- A memory and a cursor show the window.
pub record Shows (m : Mem) (curpos : ℕ) (t : Tape) : Type 0 where
  pub visible : (k : ℕ) → k < 2000 → m (2 * k) ≡ t.chars (80 * t.top + k)
  pub attributes : (k : ℕ) → k < 2000 → m (2 * k + 1) ≡ white_txt
  pub cursor : 2 * t.pos ≡ curpos + 160 * t.top
  pub inside : curpos ≤ screen_size
  pub ahead : (k : ℕ) → 80 * t.top + 2000 ≤ k → t.chars k ≡ blank

-- A scrolled memory shows the window one row further down.
pub row_up-Shows :
    (m : Mem) (curpos : ℕ) (t : Tape)
    → Shows m curpos t
    → Shows (row_up m) last_row (record t { pos = 80 * t.top + 2000; top = suc t.top })
row_up-Shows m curpos t w = record {
  visible = λ k h. elim (Bool-cases (ltb k 1920)) [
    | inl e ↦
        let upper : k < 1920 = ground (arith, e) in
        row_up-char k m upper ∙ w.visible (k + 80) (omega arith) ∙ ap t.chars (omega arith)
    | inr e ↦
        let lower : 1920 ≤ k = ground (arith, e) in
        row_up-last k m lower h ∙ rw (w.ahead (80 * suc t.top + k) (omega arith)) refl
  ];
  attributes = λ k h. row_up-attribute k m h;
  cursor = omega arith;
  inside = omega arith;
  ahead = λ k h. w.ahead k (omega arith);
}

pub put-Shows :
    (m : Mem) (curpos c : ℕ) (t : Tape)
    → curpos < screen_size
    → Shows m curpos t
    → Shows (write_cell m curpos c) (curpos + 2) (put t c)
put-Shows m curpos c t l w =
    let at = w.cursor in
    record {
      visible = λ k h. elim (ℕ_discrete t.pos (80 * t.top + k)) [
        | yes e ↦ write_cell-char m curpos c (2 * k) (omega arith) ∙ ground (arith, e)
        | no n ↦
            write_cell-other m curpos c (2 * k) (λ x. n (omega arith)) (omega arith)
            ∙ w.visible k h
            ∙ ground (arith, n)
      ];
      attributes = λ k h. elim (ℕ_discrete t.pos (80 * t.top + k)) [
        | yes e ↦ write_cell-attribute m curpos c (2 * k + 1) (omega arith)
        | no n ↦
            write_cell-other m curpos c (2 * k + 1) (omega arith) (λ x. n (omega arith))
            ∙ w.attributes k h
      ];
      cursor = omega arith;
      inside = omega arith;
      ahead = λ k h. let rest = w.ahead k h in ground arith;
    }

pub new_line-Shows :
    (m : Mem) (curpos : ℕ) (t : Tape)
    → curpos ≤ last_row
    → Shows m curpos t
    → Shows m (curpos + (160 - curpos % 160)) (record t { pos = 80 * (t.pos / 80 + 1) })
new_line-Shows m curpos t l w =
    let at = w.cursor in
    record {
      visible = w.visible;
      attributes = w.attributes;
      cursor = omega arith;
      inside = omega arith;
      ahead = w.ahead;
    }
