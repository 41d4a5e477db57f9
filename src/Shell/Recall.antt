-- ===== src/Shell/Recall.antt =====
-- A command that is saved and brought back by the arrow key.
use tpe_so.Base.{
  ℕ, zero, suc, ◌+◌, ◌-◌, ◌≤◌, ◌<◌, ◌==◌, ==_iff, ltb, leb, Bool, true, false, ◌&&◌, ◌≡◌, refl, sym,
  ap, subst, ◌∙◌, inl, inr, Bool-cases, if◌then◌else◌, some, List, [], ◌∷◌, ◌++◌, map, length,
  arith,
}
use mathlib.Core.List.{append-nil, append_assoc}
use tpe_so.Text.{Chars, str_len}
use tpe_so.Text.Compare.{text}
use tpe_so.Keyboard.{
  buffer_size, KeyBuffer, add_char_to_buff, delete_char_from_buff, read_keyboard, character, press,
  press_all,
}
use tpe_so.Keyboard.Stack.{line}
use tpe_so.Keyboard.Typed.{Unread, backwards, read_keyboard-line}
use tpe_so.Keyboard.Edit.{
  edit_all, begins-delete, press_all-Unread, edit-press_all, line-empty, size-delete,
}
use tpe_so.Shell.History.{
  sto_max, History, measured, clear_line, clear_last, delete_chars, add_chars, show_last_command,
}

-- Deleting as many characters as there are leaves none.
delete_chars_lem :
    (n : ℕ) (b : KeyBuffer)
    → Unread b
    → Unread (delete_chars n b) × ((delete_chars n b).size ≡ b.size - n)
unfolding delete_chars
delete_chars_lem zero b u = (u, omega arith)
delete_chars_lem (suc n) b u =
    let (later, size) = delete_chars_lem n (delete_char_from_buff b) (begins-delete b u) in
    (later, size ∙ rw (size-delete b) (omega arith))

emptied : (b : KeyBuffer) → Unread b → Unread (clear_line b) × (line (clear_line b) ≡ [])
unfolding clear_line
emptied b u = elim (Bool-cases (b.size == 0)) [
  | inl e ↦ rw e (u, line-empty b ((==_iff b.size 0).0 e))
  | inr e ↦
      let (kept, size) = delete_chars_lem b.size b u in
      rw e (kept, line-empty (delete_chars b.size b) (omega arith))
]

cleared_last :
    (h : History) (b : KeyBuffer)
    → Unread b
    → Unread (clear_last h b) × (line (clear_last h b) ≡ [])
unfolding clear_last measured
cleared_last h b u = elim (Bool-cases h.arrow_pressed) [
  | inl e ↦ rw e (emptied _ (delete_chars_lem (str_len (h.stored (measured h))) b u).0)
  | inr e ↦ rw e (emptied b u)
]

add_chars-press_all :
    (s : Chars) (b : KeyBuffer) → add_chars b s ≡ press_all b (map character (text s))
unfolding add_chars press_all press
add_chars-press_all [] b = refl
add_chars-press_all (c ∷ s) b = elim (Bool-cases (c == 0)) [
  | inl e ↦ rw e refl
  | inr e ↦ rw e (add_chars-press_all s (add_char_to_buff b c).1)
]

-- Characters typed while there is room stand behind the line.
typed_behind :
    (s acc : List ℕ)
    → length acc + length s ≤ buffer_size
    → backwards (edit_all acc (map character s)) ≡ backwards acc ++ s
typed_behind [] acc l = sym (append-nil (backwards acc))
typed_behind (c ∷ s) acc l =
    let room : ltb (length acc) buffer_size ≡ true = ground arith in
    subst
      (λ b.
        backwards (edit_all (if b then c ∷ acc else acc) (map character s))
        ≡ backwards acc ++ (c ∷ s))
      (sym room) (typed_behind s (c ∷ acc) (omega arith) ∙ append_assoc (backwards acc) (c ∷ []) s)

and_no {ℓ} : {A : Type ℓ} (b : Bool) (x y : A) → (if b && false then x else y) ≡ y
and_no true x y = refl
and_no false x y = refl

-- A command typed again into an empty buffer is what is read.
typed_again :
    (b : KeyBuffer) (s : Chars)
    → Unread b
    → line b ≡ []
    → length (text s) ≤ buffer_size
    → let b' = add_chars b s in Unread b' × ((read_keyboard b' b'.size).0 ≡ text s)
typed_again b s u empty fits =
    let keys = map character (text s) in
    let same = add_chars-press_all s b in
    let kept : Unread (add_chars b s) = subst Unread (sym same) (press_all-Unread b keys u) in
    (
      kept,
      read_keyboard-line (add_chars b s) kept
          ∙ ap (λ b'. backwards (line b')) same
          ∙ ap backwards (edit-press_all b keys u ∙ ap (λ s. edit_all s keys) empty)
          ∙ typed_behind (text s) [] (omega arith),
    )

-- The up arrow with a command selected: the one before is selected, and its text is what the shell
-- reads then, whatever had been typed. The command fits into the buffer, and the selection stands on
-- a row.
pub show_last_command_lem :
    (h : History) (b : KeyBuffer) (n : ℕ)
    → Unread b
    → h.sel_com ≡ suc n
    → suc n < sto_max
    → length (text (h.stored n)) ≤ buffer_size
    → (h' : History) × (b' : KeyBuffer) × (show_last_command h true b ≡ some (h', b'))
      × (h'.sel_com ≡ n)
      × Unread b'
      × ((read_keyboard b' b'.size).0 ≡ text (h.stored n))
unfolding show_last_command measured
show_last_command_lem h b n u e l fits =
    let (kept, empty) = cleared_last h b u in
    let (again, read) = typed_again (clear_last h b) (h.stored n) kept empty fits in
    let selected : h.sel_com - 1 ≡ n = omega arith in
    let some_command : ltb 0 h.sel_com ≡ true = ground (arith, e) in
    let on_row : leb sto_max (measured h) ≡ false = ground (arith, e) in
    (
      record h { sel_com = n; arrow_pressed = true },
      add_chars (clear_last h b) (h.stored n),
      rw (some_command, on_row) (and_no h.arrow_pressed _ _ ∙ rw selected refl),
      refl,
      again,
      read,
    )
