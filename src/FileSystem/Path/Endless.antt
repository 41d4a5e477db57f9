-- ===== src/FileSystem/Path/Endless.antt =====
-- Paths on which the parser does not end.
use tpe_so.Base.{
  ℕ, zero, suc, ◌+◌, ◌==◌, ◌≡◌, refl, sym, ap, ◌∙◌, Bool, true, false, Option, some, [], ◌∷◌, ◌++◌,
  length, length-append, get_or, arith,
}
use tpe_so.Text.{Chars}
use tpe_so.FileSystem.State.{Inode, Fs}
use tpe_so.FileSystem.Directory.{search_directory}
use tpe_so.FileSystem.Path.{
  slash, dot, barra, caracter, unfinished, follow, walk, round, by_status, after_slash, start,
  parser_path,
}
use tpe_so.FileSystem.Path.Segments.{reading, get_or-append, append_assoc, round-slash, walk-plain}
use tpe_so.FileSystem.Path.Resolve.{IsSegment, step_fuel}

-- A parser that stands at the second of two slashes stays there.
walk-stuck :
    (fs : Fs) (path : Chars) (n : ℕ) (wrong : Bool) (name : Chars) (here : Option Inode) (i : ℕ)
    → get_or path i 0 ≡ slash
    → walk fs path n
        (record { status = barra; wrong = wrong; index = i; name = name; posible_inode = here })
      ≡ unfinished
unfolding walk round by_status after_slash
walk-stuck fs path zero wrong name here i e = refl
walk-stuck fs path (suc n) wrong name here i e = rw e (walk-stuck fs path n true name here i e)

-- The parser does not end on a path with two slashes behind a first name that is there, however many
-- rounds it is given.
pub parser_path_two_slashes :
    (fs : Fs) (n : ℕ) (c : ℕ) (s rest : Chars) (node next : Inode)
    → IsSegment (c ∷ s)
    → search_directory fs (c ∷ s ++ (0 ∷ [])) node ≡ some next
    → parser_path fs (suc (length s) + n) (c ∷ s ++ (slash ∷ slash ∷ rest)) node ≡ unfinished
unfolding parser_path start walk
parser_path_two_slashes fs n c s rest node next (_, (plain, chars), fits) found =
    let no_end : (c == 0) ≡ false = let h = plain.0 in ground arith in
    let no_slash : (c == slash) ≡ false = let h = plain.1 in ground arith in
    let no_dot : (c == dot) ≡ false = let h = plain.2 in ground arith in
    let path = c ∷ s ++ (slash ∷ slash ∷ rest) in
    let i = length (c ∷ s) in
    let next_index : suc i ≡ length (c ∷ s ++ (slash ∷ [])) =
      omega (arith, length-append (c ∷ s) (slash ∷ [])) in
    let whole : get_or path (suc i) 0 ≡ slash =
      ap (λ q. get_or q (suc i) 0) (sym (append_assoc (c ∷ s) (slash ∷ []) (slash ∷ rest)))
      ∙ ap (λ k. get_or ((c ∷ s ++ (slash ∷ [])) ++ (slash ∷ rest)) k 0) next_index
      ∙ get_or-append (c ∷ s ++ (slash ∷ [])) rest slash in
    rw (no_end, no_slash, no_dot)
      (step_fuel fs path (suc (length s) + n) (length s + suc n) (reading caracter 1 (c ∷ []) node)
          (omega arith)
        ∙ walk-plain fs (c ∷ []) s (slash ∷ slash ∷ rest) (suc n) (c ∷ []) node chars (omega arith)
        ∙ ap (follow (walk fs path n)) (
            round-slash fs path i (c ∷ s) node next (get_or-append (c ∷ s) (slash ∷ rest) slash)
              fits found)
        ∙ walk-stuck fs path n false [] (some next) (suc i) whole)
