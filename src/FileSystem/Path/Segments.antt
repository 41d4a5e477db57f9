-- ===== src/FileSystem/Path/Segments.antt =====
-- How the parser reads a name.
use tpe_so.Base.{
  ◌==◌, ℕ, suc, ◌+◌, ◌<◌, ltb, ◌≡◌, ◌≢◌, refl, ap, ◌∙◌, true, false, some, [], ◌∷◌, ◌++◌, length,
  length-append, get_or, All, arith,
}
use tpe_so.Text.{Chars, str_len}
use tpe_so.FileSystem.State.{Inode, Fs}
use tpe_so.FileSystem.Directory.{search_directory}
use tpe_so.FileSystem.Path.{
  slash, dot, max_command_length, Status, barra, punto, caracter, Parser, more, stop, push,
  after_slash, after_character, enter, search_name, by_status, round, follow, walk,
}

-- A character that a path has in names only.
abbrev pub IsPlain : ℕ → Type 0
IsPlain c = (c ≢ 0) × (c ≢ slash) × (c ≢ dot)

pub get_or-append : (s t : Chars) (c : ℕ) → get_or (s ++ (c ∷ t)) (length s) 0 ≡ c
get_or-append [] t c = refl
get_or-append (d ∷ s) t c = get_or-append s t c

append_nil : (s : Chars) → s ++ [] ≡ s
append_nil [] = refl
append_nil (c ∷ s) = ap (λ r. c ∷ r) (append_nil s)

pub append_assoc : (s t u : Chars) → (s ++ t) ++ u ≡ s ++ (t ++ u)
append_assoc [] t u = refl
append_assoc (c ∷ s) t u = ap (λ r. c ∷ r) (append_assoc s t u)

abbrev pub reading : Status → ℕ → Chars → Inode → Parser
reading s i name node = record {
  status = s;
  wrong = false;
  index = i;
  name = name;
  posible_inode = some node;
}

-- A character of a name.
pub round-plain :
    (fs : Fs) (path : Chars) (i c : ℕ) (name : Chars) (node : Inode) (s : Status)
    → s ≢ punto
    → get_or path i 0 ≡ c
    → IsPlain c
    → length name < max_command_length
    → round fs path (reading s i name node)
      ≡ more (reading caracter (suc i) (name ++ (c ∷ [])) node)
unfolding round by_status after_slash after_character push
round-plain fs path i c name node barra h e (z, l, d) short = rw e (ground arith)
round-plain fs path i c name node punto h e (z, l, d) short = absurd (h refl)
round-plain fs path i c name node caracter h e (z, l, d) short = rw e (ground arith)

-- All the characters of a name that has been begun, which stands behind `before` in the path.
pub walk-plain :
    (fs : Fs) (before s rest : Chars) (n : ℕ) (name : Chars) (node : Inode)
    → All IsPlain s
    → length name + length s < max_command_length
    → walk fs (before ++ (s ++ rest)) (length s + n) (reading caracter (length before) name node)
      ≡ walk fs ((before ++ s) ++ rest) n (reading caracter (length (before ++ s)) (name ++ s) node)
unfolding walk
walk-plain fs before [] rest n name node plain short =
    let z : 0 + n ≡ n = omega arith in rw (append_nil before, append_nil name, z) refl
walk-plain fs before (c ∷ s) rest n name node plain short =
    let path = before ++ (c ∷ (s ++ rest)) in
    let first =
      round-plain fs path (length before) c name node caracter (λ e. cc)
        (get_or-append before (s ++ rest) c) plain.0 (omega arith) in
    let next : length (before ++ (c ∷ [])) ≡ suc (length before) =
      omega (arith, length-append before (c ∷ [])) in
    let ih =
      walk-plain fs (before ++ (c ∷ [])) s rest n (name ++ (c ∷ [])) node plain.1
        (omega (arith, length-append name (c ∷ []))) in
    let z : suc (length s) + n ≡ suc (length s + n) = omega arith in
    ap (λ k. walk fs path k (reading caracter (length before) name node)) z
    ∙ ap (follow (walk fs path (length s + n))) first
    ∙ rw
        (
          append_assoc before (c ∷ []) (s ++ rest),
          append_assoc before (c ∷ []) s,
          append_assoc name (c ∷ []) s,
          next,
        )
        at ih

-- At the end of the path the name is looked up.
pub round-end :
    (fs : Fs) (path : Chars) (i : ℕ) (name : Chars) (node : Inode)
    → get_or path i 0 ≡ 0
    → length name < max_command_length
    → round fs path (reading caracter i name node)
      ≡ stop (search_directory fs (name ++ (0 ∷ [])) node)
unfolding round by_status after_character search_name
round-end fs path i name node e short =
    let l : ltb (length name) max_command_length ≡ true = ground arith in rw (e, l) refl

-- At a slash it is looked up, and the parser goes on from there.
pub round-slash :
    (fs : Fs) (path : Chars) (i : ℕ) (name : Chars) (node next : Inode)
    → get_or path i 0 ≡ slash
    → length name < max_command_length
    → search_directory fs (name ++ (0 ∷ [])) node ≡ some next
    → round fs path (reading caracter i name node) ≡ more (reading barra (suc i) [] next)
unfolding round by_status after_character search_name enter
round-slash fs path i name node next e short found =
    let l : ltb (length name) max_command_length ≡ true = ground arith in rw (e, l, found) refl

-- The text of a name.
pub str_len-plain : (s : Chars) → All IsPlain s → str_len (s ++ (0 ∷ [])) ≡ length s
unfolding str_len
str_len-plain [] plain = refl
str_len-plain (c ∷ s) ((z, _, _), plain) =
    let no_end : (c == 0) ≡ false = ground arith in rw no_end (ap suc (str_len-plain s plain))
