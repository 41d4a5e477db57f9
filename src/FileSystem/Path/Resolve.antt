-- ===== src/FileSystem/Path/Resolve.antt =====
-- What a path of names leads to.
use tpe_so.Base.{
  ℕ, suc, ◌+◌, ◌<◌, ◌==◌, ◌≡◌, refl, sym, ap, ◌∙◌, Bool, true, false, if◌then◌else◌, Option, none,
  some, List, [], ◌∷◌, ◌++◌, length, length-append, get_or, All, arith,
}
use tpe_so.Text.{Chars}
use tpe_so.FileSystem.State.{Inode, Fs}
use tpe_so.FileSystem.Directory.{search_directory}
use tpe_so.FileSystem.Path.{
  slash, dot, max_command_length, barra, caracter, Parser, arrived, follow, walk, start,
  parser_path,
}
use tpe_so.FileSystem.Path.Segments.{
  IsPlain, reading, get_or-append, append_assoc, round-plain, round-end, round-slash, walk-plain,
}

-- The names `s` and `ts` with a slash between each two, and the path's end.
abbrev pub join : Chars → List Chars → Chars
join s [] = s ++ (0 ∷ [])
join s (t ∷ ts) = s ++ (slash ∷ join t ts)

-- From a directory that is there.
abbrev onward : Option Inode → (Inode → Option Inode) → Option Inode
onward none k = none
onward (some node) k = k node

-- The names are looked up one after the other.
abbrev pub resolve : Fs → Chars → List Chars → Inode → Option Inode
resolve fs s [] node = search_directory fs (s ++ (0 ∷ [])) node
resolve fs s (t ∷ ts) node = onward (search_directory fs (s ++ (0 ∷ [])) node) (resolve fs t ts)

-- Every name but the last is there.
abbrev pub IsRoute : Fs → Chars → List Chars → Inode → Type 0
IsRoute fs s [] node = Unit
IsRoute fs s (t ∷ ts) node =
    (next : Inode) × (search_directory fs (s ++ (0 ∷ [])) node ≡ some next) × IsRoute fs t ts next

-- A name that fits in the parser's buffer, without a slash or a dot.
abbrev pub IsSegment : Chars → Type 0
IsSegment s = (0 < length s) × All IsPlain s × (length s < max_command_length)

join-cons : (c : ℕ) (s : Chars) (ts : List Chars) → join (c ∷ s) ts ≡ c ∷ join s ts
join-cons c s [] = refl
join-cons c s (t ∷ ts) = refl

pub step_fuel :
    (fs : Fs) (path : Chars) (n m : ℕ) (p : Parser) → n ≡ m → walk fs path n p ≡ walk fs path m p
step_fuel fs path n m p e = ap (λ k. walk fs path k p) e

-- The last name.
walk-last :
    (fs : Fs) (before s : Chars) (n : ℕ) (name : Chars) (node : Inode)
    → All IsPlain s
    → length name + length s < max_command_length
    → walk fs
        (before ++ join s [])
        (length (join s []) + n)
        (reading caracter (length before) name node)
      ≡ arrived (resolve fs (name ++ s) [] node)
unfolding walk
walk-last fs before s n name node plain short =
    let path = (before ++ s) ++ (0 ∷ []) in
    step_fuel fs (before ++ join s []) (length (join s []) + n) (length s + suc n)
      (reading caracter (length before) name node) (omega (arith, length-append s (0 ∷ [])))
    ∙ walk-plain fs before s (0 ∷ []) (suc n) name node plain short
    ∙ ap (follow (walk fs path n)) (
        round-end fs path (length (before ++ s)) (name ++ s) node (get_or-append (before ++ s) [] 0)
          (omega (arith, length-append name s)))

-- A name and the slash and the character behind it.
walk-name :
    (fs : Fs) (before s : Chars) (c : ℕ) (rest : Chars) (n : ℕ) (name : Chars) (node next : Inode)
    → All IsPlain s
    → length name + length s < max_command_length
    → IsPlain c
    → search_directory fs ((name ++ s) ++ (0 ∷ [])) node ≡ some next
    → walk fs
        (before ++ (s ++ (slash ∷ c ∷ rest)))
        (length s + suc (suc n))
        (reading caracter (length before) name node)
      ≡ walk fs
          (((before ++ s) ++ (slash ∷ c ∷ [])) ++ rest)
          n
          (reading caracter (length ((before ++ s) ++ (slash ∷ c ∷ []))) (c ∷ []) next)
unfolding walk
walk-name fs before s c rest n name node next plain short first found =
    let path = (before ++ s) ++ (slash ∷ c ∷ rest) in
    let i = length (before ++ s) in
    let whole : path ≡ ((before ++ s) ++ (slash ∷ [])) ++ (c ∷ rest) =
      sym (append_assoc (before ++ s) (slash ∷ []) (c ∷ rest)) in
    let after : length ((before ++ s) ++ (slash ∷ [])) ≡ suc i =
      omega (arith, length-append (before ++ s) (slash ∷ [])) in
    let end : suc (suc i) ≡ length ((before ++ s) ++ (slash ∷ c ∷ [])) =
      omega (arith, length-append (before ++ s) (slash ∷ c ∷ [])) in
    walk-plain fs before s (slash ∷ c ∷ rest) (suc (suc n)) name node plain short
    ∙ ap (follow (walk fs path (suc n))) (
        round-slash fs path i (name ++ s) node next (get_or-append (before ++ s) (c ∷ rest) slash)
          (omega (arith, length-append name s)) found)
    ∙ ap (follow (walk fs path n)) (
        round-plain fs path (suc i) c [] next barra (λ e. cc)
          (ap (λ q. get_or q (suc i) 0) whole
            ∙ ap (λ k. get_or (((before ++ s) ++ (slash ∷ [])) ++ (c ∷ rest)) k 0) (sym after)
            ∙ get_or-append ((before ++ s) ++ (slash ∷ [])) rest c)
          first (omega arith))
    ∙ rw (append_assoc (before ++ s) (slash ∷ c ∷ []) rest, ← end) refl

-- From within a name on.
walk-join :
    (fs : Fs) (before s : Chars) (ts : List Chars) (n : ℕ) (name : Chars) (node : Inode)
    → All IsPlain s
    → length name + length s < max_command_length
    → All IsSegment ts
    → IsRoute fs (name ++ s) ts node
    → walk fs
        (before ++ join s ts)
        (length (join s ts) + n)
        (reading caracter (length before) name node)
      ≡ arrived (resolve fs (name ++ s) ts node)
walk-join fs before s [] n name node plain short all route =
    walk-last fs before s n name node plain short
walk-join fs before s ([] ∷ ts) n name node plain short all route = absurd (omega (arith, all.0.0))
walk-join fs before s ((c ∷ t) ∷ ts) n name node plain short ((some_char, chars, fits), all)
      (next, found, route) =
    let rest = join t ts in
    let same = join-cons c t ts in
    let go =
      walk-name fs before s c rest (length rest + n) name node next plain short chars.0 found in
    let ih =
      walk-join fs ((before ++ s) ++ (slash ∷ c ∷ [])) t ts n (c ∷ []) next chars.1 (omega arith)
        all route in
    rw (same, found)
      (step_fuel fs _ _ _ _ (omega (arith, length-append s (slash ∷ c ∷ rest))) ∙ go ∙ ih)

module _ (fs : Fs) (c : ℕ) (s : Chars) (ts : List Chars) (n : ℕ) (node : Inode) (plain : IsPlain c)
    (chars : All IsPlain s) (fits : suc (length s) < max_command_length)
    (all : All IsSegment ts) where
  relative :
      IsRoute fs (c ∷ s) ts node
      → parser_path fs (length (join (c ∷ s) ts) + n) (join (c ∷ s) ts) node
        ≡ arrived (resolve fs (c ∷ s) ts node)
  unfolding parser_path start
  relative route =
      let no_end : (c == 0) ≡ false = let h = plain.0 in ground arith in
      let no_slash : (c == slash) ≡ false = let h = plain.1 in ground arith in
      let no_dot : (c == dot) ≡ false = let h = plain.2 in ground arith in
      rw (join-cons c s ts, no_end, no_slash, no_dot)
        (step_fuel fs (c ∷ join s ts) (suc (length (join s ts)) + n) (length (join s ts) + suc n)
            (reading caracter 1 (c ∷ []) node) (omega arith)
          ∙ walk-join fs (c ∷ []) s ts (suc n) (c ∷ []) node chars (omega arith) all route)

  absolute :
      IsRoute fs (c ∷ s) ts fs.root
      → parser_path fs (suc (length (join (c ∷ s) ts)) + n) (slash ∷ join (c ∷ s) ts) node
        ≡ arrived (resolve fs (c ∷ s) ts fs.root)
  unfolding parser_path start walk
  absolute route =
      let rest = join s ts in
      rw (join-cons c s ts) (
        step_fuel fs (slash ∷ c ∷ rest) (suc (suc (length rest)) + n) (suc (length rest + suc n))
          (reading barra 1 [] fs.root) (omega arith)
        ∙ ap (follow (walk fs (slash ∷ c ∷ rest) (length rest + suc n))) (
            round-plain fs (slash ∷ c ∷ rest) 1 c [] fs.root barra (λ e. cc) refl plain
              (omega arith))
        ∙ walk-join fs (slash ∷ c ∷ []) s ts (suc n) (c ∷ []) fs.root chars (omega arith) all route)

-- Where a path starts, and the path.
abbrev pub origin : Bool → Fs → Inode → Inode
origin rooted fs node = if rooted then fs.root else node

abbrev pub path_of : Bool → Chars → List Chars → Chars
path_of rooted s ts = if rooted then slash ∷ join s ts else join s ts

-- A path of names, which are plain and fit in the parser's buffer, leads to what the search of one name
-- after the other leads to, from the root with a slash in front and from the given directory without,
-- when all the names but the last are there. As many rounds as the path has characters are enough.
pub parser_path_lem :
    (rooted : Bool) (fs : Fs) (s : Chars) (ts : List Chars) (n : ℕ) (node : Inode)
    → IsSegment s
    → All IsSegment ts
    → IsRoute fs s ts (origin rooted fs node)
    → parser_path fs (length (path_of rooted s ts) + n) (path_of rooted s ts) node
      ≡ arrived (resolve fs s ts (origin rooted fs node))
parser_path_lem rooted fs [] ts n node (some_char, _, _) all route =
    absurd (omega (arith, some_char))
parser_path_lem true fs (c ∷ s) ts n node (_, (plain, chars), fits) all route =
    absolute fs c s ts n node plain chars fits all route
parser_path_lem false fs (c ∷ s) ts n node (_, (plain, chars), fits) all route =
    relative fs c s ts n node plain chars fits all route
