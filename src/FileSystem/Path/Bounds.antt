-- ===== src/FileSystem/Path/Bounds.antt =====
-- The parser's buffer and its pointer on paths without dots.
use tpe_so.Base.{
  ℕ, zero, suc, ◌≤◌, ◌<◌, ◌==◌, ltb, ◌≡◌, ◌≢◌, refl, inl, inr, true, false, Bool-cases, Option,
  none, some, [], ◌∷◌, ◌++◌, length, length-append, get_or, All, arith,
}
use tpe_so.Text.{Chars}
use tpe_so.FileSystem.State.{Inode, Fs}
use tpe_so.FileSystem.Directory.{search_directory}
use tpe_so.FileSystem.Path.{
  slash, dot, max_command_length, Status, barra, punto, caracter, Parser, Round, more, stop, broken,
  push, end_after_slash, after_slash, after_character, search_name, enter, by_status, round, Walk,
  crashed, follow, walk, start, parser_path,
}

-- No dot has been read, the pointer is not null, the characters in `buffer` have been read from the path,
-- and the parser has not gone past the path's end.
record Sound (path : Chars) (p : Parser) : Type 0 where
  pub no_dots : p.status ≢ punto
  pub here : Inode
  pub there : p.posible_inode ≡ some here
  pub short : length p.name ≤ p.index
  pub inside : p.index ≤ length path

abbrev Fine : Chars → Round → Type 0
Fine path (more p) = Sound path p
Fine path (stop r) = Unit
Fine path broken = ⊥

get_or-inside : (path : Chars) (i : ℕ) → get_or path i 0 ≢ 0 → i < length path
get_or-inside [] i h = absurd (h refl)
get_or-inside (c ∷ path) zero h = omega arith
get_or-inside (c ∷ path) (suc i) h = omega (arith, get_or-inside path i h)

get_or-no_dot : (path : Chars) (i : ℕ) → All (λ c. c ≢ dot) path → get_or path i 0 ≢ dot
get_or-no_dot [] i all e = omega arith
get_or-no_dot (c ∷ path) zero all e = all.0 e
get_or-no_dot (c ∷ path) (suc i) all e = get_or-no_dot path i all.1 e

module _ (fs : Fs) (path : Chars) (fits : length path < max_command_length) (p : Parser)
    (s : Sound path p) where
  push-Fine : (c : ℕ) → p.index < length path → Fine path (push caracter p c)
  unfolding push
  push-Fine c l =
      let short = s.short in
      let room : ltb (length p.name) max_command_length ≡ true = ground arith in
      rw room (record {
        no_dots = λ e. cc;
        here = s.here;
        there = s.there;
        short = omega (arith, length-append p.name (c ∷ []));
        inside = omega arith;
      })

  enter-Fine : (r : Option Inode) → p.index < length path → Fine path (enter p r)
  unfolding enter
  enter-Fine none l = record {
    no_dots = λ e. cc;
    here = s.here;
    there = s.there;
    short = let short = s.short in omega arith;
    inside = omega arith;
  }
  enter-Fine (some node) l = record {
    no_dots = λ e. cc;
    here = node;
    there = refl;
    short = omega arith;
    inside = omega arith;
  }

  search_name-Fine :
      (k : Option Inode → Round)
      → ((r : Option Inode) → Fine path (k r))
      → Fine path (search_name fs p p.posible_inode k)
  unfolding search_name
  search_name-Fine k h =
      let short = s.short in
      let inside = s.inside in
      let room : ltb (length p.name) max_command_length ≡ true = ground arith in
      rw (s.there, room) (h (search_directory fs (p.name ++ (0 ∷ [])) s.here))

  end_after_slash-Fine : Fine path (end_after_slash p)
  unfolding end_after_slash
  end_after_slash-Fine =
      let short = s.short in
      let inside = s.inside in
      let room : ltb (length p.name) max_command_length ≡ true = ground arith in rw room tt

  after_slash-Fine : (c : ℕ) → get_or path p.index 0 ≡ c → c ≢ dot → Fine path (after_slash p c)
  unfolding after_slash
  after_slash-Fine c e d = elim (Bool-cases (c == 0)) [
    | inl z ↦ rw z end_after_slash-Fine
    | inr z ↦
        let l =
          get_or-inside path p.index
            (let t : get_or path p.index 0 ≢ 0 = ground (arith, z, e) in t) in
        let no_dot : (c == dot) ≡ false = ground arith in
        elim (Bool-cases (c == slash)) [
          | inl k ↦
              rw (z, k)
                (record {
                  no_dots = s.no_dots;
                  here = s.here;
                  there = s.there;
                  short = s.short;
                  inside = s.inside;
                })
          | inr k ↦ rw (z, k, no_dot) (push-Fine c l)
        ]
  ]

  after_character-Fine :
      (c : ℕ) → get_or path p.index 0 ≡ c → c ≢ dot → Fine path (after_character fs p c)
  unfolding after_character
  after_character-Fine c e d = elim (Bool-cases (c == 0)) [
    | inl z ↦ rw z (search_name-Fine stop (λ r. tt))
    | inr z ↦
        let l =
          get_or-inside path p.index
            (let t : get_or path p.index 0 ≢ 0 = ground (arith, z, e) in t) in
        let no_dot : (c == dot) ≡ false = ground arith in
        elim (Bool-cases (c == slash)) [
          | inl k ↦ rw (z, k) (search_name-Fine (enter p) (λ r. enter-Fine r l))
          | inr k ↦ rw (z, k, no_dot) (push-Fine c l)
        ]
  ]

  by_status-Fine :
      (st : Status) (c : ℕ)
      → st ≢ punto
      → get_or path p.index 0 ≡ c
      → c ≢ dot
      → Fine path (by_status fs path p c st)
  unfolding by_status
  by_status-Fine barra c h e d = after_slash-Fine c e d
  by_status-Fine punto c h e d = absurd (h refl)
  by_status-Fine caracter c h e d = after_character-Fine c e d

follow-safe :
    (path : Chars) (k : Parser → Walk) (r : Round)
    → Fine path r
    → ((p : Parser) → Sound path p → k p ≢ crashed)
    → follow k r ≢ crashed
follow-safe path k (more p) s h = h p s
follow-safe path k (stop r) s h = λ e. cc
follow-safe path k broken s h = absurd s

walk-safe :
    (fs : Fs) (path : Chars)
    → length path < max_command_length
    → All (λ c. c ≢ dot) path
    → (n : ℕ) (p : Parser) → Sound path p
    → walk fs path n p ≢ crashed
unfolding walk round
walk-safe fs path fits all zero p s = λ e. cc
walk-safe fs path fits all (suc n) p s =
    follow-safe path (walk fs path n) (by_status fs path p (get_or path p.index 0) p.status)
      (by_status-Fine fs path fits p s p.status (get_or path p.index 0) s.no_dots refl
        (get_or-no_dot path p.index all))
      (walk-safe fs path fits all n)

start-Sound :
    (fs : Fs) (c : ℕ) (path : Chars) (node : Inode) → c ≢ dot → Sound (c ∷ path) (start fs c node)
unfolding start
start-Sound fs c path node d =
    let no_dot : (c == dot) ≡ false = ground arith in
    elim (Bool-cases (c == slash)) [
      | inl k ↦ rw k (record {
        no_dots = λ e. cc;
        here = fs.root;
        there = refl;
        short = omega arith;
        inside = omega arith;
      })
      | inr k ↦
          rw (k, no_dot)
            (record {
              no_dots = λ e. cc;
              here = node;
              there = refl;
              short = omega arith;
              inside = omega arith;
            })
    ]

-- On a path without dots that is not empty and is shorter than the buffer, the parser neither writes
-- behind its buffer, the 0 at the path's end included, nor searches in a null pointer, whatever is
-- in the directories and however many rounds it is given.
pub parser_path_bounded :
    (fs : Fs) (n c : ℕ) (path : Chars) (node : Inode)
    → c ≢ 0
    → length (c ∷ path) < max_command_length
    → All (λ d. d ≢ dot) (c ∷ path)
    → parser_path fs n (c ∷ path) node ≢ crashed
unfolding parser_path
parser_path_bounded fs n c path node z fits all =
    let some_char : (c == 0) ≡ false = ground arith in
    rw some_char
      (walk-safe fs (c ∷ path) fits all n (start fs c node) (start-Sound fs c path node all.0))
