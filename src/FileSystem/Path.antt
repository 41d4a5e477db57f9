-- ===== src/FileSystem/Path.antt =====
-- The parser of paths, `parser_path` of Chinux/fileSystem/newFs.c, as a machine that reads a character
-- in each round of the loop. `path_parsing` is END_PATH exactly when a step stops. A round may leave
-- the parser as it is, and then the loop does not end: the machine runs on fuel.
pub mod Segments
pub mod Resolve
pub mod Endless
pub mod Bounds
use tpe_so.Base.{
  ℕ, zero, suc, ◌+◌, ◌-◌, ◌==◌, leb, ltb, Bool, true, false, not, ◌&&◌, ◌||◌, if◌then◌else◌, Option,
  none, some, List, [], ◌∷◌, ◌++◌, length, get_or,
}
use tpe_so.Text.{Chars}
use tpe_so.FileSystem.State.{Inode, Fs}
use tpe_so.FileSystem.Directory.{search_directory}

-- '/' and '.'
abbrev pub slash : ℕ
slash = 47

abbrev pub dot : ℕ
dot = 46

-- `MAX_COMMAND_LENGHT`, the size of `buffer`.
abbrev pub max_command_length : ℕ
max_command_length = 200

pub data Status : Type 0 where
  barra : Status
  punto : Status
  caracter : Status

-- The locals of `parser_path`: `path_status == WRONG_PATH`, the first `j` characters of `buffer`, and
-- `posible_inode`.
pub record Parser : Type 0 where
  pub status : Status
  pub wrong : Bool
  pub index : ℕ
  pub name : Chars
  pub posible_inode : Option Inode

-- A round of the loop: it goes on, ends it, or does what C leaves undefined, which is a search in a
-- null pointer or a write behind `buffer`.
pub data Round : Type 0 where
  more : Parser → Round
  stop : Option Inode → Round
  broken : Round

-- A character for `buffer`.
unfoldable pub push : Status → Parser → ℕ → Round
push s p c =
    if ltb (length p.name) max_command_length
    then more (record p { status = s; index = suc p.index; name = p.name ++ (c ∷ []) })
    else broken

-- The end of the function.
abbrev pub outcome : Parser → Option Inode
outcome p = if p.wrong then none else p.posible_inode

-- The end of the path behind a slash: its 0 is put in `buffer` like a character.
unfoldable pub end_after_slash : Parser → Round
end_after_slash p = if ltb (length p.name) max_command_length then stop (outcome p) else broken

-- The branch of `status == BARRA`.
unfoldable pub after_slash : Parser → ℕ → Round
unfolding push end_after_slash
after_slash p c =
    if c == 0
    then end_after_slash p
    else if c == slash
    then more (record p { wrong = true })
    else if c == dot
    then more (record p { status = punto; index = suc p.index })
    else push caracter p c

-- `search_directory("..", posible_inode)` and `i++`
unfoldable pub go_up : Fs → Parser → Option Inode → Round
go_up fs p none = broken
go_up fs p (some node) = more (record p {
  index = suc p.index;
  posible_inode = search_directory fs (dot ∷ dot ∷ 0 ∷ []) node;
})

-- A second dot.
unfoldable pub two_dots : Fs → Chars → Parser → Round
unfolding go_up
two_dots fs path p =
    let next = get_or path (suc p.index) 0 in
    let upwards = go_up fs p p.posible_inode in
    if not (next == slash) && not (next == 0)
    then more (record p {
      wrong = p.wrong || ltb 2 p.index && not (get_or path (p.index - 2) 0 == slash);
    })
    else upwards

-- The branch of `status == PUNTO`.
unfoldable pub after_dot : Fs → Chars → Parser → ℕ → Round
unfolding two_dots push
after_dot fs path p c =
    let dots = two_dots fs path p in
    if c == 0
    then stop p.posible_inode
    else if c == slash
    then more (record p { status = barra; index = suc p.index })
    else if c == dot
    then dots
    else push caracter p c

-- `search_directory(buffer, posible_inode)`, and what becomes of its result.
unfoldable pub search_name : Fs → Parser → Option Inode → (Option Inode → Round) → Round
search_name fs p none k = broken
search_name fs p (some node) k =
    let found = k (search_directory fs (p.name ++ (0 ∷ [])) node) in
    if ltb (length p.name) max_command_length then found else broken

-- At a slash behind a name. A name that is not found stays in `buffer`.
unfoldable pub enter : Parser → Option Inode → Round
enter p none = more (record p { status = barra; index = suc p.index; wrong = true })
enter p (some node) =
    more (record p { status = barra; index = suc p.index; name = []; posible_inode = some node })

-- The branch of `status == CARACTER`.
unfoldable pub after_character : Fs → Parser → ℕ → Round
unfolding search_name enter push
after_character fs p c =
    let last = search_name fs p p.posible_inode stop in
    let next = search_name fs p p.posible_inode (enter p) in
    if c == 0
    then last
    else if c == slash
    then next
    else push (if c == dot then punto else caracter) p c

unfoldable pub by_status : Fs → Chars → Parser → ℕ → Status → Round
unfolding after_slash after_dot after_character
by_status fs path p c barra = after_slash p c
by_status fs path p c punto = after_dot fs path p c
by_status fs path p c caracter = after_character fs p c

-- A round of the loop.
unfoldable pub round : Fs → Chars → Parser → Round
unfolding by_status
round fs path p = by_status fs path p (get_or path p.index 0) p.status

pub data Walk : Type 0 where
  arrived : Option Inode → Walk
  crashed : Walk
  unfinished : Walk

abbrev pub follow : (Parser → Walk) → Round → Walk
follow k (more p) = k p
follow k (stop r) = arrived r
follow k broken = crashed

-- The loop, for at most `n` rounds.
unfoldable pub walk : Fs → Chars → ℕ → Parser → Walk
unfolding round
walk fs path zero p = unfinished
walk fs path (suc n) p = follow (walk fs path n) (round fs path p)

-- What is known at the start of the loop, after a first character that is not 0.
unfoldable pub start : Fs → ℕ → Inode → Parser
start fs c node =
    if c == slash
    then record {
      status = barra;
      wrong = false;
      index = 1;
      name = [];
      posible_inode = some fs.root;
    }
    else if c == dot
    then record { status = punto; wrong = false; index = 1; name = []; posible_inode = some node }
    else record {
      status = caracter;
      wrong = false;
      index = 1;
      name = c ∷ [];
      posible_inode = some node;
    }

-- `parser_path`. Of the empty path the code reads what stands behind it.
unfoldable pub parser_path : Fs → ℕ → Chars → Inode → Walk
unfolding start walk
parser_path fs n path node =
    let c = get_or path 0 0 in if c == 0 then crashed else walk fs path n (start fs c node)
