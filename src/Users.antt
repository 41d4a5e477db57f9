-- ===== src/Users.antt =====
-- The table of users, the login and the making of a user (Chinux/src/kernel.c, `logUser` and `createusr`).
-- The table is what `do_read` gives of the file "usersfile".
pub mod Login
pub mod Create
pub mod Duplicates
pub mod Tests
use tpe_so.Base.{
  ℕ, zero, suc, ◌+◌, ◌-◌, ◌==◌, Bool, true, false, if◌then◌else◌, Option, none, some, List, [], ◌∷◌,
  set,
}
use tpe_so.Text.{Chars, str_len, strcmp}
use tpe_so.Shell.History.{strcopy_from}

-- `groupID`
pub data Group : Type 0 where
  admin : Group
  usr : Group

-- `user`: an entry whose `usrID` is 0 ends the table.
pub record User : Type 0 where
  pub name : Chars
  pub password : Chars
  pub usr_id : ℕ
  pub group : Group

-- `usrLoged` and what is set of `currentUsr`.
pub record Session : Type 0 where
  pub usr_loged : Bool
  pub usr_id : ℕ
  pub group : Group

-- The search of `logUser`: the entry at which it ends.
unfoldable pub find_user : List User → Chars → Option User
find_user [] typed = none
find_user (u ∷ users) typed =
    let rest = find_user users typed in
    if u.usr_id == 0 then none else if strcmp u.name typed then some u else rest

unfoldable pub check_password : Option User → Session → Chars → Session
check_password none session typed = session
check_password (some u) session typed =
    if strcmp u.password typed
    then record { usr_loged = true; usr_id = u.usr_id; group = u.group }
    else session

-- One round of the loop of `logUser`: a name and a password are typed.
unfoldable pub log_round : List User → Session → Chars × Chars → Session
log_round users session (name, password) = check_password (find_user users name) session password

-- The loop of `logUser`, for what is typed until somebody is logged in.
unfoldable pub log_rounds : List User → Session → List (Chars × Chars) → Session
log_rounds users session [] = session
log_rounds users session (typed ∷ later) =
    let rest = log_rounds users (log_round users session typed) later in
    if session.usr_loged then session else rest

-- `currentUsr.group = ADMIN`, to read the file of users.
abbrev pub as_admin : Session → Session
as_admin session = record session { group = Group.admin }

-- `logUser`
unfoldable pub log_user : List User → Session → List (Chars × Chars) → Session
unfolding log_rounds
log_user users session inputs = log_rounds users (as_admin session) inputs

-- Where the search of `createusr` ends.
pub data Place : Type 0 where
  taken : Place
  full : Place
  free : ℕ → User → Place

unfoldable pub find_place : ℕ → List User → Chars → Place
find_place i [] name = full
find_place i (u ∷ users) name =
    let rest = find_place (suc i) users name in
    if u.usr_id == 0 then free i u else if strcmp u.name name then taken else rest

-- "admin"
abbrev pub admin_word : Chars
admin_word = 97 ∷ 100 ∷ 109 ∷ 105 ∷ 110 ∷ 0 ∷ []

-- The entry that is filled: the blank at the end of a word is not copied.
unfoldable pub fill_user : User → Chars → Chars → Chars → ℕ → User
fill_user u name password group usr_id = record {
  name = strcopy_from (str_len name - 1) 0 u.name name;
  password = strcopy_from (str_len password - 1) 0 u.password password;
  usr_id = usr_id;
  group = if strcmp group admin_word then Group.admin else Group.usr;
}

-- `createusr`, on the table and the last `usrID`. `none`: a write in front of an empty word.
unfoldable pub place_user : Place → List User → ℕ → Chars → Chars → Chars → Option (List User × ℕ)
place_user taken users last name password group = some (users, last)
place_user full users last name password group = some (users, last)
place_user (free i u) users last name password group =
    if str_len name == 0
    then none
    else if str_len password == 0
    then none
    else some (set users i (fill_user u name password group (suc last)), suc last)

unfoldable pub createusr : List User → ℕ → Chars → Chars → Chars → Option (List User × ℕ)
createusr users last name password group =
    place_user (find_place 0 users name) users last name password group
