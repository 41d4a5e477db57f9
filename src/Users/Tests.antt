-- ===== src/Users/Tests.antt =====
-- The theorems on a table with one user.
use tpe_so.Base.{
  ℕ, true, false, if◌then◌else◌, ◌≡◌, ◌≢◌, refl, ◌⊎◌, List, [], ◌∷◌, get_elem?, some, arith,
}
use tpe_so.Text.{Chars, str_len, strcmp}
use tpe_so.Text.Compare.{text}
use tpe_so.Users.{
  User, Session, Group, admin_word, find_user, taken, find_place, log_round, as_admin, log_user,
  createusr,
}
use tpe_so.Users.Login.{LogsIn, Stands, log_user_lem}
use tpe_so.Users.Duplicates.{find_place_never_taken}
use tpe_so.Users.Create.{word, cleared_field, log_round-createusr}

-- "ana", whose password is "x"
abbrev ana : User
ana = record {
  name = 97 ∷ 110 ∷ 97 ∷ 0 ∷ [];
  password = 120 ∷ 0 ∷ [];
  usr_id = 1;
  group = Group.admin;
}

abbrev unused_user : User
unused_user = record {
  name = cleared_field;
  password = cleared_field;
  usr_id = 0;
  group = Group.admin;
}

abbrev nobody_yet : Session
nobody_yet = record { usr_loged = false; usr_id = 0; group = Group.usr }

-- A wrong password, then the right one.
abbrev tries : List (Chars × Chars)
tries = (ana.name, 121 ∷ 0 ∷ []) ∷ (ana.name, 120 ∷ 0 ∷ []) ∷ []

log_user_example :
    let after = log_user (ana ∷ []) nobody_yet tries in
    ((after ≡ as_admin nobody_yet)
      × ((k : ℕ) (typed : Chars × Chars) (u : User)
          → get_elem? tries k ≡ some typed
          → ¬ LogsIn (ana ∷ []) typed u))
    ⊎ ((k : ℕ) × (typed : Chars × Chars) × (u : User) × (get_elem? tries k ≡ some typed)
        × LogsIn (ana ∷ []) typed u
        × Stands (ana ∷ []) u
        × (text u.name ≡ text typed.0)
        × (after ≡ record { usr_loged = true; usr_id = u.usr_id; group = u.group }))
unfolding str_len
log_user_example =
    log_user_lem (ana ∷ []) nobody_yet tries ((omega arith, omega arith), tt)
      ((omega arith, omega arith), ((omega arith, omega arith), tt)) refl

log_round-createusr_example :
    (users' : List User) × (createusr
        (ana ∷ unused_user ∷ [])
        1
        (word (98 ∷ []) [])
        (word (121 ∷ []) [])
        admin_word
      ≡ some (users', 2))
    × ((j : ℕ) → j ≢ 1 → get_elem? users' j ≡ get_elem? (ana ∷ unused_user ∷ []) j)
    × (log_round users' nobody_yet (98 ∷ 0 ∷ [], 121 ∷ 0 ∷ []) ≡ record {
      usr_loged = true;
      usr_id = 2;
      group = if strcmp admin_word admin_word then Group.admin else Group.usr;
    })
unfolding str_len strcmp find_place find_user
log_round-createusr_example =
    log_round-createusr (ana ∷ unused_user ∷ []) 1 1 unused_user (98 ∷ []) (121 ∷ []) [] []
      admin_word (98 ∷ 0 ∷ [], 121 ∷ 0 ∷ []) nobody_yet refl refl refl ((λ e. omega arith), tt)
      ((λ e. omega arith), tt) (omega arith) (omega arith) (omega arith) (omega arith) refl refl
      refl

find_place_example : find_place 0 (ana ∷ []) (word (97 ∷ 110 ∷ 97 ∷ []) []) ≢ taken
unfolding str_len
find_place_example =
    find_place_never_taken 0 (ana ∷ []) (97 ∷ 110 ∷ 97 ∷ []) []
      ((λ e. omega arith), ((λ e. omega arith), ((λ e. omega arith), tt)))
      ((omega arith, ((λ e. omega arith), ((λ e. omega arith), ((λ e. omega arith), tt)))), tt)
