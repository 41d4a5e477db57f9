-- ===== src/Users/Login.antt =====
-- Who gets in.
use tpe_so.Base.{
  ℕ, zero, suc, ◌<◌, ◌==◌, true, false, Bool-cases, if◌then◌else◌, ◌≡◌, ◌≢◌, refl, sym, ap, subst,
  ◌∙◌, ◌⊎◌, inl, inr, some, some_inj, Option-cases, List, [], ◌∷◌, All, length, get_elem?, arith,
}
use tpe_so.Text.{Chars, str_len, strcmp}
use tpe_so.Text.Compare.{text, strcmp_lem}
use tpe_so.Users.{
  User, Session, find_user, check_password, log_round, log_rounds, as_admin, log_user,
}

-- A string that ends within its memory.
abbrev pub IsString : Chars → Type 0
IsString s = str_len s < length s

abbrev pub IsUser : User → Type 0
IsUser u = IsString u.name × IsString u.password

-- What is typed: a name and a password.
abbrev pub IsTyped : Chars × Chars → Type 0
IsTyped typed = IsString typed.0 × IsString typed.1

-- The name is the first one like it in the table, and the password is that entry's.
abbrev pub LogsIn : List User → Chars × Chars → User → Type 0
LogsIn users (name, password) u =
    (find_user users name ≡ some u) × (text u.password ≡ text password)

-- An entry in use.
abbrev pub Stands : List User → User → Type 0
Stands users u = (i : ℕ) × (get_elem? users i ≡ some u) × (u.usr_id ≢ 0)

abbrev logged_in : User → Session
logged_in u = record { usr_loged = true; usr_id = u.usr_id; group = u.group }

find_user_found :
    (users : List User) (typed : Chars) (u : User)
    → All IsUser users
    → IsString typed
    → find_user users typed ≡ some u
    → Stands users u × (text u.name ≡ text typed) × IsUser u
unfolding find_user
find_user_found [] typed u h s e = cc
find_user_found (v ∷ users) typed u h s e = elim (Bool-cases (v.usr_id == 0)) [
  | inl f ↦ let g = rw f at e in cc
  | inr f ↦ elim (Bool-cases (strcmp v.name typed)) [
    | inl t ↦
        let g : v ≡ u = some_inj (rw (f, t) at e) in
        subst (λ u. Stands (v ∷ users) u × (text u.name ≡ text typed) × IsUser u) g
          ((0, refl, ground (arith, f)), (strcmp_lem v.name typed h.0.0 s).0 t, h.0)
    | inr t ↦
        let (stands, name, is_user) = find_user_found users typed u h.1 s (rw (f, t) at e) in
        ((suc stands.0, stands.1, stands.2), name, is_user)
  ]
]

-- A round lets somebody in, or changes nothing.
log_round_lem :
    (users : List User) (session : Session) (typed : Chars × Chars)
    → All IsUser users
    → IsTyped typed
    → ((u : User) × LogsIn users typed u × (log_round users session typed ≡ logged_in u))
      ⊎ (((u : User) → ¬ LogsIn users typed u) × (log_round users session typed ≡ session))
unfolding log_round check_password
log_round_lem users session (name, password) h s = elim (Option-cases (find_user users name)) [
  | inl none_found ↦ inr ((λ u w. let f = w.0 in cc), rw none_found refl)
  | inr (u, found) ↦
      let (stands, same, is_user) = find_user_found users name u h s.0 found in
      let checked = strcmp_lem u.password password is_user.1 s.1 in
      elim (Bool-cases (strcmp u.password password)) [
        | inl t ↦ inl (u, (found, checked.0 t), rw (found, t) refl)
        | inr t ↦ inr (
          (λ v w.
              let same_user : u ≡ v = some_inj (sym found ∙ w.0) in
              let right = checked.1 (ap (λ x. text x.password) same_user ∙ w.1) in cc),
          rw (found, t) refl,
        )
      ]
]

log_rounds-cons :
    (users : List User) (session : Session) (typed : Chars × Chars) (later : List (Chars × Chars))
    → session.usr_loged ≡ false
    → log_rounds users session (typed ∷ later)
      ≡ log_rounds users (log_round users session typed) later
unfolding log_rounds
log_rounds-cons users session typed later e =
    ap (λ b. if b then session else log_rounds users (log_round users session typed) later) e

logged_stays :
    (users : List User) (session : Session) (inputs : List (Chars × Chars))
    → session.usr_loged ≡ true
    → log_rounds users session inputs ≡ session
unfolding log_rounds
logged_stays users session [] e = refl
logged_stays users session (typed ∷ later) e = rw e refl

-- The rounds, for a session in which nobody is logged in.
log_rounds_lem :
    (users : List User) (session : Session) (inputs : List (Chars × Chars))
    → All IsUser users
    → All IsTyped inputs
    → session.usr_loged ≡ false
    → let after = log_rounds users session inputs in
      ((after ≡ session)
        × ((k : ℕ) (typed : Chars × Chars) (u : User)
            → get_elem? inputs k ≡ some typed
            → ¬ LogsIn users typed u))
      ⊎ ((k : ℕ) × (typed : Chars × Chars) × (u : User) × (get_elem? inputs k ≡ some typed)
          × LogsIn users typed u
          × Stands users u
          × (text u.name ≡ text typed.0)
          × (after ≡ logged_in u))
unfolding log_rounds
log_rounds_lem users session [] h s e = inl (refl, (λ k typed u g. cc))
log_rounds_lem users session (typed ∷ later) h s e =
    let next = log_rounds-cons users session typed later e in
    elim (log_round_lem users session typed h s.0) [
      | inl (u, knows, round) ↦
          let (stands, same, is_user) = find_user_found users typed.0 u h s.0.0 knows.0 in
          inr (
            0,
            typed,
            u,
            refl,
            knows,
            stands,
            same,
            next
                ∙ logged_stays users (log_round users session typed) later
                    (ap Session.usr_loged round)
                ∙ round,
          )
      | inr (refused, round) ↦
          let not_yet = ap Session.usr_loged round ∙ e in
          elim (log_rounds_lem users (log_round users session typed) later h s.1 not_yet) [
            | inl (after, others) ↦ inl (
              next ∙ after ∙ round,
              λ k.
                  elim k
                    as (λ k.
                      (t : Chars × Chars) (u : User)
                      → get_elem? (typed ∷ later) k ≡ some t
                      → ¬ LogsIn users t u) [
                        | zero ↦ λ t u g w.
                            refused u (subst (λ t. LogsIn users t u) (sym (some_inj g)) w)
                        | suc k ↦ λ t u g w. others k t u g w
                      ],
            )
            | inr (k, t, u, at, knows, stands, same, after) ↦
                inr (suc k, t, u, at, knows, stands, same, next ∙ after)
          ]
    ]

-- `logUser` lets in exactly who knows a name of the table and its password. Either no line that was
-- typed has the password of the entry that it names, and nobody is logged in, with the group ADMIN
-- that the code sets to read the table; or one has, its entry is in use, bears that name, and gives
-- the session its number and group. The strings end within their memory, and nobody is logged in
-- before.
pub log_user_lem :
    (users : List User) (session : Session) (inputs : List (Chars × Chars))
    → All IsUser users
    → All IsTyped inputs
    → session.usr_loged ≡ false
    → let after = log_user users session inputs in
      ((after ≡ as_admin session)
        × ((k : ℕ) (typed : Chars × Chars) (u : User)
            → get_elem? inputs k ≡ some typed
            → ¬ LogsIn users typed u))
      ⊎ ((k : ℕ) × (typed : Chars × Chars) × (u : User) × (get_elem? inputs k ≡ some typed)
          × LogsIn users typed u
          × Stands users u
          × (text u.name ≡ text typed.0)
          × (after ≡ logged_in u))
unfolding log_user
log_user_lem users session inputs h s e = log_rounds_lem users (as_admin session) inputs h s e
