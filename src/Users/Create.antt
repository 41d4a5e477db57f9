-- ===== src/Users/Create.antt =====
-- A user that is made can log in.
use tpe_so.Base.{
  ℕ, zero, suc, ◌+◌, ◌-◌, ◌≤◌, ◌<◌, ◌==◌, true, false, Bool-cases, if◌then◌else◌, ◌≡◌, ◌≢◌, refl,
  sym, ap, subst, ◌∙◌, inl, inr, none, some, List, [], ◌∷◌, ◌++◌, All, length, replicate, set,
  get_or, get_or-set_ne, get_elem?, get_elem?-set_ne, arith,
}
use tpe_so.Text.{Chars, str_len, strcmp}
use tpe_so.Text.Compare.{text, strcmp_lem}
use tpe_so.Text.Decimal.RoundTrip.{get_or-append_left}
use tpe_so.Shell.History.{strcopy_from}
use tpe_so.Shell.Saving.{text_unique, strcopy_from-copied, length-strcopy_from}
use tpe_so.Users.{
  User, Session, Group, find_user, check_password, log_round, free, find_place, fill_user,
  place_user, createusr, admin_word,
}
use tpe_so.Users.Login.{IsString}

-- A word of the command line: its blank and its final 0 stand behind it.
abbrev pub word : List ℕ → List ℕ → Chars
word s rest = s ++ (32 ∷ 0 ∷ rest)

pub str_len-word : (s rest : List ℕ) → All (λ c. c ≢ 0) s → str_len (word s rest) ≡ suc (length s)
unfolding str_len
str_len-word [] rest h = refl
str_len-word (c ∷ s) rest h =
    let n = h.0 in
    let more : (c == 0) ≡ false = ground (arith, n) in rw more (ap suc (str_len-word s rest h.1))

str_len-text : (s : Chars) → str_len s ≡ length (text s)
unfolding str_len
str_len-text [] = refl
str_len-text (c ∷ s) = elim (Bool-cases (c == 0)) [
  | inl e ↦ rw e refl
  | inr e ↦ rw e (ap suc (str_len-text s))
]

strcopy_from-behind :
    (n i k : ℕ) (copy s : Chars)
    → i + n ≤ k
    → get_or (strcopy_from n i copy s) k 0 ≡ get_or copy k 0
unfolding strcopy_from
strcopy_from-behind zero i k copy s l = refl
strcopy_from-behind (suc n) i k copy s l =
    strcopy_from-behind n (suc i) k (set copy i (get_or s i 0)) s (omega arith)
    ∙ get_or-set_ne copy (get_or s i 0) 0 (λ e. omega arith)

get_or-replicate : (n k c : ℕ) → get_or (replicate n c) k c ≡ c
get_or-replicate zero k c = refl
get_or-replicate (suc n) zero c = refl
get_or-replicate (suc n) (suc k) c = get_or-replicate n k c

-- A field that has never been written.
abbrev pub cleared_field : Chars
cleared_field = replicate 256 0

-- A word that is copied without its blank into a cleared field.
copied_word :
    (s rest : List ℕ)
    → All (λ c. c ≢ 0) s
    → length s < 256
    → let field = strcopy_from (str_len (word s rest) - 1) 0 cleared_field (word s rest) in
      (text field ≡ s) × IsString field
copied_word s rest h l =
    let n : str_len (word s rest) - 1 ≡ length s = rw (str_len-word s rest h) (omega arith) in
    let room : length cleared_field ≡ 256 = refl in
    let field = strcopy_from (length s) 0 cleared_field (word s rest) in
    let same : text field ≡ s =
      text_unique field s h
        (λ k lt.
          strcopy_from-copied (length s) 0 k cleared_field (word s rest) (omega arith) (omega arith)
            (omega arith)
          ∙ get_or-append_left s (32 ∷ 0 ∷ rest) k lt)
        (strcopy_from-behind (length s) 0 (length s) cleared_field (word s rest) (omega arith)
          ∙ get_or-replicate 256 (length s) 0) in
    let size : length field ≡ 256 = length-strcopy_from (length s) 0 cleared_field (word s rest) in
    let ends : str_len field < length field = rw (str_len-text field, same, size) l in
    subst (λ m. let f = strcopy_from m 0 cleared_field (word s rest) in (text f ≡ s) × IsString f)
      (sym n) (same, ends)

-- The first free place, with an entry put there: it is what a new name finds.
found_there :
    (i j : ℕ) (users : List User) (u v : User) (name typed : Chars)
    → find_place i users name ≡ free j u
    → find_user users typed ≡ none
    → v.usr_id ≢ 0
    → strcmp v.name typed ≡ true
    → (d : ℕ) × (j ≡ i + d) × (find_user (set users d v) typed ≡ some v)
unfolding find_place find_user
found_there i j [] u v name typed e f n t = cc
found_there i j (x ∷ users) u v name typed e f n t = elim (Bool-cases (x.usr_id == 0)) [
  | inl a ↦
      let at : j ≡ i = let g = rw a at e in cc in
      let in_use : (v.usr_id == 0) ≡ false = ground (arith, n) in
      (0, at ∙ omega arith, rw (in_use, t) refl)
  | inr a ↦ elim (Bool-cases (strcmp x.name name)) [
    | inl b ↦ let g = rw (a, b) at e in cc
    | inr b ↦ elim (Bool-cases (strcmp x.name typed)) [
      | inl c ↦ let g = rw (a, c) at f in cc
      | inr c ↦
          let (d, at, found) =
            found_there (suc i) j users u v name typed (rw (a, b) at e) (rw (a, c) at f) n t in
          (suc d, at ∙ omega arith, rw (a, c) found)
    ]
  ]
]

place_user-made :
    (users : List User) (last i : ℕ) (u : User) (name password group : Chars) (a b : ℕ)
    → str_len name ≡ suc a
    → str_len password ≡ suc b
    → place_user (free i u) users last name password group
      ≡ some (set users i (fill_user u name password group (suc last)), suc last)
unfolding place_user
place_user-made users last i u name password group a b n p =
    let named : (str_len name == 0) ≡ false = ground (arith, n) in
    let secret : (str_len password == 0) ≡ false = ground (arith, p) in rw (named, secret) refl

check_password-right :
    (u : User) (session : Session) (typed : Chars)
    → strcmp u.password typed ≡ true
    → check_password (some u) session typed
      ≡ record { usr_loged = true; usr_id = u.usr_id; group = u.group }
unfolding check_password
check_password-right u session typed e = rw e refl

-- A user that `createusr` has made gets in with the name and the password that were given, and gets the
-- new number; no other entry changes. There is a free entry with cleared fields, nobody with the name
-- stands before it, and the words are shorter than the fields.
pub log_round-createusr :
    (users : List User) (last i : ℕ) (u : User) (s p rest rest' group : List ℕ)
    (typed : Chars × Chars) (session : Session)
    → find_place 0 users (word s rest) ≡ free i u
    → u.name ≡ cleared_field
    → u.password ≡ cleared_field
    → All (λ c. c ≢ 0) s
    → All (λ c. c ≢ 0) p
    → length s < 256
    → length p < 256
    → IsString typed.0
    → IsString typed.1
    → text typed.0 ≡ s
    → text typed.1 ≡ p
    → find_user users typed.0 ≡ none
    → (users' : List User) × (createusr users last (word s rest) (word p rest') group
        ≡ some (users', suc last))
      × ((j : ℕ) → j ≢ i → get_elem? users' j ≡ get_elem? users j)
      × (log_round users' session typed ≡ record {
        usr_loged = true;
        usr_id = suc last;
        group = if strcmp group admin_word then Group.admin else Group.usr;
      })
unfolding createusr fill_user log_round
log_round-createusr users last i u s p rest rest' group typed session place cn cp hs hp ls lp sn sp
      tn tp nobody =
    let v = fill_user u (word s rest) (word p rest') group (suc last) in
    let (name, name_ends) = copied_word s rest hs ls in
    let (password, password_ends) = copied_word p rest' hp lp in
    let v_name : v.name ≡ strcopy_from (str_len (word s rest) - 1) 0 cleared_field (word s rest) =
      ap (λ c. strcopy_from (str_len (word s rest) - 1) 0 c (word s rest)) cn in
    let v_password : v.password
        ≡ strcopy_from (str_len (word p rest') - 1) 0 cleared_field (word p rest') =
      ap (λ c. strcopy_from (str_len (word p rest') - 1) 0 c (word p rest')) cp in
    let same_name : strcmp v.name typed.0 ≡ true =
      rw v_name ((strcmp_lem _ typed.0 name_ends sn).1 (name ∙ sym tn)) in
    let same_password : strcmp v.password typed.1 ≡ true =
      rw v_password ((strcmp_lem _ typed.1 password_ends sp).1 (password ∙ sym tp)) in
    let (d, at, found) =
      found_there 0 i users u v (word s rest) typed.0 place nobody (omega arith) same_name in
    let here : i ≡ d = omega arith in
    (
      set users i v,
      ap (λ q. place_user q users last (word s rest) (word p rest') group) place
          ∙ place_user-made users last i u _ _ group (length s) (length p) (str_len-word s rest hs)
              (str_len-word p rest' hp),
      λ j n. get_elem?-set_ne users v (λ e. n (sym e)),
      let entry : find_user (set users i v) typed.0 ≡ some v =
            subst (λ k. find_user (set users k v) typed.0 ≡ some v) (sym here) found in
          ap (λ o. check_password o session typed.1) entry
          ∙ check_password-right v session typed.1 same_password,
    )
