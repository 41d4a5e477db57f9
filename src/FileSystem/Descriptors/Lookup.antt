-- ===== src/FileSystem/Descriptors/Lookup.antt =====
-- The table of open files as a map from descriptors to inodes.
use tpe_so.Base.{
  ℕ, zero, suc, ◌+◌, ◌≤◌, ◌<◌, ℤ, pos, minus_one, ◌==ℤ◌, ==ℤ_iff, ==ℤ_refl, is_zero, ltb, ◌≡◌, ◌≢◌,
  refl, ap, ◌∙◌, ◌⊎◌, inl, inr, true, false, Bool-cases, Option, none, some, length, length-set,
  set, get_or-set_self, get_or-set_ne, ℕ_discrete, dec_lt, arith,
}
use tpe_so.FileSystem.Descriptors.{
  Entry, unused, own_count, Descriptors, first_fd, fd_count, entry, set_entry, fd_from,
  search_for_fd, free_from, insert_at, insert_fd, delete_fd,
}

-- The table has its 8 entries, and the descriptor in use at one of them is its index.
pub record IsTable (t : Descriptors) : Type 0 where
  pub entries : length t.own ≡ own_count
  pub numbered : (i : ℕ) → i < own_count → ((entry t i).fd ≡ pos 0) ⊎ ((entry t i).fd ≡ pos i)

-- The table with one of its own entries changed.
abbrev pub with_entry : Descriptors → ℕ → Entry → Descriptors
with_entry t i e = record t { own = set t.own i e }

-- All of the table's own descriptors are handed out.
abbrev pub AllTaken : Descriptors → Type 0
AllTaken t = (f : ℕ) → first_fd ≤ f → f < own_count → (entry t f).fd ≡ pos f

-- `search_for_fd` finds what it found, but for `f`.
abbrev pub SameOthers : Descriptors → Descriptors → ℕ → Type 0
SameOthers t t' f = (g : ℕ) → g ≢ 0 → g ≢ f → search_for_fd t' (pos g) ≡ search_for_fd t (pos g)

module _ (t : Descriptors) (i : ℕ) (e : Entry) where
  set_entry-own : i < own_count → set_entry t i e ≡ some (with_entry t i e)
  unfolding set_entry
  set_entry-own l = let inside : ltb i own_count ≡ true = ground arith in rw inside refl

  entry-set_self : IsTable t → i < own_count → entry (with_entry t i e) i ≡ e
  unfolding entry
  entry-set_self w l =
      let inside : ltb i own_count ≡ true = ground arith in
      rw inside (get_or-set_self t.own i e unused (rw w.entries l))

  entry-set_ne : (j : ℕ) → i ≢ j → entry (with_entry t i e) j ≡ entry t j
  unfolding entry
  entry-set_ne j n = rw (get_or-set_ne t.own e unused n) refl

  with_entry-IsTable :
      IsTable t → i < own_count → (e.fd ≡ pos 0) ⊎ (e.fd ≡ pos i) → IsTable (with_entry t i e)
  with_entry-IsTable w l h = record {
    entries = length-set t.own i e ∙ w.entries;
    numbered = λ j m. elim (ℕ_discrete i j) [
      | yes same ↦ rw (← same, entry-set_self w l) h
      | no other ↦ rw (entry-set_ne j other) (w.numbered j m)
    ];
  }

-- A change of an entry that has another descriptor before and after.
fd_from_same :
    (t t' : Descriptors) (f g : ℕ)
    → ((j : ℕ) → f ≢ j → entry t' j ≡ entry t j)
    → (pos g ==ℤ (entry t f).fd) ≡ false
    → (pos g ==ℤ (entry t' f).fd) ≡ false
    → (n i : ℕ) → fd_from t' n i (pos g) ≡ fd_from t n i (pos g)
unfolding fd_from
fd_from_same t t' f g h a b zero i = refl
fd_from_same t t' f g h a b (suc n) i =
    let ih = fd_from_same t t' f g h a b n (suc i) in
    elim (ℕ_discrete f i) [
      | yes same ↦ rw (← same, a, b) (rw (← same) at ih)
      | no other ↦ rw (h i other, ih) refl
    ]

-- The first entry of a descriptor is found.
fd_from-first :
    (t : Descriptors) (f : ℕ) (fd : ℤ)
    → (entry t f).fd ≡ fd
    → (n i : ℕ) → ((j : ℕ) → i ≤ j → j < f → (fd ==ℤ (entry t j).fd) ≡ false)
    → i ≤ f
    → f < i + n
    → fd_from t n i fd ≡ (entry t f).inode
unfolding fd_from
fd_from-first t f fd e zero i before a b = absurd (omega arith)
fd_from-first t f fd e (suc n) i before a b = elim (ℕ_discrete i f) [
  | yes same ↦ rw (same, e, ==ℤ_refl fd) refl
  | no other ↦
      let later : i < f = omega arith in
      rw (before i (omega arith) later)
        (fd_from-first t f fd e n (suc i) (λ j c d. before j (omega arith) d) later (omega arith))
]

-- A descriptor that is not at an entry.
other_fd :
    (t : Descriptors) (j g : ℕ)
    → IsTable t
    → j < own_count
    → g ≢ 0
    → g ≢ j
    → (pos g ==ℤ (entry t j).fd) ≡ false
other_fd t j g w l z n = elim (w.numbered j l) [
  | inl u ↦ rw u (ground arith)
  | inr u ↦ rw u (ground arith)
]

-- One of the table's own descriptors leads to the inode at its entry.
pub search_for_fd-own :
    (t : Descriptors) (f : ℕ)
    → IsTable t
    → first_fd ≤ f
    → f < own_count
    → (entry t f).fd ≡ pos f
    → search_for_fd t (pos f) ≡ (entry t f).inode
unfolding search_for_fd
search_for_fd-own t f w a b e =
    fd_from-first t f (pos f) e fd_count first_fd
      (λ j c d. other_fd t j f w (omega arith) (omega arith) (omega arith)) a (omega arith)

-- The first entry whose descriptor is 0, if there is one.
abbrev FirstFree : Descriptors → ℕ → ℕ → Option ℕ → Type 0
FirstFree t n i r =
    ((r ≡ none) × ((j : ℕ) → i ≤ j → j < i + n → (entry t j).fd ≢ pos 0))
    ⊎ ((f : ℕ) × (r ≡ some f)
        × (i ≤ f)
        × (f < i + n)
        × ((entry t f).fd ≡ pos 0)
        × ((j : ℕ) → i ≤ j → j < f → (entry t j).fd ≢ pos 0))

free_from-FirstFree : (t : Descriptors) (n i : ℕ) → FirstFree t n i (free_from t n i)
unfolding free_from
free_from-FirstFree t zero i = inl (refl, λ j a b. absurd (omega arith))
free_from-FirstFree t (suc n) i = elim (Bool-cases (is_zero (entry t i).fd)) [
  | inl e ↦ rw e (
      inr (
        i,
        refl,
        omega arith,
        omega arith,
        (==ℤ_iff (entry t i).fd (pos 0)).0 e,
        λ j a b. absurd (omega arith),
      ))
  | inr e ↦
      let used : (entry t i).fd ≢ pos 0 = λ z. let t = (==ℤ_iff _ (pos 0)).1 z in cc in
      let before : (k : ℕ)
          → ((j : ℕ) → suc i ≤ j → j < k → (entry t j).fd ≢ pos 0)
          → (j : ℕ) → i ≤ j
          → j < k
          → (entry t j).fd ≢ pos 0 =
        λ k all j a b. elim (ℕ_discrete i j) [
          | yes same ↦ rw (← same) used
          | no other ↦ all j (omega arith) b
        ] in
      rw e (elim (free_from-FirstFree t n (suc i)) [
        | inl (r, all) ↦ inl (r, λ j a b. before (suc i + n) all j a (omega arith))
        | inr (f, r, a, b, z, all) ↦ inr (f, r, omega arith, omega arith, z, before f all)
      ])
]

-- A new descriptor of the table's own, which was not handed out: it leads to the inode, and every other
-- one to what it led to.
pub record HandsOut (t : Descriptors) (number : ℤ) (f : ℕ) (t' : Descriptors) : Type 0 where
  pub low : first_fd ≤ f
  pub high : f < own_count
  pub was_free : (entry t f).fd ≡ pos 0
  pub table : IsTable t'
  pub leads : search_for_fd t' (pos f) ≡ number
  pub others : SameOthers t t' f

with_entry-HandsOut :
    (t : Descriptors) (f : ℕ) (number : ℤ)
    → IsTable t
    → first_fd ≤ f
    → f < own_count
    → (entry t f).fd ≡ pos 0
    → HandsOut t number f (with_entry t f (record { fd = pos f; inode = number }))
with_entry-HandsOut t f number w a b z =
    let e : Entry = record { fd = pos f; inode = number } in
    let t' = with_entry t f e in
    let w' = with_entry-IsTable t f e w b (inr refl) in
    let at = entry-set_self t f e w b in
    record {
      low = a;
      high = b;
      was_free = z;
      table = w';
      leads = search_for_fd-own t' f w' a b (ap Entry.fd at) ∙ ap Entry.inode at;
      others = λ g g0 n.
          unfold search_for_fd in
          fd_from_same t t' f g (entry-set_ne t f e) (other_fd t f g w b g0 n)
            (other_fd t' f g w' b g0 n) fd_count first_fd;
    }

insert_at-own :
    (t : Descriptors) (number : ℤ) (f : ℕ)
    → f < own_count
    → insert_at t number (some f)
      ≡ some (pos f, with_entry t f (record { fd = pos f; inode = number }))
unfolding insert_at set_entry
insert_at-own t number f l = let inside : ltb f own_count ≡ true = ground arith in rw inside refl

insert_at-behind :
    (t : Descriptors) (number : ℤ) (f : ℕ) → own_count ≤ f → insert_at t number (some f) ≡ none
unfolding insert_at set_entry
insert_at-behind t number f l =
    let outside : ltb f own_count ≡ false = ground arith in rw outside refl

-- What `insert_fd` comes to when the table's own descriptors are all handed out: it writes behind the
-- table, or it fails and changes nothing.
abbrev pub Overflows : Descriptors → Option (ℤ × Descriptors) → Type 0
Overflows t r =
    ((r ≡ none) × ((f : ℕ) × (own_count ≤ f) × (f < 100) × ((entry t f).fd ≡ pos 0)))
    ⊎ ((r ≡ some (minus_one, t)) × ((f : ℕ) → own_count ≤ f → f < 100 → (entry t f).fd ≢ pos 0))

-- `insert_fd` hands out one of the table's own descriptors that was not handed out: `search_for_fd`
-- finds the inode under it, and under every other descriptor but 0 what it found before. When the
-- five of them are handed out, it writes behind the memory of the table if an entry up to 99 reads
-- as free there, and otherwise fails and changes nothing. (The table has the 8 entries for which
-- there is memory, and a descriptor in use there is its index.)
pub insert_fd_lem :
    (t : Descriptors) (number : ℤ)
    → IsTable t
    → ((f : ℕ) × (t' : Descriptors) × (insert_fd t number ≡ some (pos f, t'))
        × HandsOut t number f t')
      ⊎ (AllTaken t × Overflows t (insert_fd t number))
unfolding insert_fd
insert_fd_lem t number w = elim (free_from-FirstFree t fd_count first_fd) [
  | inl (r, all) ↦ rw r (
      inr (
        taken (λ j a b. all j a (omega arith)),
        inr (unfold insert_at in refl, λ j a b. all j (omega arith) (omega arith)),
      ))
  | inr (f, r, a, b, z, before) ↦
      let e : Entry = record { fd = pos f; inode = number } in
      elim (dec_lt f own_count) [
        | yes l ↦ rw r (
            inl (
              f,
              with_entry t f e,
              insert_at-own t number f l,
              with_entry-HandsOut t f number w a l z,
            ))
        | no h ↦ rw r (
            inr (
              taken (λ j c d. before j c (omega arith)),
              inl (insert_at-behind t number f (omega arith), (f, omega arith, omega arith, z)),
            ))
      ]
]
  where
    taken : ((j : ℕ) → first_fd ≤ j → j < own_count → (entry t j).fd ≢ pos 0) → AllTaken t
    taken all j a b = elim (w.numbered j b) [ inl u ↦ absurd (all j a b u) | inr u ↦ u ]

-- `delete_fd` clears one of the table's own entries, and every other descriptor finds what it found.
pub delete_fd_lem :
    (t : Descriptors) (f : ℕ)
    → IsTable t
    → f < own_count
    → (t' : Descriptors) × (delete_fd t f ≡ some t')
      × IsTable t'
      × (entry t' f ≡ unused)
      × SameOthers t t' f
unfolding delete_fd
delete_fd_lem t f w b =
    let t' = with_entry t f unused in
    let w' = with_entry-IsTable t f unused w b (inl refl) in
    (
      t',
      set_entry-own t f unused b,
      w',
      entry-set_self t f unused w b,
      λ g g0 n.
          unfold search_for_fd in
          fd_from_same t t' f g (entry-set_ne t f unused) (other_fd t f g w b g0 n)
            (other_fd t' f g w' b g0 n) fd_count first_fd,
    )
