-- ===== src/Kernel/Semaphore/Table.antt =====
-- The table of semaphores: allocation and deletion of keys.
use tpe_so.Base.{
  ℕ, zero, suc, ◌+◌, ◌-◌, ◌≤◌, ◌<◌, pos, minus_one, ◌==ℤ◌, ==ℤ_iff, ◌==◌, ==_iff, ◌≡◌, refl, sym,
  ap, ◌∙◌, ◌≢◌, ◌⊎◌, inl, inr, true, false, Bool-cases, if◌then◌else◌, Option, none, some, List, [],
  ◌∷◌, length, length-set, get_or, get_or-set_self, get_or-set_ne, set, arith,
}
use tpe_so.Kernel.State.{SemItem, Kernel}
use tpe_so.Kernel.Semaphore.{
  max_semaphores, no_sem, sem_at, set_sem, first_free_sem, find_new_sem_key, delete_sem_key,
  semget_in_kernel, free_keys, initialize_semaphore_table,
}

abbrev pub IsFree : SemItem → Type 0
IsFree s = s.key ≡ minus_one

-- How many keys of the table are in use.
unfoldable pub used : List SemItem → ℕ
used [] = 0
used (s ∷ ss) = (if s.key ==ℤ minus_one then 0 else 1) + used ss

-- The table has its 20 entries, and `semCount` counts those in use.
pub record IsTable (k : Kernel) : Type 0 where
  pub entries : length k.semaphore_table ≡ max_semaphores
  pub counted : k.sem_count ≡ used k.semaphore_table

-- The search from `i` on stops at a free entry, or every entry is in use.
abbrev Searched : List SemItem → ℕ → Option ℕ → Type 0
Searched ss i r =
    ((r ≡ none) × (used ss ≡ length ss))
    ⊎ ((j : ℕ) × (r ≡ some (i + j)) × (j < length ss) × IsFree (get_or ss j no_sem))

first_free-Searched : (ss : List SemItem) (i : ℕ) → Searched ss i (first_free_sem ss i)
unfolding first_free_sem used
first_free-Searched [] i = inl (refl, refl)
first_free-Searched (s ∷ ss) i = elim (Bool-cases (s.key ==ℤ minus_one)) [
  | inl e ↦ rw e (inr (0, ap some (omega arith), omega arith, (==ℤ_iff s.key minus_one).0 e))
  | inr e ↦ rw e (elim (first_free-Searched ss (suc i)) [
    | inl (n, u) ↦ inl (n, omega arith)
    | inr (j, r, l, f) ↦ inr (suc j, r ∙ ap some (omega arith), omega arith, f)
  ])
]

-- One entry in use more, or one less.
used-set :
    (ss : List SemItem) (i : ℕ) (s : SemItem)
    → i < length ss
    → used (set ss i s) + (if (get_or ss i no_sem).key ==ℤ minus_one then 0 else 1)
      ≡ used ss + (if s.key ==ℤ minus_one then 0 else 1)
unfolding used
used-set [] i s h = absurd (omega arith)
used-set (t ∷ ts) zero s h = omega arith
used-set (t ∷ ts) (suc i) s h = let ih = used-set ts i s (omega arith) in omega arith

used-le-length : (ss : List SemItem) → used ss ≤ length ss
unfolding used
used-le-length [] = omega arith
used-le-length (s ∷ ss) = ground (arith, used-le-length ss)

abbrev pub granted : SemItem → ℕ → SemItem
granted param key = record param { key = pos key; status = pos 0; blocked_proc_pid = minus_one }

granted-IsTable :
    (k : Kernel) (param : SemItem) (key : ℕ)
    → IsTable k
    → key < length k.semaphore_table
    → IsFree (get_or k.semaphore_table key no_sem)
    → IsTable (record k {
      semaphore_table = set k.semaphore_table key (granted param key);
      sem_count = k.sem_count + 1;
    })
granted-IsTable k param key t l f =
    let item = granted param key in
    let before : ((get_or k.semaphore_table key no_sem).key ==ℤ minus_one) ≡ true =
      (==ℤ_iff (get_or k.semaphore_table key no_sem).key minus_one).1 f in
    let count = rw before at (used-set k.semaphore_table key item l) in
    record {
      entries = length-set k.semaphore_table key item ∙ t.entries;
      counted = omega (arith, t.counted);
    }

-- `semget` on a full table fails and changes nothing. Otherwise it puts the semaphore, with the value
-- asked for and nobody waiting, at a key that was free, returns it with that key, and the table stays
-- consistent: 20 entries, of which `semCount` are in use.
pub semget_lem :
    (k : Kernel) (param : SemItem)
    → IsTable k
    → let (item, k') = semget_in_kernel k param in
      IsTable k'
      × (((k.sem_count ≡ max_semaphores) × (item ≡ record param { status = minus_one }) × (k' ≡ k))
          ⊎ ((key : ℕ) × (key < max_semaphores)
              × IsFree (sem_at k key)
              × (item ≡ granted param key)
              × (k'.semaphore_table ≡ set k.semaphore_table key item)
              × (k'.sem_count ≡ k.sem_count + 1)))
unfolding semget_in_kernel sem_at set_sem
semget_lem k param t = elim (Bool-cases (k.sem_count == max_semaphores)) [
  | inl e ↦ rw e (t, inl ((==_iff k.sem_count max_semaphores).0 e, refl, refl))
  | inr e ↦ elim (first_free-Searched k.semaphore_table 0) [
    | inl (n, u) ↦ absurd (let a = t.entries in let b = t.counted in ground arith)
    | inr (j, r, l, f) ↦
        let found : find_new_sem_key k ≡ some j =
          unfold find_new_sem_key in rw e (r ∙ ap some (omega arith)) in
        rw (e, found)
          (
            granted-IsTable k param j t l f,
            inr (j, (let a = t.entries in omega arith), f, refl, refl, refl),
          )
  ]
]

-- `semrm` frees a key that is in use and changes no other; of a free key it changes nothing. The
-- table stays consistent.
pub delete_lem :
    (k : Kernel) (key : ℕ)
    → IsTable k
    → key < max_semaphores
    → let (done, k') = delete_sem_key k key in
      IsTable k'
      × IsFree (sem_at k' key)
      × ((i : ℕ) → i ≢ key → sem_at k' i ≡ sem_at k i)
      × ((IsFree (sem_at k key) × (done ≡ false) × (k' ≡ k))
          ⊎ ((done ≡ true) × (suc k'.sem_count ≡ k.sem_count)))
unfolding delete_sem_key sem_at set_sem
delete_lem k key t h =
    let l : key < length k.semaphore_table = let a = t.entries in omega arith in
    let s = get_or k.semaphore_table key no_sem in
    let freed = record s { key = minus_one } in
    elim (Bool-cases (s.key ==ℤ minus_one)) [
      | inl e ↦
          let f = (==ℤ_iff s.key minus_one).0 e in rw e (t, f, (λ i n. refl), inl (f, refl, refl))
      | inr e ↦
          let count = rw e at (used-set k.semaphore_table key freed l) in
          let pos_count : suc (k.sem_count - 1) ≡ k.sem_count = omega (arith, t.counted) in
          rw e (
            record {
              entries = length-set k.semaphore_table key freed ∙ t.entries;
              counted = omega (arith, t.counted);
            },
            rw (get_or-set_self k.semaphore_table key freed no_sem l) refl,
            (λ i n. get_or-set_ne k.semaphore_table freed no_sem (λ c. n (sym c))),
            inr (refl, pos_count),
          )
    ]

free_keys-length : (ss : List SemItem) → length (free_keys ss) ≡ length ss
unfolding free_keys
free_keys-length [] = refl
free_keys-length (s ∷ ss) = ap suc (free_keys-length ss)

free_keys-used : (ss : List SemItem) → used (free_keys ss) ≡ 0
unfolding free_keys used
free_keys-used [] = refl
free_keys-used (s ∷ ss) = let ih = free_keys-used ss in omega arith

-- Whatever the memory of its 20 entries held, the table is consistent once it is initialized.
pub initialize_lem :
    (k : Kernel) (memory : List SemItem)
    → length memory ≡ max_semaphores
    → IsTable (initialize_semaphore_table k memory)
unfolding initialize_semaphore_table
initialize_lem k memory h = record {
  entries = free_keys-length memory ∙ h;
  counted = sym (free_keys-used memory);
}
