-- ===== src/FileSystem/Descriptors/Search.antt =====
-- The search for the descriptor of an inode.
use tpe_so.Base.{
  ℕ, zero, suc, ◌+◌, ◌≤◌, ◌<◌, ℤ, pos, minus_one, ◌==ℤ◌, ==ℤ_iff, ◌≡◌, ◌≢◌, refl, sym, ◌∙◌, ◌⊎◌,
  inl, inr, Bool-cases, ℕ_discrete, dec_lt, arith,
}
use tpe_so.FileSystem.Descriptors.{
  own_count, Descriptors, first_fd, fd_count, entry, inode_from, search_for_inode, search_for_fd,
}
use tpe_so.FileSystem.Descriptors.Lookup.{IsTable, search_for_fd-own}

-- An own entry of the table that is not in use names no inode but 0.
abbrev pub IsTidy : Descriptors → Type 0
IsTidy t = (i : ℕ) → i < own_count → (entry t i).fd ≡ pos 0 → (entry t i).inode ≡ pos 0

-- No own entry of the table names the inode.
abbrev pub IsClosed : Descriptors → ℕ → Type 0
IsClosed t number = (i : ℕ) → first_fd ≤ i → i < own_count → (entry t i).inode ≢ pos number

abbrev FirstNamed : Descriptors → ℕ → ℕ → ℤ → ℤ → Type 0
FirstNamed t n i number r =
    ((r ≡ minus_one) × ((j : ℕ) → i ≤ j → j < i + n → (entry t j).inode ≢ number))
    ⊎ ((f : ℕ) × (r ≡ (entry t f).fd)
        × (i ≤ f)
        × (f < i + n)
        × ((entry t f).inode ≡ number)
        × ((j : ℕ) → i ≤ j → j < f → (entry t j).inode ≢ number))

inode_from-FirstNamed :
    (t : Descriptors) (number : ℤ) (n i : ℕ) → FirstNamed t n i number (inode_from t n i number)
unfolding inode_from
inode_from-FirstNamed t number zero i = inl (refl, λ j a b. absurd (omega arith))
inode_from-FirstNamed t number (suc n) i = elim (Bool-cases (number ==ℤ (entry t i).inode)) [
  | inl e ↦ rw e (
      inr (
        i,
        refl,
        omega arith,
        omega arith,
        sym ((==ℤ_iff number _).0 e),
        λ j a b. absurd (omega arith),
      ))
  | inr e ↦
      let here : (entry t i).inode ≢ number = λ z. let t = (==ℤ_iff number _).1 (sym z) in cc in
      let before : (k : ℕ)
          → ((j : ℕ) → suc i ≤ j → j < k → (entry t j).inode ≢ number)
          → (j : ℕ) → i ≤ j
          → j < k
          → (entry t j).inode ≢ number =
        λ k all j a b. elim (ℕ_discrete i j) [
          | yes same ↦ rw (← same) here
          | no other ↦ all j (omega arith) b
        ] in
      rw e (elim (inode_from-FirstNamed t number n (suc i)) [
        | inl (r, all) ↦ inl (r, λ j a b. before (suc i + n) all j a (omega arith))
        | inr (f, r, a, b, k, all) ↦ inr (f, r, omega arith, omega arith, k, before f all)
      ])
]

-- `search_for_inode` gives one of the table's own descriptors, which leads to the inode. Or no own
-- entry names the inode, and it gives what stands behind the table beside the inode's number, or -1.
pub search_for_inode_lem :
    (t : Descriptors) (number : ℕ)
    → IsTable t
    → IsTidy t
    → number ≢ 0
    → ((f : ℕ) × (search_for_inode t (pos number) ≡ pos f)
        × (first_fd ≤ f)
        × (f < own_count)
        × (search_for_fd t (pos f) ≡ pos number))
      ⊎ (IsClosed t number
          × ((search_for_inode t (pos number) ≡ minus_one)
              ⊎ ((f : ℕ) × (own_count ≤ f)
                  × (f < 100)
                  × ((entry t f).inode ≡ pos number)
                  × (search_for_inode t (pos number) ≡ (entry t f).fd))))
unfolding search_for_inode
search_for_inode_lem t number w tidy z =
    elim (inode_from-FirstNamed t (pos number) fd_count first_fd) [
      | inl (r, all) ↦ inr ((λ j a b. all j a (omega arith)), inl r)
      | inr (f, r, a, b, k, before) ↦ elim (dec_lt f own_count) [
        | yes l ↦ elim (w.numbered f l) [
          | inl u ↦ let zero_inode = tidy f l u in absurd (z (ground arith))
          | inr u ↦ inl (f, r ∙ u, a, l, search_for_fd-own t f w a l u ∙ k)
        ]
        | no h ↦ inr ((λ j c d. before j c (omega arith)), inr (f, omega arith, omega arith, k, r))
      ]
    ]
