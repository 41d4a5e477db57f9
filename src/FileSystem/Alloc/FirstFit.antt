-- ===== src/FileSystem/Alloc/FirstFit.antt =====
-- The search for a run of free blocks, against what first fit means.
use tpe_so.Base.{
  ℕ, zero, suc, ◌+◌, ◌≤◌, ◌<◌, ◌==◌, ==_iff, ltb, ◌≡◌, refl, ap, ◌⊎◌, inl, inr, true, false,
  Bool-cases, Option, none, some, arith,
}
use tpe_so.FileSystem.Bitmap.{Words, is_free}
use tpe_so.FileSystem.Alloc.{or_start, find_run}

-- The blocks from `first` to before `end` are free.
abbrev pub FreeFrom : Words → ℕ → ℕ → Type 0
FreeFrom ws first end = (i : ℕ) → first ≤ i → i < end → is_free ws i ≡ true

-- The `quantity` blocks from `first` on are free, as far as they lie below `size`.
abbrev pub Fits : Words → ℕ → ℕ → ℕ → Type 0
Fits ws size quantity first =
    (i : ℕ) → first ≤ i → i < first + quantity → i < size → is_free ws i ≡ true

-- The first place where they fit, or `none` if they fit nowhere.
abbrev pub IsFirstFit : Words → ℕ → ℕ → Option ℕ → Type 0
IsFirstFit ws size quantity none = (c : ℕ) → c < size → ¬ Fits ws size quantity c
IsFirstFit ws size quantity (some c) =
    (c < size) × Fits ws size quantity c × ((d : ℕ) → d < c → ¬ Fits ws size quantity d)

-- `candidate` and `count`, when `base` is the start of the free run that ends before `i`.
abbrev Held : Option ℕ → ℕ → ℕ → Type 0
Held candidate count base =
    ((candidate ≡ none) × (count ≡ 0)) ⊎ ((candidate ≡ some base) × (0 < count))

-- They fit nowhere before `base`.
abbrev Misses : Words → ℕ → ℕ → ℕ → Type 0
Misses ws size quantity base = (d : ℕ) → d < base → ¬ Fits ws size quantity d

-- A free block behind the run that is held leaves its start, or starts one.
started :
    (candidate : Option ℕ) (count base i : ℕ)
    → Held candidate count base
    → base + count ≡ i
    → some (or_start candidate i) ≡ some base
started candidate count base i (inl (e, z)) b = rw e (ap some (omega arith))
started candidate count base i (inr (e, p)) b = rw e refl

module _ (ws : Words) (size quantity : ℕ) where
  -- No run that starts before a used block, and reaches it, fits.
  Misses-past :
      (base count i : ℕ)
      → base + count ≡ i
      → count < quantity
      → i < size
      → is_free ws i ≡ false
      → Misses ws size quantity base
      → Misses ws size quantity (suc i)
  Misses-past base count i e short inside used_i m d h fits = elim (Bool-cases (ltb d base)) [
    | inl l ↦ m d (ground (arith, l)) fits
    | inr l ↦ let free = fits i (omega arith) (ground (arith, l)) inside in cc
  ]

  -- At the end of the loop the candidate, if there is one, is the first fit.
  stopped :
      (i count base : ℕ) (candidate : Option ℕ)
      → i ≤ size
      → base + count ≡ i
      → (count ≡ quantity) ⊎ (i ≡ size)
      → 0 < quantity
      → Held candidate count base
      → FreeFrom ws base i
      → Misses ws size quantity base
      → IsFirstFit ws size quantity candidate
  stopped i count base candidate in_map b end q (inl (none_held, z)) free m =
      rw none_held λ c h. m c (ground (arith, end, z, b, q))
  stopped i count base candidate in_map b end q (inr (held, some_count)) free m = rw held (
    omega arith,
    (λ j l u s. free j l (elim end [ inl f ↦ omega arith | inr f ↦ omega arith ])),
    m,
  )

  pub find_run-IsFirstFit :
      (n i count base : ℕ) (candidate : Option ℕ)
      → 0 < quantity
      → i + n ≡ size
      → base + count ≡ i
      → count ≤ quantity
      → Held candidate count base
      → FreeFrom ws base i
      → Misses ws size quantity base
      → IsFirstFit ws size quantity (find_run ws quantity n i count candidate)
  unfolding find_run
  find_run-IsFirstFit zero i count base candidate q e b l held free m =
      stopped i count base candidate (omega arith) b (inr (omega arith)) q held free m
  find_run-IsFirstFit (suc n) i count base candidate q e b l held free m =
      elim (Bool-cases (ltb count quantity)) [
        | inr stop ↦ rw stop (
            stopped i count base candidate (omega arith) b (inl (ground (arith, stop))) q held free
              m)
        | inl more ↦ elim (Bool-cases (is_free ws i)) [
          | inl f ↦
              rw (more, f)
                (find_run-IsFirstFit n (suc i) (suc count) base (some (or_start candidate i)) q
                  (omega arith) (omega arith) (ground (arith, more))
                  (inr (started candidate count base i held b, omega arith))
                  (λ j u v. elim (Bool-cases (j == i)) [
                    | inl same ↦ rw ((==_iff j i).0 same) f
                    | inr other ↦ free j u (ground (arith, other))
                  ])
                  m)
          | inr f ↦
              rw (more, f)
                (find_run-IsFirstFit n (suc i) 0 (suc i) none q (omega arith) (omega arith)
                  (omega arith) (inl (refl, refl)) (λ j u v. absurd (omega arith))
                  (Misses-past base count i b (ground (arith, more)) (omega arith) f m))
        ]
      ]
