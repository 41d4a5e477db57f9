-- ===== src/Kernel/Scheduler/Aging.antt =====
-- Aging seen abstractly: each process has a load, which grows at its own rate in every round, and
-- the round's winner, whose load nobody exceeds, drops to 0.
use tpe_so.Base.{
  ℕ, zero, suc, ◌+◌, ◌*◌, ◌≤◌, ◌<◌, ◌≡◌, refl, ap, ◌≢◌, ◌⊎◌, inl, inr, some, List, [], ◌∷◌, leb,
  if◌then◌else◌, length, get_elem?, get_or, get_elem?-eq-get_or, All, ℕ_discrete, arith,
}

pub record Load : Type 0 where
  pub level : ℕ
  pub rate : ℕ

abbrev pub grow : Load → Load
grow x = record x { level = x.level + x.rate }

unfoldable pub grow_all : List Load → List Load
grow_all [] = []
grow_all (x ∷ xs) = grow x ∷ grow_all xs

-- The round that the process at `c` wins.
unfoldable pub advance : List Load → ℕ → List Load
unfolding grow_all
advance [] c = []
advance (x ∷ xs) zero = record x { level = 0 } ∷ grow_all xs
advance (x ∷ xs) (suc c) = grow x ∷ advance xs c

abbrev pub Rated : ℕ → List Load → Type 0
Rated r = All (λ x. (0 < x.rate) × (x.rate ≤ r))

-- How many loads have reached `t`.
over : ℕ → List Load → ℕ
over t [] = 0
over t (x ∷ xs) = (if leb t x.level then 1 else 0) + over t xs

over-le-length : (t : ℕ) (xs : List Load) → over t xs ≤ length xs
unfolding over
over-le-length t [] = omega arith
over-le-length t (x ∷ xs) = ground (arith, over-le-length t xs)

over-pos :
    (t : ℕ) (xs : List Load) (i : ℕ) (x : Load)
    → get_elem? xs i ≡ some x
    → t ≤ x.level
    → 0 < over t xs
unfolding over
over-pos t [] i x g h = cc
over-pos t (y ∷ ys) zero x g h = let e : y ≡ x = cc in ground arith
over-pos t (y ∷ ys) (suc i) x g h = ground (arith, over-pos t ys i x g h)

over-grow_all : (r t : ℕ) (xs : List Load) → Rated r xs → over (t + r) (grow_all xs) ≤ over t xs
unfolding over grow_all
over-grow_all r t [] h = omega arith
over-grow_all r t (x ∷ xs) h = ground (arith, over-grow_all r t xs h.1)

-- A winner that had reached `t` leaves one load fewer over the raised mark.
over-advance :
    (r t : ℕ) (xs : List Load) (c : ℕ) (x : Load)
    → 0 < r
    → Rated r xs
    → get_elem? xs c ≡ some x
    → t ≤ x.level
    → suc (over (t + r) (advance xs c)) ≤ over t xs
unfolding over advance
over-advance r t [] c x p h g l = cc
over-advance r t (y ∷ ys) zero x p h g l =
    let e : y ≡ x = cc in ground (arith, over-grow_all r t ys h.1)
over-advance r t (y ∷ ys) (suc c) x p h g l = ground (arith, over-advance r t ys c x p h.1 g l)

Rated-grow_all : (r : ℕ) (xs : List Load) → Rated r xs → Rated r (grow_all xs)
unfolding grow_all
Rated-grow_all r [] h = tt
Rated-grow_all r (x ∷ xs) h = (h.0, Rated-grow_all r xs h.1)

pub Rated-advance : (r : ℕ) (xs : List Load) (c : ℕ) → Rated r xs → Rated r (advance xs c)
unfolding advance
Rated-advance r [] c h = tt
Rated-advance r (x ∷ xs) zero h = (h.0, Rated-grow_all r xs h.1)
Rated-advance r (x ∷ xs) (suc c) h = (h.0, Rated-advance r xs c h.1)

get_elem?-grow_all :
    (xs : List Load) (i : ℕ) (x : Load)
    → get_elem? xs i ≡ some x
    → get_elem? (grow_all xs) i ≡ some (grow x)
unfolding grow_all
get_elem?-grow_all [] i x g = cc
get_elem?-grow_all (y ∷ ys) zero x g = let e : y ≡ x = cc in rw e
get_elem?-grow_all (y ∷ ys) (suc i) x g = get_elem?-grow_all ys i x g

-- Whoever does not win grows.
get_elem?-advance :
    (xs : List Load) (c i : ℕ) (x : Load)
    → c ≢ i
    → get_elem? xs i ≡ some x
    → get_elem? (advance xs c) i ≡ some (grow x)
unfolding advance
get_elem?-advance [] c i x n g = cc
get_elem?-advance (y ∷ ys) zero zero x n g = absurd (n refl)
get_elem?-advance (y ∷ ys) zero (suc i) x n g = get_elem?-grow_all ys i x g
get_elem?-advance (y ∷ ys) (suc c) zero x n g = let e : y ≡ x = cc in rw e
get_elem?-advance (y ∷ ys) (suc c) (suc i) x n g = get_elem?-advance ys c i x (λ e. n (ap suc e)) g

length-grow_all : (xs : List Load) → length (grow_all xs) ≡ length xs
unfolding grow_all
length-grow_all [] = refl
length-grow_all (x ∷ xs) = ap suc (length-grow_all xs)

pub length-advance : (xs : List Load) (c : ℕ) → length (advance xs c) ≡ length xs
unfolding advance
length-advance [] c = refl
length-advance (x ∷ xs) zero = ap suc (length-grow_all xs)
length-advance (x ∷ xs) (suc c) = ap suc (length-advance xs c)

-- Nobody exceeds the load at `c`.
abbrev pub IsHighest : List Load → ℕ → Type 0
IsHighest xs c =
    (x : Load) × (get_elem? xs c ≡ some x)
    × ((j : ℕ) (y : Load) → get_elem? xs j ≡ some y → y.level ≤ x.level)

-- A sequence of winners, each the highest of its round.
abbrev pub IsRun : List Load → List ℕ → Type 0
IsRun xs [] = Unit
IsRun xs (c ∷ cs) = IsHighest xs c × IsRun (advance xs c) cs

abbrev pub Wins : ℕ → List ℕ → Type 0
Wins i [] = ⊥
Wins i (c ∷ cs) = (c ≡ i) ⊎ Wins i cs

module _ (r i : ℕ) (r_pos : 0 < r) where
  -- Once `i` is above every mark that the others can reach again, `n` rounds are enough.
  drain :
      (n t : ℕ) (xs : List Load) (cs : List ℕ) (x : Load)
      → IsRun xs cs
      → Rated r xs
      → get_elem? xs i ≡ some x
      → n ≤ length cs
      → over t xs ≤ n
      → t + n * r ≤ x.level
      → Wins i cs
  drain zero t xs cs x run rated g len few high =
      absurd (omega (arith, over-pos t xs i x g (omega arith)))
  drain (suc n) t xs [] x run rated g len few high = absurd (omega arith)
  drain (suc n) t xs (c ∷ cs) x ((w, gw, top), run) rated g len few high = elim (ℕ_discrete c i) [
    | yes e ↦ inl e
    | no ne ↦
        let above = top i x g in
        inr (
          drain n (t + r) (advance xs c) cs (grow x) run (Rated-advance r xs c rated)
            (get_elem?-advance xs c i x ne g) (omega arith)
            (omega (arith, over-advance r t xs c w r_pos rated gw (grind arith))) (grind arith))
  ]

  rate_of : (xs : List Load) (j : ℕ) (x : Load) → Rated r xs → get_elem? xs j ≡ some x → 0 < x.rate
  rate_of [] j x h g = cc
  rate_of (y ∷ ys) zero x h g = let e : y ≡ x = cc in ground arith
  rate_of (y ∷ ys) (suc j) x h g = rate_of ys j x h.1 g

  -- Until then `i` grows in every round that it does not win.
  climb :
      (m : ℕ) (xs : List Load) (cs : List ℕ) (x : Load)
      → IsRun xs cs
      → Rated r xs
      → get_elem? xs i ≡ some x
      → m + length xs ≤ length cs
      → length xs * r ≤ x.level + m
      → Wins i cs
  climb zero xs cs x run rated g len high =
      drain (length xs) 0 xs cs x run rated g (omega arith) (over-le-length 0 xs) (omega arith)
  climb (suc m) xs [] x run rated g len high = absurd (omega arith)
  climb (suc m) xs (c ∷ cs) x (best, run) rated g len high = elim (ℕ_discrete c i) [
    | yes e ↦ inl e
    | no ne ↦
        let same = length-advance xs c in
        let up = rate_of xs i x rated g in
        inr (
          climb m (advance xs c) cs (grow x) run (Rated-advance r xs c rated)
            (get_elem?-advance xs c i x ne g) (omega arith) (rw same (omega arith)))
  ]

-- With `n` processes whose rates are between 1 and `r`, everybody wins within `n * r + n` rounds.
pub Wins-of_run :
    (r i : ℕ) (xs : List Load) (cs : List ℕ)
    → 0 < r
    → Rated r xs
    → i < length xs
    → IsRun xs cs
    → length xs * r + length xs ≤ length cs
    → Wins i cs
Wins-of_run r i xs cs p rated h run len =
    climb r i p (length xs * r) xs cs (get_or xs i (record { level = 0; rate = 0 })) run rated
      (get_elem?-eq-get_or xs i _ h) len (omega arith)
