-- ===== src/Kernel/Scheduler/Choice.antt =====
-- Which process `GetNextTask` of scheduler2.c chooses.
use tpe_so.Base.{
  ℕ, zero, suc, ◌+◌, pos, ◌≤ℤ◌, ◌<ℤ◌, ◌≡◌, refl, ap, ◌∙◌, ◌≢◌, ◌⊎◌, inl, inr, none, some, List, [],
  ◌∷◌, get_elem?, get_or, set, arith,
}
use tpe_so.Kernel.State.{ready, Process, Kernel}
use tpe_so.Kernel.Scheduler.{
  ProcRef, idle_ref, node_ref, Best, consider, scan, nothing_found, get_next_task,
}

abbrev pub of_process : ℕ → Process → Best
of_process i p = record { max_acum = p.acum; max_priority = p.priority; proc = some i }

-- A smaller accumulated priority, or the same one and no larger priority.
abbrev pub NotAbove : Best → Best → Type 0
NotAbove b c =
    (b.max_acum <ℤ c.max_acum) ⊎ ((b.max_acum ≡ c.max_acum) × (b.max_priority ≤ℤ c.max_priority))

NotAbove-refl : (b : Best) → NotAbove b b
NotAbove-refl b = ground arith

NotAbove-trans : (b c d : Best) → NotAbove b c → NotAbove c d → NotAbove b d
NotAbove-trans b c d h k = ground arith

module _ (b : Best) (i : ℕ) (p : Process) where
  consider-above : NotAbove b (consider b i p)
  unfolding consider
  consider-above = ground arith

  consider-best : p.state ≡ ready → NotAbove (of_process i p) (consider b i p)
  unfolding consider
  consider-best h = ground arith

  consider-from : (consider b i p ≡ b) ⊎ ((consider b i p ≡ of_process i p) × (p.state ≡ ready))
  unfolding consider
  consider-from = ground arith

-- What the loop has found from the process at `i` on, started at `b`.
record Found (ps : List Process) (i : ℕ) (b r : Best) : Type 0 where
  above : NotAbove b r
  best :
      (j : ℕ) (q : Process)
      → get_elem? ps j ≡ some q
      → q.state ≡ ready
      → NotAbove (of_process j q) r
  from :
      (r ≡ b)
      ⊎ ((j : ℕ) × (q : Process) × (get_elem? ps j ≡ some q)
          × (q.state ≡ ready)
          × (r ≡ of_process (i + j) q))

-- One round more at the front.
module _ (p : Process) (ps : List Process) (i : ℕ) (b r : Best) where
  best-cons :
      Found ps (suc i) (consider b i p) r
      → (j : ℕ) (q : Process) → get_elem? (p ∷ ps) j ≡ some q
      → q.state ≡ ready
      → NotAbove (of_process j q) r
  best-cons f zero q g s =
      let e : p ≡ q = cc in
      NotAbove-trans (of_process zero q) (consider b i p) r
        (rw (← e) (consider-best b i p (rw e s))) f.above
  best-cons f (suc j) q g s = f.best j q g s

  from-cons :
      Found ps (suc i) (consider b i p) r
      → (r ≡ b)
        ⊎ ((j : ℕ) × (q : Process) × (get_elem? (p ∷ ps) j ≡ some q)
            × (q.state ≡ ready)
            × (r ≡ of_process (i + j) q))
  from-cons f = elim f.from [
    | inl e ↦ elim (consider-from b i p) [
      | inl kept ↦ inl (e ∙ kept)
      | inr (taken, s) ↦ inr (0, p, refl, s, e ∙ taken ∙ ap (λ n. of_process n p) (omega arith))
    ]
    | inr (j, q, g, s, e) ↦ inr (suc j, q, g, s, e ∙ ap (λ n. of_process n q) (omega arith))
  ]

  Found-cons : Found ps (suc i) (consider b i p) r → Found (p ∷ ps) i b r
  Found-cons f = record {
    above = NotAbove-trans b (consider b i p) r (consider-above b i p) f.above;
    best = best-cons f;
    from = from-cons f;
  }

scan-Found : (ps : List Process) (i : ℕ) (b : Best) → Found ps i b (scan ps i b).1
unfolding scan
scan-Found [] i b = record { above = NotAbove-refl b; best = λ j q g s. cc; from = inl refl }
scan-Found (p ∷ ps) i b = Found-cons p ps i b _ (scan-Found ps (suc i) (consider b i p))

-- Accumulated priorities and priorities are not negative.
abbrev pub IsCounted : Process → Type 0
IsCounted p = (pos 0 ≤ℤ p.acum) × (pos 0 ≤ℤ p.priority)

-- What a caller may rely on: the idle process only if nothing is ready, and otherwise a ready
-- process that none exceeds.
abbrev pub IsBestChoice : Kernel → ProcRef → Type 0
IsBestChoice k idle_ref = (j : ℕ) (q : Process) → get_elem? k.ready j ≡ some q → q.state ≢ ready
IsBestChoice k (node_ref i) =
    (p : Process) × (get_elem? k.ready i ≡ some p)
    × (p.state ≡ ready)
    × ((j : ℕ) (q : Process)
        → get_elem? k.ready j ≡ some q
        → q.state ≡ ready
        → NotAbove (of_process j q) (of_process i p))

abbrev pub AllCounted : List Process → Type 0
AllCounted ps = (j : ℕ) (q : Process) → get_elem? ps j ≡ some q → IsCounted q

pub get_next_task-none :
    (k : Kernel)
    → (scan k.ready 0 nothing_found).1.proc ≡ none
    → get_next_task k ≡ (idle_ref, record k { ready = (scan k.ready 0 nothing_found).0 })
unfolding get_next_task
get_next_task-none k e = rw (e, get_next_task)

-- The chosen process with its accumulated priority spent.
abbrev pub spend_at : List Process → ℕ → Process → List Process
spend_at ps c d = set ps c (record (get_or ps c d) { acum = pos 0 })

pub get_next_task-some :
    (k : Kernel) (i : ℕ)
    → (scan k.ready 0 nothing_found).1.proc ≡ some i
    → get_next_task k
      ≡ (node_ref i, record k { ready = spend_at (scan k.ready 0 nothing_found).0 i k.idle })
unfolding get_next_task
get_next_task-some k i e = rw (e, get_next_task)

-- `GetNextTask` gives the idle process exactly when no process is ready; otherwise it gives a ready
-- process such that no ready one has a larger accumulated priority, nor the same one and a larger
-- priority (provided that no such number in the list is negative).
pub get_next_task-IsBestChoice :
    (k : Kernel) → AllCounted k.ready → IsBestChoice k (get_next_task k).0
get_next_task-IsBestChoice k c =
    let f = scan-Found k.ready 0 nothing_found in
    elim f.from [
      | inl e ↦
          rw (get_next_task-none k (ap (λ b. b.proc) e))
            λ j q g s. let a = f.best j q g s in let d = c j q g in absurd (ground arith)
      | inr (j, p, g, s, e) ↦
          rw (get_next_task-some k j (ap (λ b. b.proc) e ∙ ap some (omega arith)))
            (p, g, s, λ i q h t. rw e at (f.best i q h t))
    ]
