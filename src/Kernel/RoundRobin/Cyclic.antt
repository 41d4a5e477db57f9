-- ===== src/Kernel/RoundRobin/Cyclic.antt =====
-- `GetNextTask` of scheduler.c goes round the list.
use native.Mathlib.Nat.{zero-add}
use tpe_so.Base.{
  ℕ, suc, ◌+◌, ℤ, pos, ◌==ℤ◌, ==ℤ_iff, ==ℤ_refl, ◌≡◌, refl, ap, ◌∙◌, ◌≢◌, true, false, Bool-cases,
  Option, none, some, Option-cases, List, [], ◌∷◌, ◌++◌, length, inl, inr, arith,
}
use tpe_so.Kernel.State.{is_ready, Process}
use tpe_so.Kernel.Table.{NotIn, pids}
use tpe_so.Kernel.RoundRobin.{PassEnd, stop, end, first_ready, pass, second_pass, get_next_task}

not_same : (a b : ℤ) → a ≢ b → (a ==ℤ b) ≡ false
not_same a b n = elim (Bool-cases (a ==ℤ b)) [ inl e ↦ absurd (n ((==ℤ_iff a b).0 e)) | inr e ↦ e ]

abbrev found : Option ℕ → PassEnd
found none = end true
found (some i) = stop i

-- Once the current process has been met, a pass stops at the first ready process behind.
pass_behind :
    (cur : ℤ) (p : Process) (ps : List Process) (i : ℕ)
    → pass cur true (p ∷ ps) i ≡ found (first_ready ps (suc i))
unfolding pass first_ready
pass_behind cur p [] i = refl
pass_behind cur p (q ∷ ps) i = elim (Bool-cases (is_ready q.state)) [
  | inl e ↦ rw e
  | inr e ↦ rw e (pass_behind cur q ps (suc i))
]

-- At the current process the pass raises its flag.
pass_at :
    (cur : ℤ) (c : Process) (after : List Process) (i : ℕ)
    → c.pid ≡ cur
    → pass cur false (c ∷ after) i ≡ found (first_ready after (suc i))
unfolding pass first_ready
pass_at cur c [] i e = rw (e, ==ℤ_refl cur)
pass_at cur c (q ∷ ps) i e =
    rw (e, ==ℤ_refl cur)
      (elim (Bool-cases (is_ready q.state)) [
        | inl r ↦ rw r
        | inr r ↦ rw r (pass_behind cur q ps (suc i))
      ])

-- In front of it the pass goes on.
pass_before :
    (cur : ℤ) (before : List Process) (c : Process) (after : List Process) (i : ℕ)
    → NotIn cur (pids before)
    → pass cur false (before ++ (c ∷ after)) i ≡ pass cur false (c ∷ after) (i + length before)
unfolding pass
pass_before cur [] c after i n = ap (pass cur false (c ∷ after)) (omega arith)
pass_before cur (p ∷ []) c after i n =
    rw (not_same p.pid cur n.0) (ap (pass cur false (c ∷ after)) (omega arith))
pass_before cur (p ∷ q ∷ ps) c after i n =
    rw (not_same p.pid cur n.0)
      (pass_before cur (q ∷ ps) c after (suc i) n.1 ∙ ap (pass cur false (c ∷ after)) (omega arith))

-- Round the list: the first ready process behind the current one, or the first of the whole list.
abbrev pub or_from_start : Option ℕ → List Process → Option ℕ
or_from_start none ps = first_ready ps 0
or_from_start (some i) ps = some i

second_pass_lem : (cur : ℤ) (ps : List Process) → second_pass cur true ps ≡ first_ready ps 0
unfolding second_pass first_ready
second_pass_lem cur [] = refl
second_pass_lem cur (p ∷ ps) = elim (Bool-cases (is_ready p.state)) [
  | inl e ↦ rw e
  | inr e ↦
      rw (e, pass_behind cur p ps 0)
        (elim (Option-cases (first_ready ps 1)) [ inl n ↦ rw n | inr (i, s) ↦ rw s ])
]

-- The round-robin scheduler picks the first ready process behind the current one, and if there is
-- none, the first ready one of the list; the idle process (`none`) only when nobody is ready. This
-- is for a current process that is in the list, its pid not 0 and not met before it.
pub get_next_task_cyclic :
    (cur : ℤ) (before : List Process) (c : Process) (after : List Process)
    → cur ≢ pos 0
    → c.pid ≡ cur
    → NotIn cur (pids before)
    → let ready = before ++ (c ∷ after) in
      get_next_task cur ready ≡ or_from_start (first_ready after (suc (length before))) ready
unfolding get_next_task
get_next_task_cyclic cur before c after z e n =
    rw
      (
        not_same cur (pos 0) z,
        pass_before cur before c after 0 n,
        pass_at cur c after (0 + length before) e,
      )
      (rw zero-add (elim (Option-cases (first_ready after (suc (length before)))) [
        | inl m ↦ rw m (second_pass_lem cur (before ++ (c ∷ after)))
        | inr (i, m) ↦ rw m
      ]))
