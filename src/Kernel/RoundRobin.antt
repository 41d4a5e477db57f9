-- ===== src/Kernel/RoundRobin.antt =====
-- The round-robin scheduler (Chinux/src/scheduler.c), which the build leaves out in favour of
-- scheduler2.c. The two files differ in `GetNextTask` only.
pub mod Cyclic
use tpe_so.Base.{
  ℕ, zero, suc, ◌+◌, ℤ, pos, ◌==ℤ◌, is_zero, Bool, true, false, ◌&&◌, ◌||◌, if◌then◌else◌, Option,
  none, some, List, [], ◌∷◌,
}
use tpe_so.Kernel.State.{is_ready, Process}

-- The loop for `CurrentPID == 0`: the first ready process from the one at `i` on.
unfoldable pub first_ready : List Process → ℕ → Option ℕ
first_ready [] i = none
first_ready (p ∷ ps) i = if is_ready p.state then some i else first_ready ps (suc i)

-- One pass of the other loop: where it stops, or `flag` at the end of the list.
pub data PassEnd : Type 0 where
  stop : ℕ → PassEnd
  end : Bool → PassEnd

unfoldable pub pass : ℤ → Bool → List Process → ℕ → PassEnd
pass cur flag [] i = end flag
pass cur flag (p ∷ []) i = end (flag || p.pid ==ℤ cur)
pass cur flag (p ∷ q ∷ ps) i =
    let rest = pass cur (flag || p.pid ==ℤ cur) (q ∷ ps) (suc i) in
    if (flag || p.pid ==ℤ cur) && is_ready q.state then stop (suc i) else rest

-- What the loop returns after a pass that found nothing: the first process, if it is ready, or what
-- a second pass finds.
unfoldable pub second_pass : ℤ → Bool → List Process → Option ℕ
unfolding pass
second_pass cur flag [] = none
second_pass cur flag (p ∷ ps) =
    if is_ready p.state
    then some 0
    else elim (pass cur flag (p ∷ ps) 0) [ stop i ↦ some i | end _ ↦ none ]

-- `GetNextTask` of scheduler.c: the index of the chosen process, `none` for the idle process.
unfoldable pub get_next_task : ℤ → List Process → Option ℕ
unfolding first_ready pass second_pass
get_next_task cur ready =
    if is_zero cur
    then first_ready ready 0
    else elim (pass cur false ready 0) [ stop i ↦ some i | end flag ↦ second_pass cur flag ready ]
