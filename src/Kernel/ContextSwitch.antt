-- ===== src/Kernel/ContextSwitch.antt =====
-- The context switch of the int 8 handler as a whole.
use mathlib.Core.Path.{subst}
use tpe_so.Base.{
  ℕ, zero, suc, ℤ, pos, ◌==ℤ◌, ◌<ℤ◌, ==ℤ_iff, ==ℤ_refl, is_zero, ◌≡◌, refl, sym, ap, ◌∙◌, ◌≢◌, ◌⊎◌,
  inl, inr, false, Bool-cases, none, some, Option-cases, List, [], ◌∷◌, get_or, set, All, arith,
}
use tpe_so.Kernel.State.{running, Process, Kernel}
use tpe_so.Kernel.Process.{find_pid, get_process_by_pid}
use tpe_so.Kernel.Scheduler.{
  ProcRef, idle_ref, node_ref, deref, scan, nothing_found, is_time_slot, save_esp, get_next_process,
  load_esp, switch_process, int_08_hand,
}
use tpe_so.Kernel.Scheduler.Choice.{get_next_task-none, get_next_task-some, spend_at}
use tpe_so.Kernel.Scheduler.Context.{find-pids, switch-saves}
use tpe_so.Kernel.Invariant.{Kin, IsFamily, lineage, WellFormed}
use tpe_so.Kernel.Invariant.Frame.{pids_of_lineage}
use tpe_so.Kernel.Invariant.Timer.{is_time_slot-Frame}
use tpe_so.Kernel.Invariant.Switch.{int_08_hand-IsFormed}

pid-run_at :
    (ps : List Process) (c : ℕ) (d : Process)
    → (get_or ps c d).pid ≡ (get_or (set ps c (record (get_or ps c d) { state = running })) c d).pid
pid-run_at [] c d = refl
pid-run_at (p ∷ ps) zero d = refl
pid-run_at (p ∷ ps) (suc c) d = pid-run_at ps c d

-- The current process is the one that `GetNextProcess` returns.
current-deref :
    (k : Kernel)
    → (get_next_process k).1.current_pid ≡ (deref (get_next_process k).1 (get_next_process k).0).pid
unfolding get_next_process
current-deref k = elim (Option-cases (scan k.ready 0 nothing_found).1.proc) [
  | inl e ↦ rw (get_next_task-none k e)
  | inr (c, e) ↦
      rw (get_next_task-some k c e)
        (pid-run_at (spend_at (scan k.ready 0 nothing_found).0 c k.idle) c k.idle)
]

find_missing :
    (ps : List Process) (pid : ℤ)
    → All (λ (x : Kin). x.0 ≢ pid) (lineage ps)
    → find_pid ps pid ≡ none
unfolding find_pid
find_missing [] pid a = refl
find_missing (p ∷ ps) pid a = elim (Bool-cases (p.pid ==ℤ pid)) [
  | inl e ↦ absurd (a.0 ((==ℤ_iff p.pid pid).0 e))
  | inr e ↦ rw e (find_missing ps pid a.1)
]

-- With distinct pids the process at an index is the one found by its pid.
find-get_or :
    (next : ℤ) (ps : List Process) (c : ℕ) (d : Process)
    → IsFamily next (lineage ps)
    → (get_or ps c d ≡ d)
      ⊎ ((find_pid ps (get_or ps c d).pid ≡ some (get_or ps c d)) × (pos 0 <ℤ (get_or ps c d).pid))
unfolding find_pid
find-get_or next [] c d f = inl refl
find-get_or next (p ∷ ps) zero d f = inr (rw (==ℤ_refl p.pid), f.0)
find-get_or next (p ∷ ps) (suc c) d f = elim (find-get_or next ps c d f.4) [
  | inl e ↦ inl e
  | inr (e, h) ↦ elim (Bool-cases (p.pid ==ℤ (get_or ps c d).pid)) [
    | inl same ↦
        let s = (==ℤ_iff p.pid (get_or ps c d).pid).0 same in
        let n = subst (λ x. find_pid ps x ≡ none) s (find_missing ps p.pid f.3) in cc
    | inr other ↦ inr (rw other e, h)
  ]
]

-- In a well-formed state a pointer is found again by the pid behind it.
process-deref :
    (k : Kernel) (ref : ProcRef)
    → WellFormed k
    → get_process_by_pid k (deref k ref).pid ≡ deref k ref
unfolding get_process_by_pid deref
process-deref k idle_ref w = rw w.idle_pid
process-deref k (node_ref c) w = elim (find-get_or k.next_pid k.ready c k.idle w.family) [
  | inl e ↦ rw (e, w.idle_pid)
  | inr (e, h) ↦ rw (e, nonzero (get_or k.ready c k.idle).pid h)
]
  where
    nonzero : (x : ℤ) → pos 0 <ℤ x → is_zero x ≡ false
    nonzero x h = ground arith

switch-loads :
    (k : Kernel)
    → WellFormed (switch_process k).1
    → (switch_process k).0
      ≡ (get_process_by_pid (switch_process k).1 (switch_process k).1.current_pid).esp
unfolding switch_process load_esp
switch-loads k w =
    let (ref, k1) = get_next_process k in
    ap (λ (p : Process). p.esp)
      (sym (ap (get_process_by_pid k1) (current-deref k) ∙ process-deref k1 ref w))

process_of_find :
    (k : Kernel) (pid : ℤ) (p : Process)
    → pid ≢ pos 0
    → find_pid k.ready pid ≡ some p
    → get_process_by_pid k pid ≡ p
unfolding get_process_by_pid
process_of_find k pid p z e = elim (Bool-cases (is_zero pid)) [
  | inl h ↦ absurd (z ((==ℤ_iff pid (pos 0)).0 h))
  | inr h ↦ rw (h, e)
]

-- At the end of a time slot the handler saves the stack pointer of the interrupted process, and
-- returns with the one saved of the process that is now the current one. So a process goes on where
-- it was interrupted. (The state is well formed, the current process is in the list, and neither
-- the first slot nor the end of a killed process.)
pub int_08_hand_switches :
    (k : Kernel) (esp : ℤ) (p : Process)
    → WellFormed k
    → k.first_time ≡ false
    → k.actual_killed ≡ false
    → k.current_pid ≢ pos 0
    → find_pid k.ready k.current_pid ≡ some p
    → (is_time_slot k).0 ≡ pos 0
    → let (loaded, k') = int_08_hand k esp in
      ((get_process_by_pid k' k.current_pid).esp ≡ esp)
      × (loaded ≡ (get_process_by_pid k' k'.current_pid).esp)
int_08_hand_switches k esp p w a b z e over =
    let k1 = (is_time_slot k).1 in
    let f = is_time_slot-Frame k in
    let (p1, e1) =
      find-pids k.ready k1.ready k.current_pid p
        (sym (pids_of_lineage k1.ready k.ready f.same_lineage)) e in
    let switched : int_08_hand k esp ≡ switch_process (save_esp k1 esp) =
      unfold int_08_hand in rw over in
    let formed = rw switched at (int_08_hand-IsFormed k esp w) in
    let (q, eq, held) =
      switch-saves k1 esp p1 (f.same_first ∙ a) (f.same_killed ∙ b) (rw f.same_current z)
        (rw f.same_current e1) in
    rw switched (
      ap (λ (x : Process). x.esp)
            (process_of_find (switch_process (save_esp k1 esp)).1 k.current_pid q z
              (rw f.same_current at eq))
          ∙ held,
      switch-loads (save_esp k1 esp) formed,
    )
