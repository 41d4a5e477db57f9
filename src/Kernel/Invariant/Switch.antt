-- ===== src/Kernel/Invariant/Switch.antt =====
-- A context switch keeps the invariant, and so does the whole handler of int 8.
use mathlib.Core.Path.{ap₂}
use tpe_so.Base.{
  Bool, ℕ, zero, suc, ℤ, ◌<ℤ◌, is_zero, ◌≡◌, refl, sym, ◌∙◌, ◌≢◌, inl, inr, Bool-cases,
  Option-cases, List, [], ◌∷◌, map, get_or, All, All-map, arith,
}
use tpe_so.Kernel.State.{running, Process, Kernel}
use tpe_so.Kernel.Scheduler.{
  age, scan, nothing_found, is_time_slot, save_esp, get_next_process, switch_process, int_08_hand,
}
use tpe_so.Kernel.Scheduler.Elect.{
  elect, Elected, Idled, get_next_process-some, get_next_process-none,
}
use tpe_so.Kernel.Invariant.{IsFamily, lineage, IsSingle, bound, IsFormed}
use tpe_so.Kernel.Invariant.Frame.{Frame-IsFormed}
use tpe_so.Kernel.Invariant.Timer.{NoRun, Saved, save_esp-Saved, is_time_slot-Frame}

kin-age : (p : Process) → ◌≡◌ {A = ℤ × ℤ} ((age p).pid, (age p).parent) (p.pid, p.parent)
unfolding age
kin-age p = ground arith

lineage-age : (ps : List Process) → lineage (map age ps) ≡ lineage ps
lineage-age [] = refl
lineage-age (p ∷ ps) = ap₂ ◌∷◌ (kin-age p) (lineage-age ps)

lineage-elect : (ps : List Process) (c : ℕ) → lineage (elect ps c) ≡ lineage ps
unfolding elect
lineage-elect [] c = refl
lineage-elect (p ∷ ps) zero = ap₂ ◌∷◌ refl (lineage-age ps)
lineage-elect (p ∷ ps) (suc c) = ap₂ ◌∷◌ (kin-age p) (lineage-elect ps c)

no_run-age : (p : Process) → p.state ≢ running → (age p).state ≢ running
unfolding age
no_run-age p h e = ground arith

NoRun-ages : (ps : List Process) → NoRun ps → NoRun (map age ps)
NoRun-ages [] h = tt
NoRun-ages (p ∷ ps) h = (no_run-age p h.0, NoRun-ages ps h.1)

IsSingle-of_NoRun : (cur : ℤ) (ps : List Process) → NoRun ps → All (IsSingle cur) ps
IsSingle-of_NoRun cur ps = All-map ps λ p h r. absurd (h r)

IsSingle-elect :
    (cur : ℤ) (ps : List Process) (c : ℕ) (d : Process)
    → cur ≡ (get_or ps c d).pid
    → NoRun ps
    → All (IsSingle cur) (elect ps c)
unfolding elect
IsSingle-elect cur [] c d e h = tt
IsSingle-elect cur (p ∷ ps) zero d e h =
    ((λ r. sym e), IsSingle-of_NoRun cur (map age ps) (NoRun-ages ps h.1))
IsSingle-elect cur (p ∷ ps) (suc c) d e h =
    ((λ r. absurd (no_run-age p h.0 r)), IsSingle-elect cur ps c d e h.1)

pid-lt_next :
    (next : ℤ) (ps : List Process) (c : ℕ) (d : Process)
    → IsFamily next (lineage ps)
    → d.pid <ℤ next
    → (get_or ps c d).pid <ℤ next
pid-lt_next next [] c d f h = h
pid-lt_next next (p ∷ ps) zero d f h = f.1
pid-lt_next next (p ∷ ps) (suc c) d f h = pid-lt_next next ps c d f.4 h

Elected-IsFormed :
    {b : Bool} (k s k' : Kernel) (c : ℕ) → Saved b k s → Elected s c k' → IsFormed b k'
Elected-IsFormed {b} k s k' c saved e =
    let w = saved.formed in
    record {
      family = rw (e.same_next, e.elected, lineage-elect s.ready c) w.family;
      idle_pid = rw e.same_idle w.idle_pid;
      next_pos = rw e.same_next w.next_pos;
      current_old =
          rw (e.current, e.same_next)
            (pid-lt_next (bound b s.next_pid) s.ready c s.idle w.family (rw w.idle_pid w.next_pos));
      single = rw e.elected (IsSingle-elect k'.current_pid s.ready c s.idle e.current saved.quiet);
      gone = λ h.
          let a = e.same_first ∙ saved.started in
          let b = e.same_killed ∙ saved.unkilled in absurd (ground arith);
    }

Idled-IsFormed : {b : Bool} (k s k' : Kernel) → Saved b k s → Idled s k' → IsFormed b k'
Idled-IsFormed k s k' saved e =
    let w = saved.formed in
    record {
      family = rw (e.same_next, e.aged, lineage-age s.ready) w.family;
      idle_pid = e.same_idle ∙ w.idle_pid;
      next_pos = rw e.same_next w.next_pos;
      current_old = rw (e.current, e.same_next, w.idle_pid) w.next_pos;
      single =
          rw e.aged
            (IsSingle-of_NoRun k'.current_pid (map age s.ready) (NoRun-ages s.ready saved.quiet));
      gone = λ h.
          let a = e.same_first ∙ saved.started in
          let b = e.same_killed ∙ saved.unkilled in absurd (ground arith);
    }

get_next_process-IsFormed :
    {b : Bool} (k s : Kernel) → Saved b k s → IsFormed b (get_next_process s).1
get_next_process-IsFormed k s saved = elim (Option-cases (scan s.ready 0 nothing_found).1.proc) [
  | inl e ↦ Idled-IsFormed k s _ saved (get_next_process-none s e)
  | inr (c, e) ↦ Elected-IsFormed k s _ c saved (get_next_process-some s c e)
]

switch-IsFormed :
    {b : Bool} (k : Kernel) (esp : ℤ)
    → IsFormed b k
    → IsFormed b (switch_process (save_esp k esp)).1
unfolding switch_process
switch-IsFormed k esp w = get_next_process-IsFormed k (save_esp k esp) (save_esp-Saved k esp w)

-- The timer's interrupt, within a slot and at its end, keeps the process list well formed.
pub int_08_hand-IsFormed :
    {b : Bool} (k : Kernel) (esp : ℤ) → IsFormed b k → IsFormed b (int_08_hand k esp).1
unfolding int_08_hand
int_08_hand-IsFormed k esp w =
    let w1 = Frame-IsFormed k (is_time_slot k).1 (is_time_slot-Frame k) w in
    elim (Bool-cases (is_zero (is_time_slot k).0)) [
      | inl e ↦ rw e (switch-IsFormed (is_time_slot k).1 esp w1)
      | inr e ↦ rw e w1
    ]
