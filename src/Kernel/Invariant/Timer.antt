-- ===== src/Kernel/Invariant/Timer.antt =====
-- The timer's interrupt keeps the invariant.
use mathlib.Core.Path.{subst}
use tpe_so.Base.{
  Bool, ℕ, zero, suc, ℤ, pos, ◌-ℤ◌, ◌==ℤ◌, ==ℤ_iff, is_zero, ◌≡◌, refl, ◌≢◌, inl, inr, false,
  Bool-cases, if◌then◌else◌, List, [], ◌∷◌, length, get_or, All, arith, ◌&&◌, not,
}
use tpe_so.Kernel.State.{running, ready, is_running, Process, Kernel, full_slot}
use tpe_so.Kernel.Process.{set_process, update_pid}
use tpe_so.Kernel.Table.{NotIn, pids, set_process-ready}
use tpe_so.Kernel.Scheduler.{sleep_tick, sleep_walk, is_time_slot, save_esp}
use tpe_so.Kernel.Invariant.{Kin, IsFamily, lineage, IsSingle, bound, IsFormed}
use tpe_so.Kernel.Invariant.Frame.{
  IsQuiet, Frame, Frame-refl, Frame-trans, Frame-IsFormed, node-Frame, awake_process-Frame,
  set_process-Frame,
}

abbrev asleep : ℤ → Process → Process
asleep left p = record p { sleep = left }

asleep-IsQuiet : (left : ℤ) → IsQuiet (asleep left)
asleep-IsQuiet left = record { same_pid = λ p. refl; same_parent = λ p. refl; no_run = λ p h. h }

sleep_tick-Frame : (k : Kernel) (i : ℕ) → Frame k (sleep_tick k i)
unfolding sleep_tick
sleep_tick-Frame k i =
    let p = get_or k.ready i k.idle in
    let left = p.sleep -ℤ pos 1 in
    let f = node-Frame k i (asleep left) (asleep-IsQuiet left) in
    elim (Bool-cases (is_zero p.sleep)) [
      | inl e ↦ rw e (Frame-refl k)
      | inr e ↦ rw e (elim (Bool-cases (is_zero left)) [
        | inl z ↦ rw z (Frame-trans k _ _ f (awake_process-Frame _ p.pid))
        | inr z ↦ rw z f
      ])
    ]

sleep_walk-Frame : (n i : ℕ) (k : Kernel) → Frame k (sleep_walk n i k)
unfolding sleep_walk
sleep_walk-Frame zero i k = Frame-refl k
sleep_walk-Frame (suc n) i k =
    Frame-trans k (sleep_tick k i) (sleep_walk n (suc i) (sleep_tick k i)) (sleep_tick-Frame k i)
      (sleep_walk-Frame n (suc i) (sleep_tick k i))

pub timeslot-Frame : (k : Kernel) (t : ℤ) → Frame k (record k { timeslot = t })
timeslot-Frame k t = record {
  same_lineage = refl;
  same_next = refl;
  same_current = refl;
  same_first = refl;
  same_killed = refl;
  same_idle = refl;
  same_protected = (refl, refl, refl, refl);
  keeps_single = λ cur h. h;
}

pub is_time_slot-Frame : (k : Kernel) → Frame k (is_time_slot k).1
unfolding is_time_slot
is_time_slot-Frame k =
    let k1 = sleep_walk (length k.ready) 0 k in
    let f = sleep_walk-Frame (length k.ready) 0 k in
    elim (Bool-cases (is_zero (k1.timeslot -ℤ pos 1))) [
      | inl e ↦ rw e (Frame-trans k k1 _ f (timeslot-Frame k1 full_slot))
      | inr e ↦ rw e (Frame-trans k k1 _ f (timeslot-Frame k1 (k1.timeslot -ℤ pos 1)))
    ]

abbrev pub NoRun : List Process → Type 0
NoRun = All (λ p. p.state ≢ running)

-- Whoever is not the current process does not run.
NoRun-of_gone :
    (cur : ℤ) (ps : List Process) → All (IsSingle cur) ps → NotIn cur (pids ps) → NoRun ps
NoRun-of_gone cur [] h n = tt
NoRun-of_gone cur (p ∷ ps) h n = ((λ r. n.0 (h.0 r)), NoRun-of_gone cur ps h.1 n.1)

NoRun-of_zero :
    (next : ℤ) (ps : List Process)
    → IsFamily next (lineage ps)
    → All (IsSingle (pos 0)) ps
    → NoRun ps
NoRun-of_zero next [] f h = tt
NoRun-of_zero next (p ∷ ps) f h =
    ((λ r. let e = h.0 r in let q = f.0 in ground arith), NoRun-of_zero next ps f.4 h.1)

NotIn-of_lineage :
    (pid : ℤ) (ps : List Process) → All (λ (x : Kin). x.0 ≢ pid) (lineage ps) → NotIn pid (pids ps)
NotIn-of_lineage pid [] h = tt
NotIn-of_lineage pid (p ∷ ps) h = (h.0, NotIn-of_lineage pid ps h.1)

abbrev saved : ℤ → Process → Process
saved esp p = record p { esp = esp; state = if is_running p.state then ready else p.state }

saved-IsQuiet : (esp : ℤ) → IsQuiet (saved esp)
saved-IsQuiet esp = record {
  same_pid = λ p. refl;
  same_parent = λ p. refl;
  no_run = λ p h. ground arith;
}

no_run-saved : (esp : ℤ) (p : Process) → (saved esp p).state ≢ running
no_run-saved esp p h = ground arith

NoRun-update_pid :
    (next cur esp : ℤ) (ps : List Process)
    → IsFamily next (lineage ps)
    → All (IsSingle cur) ps
    → NoRun (update_pid ps cur (saved esp))
unfolding update_pid
NoRun-update_pid next cur esp [] f h = tt
NoRun-update_pid next cur esp (p ∷ ps) f h = elim (Bool-cases (p.pid ==ℤ cur)) [
  | inl e ↦
      let same : p.pid ≡ cur = (==ℤ_iff p.pid cur).0 e in
      let others = subst (λ x. NotIn x (pids ps)) same (NotIn-of_lineage p.pid ps f.3) in
      rw e (no_run-saved esp p, NoRun-of_gone cur ps h.1 others)
  | inr e ↦ rw e (
    (λ r. let same = h.0 r in let t = (==ℤ_iff p.pid cur).1 same in cc),
    NoRun-update_pid next cur esp ps f.4 h.1,
  )
]

-- After `SaveESP` nobody in the list runs.
pub record Saved (b : Bool) (k s : Kernel) : Type 0 where
  pub quiet : NoRun s.ready
  pub formed : IsFormed b s
  pub same_next : s.next_pid ≡ k.next_pid
  pub started : s.first_time ≡ false
  pub unkilled : s.actual_killed ≡ false

clear_flags :
    {b : Bool} (k k1 : Kernel)
    → IsFormed b k
    → Frame k k1
    → NoRun k1.ready
    → Saved b k (record k1 { first_time = false; actual_killed = false })
clear_flags k k1 w f n =
    let w1 = Frame-IsFormed k k1 f w in
    record {
      quiet = n;
      formed = record {
        family = w1.family;
        idle_pid = w1.idle_pid;
        next_pos = w1.next_pos;
        current_old = w1.current_old;
        single = w1.single;
        gone = λ h. absurd (ground arith);
      };
      same_next = f.same_next;
      started = refl;
      unkilled = refl;
    }

NoRun-set_process :
    {b : Bool} (k : Kernel) (esp : ℤ)
    → IsFormed b k
    → NoRun (set_process k k.current_pid (saved esp)).ready
NoRun-set_process {b} k esp w =
    rw (set_process-ready k k.current_pid (saved esp)) (elim (Bool-cases (is_zero k.current_pid)) [
      | inl e ↦
          let z : k.current_pid ≡ pos 0 = (==ℤ_iff k.current_pid (pos 0)).0 e in
          rw e (
            NoRun-of_zero (bound b k.next_pid) k.ready w.family
              (subst (λ x. All (IsSingle x) k.ready) z w.single))
      | inr e ↦
          rw e (NoRun-update_pid (bound b k.next_pid) k.current_pid esp k.ready w.family w.single)
    ])

pub save_esp-Saved : {b : Bool} (k : Kernel) (esp : ℤ) → IsFormed b k → Saved b k (save_esp k esp)
unfolding save_esp
save_esp-Saved k esp w =
    let k1 = record k { timeslot = full_slot } in
    let f1 = timeslot-Frame k full_slot in
    let w1 = Frame-IsFormed k k1 f1 w in
    elim (Bool-cases (not k1.first_time && not k1.actual_killed)) [
      | inl e ↦ rw e (
          clear_flags k _ w
            (Frame-trans k k1 _ f1
              (set_process-Frame k1 k1.current_pid (saved esp) (saved-IsQuiet esp)))
            (NoRun-set_process k1 esp w1))
      | inr e ↦ rw e (
          clear_flags k k1 w f1
            (NoRun-of_gone k.current_pid k.ready w.single (w.gone (ground arith))))
    ]
