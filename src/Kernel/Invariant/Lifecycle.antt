-- ===== src/Kernel/Invariant/Lifecycle.antt =====
-- The creation of a process keeps the invariant, and what unlinking a node does to it.
use mathlib.Core.Path.{subst}
use mathlib.Core.List.{map-append}
use tpe_so.Base.{
  true, ℤ, pos, ◌+ℤ◌, ◌==ℤ◌, ◌<ℤ◌, ==ℤ_iff, refl, ◌≢◌, inl, inr, Bool-cases, List, [], ◌∷◌, ◌++◌,
  All, arith,
}
use tpe_so.Kernel.State.{Process, Kernel}
use tpe_so.Kernel.Process.{
  unlink, set_process, get_process_by_pid, release_parent, CreateProcessParam, create_process_at,
  take_pid,
}
use tpe_so.Kernel.Table.{NotIn, pids}
use tpe_so.Kernel.Invariant.{Kin, IsFamily, lineage, IsSingle, IsFormed, WellFormed}
use tpe_so.Kernel.Invariant.Frame.{
  IsQuiet, Frame, Frame-refl, Frame-trans, awake_process-Frame, set_process-Frame,
}

IsFamily-append :
    (next parent : ℤ) (l : List Kin)
    → pos 0 <ℤ next
    → parent <ℤ next
    → IsFamily next l
    → IsFamily (next +ℤ pos 1) (l ++ ((next, parent) ∷ []))
IsFamily-append next parent [] h g f = (h, ground arith, g, tt, tt)
IsFamily-append next parent ((a, b) ∷ l) h g f =
    (f.0, ground arith, f.2, apart l f.3, IsFamily-append next parent l h g f.4)
  where
    apart :
        (xs : List Kin)
        → All (λ (x : Kin). x.0 ≢ a) xs
        → All (λ (x : Kin). x.0 ≢ a) (xs ++ ((next, parent) ∷ []))
    apart [] h = ((λ e. let u = f.1 in ground arith), tt)
    apart (x ∷ xs) h = (h.0, apart xs h.1)

All-append_one {ℓ} :
    {A : Type ℓ} (P : A → Type 0) (xs : List A) (x : A) → All P xs → P x → All P (xs ++ (x ∷ []))
All-append_one P [] x h p = (p, tt)
All-append_one P (y ∷ ys) x h p = (h.0, All-append_one P ys x h.1 p)

-- A created process has the pid `nextPID`, which is not counted on yet.
pub create_process_at-IsFormed :
    (k : Kernel) (param : CreateProcessParam)
    → WellFormed k
    → IsFormed true (create_process_at k param)
unfolding create_process_at
create_process_at-IsFormed k param w = record {
  family = rw (map-append {B = ℤ × ℤ} (λ (p : Process). (p.pid, p.parent)) k.ready _) (
      IsFamily-append k.next_pid k.current_pid (lineage k.ready) w.next_pos w.current_old w.family);
  idle_pid = w.idle_pid;
  next_pos = let h = w.next_pos in ground arith;
  current_old = let h = w.current_old in ground arith;
  single = All-append_one (IsSingle k.current_pid) k.ready _ w.single (λ e. cc);
  gone = λ h. rw (map-append (λ (p : Process). p.pid) k.ready _) (
      All-append_one (λ x. x ≢ k.current_pid) (pids k.ready) k.next_pid (w.gone h)
        (λ e. let o = w.current_old in ground arith));
}

-- The `nextPID++` of a created process.
pub take_pid-WellFormed : (k : Kernel) → IsFormed true k → WellFormed (take_pid k).1
unfolding take_pid
take_pid-WellFormed k w = record {
  family = w.family;
  idle_pid = w.idle_pid;
  next_pos = w.next_pos;
  current_old = w.current_old;
  single = w.single;
  gone = w.gone;
}

pub All-unlink :
    (P : Process → Type 0) (ps : List Process) (pid : ℤ) → All P ps → All P (unlink ps pid)
unfolding unlink
All-unlink P [] pid h = tt
All-unlink P (p ∷ ps) pid h = elim (Bool-cases (p.pid ==ℤ pid)) [
  | inl e ↦ rw e h.1
  | inr e ↦ rw e (h.0, All-unlink P ps pid h.1)
]

apart-unlink :
    (a : ℤ) (ps : List Process) (pid : ℤ)
    → All (λ (x : Kin). x.0 ≢ a) (lineage ps)
    → All (λ (x : Kin). x.0 ≢ a) (lineage (unlink ps pid))
unfolding unlink
apart-unlink a [] pid h = tt
apart-unlink a (p ∷ ps) pid h = elim (Bool-cases (p.pid ==ℤ pid)) [
  | inl e ↦ rw e h.1
  | inr e ↦ rw e (h.0, apart-unlink a ps pid h.1)
]

pub IsFamily-unlink :
    (next : ℤ) (ps : List Process) (pid : ℤ)
    → IsFamily next (lineage ps)
    → IsFamily next (lineage (unlink ps pid))
unfolding unlink
IsFamily-unlink next [] pid f = tt
IsFamily-unlink next (p ∷ ps) pid f = elim (Bool-cases (p.pid ==ℤ pid)) [
  | inl e ↦ rw e f.4
  | inr e ↦ rw e (f.0, f.1, f.2, apart-unlink p.pid ps pid f.3, IsFamily-unlink next ps pid f.4)
]

pub NotIn-unlink :
    (x : ℤ) (ps : List Process) (pid : ℤ) → NotIn x (pids ps) → NotIn x (pids (unlink ps pid))
unfolding unlink
NotIn-unlink x [] pid h = tt
NotIn-unlink x (p ∷ ps) pid h = elim (Bool-cases (p.pid ==ℤ pid)) [
  | inl e ↦ rw e h.1
  | inr e ↦ rw e (h.0, NotIn-unlink x ps pid h.1)
]

NotIn-of_lineage :
    (pid : ℤ) (ps : List Process) → All (λ (x : Kin). x.0 ≢ pid) (lineage ps) → NotIn pid (pids ps)
NotIn-of_lineage pid [] h = tt
NotIn-of_lineage pid (p ∷ ps) h = (h.0, NotIn-of_lineage pid ps h.1)

-- A pid leaves the list for good, since it stands there once.
pub unlink_removes :
    (next : ℤ) (ps : List Process) (pid : ℤ)
    → IsFamily next (lineage ps)
    → NotIn pid (pids (unlink ps pid))
unfolding unlink
unlink_removes next [] pid f = tt
unlink_removes next (p ∷ ps) pid f = elim (Bool-cases (p.pid ==ℤ pid)) [
  | inl e ↦
      rw e
        (subst (λ x. NotIn x (pids ps)) ((==ℤ_iff p.pid pid).0 e) (NotIn-of_lineage p.pid ps f.3))
  | inr e ↦ rw e ((λ s. let t = (==ℤ_iff p.pid pid).1 s in cc), unlink_removes next ps pid f.4)
]

waiting_zero-IsQuiet : IsQuiet (λ p. record p { waiting_pid = pos 0 })
waiting_zero-IsQuiet = record { same_pid = λ p. refl; same_parent = λ p. refl; no_run = λ p h. h }

pub release_parent-Frame : (k : Kernel) (proc : Process) → Frame k (release_parent k proc)
unfolding release_parent
release_parent-Frame k proc =
    let parent = get_process_by_pid k proc.parent in
    let k1 = set_process k proc.parent (λ p. record p { waiting_pid = pos 0 }) in
    elim (Bool-cases (parent.waiting_pid ==ℤ proc.pid)) [
      | inl e ↦ rw e (
          Frame-trans k k1 _ (set_process-Frame k proc.parent _ waiting_zero-IsQuiet)
            (awake_process-Frame k1 parent.pid))
      | inr e ↦ rw e (Frame-refl k)
    ]
