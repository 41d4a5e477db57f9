-- ===== src/Kernel/Protection/Shrinking.antt =====
-- `kill` only takes processes out of the list.
use mathlib.Core.Path.{subst}
use tpe_so.Base.{
  ℕ, zero, suc, ℤ, ◌==ℤ◌, sym, ◌≢◌, inl, inr, true, Bool-cases, ◌&&◌, if◌then◌else◌, List, [], ◌∷◌,
  All,
}
use tpe_so.Kernel.State.{Process, Kernel}
use tpe_so.Kernel.Process.{unlink, get_process_by_pid}
use tpe_so.Kernel.Kill.{is_protected, is_linked, kill_children, kill_begin, kill_end, kill_fuel}
use tpe_so.Kernel.Table.{NotIn, pids}
use tpe_so.Kernel.Invariant.{Kin, lineage}
use tpe_so.Kernel.Invariant.Frame.{Frame}
use tpe_so.Kernel.Invariant.Lifecycle.{release_parent-Frame}

pub All-both {ℓ κ} :
    {A : Type ℓ} (P Q R : A → Type κ) (xs : List A)
    → ((a : A) → P a → Q a → R a)
    → All P xs
    → All Q xs
    → All R xs
All-both P Q R [] f h k = tt
All-both P Q R (x ∷ xs) f h k = (f x h.0 k.0, All-both P Q R xs f h.1 k.1)

-- No process joins the list, and none changes its parent.
abbrev pub Shrinks : Kernel → Kernel → Type 1
Shrinks k k' = (P : Kin → Type 0) → All P (lineage k.ready) → All P (lineage k'.ready)

Frame-Shrinks : (k k' : Kernel) → Frame k k' → Shrinks k k'
Frame-Shrinks k k' f P h = subst (All P) (sym f.same_lineage) h

pub kill_begin-Shrinks : (k : Kernel) (pid : ℤ) → Shrinks k (kill_begin k pid)
unfolding kill_begin
kill_begin-Shrinks k pid P h =
    let k1 = if pid ==ℤ k.current_pid then record k { actual_killed = true } else k in
    let proc = get_process_by_pid k1 pid in
    let h1 : All P (lineage k1.ready) = elim (Bool-cases (pid ==ℤ k.current_pid)) [
      | inl e ↦ rw e h
      | inr e ↦ rw e h
    ] in
    elim (Bool-cases proc.foreground) [
      | inl e ↦ rw e (Frame-Shrinks k1 _ (release_parent-Frame k1 proc) P h1)
      | inr e ↦ rw e h1
    ]

All-lineage-unlink :
    (P : Kin → Type 0) (ps : List Process) (pid : ℤ)
    → All P (lineage ps)
    → All P (lineage (unlink ps pid))
unfolding unlink
All-lineage-unlink P [] pid h = tt
All-lineage-unlink P (p ∷ ps) pid h = elim (Bool-cases (p.pid ==ℤ pid)) [
  | inl e ↦ rw e h.1
  | inr e ↦ rw e (h.0, All-lineage-unlink P ps pid h.1)
]

pub kill_end-Shrinks : (k : Kernel) (pid proc_pid : ℤ) → Shrinks k (kill_end k pid proc_pid)
unfolding kill_end
kill_end-Shrinks k pid proc_pid P h = All-lineage-unlink P k.ready pid h

pub kill_children-Shrinks :
    (kill : Kernel → ℤ → Kernel)
    → ((k : Kernel) (c : ℤ) → Shrinks k (kill k c))
    → (pid : ℤ) (ps : List Process) (k : Kernel) → Shrinks k (kill_children kill pid ps k)
unfolding kill_children
kill_children-Shrinks kill shrinks pid [] k P h = h
kill_children-Shrinks kill shrinks pid (p ∷ ps) k P h =
    let k1 = if p.parent ==ℤ pid && is_linked k p.pid then kill k p.pid else k in
    let h1 : All P (lineage k1.ready) = elim (Bool-cases (p.parent ==ℤ pid && is_linked k p.pid)) [
      | inl e ↦ rw e (shrinks k p.pid P h)
      | inr e ↦ rw e h
    ] in
    kill_children-Shrinks kill shrinks pid ps k1 P h1

pub kill_fuel-Shrinks : (n : ℕ) (k : Kernel) (pid : ℤ) → Shrinks k (kill_fuel n k pid)
unfolding kill_fuel
kill_fuel-Shrinks zero k pid P h = h
kill_fuel-Shrinks (suc n) k pid P h = elim (Bool-cases (is_protected k pid)) [
  | inl e ↦ rw e h
  | inr e ↦
      let k1 = kill_begin k pid in
      let k2 = kill_children (kill_fuel n) pid k1.ready k1 in
      rw e (
        kill_end-Shrinks k2 pid (get_process_by_pid k pid).pid P (
          kill_children-Shrinks (kill_fuel n) (kill_fuel-Shrinks n) pid k1.ready k1 P
            (kill_begin-Shrinks k pid P h)))
]

pub NotIn-lineage :
    (c : ℤ) (ps : List Process) → NotIn c (pids ps) → All (λ (x : Kin). x.0 ≢ c) (lineage ps)
NotIn-lineage c [] h = tt
NotIn-lineage c (p ∷ ps) h = (h.0, NotIn-lineage c ps h.1)

lineage-NotIn :
    (c : ℤ) (ps : List Process) → All (λ (x : Kin). x.0 ≢ c) (lineage ps) → NotIn c (pids ps)
lineage-NotIn c [] h = tt
lineage-NotIn c (p ∷ ps) h = (h.0, lineage-NotIn c ps h.1)

pub stays_out :
    (k k' : Kernel) (c : ℤ) → Shrinks k k' → NotIn c (pids k.ready) → NotIn c (pids k'.ready)
stays_out k k' c s h = lineage-NotIn c k'.ready (s _ (NotIn-lineage c k.ready h))
