-- ===== src/Kernel/Protection.antt =====
-- Whom `kill` spares, and whom it removes.
pub mod Shrinking
pub mod Descendants
use tpe_so.Base.{
  ℕ, zero, suc, ℤ, ◌==ℤ◌, ==ℤ_iff, ◌≡◌, refl, ap, ◌∙◌, Bool, true, false, Bool-cases, ◌&&◌, ◌||◌,
  if◌then◌else◌, List, [], ◌∷◌, pos_part, ◌⊎◌, inl, inr,
}
use tpe_so.Kernel.State.{Process, Kernel}
use tpe_so.Kernel.Process.{unlink, get_process_by_pid}
use tpe_so.Kernel.Kill.{
  is_protected, is_linked, kill_children, kill_begin, kill_end, kill_fuel, kill_in_kernel,
}
use tpe_so.Kernel.Table.{NotIn, pids}
use tpe_so.Kernel.Invariant.{WellFormed}
use tpe_so.Kernel.Invariant.Frame.{Frame, pids_of_lineage}
use tpe_so.Kernel.Invariant.Lifecycle.{release_parent-Frame, unlink_removes}
use tpe_so.Kernel.Invariant.Ending.{
  Sound, Sound-of, kill_begin-Sound, kill_children-Keeps, kill_fuel-Keeps,
}

-- The list has a process of this pid.
abbrev pub is_in : ℤ → List ℤ → Bool
is_in x [] = false
is_in x (y ∷ ys) = y ==ℤ x || is_in x ys

is_in-unlink :
    (x pid : ℤ) (ps : List Process)
    → (pid ==ℤ x) ≡ false
    → is_in x (pids (unlink ps pid)) ≡ is_in x (pids ps)
unfolding unlink
is_in-unlink x pid [] n = refl
is_in-unlink x pid (p ∷ ps) n = elim (Bool-cases (p.pid ==ℤ pid)) [
  | inl e ↦
      let other : (p.pid ==ℤ x) ≡ false = ap (λ z. z ==ℤ x) ((==ℤ_iff p.pid pid).0 e) ∙ n in
      rw (e, other)
  | inr e ↦ rw e (ap (λ b. p.pid ==ℤ x || b) (is_in-unlink x pid ps n))
]

-- `x` stays in the list, and the pids that `kill` spares are the same.
record Spares (x : ℤ) (k k' : Kernel) : Type 0 where
  stays : is_in x (pids k'.ready) ≡ is_in x (pids k.ready)
  guarded : (y : ℤ) → is_protected k' y ≡ is_protected k y

Spares-refl : (x : ℤ) (k : Kernel) → Spares x k k
Spares-refl x k = record { stays = refl; guarded = λ y. refl }

Spares-trans : (x : ℤ) (a b c : Kernel) → Spares x a b → Spares x b c → Spares x a c
Spares-trans x a b c s t = record {
  stays = t.stays ∙ s.stays;
  guarded = λ y. t.guarded y ∙ s.guarded y;
}

protected-Frame : (k k' : Kernel) (y : ℤ) → Frame k k' → is_protected k' y ≡ is_protected k y
unfolding is_protected
protected-Frame k k' y f =
    let (terminals, usr, log, logout) = f.same_protected in rw (terminals, usr, log, logout)

Frame-Spares : (x : ℤ) (k k' : Kernel) → Frame k k' → Spares x k k'
Frame-Spares x k k' f = record {
  stays = ap (is_in x) (pids_of_lineage k'.ready k.ready f.same_lineage);
  guarded = λ y. protected-Frame k k' y f;
}

mark-Spares : (x : ℤ) (k : Kernel) → Spares x k (record k { actual_killed = true })
unfolding is_protected
mark-Spares x k = record { stays = refl; guarded = λ y. refl }

kill_begin-Spares : (x : ℤ) (k : Kernel) (pid : ℤ) → Spares x k (kill_begin k pid)
unfolding kill_begin
kill_begin-Spares x k pid =
    let k1 = if pid ==ℤ k.current_pid then record k { actual_killed = true } else k in
    let proc = get_process_by_pid k1 pid in
    let s1 : Spares x k k1 = elim (Bool-cases (pid ==ℤ k.current_pid)) [
      | inl e ↦ rw e (mark-Spares x k)
      | inr e ↦ rw e (Spares-refl x k)
    ] in
    elim (Bool-cases proc.foreground) [
      | inl e ↦ rw e (Spares-trans x k k1 _ s1 (Frame-Spares x k1 _ (release_parent-Frame k1 proc)))
      | inr e ↦ rw e s1
    ]

kill_end-Spares :
    (x : ℤ) (k : Kernel) (pid proc_pid : ℤ)
    → (pid ==ℤ x) ≡ false
    → Spares x k (kill_end k pid proc_pid)
unfolding kill_end is_protected
kill_end-Spares x k pid proc_pid n = record {
  stays = is_in-unlink x pid k.ready n;
  guarded = λ y. refl;
}

kill_children-Spares :
    (kill : Kernel → ℤ → Kernel) (x pid : ℤ)
    → ((k : Kernel) (y : ℤ) → is_protected k x ≡ true → Spares x k (kill k y))
    → (ps : List Process) (k : Kernel) → is_protected k x ≡ true
    → Spares x k (kill_children kill pid ps k)
unfolding kill_children
kill_children-Spares kill x pid spares [] k h = Spares-refl x k
kill_children-Spares kill x pid spares (p ∷ ps) k h =
    let k1 = if p.parent ==ℤ pid && is_linked k p.pid then kill k p.pid else k in
    let s1 : Spares x k k1 = elim (Bool-cases (p.parent ==ℤ pid && is_linked k p.pid)) [
      | inl e ↦ rw e (spares k p.pid h)
      | inr e ↦ rw e (Spares-refl x k)
    ] in
    Spares-trans x k k1 _ s1 (kill_children-Spares kill x pid spares ps k1 (s1.guarded x ∙ h))

kill_fuel-Spares :
    (fuel : ℕ) (x : ℤ) (k : Kernel) (pid : ℤ)
    → is_protected k x ≡ true
    → Spares x k (kill_fuel fuel k pid)
unfolding kill_fuel
kill_fuel-Spares zero x k pid h = Spares-refl x k
kill_fuel-Spares (suc fuel) x k pid h = elim (Bool-cases (is_protected k pid)) [
  | inl e ↦ rw e (Spares-refl x k)
  | inr e ↦
      let k1 = kill_begin k pid in
      let s1 = kill_begin-Spares x k pid in
      let k2 = kill_children (kill_fuel fuel) pid k1.ready k1 in
      let s2 =
        kill_children-Spares (kill_fuel fuel) x pid (λ q y g. kill_fuel-Spares fuel x q y g)
          k1.ready k1 (s1.guarded x ∙ h) in
      let other : (pid ==ℤ x) ≡ false = elim (Bool-cases (pid ==ℤ x)) [
        | inl s ↦ let same = ap (is_protected k) ((==ℤ_iff pid x).0 s) in cc
        | inr n ↦ n
      ] in
      rw e (
        Spares-trans x k k1 _ s1 (
          Spares-trans x k1 k2 _ s2
            (kill_end-Spares x k2 pid (get_process_by_pid k pid).pid other)))
]

-- The killed process has left the list.
kill_fuel-removes :
    (fuel : ℕ) (P : Type 0) (k : Kernel) (pid : ℤ)
    → Sound false P k
    → is_protected k pid ≡ false
    → NotIn pid (pids (kill_fuel (suc fuel) k pid).ready)
unfolding kill_fuel kill_end
kill_fuel-removes fuel P k pid s h =
    let k1 = kill_begin k pid in
    let s1 = (kill_begin-Sound P k pid s).0 in
    let k2 = kill_children (kill_fuel fuel) pid k1.ready k1 in
    let s2 =
      (kill_children-Keeps (kill_fuel fuel) (kill_fuel-Keeps fuel) false (P ⊎ (k.current_pid ≡ pid))
        pid k1.ready k1 s1).0 in
    rw h (unlink_removes k2.next_pid k2.ready pid s2.formed.family)

-- `kill` removes the process whose pid it is given, unless that pid is protected: then it leaves the
-- processes and the other tables as they are. (Whether interrupts are enabled is not part of the
-- state.) The shells while a user is logged in, the idle process, login and logout are protected.
-- Nor does a `kill` of any pid, with all that it kills below, remove one of these. (The state is
-- well formed, with no `nextPID++` pending: pids are positive, distinct, below `nextPID` and later
-- than the parent's, only the current process can be running, and it is not in the list before the
-- first slot and once it has been killed.)
pub kill_in_kernel_lem :
    (k : Kernel) (pid : ℤ)
    → WellFormed k
    → (is_protected k pid ≡ true → kill_in_kernel k pid ≡ k)
      × (is_protected k pid ≡ false → NotIn pid (pids (kill_in_kernel k pid).ready))
      × ((x : ℤ)
          → is_protected k x ≡ true
          → is_in x (pids (kill_in_kernel k pid).ready) ≡ is_in x (pids k.ready))
kill_in_kernel_lem k pid w = (
  (λ h. unfold kill_in_kernel kill_fuel in rw h),
  (λ h.
      unfold kill_in_kernel in kill_fuel-removes (pos_part k.next_pid) ⊥ k pid (Sound-of ⊥ k w) h),
  (λ x h. unfold kill_in_kernel in (kill_fuel-Spares (suc (pos_part k.next_pid)) x k pid h).stays),
)
