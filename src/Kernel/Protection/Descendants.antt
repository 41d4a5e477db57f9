-- ===== src/Kernel/Protection/Descendants.antt =====
-- What `kill` leaves of the children of a process.
use tpe_so.Base.{
  ◌-◌, ℕ, suc, ℤ, pos, pos_part, ◌==ℤ◌, ==ℤ_iff, ◌≡◌, refl, ◌∙◌, ◌≢◌, inl, inr, true, false,
  Bool-cases, ◌&&◌, if◌then◌else◌, none, Option-cases, List, [], ◌∷◌, All, All-map, arith,
}
use tpe_so.Kernel.State.{Process, Kernel}
use tpe_so.Kernel.Process.{find_pid, get_process_by_pid}
use tpe_so.Kernel.Kill.{
  is_protected, is_linked, kill_children, kill_begin, kill_end, kill_fuel, kill_in_kernel,
}
use tpe_so.Kernel.Table.{NotIn, pids}
use tpe_so.Kernel.Invariant.{Kin, lineage, WellFormed}
use tpe_so.Kernel.Invariant.Ending.{Sound, Sound-of, kill_begin-Sound, kill_fuel-Keeps}
use tpe_so.Kernel.Protection.{kill_begin-Spares, kill_fuel-Spares, kill_fuel-removes}
use tpe_so.Kernel.Protection.Shrinking.{
  All-both, kill_end-Shrinks, kill_children-Shrinks, kill_fuel-Shrinks, NotIn-lineage, stays_out,
}

-- A pid that is not found is in no process.
find_none-NotIn : (ps : List Process) (c : ℤ) → find_pid ps c ≡ none → NotIn c (pids ps)
unfolding find_pid
find_none-NotIn [] c e = tt
find_none-NotIn (p ∷ ps) c e = elim (Bool-cases (p.pid ==ℤ c)) [
  | inl same ↦ let no = rw same at e in cc
  | inr other ↦ ((λ s. let t = (==ℤ_iff p.pid c).1 s in cc), find_none-NotIn ps c (rw other at e))
]

unlinked-NotIn : (k : Kernel) (c : ℤ) → is_linked k c ≡ false → NotIn c (pids k.ready)
unfolding is_linked
unlinked-NotIn k c h = elim (Option-cases (find_pid k.ready c)) [
  | inl e ↦ find_none-NotIn k.ready c e
  | inr (p, e) ↦ let no = rw (e, is_linked) at h in cc
]

-- Every element of a list is in it.
self_in :
    (ps : List Process)
    → All (λ (x : Kin). ¬ All (λ (y : Kin). y.0 ≢ x.0) (lineage ps)) (lineage ps)
self_in [] = tt
self_in (p ∷ ps) = ((λ h. h.0 refl), All-map (lineage ps) (λ x out h. out h.1) (self_in ps))

-- No process is unprotected by a kill.
is_protected-kill_fuel :
    (n : ℕ) (k : Kernel) (c y : ℤ) → is_protected (kill_fuel n k c) y ≡ is_protected k y
is_protected-kill_fuel n k c y =
    (kill_fuel-Spares n (pos 0) k c (unfold is_protected in ground arith)).guarded y

All-lineage :
    (P : Kin → Type 0) (ps : List Process) → All (λ p. P (p.pid, p.parent)) ps → All P (lineage ps)
All-lineage P [] h = tt
All-lineage P (p ∷ ps) h = (h.0, All-lineage P ps h.1)

All-of_lineage :
    (P : Kin → Type 0) (ps : List Process) → All P (lineage ps) → All (λ p. P (p.pid, p.parent)) ps
All-of_lineage P [] h = tt
All-of_lineage P (p ∷ ps) h = (h.0, All-of_lineage P ps h.1)

-- After the loop the unprotected children that it met have left the list.
kill_children_done :
    (n : ℕ) (P : Type 0) (pid : ℤ) (ps : List Process) (k : Kernel)
    → Sound false P k
    → All
        (λ p.
          p.parent ≡ pid
          → is_protected k p.pid ≡ false
          → NotIn p.pid (pids (kill_children (kill_fuel (suc n)) pid ps k).ready))
        ps
unfolding kill_children
kill_children_done n P pid [] k s = tt
kill_children_done n P pid (p ∷ ps) k s =
    let kill = kill_fuel (suc n) in
    let k1 = if p.parent ==ℤ pid && is_linked k p.pid then kill k p.pid else k in
    let k2 = kill_children kill pid ps k1 in
    let kept : Sound false P k1 × ((y : ℤ) → is_protected k1 y ≡ is_protected k y) =
      elim (Bool-cases (p.parent ==ℤ pid && is_linked k p.pid)) [
        | inl e ↦
            rw e (
              (kill_fuel-Keeps (suc n) false P k p.pid s).0,
              is_protected-kill_fuel (suc n) k p.pid,
            )
        | inr e ↦ rw e (s, λ y. refl)
      ] in
    (
      (λ child open_to.
          let same : (p.parent ==ℤ pid) ≡ true = (==ℤ_iff p.parent pid).1 child in
          let left : NotIn p.pid (pids k1.ready) = elim (Bool-cases (is_linked k p.pid)) [
            | inl e ↦ rw (same, e) (kill_fuel-removes n P k p.pid s open_to)
            | inr e ↦ rw (same, e) (unlinked-NotIn k p.pid e)
          ] in
          stays_out k1 k2 p.pid (kill_children-Shrinks kill (kill_fuel-Shrinks (suc n)) pid ps k1)
            left),
      All-map ps (λ q gone child open_to. gone child (kept.1 q.pid ∙ open_to))
          (kill_children_done n P pid ps k1 kept.0),
    )

kill_fuel_children :
    (n : ℕ) (P : Type 0) (k : Kernel) (pid : ℤ)
    → Sound false P k
    → is_protected k pid ≡ false
    → All (λ q. q.parent ≡ pid → is_protected k q.pid ≡ true) (kill_fuel (suc (suc n)) k pid).ready
unfolding kill_fuel
kill_fuel_children n P k pid s h =
    let k1 = kill_begin k pid in
    let k2 = kill_children (kill_fuel (suc n)) pid k1.ready k1 in
    let last = (get_process_by_pid k pid).pid in
    let k3 = kill_end k2 pid last in
    let Gone : Kin → Type 0 =
      λ x. x.1 ≡ pid → is_protected k1 x.0 ≡ false → NotIn x.0 (pids k2.ready) in
    let Present : Kin → Type 0 = λ x. ¬ All (λ (y : Kin). y.0 ≢ x.0) (lineage k2.ready) in
    let left : All Gone (lineage k3.ready) = kill_end-Shrinks k2 pid last Gone (
      kill_children-Shrinks (kill_fuel (suc n)) (kill_fuel-Shrinks (suc n)) pid k1.ready k1 Gone (
        All-lineage Gone k1.ready
          (kill_children_done n _ pid k1.ready k1 (kill_begin-Sound P k pid s).0))) in
    let present : All Present (lineage k3.ready) =
      kill_end-Shrinks k2 pid last Present (self_in k2.ready) in
    let guards = (kill_begin-Spares (pos 0) k pid).guarded in
    rw h (
      All-of_lineage (λ x. x.1 ≡ pid → is_protected k x.0 ≡ true) k3.ready
        (All-both Gone Present _ (lineage k3.ready)
          (λ x gone here child. elim (Bool-cases (is_protected k x.0)) [
            | inl e ↦ e
            | inr e ↦ absurd (here (NotIn-lineage x.0 k2.ready (gone child (guards x.0 ∙ e))))
          ])
          left present))

-- When an unprotected process is killed, none of its children is left in the list but protected
-- ones. (The state is well formed, with no `nextPID++` pending: pids are positive, distinct, below
-- `nextPID` and later than the parent's, only the current process can be running, and it is not in
-- the list before the first slot and once it has been killed.)
pub kill_in_kernel_children :
    (k : Kernel) (pid : ℤ)
    → WellFormed k
    → is_protected k pid ≡ false
    → All (λ q. q.parent ≡ pid → is_protected k q.pid ≡ true) (kill_in_kernel k pid).ready
unfolding kill_in_kernel
kill_in_kernel_children k pid w h =
    let n = pos_part k.next_pid - 1 in
    let e : pos_part k.next_pid ≡ suc n = let later = w.next_pos in ground arith in
    rw e (kill_fuel_children n ⊥ k pid (Sound-of ⊥ k w) h)
