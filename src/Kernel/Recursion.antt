-- ===== src/Kernel/Recursion.antt =====
-- The fuel of `kill_in_kernel` is enough: it satisfies the equation of the code.
use tpe_so.Base.{
  ℕ, zero, suc, ℤ, pos, pos_part, ◌+ℤ◌, ◌≤ℤ◌, ◌<ℤ◌, ◌==ℤ◌, ==ℤ_iff, ◌≡◌, refl, ap, ◌∙◌, ◌⊎◌, inl,
  inr, true, false, Bool-cases, ◌&&◌, if◌then◌else◌, some, Option-cases, List, [], ◌∷◌, All, arith,
}
use tpe_so.Kernel.State.{Process, Kernel}
use tpe_so.Kernel.Process.{find_pid, get_process_by_pid}
use tpe_so.Kernel.Kill.{
  is_protected, is_linked, kill_children, kill_begin, kill_end, kill_fuel, kill_in_kernel,
}
use tpe_so.Kernel.Invariant.{IsFamily, lineage, WellFormed}
use tpe_so.Kernel.Invariant.Lifecycle.{release_parent-Frame}
use tpe_so.Kernel.Invariant.Ending.{Sound, Sound-of, Keeps, kill_begin-Sound, kill_fuel-Keeps}

-- No `kill` changes `nextPID`.
abbrev SameNext : (Kernel → ℤ → Kernel) → Type 0
SameNext kill = (k : Kernel) (pid : ℤ) → (kill k pid).next_pid ≡ k.next_pid

kill_begin-next : SameNext kill_begin
unfolding kill_begin
kill_begin-next k pid =
    let k1 = if pid ==ℤ k.current_pid then record k { actual_killed = true } else k in
    let proc = get_process_by_pid k1 pid in
    let s1 : k1.next_pid ≡ k.next_pid = elim (Bool-cases (pid ==ℤ k.current_pid)) [
      | inl e ↦ rw e refl
      | inr e ↦ rw e refl
    ] in
    elim (Bool-cases proc.foreground) [
      | inl e ↦ let f = release_parent-Frame k1 proc in rw e (f.same_next ∙ s1)
      | inr e ↦ rw e s1
    ]

kill_children-next :
    (kill : Kernel → ℤ → Kernel)
    → SameNext kill
    → (pid : ℤ) (ps : List Process) (k : Kernel)
    → (kill_children kill pid ps k).next_pid ≡ k.next_pid
unfolding kill_children
kill_children-next kill same pid [] k = refl
kill_children-next kill same pid (p ∷ ps) k =
    let k1 = if p.parent ==ℤ pid && is_linked k p.pid then kill k p.pid else k in
    let s1 : k1.next_pid ≡ k.next_pid = elim (Bool-cases (p.parent ==ℤ pid && is_linked k p.pid)) [
      | inl e ↦ rw e (same k p.pid)
      | inr e ↦ rw e refl
    ] in
    kill_children-next kill same pid ps k1 ∙ s1

kill_fuel-next : (n : ℕ) → SameNext (kill_fuel n)
unfolding kill_fuel kill_end
kill_fuel-next zero k pid = refl
kill_fuel-next (suc n) k pid = elim (Bool-cases (is_protected k pid)) [
  | inl e ↦ rw e refl
  | inr e ↦
      let k1 = kill_begin k pid in
      rw e (
        kill_children-next (kill_fuel n) (kill_fuel-next n) pid k1.ready k1 ∙ kill_begin-next k pid)
]

-- A process of the list is younger than its parent, and its pid has been handed out.
family_parents :
    (next : ℤ) (ps : List Process) → IsFamily next (lineage ps) → All (λ p. p.parent <ℤ p.pid) ps
family_parents next [] f = tt
family_parents next (p ∷ ps) f = (f.2, family_parents next ps f.4)

family_pids :
    (next pid : ℤ) (ps : List Process) (p : Process)
    → IsFamily next (lineage ps)
    → find_pid ps pid ≡ some p
    → (pos 0 <ℤ pid) × (pid <ℤ next)
unfolding find_pid
family_pids next pid [] p f e = cc
family_pids next pid (q ∷ ps) p f e = elim (Bool-cases (q.pid ==ℤ pid)) [
  | inl h ↦ let same = (==ℤ_iff q.pid pid).0 h in rw (← same) (f.0, f.1)
  | inr h ↦ family_pids next pid ps p f.4 (rw h at e)
]

linked-young :
    (P : Type 0) (k : Kernel) (pid : ℤ)
    → Sound false P k
    → is_linked k pid ≡ true
    → (pos 0 <ℤ pid) × (pid <ℤ k.next_pid)
unfolding is_linked
linked-young P k pid s h = elim (Option-cases (find_pid k.ready pid)) [
  | inl e ↦ let no = rw (e, is_linked) at h in cc
  | inr (p, e) ↦ family_pids k.next_pid pid k.ready p s.formed.family e
]

-- Two ways to kill that agree on younger processes of the list kill the same children.
kill_children-same :
    (f g : Kernel → ℤ → Kernel) (P : Type 0) (next pid : ℤ)
    → Keeps f
    → SameNext f
    → ((k : Kernel) (c : ℤ)
        → Sound false P k
        → k.next_pid ≡ next
        → pid <ℤ c
        → is_linked k c ≡ true
        → f k c ≡ g k c)
    → (ps : List Process) (k : Kernel) → All (λ p. p.parent <ℤ p.pid) ps
    → Sound false P k
    → k.next_pid ≡ next
    → kill_children f pid ps k ≡ kill_children g pid ps k
unfolding kill_children
kill_children-same f g P next pid keeps same agree [] k older s e = refl
kill_children-same f g P next pid keeps same agree (p ∷ ps) k older s e =
    elim (Bool-cases (p.parent ==ℤ pid && is_linked k p.pid)) [
      | inl h ↦
          let child : p.parent ≡ pid = (==ℤ_iff p.parent pid).0 (ground (arith, h)) in
          let killed : f k p.pid ≡ g k p.pid =
            agree k p.pid s e (rw child at older.0) (ground (arith, h)) in
          rw h (
            kill_children-same f g P next pid keeps same agree ps (f k p.pid) older.1
              (keeps false P k p.pid s).0 (same k p.pid ∙ e)
            ∙ ap (kill_children g pid ps) killed)
      | inr h ↦ rw h (kill_children-same f g P next pid keeps same agree ps k older.1 s e)
    ]

-- One level more changes nothing when there are as many as younger pids.
kill_fuel-stable :
    (n : ℕ) (P : Type 0) (k : Kernel) (pid : ℤ)
    → Sound false P k
    → k.next_pid ≤ℤ pid +ℤ pos n
    → is_linked k pid ≡ true
    → kill_fuel n k pid ≡ kill_fuel (suc n) k pid
unfolding kill_fuel
kill_fuel-stable zero P k pid s bound h =
    let young = linked-young P k pid s h in absurd (ground arith)
kill_fuel-stable (suc n) P k pid s bound h = elim (Bool-cases (is_protected k pid)) [
  | inl e ↦ rw e refl
  | inr e ↦
      let k1 = kill_begin k pid in
      let (s1, same1) = kill_begin-Sound P k pid s in
      rw e (
        ap (λ k2. kill_end k2 pid (get_process_by_pid k pid).pid)
          (kill_children-same (kill_fuel n) (kill_fuel (suc n)) (P ⊎ (k.current_pid ≡ pid))
            k.next_pid pid (kill_fuel-Keeps n) (kill_fuel-next n)
            (λ k' c s' same younger l. kill_fuel-stable n _ k' c s' (rw same (ground arith)) l)
            k1.ready k1 (family_parents k1.next_pid k1.ready s1.formed.family) s1
            (kill_begin-next k pid)))
]

-- `kill` of a process is what the code says, with `kill` itself for the children: nothing, if the
-- pid is protected, and otherwise the marks, the kills of the children and the end of the process.
-- So no call of the recursion is cut off. (The state is well formed, with no `nextPID++` pending:
-- pids are positive, distinct, below `nextPID` and later than the parent's, only the current process
-- can be running, and it is not in the list before the first slot and once it has been killed.)
pub kill_in_kernel-recursion :
    (k : Kernel) (pid : ℤ)
    → WellFormed k
    → kill_in_kernel k pid ≡ (
        if is_protected k pid
        then k
        else kill_end
            (kill_children kill_in_kernel pid (kill_begin k pid).ready (kill_begin k pid))
            pid
            (get_process_by_pid k pid).pid)
kill_in_kernel-recursion k pid w = elim (Bool-cases (is_protected k pid)) [
  | inl e ↦ unfold kill_in_kernel kill_fuel in rw e refl
  | inr e ↦
      let n = pos_part k.next_pid in
      let k1 = kill_begin k pid in
      let (s1, same1) = kill_begin-Sound ⊥ k pid (Sound-of ⊥ k w) in
      let next_pos = w.next_pos in
      let same : kill_children (kill_fuel n) pid k1.ready k1
          ≡ kill_children kill_in_kernel pid k1.ready k1 =
        kill_children-same (kill_fuel n) kill_in_kernel (⊥ ⊎ (k.current_pid ≡ pid)) k.next_pid pid
          (kill_fuel-Keeps n) (kill_fuel-next n)
          (λ k' c s' same younger l.
            let young = linked-young _ k' c s' l in
            kill_fuel-stable n _ k' c s' (rw same (ground arith)) l
            ∙ (unfold kill_in_kernel in rw same refl))
          k1.ready k1 (family_parents k1.next_pid k1.ready s1.formed.family) s1
          (kill_begin-next k pid) in
      let start : kill_in_kernel k pid
          ≡ kill_end (kill_children (kill_fuel n) pid k1.ready k1) pid
              (get_process_by_pid k pid).pid =
        unfold kill_in_kernel kill_fuel in rw e refl in
      start ∙ ap (λ k2. kill_end k2 pid (get_process_by_pid k pid).pid) same ∙ rw e refl
]
