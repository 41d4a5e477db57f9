-- ===== src/Kernel/Invariant/Ending.antt =====
-- The end of a process, and `kill`, keep the invariant.
use mathlib.Core.Path.{subst}
use tpe_so.Base.{
  Bool, ℕ, zero, suc, ℤ, ◌==ℤ◌, ==ℤ_iff, ◌≡◌, refl, sym, ◌∙◌, ◌⊎◌, inl, inr, true, false, not, ◌&&◌,
  Bool-cases, if◌then◌else◌, List, [], ◌∷◌, pos_part, arith,
}
use tpe_so.Kernel.State.{Process, Kernel}
use tpe_so.Kernel.Process.{unlink, get_process_by_pid, release_parent, end_process}
use tpe_so.Kernel.Kill.{
  is_protected, is_linked, kill_children, kill_begin, kill_end, kill_fuel, kill_in_kernel,
}
use tpe_so.Kernel.Table.{NotIn, pids}
use tpe_so.Kernel.Invariant.{IsSingle, bound, IsFormed}
use tpe_so.Kernel.Invariant.Frame.{Frame, Frame-refl, Frame-IsFormed, pids_of_lineage}
use tpe_so.Kernel.Invariant.Lifecycle.{
  All-unlink, IsFamily-unlink, NotIn-unlink, unlink_removes, release_parent-Frame,
}

-- The invariant where the current process may be in the list though it has been marked as killed,
-- if `P` holds.
pub record Sound (b : Bool) (P : Type 0) (k : Kernel) : Type 0 where
  pub formed : IsFormed b (record k { first_time = false; actual_killed = false })
  pub gone :
      (k.first_time ≡ true) ⊎ (k.actual_killed ≡ true) → NotIn k.current_pid (pids k.ready) ⊎ P

unflagged :
    {b : Bool} (k : Kernel)
    → IsFormed b k
    → IsFormed b (record k { first_time = false; actual_killed = false })
unflagged k w = record {
  family = w.family;
  idle_pid = w.idle_pid;
  next_pos = w.next_pos;
  current_old = w.current_old;
  single = w.single;
  gone = λ h. absurd (ground arith);
}

pub Sound-of : {b : Bool} (P : Type 0) (k : Kernel) → IsFormed b k → Sound b P k
Sound-of P k w = record { formed = unflagged k w; gone = λ h. inl (w.gone h) }

IsFormed-of : {b : Bool} (k : Kernel) → Sound b ⊥ k → IsFormed b k
IsFormed-of k s = record {
  family = s.formed.family;
  idle_pid = s.formed.idle_pid;
  next_pos = s.formed.next_pos;
  current_old = s.formed.current_old;
  single = s.formed.single;
  gone = λ h. elim (s.gone h) [ inl n ↦ n | inr e ↦ absurd e ];
}

unflag-Frame :
    (k k' : Kernel)
    → Frame k k'
    → Frame
        (record k { first_time = false; actual_killed = false })
        (record k' { first_time = false; actual_killed = false })
unflag-Frame k k' f = record {
  same_lineage = f.same_lineage;
  same_next = f.same_next;
  same_current = f.same_current;
  same_first = refl;
  same_killed = refl;
  same_idle = f.same_idle;
  same_protected = f.same_protected;
  keeps_single = f.keeps_single;
}

Frame-Sound : {b : Bool} (P : Type 0) (k k' : Kernel) → Frame k k' → Sound b P k → Sound b P k'
Frame-Sound P k k' f s = record {
  formed = Frame-IsFormed _ _ (unflag-Frame k k' f) s.formed;
  gone =
      rw (f.same_first, f.same_killed, f.same_current, pids_of_lineage _ _ f.same_lineage) s.gone;
}

-- The mark of a killed process.
mark-Sound :
    {b : Bool} (P : Type 0) (k : Kernel) (pid : ℤ)
    → pid ≡ k.current_pid
    → Sound b P k
    → Sound b (P ⊎ (k.current_pid ≡ pid)) (record k { actual_killed = true })
mark-Sound P k pid e s = record { formed = s.formed; gone = λ h. inr (inr (sym e)) }

weaken-Sound : {b : Bool} (P Q : Type 0) (k : Kernel) → (P → Q) → Sound b P k → Sound b Q k
weaken-Sound P Q k f s = record {
  formed = s.formed;
  gone = λ h. elim (s.gone h) [ inl n ↦ inl n | inr p ↦ inr (f p) ];
}

-- Unlinking the marked process.
unlink-Sound :
    {b : Bool} (P : Type 0) (k : Kernel) (pid proc_pid : ℤ)
    → Sound b (P ⊎ (k.current_pid ≡ pid)) k
    → Sound b P (kill_end k pid proc_pid)
unfolding kill_end
unlink-Sound {b} P k pid proc_pid s = record {
  formed = record {
    family = IsFamily-unlink (bound b k.next_pid) k.ready pid s.formed.family;
    idle_pid = s.formed.idle_pid;
    next_pos = s.formed.next_pos;
    current_old = s.formed.current_old;
    single = All-unlink (IsSingle k.current_pid) k.ready pid s.formed.single;
    gone = λ h. absurd (ground arith);
  };
  gone = λ h. elim (s.gone h) [
    | inl n ↦ inl (NotIn-unlink k.current_pid k.ready pid n)
    | inr (inl p) ↦ inr p
    | inr (inr e) ↦ inl (
        subst (λ x. NotIn x (pids (unlink k.ready pid))) (sym e)
          (unlink_removes (bound b k.next_pid) k.ready pid s.formed.family))
  ];
}

-- `end_process` keeps the process list well formed.
pub end_process-IsFormed : {b : Bool} (k : Kernel) → IsFormed b k → IsFormed b (end_process k)
unfolding end_process kill_end
end_process-IsFormed k w =
    let k1 = record k { actual_killed = true } in
    let proc = get_process_by_pid k1 k1.current_pid in
    let s1 = mark-Sound ⊥ k k.current_pid refl (Sound-of ⊥ k w) in
    let k2 = if not proc.foreground then k1 else release_parent k1 proc in
    let f : Frame k1 k2 = elim (Bool-cases (not proc.foreground)) [
      | inl e ↦ rw e (Frame-refl k1)
      | inr e ↦ rw e (release_parent-Frame k1 proc)
    ] in
    IsFormed-of _ (
      unlink-Sound ⊥ k2 k2.current_pid proc.pid
        (rw f.same_current (Frame-Sound (⊥ ⊎ (k.current_pid ≡ k.current_pid)) k1 k2 f s1)))

-- What a call of `kill` keeps, whatever marks are pending.
abbrev pub Keeps : (Kernel → ℤ → Kernel) → Type 1
Keeps kill =
    (b : Bool) (P : Type 0) (k : Kernel) (pid : ℤ)
    → Sound b P k
    → Sound b P (kill k pid) × ((kill k pid).current_pid ≡ k.current_pid)

pub kill_begin-Sound :
    {b : Bool} (P : Type 0) (k : Kernel) (pid : ℤ)
    → Sound b P k
    → Sound b (P ⊎ (k.current_pid ≡ pid)) (kill_begin k pid)
      × ((kill_begin k pid).current_pid ≡ k.current_pid)
unfolding kill_begin
kill_begin-Sound {b} P k pid s =
    let Q = P ⊎ (k.current_pid ≡ pid) in
    let k1 = if pid ==ℤ k.current_pid then record k { actual_killed = true } else k in
    let proc = get_process_by_pid k1 pid in
    let s1 : Sound b Q k1 × (k1.current_pid ≡ k.current_pid) =
      elim (Bool-cases (pid ==ℤ k.current_pid)) [
        | inl e ↦ rw e (mark-Sound P k pid ((==ℤ_iff pid k.current_pid).0 e) s, refl)
        | inr e ↦ rw e (weaken-Sound P Q k inl s, refl)
      ] in
    elim (Bool-cases proc.foreground) [
      | inl e ↦
          let f = release_parent-Frame k1 proc in
          rw e (Frame-Sound Q k1 _ f s1.0, f.same_current ∙ s1.1)
      | inr e ↦ rw e s1
    ]

pub kill_children-Keeps :
    (kill : Kernel → ℤ → Kernel)
    → Keeps kill
    → (b : Bool) (P : Type 0) (pid : ℤ) (ps : List Process) (k : Kernel) → Sound b P k
    → Sound b P (kill_children kill pid ps k)
      × ((kill_children kill pid ps k).current_pid ≡ k.current_pid)
unfolding kill_children
kill_children-Keeps kill keeps b P pid [] k s = (s, refl)
kill_children-Keeps kill keeps b P pid (p ∷ ps) k s =
    let k1 = if p.parent ==ℤ pid && is_linked k p.pid then kill k p.pid else k in
    let s1 : Sound b P k1 × (k1.current_pid ≡ k.current_pid) =
      elim (Bool-cases (p.parent ==ℤ pid && is_linked k p.pid)) [
        | inl e ↦ rw e (keeps b P k p.pid s)
        | inr e ↦ rw e (s, refl)
      ] in
    let (s2, same) = kill_children-Keeps kill keeps b P pid ps k1 s1.0 in (s2, same ∙ s1.1)

pub kill_fuel-Keeps : (fuel : ℕ) → Keeps (kill_fuel fuel)
unfolding kill_fuel kill_end
kill_fuel-Keeps zero b P k pid s = (s, refl)
kill_fuel-Keeps (suc fuel) b P k pid s = elim (Bool-cases (is_protected k pid)) [
  | inl e ↦ rw e (s, refl)
  | inr e ↦
      let Q = P ⊎ (k.current_pid ≡ pid) in
      let k1 = kill_begin k pid in
      let (s1, same1) = kill_begin-Sound P k pid s in
      let k2 = kill_children (kill_fuel fuel) pid k1.ready k1 in
      let (s2, same2) =
        kill_children-Keeps (kill_fuel fuel) (kill_fuel-Keeps fuel) b Q pid k1.ready k1 s1 in
      let same : k2.current_pid ≡ k.current_pid = same2 ∙ same1 in
      let s3 = subst (λ c. Sound b (P ⊎ (c ≡ pid)) k2) (sym same) s2 in
      rw e (unlink-Sound P k2 pid (get_process_by_pid k pid).pid s3, same)
]

-- `kill`, with all that it kills below the process, keeps the process list well formed.
pub kill_in_kernel-IsFormed :
    {b : Bool} (k : Kernel) (pid : ℤ) → IsFormed b k → IsFormed b (kill_in_kernel k pid)
unfolding kill_in_kernel
kill_in_kernel-IsFormed {b} k pid w =
    IsFormed-of _ (kill_fuel-Keeps (suc (pos_part k.next_pid)) b ⊥ k pid (Sound-of ⊥ k w)).0
