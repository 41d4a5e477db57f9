-- ===== src/Kernel/Table.antt =====
-- The process list: lookups by pid, and what an assignment through a pointer leaves alone.
use tpe_so.Base.{
  ℤ, ◌==ℤ◌, is_zero, ◌≡◌, refl, ap, ◌≢◌, inl, inr, Bool-cases, if◌then◌else◌, none, Option-cases,
  List, [], ◌∷◌, map, All, arith,
}
use tpe_so.Kernel.State.{Process, Kernel}
use tpe_so.Kernel.Process.{find_pid, update_pid, set_process}

abbrev pub NotIn : ℤ → List ℤ → Type 0
NotIn x = All (λ y. y ≢ x)

-- No pid occurs twice.
abbrev pub Distinct : List ℤ → Type 0
Distinct [] = Unit
Distinct (x ∷ xs) = NotIn x xs × Distinct xs

abbrev pub pids : List Process → List ℤ
pids = map (λ p. p.pid)

pub update_pid_missing :
    (ps : List Process) (pid : ℤ) (f : Process → Process)
    → find_pid ps pid ≡ none
    → update_pid ps pid f ≡ ps
unfolding find_pid update_pid
update_pid_missing [] pid f h = refl
update_pid_missing (p ∷ ps) pid f h = elim (Bool-cases (p.pid ==ℤ pid)) [
  | inl e ↦ ground arith
  | inr e ↦ ground (arith, update_pid_missing ps pid f)
]

-- The list after an assignment through `GetProcessByPID`.
pub set_process-ready :
    (k : Kernel) (pid : ℤ) (f : Process → Process)
    → (set_process k pid f).ready ≡ (if is_zero pid then k.ready else update_pid k.ready pid f)
unfolding set_process
set_process-ready k pid f = elim (Option-cases (find_pid k.ready pid)) [
  | inl e ↦ ground (arith, update_pid_missing k.ready pid f e)
  | inr (p, e) ↦ ground arith
]

pub map-update_pid {ℓ} :
    {A : Type ℓ} (g : Process → A) (f : Process → Process) (ps : List Process) (pid : ℤ)
    → ((p : Process) → g (f p) ≡ g p)
    → map g (update_pid ps pid f) ≡ map g ps
unfolding update_pid
map-update_pid g f [] pid h = refl
map-update_pid g f (p ∷ ps) pid h = elim (Bool-cases (p.pid ==ℤ pid)) [
  | inl e ↦ rw e (ap (λ x. x ∷ map g ps) (h p))
  | inr e ↦ rw e (ap (λ xs. g p ∷ xs) (map-update_pid g f ps pid h))
]
