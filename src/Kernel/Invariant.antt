-- ===== src/Kernel/Invariant.antt =====
-- The invariant of the process list, and the steps that change no pid, no parent and no flag.
pub mod Frame
pub mod Timer
pub mod Switch
pub mod Lifecycle
pub mod Ending
pub mod Reach
use tpe_so.Base.{ℤ, pos, ◌+ℤ◌, ◌<ℤ◌, ◌≡◌, ◌≢◌, ◌⊎◌, Bool, true, false, List, [], ◌∷◌, map, All}
use tpe_so.Kernel.State.{running, Process, Kernel}
use tpe_so.Kernel.Table.{NotIn, pids}

-- A process and its parent.
abbrev pub Kin : Type 0
Kin = ℤ × ℤ

abbrev pub lineage : List Process → List Kin
lineage = map (λ p. (p.pid, p.parent))

-- Pids are positive, handed out below `next`, distinct, and later than the parent's.
abbrev pub IsFamily : ℤ → List Kin → Type 0
IsFamily next [] = Unit
IsFamily next ((pid, parent) ∷ l) =
    (pos 0 <ℤ pid)
    × (pid <ℤ next)
    × (parent <ℤ pid)
    × All (λ (x : Kin). x.0 ≢ pid) l
    × IsFamily next l

-- Only the current process runs.
abbrev pub IsSingle : ℤ → Process → Type 0
IsSingle cur p = p.state ≡ running → p.pid ≡ cur

-- Pids lie below `nextPID`, and while the `nextPID++` of a created process is pending, below the one
-- behind it.
abbrev pub bound : Bool → ℤ → ℤ
bound false next = next
bound true next = next +ℤ pos 1

-- The process list, with a `nextPID++` pending or not.
pub record IsFormed (pending : Bool) (k : Kernel) : Type 0 where
  pub family : IsFamily (bound pending k.next_pid) (lineage k.ready)
  pub idle_pid : k.idle.pid ≡ pos 0
  pub next_pos : pos 0 <ℤ bound pending k.next_pid
  pub current_old : k.current_pid <ℤ bound pending k.next_pid
  pub single : All (IsSingle k.current_pid) k.ready
  -- Before the first slot, and when the current process has been killed, it is not in the list.
  pub gone : (k.first_time ≡ true) ⊎ (k.actual_killed ≡ true) → NotIn k.current_pid (pids k.ready)

-- No `nextPID++` is pending.
abbrev pub WellFormed : Kernel → Type 0
WellFormed k = IsFormed false k
