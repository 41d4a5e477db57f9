-- ===== src/Kernel/Scheduler/Elect.antt =====
-- What one call of `GetNextProcess` does to the whole list.
use mathlib.Core.Path.{ap₂}
use tpe_so.Base.{
  ℕ, zero, suc, pos, ◌≡◌, refl, ap, none, some, List, [], ◌∷◌, map, get_or, set, arith,
}
use tpe_so.Kernel.State.{running, Process, Kernel}
use tpe_so.Kernel.Table.{pids}
use tpe_so.Kernel.Scheduler.{Best, age, scan, nothing_found, get_next_process}
use tpe_so.Kernel.Scheduler.Choice.{spend_at, get_next_task-none, get_next_task-some}

pid-age : (p : Process) → (age p).pid ≡ p.pid
unfolding age
pid-age p = ground arith

pids-age : (ps : List Process) → pids (map age ps) ≡ pids ps
pids-age [] = refl
pids-age (p ∷ ps) = ap₂ ◌∷◌ (pid-age p) (pids-age ps)

pub scan-map : (ps : List Process) (i : ℕ) (b : Best) → (scan ps i b).0 ≡ map age ps
unfolding scan
scan-map [] i b = refl
scan-map (p ∷ ps) i b = ap (λ xs. age p ∷ xs) (scan-map ps (suc i) _)

-- The winner at `c` runs with its accumulated priority spent; every other ready process ages.
unfoldable pub elect : List Process → ℕ → List Process
elect [] c = []
elect (p ∷ ps) zero = record p { state = running; acum = pos 0 } ∷ map age ps
elect (p ∷ ps) (suc c) = age p ∷ elect ps c

abbrev run_at : List Process → ℕ → Process → List Process
run_at ps c d = set ps c (record (get_or ps c d) { state = running })

elect-eq :
    (ps : List Process) (c : ℕ) (d : Process) → run_at (spend_at (map age ps) c d) c d ≡ elect ps c
unfolding elect age
elect-eq [] c d = refl
elect-eq (p ∷ ps) zero d = ap (λ x. x ∷ map age ps) (spent p)
  where
    spent :
        (p : Process)
        → record (record (age p) { acum = pos 0 }) { state = running }
          ≡ record p { state = running; acum = pos 0 }
    spent p = ground arith
elect-eq (p ∷ ps) (suc c) d = ap (λ xs. age p ∷ xs) (elect-eq ps c d)

pid-elected :
    (ps : List Process) (c : ℕ) (d : Process)
    → (get_or (spend_at (map age ps) c d) c d).pid ≡ (get_or ps c d).pid
unfolding age
pid-elected [] c d = refl
pid-elected (p ∷ ps) zero d = ground arith
pid-elected (p ∷ ps) (suc c) d = pid-elected ps c d

-- The state after a call that finds a process: `GetNextProcess` touches nothing else.
pub record Elected (k : Kernel) (c : ℕ) (k' : Kernel) : Type 0 where
  pub elected : k'.ready ≡ elect k.ready c
  pub current : k'.current_pid ≡ (get_or k.ready c k.idle).pid
  pub same_first : k'.first_time ≡ k.first_time
  pub same_killed : k'.actual_killed ≡ k.actual_killed
  pub same_idle : k'.idle ≡ k.idle
  pub same_next : k'.next_pid ≡ k.next_pid

pub get_next_process-some :
    (k : Kernel) (c : ℕ)
    → (scan k.ready 0 nothing_found).1.proc ≡ some c
    → Elected k c (get_next_process k).1
unfolding get_next_process
get_next_process-some k c e =
    rw (get_next_task-some k c e, scan-map k.ready 0 nothing_found)
      (record {
        elected = elect-eq k.ready c k.idle;
        current = pid-elected k.ready c k.idle;
        same_first = refl;
        same_killed = refl;
        same_idle = refl;
        same_next = refl;
      })

pub pids-elect : (ps : List Process) (c : ℕ) → pids (elect ps c) ≡ pids ps
unfolding elect
pids-elect [] c = refl
pids-elect (p ∷ ps) zero = ap (λ xs. p.pid ∷ xs) (pids-age ps)
pids-elect (p ∷ ps) (suc c) = ap₂ ◌∷◌ (pid-age p) (pids-elect ps c)

-- The state after a call that finds nobody ready.
pub record Idled (k k' : Kernel) : Type 0 where
  pub aged : k'.ready ≡ map age k.ready
  pub current : k'.current_pid ≡ k.idle.pid
  pub same_first : k'.first_time ≡ k.first_time
  pub same_killed : k'.actual_killed ≡ k.actual_killed
  pub same_idle : k'.idle.pid ≡ k.idle.pid
  pub same_next : k'.next_pid ≡ k.next_pid

pub get_next_process-none :
    (k : Kernel) → (scan k.ready 0 nothing_found).1.proc ≡ none → Idled k (get_next_process k).1
unfolding get_next_process
get_next_process-none k e =
    rw (get_next_task-none k e, scan-map k.ready 0 nothing_found)
      (record {
        aged = refl;
        current = refl;
        same_first = refl;
        same_killed = refl;
        same_idle = refl;
        same_next = refl;
      })
