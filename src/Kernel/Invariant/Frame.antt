-- ===== src/Kernel/Invariant/Frame.antt =====
-- Steps that only change states, counters and waits of processes.
use tpe_so.Base.{
  Bool, ℕ, zero, suc, ℤ, ◌==ℤ◌, is_zero, ◌≡◌, refl, sym, ap, ◌∙◌, inl, inr, Bool-cases,
  Option-cases, List, [], ◌∷◌, map, get_or, set, All, arith, ◌&&◌,
}
use tpe_so.Kernel.State.{running, is_blocked, Process, Kernel}
use tpe_so.Kernel.Table.{pids, map-update_pid}
use tpe_so.Kernel.Process.{
  find_pid, update_pid, set_process, awake_process, to_ready, to_blocked, get_process_by_pid,
}
use tpe_so.Kernel.Invariant.{lineage, IsSingle, IsFormed}

-- An assignment to a process that keeps its pid and parent, and does not make it run.
pub record IsQuiet (f : Process → Process) : Type 0 where
  pub same_pid : (p : Process) → (f p).pid ≡ p.pid
  pub same_parent : (p : Process) → (f p).parent ≡ p.parent
  pub no_run : (p : Process) → (f p).state ≡ running → p.state ≡ running

pub record Frame (k k' : Kernel) : Type 0 where
  pub same_lineage : lineage k'.ready ≡ lineage k.ready
  pub same_next : k'.next_pid ≡ k.next_pid
  pub same_current : k'.current_pid ≡ k.current_pid
  pub same_first : k'.first_time ≡ k.first_time
  pub same_killed : k'.actual_killed ≡ k.actual_killed
  pub same_idle : k'.idle.pid ≡ k.idle.pid
  pub same_protected :
      (k'.terminal_pids ≡ k.terminal_pids)
      × (k'.usr_loged ≡ k.usr_loged)
      × (k'.log_pid ≡ k.log_pid)
      × (k'.logout_pid ≡ k.logout_pid)
  pub keeps_single : (cur : ℤ) → All (IsSingle cur) k.ready → All (IsSingle cur) k'.ready

pub Frame-refl : (k : Kernel) → Frame k k
Frame-refl k = record {
  same_lineage = refl;
  same_next = refl;
  same_current = refl;
  same_first = refl;
  same_killed = refl;
  same_idle = refl;
  same_protected = (refl, refl, refl, refl);
  keeps_single = λ cur h. h;
}

pub Frame-trans : (a b c : Kernel) → Frame a b → Frame b c → Frame a c
Frame-trans a b c f g =
    let (f0, f1, f2, f3) = f.same_protected in
    let (g0, g1, g2, g3) = g.same_protected in
    record {
      same_lineage = g.same_lineage ∙ f.same_lineage;
      same_next = g.same_next ∙ f.same_next;
      same_current = g.same_current ∙ f.same_current;
      same_first = g.same_first ∙ f.same_first;
      same_killed = g.same_killed ∙ f.same_killed;
      same_idle = g.same_idle ∙ f.same_idle;
      same_protected = (g0 ∙ f0, g1 ∙ f1, g2 ∙ f2, g3 ∙ f3);
      keeps_single = λ cur h. g.keeps_single cur (f.keeps_single cur h);
    }

-- The pids are the first parts of the lineage.
abbrev firsts : List (ℤ × ℤ) → List ℤ
firsts = map (λ x. x.0)

pids-lineage : (ps : List Process) → firsts (lineage ps) ≡ pids ps
pids-lineage [] = refl
pids-lineage (p ∷ ps) = ap (λ xs. p.pid ∷ xs) (pids-lineage ps)

pub pids_of_lineage : (ps qs : List Process) → lineage ps ≡ lineage qs → pids ps ≡ pids qs
pids_of_lineage ps qs e = sym (pids-lineage ps) ∙ ap firsts e ∙ pids-lineage qs

pub Frame-IsFormed : {b : Bool} (k k' : Kernel) → Frame k k' → IsFormed b k → IsFormed b k'
Frame-IsFormed k k' f w = record {
  family = rw (f.same_next, f.same_lineage) w.family;
  idle_pid = f.same_idle ∙ w.idle_pid;
  next_pos = rw f.same_next w.next_pos;
  current_old = rw (f.same_current, f.same_next) w.current_old;
  single = rw f.same_current (f.keeps_single k.current_pid w.single);
  gone =
      rw (f.same_first, f.same_killed, f.same_current, pids_of_lineage _ _ f.same_lineage) w.gone;
}

IsSingle-update_pid :
    (f : Process → Process) (ps : List Process) (pid cur : ℤ)
    → IsQuiet f
    → All (IsSingle cur) ps
    → All (IsSingle cur) (update_pid ps pid f)
unfolding update_pid
IsSingle-update_pid f [] pid cur q h = tt
IsSingle-update_pid f (p ∷ ps) pid cur q h = elim (Bool-cases (p.pid ==ℤ pid)) [
  | inl e ↦ rw e ((λ r. q.same_pid p ∙ h.0 (q.no_run p r)), h.1)
  | inr e ↦ rw e (h.0, IsSingle-update_pid f ps pid cur q h.1)
]

pub lineage-update_pid :
    (f : Process → Process) (ps : List Process) (pid : ℤ)
    → IsQuiet f
    → lineage (update_pid ps pid f) ≡ lineage ps
lineage-update_pid f ps pid q =
    map-update_pid (λ p. (p.pid, p.parent)) f ps pid
      λ p. ground (arith, q.same_pid p, q.same_parent p)

-- A new list with the same lineage.
pub ready-Frame :
    (k : Kernel) (ps : List Process)
    → lineage ps ≡ lineage k.ready
    → ((cur : ℤ) → All (IsSingle cur) k.ready → All (IsSingle cur) ps)
    → Frame k (record k { ready = ps })
ready-Frame k ps e h = record {
  same_lineage = e;
  same_next = refl;
  same_current = refl;
  same_first = refl;
  same_killed = refl;
  same_idle = refl;
  same_protected = (refl, refl, refl, refl);
  keeps_single = h;
}

pub update_pid-Frame :
    (k : Kernel) (pid : ℤ) (f : Process → Process)
    → IsQuiet f
    → Frame k (record k { ready = update_pid k.ready pid f })
update_pid-Frame k pid f q =
    ready-Frame k (update_pid k.ready pid f) (lineage-update_pid f k.ready pid q)
      (λ cur h. IsSingle-update_pid f k.ready pid cur q h)

idle-Frame :
    (k : Kernel) (f : Process → Process) → IsQuiet f → Frame k (record k { idle = f k.idle })
idle-Frame k f q = record {
  same_lineage = refl;
  same_next = refl;
  same_current = refl;
  same_first = refl;
  same_killed = refl;
  same_idle = q.same_pid k.idle;
  same_protected = (refl, refl, refl, refl);
  keeps_single = λ cur h. h;
}

-- Through any pointer that `GetProcessByPID` returns.
pub set_process-Frame :
    (k : Kernel) (pid : ℤ) (f : Process → Process) → IsQuiet f → Frame k (set_process k pid f)
unfolding set_process
set_process-Frame k pid f q = elim (Bool-cases (is_zero pid)) [
  | inl e ↦ rw e (idle-Frame k f q)
  | inr e ↦ rw e (elim (Option-cases (find_pid k.ready pid)) [
    | inl n ↦ rw n (idle-Frame k f q)
    | inr (p, s) ↦ rw s (update_pid-Frame k pid f q)
  ])
]

pub to_ready-IsQuiet : IsQuiet to_ready
to_ready-IsQuiet = record { same_pid = λ p. refl; same_parent = λ p. refl; no_run = λ p h. cc }

pub to_blocked-IsQuiet : IsQuiet to_blocked
to_blocked-IsQuiet = record { same_pid = λ p. refl; same_parent = λ p. refl; no_run = λ p h. cc }

pub awake_process-Frame : (k : Kernel) (pid : ℤ) → Frame k (awake_process k pid)
unfolding awake_process
awake_process-Frame k pid =
    elim (Bool-cases (
      is_blocked (get_process_by_pid k pid).state
      && is_zero (get_process_by_pid k pid).waiting_pid)) [
        | inl e ↦ rw e (set_process-Frame k pid to_ready to_ready-IsQuiet)
        | inr e ↦ rw e (Frame-refl k)
      ]

map-set {ℓ} :
    {A : Type ℓ} (g : Process → A) (ps : List Process) (i : ℕ) (q d : Process)
    → g q ≡ g (get_or ps i d)
    → map g (set ps i q) ≡ map g ps
map-set g [] i q d h = refl
map-set g (p ∷ ps) zero q d h = ap (λ x. x ∷ map g ps) h
map-set g (p ∷ ps) (suc i) q d h = ap (λ xs. g p ∷ xs) (map-set g ps i q d h)

IsSingle-set :
    (ps : List Process) (i : ℕ) (q d : Process) (cur : ℤ)
    → q.pid ≡ (get_or ps i d).pid
    → (q.state ≡ running → (get_or ps i d).state ≡ running)
    → All (IsSingle cur) ps
    → All (IsSingle cur) (set ps i q)
IsSingle-set [] i q d cur e s h = tt
IsSingle-set (p ∷ ps) zero q d cur e s h = ((λ r. e ∙ h.0 (s r)), h.1)
IsSingle-set (p ∷ ps) (suc i) q d cur e s h = (h.0, IsSingle-set ps i q d cur e s h.1)

-- Through a pointer to the node at `i`.
pub node-Frame :
    (k : Kernel) (i : ℕ) (f : Process → Process)
    → IsQuiet f
    → Frame k (record k { ready = set k.ready i (f (get_or k.ready i k.idle)) })
node-Frame k i f q =
    let p = get_or k.ready i k.idle in
    ready-Frame k (set k.ready i (f p))
      (map-set (λ p. (p.pid, p.parent)) k.ready i (f p) k.idle
        (ground (arith, q.same_pid p, q.same_parent p)))
      (λ cur h. IsSingle-set k.ready i (f p) k.idle cur (q.same_pid p) (q.no_run p) h)
