-- ===== src/Kernel/Scheduler/Calm.antt =====
-- The end of a time slot when nobody is blocked or killed: `SaveESP` makes everybody ready, and
-- `GetNextProcess` runs one of them.
use mathlib.Core.Path.{ap₂, subst}
use tpe_so.Base.{
  ℕ, zero, suc, ℤ, pos, pos_part, ◌==ℤ◌, ==ℤ_iff, is_zero, ◌≡◌, refl, sym, ap, ◌∙◌, ◌⊎◌, inl, inr,
  false, Bool-cases, if◌then◌else◌, List, [], ◌∷◌, map, get_or, All, arith,
}
use tpe_so.Kernel.State.{running, ready, is_running, Process, Kernel}
use tpe_so.Kernel.Process.{update_pid}
use tpe_so.Kernel.Table.{NotIn, Distinct, pids, set_process-ready, map-update_pid}
use tpe_so.Kernel.Scheduler.{age, save_esp}
use tpe_so.Kernel.Scheduler.Choice.{IsCounted}
use tpe_so.Kernel.Scheduler.Elect.{elect, Elected, pids-elect}
use tpe_so.Kernel.Scheduler.Aging.{Load, grow, grow_all, advance}

-- The load of a process: it gains its priority and one more in each round.
unfoldable pub load : Process → Load
load p = record { level = pos_part p.acum; rate = suc (pos_part p.priority) }

abbrev pub IsReady : Process → Type 0
IsReady p = p.state ≡ ready

-- Ready, or running as the current process.
abbrev pub IsActive : ℤ → Process → Type 0
IsActive cur p = (p.state ≡ ready) ⊎ ((p.state ≡ running) × (p.pid ≡ cur))

-- Nobody is blocked, and nobody is being killed: between two ends of a time slot.
pub record IsCalm (k : Kernel) : Type 0 where
  pub started : k.first_time ≡ false
  pub unkilled : k.actual_killed ≡ false
  pub active : All (IsActive k.current_pid) k.ready
  pub named : NotIn (pos 0) (pids k.ready)
  pub distinct : Distinct (pids k.ready)
  pub counted : All IsCounted k.ready

-- What `SaveESP` assigns to the interrupted process.
abbrev saved : ℤ → Process → Process
saved esp p = record p { esp = esp; state = if is_running p.state then ready else p.state }

save_esp-ready :
    (k : Kernel) (esp : ℤ)
    → k.first_time ≡ false
    → k.actual_killed ≡ false
    → (save_esp k esp).ready
      ≡ (if is_zero k.current_pid then k.ready else update_pid k.ready k.current_pid (saved esp))
unfolding save_esp
save_esp-ready k esp a b = rw (a, b) (set_process-ready _ k.current_pid (saved esp))

settle_others :
    (cur : ℤ) (ps : List Process) → All (IsActive cur) ps → NotIn cur (pids ps) → All IsReady ps
settle_others cur [] h n = tt
settle_others cur (p ∷ ps) h n = (ground arith, settle_others cur ps h.1 n.1)

settle :
    (cur esp : ℤ) (ps : List Process)
    → All (IsActive cur) ps
    → Distinct (pids ps)
    → All IsReady (update_pid ps cur (saved esp))
unfolding update_pid
settle cur esp [] h d = tt
settle cur esp (p ∷ ps) h d = elim (Bool-cases (p.pid ==ℤ cur)) [
  | inl e ↦
      let same : p.pid ≡ cur = (==ℤ_iff p.pid cur).0 e in
      rw e (ground arith, settle_others cur ps h.1 (subst (λ x. NotIn x (pids ps)) same d.0))
  | inr e ↦ rw e (ground (arith, ==ℤ_iff p.pid cur), settle cur esp ps h.1 d.1)
]

-- The state between `SaveESP` and `GetNextProcess`.
pub record Settled (k s : Kernel) : Type 0 where
  pub all_ready : All IsReady s.ready
  pub same_pids : pids s.ready ≡ pids k.ready
  pub same_loads : map load s.ready ≡ map load k.ready
  pub all_counted : All IsCounted s.ready
  pub started : s.first_time ≡ false
  pub unkilled : s.actual_killed ≡ false

update_pid-IsCounted :
    (cur esp : ℤ) (ps : List Process)
    → All IsCounted ps
    → All IsCounted (update_pid ps cur (saved esp))
unfolding update_pid
update_pid-IsCounted cur esp [] h = tt
update_pid-IsCounted cur esp (p ∷ ps) h = elim (Bool-cases (p.pid ==ℤ cur)) [
  | inl e ↦ rw e h
  | inr e ↦ rw e (h.0, update_pid-IsCounted cur esp ps h.1)
]

save_esp-flags :
    (k : Kernel) (esp : ℤ)
    → ((save_esp k esp).first_time ≡ false) × ((save_esp k esp).actual_killed ≡ false)
unfolding save_esp
save_esp-flags k esp = (refl, refl)

pub save_esp-Settled : (k : Kernel) (esp : ℤ) → IsCalm k → Settled k (save_esp k esp)
unfolding load
save_esp-Settled k esp c =
    let e = save_esp-ready k esp c.started c.unkilled in
    let flags = save_esp-flags k esp in
    elim (Bool-cases (is_zero k.current_pid)) [
      | inl z ↦
          let same : (save_esp k esp).ready ≡ k.ready = rw z at e in
          let at_idle : pos 0 ≡ k.current_pid = sym ((==ℤ_iff k.current_pid (pos 0)).0 z) in
          record {
            all_ready = rw same (
                settle_others k.current_pid k.ready c.active
                  (subst (λ x. NotIn x (pids k.ready)) at_idle c.named));
            same_pids = ap pids same;
            same_loads = ap (map load) same;
            all_counted = rw same c.counted;
            started = flags.0;
            unkilled = flags.1;
          }
      | inr z ↦
          let same : (save_esp k esp).ready ≡ update_pid k.ready k.current_pid (saved esp) =
            rw z at e in
          record {
            all_ready = rw same (settle k.current_pid esp k.ready c.active c.distinct);
            same_pids =
                ap pids same
                ∙ map-update_pid (λ p. p.pid) (saved esp) k.ready k.current_pid (λ p. refl);
            same_loads =
                ap (map load) same
                ∙ map-update_pid load (saved esp) k.ready k.current_pid (λ p. refl);
            all_counted = rw same (update_pid-IsCounted k.current_pid esp k.ready c.counted);
            started = flags.0;
            unkilled = flags.1;
          }
    ]

load-age : (p : Process) → IsReady p → IsCounted p → load (age p) ≡ grow (load p)
unfolding load age
load-age p r c = ground arith

loads-age :
    (ps : List Process)
    → All IsReady ps
    → All IsCounted ps
    → map load (map age ps) ≡ grow_all (map load ps)
unfolding grow_all
loads-age [] r c = refl
loads-age (p ∷ ps) r c = ap₂ ◌∷◌ (load-age p r.0 c.0) (loads-age ps r.1 c.1)

-- One call of the scheduler is one round of aging.
pub loads-elect :
    (ps : List Process) (c : ℕ)
    → All IsReady ps
    → All IsCounted ps
    → map load (elect ps c) ≡ advance (map load ps) c
unfolding elect advance load
loads-elect [] c r h = refl
loads-elect (p ∷ ps) zero r h = ap₂ ◌∷◌ refl (loads-age ps r.1 h.1)
loads-elect (p ∷ ps) (suc c) r h = ap₂ ◌∷◌ (load-age p r.0 h.0) (loads-elect ps c r.1 h.1)

age-IsActive : (cur : ℤ) (ps : List Process) → All IsReady ps → All (IsActive cur) (map age ps)
unfolding age
age-IsActive cur [] r = tt
age-IsActive cur (p ∷ ps) r = (ground arith, age-IsActive cur ps r.1)

age-IsCounted : (p : Process) → IsCounted p → IsCounted (age p)
unfolding age
age-IsCounted p c = ground arith

ages-IsCounted : (ps : List Process) → All IsCounted ps → All IsCounted (map age ps)
ages-IsCounted [] h = tt
ages-IsCounted (p ∷ ps) h = (age-IsCounted p h.0, ages-IsCounted ps h.1)

elect-IsCounted : (ps : List Process) (c : ℕ) → All IsCounted ps → All IsCounted (elect ps c)
unfolding elect
elect-IsCounted [] c h = tt
elect-IsCounted (p ∷ ps) zero h = ((omega arith, h.0.1), ages-IsCounted ps h.1)
elect-IsCounted (p ∷ ps) (suc c) h = (age-IsCounted p h.0, elect-IsCounted ps c h.1)

elect-IsActive :
    (cur : ℤ) (ps : List Process) (c : ℕ) (d : Process)
    → (get_or ps c d).pid ≡ cur
    → All IsReady ps
    → All (IsActive cur) (elect ps c)
unfolding elect age
elect-IsActive cur [] c d e r = tt
elect-IsActive cur (p ∷ ps) zero d e r = (inr (refl, e), age-IsActive cur ps r.1)
elect-IsActive cur (p ∷ ps) (suc c) d e r = (ground arith, elect-IsActive cur ps c d e r.1)

pub Elected-IsCalm : (k s k' : Kernel) (c : ℕ) → IsCalm k → Settled k s → Elected s c k' → IsCalm k'
Elected-IsCalm k s k' c calm settled e =
    let names : pids k'.ready ≡ pids k.ready =
      ap pids e.elected ∙ pids-elect s.ready c ∙ settled.same_pids in
    record {
      started = e.same_first ∙ settled.started;
      unkilled = e.same_killed ∙ settled.unkilled;
      active =
          rw e.elected
            (elect-IsActive k'.current_pid s.ready c s.idle (sym e.current) settled.all_ready);
      named = rw names calm.named;
      distinct = rw names calm.distinct;
      counted = rw e.elected (elect-IsCounted s.ready c settled.all_counted);
    }
