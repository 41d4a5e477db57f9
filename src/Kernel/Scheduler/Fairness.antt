-- ===== src/Kernel/Scheduler/Fairness.antt =====
-- No process starves under scheduler2.c: the kernel's rounds are rounds of `Aging`.
use tpe_so.Base.{
  ℕ, suc, ◌+◌, ◌*◌, ◌≤◌, ◌<◌, ℤ, pos, ◌≤ℤ◌, ◌≡◌, refl, sym, ap, ◌∙◌, ◌⊎◌, inl, inr, some,
  Option-cases, List, [], ◌∷◌, map, length, get_elem?, get_elem?-map, get_elem?-map_of,
  get_elem?-lt_length, get_elem?-eq-get_or, get_or-eq_of_get_elem?, length-map, All, All-get_elem?,
  some_inj, arith,
}
use tpe_so.Kernel.State.{Process, Kernel}
use tpe_so.Kernel.Table.{pids}
use tpe_so.Kernel.Scheduler.{
  node_ref, scan, nothing_found, save_esp, get_next_process, switch_process,
}
use tpe_so.Kernel.Scheduler.Choice.{
  IsCounted, IsBestChoice, get_next_task-IsBestChoice, get_next_task-none, get_next_task-some,
}
use tpe_so.Kernel.Scheduler.Elect.{Elected, get_next_process-some, pids-elect}
use tpe_so.Kernel.Scheduler.Aging.{advance, Rated, IsHighest, IsRun, Wins, Wins-of_run}
use tpe_so.Kernel.Scheduler.Calm.{
  IsCalm, IsReady, load, Settled, save_esp-Settled, loads-elect, Elected-IsCalm,
}

-- The end of a time slot, as the handler of int 8 runs it for a process interrupted at `esp`.
abbrev pub end_slot : Kernel → ℤ → Kernel
end_slot k esp = (switch_process (save_esp k esp)).1

end_slot-get_next_process :
    (k : Kernel) (esp : ℤ) → end_slot k esp ≡ (get_next_process (save_esp k esp)).1
unfolding switch_process
end_slot-get_next_process k esp = refl

-- The process `pid` is the current one after one of these slots.
abbrev pub RunsWithin : List ℤ → Kernel → ℤ → Type 0
RunsWithin [] k pid = ⊥
RunsWithin (esp ∷ esps) k pid =
    ((end_slot k esp).current_pid ≡ pid) ⊎ RunsWithin esps (end_slot k esp) pid

IsHighest-of_best :
    (s : Kernel) (c : ℕ)
    → All IsCounted s.ready
    → All IsReady s.ready
    → IsBestChoice s (node_ref c)
    → IsHighest (map load s.ready) c
unfolding load
IsHighest-of_best s c counted rs (p, g, r, top) = (
  load p,
  get_elem?-map_of load s.ready c p g,
  λ j y h.
      let (q, gq, e) = get_elem?-map load s.ready j y h in
      let a = top j q gq (All-get_elem? IsReady s.ready j q rs gq) in
      let cp = All-get_elem? IsCounted s.ready c p counted g in
      let cq = All-get_elem? IsCounted s.ready j q counted gq in ground arith,
)

-- One slot: some process wins it.
record Slot (k k' : Kernel) (c : ℕ) : Type 0 where
  calm : IsCalm k'
  highest : IsHighest (map load k.ready) c
  loads : map load k'.ready ≡ advance (map load k.ready) c
  names : pids k'.ready ≡ pids k.ready
  winner : get_elem? (pids k.ready) c ≡ some k'.current_pid

Slot-of :
    (k s : Kernel) (c : ℕ)
    → IsCalm k
    → Settled k s
    → IsBestChoice s (node_ref c)
    → Elected s c (get_next_process s).1
    → Slot k (get_next_process s).1 c
Slot-of k s c calm settled best e = record {
  calm = Elected-IsCalm k s _ c calm settled e;
  highest =
      rw settled.same_loads at (IsHighest-of_best s c settled.all_counted settled.all_ready best);
  loads =
      ap (map load) e.elected
      ∙ loads-elect s.ready c settled.all_ready settled.all_counted
      ∙ ap (λ xs. advance xs c) settled.same_loads;
  names = ap pids e.elected ∙ pids-elect s.ready c ∙ settled.same_pids;
  winner =
      let (p, g, _, _) = best in
      let here : get_elem? (pids s.ready) c ≡ some (get_next_process s).1.current_pid =
        rw (e.current, get_or-eq_of_get_elem? s.ready c p s.idle g)
          (get_elem?-map_of (λ q. q.pid) s.ready c p g) in
      rw settled.same_pids at here;
}

-- Somebody is ready, so the idle process is not chosen.
Slot-exists :
    (k : Kernel) (esp : ℤ) → IsCalm k → 0 < length k.ready → (c : ℕ) × Slot k (end_slot k esp) c
Slot-exists k esp calm some_ready =
    let s = save_esp k esp in
    let settled = save_esp-Settled k esp calm in
    let counted = λ (j : ℕ) (q : Process) (g : get_elem? s.ready j ≡ some q).
      All-get_elem? IsCounted s.ready j q settled.all_counted g in
    let best = get_next_task-IsBestChoice s counted in
    rw (end_slot-get_next_process k esp)
      (elim (Option-cases (scan s.ready 0 nothing_found).1.proc) [
        | inl e ↦
            let nobody = rw (get_next_task-none s e) at best in
            let many : 0 < length s.ready = omega (
              arith,
              ap length settled.same_pids,
              length-map s.ready (λ q. q.pid),
              length-map k.ready (λ q. q.pid),
            ) in
            let g = get_elem?-eq-get_or s.ready 0 s.idle many in
            absurd (nobody 0 _ g (All-get_elem? IsReady s.ready 0 _ settled.all_ready g))
        | inr (c, e) ↦ (
          c,
          Slot-of k s c calm settled (rw (get_next_task-some s c e) at best)
              (get_next_process-some s c e),
        )
      ])

-- A sequence of slots, as rounds of `Aging`.
record Trace (esps : List ℤ) (k : Kernel) : Type 0 where
  winners : List ℕ
  enough : length winners ≡ length esps
  run : IsRun (map load k.ready) winners
  runs :
      (i : ℕ) (pid : ℤ)
      → get_elem? (pids k.ready) i ≡ some pid
      → Wins i winners
      → RunsWithin esps k pid

Trace-cons :
    (esp : ℤ) (esps : List ℤ) (k : Kernel) (c : ℕ)
    → Slot k (end_slot k esp) c
    → Trace esps (end_slot k esp)
    → Trace (esp ∷ esps) k
Trace-cons esp esps k c slot t = record {
  winners = c ∷ t.winners;
  enough = ap suc t.enough;
  run = (slot.highest, rw slot.loads at t.run);
  runs = runs_of;
}
  where
    runs_of :
        (i : ℕ) (pid : ℤ)
        → get_elem? (pids k.ready) i ≡ some pid
        → Wins i (c ∷ t.winners)
        → RunsWithin (esp ∷ esps) k pid
    runs_of i pid g (inl e) = inl (some_inj (sym slot.winner ∙ ap (get_elem? (pids k.ready)) e ∙ g))
    runs_of i pid g (inr w) = inr (t.runs i pid (rw slot.names g) w)

trace : (esps : List ℤ) (k : Kernel) → IsCalm k → 0 < length k.ready → Trace esps k
trace [] k calm many = record { winners = []; enough = refl; run = tt; runs = λ i pid g w. w }
trace (esp ∷ esps) k calm many =
    let (c, slot) = Slot-exists k esp calm many in
    Trace-cons esp esps k c slot (
      trace esps (end_slot k esp) slot.calm (
        omega (
          arith,
          ap length slot.names,
          length-map (end_slot k esp).ready (λ q. q.pid),
          length-map k.ready (λ q. q.pid),
        )))

rated :
    (r : ℕ) (ps : List Process) → All (λ p. p.priority ≤ℤ pos r) ps → Rated (suc r) (map load ps)
unfolding load
rated r [] h = tt
rated r (p ∷ ps) h = ((omega arith, ground arith), rated r ps h.1)

-- No process starves: with `n` processes of priority at most `r`, each becomes the current process
-- within `n * (r + 1) + n` ends of a time slot, whatever stack pointers the interrupts save. (After the
-- first slot, with no process blocked or being killed, pids distinct and not 0, and neither priorities
-- nor accumulated priorities negative.)
pub no_starvation :
    (k : Kernel) (r i : ℕ) (p : Process) (esps : List ℤ)
    → IsCalm k
    → All (λ q. q.priority ≤ℤ pos r) k.ready
    → get_elem? k.ready i ≡ some p
    → length k.ready * suc r + length k.ready ≤ length esps
    → RunsWithin esps k p.pid
no_starvation k r i p esps calm bound g long =
    let inside = get_elem?-lt_length k.ready i p g in
    let t = trace esps k calm (omega arith) in
    let same = length-map k.ready load in
    t.runs i p.pid (get_elem?-map_of (λ q. q.pid) k.ready i p g) (
      Wins-of_run (suc r) i (map load k.ready) t.winners (omega arith) (rated r k.ready bound)
        (rw same inside) t.run (rw (same, t.enough) long))
