-- ===== src/Kernel/Scheduler.antt =====
-- The timer interrupt and the aging scheduler that the build links (Chinux/src/scheduler2.c and
-- the handler of int 8 in Chinux/src/libasm.asm).
pub mod Choice
pub mod Aging
pub mod Elect
pub mod Calm
pub mod Context
pub mod Fairness
use tpe_so.Base.{
  ℕ, zero, suc, ◌+◌, ◌%◌, ℤ, pos, minus_one, ◌+ℤ◌, ◌-ℤ◌, ◌==ℤ◌, is_zero, leb_ℤ, false, not, ◌&&◌,
  if◌then◌else◌, Option, none, some, List, [], ◌∷◌, length, get_or, set,
}
use tpe_so.Kernel.State.{running, ready, is_running, is_ready, Process, Kernel, full_slot}
use tpe_so.Kernel.Process.{set_process, awake_process, malloc, load_stack_frame}

-- A pointer into the list, or to the idle process.
pub data ProcRef : Type 0 where
  idle_ref : ProcRef
  node_ref : ℕ → ProcRef

-- The process that a pointer points to; every `node_ref` of the scheduler is inside the list.
unfoldable pub deref : Kernel → ProcRef → Process
deref k idle_ref = k.idle
deref k (node_ref i) = get_or k.ready i k.idle

-- An assignment through a pointer.
unfoldable pub assign : Kernel → ProcRef → Process → Kernel
assign k idle_ref p = record k { idle = p }
assign k (node_ref i) p = record k { ready = set k.ready i p }

-- The body of the loop of `isTimeSlot` for the node at `i`.
unfoldable pub sleep_tick : Kernel → ℕ → Kernel
unfolding assign deref
sleep_tick k i =
    let p = deref k (node_ref i) in
    if is_zero p.sleep
    then k
    else let left = p.sleep -ℤ pos 1 in
      let k1 = assign k (node_ref i) (record p { sleep = left }) in
      if is_zero left then awake_process k1 p.pid else k1

-- The loop, over the `n` nodes from `i` on.
unfoldable pub sleep_walk : ℕ → ℕ → Kernel → Kernel
sleep_walk zero i k = k
sleep_walk (suc n) i k = sleep_walk n (suc i) (sleep_tick k i)

-- `isTimeSlot`: what is left of the slot, 0 when it is over.
unfoldable pub is_time_slot : Kernel → ℤ × Kernel
is_time_slot k =
    let k1 = sleep_walk (length k.ready) 0 k in
    let left = k1.timeslot -ℤ pos 1 in
    if is_zero left
    then (pos 0, record k1 { timeslot = full_slot })
    else (left, record k1 { timeslot = left })

-- `SaveESP`
unfoldable pub save_esp : Kernel → ℤ → Kernel
save_esp k esp =
    let k1 = record k { timeslot = full_slot } in
    let k2 =
      if not k1.first_time && not k1.actual_killed
      then set_process k1 k1.current_pid
          (λ p. record p { esp = esp; state = if is_running p.state then ready else p.state })
      else k1 in
    record k2 { first_time = false; actual_killed = false }

-- `maxAcum`, `maxPriority` and `proc` of `GetNextTask`.
pub record Best : Type 0 where
  pub max_acum : ℤ
  pub max_priority : ℤ
  pub proc : Option ℕ

-- The test of the loop against the best process so far, for the process at `i`.
unfoldable pub consider : Best → ℕ → Process → Best
consider b i p =
    let take : Best = record { max_acum = p.acum; max_priority = p.priority; proc = some i } in
    if leb_ℤ b.max_acum p.acum && is_ready p.state
    then if p.acum ==ℤ b.max_acum then if leb_ℤ b.max_priority p.priority then take else b else take
    else b

-- A ready process gains its priority and one more.
unfoldable pub age : Process → Process
age p = if is_ready p.state then record p { acum = p.acum +ℤ (p.priority +ℤ pos 1) } else p

-- The loop of `GetNextTask`, over the list from the process at `i` on.
unfoldable pub scan : List Process → ℕ → Best → List Process × Best
scan [] i b = ([], b)
scan (p ∷ ps) i b = let (rest, best) = scan ps (suc i) (consider b i p) in (age p ∷ rest, best)

abbrev pub nothing_found : Best
nothing_found = record { max_acum = pos 0; max_priority = minus_one; proc = none }

-- `GetNextTask`
unfoldable pub get_next_task : Kernel → ProcRef × Kernel
unfolding deref assign
get_next_task k =
    let (aged, best) = scan k.ready 0 nothing_found in
    let k1 = record k { ready = aged } in
    elim best.proc [
      | none ↦ (idle_ref, k1)
      | some i ↦
          let p = deref k1 (node_ref i) in
          (node_ref i, assign k1 (node_ref i) (record p { acum = pos 0 }))
    ]

-- `GetNextProcess`
unfoldable pub get_next_process : Kernel → ProcRef × Kernel
unfolding deref assign
get_next_process k =
    let (temp, k1) = get_next_task k in
    let p = record (deref k1 temp) { state = running } in
    let k2 = assign k1 temp p in
    (
      temp,
      record k2 {
        current_pid = p.pid;
        current_process_tty = if is_zero p.pid then k2.current_tty else p.tty;
        last100 = set k2.last100 k2.counter100 p.pid;
        counter100 = (k2.counter100 + 1) % 100;
      },
    )

-- `LoadESP`
unfoldable pub load_esp : Process → ℤ
load_esp p = p.esp

-- `GetNextProcess` and `LoadESP`, as the handler calls them.
unfoldable pub switch_process : Kernel → ℤ × Kernel
unfolding get_next_process load_esp
switch_process k = let (next, k1) = get_next_process k in (load_esp (deref k1 next), k1)

-- `_int_08_hand`: the stack pointer at which the interrupt returns, and the new state. Within the
-- slot the interrupted process goes on, otherwise the next one is loaded.
unfoldable pub int_08_hand : Kernel → ℤ → ℤ × Kernel
unfolding is_time_slot save_esp switch_process
int_08_hand k esp =
    let (left, k1) = is_time_slot k in
    if is_zero left then switch_process (save_esp k1 esp) else (esp, k1)

-- `SetupScheduler`: the idle process and its stack.
unfoldable pub setup_scheduler : Kernel → Kernel
unfolding malloc load_stack_frame
setup_scheduler k =
    let (stack, k1) = malloc k 0x200 in
    let (name, k2) = malloc k1 8 in
    record k2 {
      idle = record k2.idle {
        pid = pos 0;
        foreground = false;
        priority = pos 4;
        state = ready;
        tty = 0;
        stackstart = pos stack;
        stacksize = pos 0x200;
        parent = minus_one;
        waiting_pid = minus_one;
        esp = pos (load_stack_frame (stack + 0x1FF));
      };
    }
