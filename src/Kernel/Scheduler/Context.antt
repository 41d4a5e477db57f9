-- ===== src/Kernel/Scheduler/Context.antt =====
-- What a context switch does with the stack pointers.
use mathlib.Core.Path.{ap₂}
use tpe_so.Base.{
  ℕ, zero, suc, ℤ, pos, ◌==ℤ◌, ==ℤ_iff, is_zero, ◌≡◌, refl, sym, ap, ◌∙◌, ◌≢◌, true, false,
  Bool-cases, if◌then◌else◌, some, Option-cases, some_inj, List, [], ◌∷◌, map, inl, inr, arith,
}
use tpe_so.Kernel.State.{ready, is_running, Process, Kernel}
use tpe_so.Kernel.Process.{find_pid, update_pid}
use tpe_so.Kernel.Table.{pids, set_process-ready}
use tpe_so.Kernel.Scheduler.{age, scan, nothing_found, save_esp, get_next_process, switch_process}
use tpe_so.Kernel.Scheduler.Elect.{elect, get_next_process-some, get_next_process-none}

-- Each process with its saved stack pointer.
abbrev contexts : List Process → List (ℤ × ℤ)
contexts = map (λ p. (p.pid, p.esp))

context-age : (p : Process) → ◌≡◌ {A = ℤ × ℤ} ((age p).pid, (age p).esp) (p.pid, p.esp)
unfolding age
context-age p = ground arith

contexts-age : (ps : List Process) → contexts (map age ps) ≡ contexts ps
contexts-age [] = refl
contexts-age (p ∷ ps) = ap₂ ◌∷◌ (context-age p) (contexts-age ps)

contexts-elect : (ps : List Process) (c : ℕ) → contexts (elect ps c) ≡ contexts ps
unfolding elect
contexts-elect [] c = refl
contexts-elect (p ∷ ps) zero = ap₂ ◌∷◌ refl (contexts-age ps)
contexts-elect (p ∷ ps) (suc c) = ap₂ ◌∷◌ (context-age p) (contexts-elect ps c)

-- The process of a pid has the same stack pointer in lists with the same contexts.
find-contexts :
    (ps qs : List Process) (pid : ℤ) (p : Process)
    → contexts ps ≡ contexts qs
    → find_pid ps pid ≡ some p
    → (q : Process) × (find_pid qs pid ≡ some q) × (q.esp ≡ p.esp)
unfolding find_pid
find-contexts [] qs pid p e f = cc
find-contexts (x ∷ xs) [] pid p e f = cc
find-contexts (x ∷ xs) (y ∷ ys) pid p e f =
    let same : ◌≡◌ {A = ℤ × ℤ} (x.pid, x.esp) (y.pid, y.esp) = cc in
    let rest : contexts xs ≡ contexts ys = cc in
    let same_pid : x.pid ≡ y.pid = ap (λ (z : ℤ × ℤ). z.0) same in
    let same_esp : x.esp ≡ y.esp = ap (λ (z : ℤ × ℤ). z.1) same in
    elim (Bool-cases (y.pid ==ℤ pid)) [
      | inl h ↦
          let hx : (x.pid ==ℤ pid) ≡ true = ap (λ z. z ==ℤ pid) same_pid ∙ h in
          let here : x ≡ p = some_inj (rw hx at f) in
          rw h (y, refl, sym same_esp ∙ ap (λ (z : Process). z.esp) here)
      | inr h ↦
          let hx : (x.pid ==ℤ pid) ≡ false = ap (λ z. z ==ℤ pid) same_pid ∙ h in
          rw h (find-contexts xs ys pid p rest (rw hx at f))
    ]

-- The process of a pid after an assignment to it that keeps the pid.
find-update_pid :
    (ps : List Process) (pid : ℤ) (f : Process → Process) (p : Process)
    → ((q : Process) → (f q).pid ≡ q.pid)
    → find_pid ps pid ≡ some p
    → find_pid (update_pid ps pid f) pid ≡ some (f p)
unfolding find_pid update_pid
find-update_pid [] pid f p s e = cc
find-update_pid (x ∷ xs) pid f p s e = elim (Bool-cases (x.pid ==ℤ pid)) [
  | inl h ↦
      let here : x ≡ p = some_inj (rw h at e) in
      let hf : ((f x).pid ==ℤ pid) ≡ true = ap (λ z. z ==ℤ pid) (s x) ∙ h in
      rw (h, hf) (ap (λ z. some (f z)) here)
  | inr h ↦ rw (h, h) (find-update_pid xs pid f p s (rw h at e))
]

-- A pid that is in the list is found in every list with the same pids.
pub find-pids :
    (ps qs : List Process) (pid : ℤ) (p : Process)
    → pids ps ≡ pids qs
    → find_pid ps pid ≡ some p
    → (q : Process) × (find_pid qs pid ≡ some q)
unfolding find_pid
find-pids [] qs pid p e f = cc
find-pids (x ∷ xs) [] pid p e f = cc
find-pids (x ∷ xs) (y ∷ ys) pid p e f =
    let same : x.pid ≡ y.pid = cc in
    let rest : pids xs ≡ pids ys = cc in
    elim (Bool-cases (y.pid ==ℤ pid)) [
      | inl h ↦ rw h (y, refl)
      | inr h ↦ rw h (find-pids xs ys pid p rest (rw (same, h) at f))
    ]

-- Between `SaveESP` and `GetNextProcess`: the interrupted process holds its stack pointer.
abbrev saved : ℤ → Process → Process
saved esp p = record p { esp = esp; state = if is_running p.state then ready else p.state }

save_esp-find :
    (k : Kernel) (esp : ℤ) (p : Process)
    → k.first_time ≡ false
    → k.actual_killed ≡ false
    → k.current_pid ≢ pos 0
    → find_pid k.ready k.current_pid ≡ some p
    → find_pid (save_esp k esp).ready k.current_pid ≡ some (saved esp p)
unfolding save_esp
save_esp-find k esp p a b z e = elim (Bool-cases (is_zero k.current_pid)) [
  | inl h ↦ absurd (z ((==ℤ_iff k.current_pid (pos 0)).0 h))
  | inr h ↦
      rw (a, b)
        (rw (set_process-ready _ k.current_pid (saved esp), h)
          (find-update_pid k.ready k.current_pid (saved esp) p (λ q. refl) e))
]

contexts-get_next_process : (k : Kernel) → contexts (get_next_process k).1.ready ≡ contexts k.ready
contexts-get_next_process k = elim (Option-cases (scan k.ready 0 nothing_found).1.proc) [
  | inl e ↦ let i = get_next_process-none k e in ap contexts i.aged ∙ contexts-age k.ready
  | inr (c, e) ↦
      let i = get_next_process-some k c e in ap contexts i.elected ∙ contexts-elect k.ready c
]

pub switch-saves :
    (k : Kernel) (esp : ℤ) (p : Process)
    → k.first_time ≡ false
    → k.actual_killed ≡ false
    → k.current_pid ≢ pos 0
    → find_pid k.ready k.current_pid ≡ some p
    → (q : Process) × (find_pid (switch_process (save_esp k esp)).1.ready k.current_pid ≡ some q)
      × (q.esp ≡ esp)
unfolding switch_process
switch-saves k esp p a b z e =
    find-contexts (save_esp k esp).ready (get_next_process (save_esp k esp)).1.ready k.current_pid
      (saved esp p) (sym (contexts-get_next_process (save_esp k esp)))
      (save_esp-find k esp p a b z e)
