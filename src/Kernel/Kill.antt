-- ===== src/Kernel/Kill.antt =====
-- `kill_in_kernel` (Chinux/src/kernel.c): a process and its descendants leave the list.
use tpe_so.Base.{
  ℕ, zero, suc, pos_part, ℤ, ◌==ℤ◌, is_zero, Bool, true, false, ◌&&◌, ◌||◌, if◌then◌else◌, none,
  some, List, [], ◌∷◌,
}
use tpe_so.Kernel.State.{Process, Kernel}
use tpe_so.Kernel.Process.{find_pid, unlink, get_process_by_pid, release_parent, forget_last100}

-- Whether a terminal's shell has this pid.
unfoldable pub is_terminal : List ℤ → ℤ → Bool
is_terminal [] pid = false
is_terminal (t ∷ ts) pid = pid ==ℤ t || is_terminal ts pid

-- The two early returns: the shells of a logged user, the idle process, logout and login.
unfoldable pub is_protected : Kernel → ℤ → Bool
unfolding is_terminal
is_protected k pid =
    (is_terminal k.terminal_pids pid && k.usr_loged)
    || (is_zero pid || (pid ==ℤ k.logout_pid || pid ==ℤ k.log_pid))

-- `aux` never points to an unlinked node: a node that leaves keeps its `next`.
unfoldable pub is_linked : Kernel → ℤ → Bool
unfolding find_pid
is_linked k pid = elim (find_pid k.ready pid) [ none ↦ false | some p ↦ true ]

-- The loop over the children, on the nodes that the list had when it began. `kill` is the call of
-- int 79h, by which the code reaches itself again.
unfoldable pub kill_children : (Kernel → ℤ → Kernel) → ℤ → List Process → Kernel → Kernel
unfolding is_linked
kill_children kill pid [] k = k
kill_children kill pid (p ∷ ps) k =
    kill_children kill pid ps (if p.parent ==ℤ pid && is_linked k p.pid then kill k p.pid else k)

-- Before the loop: who runs is marked, and a waiting parent goes on.
unfoldable pub kill_begin : Kernel → ℤ → Kernel
unfolding release_parent
kill_begin k pid =
    let k1 = if pid ==ℤ k.current_pid then record k { actual_killed = true } else k in
    let proc = get_process_by_pid k1 pid in if proc.foreground then release_parent k1 proc else k1

-- After it: the process itself. `proc_pid` is `proc->pid`, read before.
unfoldable pub kill_end : Kernel → ℤ → ℤ → Kernel
unfolding forget_last100
kill_end k pid proc_pid = record k {
  ready = unlink k.ready pid;
  last100 = forget_last100 proc_pid k.last100;
}

-- `kill_in_kernel`, its recursion on fuel.
unfoldable pub kill_fuel : ℕ → Kernel → ℤ → Kernel
kill_fuel zero k pid = k
kill_fuel (suc fuel) k pid =
    let k1 = kill_begin k pid in
    let killed =
      kill_end (kill_children (kill_fuel fuel) pid k1.ready k1) pid
        (get_process_by_pid k pid).pid in
    if is_protected k pid then k else killed

-- One level for each pid that was ever handed out, and one more.
unfoldable pub kill_in_kernel : Kernel → ℤ → Kernel
unfolding kill_fuel
kill_in_kernel k pid = kill_fuel (suc (pos_part k.next_pid)) k pid
