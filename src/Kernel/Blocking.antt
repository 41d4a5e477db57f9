-- ===== src/Kernel/Blocking.antt =====
-- The calls that give the processor up (Chinux/src/kernel.c). Each ends in `_yield`, the int 8 of
-- Chinux/src/libasm.asm, so its result is the handler's: the stack pointer that is loaded, and the
-- state. `esp` is the stack pointer at that interrupt; the caller goes on when it is loaded again.
use tpe_so.Base.{ℤ, pos, ◌*ℤ◌}
use tpe_so.Kernel.State.{Kernel}
use tpe_so.Kernel.Process.{update_pid, to_blocked, set_process}
use tpe_so.Kernel.Scheduler.{int_08_hand}

-- `block_process_in_kernel` before its `_yield`: the slot is cut short, and the first node with this
-- pid, if there is one, is blocked.
unfoldable pub mark_blocked : Kernel → ℤ → Kernel
mark_blocked k pid = record k { timeslot = pos 1; ready = update_pid k.ready pid to_blocked }

-- `block_process_in_kernel`
unfoldable pub block_process_in_kernel : Kernel → ℤ → ℤ → ℤ × Kernel
unfolding mark_blocked
block_process_in_kernel k pid esp = int_08_hand (mark_blocked k pid) esp

-- `waitpid_in_kernel`
unfoldable pub waitpid_in_kernel : Kernel → ℤ → ℤ → ℤ × Kernel
waitpid_in_kernel k pid esp =
    block_process_in_kernel (set_process k k.current_pid (λ p. record p { waiting_pid = pid }))
      k.current_pid esp

-- `sleep`
unfoldable pub sleep_secs : Kernel → ℤ → ℤ → ℤ × Kernel
sleep_secs k secs esp =
    block_process_in_kernel (set_process k k.current_pid (λ p. record p { sleep = pos 18 *ℤ secs }))
      k.current_pid esp
