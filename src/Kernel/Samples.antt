-- ===== src/Kernel/Samples.antt =====
-- Small kernels, for the tests.
use tpe_so.Base.{ℤ, pos, minus_one, refl, true, false, inl, inr, [], ◌∷◌, replicate, arith}
use tpe_so.Kernel.State.{running, ready, Process, SemItem, Kernel, full_slot}
use tpe_so.Kernel.Process.{CreateProcessParam}
use tpe_so.Kernel.Scheduler.Calm.{IsCalm}
use tpe_so.Kernel.Semaphore.{no_sem}
use tpe_so.Kernel.Invariant.{WellFormed}

-- A process of kernel stack `0`.
abbrev pub plain : ℤ → ℤ → ℤ → Process
plain pid priority acum = record {
  state = ready;
  pid = pid;
  priority = priority;
  tty = 0;
  foreground = true;
  parent = pos 0;
  esp = pos 0;
  stackstart = pos 0;
  stacksize = pos 0;
  waiting_pid = pos 0;
  sleep = pos 0;
  acum = acum;
}

abbrev pub idle_process : Process
idle_process = record (plain (pos 0) (pos 4) (pos 0)) {
  foreground = false;
  parent = minus_one;
  waiting_pid = minus_one;
}

-- Process 1 runs, process 2 is ready.
abbrev pub two : Kernel
two = record {
  ready =
      record (plain (pos 1) (pos 2) (pos 0)) { state = running }
      ∷ plain (pos 2) (pos 0) (pos 1)
      ∷ [];
  idle = idle_process;
  next_pid = pos 3;
  current_pid = pos 1;
  current_tty = 0;
  current_process_tty = 0;
  timeslot = full_slot;
  first_time = false;
  actual_killed = false;
  last100 = replicate 100 (pos 0);
  counter100 = 0;
  next_free = 0x300000;
  semaphore_table = replicate 20 no_sem;
  sem_count = 0;
  terminal_pids = [];
  usr_loged = false;
  log_pid = pos 1;
  logout_pid = minus_one;
}

pub two-IsCalm : IsCalm two
two-IsCalm = record {
  started = refl;
  unkilled = refl;
  active = (inr (refl, refl), (inl refl, tt));
  named = ground arith;
  distinct = ground arith;
  counted = omega arith;
}

pub two-WellFormed : WellFormed two
two-WellFormed = record {
  family = ground arith;
  idle_pid = refl;
  next_pos = omega arith;
  current_old = omega arith;
  single = ((λ h. refl), ((λ h. cc), tt));
  gone = λ h. ground arith;
}

abbrev pub child : CreateProcessParam
child = record { tty = 1; stacklength = 1024; priority = pos 2; is_front = true }

abbrev pub one_unit : SemItem
one_unit = record { key = pos 0; value = pos 1; blocked_proc_pid = pos 0; status = pos 0 }

-- The same processes at the end of the slot.
abbrev pub two_over : Kernel
two_over = record two { timeslot = pos 1 }

pub two_over-WellFormed : WellFormed two_over
two_over-WellFormed = record {
  family = ground arith;
  idle_pid = refl;
  next_pos = omega arith;
  current_old = omega arith;
  single = ((λ h. refl), ((λ h. cc), tt));
  gone = λ h. ground arith;
}

-- Process 1 runs, 2 is its child and 3 is the child of 2.
abbrev pub three : Kernel
three = record two {
  ready =
      record (plain (pos 1) (pos 2) (pos 0)) { state = running }
      ∷ record (plain (pos 2) (pos 0) (pos 1)) { parent = pos 1 }
      ∷ record (plain (pos 3) (pos 0) (pos 1)) { parent = pos 2 }
      ∷ [];
  next_pid = pos 4;
  log_pid = minus_one;
}

pub three-WellFormed : WellFormed three
three-WellFormed = record {
  family = ground arith;
  idle_pid = refl;
  next_pos = omega arith;
  current_old = omega arith;
  single = ((λ h. refl), ((λ h. cc), ((λ h. cc), tt)));
  gone = λ h. ground arith;
}
