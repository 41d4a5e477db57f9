-- ===== src/Kernel/Fifo/Tests.antt =====
-- A table with two fifos.
use tpe_so.Base.{pos, ◌≡◌, ◌≢◌, refl, false, some, [], ◌∷◌, arith}
use tpe_so.Kernel.Fifo.{no_fifo, Fifos, find_new_fifo_fd, delete_fifo_fd}
use tpe_so.Kernel.Fifo.Table.{delete_all, delete_fifo_fd_keeps}

abbrev two_fifos : Fifos
two_fifos = record {
  table =
      record { fd = pos 0; curr_size = pos 0; sem_key = pos 4 }
      ∷ record { fd = pos 1; curr_size = pos 7; sem_key = pos 5 }
      ∷ no_fifo
      ∷ [];
  count = 2;
}

delete_fifo_fd_keeps_example :
    let f' = delete_all two_fifos (1 ∷ 0 ∷ []) in
    (delete_fifo_fd f' 1 ≡ (false, f')) × (find_new_fifo_fd f' ≢ some 1)
delete_fifo_fd_keeps_example = delete_fifo_fd_keeps two_fifos (1 ∷ 0 ∷ []) 1 (omega arith) refl
