-- ===== src/Lib.antt =====
-- The kernel Chinux (Chinux/): its processes, scheduler, semaphores, file system,
-- terminals and users.
--
-- The kernel keeps the processes in the linked list `ready`. The timer's interrupt (Chinux/src/
-- libasm.asm) counts a time slot, and at its end asks the scheduler (Chinux/src/scheduler2.c) for
-- the next process. Calls reach the kernel by int 79h (Chinux/src/kernel.c): they create, block and
-- kill processes and work on semaphores. Blocking ends the slot, so it runs the same handler.
--
-- Base: numbers, lists, tests and bits.
-- Kernel/State: the globals of kernel.c and scheduler2.c as one record, passed on from call to call.
-- Kernel/Process, Kernel/Blocking, Kernel/Kill: `GetProcessByPID`, `CreateProcessAt`,
--   `end_process`, `awake_process`, `block_process`, `waitpid`, `sleep` and `kill`.
-- Kernel/Scheduler: `isTimeSlot`, `SaveESP`, `GetNextTask`, `GetNextProcess`, `LoadESP` and the
--   handler of int 8. Kernel/RoundRobin: `GetNextTask` of Chinux/src/scheduler.c, the scheduler that
--   the build leaves out.
-- Kernel/Semaphore: the table of semaphores and the calls on it.
-- Kernel/Fifo: the table of fifos.
-- Kernel/Invariant, Kernel/ContextSwitch, Kernel/Protection: the process list as a whole.
-- FileSystem (Chinux/fileSystem/newFs.c): Bitmap, the bit maps of blocks and inodes; Alloc,
--   `search_free_inode`, `search_free_blocks` and `free_used_blocks`; Descriptors, the table of open
--   files; Memory, the disk and the buffers as bytes at addresses; State, the globals and the inode;
--   InodeTable, `fs_get_inode` and `fs_insert_inode`; Directory, `search_directory` and the entries;
--   Create, `fs_creat_inode`, `insert_file`, `do_creat` and the like; Files, `write_inode`, `read_inode`,
--   `do_open`, `do_read`, `do_write` and the commands over them; Path, `parser_path`; Tree, `cd_in_kernel`,
--   `makeDir` and `ls`; Remove, `rmDir` and `recursive_remove`; Links, `links` and `link_in_kernel`.
--   The tests stand in Tests, TreeTests, FileTests and LinkTests, with the small disk of Sample.
-- Text (Chinux/src/utils.c): strings in memory; Text/Decimal, `itoa`, `ltoa` and `scanfi`.
-- Keyboard (Chinux/src/keyboard.c): the buffer of typed characters, `readKeyboard` and the clearing of
--   the buffer (Chinux/src/kernel.c); Codes, the scan codes and the keys that modify others.
-- Screen (Chinux/src/video.c, Chinux/src/stdio.c): the memories of the four terminals and of the screen,
--   `writeScreen`, `scrolldown`, `enter`, `eraseScreen`, `putc`, `printstr`, and the change of terminal.
--   Screen/Tape is the abstract view: one long tape on which a terminal is a window.
-- Console (Chinux/src/keyboard.c): `int_09` for the keys of a line, over the buffer and the screen.
-- Shell (Chinux/src/shell.c): Splitting, `splitbuffer`; History, `saveCommand` and the arrow keys, over the
--   keyboard's buffer.
-- Users (Chinux/src/kernel.c): the login, `logUser`, and `createusr`, on the table of users.
--
-- An operation takes the state and returns the new one. A call that gives up the processor takes the
-- stack pointer at which it does, and returns the one at which the machine goes on; what the caller
-- does when it is loaded again is an operation of its own (`down_take`), and so is the `nextPID++` with
-- which `CreateProcessAt` ends after its call (`take_pid`). A `PROCESS *` is the node
-- that its pid finds. An `int` of the code is an integer without bound where it counts or names
-- (pids, priorities, accumulated priorities, stack pointers), and 32 bits in `itoa`.
-- `kill` calls itself for the children of a process, on fuel: one level for each pid up to
-- `nextPID`, and one more. A child is younger than its parent, so no line of descent is longer.
-- The file system's calls go from state to state, and end in `fault` where C leaves undefined what
-- happens: a null pointer that is read, memory that is not the program's. `parser_path` runs on fuel,
-- since it need not end; for plain paths as many rounds as the path has characters are enough.
-- `recursive_remove` runs on fuel for the depth of the tree. An `int` on disk is its 32 bits; the sectors of
-- the bit map are a list of their own (`stored`), and the rest of the disk a function of addresses.
-- What `malloc` hands out is a parameter where the code reads it. The table of open files has the 8 entries
-- for which kernel.c allocates memory; what lies behind is read as it stands, and written to is a `fault`.
-- The loops over the maps and the tables are recursion on the number of places that are left.
-- The loops over a terminal's memory write the video memory as well when the terminal is shown; the
-- two memories are apart, so the model makes each loop on one and then on the other.
--
-- Left out: `init_filesystem` and `load_filesystem`, what goes through fifos, the file in which the
-- users stand, the choice of a command in the shell, `printf` and `scanf`, numbers with a point,
-- interrupts within a handler and the flag that allows them, the ports of the screen, the contents of stacks, the disk driver, boot
-- code, and the copies of other kernels (mtask2/, tpesoGuia/).
pub mod Base
pub mod Kernel
pub mod FileSystem
pub mod Text
pub mod Keyboard
pub mod Screen
pub mod Shell
pub mod Users
pub mod Console
