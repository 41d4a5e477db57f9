-- ===== src/Screen.antt =====
-- The text screens of the four terminals (Chinux/src/video.c, Chinux/src/stdio.c): 25 rows of 80 cells,
-- a cell being a character and its attribute. A terminal's own memory holds its text while another
-- one is shown; the one that is shown stands in the video memory.
pub mod Scroll
pub mod Tape
pub mod Output
pub mod Write
pub mod Print
pub mod Plain
pub mod Change
pub mod Erase
pub mod Tests
use tpe_so.Base.{
  ℕ, zero, suc, ◌+◌, ◌-◌, ◌*◌, ◌%◌, ◌==◌, ltb, Bool, true, false, if◌then◌else◌, Option, none, some,
  List, [], ◌∷◌,
}
use tpe_so.FileSystem.Memory.{Mem, copy}

abbrev pub white_txt : ℕ
white_txt = 7

abbrev pub blank : ℕ
blank = 32

-- 80 * 25 * 2 and 80 * 24 * 2
abbrev pub screen_size : ℕ
screen_size = 4000

abbrev pub last_row : ℕ
last_row = 3840

-- `TTY`, less its keyboard buffer and the pid of its shell.
pub record Terminal : Type 0 where
  pub terminal : Mem
  pub curpos : ℕ

-- `currentTTY` is the terminal that is shown, `currentProcessTTY` the one of the running process;
-- `keypressed` is set while a typed character is echoed.
pub record Screen : Type 0 where
  pub vidmem : Mem
  pub terminals : ℕ → Terminal
  pub current_tty : ℕ
  pub current_process_tty : ℕ
  pub keypressed : Bool

unfoldable pub write_byte : Mem → ℕ → ℕ → Mem
write_byte m a v x = if a == x then v else m x

-- A character and the attribute behind it.
unfoldable pub write_cell : Mem → ℕ → ℕ → Mem
write_cell m a c = write_byte (write_byte m a c) (a + 1) white_txt

unfoldable pub set_terminal : Screen → ℕ → Terminal → Screen
set_terminal sc t terminal = record sc {
  terminals = λ u. if t == u then terminal else sc.terminals u;
}

unfoldable pub process_terminal : Screen → Terminal
process_terminal sc = sc.terminals sc.current_process_tty

-- Statements that come in pairs: on the terminal's memory, and, where the process's terminal is the one
-- that is shown, on the video memory.
unfoldable pub on_both : Screen → (Mem → Mem) → ℕ → Screen
on_both sc f curpos =
    set_terminal
      (record sc {
        vidmem = if sc.current_process_tty == sc.current_tty then f sc.vidmem else sc.vidmem;
      })
      sc.current_process_tty
      (record { terminal = f (process_terminal sc).terminal; curpos = curpos })

-- `n` rounds of the first loop of `scrolldown`, from position `i` on.
unfoldable pub rows_up : ℕ → ℕ → Mem → Mem
rows_up zero i m = m
rows_up (suc n) i m = rows_up n (i + 2) (write_cell m i (m (i + 160)))

-- `n` rounds of its second loop, and of the one of `k_clear_screen`.
unfoldable pub blanks : ℕ → ℕ → Mem → Mem
blanks zero i m = m
blanks (suc n) i m = blanks n (i + 2) (write_cell m i blank)

-- Both loops of `scrolldown`.
unfoldable pub row_up : Mem → Mem
row_up m = blanks 80 last_row (rows_up 1920 0 m)

unfoldable pub scrolldown : Screen → Screen
scrolldown sc = on_both sc row_up last_row

unfoldable pub k_clear_screen : Screen → Screen
k_clear_screen sc = on_both sc (blanks 2000 0) 0

-- What `writeScreen` does first for a terminal whose last place is filled.
unfoldable pub scroll_if_full : Screen → ℕ → Screen
scroll_if_full sc t = if (sc.terminals t).curpos == screen_size then scrolldown sc else sc

-- A character of terminal `t` in the video memory only.
unfoldable pub echo : Screen → ℕ → ℕ → Screen
echo sc t c =
    let x = sc.terminals t in
    set_terminal (record sc { vidmem = write_cell sc.vidmem x.curpos c }) t
      (record x { curpos = x.curpos + 2 })

-- The echo of a typed character.
unfoldable pub write_key : Screen → ℕ → Screen
write_key sc c = let t = sc.current_tty in echo (scroll_if_full sc t) t c

-- A character that a process writes.
unfoldable pub write_char : Screen → ℕ → Screen
write_char sc c =
    let sc1 = scroll_if_full sc sc.current_process_tty in
    let curpos = (process_terminal sc1).curpos in
    on_both sc1 (λ m. write_cell m curpos c) (curpos + 2)

-- `writeScreen`
unfoldable pub write_screen : Screen → List ℕ → Screen
write_screen sc [] = sc
write_screen sc (c ∷ buffer) =
    write_screen (if sc.keypressed then write_key sc c else write_char sc c) buffer

-- The loop of `eraseScreen`. `none` where it would write in front of the memory.
unfoldable pub erase_chars : Screen → List ℕ → Option Screen
erase_chars sc [] = some sc
erase_chars sc (c ∷ buffer) =
    let shown = sc.terminals sc.current_tty in
    let p = shown.curpos - 2 in
    let rest =
      erase_chars
        (set_terminal (record sc { vidmem = write_byte sc.vidmem p c }) sc.current_tty
          (record { terminal = write_byte shown.terminal p c; curpos = p }))
        buffer in
    if ltb shown.curpos 2 then none else rest

-- `eraseScreen`
unfoldable pub erase_screen : Screen → List ℕ → Option Screen
erase_screen sc buffer =
    if ltb 0 (sc.terminals sc.current_tty).curpos then erase_chars sc buffer else some sc

-- `enter`
unfoldable pub enter : Screen → Screen
enter sc =
    let t = process_terminal sc in
    if ltb last_row t.curpos
    then scrolldown sc
    else set_terminal sc sc.current_process_tty
        (record t { curpos = t.curpos + (160 - t.curpos % 160) })

-- `putc`, less the moving of the hardware's cursor.
unfoldable pub putc : Screen → ℕ → Screen
putc sc c =
    if c == 10
    then enter sc
    else if c == 9
    then write_screen sc (blank ∷ blank ∷ blank ∷ blank ∷ blank ∷ blank ∷ blank ∷ blank ∷ [])
    else write_screen sc (c ∷ [])

-- The loop of `printstr`: the screen after the string, and the count of its characters.
unfoldable pub printstr : Screen → List ℕ → Screen × ℕ
printstr sc [] = (sc, 0)
printstr sc (c ∷ s) =
    let (sc', n) = printstr (putc sc c) s in if c == 0 then (sc, 0) else (sc', suc n)

-- The change of terminal by a key (in `int_09`): the video memory is put away, the memory of the next
-- terminal is shown.
unfoldable pub switch_tty : Screen → ℕ → Screen
switch_tty sc next_tty =
    let shown = sc.terminals sc.current_tty in
    let sc1 =
      set_terminal sc sc.current_tty
        (record shown { terminal = copy shown.terminal 0 sc.vidmem 0 screen_size }) in
    record sc1 {
      vidmem = copy sc1.vidmem 0 (sc1.terminals next_tty).terminal 0 screen_size;
      current_tty = next_tty;
    }
