-- ===== src/Shell/History.antt =====
-- The commands that the shell remembers, and the arrow keys that bring them back into the buffer of the
-- keyboard (Chinux/src/shell.c), without what they show on the screen.
use tpe_so.Base.{
  ℕ, zero, suc, ◌+◌, ◌-◌, ◌==◌, ltb, leb, not, Bool, true, ◌&&◌, if◌then◌else◌, Option, none, some,
  [], ◌∷◌, get_or, set,
}
use tpe_so.Text.{Chars, str_len}
use tpe_so.Keyboard.{KeyBuffer, add_char_to_buff, delete_char_from_buff}

abbrev pub sto_max : ℕ
sto_max = 100

-- `storedComm`, the place of the last command and the one selected.
pub record History : Type 0 where
  pub stored : ℕ → Chars
  pub sto_i : ℕ
  pub sel_com : ℕ
  pub arrow_pressed : Bool

-- The loop of `strcopy`, with `n` rounds to go.
unfoldable pub strcopy_from : ℕ → ℕ → Chars → Chars → Chars
strcopy_from zero i copy s = copy
strcopy_from (suc n) i copy s = strcopy_from n (suc i) (set copy i (get_or s i 0)) s

-- `strcopy`
unfoldable pub strcopy : Chars → Chars → ℕ → Chars
strcopy copy s size = set (strcopy_from size 0 copy s) size 0

-- `saveCommand`
unfoldable pub save_command : History → Chars → ℕ → History
save_command h buffcopy buffsize =
    let i = if h.sto_i == sto_max - 1 then 0 else suc h.sto_i in
    if not (get_or buffcopy 0 0 == 0)
    then record h {
      stored = λ j. if i == j then strcopy (h.stored i) buffcopy buffsize else h.stored j;
      sto_i = i;
      sel_com = i + 1;
    }
    else h

unfoldable pub delete_chars : ℕ → KeyBuffer → KeyBuffer
delete_chars zero b = b
delete_chars (suc n) b = delete_chars n (delete_char_from_buff b)

-- The characters of a stored command, typed again.
unfoldable pub add_chars : KeyBuffer → Chars → KeyBuffer
add_chars b [] = b
add_chars b (c ∷ s) = let rest = add_chars (add_char_to_buff b c).1 s in if c == 0 then b else rest

-- The second deletion of the arrow keys: all that the buffer still counts.
unfoldable pub clear_line : KeyBuffer → KeyBuffer
clear_line b = if not (b.size == 0) then delete_chars b.size b else b

-- The command of which `showLastCommand` deletes as many characters as it has.
unfoldable pub measured : History → ℕ
measured h = if h.sel_com == sto_max - 1 then 0 else h.sel_com

-- Both deletions of `showLastCommand`.
unfoldable pub clear_last : History → KeyBuffer → KeyBuffer
clear_last h b =
    clear_line (if h.arrow_pressed then delete_chars (str_len (h.stored (measured h))) b else b)

-- `showLastCommand`. `none`: a command behind the last row would be measured.
unfoldable pub show_last_command : History → Bool → KeyBuffer → Option (History × KeyBuffer)
show_last_command h usr_loged b =
    let sel_com = h.sel_com - 1 in
    if ltb 0 h.sel_com && usr_loged
    then (if h.arrow_pressed && leb sto_max (measured h)
        then none
        else some (
          record h { sel_com = sel_com; arrow_pressed = true },
          add_chars (clear_last h b) (h.stored sel_com),
        ))
    else some (record h { arrow_pressed = true }, b)

-- The deletions of `showPreviousCommand`: both only after an arrow key.
unfoldable pub clear_previous : History → KeyBuffer → KeyBuffer
clear_previous h b =
    if h.arrow_pressed then clear_line (delete_chars (str_len (h.stored h.sel_com)) b) else b

-- `showPreviousCommand`
unfoldable pub show_previous_command : History → Bool → KeyBuffer → Option (History × KeyBuffer)
show_previous_command h usr_loged b =
    let next = suc h.sel_com in
    let cleared = clear_previous h b in
    let row = h.stored next in
    if ltb h.sel_com (h.sto_i + 1) && usr_loged
    then (if h.arrow_pressed && leb sto_max h.sel_com
        then none
        else some (
          record h { sel_com = next; arrow_pressed = true },
          if ltb next sto_max && not (get_or row 0 0 == 0) then add_chars cleared row else cleared,
        ))
    else some (record h { arrow_pressed = true }, b)
