-- ===== src/Shell/Saving.antt =====
-- A command that is saved is the one that the up arrow brings back.
use tpe_so.Base.{
  ℕ, zero, suc, ◌+◌, ◌-◌, ◌≤◌, ◌<◌, ◌==◌, ==_iff, true, false, ◌≡◌, ◌≢◌, refl, sym, ap, ◌∙◌,
  if◌then◌else◌, some, List, [], ◌∷◌, ◌++◌, All, length, length-set, get_or, get_or-set_self,
  get_or-set_ne, set, ℕ_discrete, arith,
}
use tpe_so.Text.{Chars}
use tpe_so.Text.Compare.{text}
use tpe_so.Text.Decimal.RoundTrip.{get_or-append_left}
use tpe_so.Keyboard.{buffer_size, KeyBuffer, read_keyboard}
use tpe_so.Keyboard.Typed.{Unread}
use tpe_so.Shell.History.{sto_max, History, strcopy_from, strcopy, save_command, show_last_command}
use tpe_so.Shell.Recall.{show_last_command_lem}

pub length-strcopy_from :
    (n i : ℕ) (copy s : Chars) → length (strcopy_from n i copy s) ≡ length copy
unfolding strcopy_from
length-strcopy_from zero i copy s = refl
length-strcopy_from (suc n) i copy s =
    length-strcopy_from n (suc i) (set copy i (get_or s i 0)) s ∙ length-set copy i (get_or s i 0)

-- The rounds leave what stands before their first place.
strcopy_from-before :
    (n i k : ℕ) (copy s : Chars) → k < i → get_or (strcopy_from n i copy s) k 0 ≡ get_or copy k 0
unfolding strcopy_from
strcopy_from-before zero i k copy s l = refl
strcopy_from-before (suc n) i k copy s l =
    strcopy_from-before n (suc i) k (set copy i (get_or s i 0)) s (omega arith)
    ∙ get_or-set_ne copy (get_or s i 0) 0 (λ e. omega arith)

pub strcopy_from-copied :
    (n i k : ℕ) (copy s : Chars)
    → i ≤ k
    → k < i + n
    → i + n ≤ length copy
    → get_or (strcopy_from n i copy s) k 0 ≡ get_or s k 0
unfolding strcopy_from
strcopy_from-copied zero i k copy s p l m = absurd (omega arith)
strcopy_from-copied (suc n) i k copy s p l m = elim (ℕ_discrete i k) [
  | yes e ↦
      strcopy_from-before n (suc i) k (set copy i (get_or s i 0)) s (omega arith)
      ∙ rw (← e) (get_or-set_self copy i (get_or s i 0) 0 (omega arith))
  | no d ↦
      strcopy_from-copied n (suc i) k (set copy i (get_or s i 0)) s (omega arith) (omega arith)
        (rw (length-set copy i (get_or s i 0)) (omega arith))
]

-- Characters that are not 0, and a 0 behind them.
pub text_unique :
    (t s : List ℕ)
    → All (λ c. c ≢ 0) s
    → ((k : ℕ) → k < length s → get_or t k 0 ≡ get_or s k 0)
    → get_or t (length s) 0 ≡ 0
    → text t ≡ s
text_unique [] [] h at e = refl
text_unique [] (c ∷ s) h at e = absurd (h.0 (sym (at 0 (omega arith))))
text_unique (d ∷ t) [] h at e = let stop : (d == 0) ≡ true = ground (arith, e) in rw stop refl
text_unique (d ∷ t) (c ∷ s) h at e =
    let same : d ≡ c = at 0 (omega arith) in
    let n = h.0 in
    let more : (d == 0) ≡ false = ground (arith, same, n) in
    rw more (
      ap (λ u. d ∷ u) (text_unique t s h.1 (λ k l. at (suc k) (omega arith)) e)
      ∙ ap (λ x. x ∷ s) same)

-- A string copied into a row that has room for it and its final 0.
text-strcopy :
    (copy s rest : List ℕ)
    → All (λ c. c ≢ 0) s
    → length s < length copy
    → text (strcopy copy (s ++ rest) (length s)) ≡ s
unfolding strcopy
text-strcopy copy s rest h l =
    let n = length s in
    let c = strcopy_from n 0 copy (s ++ rest) in
    let room : n < length c = rw (length-strcopy_from n 0 copy (s ++ rest)) l in
    text_unique (set c n 0) s h
      (λ k lt.
        get_or-set_ne c 0 0 (λ e. omega arith)
        ∙ strcopy_from-copied n 0 k copy (s ++ rest) (omega arith) (omega arith) (omega arith)
        ∙ get_or-append_left s rest k lt)
      (get_or-set_self c n 0 0 room)

-- The place of the next command.
abbrev next_place : History → ℕ
next_place h = if h.sto_i == sto_max - 1 then 0 else suc h.sto_i

-- What is saved.
saved_lem :
    (h : History) (s rest : List ℕ)
    → All (λ c. c ≢ 0) s
    → 0 < length s
    → length s ≤ buffer_size
    → length (h.stored (next_place h)) ≡ buffer_size + 1
    → let saved = save_command h (s ++ rest) (length s) in
      (saved.sel_com ≡ suc (next_place h)) × (text (saved.stored (next_place h)) ≡ s)
unfolding save_command
saved_lem h [] rest plain p fits row = absurd (omega arith)
saved_lem h (c ∷ s) rest plain p fits row =
    let i = next_place h in
    let n = plain.0 in
    let more : (c == 0) ≡ false = ground (arith, n) in
    let copied = strcopy (h.stored i) (c ∷ s ++ rest) (suc (length s)) in
    rw more (
      omega arith,
      ap (λ b. text (if b then copied else h.stored i)) ((==_iff i i).1 refl)
          ∙ text-strcopy (h.stored i) (c ∷ s) rest plain (omega arith),
    )

-- A command of at most 256 characters that has been run is what the shell reads after the up arrow,
-- whatever is typed before it. Its row has 257 places and is not the last one, from which the next
-- deletion would read on.
pub show_last_command-save_command :
    (h : History) (b : KeyBuffer) (s rest : List ℕ)
    → Unread b
    → All (λ c. c ≢ 0) s
    → 0 < length s
    → length s ≤ buffer_size
    → ((i : ℕ) → length (h.stored i) ≡ buffer_size + 1)
    → h.sto_i < sto_max
    → h.sto_i ≢ sto_max - 2
    → (h' : History) × (b' : KeyBuffer) × (show_last_command
          (save_command h (s ++ rest) (length s))
          true
          b
        ≡ some (h', b'))
      × ((read_keyboard b' b'.size).0 ≡ s)
show_last_command-save_command h b s rest u plain some_char fits rows l d =
    let i = next_place h in
    let saved = save_command h (s ++ rest) (length s) in
    let (selected, kept) = saved_lem h s rest plain some_char fits (rows i) in
    let on_row : suc i < sto_max = ground (arith, l, d) in
    let short : length (text (saved.stored i)) ≤ buffer_size = rw kept fits in
    let (h', b', shown, sel, unread, read) =
      show_last_command_lem saved b i u selected on_row short in
    (h', b', shown, read ∙ kept)
