-- ===== src/Screen/Scroll.antt =====
-- What the loops over a screen's memory leave at each place.
use tpe_so.Base.{
  ℕ, zero, suc, ◌+◌, ◌-◌, ◌*◌, ◌≤◌, ◌<◌, ◌==◌, ltb, ◌≡◌, ◌≢◌, refl, ap, ◌∙◌, ◌⊎◌, inl, inr,
  Bool-cases, if◌then◌else◌, arith,
}
use tpe_so.FileSystem.Memory.{Mem}
use tpe_so.Screen.{write_byte, write_cell, rows_up, blanks, row_up, white_txt, blank, last_row}

pub write_cell_lem :
    (m : Mem) (a c x : ℕ)
    → write_cell m a c x ≡ (if a + 1 == x then white_txt else if a == x then c else m x)
unfolding write_cell write_byte
write_cell_lem m a c x = refl

pub write_cell-other : (m : Mem) (a c x : ℕ) → a ≢ x → a + 1 ≢ x → write_cell m a c x ≡ m x
write_cell-other m a c x p q = write_cell_lem m a c x ∙ ground (arith, p, q)

pub write_cell-char : (m : Mem) (a c x : ℕ) → a ≡ x → write_cell m a c x ≡ c
write_cell-char m a c x e = write_cell_lem m a c x ∙ ground (arith, e)

pub write_cell-attribute : (m : Mem) (a c x : ℕ) → a + 1 ≡ x → write_cell m a c x ≡ white_txt
write_cell-attribute m a c x e = write_cell_lem m a c x ∙ ground (arith, e)

-- The rounds change nothing outside the cells that they go over.
rows_up-out : (n i x : ℕ) (m : Mem) → (x < i) ⊎ (i + 2 * n ≤ x) → rows_up n i m x ≡ m x
unfolding rows_up
rows_up-out zero i x m h = refl
rows_up-out (suc n) i x m h =
    rows_up-out n (i + 2) x _ (omega arith)
    ∙ write_cell-other m i (m (i + 160)) x (omega arith) (omega arith)

-- A character comes from the row below.
rows_up-char : (n i j x : ℕ) (m : Mem) → x ≡ i + 2 * j → j < n → rows_up n i m x ≡ m (x + 160)
unfolding rows_up
rows_up-char zero i j x m e h = absurd (omega arith)
rows_up-char (suc n) i zero x m e h =
    rows_up-out n (i + 2) x _ (inl (omega arith))
    ∙ write_cell-char m i (m (i + 160)) x (omega arith)
    ∙ ap m (omega arith)
rows_up-char (suc n) i (suc j) x m e h =
    rows_up-char n (i + 2) j x (write_cell m i (m (i + 160))) (omega arith) (omega arith)
    ∙ write_cell-other m i (m (i + 160)) (x + 160) (omega arith) (omega arith)

-- Every attribute becomes white on black.
rows_up-attribute :
    (n i j x : ℕ) (m : Mem) → x ≡ i + 2 * j + 1 → j < n → rows_up n i m x ≡ white_txt
unfolding rows_up
rows_up-attribute zero i j x m e h = absurd (omega arith)
rows_up-attribute (suc n) i zero x m e h =
    rows_up-out n (i + 2) x _ (inl (omega arith))
    ∙ write_cell-attribute m i (m (i + 160)) x (omega arith)
rows_up-attribute (suc n) i (suc j) x m e h =
    rows_up-attribute n (i + 2) j x (write_cell m i (m (i + 160))) (omega arith) (omega arith)

blanks-out : (n i x : ℕ) (m : Mem) → (x < i) ⊎ (i + 2 * n ≤ x) → blanks n i m x ≡ m x
unfolding blanks
blanks-out zero i x m h = refl
blanks-out (suc n) i x m h =
    blanks-out n (i + 2) x _ (omega arith)
    ∙ write_cell-other m i blank x (omega arith) (omega arith)

pub blanks-char : (n i j x : ℕ) (m : Mem) → x ≡ i + 2 * j → j < n → blanks n i m x ≡ blank
unfolding blanks
blanks-char zero i j x m e h = absurd (omega arith)
blanks-char (suc n) i zero x m e h =
    blanks-out n (i + 2) x _ (inl (omega arith)) ∙ write_cell-char m i blank x (omega arith)
blanks-char (suc n) i (suc j) x m e h =
    blanks-char n (i + 2) j x (write_cell m i blank) (omega arith) (omega arith)

pub blanks-attribute :
    (n i j x : ℕ) (m : Mem) → x ≡ i + 2 * j + 1 → j < n → blanks n i m x ≡ white_txt
unfolding blanks
blanks-attribute zero i j x m e h = absurd (omega arith)
blanks-attribute (suc n) i zero x m e h =
    blanks-out n (i + 2) x _ (inl (omega arith)) ∙ write_cell-attribute m i blank x (omega arith)
blanks-attribute (suc n) i (suc j) x m e h =
    blanks-attribute n (i + 2) j x (write_cell m i blank) (omega arith) (omega arith)

-- The first 24 rows of a scrolled screen are the last 24 of before; the last row is blank.
pub row_up-char : (k : ℕ) (m : Mem) → k < 1920 → row_up m (2 * k) ≡ m (2 * (k + 80))
unfolding row_up
row_up-char k m h =
    blanks-out 80 last_row (2 * k) (rows_up 1920 0 m) (inl (omega arith))
    ∙ rows_up-char 1920 0 k (2 * k) m (omega arith) h
    ∙ ap m (omega arith)

pub row_up-last : (k : ℕ) (m : Mem) → 1920 ≤ k → k < 2000 → row_up m (2 * k) ≡ blank
unfolding row_up
row_up-last k m g h =
    blanks-char 80 last_row (k - 1920) (2 * k) (rows_up 1920 0 m) (omega arith) (omega arith)

pub row_up-attribute : (k : ℕ) (m : Mem) → k < 2000 → row_up m (2 * k + 1) ≡ white_txt
unfolding row_up
row_up-attribute k m h = elim (Bool-cases (ltb k 1920)) [
  | inl e ↦
      let upper : k < 1920 = ground (arith, e) in
      blanks-out 80 last_row (2 * k + 1) (rows_up 1920 0 m) (inl (omega arith))
      ∙ rows_up-attribute 1920 0 k (2 * k + 1) m (omega arith) upper
  | inr e ↦
      let lower : 1920 ≤ k = ground (arith, e) in
      blanks-attribute 80 last_row (k - 1920) (2 * k + 1) (rows_up 1920 0 m) (omega arith)
        (omega arith)
]
