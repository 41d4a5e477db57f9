-- ===== src/FileSystem/Alloc/Blocks.antt =====
-- What the callers of the block allocator may rely on.
use tpe_so.Base.{
  ℕ, ◌+◌, ◌*◌, ◌≤◌, ◌<◌, pos, ◌+ℤ◌, ◌-ℤ◌, +ℤ-sub, sub-add_ℤ, ◌≡◌, refl, sym, ◌∙◌, ◌⊎◌, inl, inr,
  true, false, Bool-cases, if◌then◌else◌, Option, none, some, length, arith,
}
use tpe_so.FileSystem.Bitmap.{word_size, bitmap_size, is_free}
use tpe_so.FileSystem.Bitmap.Laws.{in_run, set_run-length, is_free-set_run, is_free-clear_run}
use tpe_so.FileSystem.Alloc.{
  Maps, is_full, take_run, grant, find_run, search_free_blocks, free_used_blocks,
}
use tpe_so.FileSystem.Alloc.FirstFit.{IsFirstFit, find_run-IsFirstFit}

-- The memory of the map has room for a run that starts in it.
abbrev pub HasRoom : Maps → ℕ → Type 0
HasRoom m quantity = bitmap_size + quantity ≤ length m.bitmap * word_size

-- The run is taken, all else is as before, and the map is on disk.
pub record Taken (m : Maps) (quantity c : ℕ) (m' : Maps) : Type 0 where
  pub taken :
      (b : ℕ) → is_free m'.bitmap b ≡ (if in_run c quantity b then false else is_free m.bitmap b)
  pub fewer_free : m'.free_blocks ≡ m.free_blocks -ℤ pos quantity
  pub more_used : m'.used_blocks ≡ m.used_blocks +ℤ pos quantity
  pub written : m'.stored ≡ m'.bitmap
  pub same_inodes : m'.inodemap ≡ m.inodemap
  pub same_room : length m'.bitmap ≡ length m.bitmap

abbrev pub Outcome : Maps → ℕ → Option ℕ → Maps → Type 0
Outcome m quantity none m' = m' ≡ m
Outcome m quantity (some c) m' = Taken m quantity c m'

take_run-Taken :
    (m : Maps) (quantity c : ℕ)
    → HasRoom m quantity
    → c < bitmap_size
    → Taken m quantity c (take_run m c quantity)
take_run-Taken m quantity c room inside = record {
  taken = λ b. is_free-set_run m.bitmap c quantity b (omega arith);
  fewer_free = refl;
  more_used = refl;
  written = refl;
  same_inodes = refl;
  same_room = set_run-length m.bitmap c quantity;
}

grant-Outcome :
    (m : Maps) (quantity : ℕ) (r : Option ℕ)
    → HasRoom m quantity
    → IsFirstFit m.bitmap bitmap_size quantity r
    → (IsFirstFit m.bitmap bitmap_size quantity (grant m quantity r).0)
      × Outcome m quantity (grant m quantity r).0 (grant m quantity r).1
unfolding grant
grant-Outcome m quantity none room fit = (fit, refl)
grant-Outcome m quantity (some c) room fit = (fit, take_run-Taken m quantity c room fit.0)

-- `search_free_blocks` fails and changes nothing when fewer than 100 blocks are free. Otherwise it
-- gives the first place where `quantity` blocks in a row are free, takes them, counts them and writes
-- the map, or fails and changes nothing when there is no such place. (The blocks behind the last one
-- count as free, so the run may go beyond the map.)
pub search_free_blocks_lem :
    (m : Maps) (quantity : ℕ)
    → 0 < quantity
    → HasRoom m quantity
    → let (r, m') = search_free_blocks m quantity in
      ((is_full m ≡ true) × (r ≡ none) × (m' ≡ m))
      ⊎ ((is_full m ≡ false) × IsFirstFit m.bitmap bitmap_size quantity r × Outcome m quantity r m')
search_free_blocks_lem m quantity q room = elim (Bool-cases (is_full m)) [
  | inl e ↦
      let none_given : search_free_blocks m quantity ≡ (none, m) =
        unfold search_free_blocks in rw e in
      rw none_given (inl (e, refl, refl))
  | inr e ↦
      let given : search_free_blocks m quantity
          ≡ grant m quantity (find_run m.bitmap quantity bitmap_size 0 0 none) =
        unfold search_free_blocks in rw e in
      let (fit, done) =
        grant-Outcome m quantity (find_run m.bitmap quantity bitmap_size 0 0 none) room (
          find_run-IsFirstFit m.bitmap bitmap_size quantity bitmap_size 0 0 0 none q refl refl
            (omega arith) (inl (refl, refl)) (λ i u v. absurd (omega arith))
            (λ d l f. absurd (omega arith))) in
      rw given (inr (e, fit, done))
]

-- The case of a result.
granted :
    (m m' : Maps) (quantity c : ℕ)
    → 0 < quantity
    → HasRoom m quantity
    → search_free_blocks m quantity ≡ (some c, m')
    → IsFirstFit m.bitmap bitmap_size quantity (some c) × Taken m quantity c m'
granted m m' quantity c q room e = elim (rw e at (search_free_blocks_lem m quantity q room)) [
  | inl (full, none_found, same) ↦ cc
  | inr (room_left, fit, taken) ↦ (fit, taken)
]

-- Blocks given out by one call are not given out by the next (within the map of blocks).
pub search_free_blocks_disjoint :
    (m m1 m2 : Maps) (quantity1 quantity2 c1 c2 b : ℕ)
    → 0 < quantity1
    → 0 < quantity2
    → HasRoom m quantity1
    → HasRoom m quantity2
    → search_free_blocks m quantity1 ≡ (some c1, m1)
    → search_free_blocks m1 quantity2 ≡ (some c2, m2)
    → b < bitmap_size
    → in_run c1 quantity1 b ≡ true
    → in_run c2 quantity2 b ≡ false
search_free_blocks_disjoint m m1 m2 quantity1 quantity2 c1 c2 b q1 q2 room1 room2 e1 e2 inside h =
    let (fit1, t1) = granted m m1 quantity1 c1 q1 room1 e1 in
    let (fit2, t2) = granted m1 m2 quantity2 c2 q2 (rw t1.same_room room2) e2 in
    let used_b = rw h at (t1.taken b) in
    elim (Bool-cases (in_run c2 quantity2 b)) [
      | inl k ↦ let free_b = fit2.1 b (ground (arith, k)) (ground (arith, k)) inside in cc
      | inr k ↦ k
    ]

-- Freeing the blocks that a call has given out restores what is free in the map and both counters.
pub free_used_blocks-search_free_blocks :
    (m m1 : Maps) (quantity c b : ℕ)
    → 0 < quantity
    → HasRoom m quantity
    → search_free_blocks m quantity ≡ (some c, m1)
    → b < bitmap_size
    → let m2 = free_used_blocks m1 c quantity in
      (is_free m2.bitmap b ≡ is_free m.bitmap b)
      × (m2.free_blocks ≡ m.free_blocks)
      × (m2.used_blocks ≡ m.used_blocks)
unfolding free_used_blocks
free_used_blocks-search_free_blocks m m1 quantity c b q room e inside =
    let (fit, t) = granted m m1 quantity c q room e in
    (
      (is_free-clear_run m1.bitmap c quantity b (let s = t.same_room in omega arith)
          ∙ elim (Bool-cases (in_run c quantity b)) [
            | inl k ↦ rw k (sym (fit.1 b (ground (arith, k)) (ground (arith, k)) inside))
            | inr k ↦ rw k (rw k at (t.taken b))
          ]),
      rw t.fewer_free (+ℤ-sub m.free_blocks quantity),
      rw t.more_used (sub-add_ℤ m.used_blocks quantity),
    )
