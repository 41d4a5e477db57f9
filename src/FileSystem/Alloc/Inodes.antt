-- ===== src/FileSystem/Alloc/Inodes.antt =====
-- The numbers that new inodes get.
use tpe_so.Base.{
  ℕ, zero, suc, ◌+◌, ◌*◌, ◌≤◌, ◌<◌, ◌==◌, ==_iff, ◌≡◌, refl, inl, inr, true, false, Bool-cases,
  if◌then◌else◌, Option, none, some, length, arith,
}
use tpe_so.FileSystem.Bitmap.{Words, word_size, inodemap_size, is_free}
use tpe_so.FileSystem.Bitmap.Laws.{set_bit-length, is_free-set_bit}
use tpe_so.FileSystem.Alloc.{Maps, first_free, take_inode, search_free_inode}

-- The first free number from `i` on and below `end`, or `none` if there is none.
abbrev pub IsFirstFree : Words → ℕ → ℕ → Option ℕ → Type 0
IsFirstFree ws i end none = (j : ℕ) → i ≤ j → j < end → is_free ws j ≡ false
IsFirstFree ws i end (some c) =
    (i ≤ c) × (c < end) × (is_free ws c ≡ true) × ((j : ℕ) → i ≤ j → j < c → is_free ws j ≡ false)

-- A search that starts behind a used number.
skip_used :
    (ws : Words) (i end : ℕ) (r : Option ℕ)
    → is_free ws i ≡ false
    → IsFirstFree ws (suc i) end r
    → IsFirstFree ws i end r
skip_used ws i end none e h = λ j l u. elim (Bool-cases (j == i)) [
  | inl same ↦ rw ((==_iff j i).0 same) e
  | inr other ↦ h j (ground (arith, other)) u
]
skip_used ws i end (some c) e h = (
  omega (arith, h.0),
  h.1,
  h.2,
  λ j l u. elim (Bool-cases (j == i)) [
    | inl same ↦ rw ((==_iff j i).0 same) e
    | inr other ↦ h.3 j (ground (arith, other)) u
  ],
)

first_free-IsFirstFree :
    (ws : Words) (n i end : ℕ) → i + n ≡ end → IsFirstFree ws i end (first_free ws n i)
unfolding first_free
first_free-IsFirstFree ws zero i end e = λ j l u. absurd (omega arith)
first_free-IsFirstFree ws (suc n) i end e = elim (Bool-cases (is_free ws i)) [
  | inl f ↦ rw f (omega arith, omega arith, f, λ j l u. absurd (omega arith))
  | inr f ↦ rw f (
      skip_used ws i end (first_free ws n (suc i)) f
        (first_free-IsFirstFree ws n (suc i) end (omega arith)))
]

-- A free number is taken and nothing else changes, or nothing does.
abbrev pub Outcome : Maps → Option ℕ → Maps → Type 0
Outcome m none m' = m' ≡ m
Outcome m (some c) m' =
    (m'.bitmap ≡ m.bitmap)
    × (length m'.inodemap ≡ length m.inodemap)
    × ((j : ℕ) → is_free m'.inodemap j ≡ (if c == j then false else is_free m.inodemap j))

take_inode-Outcome :
    (m : Maps) (r : Option ℕ)
    → inodemap_size ≤ length m.inodemap * word_size
    → IsFirstFree m.inodemap 0 inodemap_size r
    → IsFirstFree m.inodemap 0 inodemap_size (take_inode m r).0
      × Outcome m (take_inode m r).0 (take_inode m r).1
unfolding take_inode
take_inode-Outcome m none room h = (h, refl)
take_inode-Outcome m (some c) room h = (
  h,
  (
    refl,
    set_bit-length m.inodemap c,
    (λ j. is_free-set_bit m.inodemap c j (let inside = h.1 in omega arith)),
  ),
)

-- `search_free_inode` gives the first number that is free in the map, and takes it and no other; when
-- none is free it fails and changes nothing. (The map has room for its numbers.)
pub search_free_inode_lem :
    (m : Maps)
    → inodemap_size ≤ length m.inodemap * word_size
    → let (r, m') = search_free_inode m in IsFirstFree m.inodemap 0 inodemap_size r × Outcome m r m'
search_free_inode_lem m room =
    let searched : search_free_inode m ≡ take_inode m (first_free m.inodemap inodemap_size 0) =
      unfold search_free_inode in refl in
    rw searched (
      take_inode-Outcome m (first_free m.inodemap inodemap_size 0) room
        (first_free-IsFirstFree m.inodemap inodemap_size 0 inodemap_size refl))
