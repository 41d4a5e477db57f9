-- ===== src/Kernel/Fifo/Table.antt =====
-- Which fifos can be deleted.
use tpe_so.Base.{
  ℕ, suc, ◌-◌, ◌≤◌, pos, minus_one, ◌==ℤ◌, ==ℤ_iff, is_zero, ◌==◌, ◌≡◌, ◌≢◌, refl, ap, ◌∙◌, inl,
  inr, false, Bool-cases, some, List, [], ◌∷◌, get_or, get_or-set_ne, ℕ_discrete, some_inj, arith,
}
use tpe_so.Kernel.Fifo.{
  max_fifo, FifoItem, no_fifo, Fifos, first_free_fifo, find_new_fifo_fd, delete_fifo_fd,
}

-- The fifos with these descriptors are deleted, one after the other.
abbrev pub delete_all : Fifos → List ℕ → Fifos
delete_all f [] = f
delete_all f (d ∷ ds) = delete_all (delete_fifo_fd f d).1 ds

-- A fifo in use, behind the first.
abbrev pub IsUsed : Fifos → ℕ → Type 0
IsUsed f fd = (get_or f.table fd no_fifo).fd ≡ pos fd

delete-IsUsed : (f : Fifos) (d fd : ℕ) → fd ≢ 0 → IsUsed f fd → IsUsed (delete_fifo_fd f d).1 fd
unfolding delete_fifo_fd
delete-IsUsed f d fd h used = elim (Bool-cases (is_zero (get_or f.table d no_fifo).fd)) [
  | inr e ↦ rw e used
  | inl e ↦ elim (ℕ_discrete d fd) [
    | no other ↦ rw e (ap (λ item. item.fd) (get_or-set_ne f.table _ no_fifo other) ∙ used)
    | yes same ↦ let zero_fd = rw used at (rw same at e) in absurd (h (ground (arith, zero_fd)))
  ]
]

delete-refused : (f : Fifos) (fd : ℕ) → fd ≢ 0 → IsUsed f fd → delete_fifo_fd f fd ≡ (false, f)
unfolding delete_fifo_fd
delete-refused f fd h used = let e : (fd == 0) ≡ false = ground arith in rw (used, e) refl

delete_all-IsUsed :
    (f : Fifos) (ds : List ℕ) (fd : ℕ) → fd ≢ 0 → IsUsed f fd → IsUsed (delete_all f ds) fd
delete_all-IsUsed f [] fd h used = used
delete_all-IsUsed f (d ∷ ds) fd h used =
    delete_all-IsUsed (delete_fifo_fd f d).1 ds fd h (delete-IsUsed f d fd h used)

-- The loop finds an entry that is free.
first_free-free :
    (fs : List FifoItem) (i j : ℕ)
    → first_free_fifo fs i ≡ some j
    → (i ≤ j) × ((get_or fs (j - i) no_fifo).fd ≡ minus_one)
unfolding first_free_fifo
first_free-free [] i j e = cc
first_free-free (f ∷ fs) i j e = elim (Bool-cases (f.fd ==ℤ minus_one)) [
  | inl free ↦
      let same : i ≡ j = some_inj (rw free at e) in
      let first : j - i ≡ 0 = omega arith in
      (omega arith, rw first ((==ℤ_iff f.fd minus_one).0 free))
  | inr used ↦
      let (l, found) = first_free-free fs (suc i) j (rw used at e) in
      let next : j - i ≡ suc (j - suc i) = omega arith in (omega arith, rw next found)
]

find-free : (f : Fifos) (fd : ℕ) → IsUsed f fd → find_new_fifo_fd f ≢ some fd
unfolding find_new_fifo_fd
find-free f fd used = elim (Bool-cases (f.count == max_fifo)) [
  | inl full ↦ rw full (λ e. cc)
  | inr room ↦ rw room (λ e.
      let (l, free) = first_free-free f.table 0 fd e in
      let all : fd - 0 ≡ fd = omega arith in let free_fd = rw all at free in cc)
]

-- A fifo behind the first one is never given up: whatever fifos are deleted, `delete_fifo_fd` of its
-- descriptor gives -1 and leaves the table as it is, and `find_new_fifo_fd` does not give it to another.
-- (The descriptor in use is its index.)
pub delete_fifo_fd_keeps :
    (f : Fifos) (ds : List ℕ) (fd : ℕ)
    → fd ≢ 0
    → IsUsed f fd
    → let f' = delete_all f ds in
      (delete_fifo_fd f' fd ≡ (false, f')) × (find_new_fifo_fd f' ≢ some fd)
delete_fifo_fd_keeps f ds fd h used =
    let kept = delete_all-IsUsed f ds fd h used in
    (delete-refused (delete_all f ds) fd h kept, find-free (delete_all f ds) fd kept)
