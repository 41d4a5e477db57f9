-- ===== src/FileSystem/Files/Opening.antt =====
-- The descriptor that `do_open` gives.
use tpe_so.Base.{
  ℕ, ◌==◌, ◌<◌, ◌≤◌, ltb, ℤ, pos, negsuc, minus_one, ◌==ℤ◌, ◌≡◌, ◌≢◌, refl, ◌⊎◌, inl, inr, true,
  false, Bool-cases, Option, none, some, ℕ_discrete, dec_lt, arith,
}
use tpe_so.Text.{Chars}
use tpe_so.FileSystem.Descriptors.{own_count, Descriptors, first_fd, entry, search_for_fd}
use tpe_so.FileSystem.Descriptors.Lookup.{AllTaken, IsTable, HandsOut, insert_fd_lem}
use tpe_so.FileSystem.Descriptors.Search.{IsTidy, IsClosed, search_for_inode_lem}
use tpe_so.FileSystem.State.{Inode, Fs, Run, ok, fault, pure, and_then}
use tpe_so.FileSystem.Directory.{search_directory}
use tpe_so.FileSystem.Create.{Fresh, open_number}
use tpe_so.FileSystem.Files.{open_inode, open_found, behind_link, do_open}

-- The result for an inode that no own entry of the table names: a new descriptor leads to it and the
-- rest of the state is as it was, or all own descriptors are handed out.
abbrev pub OpenedNew : Fs → ℕ → Run (Option ℤ) → Type 0
OpenedNew fs number r =
    ((f : ℕ) × (table : Descriptors) × (r ≡ ok (some (pos f)) (record fs { table = table }))
      × HandsOut fs.table (pos number) f table)
    ⊎ (AllTaken fs.table × ((r ≡ fault) ⊎ (r ≡ ok (some minus_one) fs)))

-- The result for an inode: the descriptor under which it is open, or a new one. If no own entry names
-- the inode and memory behind the table reads as an entry that does, what stands there.
abbrev pub Reaches : Fs → ℕ → Run (Option ℤ) → Type 0
Reaches fs number r =
    ((f : ℕ) × (r ≡ ok (some (pos f)) fs)
      × (first_fd ≤ f)
      × (f < own_count)
      × (search_for_fd fs.table (pos f) ≡ pos number))
    ⊎ (IsClosed fs.table number
        × (OpenedNew fs number r
            ⊎ ((f : ℕ) × (own_count ≤ f)
                × (f < 100)
                × ((entry fs.table f).inode ≡ pos number)
                × (r ≡ ok (some (entry fs.table f).fd) fs))))

-- What `open_inode` does when `search_for_inode` gives `fd`.
open_new : (number : ℕ) → Fs → Run (Option ℤ)
open_new number fs = and_then (open_number number fs) (λ r. pure (some r))

open_new-OpenedNew :
    (number : ℕ) (fs : Fs) → IsTable fs.table → OpenedNew fs number (open_new number fs)
unfolding open_new open_number
open_new-OpenedNew number fs w = elim (insert_fd_lem fs.table (pos number) w) [
  | inl (f, table, r, h) ↦ inl (f, table, rw r refl, h)
  | inr (taken, inl (r, _)) ↦ inr (taken, inl (rw r refl))
  | inr (taken, inr (r, _)) ↦ inr (taken, inr (rw r refl))
]

open_inode-Reaches :
    (node : Inode) (fs : Fs)
    → IsTable fs.table
    → IsTidy fs.table
    → node.number ≢ 0
    → Reaches fs node.number (open_inode (some node) fs)
unfolding open_inode
open_inode-Reaches node fs w tidy z = elim (search_for_inode_lem fs.table node.number w tidy z) [
  | inl (f, e, a, b, d) ↦ inl (f, rw e refl, a, b, d)
  | inr (closed, inl e) ↦
      inr (closed, inl (rw e (unfold open_new in open_new-OpenedNew node.number fs w)))
  | inr (closed, inr (f, a, b, k, e)) ↦ elim (Bool-cases ((entry fs.table f).fd ==ℤ minus_one)) [
    | inl none_there ↦
        inr (
          closed,
          inl (rw (e, none_there) (unfold open_new in open_new-OpenedNew node.number fs w)),
        )
    | inr some_there ↦ inr (closed, inr (f, a, b, k, rw (e, some_there) refl))
  ]
]

module _ (fresh : Fresh) (filename : Chars) (flags mode : ℕ) where
  missing :
      (fs : Fs) → flags ≢ 0 → open_found fresh filename flags mode none fs ≡ ok (some minus_one) fs
  unfolding open_found
  missing fs h = let e : (flags == 0) ≡ false = ground arith in rw e refl

  denied :
      (node : Inode) (fs : Fs)
      → node.gid < fs.group
      → open_found fresh filename flags mode (some node) fs ≡ ok (some (negsuc 1)) fs
  unfolding open_found
  denied node fs h = let e : ltb node.gid fs.group ≡ true = ground arith in rw e refl

  granted :
      (node : Inode) (fs : Fs)
      → fs.group ≤ node.gid
      → open_found fresh filename flags mode (some node) fs ≡ open_inode (behind_link node fs) fs
  unfolding open_found
  granted node fs h = let e : ltb node.gid fs.group ≡ false = ground arith in rw e refl

-- The result for a file that has been found, behind a link if it is one.
abbrev Behind : Fs → Option Inode → Run (Option ℤ) → Type 0
Behind fs none r = r ≡ fault
Behind fs (some file) r = (file.number ≡ 0) ⊎ Reaches fs file.number r

-- The result for what the search gives.
abbrev pub Opening : Fs → Option Inode → Run (Option ℤ) → Type 0
Opening fs none r = r ≡ ok (some minus_one) fs
Opening fs (some node) r =
    ((node.gid < fs.group) × (r ≡ ok (some (negsuc 1)) fs))
    ⊎ ((fs.group ≤ node.gid) × Behind fs (behind_link node fs) r)

open_inode-Behind :
    (fs : Fs) (r : Option Inode)
    → IsTable fs.table
    → IsTidy fs.table
    → Behind fs r (open_inode r fs)
open_inode-Behind fs none w tidy = unfold open_inode in refl
open_inode-Behind fs (some file) w tidy = elim (ℕ_discrete file.number 0) [
  | yes root ↦ inl root
  | no z ↦ inr (open_inode-Reaches file fs w tidy z)
]

open_found-Opening :
    (fresh : Fresh) (filename : Chars) (flags mode : ℕ) (fs : Fs) (r : Option Inode)
    → flags ≢ 0
    → IsTable fs.table
    → IsTidy fs.table
    → Opening fs r (open_found fresh filename flags mode r fs)
open_found-Opening fresh filename flags mode fs none h w tidy =
    missing fresh filename flags mode fs h
open_found-Opening fresh filename flags mode fs (some node) h w tidy =
    elim (dec_lt node.gid fs.group) [
      | yes low ↦ inl (low, denied fresh filename flags mode node fs low)
      | no high ↦
          let enough : fs.group ≤ node.gid = omega arith in
          inr (
            enough,
            rw (granted fresh filename flags mode node fs enough)
                (open_inode-Behind fs (behind_link node fs) w tidy),
          )
    ]

-- With a flag other than 0, `do_open` of a name that is not in the current directory gives -1, and
-- of a file that the user's group may not open -2, and changes nothing. Otherwise it leads to the
-- file of that name, behind a link to the file that it names. If an own entry of the table names the
-- file, the result is a descriptor under which `search_for_fd` finds the file's number, with nothing
-- changed. If none does and an own descriptor is free, the result is such a one: `search_for_fd`
-- finds the file's number under it and under all others but 0 what it found, and nothing but the
-- table changes. When no own descriptor is free either, the call writes behind the table, or gives
-- -1 and changes nothing. Only when memory behind the table reads as an entry of the file, the
-- result may be what stands there instead. (The table has the 8 entries for which there is memory, a
-- descriptor in use there is its index, and the entries that are not in use name inode 0. Nothing is
-- said of the root, and a link to an inode that has been freed is read through a null pointer.)
pub do_open_lem :
    (fresh : Fresh) (filename : Chars) (flags mode : ℕ) (fs : Fs)
    → flags ≢ 0
    → IsTable fs.table
    → IsTidy fs.table
    → Opening fs (search_directory fs filename fs.current) (do_open fresh filename flags mode fs)
unfolding do_open
do_open_lem fresh filename flags mode fs h w tidy =
    open_found-Opening fresh filename flags mode fs (search_directory fs filename fs.current) h w
      tidy
