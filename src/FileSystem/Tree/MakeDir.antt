-- ===== src/FileSystem/Tree/MakeDir.antt =====
-- `makeDir` with a name alone.
use tpe_so.Base.{
  ℕ, zero, suc, ◌+◌, ◌-◌, ◌<◌, ◌==◌, leb, ◌≡◌, refl, ap, ◌∙◌, ◌||◌, false, Option, none, some, [],
  ◌∷◌, ◌++◌, length, length-append, get_or, All, arith,
}
use tpe_so.Text.{Chars, str_len, strcmp}
use tpe_so.FileSystem.Alloc.{Maps}
use tpe_so.FileSystem.State.{directory_type, Inode, Fs, Run, ok, fault, and_then}
use tpe_so.FileSystem.Directory.{lookup, search_directory}
use tpe_so.FileSystem.Directory.Entries.{IsName}
use tpe_so.FileSystem.Create.{Fresh, insert_directory}
use tpe_so.FileSystem.Create.Apart.{search_directory-absent}
use tpe_so.FileSystem.Create.NewEntries.{dots}
use tpe_so.FileSystem.Create.Directories.{CanInsert, insert_directory_lem}
use tpe_so.FileSystem.Path.{slash}
use tpe_so.FileSystem.Path.Resolve.{IsSegment}
use tpe_so.FileSystem.Path.Segments.{IsPlain, get_or-append, append_assoc, str_len-plain}
use tpe_so.FileSystem.Tree.{
  substr_from, substr, name_end, make_unless, make_in, partial_size, make_from, make_dir,
}

-- The name ends before the 0.
name_end-plain :
    (before s : Chars)
    → All IsPlain s
    → name_end (before ++ (s ++ (0 ∷ []))) (length s) (length before) ≡ length before + length s
unfolding name_end
name_end-plain before [] plain = omega arith
name_end-plain before (c ∷ s) ((z, l, d), plain) =
    let path = before ++ (c ∷ (s ++ (0 ∷ []))) in
    let at = get_or-append before (s ++ (0 ∷ [])) c in
    let other : ((c == slash) || (c == 0)) ≡ false = ground arith in
    let size : length (before ++ (c ∷ [])) ≡ suc (length before) =
      omega (arith, length-append before (c ∷ [])) in
    let ih = name_end-plain (before ++ (c ∷ [])) s plain in
    rw (at, other) (rw (append_assoc before (c ∷ []) (s ++ (0 ∷ [])), size) at ih ∙ omega arith)

-- `substr` copies it.
substr-plain :
    (before s : Chars)
    → All IsPlain s
    → substr_from (before ++ (s ++ (0 ∷ []))) (length s) (length before) ≡ s ++ (0 ∷ [])
unfolding substr_from
substr-plain before [] plain = refl
substr-plain before (c ∷ s) ((z, l, d), plain) =
    let at = get_or-append before (s ++ (0 ∷ [])) c in
    let no_end : (c == 0) ≡ false = ground arith in
    let size : length (before ++ (c ∷ [])) ≡ suc (length before) =
      omega (arith, length-append before (c ∷ [])) in
    let ih = substr-plain (before ++ (c ∷ [])) s plain in
    rw (at, no_end)
      (ap (λ r. c ∷ r) (rw (append_assoc before (c ∷ []) (s ++ (0 ∷ [])), size) at ih))

-- A round at the end of the path is the last one.
make_from-end :
    (fresh : ℕ → Fresh) (path : Chars) (n i : ℕ) (here : Option Inode) (fs : Fs)
    → get_or path i 0 ≡ 0
    → make_from fresh path n i here fs ≡ ok here fs
unfolding make_from
make_from-end fresh path zero i here fs e = refl
make_from-end fresh path (suc n) i here fs e = rw e refl

and_then-end :
    {A : Type 0} (r : Run A) (k : A → Fs → Run A)
    → ((a : A) (fs : Fs) → k a fs ≡ ok a fs)
    → and_then r k ≡ r
and_then-end (ok a fs) k h = h a fs
and_then-end fault k h = refl
and_then-end Run.out_of_fuel k h = refl

-- The first round.
make_from-first :
    (fresh : ℕ → Fresh) (c : ℕ) (s : Chars) (here : Option Inode) (fs : Fs)
    → All IsPlain (c ∷ s)
    → length (c ∷ s) < partial_size
    → make_from fresh (c ∷ s ++ (0 ∷ [])) (suc (length s)) 0 here fs
      ≡ make_in (fresh 0) (c ∷ s ++ (0 ∷ [])) here fs
unfolding make_from substr
make_from-first fresh c s here fs ((z, l, d), plain) short =
    let path = c ∷ s ++ (0 ∷ []) in
    let no_end : (c == 0) ≡ false = ground arith in
    let no_slash : (c == slash) ≡ false = ground arith in
    let size : str_len path - 0 ≡ suc (length s) =
      omega (arith, str_len-plain (c ∷ s) ((z, l, d), plain)) in
    let end : name_end path (suc (length s)) 0 ≡ suc (length s) =
      name_end-plain [] (c ∷ s) ((z, l, d), plain) ∙ omega arith in
    let whole : suc (length s) - 0 ≡ suc (length s) = omega arith in
    let copied : substr_from path (suc (length s)) 0 ≡ path =
      substr-plain [] (c ∷ s) ((z, l, d), plain) in
    let room : leb partial_size (suc (length s)) ≡ false = ground arith in
    rw (no_end, no_slash, size, end, whole, copied, room)
      (and_then-end (make_in (fresh 0) path here fs)
        (make_from fresh path (length s) (suc (length s)))
        (λ here1 fs1.
          make_from-end fresh path (length s) (suc (length s)) here1 fs1
            (get_or-append (c ∷ s) [] 0)))

-- `makeDir` with a name that the current directory does not have.
make_dir-absent :
    (fresh : ℕ → Fresh) (fs : Fs) (s : Chars)
    → IsSegment s
    → length s < partial_size
    → search_directory fs (s ++ (0 ∷ [])) fs.current ≡ none
    → make_dir fresh (s ++ (0 ∷ [])) fs
      ≡ and_then
          (insert_directory (fresh 0) (s ++ (0 ∷ [])) fs.current fs)
          (λ _ fs1. ok (search_directory fs1 (s ++ (0 ∷ [])) fs.current) fs1)
unfolding make_dir make_in make_unless
make_dir-absent fresh fs [] (some_char, plain, fits) short gone = absurd (omega arith)
make_dir-absent fresh fs (c ∷ s) (some_char, plain, fits) short gone =
    let path = c ∷ s ++ (0 ∷ []) in
    let size : str_len path ≡ suc (length s) = str_len-plain (c ∷ s) plain in
    ap (λ n. make_from fresh path n 0 (some fs.current) fs) size
    ∙ make_from-first fresh c s (some fs.current) fs plain short
    ∙ ap (λ r. make_unless (fresh 0) path fs.current r fs) gone

-- `makeDir` with a name of fewer than 25 characters makes the directory of this name in the current
-- one: the search for the name gives its inode, every other name of the current directory leads
-- to the number it led to before, and in the new directory ".." leads to the current one's number and no
-- other name is found. (There are a free inode and 12 blocks, the first entry of the current directory
-- that is not in use has never been used, nobody has the name, it has neither slash nor dot, and the
-- inode, the new blocks and the old ones do not overlap.)
pub make_dir_lem :
    (fresh : ℕ → Fresh) (fs : Fs) (s : Chars) (number b i : ℕ) (maps maps' : Maps)
    → IsSegment s
    → length s < partial_size
    → CanInsert (fresh 0) fs (s ++ (0 ∷ [])) fs.current number b i maps maps'
    → (fs' : Fs) × (node : Inode) × (make_dir fresh (s ++ (0 ∷ [])) fs ≡ ok (some node) fs')
      × (search_directory fs' (s ++ (0 ∷ [])) fs.current ≡ some node)
      × (node.identifier ≡ directory_type)
      × (node.number ≡ number)
      × ((t : Chars)
          → IsName t
          → 0 < str_len t
          → strcmp t (s ++ (0 ∷ [])) ≡ false
          → lookup fs' t fs.current ≡ lookup fs t fs.current)
      × (lookup fs' dots node ≡ some fs.current.number)
      × ((t : Chars) → 0 < str_len t → strcmp t dots ≡ false → lookup fs' t node ≡ none)
make_dir_lem fresh fs s number b i maps maps' segment short c =
    let name = s ++ (0 ∷ []) in
    let (fs', node, runs, found, kind, same, others, up, no_more) =
      insert_directory_lem (fresh 0) fs name fs.current number b i maps maps' c in
    (
      fs',
      node,
      make_dir-absent fresh fs s segment short (search_directory-absent fs name fs.current c.absent)
          ∙ ap (λ r. and_then r (λ _ fs1. ok (search_directory fs1 name fs.current) fs1)) runs
          ∙ ap (λ r. ok r fs') found,
      found,
      kind,
      same,
      others,
      up,
      no_more,
    )
