-- ===== src/FileSystem/Create/Streams.antt =====
-- The inode of a new file.
use tpe_so.Base.{
  ℕ, zero, suc, ◌<◌, ◌≡◌, refl, ap, ◌∙◌, inl, inr, Option, none, some, some_inj, List, [], ◌∷◌, All,
  length, set, length-set, arith,
}
use tpe_so.FileSystem.Bitmap.{bitmap_size}
use tpe_so.FileSystem.Memory.Laws.{IsWord}
use tpe_so.FileSystem.Alloc.{Maps, search_free_inode, search_free_blocks}
use tpe_so.FileSystem.Alloc.FirstFit.{IsFirstFit}
use tpe_so.FileSystem.Alloc.Blocks.{HasRoom, search_free_blocks_lem, Outcome}
use tpe_so.FileSystem.State.{file_type, Inode, Fs, ok}
use tpe_so.FileSystem.InodeTable.Lookup.{IsInode}
use tpe_so.FileSystem.Create.{
  Fresh, file_blocks, file_stream, fs_init_data_stream, init_numbered, creat_numbered,
  fs_creat_inode,
}

abbrev pub file_node : Fresh → Fs → ℕ → ℕ → Option ℕ → Inode
file_node fresh fs mode number found = record {
  identifier = file_type;
  number = number;
  uid = fs.usr_id;
  gid = fs.group;
  mode = mode;
  size = 0;
  link = fresh.inode.link;
  direct_blocks = file_blocks fresh 1 found;
}

pub fs_creat_inode-file :
    (fresh : Fresh) (fs : Fs) (mode number : ℕ) (maps : Maps) (current : Option Inode)
    → search_free_inode fs.maps ≡ (some number, maps)
    → fs_creat_inode fresh file_type mode 0 current fs
      ≡ ok
          (file_node fresh fs mode number (search_free_blocks maps 1).0)
          (record fs { maps = (search_free_blocks maps 1).1 })
unfolding fs_creat_inode creat_numbered init_numbered fs_init_data_stream file_stream
fs_creat_inode-file fresh fs mode number maps current e =
    ap (λ r. creat_numbered fresh file_type mode 0 current r fs) e

given :
    (maps : Maps) (r : Option ℕ) (maps' : Maps)
    → IsFirstFit maps.bitmap bitmap_size 1 r
    → Outcome maps 1 r maps'
    → (maps'.inodemap ≡ maps.inodemap) × ((b : ℕ) → r ≡ some b → b < bitmap_size)
given maps none maps' fit same = (rw same refl, λ b f. cc)
given maps (some c) maps' fit taken =
    (taken.same_inodes, λ b f. let e = some_inj f in let l = fit.0 in omega arith)

pub search_free_blocks-keeps :
    (maps : Maps)
    → HasRoom maps 1
    → (search_free_blocks maps 1).1.inodemap ≡ maps.inodemap
      × ((b : ℕ) → (search_free_blocks maps 1).0 ≡ some b → b < bitmap_size)
search_free_blocks-keeps maps room = elim (search_free_blocks_lem maps 1 (omega arith) room) [
  | inl (full, e, same) ↦ (rw same refl, λ b f. cc)
  | inr (left, fit, done) ↦
      given maps (search_free_blocks maps 1).0 (search_free_blocks maps 1).1 fit done
]

All-set : (P : ℕ → Type 0) (xs : List ℕ) (i v : ℕ) → All P xs → P v → All P (set xs i v)
All-set P [] i v h p = tt
All-set P (x ∷ xs) zero v h p = (p, h.1)
All-set P (x ∷ xs) (suc i) v h p = (h.0, All-set P xs i v h.1 p)

file_blocks-words :
    (fresh : Fresh) (found : Option ℕ)
    → IsInode fresh.inode
    → ((b : ℕ) → found ≡ some b → b < bitmap_size)
    → (length (file_blocks fresh 1 found) ≡ 12) × All IsWord (file_blocks fresh 1 found)
unfolding file_blocks
file_blocks-words fresh none i small = (i.blocks, i.words.1.1.1.1.1.1.1)
file_blocks-words fresh (some b) i small =
    let old = fresh.inode.direct_blocks in
    let l = small b refl in
    (
      length-set (set old 0 b) 1 1 ∙ length-set old 0 b ∙ i.blocks,
      All-set IsWord (set old 0 b) 1 1 (All-set IsWord old 0 b i.words.1.1.1.1.1.1.1 (omega arith))
          (omega arith),
    )

-- The inode of a new file can be stored.
pub file_node-IsInode :
    (fresh : Fresh) (fs : Fs) (mode number : ℕ) (found : Option ℕ)
    → IsInode fresh.inode
    → IsWord mode
    → IsWord number
    → IsWord fs.usr_id
    → IsWord fs.group
    → ((b : ℕ) → found ≡ some b → b < bitmap_size)
    → IsInode (file_node fresh fs mode number found)
unfolding file_blocks
file_node-IsInode fresh fs mode number found i m n u g small =
    let (count, all) = file_blocks-words fresh found i small in
    record {
      blocks = count;
      words = (omega arith, (n, (u, (g, (m, (omega arith, (i.words.1.1.1.1.1.1.0, all)))))));
    }
