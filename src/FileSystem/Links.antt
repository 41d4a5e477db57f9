-- ===== src/FileSystem/Links.antt =====
-- Links (Chinux/fileSystem/newFs.c, `link_in_kernel`, `links` and `copy_link_inode`).
pub mod Stored
use tpe_so.Base.{
  ℕ, zero, suc, ◌+◌, ◌-◌, ◌==◌, if◌then◌else◌, Option, none, some, List, [], ◌∷◌, ◌++◌, take, drop,
  get_or, set,
}
use tpe_so.Text.{Chars, str_len}
use tpe_so.FileSystem.State.{link_type, Inode, Fs, Run, ok, fault, Cmd, and_then}
use tpe_so.FileSystem.InodeTable.{fs_insert_inode}
use tpe_so.FileSystem.Directory.{search_directory}
use tpe_so.FileSystem.Create.{Fresh, insert_file}
use tpe_so.FileSystem.Path.{slash, parser_path}
use tpe_so.FileSystem.Tree.{at_path}

-- `copy_link_inode`: the second inode, which it changes in memory.
unfoldable pub copy_link_inode : Inode → Inode → Inode
copy_link_inode node reciever_inode = record reciever_inode {
  identifier = link_type;
  link = node.number;
}

-- The same through pointers.
unfoldable pub copy_link : Option Inode → Option Inode → Cmd Inode
unfolding copy_link_inode
copy_link none reciever fs = fault
copy_link (some node) none fs = fault
copy_link (some node) (some reciever_inode) fs = ok (copy_link_inode node reciever_inode) fs

-- The loop that looks for the last slash, from the index `n` down.
unfoldable pub last_slash : Chars → ℕ → Option ℕ
last_slash path zero = if get_or path 0 0 == slash then some 0 else none
last_slash path (suc n) =
    let rest = last_slash path n in if get_or path (suc n) 0 == slash then some (suc n) else rest

-- A new file in the directory that the parser finds.
unfoldable pub file_in : Fresh → Chars → ℕ → Option Inode → Cmd (Option Inode)
file_in fresh name mode none fs = fault
file_in fresh name mode (some directory) fs = insert_file fresh name mode directory fs

-- The branch of a path with a slash: the link is made in memory only.
unfoldable pub link_in : ℕ → Fresh → Chars → Chars → Option Inode → Cmd (Unit {0})
unfolding file_in copy_link
link_in n fresh directory_path name node fs =
    and_then (at_path (parser_path fs n directory_path fs.current) (file_in fresh name 777) fs)
      (λ created fs1. and_then (copy_link node created fs1) (λ link fs2. ok tt fs2))

-- The branch of a name alone: the link is stored.
unfoldable pub link_here : Fresh → Chars → Option Inode → Cmd (Unit {0})
unfolding copy_link
link_here fresh name node fs = and_then (insert_file fresh name 2 fs.current fs) (λ created fs1.
    and_then (copy_link node created fs1) (λ link fs2. ok tt (fs_insert_inode fs2 link)))

-- The end of `links`. The name ends behind the memory that it was given, and the 0 takes the place of
-- the slash.
unfoldable pub links_at : ℕ → Fresh → Chars → Option ℕ → Option Inode → Cmd (Unit {0})
unfolding link_here link_in
links_at n fresh path2 none node fs = link_here fresh path2 node fs
links_at n fresh path2 (some i) node fs =
    let quant_chars = suc i in
    link_in n fresh (set (take quant_chars path2) i 0)
      (take (str_len path2 - quant_chars) (drop quant_chars path2) ++ (0 ∷ [])) node fs

-- `links`, which cuts off the last character of `path1`.
unfoldable pub links : ℕ → Fresh → Chars → Chars → Cmd (Unit {0})
unfolding links_at last_slash
links n fresh path1 path2 fs =
    if str_len path1 == 0
    then fault
    else at_path (parser_path fs n (set path1 (str_len path1 - 1) 0) fs.current)
        (links_at n fresh path2 (last_slash path2 (str_len path2))) fs

-- The end of `link_in_kernel`. Neither text ends; `behind` is what the memory holds behind each.
unfoldable pub link_at : ℕ → Fresh → Chars → Chars → Option ℕ → Option Inode → Cmd (Unit {0})
unfolding link_here link_in
link_at n fresh behind path2 none node fs = link_here fresh path2 node fs
link_at n fresh behind path2 (some i) node fs =
    let quant_chars = suc i in
    link_in n fresh (take quant_chars path2 ++ behind)
      (take (str_len path2 - quant_chars) (drop quant_chars path2) ++ behind) node fs

-- `link_in_kernel`, which looks for `path1` in the root.
unfoldable pub link_in_kernel : ℕ → Fresh → Chars → Chars → Chars → Cmd (Unit {0})
unfolding link_at last_slash
link_in_kernel n fresh behind path1 path2 fs =
    link_at n fresh behind path2 (last_slash path2 (str_len path2))
      (search_directory fs path1 fs.root) fs
