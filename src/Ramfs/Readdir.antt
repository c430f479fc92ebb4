-- ===== src/Ramfs/Readdir.antt =====
-- `ramfs_readdir` of kernel/fs/ramfs.c.
use next_os.Prelude.{
  ℕ, ◌+◌, ◌-◌, ◌%◌, ◌^◌, Bool, not, ◌&&◌, Option, none, some, List, [], ◌∷◌, ◌++◌, ltb, leb, ◌==◌,
  if◌then◌else◌, length, get_or, take,
}
use next_os.Ramfs.Strings.{Outcome, fault, error, done, same, slash, max_path}
use next_os.Ramfs.Table.{Entry, Ramfs, no_entry, max_files}
use next_os.Ramfs.Files.{Node, lookup_found}

-- The path with a slash behind it, unless it is empty or has one.
unfoldable pub close_path : List ℕ → List ℕ
close_path path =
    let len = length path in
    if ltb 0 len && not (get_or path (len - 1) 0 == slash) then path ++ (slash ∷ []) else path

-- The path of a directory, in a buffer of `max_path` bytes.
unfoldable pub path_of : Entry → Outcome (List ℕ)
path_of e =
    let path = close_path (take (max_path - 1) (e.parent ++ e.name)) in
    if leb max_path (length path) then fault else done path

-- `dir_path`, for the node's index cut to an `int`.
unfoldable pub dir_path : Ramfs → ℕ → Outcome (List ℕ)
dir_path r fs_data =
    let idx = fs_data % 2 ^ 32 in
    let e = get_or r.entries idx no_entry in
    if ltb idx max_files && e.used then path_of e else done (slash ∷ [])

abbrev pub is_child : List ℕ → Entry → Bool
is_child dir e = e.used && same e.parent dir

-- The loop along the entries, at the index `i` with `count` children passed.
unfoldable pub nth_child : List ℕ → ℕ → ℕ → ℕ → List Entry → Option ℕ
nth_child dir index i count [] = none
nth_child dir index i count (e ∷ es) =
    let skip = nth_child dir index (i + 1) count es in
    let next = nth_child dir index (i + 1) (count + 1) es in
    if is_child dir e then (if count == index then some i else next) else skip

unfoldable pub readdir_at : Ramfs → ℕ → Outcome (List ℕ) → Outcome Node
readdir_at r index fault = fault
readdir_at r index error = error
readdir_at r index (done dir) = lookup_found r (nth_child dir index 0 0 r.entries)

-- `ramfs_readdir` with nodes that are not NULL, and an index that is not negative
unfoldable pub ramfs_readdir : Ramfs → ℕ → ℕ → Outcome Node
ramfs_readdir r fs_data index = readdir_at r index (dir_path r fs_data)
