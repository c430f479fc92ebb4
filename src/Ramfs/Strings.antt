-- ===== src/Ramfs/Strings.antt =====
-- The string helpers of kernel/fs/ramfs.c. A C string is the list of its bytes before the NUL.
pub use next_os.Prelude.Outcome.{Outcome, fault, error, done}
use next_os.Prelude.{
  ℕ, zero, suc, ◌+◌, ◌-◌, Bool, true, false, ◌&&◌, ◌||◌, List, [], ◌∷◌, ltb, leb, ◌==◌,
  if◌then◌else◌, length, get_or, take, drop, bytes_of,
}

-- `ramfs_strcmp(a, b) == 0`
unfoldable pub same : List ℕ → List ℕ → Bool
same [] [] = true
same [] (y ∷ ys) = false
same (x ∷ xs) [] = false
same (x ∷ xs) (y ∷ ys) = (x == y) && same xs ys

-- `ramfs_starts_with`
unfoldable pub starts_with : List ℕ → List ℕ → Bool
starts_with str [] = true
starts_with [] (c ∷ prefix) = false
starts_with (b ∷ str) (c ∷ prefix) = (b == c) && starts_with str prefix

abbrev pub slash : ℕ
slash = b'/'

abbrev pub desktop : List ℕ
desktop = bytes_of "Desktop"

abbrev pub documents : List ℕ
documents = bytes_of "Documents"

abbrev pub images : List ℕ
images = bytes_of "Images"

-- `ramfs_is_ramfs_path` of a path that is not NULL
unfoldable pub is_ramfs_path : List ℕ → Bool
is_ramfs_path [] = false
is_ramfs_path (c ∷ path) =
    (c == slash)
    && (starts_with path desktop || (starts_with path documents || starts_with path images))

-- The length of a path without one slash at its end, unless that slash is all of it.
unfoldable pub path_end : List ℕ → ℕ
path_end path =
    let len = length path in
    if ltb 1 len && (get_or path (len - 1) 0 == slash) then len - 1 else len

-- The loop that looks for the last slash, with `n` rounds left at index `i`.
unfoldable pub last_slash_from : ℕ → ℕ → ℕ → List ℕ → ℕ
last_slash_from zero i last path = last
last_slash_from (suc n) i last path =
    last_slash_from n (i + 1) (if get_or path i 0 == slash then i else last) path

unfoldable pub last_slash : List ℕ → ℕ
last_slash path = last_slash_from (path_end path) 0 0 path

abbrev pub max_path : ℕ
max_path = 256

abbrev pub max_name : ℕ
max_name = 128

-- The parent and the name that `split_path` copies.
unfoldable pub parent_of : List ℕ → List ℕ
parent_of path = take (last_slash path + 1) path

unfoldable pub name_of : List ℕ → List ℕ
name_of path = take (path_end path - (last_slash path + 1)) (drop (last_slash path + 1) path)

-- `split_path`: the parent and the name. Their buffers take `max_path` and `max_name` bytes, the
-- NUL included; the code does not check that they are long enough.
unfoldable pub split_path : List ℕ → Outcome (List ℕ × List ℕ)
split_path path =
    if leb max_path (length (parent_of path)) || leb max_name (length (name_of path))
    then fault
    else done (parent_of path, name_of path)
