-- ===== src/Ramfs/Table.antt =====
-- The entry table of kernel/fs/ramfs.c and what is written of it to the disk.
use next_os.Prelude.{
  ℕ, zero, suc, ◌+◌, ◌-◌, ◌*◌, ◌/◌, ◌%◌, ◌^◌, min, Bool, false, not, ◌&&◌, ◌||◌, Option, none, some,
  List, [], ◌∷◌, ◌++◌, ltb, if◌then◌else◌, length, take, drop, replicate,
}
use next_os.Ramfs.Strings.{same, slash, desktop, documents, images}

pub data NodeType : Type 0 where
  file : NodeType
  directory : NodeType

-- `ramfs_entry_t`; `content` is the block that `data` points to, `none` for NULL.
pub record Entry : Type 0 where
  pub name : List ℕ
  pub parent : List ℕ
  pub type : NodeType
  pub content : Option (List ℕ)
  pub size : ℕ
  pub capacity : ℕ
  pub used : Bool

-- An entry that is not used.
abbrev pub no_entry : Entry
no_entry = record {
  name = [];
  parent = [];
  type = file;
  content = none;
  size = 0;
  capacity = 0;
  used = false;
}

-- The variables of the file. `disk` says whether there is a primary disk; `disk_writes` are the
-- calls of `disk_write` so far, each with its sector's number and bytes.
pub record Ramfs : Type 0 where
  pub entries : List Entry
  pub entry_count : ℕ
  pub disk : Bool
  pub disk_writes : List (ℕ × List ℕ)

abbrev pub max_files : ℕ
max_files = 128

abbrev pub persist_lba : ℕ
persist_lba = 8192

abbrev pub persist_magic : ℕ
persist_magic = 0x524D4653

-- The index of the first entry that passes a test, from `i` on.
unfoldable pub find_from : (Entry → Bool) → ℕ → List Entry → Option ℕ
find_from test i [] = none
find_from test i (e ∷ es) = let rest = find_from test (i + 1) es in if test e then some i else rest

abbrev pub is_named : List ℕ → List ℕ → Entry → Bool
is_named parent name e = e.used && (same e.parent parent && same e.name name)

-- `find_entry`
abbrev pub find_entry : Ramfs → List ℕ → List ℕ → Option ℕ
find_entry r parent name = find_from (is_named parent name) 0 r.entries

-- The loop of `ramfs_create` for a slot that is not used.
abbrev pub find_slot : Ramfs → Option ℕ
find_slot r = find_from (λ e. not e.used) 0 r.entries

-- Whether a name is that of a built-in directory.
unfoldable pub is_builtin_name : List ℕ → Bool
is_builtin_name name = same name desktop || (same name documents || same name images)

unfoldable pub is_builtin : List ℕ → List ℕ → Bool
is_builtin parent name = same parent (slash ∷ []) && is_builtin_name name

-- Four bytes, the lowest first.
unfoldable pub le32 : ℕ → List ℕ
le32 n = n % 256 ∷ n / 256 % 256 ∷ n / 65536 % 256 ∷ n / 16777216 % 256 ∷ []

unfoldable pub pad_to : ℕ → List ℕ → List ℕ
pad_to n xs = xs ++ replicate (n - length xs) 0

-- The value of the type's enumerator.
unfoldable pub type_code : NodeType → ℕ
type_code file = 0
type_code directory = 1

-- `ramfs_disk_entry_t`
unfoldable pub disk_entry : Entry → List ℕ
disk_entry e = pad_to 512 (
    pad_to 128 e.name
    ++ (pad_to 256 e.parent ++ (le32 (type_code e.type) ++ le32 (e.size % 2 ^ 32))))

unfoldable pub is_user : Entry → Bool
is_user e = e.used && not (is_builtin e.parent e.name)

-- `user_count`
unfoldable pub count_users : List Entry → ℕ
count_users [] = 0
count_users (e ∷ es) = let rest = count_users es in if is_user e then suc rest else rest

-- The data sectors of an entry, with `n` left from sector `s` on.
unfoldable pub data_writes : ℕ → ℕ → ℕ → ℕ → List ℕ → List (ℕ × List ℕ)
data_writes zero s lba size block = []
data_writes (suc n) s lba size block =
    (lba + s, pad_to 512 (take (min 512 (size - s * 512)) (drop (s * 512) block)))
    ∷ data_writes n (s + 1) lba size block

unfoldable pub data_sectors : ℕ → ℕ
data_sectors size = (size + 511) % 2 ^ 32 / 512

unfoldable pub content_writes : Option (List ℕ) → ℕ → ℕ → List (ℕ × List ℕ)
content_writes none lba size = []
content_writes (some block) lba size =
    if ltb 0 size then data_writes (data_sectors size) 0 lba size block else []

-- The second loop of `ramfs_sync_to_disk`, at the sector `lba`.
unfoldable pub entry_writes : ℕ → List Entry → List (ℕ × List ℕ)
entry_writes lba [] = []
entry_writes lba (e ∷ es) =
    let size = e.size % 2 ^ 32 in
    let skip = entry_writes lba es in
    let rest = entry_writes (lba + 1 + data_sectors size) es in
    if is_user e
    then (lba, disk_entry e) ∷ (content_writes e.content (lba + 1) size ++ rest)
    else skip

-- `ramfs_sync_to_disk`
unfoldable pub sync_to_disk : Ramfs → Ramfs
sync_to_disk r =
    let header = pad_to 512 (le32 persist_magic ++ le32 (count_users r.entries)) in
    if r.disk
    then record r {
      disk_writes =
          r.disk_writes ++ ((persist_lba, header) ∷ entry_writes (persist_lba + 1) r.entries);
    }
    else r
