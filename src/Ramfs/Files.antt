-- ===== src/Ramfs/Files.antt =====
-- kernel/fs/ramfs.c: what is done with a node, its look-up included. `ramfs_write` takes `kmalloc`
-- as an argument: the bytes of the block that it returns for a size, or `none` for NULL.
use next_os.Prelude.{
  ℕ, ◌+◌, ◌-◌, ◌%◌, ◌^◌, Bool, true, false, not, ◌&&◌, ◌||◌, Option, none, some, List, [], ◌∷◌, ltb,
  leb, ◌==◌, if◌then◌else◌, length, get_or, set, take, drop,
}
use next_os.Prelude.Words.{word_mod}
use next_os.Prelude.Slices.{overlay}
use next_os.Ramfs.Strings.{Outcome, fault, error, done, slash, split_path, max_path}
use next_os.Ramfs.Table.{
  NodeType, file, directory, Entry, Ramfs, no_entry, find_entry, max_files, sync_to_disk,
}

-- The fields of `vfs_node_t` that depend on the entry; `is_dir` says that `readdir` is not NULL.
pub record Node : Type 0 where
  pub name : List ℕ
  pub type : NodeType
  pub size : ℕ
  pub fs_data : ℕ
  pub is_dir : Bool

unfoldable pub is_file : NodeType → Bool
is_file file = true
is_file directory = false

unfoldable pub node_of : Ramfs → ℕ → Node
node_of r idx =
    let e = get_or r.entries idx no_entry in
    record {
      name = e.name;
      type = e.type;
      size = e.size;
      fs_data = idx;
      is_dir = not (is_file e.type);
    }

unfoldable pub lookup_found : Ramfs → Option ℕ → Outcome Node
lookup_found r none = error
lookup_found r (some idx) = done (node_of r idx)

unfoldable pub lookup_at : Ramfs → Outcome (List ℕ × List ℕ) → Outcome Node
lookup_at r fault = fault
lookup_at r error = error
lookup_at r (done (parent, name)) =
    if length name == 0 then error else lookup_found r (find_entry r parent name)

-- The path without one slash at its end, as the second attempt of `ramfs_lookup` copies it.
unfoldable pub stripped : List ℕ → List ℕ
stripped path =
    let len = length path in
    if ltb 1 len && (get_or path (len - 1) 0 == slash) then take (len - 1) path else path

unfoldable pub split_again : List ℕ → Outcome (List ℕ × List ℕ) → Outcome (List ℕ × List ℕ)
split_again path fault = fault
split_again path error = error
split_again path (done (parent, name)) =
    if length name == 0
    then if leb max_path (length (stripped path)) then fault else split_path (stripped path)
    else done (parent, name)

-- `ramfs_lookup` of a path that is not NULL
unfoldable pub ramfs_lookup : Ramfs → List ℕ → Outcome Node
ramfs_lookup r path = lookup_at r (split_again path (split_path path))

-- The guards that `ramfs_read` and `ramfs_write` share, for the index `fs_data` cut to an `int`:
-- the entry, if it is a file in use.
unfoldable pub open_file : Ramfs → ℕ → Option Entry
open_file r fs_data =
    let idx = fs_data % 2 ^ 32 in
    let e = get_or r.entries idx no_entry in
    if leb max_files idx || (not e.used || not (is_file e.type)) then none else some e

-- The bytes of a block from `offset` on.
unfoldable pub read_block : Option (List ℕ) → ℕ → ℕ → Outcome (List ℕ)
read_block none offset size = done []
read_block (some block) offset size =
    if not (size == 0) && ltb (length block) (offset + size)
    then fault
    else done (take size (drop offset block))

unfoldable pub read_entry : Option Entry → ℕ → ℕ → Outcome (List ℕ)
read_entry none offset size = error
read_entry (some e) offset size =
    let clipped = if ltb e.size ((offset + size) % word_mod) then e.size - offset else size in
    if leb e.size offset then done [] else read_block e.content offset clipped

-- `ramfs_read` with a node and a buffer: the bytes read, whose number the code returns.
unfoldable pub ramfs_read : Ramfs → ℕ → ℕ → ℕ → Outcome (List ℕ)
ramfs_read r fs_data offset size = read_entry (open_file r fs_data) offset size

-- The loop that copies the old data to a new block.
unfoldable pub copy_old : Option (List ℕ) → ℕ → List ℕ → Outcome (List ℕ)
copy_old none size block = done block
copy_old (some old) size block =
    if ltb (length old) size || ltb (length block) size
    then fault
    else done (overlay block 0 (take size old))

unfoldable pub with_block : Entry → ℕ → Outcome (List ℕ) → Outcome Entry
with_block e capacity fault = fault
with_block e capacity error = error
with_block e capacity (done block) = done (record e { content = some block; capacity = capacity })

unfoldable pub grow_to : Entry → ℕ → Option (List ℕ) → Outcome Entry
grow_to e capacity none = error
grow_to e capacity (some block) = with_block e capacity (copy_old e.content e.size block)

abbrev pub max_data : ℕ
max_data = 8192

-- The growth of the buffer to `needed` bytes.
unfoldable pub grow : (ℕ → Option (List ℕ)) → Entry → ℕ → Outcome Entry
grow kmalloc e needed =
    let wanted = (needed + 1024) % word_mod in
    let new_cap = if ltb max_data wanted then max_data else wanted in
    if leb needed e.capacity
    then done e
    else if ltb new_cap needed
    then error
    else grow_to e new_cap (kmalloc new_cap)

unfoldable pub write_block : Option (List ℕ) → ℕ → List ℕ → Outcome (Option (List ℕ))
write_block none offset [] = done none
write_block none offset (b ∷ bs) = fault
write_block (some block) offset buf =
    if not (length buf == 0) && ltb (length block) (offset + length buf)
    then fault
    else done (some (overlay block offset buf))

unfoldable pub with_content : Entry → ℕ → Outcome (Option (List ℕ)) → Outcome Entry
with_content e needed fault = fault
with_content e needed error = error
with_content e needed (done content) =
    done (record e { content = content; size = if ltb e.size needed then needed else e.size })

unfoldable pub write_grown : ℕ → ℕ → List ℕ → Outcome Entry → Outcome Entry
write_grown needed offset buf fault = fault
write_grown needed offset buf error = error
write_grown needed offset buf (done e) = with_content e needed (write_block e.content offset buf)

-- What `ramfs_write` makes of the entry.
unfoldable pub write_entry : (ℕ → Option (List ℕ)) → Option Entry → ℕ → List ℕ → Outcome Entry
write_entry kmalloc none offset buf = error
write_entry kmalloc (some e) offset buf =
    let needed = (offset + length buf) % word_mod in
    write_grown needed offset buf (grow kmalloc e needed)

unfoldable pub put_entry : Ramfs → ℕ → Outcome Entry → Outcome Ramfs
put_entry r idx fault = fault
put_entry r idx error = error
put_entry r idx (done e) = done (sync_to_disk (record r { entries = set r.entries idx e }))

-- `ramfs_write` with a node and a buffer of bytes; it returns their number.
unfoldable pub ramfs_write : (ℕ → Option (List ℕ)) → Ramfs → ℕ → ℕ → List ℕ → Outcome Ramfs
ramfs_write kmalloc r fs_data offset buf =
    put_entry r (fs_data % 2 ^ 32) (write_entry kmalloc (open_file r fs_data) offset buf)
