-- ===== src/Ramfs/Place.antt =====
-- `dir_path` of kernel/fs/ramfs.c: the path of the directory that a node stands for.
use next_os.Prelude.{
  ℕ, ◌-◌, ◌%◌, ◌^◌, ◌≤◌, ◌<◌, ◌≡◌, ◌≢◌, refl, sym, ap, ◌∙◌, true, false, not, ◌&&◌, List, [], ◌∷◌,
  ◌++◌, length, take, get_or, ltb, leb, ◌==◌, length-append, arith,
}
use next_os.Prelude.Slices.{take_all}
use next_os.Ramfs.Strings.{slash, done}
use next_os.Ramfs.Table.{Entry, Ramfs, no_entry, max_files}
use next_os.Ramfs.Readdir.{dir_path, path_of, close_path}

-- The path of the directory behind a node: that of the root behind an index that is no used entry's;
-- otherwise the entry's, which ends in a slash, where it fits into 256 bytes with its NUL.
pub data Place (r : Ramfs) (index : ℕ) (dir : List ℕ) : Type 0 where
  no_index : max_files ≤ index → dir ≡ slash ∷ [] → Place r index dir
  not_used : (get_or r.entries index no_entry).used ≡ false → dir ≡ slash ∷ [] → Place r index dir
  opened :
      (path : List ℕ)
      → index < max_files
      → (get_or r.entries index no_entry).used ≡ true
      → path ≡ (get_or r.entries index no_entry).parent ++ (get_or r.entries index no_entry).name
      → 0 < length path
      → get_or path (length path - 1) 0 ≢ slash
      → length path < 255
      → dir ≡ path ++ (slash ∷ [])
      → Place r index dir
  ended :
      index < max_files
      → (get_or r.entries index no_entry).used ≡ true
      → dir ≡ (get_or r.entries index no_entry).parent ++ (get_or r.entries index no_entry).name
      → get_or dir (length dir - 1) 0 ≡ slash
      → length dir < 256
      → Place r index dir

not_past : (n : ℕ) → n < 256 → leb 256 n ≡ false
not_past n small = ground arith

path_of-opened :
    (e : Entry) (path : List ℕ)
    → path ≡ e.parent ++ e.name
    → 0 < length path
    → get_or path (length path - 1) 0 ≢ slash
    → length path < 255
    → path_of e ≡ done (path ++ (slash ∷ []))
unfolding path_of close_path
path_of-opened e path is_path some_byte open_end fits =
    let whole : take 255 (e.parent ++ e.name) ≡ path =
      ap (take 255) (sym is_path) ∙ take_all 255 path (omega arith) in
    let adds : (ltb 0 (length path) && not (get_or path (length path - 1) 0 == slash)) ≡ true =
      ground arith in
    let inside : leb 256 (length (path ++ (slash ∷ []))) ≡ false =
      not_past (length (path ++ (slash ∷ []))) (omega (arith, length-append path (slash ∷ []))) in
    rw (whole, adds, inside) refl

path_of-ended :
    (e : Entry) (dir : List ℕ)
    → dir ≡ e.parent ++ e.name
    → get_or dir (length dir - 1) 0 ≡ slash
    → length dir < 256
    → path_of e ≡ done dir
unfolding path_of close_path
path_of-ended e dir is_path closed fits =
    let whole : take 255 (e.parent ++ e.name) ≡ dir =
      ap (take 255) (sym is_path) ∙ take_all 255 dir (omega arith) in
    let adds : (ltb 0 (length dir) && not (get_or dir (length dir - 1) 0 == slash)) ≡ false =
      ground arith in
    let inside : leb 256 (length dir) ≡ false = ground arith in rw (whole, adds, inside) refl

pub dir_path-Place :
    (r : Ramfs) (fs_data : ℕ) (dir : List ℕ)
    → Place r (fs_data % 2 ^ 32) dir
    → dir_path r fs_data ≡ done dir
unfolding dir_path
dir_path-Place r fs_data dir (no_index past is_root) =
    let test : ltb (fs_data % 2 ^ 32) max_files ≡ false = ground arith in
    rw test (ap done (sym is_root))
dir_path-Place r fs_data dir (not_used unused is_root) =
    let test : (ltb (fs_data % 2 ^ 32) max_files
          && (get_or r.entries (fs_data % 2 ^ 32) no_entry).used)
        ≡ false =
      ground arith in
    rw test (ap done (sym is_root))
dir_path-Place r fs_data dir (opened path low is_used is_path some_byte open_end fits is_dir) =
    let test : ltb (fs_data % 2 ^ 32) max_files ≡ true = ground arith in
    rw (test, is_used)
      (path_of-opened (get_or r.entries (fs_data % 2 ^ 32) no_entry) path is_path some_byte open_end
          fits
        ∙ ap done (sym is_dir))
dir_path-Place r fs_data dir (ended low is_used is_path closed fits) =
    let test : ltb (fs_data % 2 ^ 32) max_files ≡ true = ground arith in
    rw (test, is_used)
      (path_of-ended (get_or r.entries (fs_data % 2 ^ 32) no_entry) dir is_path closed fits)
