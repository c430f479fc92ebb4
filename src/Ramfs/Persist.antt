-- ===== src/Ramfs/Persist.antt =====
-- `ramfs_init` of kernel/fs/ramfs.c after `ramfs_sync_to_disk`: the files that come back.
use next_os.Prelude.{
  ℕ, zero, suc, ◌+◌, ◌-◌, ◌^◌, ◌≤◌, ◌<◌, ◌≡◌, refl, sym, ap, ◌∙◌, inl, inr, Bool, true, false, not,
  Option, some, List, [], ◌∷◌, ◌++◌, ltb, length, get_or, drop, Bool-cases, arith,
}
use mathlib.Core.Path.{ap₂}
use next_os.Prelude.Bytes.{read32}
use next_os.Prelude.Slices.{length-drop}
use next_os.Ramfs.Strings.{done, same, slash, desktop, documents, images}
use next_os.Ramfs.Table.{
  Entry, Ramfs, no_entry, find_from, is_named, is_user, is_builtin, is_builtin_name, count_users,
  entry_writes, le32, pad_to, max_files, persist_lba, persist_magic, sync_to_disk,
}
use next_os.Ramfs.Find.{same-eq}
use next_os.Ramfs.Valid.{IsValid}
use next_os.Ramfs.Load.{
  cleared, builtin, with_builtins, load_entries, load_header, load_from_disk, ramfs_init,
}
use next_os.Ramfs.Decode.{Savable}
use next_os.Ramfs.Sectors.{
  disk_after, disk_after-append, disk_after-Finds, Finds, Rising, Rising-entry_writes,
}
use next_os.Ramfs.Reload.{Plentiful, Nowhere, AllFree}
use next_os.Ramfs.Users.{users, AllReloaded}
use next_os.Ramfs.LoadLoop.{Loading, Loaded, load_entries-Loaded}

abbrev pub builtins : List Entry
builtins = builtin desktop ∷ builtin documents ∷ builtin images ∷ []

abbrev header : ℕ → List ℕ
header count = pad_to 512 (le32 persist_magic ++ le32 count)

header-magic : (count : ℕ) → read32 (header count) 0 ≡ persist_magic
unfolding pad_to le32
header-magic count = refl

header-count : (count : ℕ) → count < 2 ^ 32 → read32 (header count) 4 ≡ count
unfolding pad_to le32
header-count count lt = omega arith

count_users-users : (es : List Entry) → count_users es ≡ length (users es)
unfolding count_users users
count_users-users [] = refl
count_users-users (e ∷ es) = elim (Bool-cases (is_user e)) [
  | inl user ↦ rw user (ap suc (count_users-users es))
  | inr other ↦ rw other (count_users-users es)
]

Finds-ext :
    (ws : List (ℕ × List ℕ)) (d d' : ℕ → List ℕ) → ((k : ℕ) → d k ≡ d' k) → Finds d ws → Finds d' ws
unfolding Finds
Finds-ext [] d d' same h = tt
Finds-ext ((lba, bytes) ∷ ws) d d' same (here, h) =
    (sym (same lba) ∙ here, Finds-ext ws d d' same h)

sync_writes :
    (r : Ramfs)
    → r.disk ≡ true
    → (sync_to_disk r).disk_writes
      ≡ r.disk_writes
        ++ ((persist_lba, header (count_users r.entries))
            ∷ entry_writes (persist_lba + 1) r.entries)
unfolding sync_to_disk
sync_writes r on = rw on refl

-- What the disk has after `ramfs_sync_to_disk`.
synced :
    (r : Ramfs) (d0 : ℕ → List ℕ)
    → r.disk ≡ true
    → Finds
        (disk_after (sync_to_disk r).disk_writes d0)
        ((persist_lba, header (count_users r.entries)) ∷ entry_writes (persist_lba + 1) r.entries)
unfolding Rising
synced r d0 on =
    let ws =
      (persist_lba, header (count_users r.entries)) ∷ entry_writes (persist_lba + 1) r.entries in
    Finds-ext ws (disk_after ws (disk_after r.disk_writes d0))
      (disk_after (sync_to_disk r).disk_writes d0)
      (λ k.
        sym (
          ap (λ q. disk_after q d0 k) (sync_writes r on) ∙ disk_after-append r.disk_writes ws d0 k))
      (disk_after-Finds ws (disk_after r.disk_writes d0) persist_lba
        (omega arith, Rising-entry_writes (persist_lba + 1) r.entries))

load_header-goes :
    (kmalloc : ℕ → Option (List ℕ)) (d : ℕ → List ℕ) (r : Ramfs) (count : ℕ)
    → r.disk ≡ true
    → d persist_lba ≡ header count
    → count ≤ max_files - 3
    → load_from_disk kmalloc (λ q. some (d q)) r
      ≡ load_entries kmalloc (λ q. some (d q)) count (persist_lba + 1) r
unfolding load_from_disk load_header
load_header-goes kmalloc d r count on here small =
    let counted : read32 (header count) 4 ≡ count = header-count count (omega arith) in
    let test : ltb (max_files - 3) count ≡ false = ground arith in
    rw (on, here, header-magic count, counted, test) refl

with_builtins-first : (es : List Entry) → 3 ≤ length es → with_builtins es ≡ builtins ++ drop 3 es
unfolding with_builtins
with_builtins-first [] le = absurd (omega arith)
with_builtins-first (x ∷ []) le = absurd (omega arith)
with_builtins-first (x ∷ y ∷ []) le = absurd (omega arith)
with_builtins-first (x ∷ y ∷ z ∷ es) le = refl

cleared-AllFree : (es : List Entry) → AllFree (cleared es)
unfolding cleared AllFree
cleared-AllFree [] = tt
cleared-AllFree (e ∷ es) = (refl, cleared-AllFree es)

drop-AllFree : (n : ℕ) (es : List Entry) → AllFree es → AllFree (drop n es)
unfolding AllFree
drop-AllFree zero es h = h
drop-AllFree (suc n) [] h = h
drop-AllFree (suc n) (e ∷ es) (free, h) = drop-AllFree n es h

length-cleared : (es : List Entry) → length (cleared es) ≡ length es
unfolding cleared
length-cleared [] = refl
length-cleared (e ∷ es) = ap suc (length-cleared es)

builtins-full : Nowhere (λ e. not e.used) builtins
unfolding find_from builtin
builtins-full i = refl

used_user : (e : Entry) → is_user e ≡ true → e.used ≡ true
unfolding is_user
used_user e user = ground arith

not_builtin : (e : Entry) → is_user e ≡ true → is_builtin e.parent e.name ≡ false
unfolding is_user
not_builtin e user = ground arith

-- An entry that is written is none of the built-in directories.
other_than :
    (e : Entry) (name : List ℕ)
    → is_user e ≡ true
    → is_builtin (slash ∷ []) name ≡ true
    → is_named e.parent e.name (builtin name) ≡ false
unfolding builtin
other_than e name user builtin_name = elim (Bool-cases (is_named e.parent e.name (builtin name))) [
  | inr off ↦ off
  | inl named ↦
      let parent = same-eq (slash ∷ []) e.parent (ground arith) in
      let name_eq = same-eq name e.name (ground arith) in
      absurd (clash (sym (ap₂ is_builtin parent name_eq) ∙ builtin_name) (not_builtin e user))
]
  where
    clash : {b : Bool} → b ≡ true → b ≡ false → ⊥
    clash p q = cc

builtins-apart : (e : Entry) → is_user e ≡ true → Nowhere (is_named e.parent e.name) builtins
unfolding find_from is_builtin is_builtin_name same
builtins-apart e user i =
    rw
      (
        other_than e desktop user refl,
        other_than e documents user refl,
        other_than e images user refl,
      )
      refl

-- The state of the loop at its beginning.
init-Loading :
    (d : ℕ → List ℕ) (r r0 : Ramfs)
    → IsValid r
    → length r0.entries ≡ max_files
    → length (users r.entries) ≤ max_files - 3
    → ((k : ℕ)
        → k < max_files
        → is_user (get_or r.entries k no_entry) ≡ true
        → Savable (get_or r.entries k no_entry))
    → Finds d (entry_writes (persist_lba + 1) r.entries)
    → (kmalloc : ℕ → Option (List ℕ))
    → Loading kmalloc d builtins
        (drop 3 (cleared r0.entries))
        r.entries
        (persist_lba + 1)
        (record r0 { entries = with_builtins (cleared r0.entries); entry_count = 3 })
init-Loading d r r0 v whole small savable finds kmalloc =
    let entry = λ (k : ℕ). get_or r.entries k no_entry in
    let inside : ((k : ℕ) → k < length r.entries → k < max_files) =
      λ k lt. omega (arith, v.table) in
    record {
      at =
          with_builtins-first (cleared r0.entries)
            (omega (arith, length-cleared r0.entries, whole));
      full = builtins-full;
      free = drop-AllFree 3 (cleared r0.entries) (cleared-AllFree r0.entries);
      room =
          omega
            (arith, small, length-drop 3 (cleared r0.entries), length-cleared r0.entries, whole);
      finds = finds;
      savable = λ k lt user. (savable k (inside k lt) user, v.stored k (inside k lt));
      apart = λ k lt user. builtins-apart (entry k) user;
      distinct = λ i j hi hj ui uj path.
          v.distinct i j (inside i hi) (inside j hj) (used_user (entry i) ui)
            (used_user (entry j) uj) path;
    }

init-load :
    (kmalloc read : ℕ → Option (List ℕ)) (r0 : Ramfs)
    → ramfs_init kmalloc read r0
      ≡ load_from_disk kmalloc read
          (record r0 { entries = with_builtins (cleared r0.entries); entry_count = 3 })
unfolding ramfs_init
init-load kmalloc read r0 = refl

-- On a disk to which `ramfs_sync_to_disk` wrote a valid table with at most 125 entries other than the
-- built-in directories, whose names and parents hold no NUL and are shorter than 128 and 256 bytes,
-- `ramfs_init` makes a table of the built-in directories and, behind them and in their order, of an
-- entry for each of those, with its name, parent, type and size and the bytes of its file; the rest
-- of the table is free. `kmalloc` has memory for every file.
pub ramfs_init-sync_to_disk :
    (kmalloc : ℕ → Option (List ℕ)) (d0 : ℕ → List ℕ) (r r0 : Ramfs)
    → Plentiful kmalloc
    → IsValid r
    → r.disk ≡ true
    → r0.disk ≡ true
    → length r0.entries ≡ max_files
    → length (users r.entries) ≤ max_files - 3
    → ((k : ℕ)
        → k < max_files
        → is_user (get_or r.entries k no_entry) ≡ true
        → Savable (get_or r.entries k no_entry))
    → (ls : List Entry) × (ramfs_init kmalloc
          (λ k. some (disk_after (sync_to_disk r).disk_writes d0 k))
          r0
        ≡ done (record r0 {
          entries = builtins ++ (ls ++ drop (length ls) (drop 3 (cleared r0.entries)));
          entry_count = 3 + length ls;
        }))
      × AllReloaded (users r.entries) ls
unfolding Finds Loaded
ramfs_init-sync_to_disk kmalloc d0 r r0 plenty v on on0 whole small savable =
    let d = disk_after (sync_to_disk r).disk_writes d0 in
    let (first, finds) = synced r d0 on in
    let start = record r0 { entries = with_builtins (cleared r0.entries); entry_count = 3 } in
    let (ls, run, all) =
      load_entries-Loaded kmalloc d builtins (drop 3 (cleared r0.entries)) r.entries
        (persist_lba + 1) start plenty (init-Loading d r r0 v whole small savable finds kmalloc) in
    (
      ls,
      init-load kmalloc (λ k. some (d k)) r0
          ∙ load_header-goes kmalloc d start (count_users r.entries) on0 first
              (omega (arith, count_users-users r.entries, small))
          ∙ run,
      all,
    )
