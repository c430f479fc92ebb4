-- ===== src/Ramfs/Rename.antt =====
-- `ramfs_rename` of kernel/fs/ramfs.c.
use next_os.Prelude.{
  ℕ, ◌<◌, ◌≡◌, refl, sym, ap, ◌∙◌, ◌≢◌, none, some, List, length, get_or, set, get_or-set_self,
  get_or-set_ne, arith,
}
use mathlib.Core.Path.{subst}
use next_os.Ramfs.{rename_found, rename_at, ramfs_rename}
use next_os.Ramfs.Strings.{done, split_path}
use next_os.Ramfs.Table.{Entry, Ramfs, no_entry, sync_to_disk, find_entry, is_named}
use next_os.Ramfs.Find.{find_from-none, find_from-first}
use next_os.Ramfs.Valid.{IsValid, set-IsValid, sync_to_disk-entries, sync_to_disk-count}
use next_os.Ramfs.Create.{is_named_lem, clash}
use next_os.Ramfs.Delete.{find_entry-Found}

abbrev pub renamed : Entry → List ℕ → List ℕ → Entry
renamed e parent name = record e { name = name; parent = parent }

-- The entry at `k` has a new path, and is found under it; the other entries stay.
pub record Renamed (r : Ramfs) (parent name : List ℕ) (k : ℕ) (r' : Ramfs) : Type 0 where
  pub valid : IsValid r'
  pub found : find_entry r' parent name ≡ some k
  pub made : get_or r'.entries k no_entry ≡ renamed (get_or r.entries k no_entry) parent name
  pub others : (j : ℕ) → k ≢ j → get_or r'.entries j no_entry ≡ get_or r.entries j no_entry

rename_found-Renamed :
    (r : Ramfs) (parent name new_parent new_name : List ℕ) (k : ℕ)
    → IsValid r
    → find_entry r parent name ≡ some k
    → find_entry r new_parent new_name ≡ none
    → Renamed r new_parent new_name k (
        sync_to_disk (record r {
          entries = set r.entries k (renamed (get_or r.entries k no_entry) new_parent new_name);
        }))
rename_found-Renamed r parent name new_parent new_name k v found absent =
    let f = find_entry-Found r parent name k v found in
    let old = get_or r.entries k no_entry in
    let e = renamed old new_parent new_name in
    let s : Ramfs = record r { entries = set r.entries k e } in
    let entries = sync_to_disk-entries s in
    let short : k < length r.entries = omega (arith, v.table, f.in_table) in
    let absent_at = find_from-none (is_named new_parent new_name) 0 r.entries absent in
    let others : ((j : ℕ)
        → k ≢ j
        → get_or (sync_to_disk s).entries j no_entry ≡ get_or r.entries j no_entry) =
      λ j off.
        ap (λ es. get_or es j no_entry) entries ∙ get_or-set_ne r.entries k j e no_entry off in
    let made : get_or (sync_to_disk s).entries k no_entry ≡ e =
      ap (λ es. get_or es k no_entry) entries ∙ get_or-set_self r.entries k e no_entry short in
    let v_old = v.stored k f.in_table in
    let valid =
      set-IsValid r (sync_to_disk s) k e v f.in_table entries (omega (arith, sync_to_disk-count s))
        (record { bounded = v_old.bounded; sized = v_old.sized; fits = v_old.fits })
        (λ j h off u used path.
          clash
            (is_named_lem (get_or r.entries j no_entry) new_parent new_name used (sym path.0)
              (sym path.1))
            (absent_at j (omega (arith, v.table)))) in
    let at =
      find_from-first (is_named new_parent new_name) 0 k (sync_to_disk s).entries
        (subst (λ n. k < n) (sym valid.table) f.in_table)
        (ap (is_named new_parent new_name) made
          ∙ is_named_lem e new_parent new_name f.in_use refl refl)
        (λ j h.
          ap (is_named new_parent new_name) (others j (omega arith))
          ∙ absent_at j (omega (arith, v.table))) in
    record { valid = valid; found = at ∙ ap some (omega arith); made = made; others = others }

-- On a valid table, `ramfs_rename` of a path that is in use to one that is not, where both can be
-- split, succeeds: the entry is found under the new path, with its content, the other entries stay,
-- and the table is valid.
pub ramfs_rename-Renamed :
    (r : Ramfs) (old_path new_path parent name new_parent new_name : List ℕ) (k : ℕ)
    → IsValid r
    → split_path old_path ≡ done (parent, name)
    → split_path new_path ≡ done (new_parent, new_name)
    → find_entry r parent name ≡ some k
    → find_entry r new_parent new_name ≡ none
    → (r' : Ramfs) × (ramfs_rename r old_path new_path ≡ done r')
      × Renamed r new_parent new_name k r'
unfolding ramfs_rename rename_at rename_found
ramfs_rename-Renamed r old_path new_path parent name new_parent new_name k v from to found absent =
    (
      _,
      rw (from, to, found) refl,
      rename_found-Renamed r parent name new_parent new_name k v found absent,
    )
