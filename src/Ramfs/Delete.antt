-- ===== src/Ramfs/Delete.antt =====
-- `ramfs_delete` of kernel/fs/ramfs.c.
use next_os.Prelude.{
  ℕ, ◌+◌, ◌-◌, ◌<◌, ◌≡◌, refl, sym, ap, ◌∙◌, ◌⊎◌, inl, inr, ◌≢◌, true, false, none, some, List,
  length, get_or, set, get_or-set_self, get_or-set_ne, if◌then◌else◌, Bool-cases, Option-cases,
  arith,
}
use mathlib.Core.Path.{subst}
use native.Mathlib.Decide.{ℕ_discrete}
use next_os.Ramfs.{delete_found, delete_at, ramfs_delete}
use next_os.Ramfs.Strings.{error, done, split_path}
use next_os.Ramfs.Table.{
  Entry, Ramfs, no_entry, max_files, sync_to_disk, find_entry, is_named, is_builtin,
}
use next_os.Ramfs.Grow.{Fits}
use next_os.Ramfs.Find.{find_from-some}
use next_os.Ramfs.Valid.{
  IsValid, weight, count_used-set, set-IsValid, sync_to_disk-entries, sync_to_disk-count,
}
use next_os.Ramfs.Create.{is_named-eq, clash}

-- The entry that `find_entry` finds.
pub record Found (r : Ramfs) (parent name : List ℕ) (k : ℕ) : Type 0 where
  pub in_table : k < max_files
  pub in_use : (get_or r.entries k no_entry).used ≡ true
  pub has_parent : (get_or r.entries k no_entry).parent ≡ parent
  pub has_name : (get_or r.entries k no_entry).name ≡ name

pub find_entry-Found :
    (r : Ramfs) (parent name : List ℕ) (k : ℕ)
    → IsValid r
    → find_entry r parent name ≡ some k
    → Found r parent name k
find_entry-Found r parent name k v found =
    let (k', at, inside, named) = find_from-some (is_named parent name) 0 k r.entries found in
    let here : k' ≡ k = omega arith in
    let (u, p, n) =
      is_named-eq (get_or r.entries k no_entry) parent name
        (subst (λ q. is_named parent name (get_or r.entries q no_entry) ≡ true) here named) in
    record { in_table = omega (arith, v.table); in_use = u; has_parent = p; has_name = n }

abbrev cleared : Entry → Entry
cleared e = record e { content = none; size = 0; capacity = 0; used = false }

-- The entry at `k` is no longer in use; the other entries stay.
pub record Deleted (r : Ramfs) (parent name : List ℕ) (k : ℕ) (r' : Ramfs) : Type 0 where
  pub valid : IsValid r'
  pub gone : find_entry r' parent name ≡ none
  pub unused : (get_or r'.entries k no_entry).used ≡ false
  pub others : (j : ℕ) → k ≢ j → get_or r'.entries j no_entry ≡ get_or r.entries j no_entry

-- No other entry has the path of the one at `k`, which is not in use any more.
no_other_lem :
    (r r' : Ramfs) (parent name : List ℕ) (k j : ℕ)
    → IsValid r
    → Found r parent name k
    → Found r' parent name j
    → (get_or r'.entries k no_entry).used ≡ false
    → ((i : ℕ) → k ≢ i → get_or r'.entries i no_entry ≡ get_or r.entries i no_entry)
    → ⊥
no_other_lem r r' parent name k j v f g unused others = elim (ℕ_discrete k j) [
  | yes here ↦ clash (ap (λ q. (get_or r'.entries q no_entry).used) here ∙ g.in_use) unused
  | no off ↦
      let old = others j off in
      off (
        v.distinct k j f.in_table g.in_table f.in_use (sym (ap (λ e. e.used) old) ∙ g.in_use) (
          f.has_parent ∙ sym g.has_parent ∙ ap (λ e. e.parent) old,
          f.has_name ∙ sym g.has_name ∙ ap (λ e. e.name) old,
        ))
]

delete_found-Deleted :
    (r : Ramfs) (parent name : List ℕ) (k : ℕ)
    → IsValid r
    → find_entry r parent name ≡ some k
    → Deleted r parent name k (
        sync_to_disk (record r {
          entries = set r.entries k (cleared (get_or r.entries k no_entry));
          entry_count = r.entry_count - 1;
        }))
unfolding Fits
delete_found-Deleted r parent name k v found =
    let f = find_entry-Found r parent name k v found in
    let e = cleared (get_or r.entries k no_entry) in
    let s : Ramfs = record r { entries = set r.entries k e; entry_count = r.entry_count - 1 } in
    let entries = sync_to_disk-entries s in
    let short : k < length r.entries = omega (arith, v.table, f.in_table) in
    let others : ((j : ℕ)
        → k ≢ j
        → get_or (sync_to_disk s).entries j no_entry ≡ get_or r.entries j no_entry) =
      λ j off.
        ap (λ es. get_or es j no_entry) entries ∙ get_or-set_ne r.entries k j e no_entry off in
    let unused : (get_or (sync_to_disk s).entries k no_entry).used ≡ false =
      ap (λ es. (get_or es k no_entry).used) entries
      ∙ ap (λ x. x.used) (get_or-set_self r.entries k e no_entry short) in
    let one = ap {B = ℕ} (λ b. if b then 1 else 0) f.in_use in
    let counts : ((sync_to_disk s).entry_count + weight (get_or r.entries k no_entry)
        ≡ r.entry_count + 0) =
      omega (arith, sync_to_disk-count s, one, count_used-set r.entries k e short, v.counted) in
    let valid =
      set-IsValid r (sync_to_disk s) k e v f.in_table entries counts
        (record { bounded = omega arith; sized = omega arith; fits = refl })
        (λ j h off u used path. clash u refl) in
    record {
      valid = valid;
      gone = elim (Option-cases (find_entry (sync_to_disk s) parent name)) [
        | inl gone ↦ gone
        | inr (j, still) ↦ absurd (
            no_other_lem r (sync_to_disk s) parent name k j v f
              (find_entry-Found (sync_to_disk s) parent name j valid still) unused others)
      ];
      unused = unused;
      others = others;
    }

-- On a valid table, `ramfs_delete` of a path that can be split fails if there is no such entry or it
-- is a built-in directory; otherwise the entry that `find_entry` finds is no longer in use, nothing
-- is found under the path, the other entries stay, and the table is valid.
pub ramfs_delete-cases :
    (r : Ramfs) (path parent name : List ℕ)
    → IsValid r
    → split_path path ≡ done (parent, name)
    → ((ramfs_delete r path ≡ error)
        × ((find_entry r parent name ≡ none) ⊎ (is_builtin parent name ≡ true)))
      ⊎ ((k : ℕ) × (r' : Ramfs) × (ramfs_delete r path ≡ done r')
          × (find_entry r parent name ≡ some k)
          × (is_builtin parent name ≡ false)
          × Deleted r parent name k r')
unfolding ramfs_delete delete_at delete_found
ramfs_delete-cases r path parent name v split = elim (Option-cases (find_entry r parent name)) [
  | inl absent ↦ inl (rw (split, absent) refl, inl absent)
  | inr (k, found) ↦ elim (Bool-cases (is_builtin parent name)) [
    | inl builtin ↦ inl (rw (split, found, builtin) refl, inr builtin)
    | inr user ↦ inr (
      k,
      _,
      rw (split, found, user) refl,
      found,
      user,
      delete_found-Deleted r parent name k v found,
    )
  ]
]
