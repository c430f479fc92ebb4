-- ===== src/Ramfs/Create.antt =====
-- `ramfs_create` of kernel/fs/ramfs.c.
use next_os.Prelude.{
  ℕ, ◌+◌, ◌≤◌, ◌<◌, ◌≡◌, refl, sym, ap, ◌∙◌, ◌⊎◌, inl, inr, ◌≢◌, Bool, true, false, not, ◌==◌, none,
  some, List, [], ◌∷◌, length, get_or, set, get_or-set_self, get_or-set_ne, leb, if◌then◌else◌,
  Bool-cases, Option-cases, arith,
}
use mathlib.Core.Path.{subst}
use native.Mathlib.Decide.{dec_le}
use next_os.Ramfs.{fill_slot, create_new, create_at, ramfs_create}
use next_os.Ramfs.Strings.{error, done, split_path}
use next_os.Ramfs.Table.{
  NodeType, Entry, Ramfs, no_entry, max_files, sync_to_disk, find_entry, find_slot, is_named,
}
use next_os.Ramfs.Grow.{Fits}
use next_os.Ramfs.Find.{same_self, same-eq, find_from-none, find_from-some, find_from-first}
use next_os.Ramfs.Valid.{
  IsValid, SamePath, weight, count_used, set-IsValid, count_used_full, sync_to_disk-entries,
  sync_to_disk-count,
}

-- The entry that is filled in.
abbrev pub new_entry : List ℕ → List ℕ → NodeType → Entry
new_entry parent name type = record {
  name = name;
  parent = parent;
  type = type;
  content = none;
  size = 0;
  capacity = 0;
  used = true;
}

-- A new entry at the slot `k`, which was not in use; the other entries stay.
pub record Created (r : Ramfs) (parent name : List ℕ) (type : NodeType) (r' : Ramfs) : Type 0 where
  pub slot : ℕ
  pub valid : IsValid r'
  pub in_table : slot < max_files
  pub was_free : (get_or r.entries slot no_entry).used ≡ false
  pub made : get_or r'.entries slot no_entry ≡ new_entry parent name type
  pub found : find_entry r' parent name ≡ some slot
  pub others : (j : ℕ) → slot ≢ j → get_or r'.entries j no_entry ≡ get_or r.entries j no_entry

-- An entry that is in use and has the path passes the test of `find_entry`.
pub is_named_lem :
    (e : Entry) (parent name : List ℕ)
    → e.used ≡ true
    → e.parent ≡ parent
    → e.name ≡ name
    → is_named parent name e ≡ true
is_named_lem e parent name u p n = rw (u, p, n, same_self parent, same_self name) refl

pub is_named-eq :
    (e : Entry) (parent name : List ℕ)
    → is_named parent name e ≡ true
    → (e.used ≡ true) × (e.parent ≡ parent) × (e.name ≡ name)
is_named-eq e parent name h =
    (ground arith, same-eq e.parent parent (ground arith), same-eq e.name name (ground arith))

pub clash : {b : Bool} → b ≡ true → b ≡ false → ⊥
clash h h' = ground arith

-- A table that is not full has a slot.
find_slot_lem :
    (r : Ramfs) → IsValid r → r.entry_count < max_files → (k : ℕ) × (find_slot r ≡ some k)
find_slot_lem r v room = elim (Option-cases (find_slot r)) [
  | inl full ↦
      let all = count_used_full r.entries (λ k h.
        not_free (get_or r.entries k no_entry)
          (find_from-none (λ e. not e.used) 0 r.entries full k h)) in
      absurd (omega (arith, all, v.table, v.counted))
  | inr (k, at) ↦ (k, at)
]
  where
    not_free : (e : Entry) → not e.used ≡ false → e.used ≡ true
    not_free e h = ground arith

fill_slot-Created :
    (r : Ramfs) (parent name : List ℕ) (type : NodeType) (k : ℕ)
    → IsValid r
    → find_entry r parent name ≡ none
    → find_slot r ≡ some k
    → (r' : Ramfs) × (fill_slot r parent name type (some k) ≡ done r')
      × Created r parent name type r'
unfolding fill_slot Fits
fill_slot-Created r parent name type k v absent slot =
    let e = new_entry parent name type in
    let (k', at, inside, unused) = find_from-some (λ x. not x.used) 0 k r.entries slot in
    let same_slot : k ≡ k' = omega arith in
    let lt : k < max_files = omega (arith, v.table) in
    let short : k < length r.entries = omega (arith, v.table) in
    let free : (get_or r.entries k no_entry).used ≡ false =
      subst (λ q. (get_or r.entries q no_entry).used ≡ false) (sym same_slot) (ground arith) in
    let absent_at = find_from-none (is_named parent name) 0 r.entries absent in
    let s : Ramfs = record r { entries = set r.entries k e; entry_count = r.entry_count + 1 } in
    let entries = sync_to_disk-entries s in
    let alone : ((j : ℕ)
        → j < max_files
        → k ≢ j
        → e.used ≡ true
        → (get_or r.entries j no_entry).used ≡ true
        → ¬ SamePath e (get_or r.entries j no_entry)) =
      λ j h off u used path.
        clash
          (is_named_lem (get_or r.entries j no_entry) parent name used (sym path.0) (sym path.1))
          (absent_at j (omega (arith, v.table))) in
    let counts : ((sync_to_disk s).entry_count + weight (get_or r.entries k no_entry)
        ≡ r.entry_count + 1) =
      omega (arith, sync_to_disk-count s, ap {B = ℕ} (λ b. if b then 1 else 0) free) in
    let others : ((j : ℕ)
        → k ≢ j
        → get_or (sync_to_disk s).entries j no_entry ≡ get_or r.entries j no_entry) =
      λ j off.
        ap (λ es. get_or es j no_entry) entries ∙ get_or-set_ne r.entries k j e no_entry off in
    let made : get_or (sync_to_disk s).entries k no_entry ≡ e =
      ap (λ es. get_or es k no_entry) entries ∙ get_or-set_self r.entries k e no_entry short in
    let valid =
      set-IsValid r (sync_to_disk s) k e v lt entries counts
        (record { bounded = omega arith; sized = omega arith; fits = refl }) alone in
    let found =
      find_from-first (is_named parent name) 0 k (sync_to_disk s).entries
        (subst (λ n. k < n) (sym valid.table) lt)
        (ap (is_named parent name) made ∙ is_named_lem e parent name refl refl refl)
        (λ j h.
          ap (is_named parent name) (others j (omega arith))
          ∙ absent_at j (omega (arith, v.table))) in
    (
      sync_to_disk s,
      refl,
      record {
        slot = k;
        valid = valid;
        in_table = lt;
        was_free = free;
        made = made;
        found = found ∙ ap some (omega arith);
        others = others;
      },
    )

-- Why `ramfs_create` fails on a path that is split in `parent` and `name`.
abbrev pub NotCreated : Ramfs → List ℕ → List ℕ → Type 0
NotCreated r parent name =
    (r.entry_count ≡ max_files) ⊎ ((name ≡ []) ⊎ ((k : ℕ) × (find_entry r parent name ≡ some k)))

count_used-le : (es : List Entry) → count_used es ≤ length es
unfolding count_used
count_used-le [] = omega arith
count_used-le (e ∷ es) = ground (arith, count_used-le es)

length_zero : (xs : List ℕ) → (length xs == 0) ≡ true → xs ≡ []
length_zero [] h = refl
length_zero (x ∷ xs) h = ground arith

may_create :
    (r : Ramfs) (parent name : List ℕ)
    → ¬ max_files ≤ r.entry_count
    → (length name == 0) ≡ false
    → find_entry r parent name ≡ none
    → ¬ NotCreated r parent name
may_create r parent name room named absent (inl full) = room (omega arith)
may_create r parent name room named absent (inr (inl empty)) =
    clash (ap (λ xs. length xs == 0) empty) named
may_create r parent name room named absent (inr (inr (k, found))) = some_none (sym found ∙ absent)
  where
    some_none : {k : ℕ} → ¬ (some k ≡ none)
    some_none h = cc

-- On a valid table, `ramfs_create` of a path that can be split fails exactly if the table is full,
-- the name is empty, or there is such an entry; otherwise it makes a new entry with no content in a
-- slot that was free, which `find_entry` finds, and leaves a valid table with the other entries as
-- they were.
pub ramfs_create-cases :
    (r : Ramfs) (path parent name : List ℕ) (type : NodeType)
    → IsValid r
    → split_path path ≡ done (parent, name)
    → ((ramfs_create r path type ≡ error) × NotCreated r parent name)
      ⊎ ((r' : Ramfs) × (ramfs_create r path type ≡ done r')
          × Created r parent name type r'
          × ¬ NotCreated r parent name)
unfolding ramfs_create create_at create_new
ramfs_create-cases r path parent name type v split = elim (dec_le max_files r.entry_count) [
  | yes full ↦ inl (ground arith, inl (omega (arith, count_used-le r.entries, v.table, v.counted)))
  | no room ↦
      let below : leb max_files r.entry_count ≡ false = ground arith in
      elim (Bool-cases (length name == 0)) [
        | inl empty ↦ inl (rw (below, split, empty) refl, inr (inl (length_zero name empty)))
        | inr named ↦ elim (Option-cases (find_entry r parent name)) [
          | inr (k, found) ↦ inl (rw (below, split, named, found) refl, inr (inr (k, found)))
          | inl absent ↦
              let (k, slot) = find_slot_lem r v (omega arith) in
              let (r', made, created) = fill_slot-Created r parent name type k v absent slot in
              inr (
                r',
                rw (below, split, named, absent, slot) made,
                created,
                may_create r parent name room named absent,
              )
        ]
      ]
]
