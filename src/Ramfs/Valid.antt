-- ===== src/Ramfs/Valid.antt =====
-- The invariant of kernel/fs/ramfs.c.
use next_os.Prelude.{
  ℕ, zero, suc, ◌+◌, ◌<◌, ◌≡◌, refl, sym, ap, ◌∙◌, ◌⊎◌, inl, inr, ◌≢◌, true, List, [], ◌∷◌,
  Bool-cases, length, get_or, set, length-set, get_or-set_self, get_or-set_ne, if◌then◌else◌, arith,
}
use mathlib.Core.Path.{subst}
use native.Mathlib.Decide.{ℕ_discrete}
use next_os.Ramfs.Strings.{same}
use next_os.Ramfs.Table.{Entry, Ramfs, no_entry, max_files, sync_to_disk}
use next_os.Ramfs.Grow.{Stored}

-- 1 for an entry in use.
abbrev pub weight : Entry → ℕ
weight e = if e.used then 1 else 0

-- The number of entries in use.
unfoldable pub count_used : List Entry → ℕ
count_used [] = 0
count_used (e ∷ es) = weight e + count_used es

-- Two entries have the same path.
abbrev pub SamePath : Entry → Entry → Type 0
SamePath e f = (e.parent ≡ f.parent) × (e.name ≡ f.name)

-- The table has 128 entries, of which `entry_count` are used; no two of these have the same path,
-- and each entry's block is long enough.
pub record IsValid (r : Ramfs) : Type 0 where
  pub table : length r.entries ≡ max_files
  pub counted : r.entry_count ≡ count_used r.entries
  pub stored : (k : ℕ) → k < max_files → Stored (get_or r.entries k no_entry)
  pub distinct :
      (i j : ℕ)
      → i < max_files
      → j < max_files
      → (get_or r.entries i no_entry).used ≡ true
      → (get_or r.entries j no_entry).used ≡ true
      → SamePath (get_or r.entries i no_entry) (get_or r.entries j no_entry)
      → i ≡ j

-- The change of one entry changes the number of those in use by that entry.
pub count_used-set :
    (es : List Entry) (k : ℕ) (e : Entry)
    → k < length es
    → count_used (set es k e) + weight (get_or es k no_entry) ≡ count_used es + weight e
unfolding count_used
count_used-set [] k e h = absurd (omega arith)
count_used-set (x ∷ es) zero e h = omega arith
count_used-set (x ∷ es) (suc k) e h = omega (arith, count_used-set es k e (omega arith))

-- An entry of the table after one is set.
pub get_or-set :
    (es : List Entry) (k j : ℕ) (e : Entry)
    → k < length es
    → ((j ≡ k) × (get_or (set es k e) j no_entry ≡ e))
      ⊎ ((k ≢ j) × (get_or (set es k e) j no_entry ≡ get_or es j no_entry))
get_or-set es k j e h = elim (ℕ_discrete j k) [
  | yes same ↦
      inl (same, ap (λ q. get_or (set es k e) q no_entry) same ∙ get_or-set_self es k e no_entry h)
  | no other ↦
      let apart : k ≢ j = λ q. other (sym q) in inr (apart, get_or-set_ne es k j e no_entry apart)
]

used_as : {e f : Entry} → e ≡ f → e.used ≡ true → f.used ≡ true
used_as same u = sym (ap (λ x. x.used) same) ∙ u

path_as : {e e' f f' : Entry} → e ≡ e' → f ≡ f' → SamePath e f → SamePath e' f'
path_as p q (parents, names) = (
  sym (ap (λ x. x.parent) p) ∙ parents ∙ ap (λ x. x.parent) q,
  sym (ap (λ x. x.name) p) ∙ names ∙ ap (λ x. x.name) q,
)

-- A table with one entry changed, and its count, are valid if that entry's block is long enough and
-- no other entry in use has its path.
pub set-IsValid :
    (r r' : Ramfs) (k : ℕ) (e : Entry)
    → IsValid r
    → k < max_files
    → r'.entries ≡ set r.entries k e
    → r'.entry_count + weight (get_or r.entries k no_entry) ≡ r.entry_count + weight e
    → Stored e
    → ((j : ℕ)
        → j < max_files
        → k ≢ j
        → e.used ≡ true
        → (get_or r.entries j no_entry).used ≡ true
        → ¬ SamePath e (get_or r.entries j no_entry))
    → IsValid r'
set-IsValid r r' k e v lt made counts stored alone =
    let was = λ (j : ℕ). get_or r.entries j no_entry in
    let now = λ (j : ℕ). get_or r'.entries j no_entry in
    let cases : ((j : ℕ) → ((j ≡ k) × (now j ≡ e)) ⊎ ((k ≢ j) × (now j ≡ was j))) = λ j.
      subst
        (λ es. ((j ≡ k) × (get_or es j no_entry ≡ e)) ⊎ ((k ≢ j) × (get_or es j no_entry ≡ was j)))
        (sym made) (get_or-set r.entries k j e (omega (arith, v.table))) in
    record {
      table = ap length made ∙ length-set r.entries k e ∙ v.table;
      counted = omega (
        arith,
        count_used-set r.entries k e (omega (arith, v.table)),
        v.counted,
        counts,
        ap count_used made,
      );
      stored = λ j h. elim (cases j) [
        | inl (at, new) ↦ subst Stored (sym new) stored
        | inr (off, old) ↦ subst Stored (sym old) (v.stored j h)
      ];
      distinct = λ i j hi hj ui uj path. elim (cases i) [
        | inl (at, new) ↦ elim (cases j) [
          | inl (at', new') ↦ at ∙ sym at'
          | inr (off', old') ↦
              absurd (alone j hj off' (used_as new ui) (used_as old' uj) (path_as new old' path))
        ]
        | inr (off, old) ↦ elim (cases j) [
          | inl (at', new') ↦ absurd (
              alone i hi off (used_as new' uj) (used_as old ui)
                (path_as new' old (sym path.0, sym path.1)))
          | inr (off', old') ↦
              v.distinct i j hi hj (used_as old ui) (used_as old' uj) (path_as old old' path)
        ]
      ];
    }

pub sync_to_disk-entries : (r : Ramfs) → (sync_to_disk r).entries ≡ r.entries
unfolding sync_to_disk
sync_to_disk-entries r = elim (Bool-cases r.disk) [ inl on ↦ rw on refl | inr off ↦ rw off refl ]

pub sync_to_disk-count : (r : Ramfs) → (sync_to_disk r).entry_count ≡ r.entry_count
unfolding sync_to_disk
sync_to_disk-count r = elim (Bool-cases r.disk) [ inl on ↦ rw on refl | inr off ↦ rw off refl ]

-- A table whose entries are all in use.
pub count_used_full :
    (es : List Entry)
    → ((k : ℕ) → k < length es → (get_or es k no_entry).used ≡ true)
    → count_used es ≡ length es
unfolding count_used
count_used_full [] all = refl
count_used_full (e ∷ es) all =
    let first : e.used ≡ true = all zero (omega arith) in
    let others = count_used_full es (λ k h. all (suc k) (omega arith)) in
    rw first (omega (arith, others))
