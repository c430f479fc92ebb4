-- ===== src/Ramfs/LoadTests.antt =====
-- A table with one file of two bytes, `/Desktop/a`, that is written to the disk and loaded again.
use next_os.Prelude.{
  ℕ, ◌+◌, ◌<◌, ◌≡◌, refl, sym, ap, ◌∙◌, inl, inr, false, true, Option, some, List, [], ◌∷◌, ◌++◌,
  length, get_or, set, drop, replicate, length-replicate, get_or-replicate, bytes_of, arith,
}
use mathlib.Core.Path.{subst}
use next_os.Ramfs.Strings.{done, same}
use next_os.Ramfs.Table.{
  file, Entry, Ramfs, no_entry, max_files, is_user, is_builtin, is_builtin_name, sync_to_disk,
}
use next_os.Ramfs.Grow.{Stored, Fits}
use next_os.Ramfs.Valid.{IsValid, count_used, get_or-set, set-IsValid}
use next_os.Ramfs.Load.{cleared, ramfs_init}
use next_os.Ramfs.Decode.{NoNul, Savable}
use next_os.Ramfs.Sectors.{disk_after}
use next_os.Ramfs.Reload.{Plentiful}
use next_os.Ramfs.Users.{users, AllReloaded}
use next_os.Ramfs.Persist.{builtins, ramfs_init-sync_to_disk}

abbrev nothing : Ramfs
nothing = record {
  entries = replicate 128 no_entry;
  entry_count = 0;
  disk = true;
  disk_writes = [];
}

abbrev greeting : Entry
greeting = record {
  name = bytes_of "a";
  parent = bytes_of "/Desktop/";
  type = file;
  content = some (bytes_of "hi..");
  size = 2;
  capacity = 4;
  used = true;
}

abbrev with_greeting : Ramfs
with_greeting = record nothing { entries = set nothing.entries 5 greeting; entry_count = 1 }

free_in : (k : ℕ) → k < max_files → get_or nothing.entries k no_entry ≡ no_entry
free_in k h = get_or-replicate 128 k no_entry no_entry h

free_not : (e : Entry) → e ≡ no_entry → e.used ≡ true → ⊥
free_not e free_one u = let free : e.used ≡ false = ap (λ x. x.used) free_one in cc

nothing-IsValid : IsValid nothing
unfolding count_used Fits
nothing-IsValid = record {
  table = length-replicate 128 no_entry;
  counted = refl;
  stored = λ k h.
      subst Stored (sym (free_in k h))
        (record { bounded = omega arith; sized = omega arith; fits = refl });
  distinct = λ i j hi hj ui uj path.
      absurd (free_not (get_or nothing.entries i no_entry) (free_in i hi) ui);
}

with_greeting-IsValid : IsValid with_greeting
unfolding Fits
with_greeting-IsValid =
    set-IsValid nothing with_greeting 5 greeting nothing-IsValid (omega arith) refl refl
      (record { bounded = omega arith; sized = omega arith; fits = omega arith })
      (λ j h off u used path. free_not (get_or nothing.entries j no_entry) (free_in j h) used)

greeting-Savable : Savable greeting
unfolding NoNul
greeting-Savable = record {
  name_ended = (omega arith, tt);
  name_short = omega arith;
  parent_ended = (
    omega arith,
    (
      omega arith,
      (
        omega arith,
        (
          omega arith,
          (omega arith, (omega arith, (omega arith, (omega arith, (omega arith, tt))))),
        ),
      ),
    ),
  );
  parent_short = omega arith;
}

user_used : (e : Entry) → is_user e ≡ true → e.used ≡ true
unfolding is_user
user_used e user = ground arith

all-Savable :
    (k : ℕ)
    → k < max_files
    → is_user (get_or with_greeting.entries k no_entry) ≡ true
    → Savable (get_or with_greeting.entries k no_entry)
all-Savable k lt user = elim (get_or-set nothing.entries 5 k greeting (omega arith)) [
  | inl (at, same_entry) ↦ subst Savable (sym same_entry) greeting-Savable
  | inr (off, old) ↦ absurd (
      free_not (get_or with_greeting.entries k no_entry) (old ∙ free_in k lt)
        (user_used (get_or with_greeting.entries k no_entry) user))
]

one_user : users with_greeting.entries ≡ greeting ∷ []
unfolding users is_user is_builtin is_builtin_name same
one_user = refl

abbrev plenty : ℕ → Option (List ℕ)
plenty n = some (replicate n 0)

plenty-Plentiful : Plentiful plenty
plenty-Plentiful n pos le = (replicate n 0, refl, omega (arith, length-replicate {A = ℕ} n 0))

ramfs_init-sync_to_disk_example :
    (ls : List Entry) × (ramfs_init plenty
        (λ k. some (disk_after (sync_to_disk with_greeting).disk_writes (λ q. []) k))
        nothing
      ≡ done (record nothing {
        entries = builtins ++ (ls ++ drop (length ls) (drop 3 (cleared nothing.entries)));
        entry_count = 3 + length ls;
      }))
    × AllReloaded (users with_greeting.entries) ls
ramfs_init-sync_to_disk_example =
    ramfs_init-sync_to_disk plenty (λ q. []) with_greeting nothing plenty-Plentiful
      with_greeting-IsValid refl refl (length-replicate 128 no_entry)
      (omega (arith, ap {B = ℕ} (λ x. length x) one_user)) all-Savable
