-- ===== src/Ramfs/Tests.antt =====
-- A table with one file, `/Desktop/a`, that has no content yet.
use next_os.Prelude.{
  ℕ, ◌≤◌, ◌<◌, ◌≡◌, refl, sym, ap, ◌⊎◌, true, false, Option, none, some, List, [], ◌∷◌, length,
  get_or, set, replicate, length-replicate, get_or-replicate, bytes_of, some_inj, arith,
}
use mathlib.Core.Path.{subst}
use next_os.Ramfs.{fill_slot, create_new, create_at, ramfs_create, ramfs_delete, ramfs_rename}
use next_os.Ramfs.Strings.{
  error, done, split_path, parent_of, name_of, last_slash, last_slash_from, path_end, same,
}
use next_os.Ramfs.Table.{
  file, directory, Entry, Ramfs, no_entry, max_files, find_entry, find_from, is_builtin,
  sync_to_disk,
}
use next_os.Ramfs.Files.{is_file, ramfs_write, ramfs_lookup, node_of}
use next_os.Ramfs.Grow.{Stored, Fits, Allocates, Refused}
use next_os.Ramfs.Valid.{IsValid, count_used, set-IsValid}
use next_os.Ramfs.Split.{Splits, split_path-cases}
use next_os.Ramfs.Create.{Created, NotCreated, new_entry, ramfs_create-cases, clash}
use next_os.Ramfs.Delete.{Deleted, ramfs_delete-cases}
use next_os.Ramfs.Rename.{Renamed, ramfs_rename-Renamed}
use next_os.Ramfs.RoundTrip.{Wrote, ramfs_write-cases}
use next_os.Ramfs.Readdir.{ramfs_readdir}
use next_os.Ramfs.Place.{Place, opened}
use next_os.Ramfs.Listing.{IsChild, count_children, rank, ramfs_readdir-lists}
use next_os.Ramfs.Lookup.{ramfs_lookup-ramfs_create}

abbrev empty : Ramfs
empty = record { entries = replicate 128 no_entry; entry_count = 0; disk = true; disk_writes = [] }

none_in : (k : ℕ) → k < max_files → get_or empty.entries k no_entry ≡ no_entry
none_in k h = get_or-replicate 128 k no_entry no_entry h

empty-IsValid : IsValid empty
unfolding count_used Fits
empty-IsValid = record {
  table = length-replicate 128 no_entry;
  counted = refl;
  stored = λ k h.
      subst Stored (sym (none_in k h))
        (record { bounded = omega arith; sized = omega arith; fits = refl });
  distinct = λ i j hi hj ui uj path. absurd (clash ui (ap (λ e. e.used) (none_in i hi)));
}

abbrev a_file : Entry
a_file = new_entry (bytes_of "/Desktop/") (bytes_of "a") file

abbrev one_file : Ramfs
one_file = record empty { entries = set empty.entries 0 a_file; entry_count = 1 }

one_file-IsValid : IsValid one_file
unfolding Fits
one_file-IsValid =
    set-IsValid empty one_file 0 a_file empty-IsValid (omega arith) refl refl
      (record { bounded = omega arith; sized = omega arith; fits = refl })
      (λ j h off u used path. clash used (ap (λ e. e.used) (none_in j h)))

-- A `kmalloc` that has memory for every size.
abbrev plenty : ℕ → Option (List ℕ)
plenty n = some (replicate n 0)

plenty-Allocates : Allocates plenty
plenty-Allocates n block e =
    subst (λ xs. n ≤ length xs) (some_inj e) (omega (arith, length-replicate {A = ℕ} n 0))

path_a : split_path (bytes_of "/Desktop/a") ≡ done (bytes_of "/Desktop/", bytes_of "a")
unfolding split_path parent_of name_of last_slash last_slash_from path_end
path_a = refl

path_b : split_path (bytes_of "/Desktop/b/") ≡ done (bytes_of "/Desktop/", bytes_of "b")
unfolding split_path parent_of name_of last_slash last_slash_from path_end
path_b = refl

split_path-cases_example : Splits (bytes_of "/Desktop/b/")
split_path-cases_example = split_path-cases (bytes_of "/Desktop/b/") refl

ramfs_create-cases_example :
    ((ramfs_create one_file (bytes_of "/Desktop/b/") directory ≡ error)
      × NotCreated one_file (bytes_of "/Desktop/") (bytes_of "b"))
    ⊎ ((r' : Ramfs) × (ramfs_create one_file (bytes_of "/Desktop/b/") directory ≡ done r')
        × Created one_file (bytes_of "/Desktop/") (bytes_of "b") directory r'
        × ¬ NotCreated one_file (bytes_of "/Desktop/") (bytes_of "b"))
ramfs_create-cases_example =
    ramfs_create-cases one_file (bytes_of "/Desktop/b/") (bytes_of "/Desktop/") (bytes_of "b")
      directory one_file-IsValid path_b

ramfs_delete-cases_example :
    ((ramfs_delete one_file (bytes_of "/Desktop/a") ≡ error)
      × ((find_entry one_file (bytes_of "/Desktop/") (bytes_of "a") ≡ none)
          ⊎ (is_builtin (bytes_of "/Desktop/") (bytes_of "a") ≡ true)))
    ⊎ ((k : ℕ) × (r' : Ramfs) × (ramfs_delete one_file (bytes_of "/Desktop/a") ≡ done r')
        × (find_entry one_file (bytes_of "/Desktop/") (bytes_of "a") ≡ some k)
        × (is_builtin (bytes_of "/Desktop/") (bytes_of "a") ≡ false)
        × Deleted one_file (bytes_of "/Desktop/") (bytes_of "a") k r')
ramfs_delete-cases_example =
    ramfs_delete-cases one_file (bytes_of "/Desktop/a") (bytes_of "/Desktop/") (bytes_of "a")
      one_file-IsValid path_a

found_a : find_entry one_file (bytes_of "/Desktop/") (bytes_of "a") ≡ some 0
unfolding find_from same
found_a = refl

absent_b : find_entry one_file (bytes_of "/Desktop/") (bytes_of "b") ≡ none
unfolding find_from same
absent_b = refl

ramfs_rename-Renamed_example :
    (r' : Ramfs) × (ramfs_rename one_file (bytes_of "/Desktop/a") (bytes_of "/Desktop/b/")
      ≡ done r')
    × Renamed one_file (bytes_of "/Desktop/") (bytes_of "b") 0 r'
ramfs_rename-Renamed_example =
    ramfs_rename-Renamed one_file (bytes_of "/Desktop/a") (bytes_of "/Desktop/b/")
      (bytes_of "/Desktop/") (bytes_of "a") (bytes_of "/Desktop/") (bytes_of "b") 0 one_file-IsValid
      path_a path_b found_a absent_b

ramfs_write-cases_example :
    ((ramfs_write plenty one_file 0 2 (1 ∷ 2 ∷ 3 ∷ []) ≡ error) × Refused plenty a_file 5)
    ⊎ ((r' : Ramfs) × (ramfs_write plenty one_file 0 2 (1 ∷ 2 ∷ 3 ∷ []) ≡ done r')
        × Wrote one_file 0 2 (1 ∷ 2 ∷ 3 ∷ []) r')
unfolding is_file
ramfs_write-cases_example =
    ramfs_write-cases plenty one_file 0 2 (1 ∷ 2 ∷ 3 ∷ []) plenty-Allocates one_file-IsValid
      (omega arith) refl refl (omega arith)

-- The table after the creation of the directory `/Desktop/b`.
abbrev after_create : Ramfs
after_create = sync_to_disk (record one_file {
  entries = set one_file.entries 1 (new_entry (bytes_of "/Desktop/") (bytes_of "b") directory);
  entry_count = 2;
})

creates_b : ramfs_create one_file (bytes_of "/Desktop/b/") directory ≡ done after_create
unfolding ramfs_create create_at create_new fill_slot find_from same split_path parent_of name_of
    last_slash last_slash_from path_end
creates_b = refl

ramfs_lookup-ramfs_create_example :
    (ramfs_lookup one_file (bytes_of "/Desktop/b/") ≡ error)
    × ((k : ℕ) × (ramfs_lookup after_create (bytes_of "/Desktop/b/")
          ≡ done (record {
            name = bytes_of "b";
            type = directory;
            size = 0;
            fs_data = k;
            is_dir = true;
          })))
unfolding is_file
ramfs_lookup-ramfs_create_example =
    ramfs_lookup-ramfs_create one_file after_create (bytes_of "/Desktop/b/") (bytes_of "/Desktop/")
      (bytes_of "b") directory one_file-IsValid path_b creates_b

-- The directory of the file, too.
abbrev with_desktop : Ramfs
with_desktop = record one_file {
  entries = set one_file.entries 1 (new_entry (bytes_of "/") (bytes_of "Desktop") directory);
  entry_count = 2;
}

desktop-Place : Place with_desktop 1 (bytes_of "/Desktop/")
desktop-Place =
    opened (bytes_of "/Desktop") (omega arith) refl refl (omega arith) (ground arith) (omega arith)
      refl

ramfs_readdir-lists_example :
    ((k : ℕ)
      → k < length with_desktop.entries
      → IsChild (bytes_of "/Desktop/") (get_or with_desktop.entries k no_entry)
      → (index : ℕ) × (index < count_children (bytes_of "/Desktop/") with_desktop.entries)
        × (ramfs_readdir with_desktop 1 index ≡ done (node_of with_desktop k)))
    × ((index : ℕ)
        → (ramfs_readdir with_desktop 1 index ≡ error)
          ⊎ ((k : ℕ) × (k < length with_desktop.entries)
              × IsChild (bytes_of "/Desktop/") (get_or with_desktop.entries k no_entry)
              × (ramfs_readdir with_desktop 1 index ≡ done (node_of with_desktop k))
              × (rank (bytes_of "/Desktop/") k with_desktop.entries ≡ index)))
    × ((index : ℕ)
        → count_children (bytes_of "/Desktop/") with_desktop.entries ≤ index
        → ramfs_readdir with_desktop 1 index ≡ error)
ramfs_readdir-lists_example =
    ramfs_readdir-lists with_desktop 1 (bytes_of "/Desktop/") desktop-Place
