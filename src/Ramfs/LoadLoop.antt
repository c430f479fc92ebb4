-- ===== src/Ramfs/LoadLoop.antt =====
-- The loop of `ramfs_load_from_disk` of kernel/fs/ramfs.c, over the sectors that
-- `ramfs_sync_to_disk` wrote.
use next_os.Prelude.{
  ℕ, zero, suc, ◌+◌, ◌%◌, ◌^◌, ◌≤◌, ◌<◌, ◌≡◌, refl, sym, ap, ◌∙◌, inl, inr, true, false, not, ◌||◌,
  Option, none, some, List, [], ◌∷◌, ◌++◌, leb, length, get_or, set, drop, Bool-cases, arith,
}
use mathlib.Core.Path.{subst, ap₂}
use mathlib.Core.List.{append_assoc}
use next_os.Ramfs.Strings.{done, max_name, max_path}
use next_os.Ramfs.Table.{
  Entry, Ramfs, no_entry, find_from, find_entry, find_slot, is_named, is_user, count_users,
  data_sectors, content_writes, entry_writes, disk_entry,
}
use next_os.Ramfs.Grow.{Stored}
use next_os.Ramfs.Valid.{SamePath}
use next_os.Ramfs.Load.{saved_entry, with_data, store_entry, load_slot, load_entry, load_entries}
use next_os.Ramfs.Decode.{Savable, saved_entry-disk_entry}
use next_os.Ramfs.Sectors.{Finds, Finds-append}
use next_os.Ramfs.Reload.{
  Plentiful, Reloaded, with_data-Reloaded, Nowhere, find_from-append, Nowhere-append, AllFree,
  AllFree-Nowhere, set-append,
}
use next_os.Ramfs.Users.{
  users, AllReloaded, short_names, List-cases, zero_not, suc_eq, unlike, first_free,
}

module _ (kmalloc : ℕ → Option (List ℕ)) (d : ℕ → List ℕ) where
  -- The entry that is loaded for one whose sector is `lba`.
  abbrev loaded : ℕ → Entry → Entry
  loaded lba e = with_data kmalloc (λ q. some (d q)) (lba + 1) (saved_entry (disk_entry e))

  -- One round of the loop.
  load_round :
      (n lba slot : ℕ) (r : Ramfs) (e : Entry)
      → d lba ≡ disk_entry e
      → (leb max_name (length (saved_entry (disk_entry e)).name)
          || leb max_path (length (saved_entry (disk_entry e)).parent))
        ≡ false
      → find_slot r ≡ some slot
      → find_entry r (loaded lba e).parent (loaded lba e).name ≡ none
      → load_entries kmalloc (λ q. some (d q)) (suc n) lba r
        ≡ load_entries kmalloc
            (λ q. some (d q))
            n
            (lba + 1 + data_sectors (saved_entry (disk_entry e)).size)
            (record r {
              entries = set r.entries slot (loaded lba e);
              entry_count = r.entry_count + 1;
            })
  unfolding load_entries load_entry load_slot store_entry
  load_round n lba slot r e here fits free absent = rw (here, fits, free, absent) refl

  -- The state of the loop: the entries `us` in use, and `fs` that are free.
  pub record Loading (us fs es : List Entry) (lba : ℕ) (r : Ramfs) : Type 0 where
    pub at : r.entries ≡ us ++ fs
    pub full : Nowhere (λ e. not e.used) us
    pub free : AllFree fs
    pub room : length (users es) ≤ length fs
    pub finds : Finds d (entry_writes lba es)
    pub savable :
        (k : ℕ)
        → k < length es
        → is_user (get_or es k no_entry) ≡ true
        → Savable (get_or es k no_entry) × Stored (get_or es k no_entry)
    pub apart :
        (k : ℕ)
        → k < length es
        → is_user (get_or es k no_entry) ≡ true
        → Nowhere (is_named (get_or es k no_entry).parent (get_or es k no_entry).name) us
    pub distinct :
        (i j : ℕ)
        → i < length es
        → j < length es
        → is_user (get_or es i no_entry) ≡ true
        → is_user (get_or es j no_entry) ≡ true
        → SamePath (get_or es i no_entry) (get_or es j no_entry)
        → i ≡ j

  -- What the loop comes to.
  unfoldable pub Loaded : List Entry → List Entry → List Entry → ℕ → Ramfs → Type 0
  Loaded us fs es lba r =
      (ls : List Entry) × (load_entries kmalloc (λ q. some (d q)) (count_users es) lba r
        ≡ done (record r {
          entries = us ++ (ls ++ drop (length ls) fs);
          entry_count = r.entry_count + length ls;
        }))
      × AllReloaded (users es) ls

  all_read :
      (us fs : List Entry) (lba : ℕ) (r : Ramfs) → r.entries ≡ us ++ fs → Loaded us fs [] lba r
  unfolding Loaded load_entries count_users users AllReloaded
  all_read us fs lba r at =
      let same_count : r.entry_count ≡ r.entry_count + 0 = omega arith in
      ([], ap₂ (λ x y. done (record r { entries = x; entry_count = y })) at same_count, tt)

  -- An entry that is not written.
  not_written :
      (us fs es : List Entry) (e : Entry) (lba : ℕ) (r : Ramfs)
      → is_user e ≡ false
      → Loaded us fs es lba r
      → Loaded us fs (e ∷ es) lba r
  unfolding Loaded count_users users
  not_written us fs es e lba r other h = rw other h

  skipped_on :
      (us fs es : List Entry) (e : Entry) (lba : ℕ) (r : Ramfs)
      → is_user e ≡ false
      → Loading us fs (e ∷ es) lba r
      → Loading us fs es lba r
  unfolding users entry_writes
  skipped_on us fs es e lba r other l =
      let fewer : users (e ∷ es) ≡ users es = rw other refl in
      let same_writes : entry_writes lba (e ∷ es) ≡ entry_writes lba es = rw other refl in
      record {
        at = l.at;
        full = l.full;
        free = l.free;
        room = omega (arith, l.room, ap length fewer);
        finds = subst (Finds d) same_writes l.finds;
        savable = λ k lt. l.savable (suc k) (omega arith);
        apart = λ k lt. l.apart (suc k) (omega arith);
        distinct = λ i j hi hj ui uj path.
            ground (arith, l.distinct (suc i) (suc j) (omega arith) (omega arith) ui uj path);
      }

  -- The sectors of an entry that is written.
  record Entered (us fs es : List Entry) (e : Entry) (lba : ℕ) (r : Ramfs) : Type 0 where
    here : d lba ≡ disk_entry e
    fits :
        (leb max_name (length (saved_entry (disk_entry e)).name)
          || leb max_path (length (saved_entry (disk_entry e)).parent))
        ≡ false
    sectors : data_sectors (saved_entry (disk_entry e)).size ≡ data_sectors (e.size % 2 ^ 32)
    back : Reloaded e (loaded lba e)
    later : Finds d (entry_writes (lba + 1 + data_sectors (e.size % 2 ^ 32)) es)
    fewer : users (e ∷ es) ≡ e ∷ users es

  entered :
      (us fs es : List Entry) (e : Entry) (lba : ℕ) (r : Ramfs)
      → Plentiful kmalloc
      → is_user e ≡ true
      → Loading us fs (e ∷ es) lba r
      → Entered us fs es e lba r
  unfolding users entry_writes Finds saved_entry
  entered us fs es e lba r plenty user l =
      let size = e.size % 2 ^ 32 in
      let next = lba + 1 + data_sectors size in
      let (savable, stored) = l.savable zero (omega arith) user in
      let whole : size ≡ e.size = omega (arith, stored.bounded, stored.sized) in
      let saved = saved_entry-disk_entry e savable (omega (arith, stored.bounded, stored.sized)) in
      let writes : entry_writes lba (e ∷ es)
          ≡ (lba, disk_entry e)
            ∷ (content_writes e.content (lba + 1) size ++ entry_writes next es) =
        rw user refl in
      let (here, found) = subst (Finds d) writes l.finds in
      let (content, later) =
        Finds-append d (content_writes e.content (lba + 1) size) (entry_writes next es) found in
      record {
        here = here;
        fits =
            short_names (length (saved_entry (disk_entry e)).name)
              (length (saved_entry (disk_entry e)).parent)
              (omega (arith, savable.name_short, ap {B = ℕ} (λ x. length x) saved.same_name))
              (omega (arith, savable.parent_short, ap {B = ℕ} (λ x. length x) saved.same_parent));
        sectors = ap data_sectors (saved.same_size ∙ sym whole);
        back =
            with_data-Reloaded kmalloc d (lba + 1) e (saved_entry (disk_entry e)) plenty stored
              saved refl content;
        later = later;
        fewer = rw user refl;
      }

  -- The table after a round.
  abbrev grown : List Entry → List Entry → ℕ → Entry → Ramfs → Ramfs
  grown us fs lba e r = record r {
    entries = set r.entries (length us) (loaded lba e);
    entry_count = r.entry_count + 1;
  }

  moved_on :
      (us fs es : List Entry) (f e : Entry) (lba : ℕ) (r : Ramfs)
      → is_user e ≡ true
      → Loading us (f ∷ fs) (e ∷ es) lba r
      → Entered us (f ∷ fs) es e lba r
      → Loading
          (us ++ (loaded lba e ∷ []))
          fs
          es
          (lba + 1 + data_sectors (e.size % 2 ^ 32))
          (grown us fs lba e r)
  unfolding AllFree
  moved_on us fs es f e lba r user l t =
      let taken : (not (loaded lba e).used) ≡ false = ap not t.back.in_use in
      record {
        at = ap (λ x. set x (length us) (loaded lba e)) l.at ∙ set-append us fs f (loaded lba e);
        full = Nowhere-append (λ x. not x.used) us (loaded lba e) l.full taken;
        free = l.free.1;
        room = omega (arith, l.room, ap {B = ℕ} (λ x. length x) t.fewer);
        finds = t.later;
        savable = λ k lt. l.savable (suc k) (omega arith);
        apart = λ k lt is.
            Nowhere-append (is_named (get_or es k no_entry).parent (get_or es k no_entry).name) us
              (loaded lba e) (l.apart (suc k) (omega arith) is)
              (unlike (get_or es k no_entry) e (loaded lba e) t.back
                (λ path. zero_not (l.distinct 0 (suc k) (omega arith) (omega arith) user is path)));
        distinct = λ i j hi hj ui uj path.
            suc_eq (l.distinct (suc i) (suc j) (omega arith) (omega arith) ui uj path);
      }

  one_read :
      (us fs es : List Entry) (f e : Entry) (lba : ℕ) (r : Ramfs)
      → is_user e ≡ true
      → Loading us (f ∷ fs) (e ∷ es) lba r
      → Entered us (f ∷ fs) es e lba r
      → Loaded
          (us ++ (loaded lba e ∷ []))
          fs
          es
          (lba + 1 + data_sectors (e.size % 2 ^ 32))
          (grown us fs lba e r)
      → Loaded us (f ∷ fs) (e ∷ es) lba r
  unfolding Loaded count_users AllFree AllReloaded
  one_read us fs es f e lba r user l t (ls, run, all) =
      let from_zero : 0 + length us ≡ length us = omega arith in
      let slot : find_slot r ≡ some (length us) =
        ap (find_from (λ x. not x.used) 0) l.at
        ∙ find_from-append (λ x. not x.used) 0 us (f ∷ fs) (l.full 0)
        ∙ first_free f fs (0 + length us) l.free.0
        ∙ ap some from_zero in
      let absent : find_entry r (loaded lba e).parent (loaded lba e).name ≡ none =
        ap₂ (λ p n. find_from (is_named p n) 0 r.entries) t.back.parent_back t.back.name_back
        ∙ ap (find_from (is_named e.parent e.name) 0) l.at
        ∙ find_from-append (is_named e.parent e.name) 0 us (f ∷ fs)
            (l.apart zero (omega arith) user 0)
        ∙ AllFree-Nowhere e.parent e.name (f ∷ fs) l.free (0 + length us) in
      let count : count_users (e ∷ es) ≡ suc (count_users es) = rw user refl in
      let total : r.entry_count + 1 + length ls ≡ r.entry_count + suc (length ls) = omega arith in
      (
        loaded lba e ∷ ls,
        ap (λ n. load_entries kmalloc (λ q. some (d q)) n lba r) count
            ∙ load_round (count_users es) lba (length us) r e t.here t.fits slot absent
            ∙ ap
                (λ n.
                  load_entries kmalloc (λ q. some (d q)) (count_users es) (lba + 1 + n)
                    (grown us fs lba e r))
                t.sectors
            ∙ run
            ∙ ap₂ (λ x y. done (record r { entries = x; entry_count = y }))
                (append_assoc us (loaded lba e ∷ []) (ls ++ drop (length ls) fs)) total,
        subst (λ x. AllReloaded x (loaded lba e ∷ ls)) (sym t.fewer) (t.back, all),
      )

  pub load_entries-Loaded :
      (us fs es : List Entry) (lba : ℕ) (r : Ramfs)
      → Plentiful kmalloc
      → Loading us fs es lba r
      → Loaded us fs es lba r
  load_entries-Loaded us fs [] lba r plenty l = all_read us fs lba r l.at
  load_entries-Loaded us fs (e ∷ es) lba r plenty l = elim (Bool-cases (is_user e)) [
    | inr other ↦
        not_written us fs es e lba r other
          (load_entries-Loaded us fs es lba r plenty (skipped_on us fs es e lba r other l))
    | inl user ↦ elim (List-cases fs) [
      | inl none_free ↦
          let t = entered us fs es e lba r plenty user l in
          absurd (
            omega (
              arith,
              l.room,
              ap {B = ℕ} (λ x. length x) t.fewer,
              ap {B = ℕ} (λ x. length x) none_free,
            ))
      | inr (f, rest, split) ↦
          let l' = subst (λ x. Loading us x (e ∷ es) lba r) split l in
          let t = entered us (f ∷ rest) es e lba r plenty user l' in
          subst (λ x. Loaded us x (e ∷ es) lba r) (sym split)
            (one_read us rest es f e lba r user l' t (
              load_entries-Loaded (us ++ (loaded lba e ∷ [])) rest es _ (grown us rest lba e r)
                plenty (moved_on us rest es f e lba r user l' t)))
    ]
  ]
