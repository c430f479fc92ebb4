-- ===== src/Ramfs/Reload.antt =====
-- One entry that `ramfs_sync_to_disk` of kernel/fs/ramfs.c wrote and `ramfs_load_from_disk` reads.
use next_os.Prelude.{
  ℕ, suc, ◌+◌, ◌*◌, ◌%◌, ◌^◌, ◌≤◌, ◌<◌, ◌≡◌, refl, sym, ap, ◌∙◌, Bool, true, false, Option, none,
  some, List, [], ◌∷◌, ◌++◌, ltb, if◌then◌else◌, length, get_or, set, arith,
}
use mathlib.Core.Path.{subst}
use native.Mathlib.Decide.{dec_lt}
use next_os.Ramfs.Table.{Entry, find_from, data_sectors, content_writes, data_writes, is_named}
use next_os.Ramfs.Files.{max_data}
use next_os.Ramfs.Grow.{Fits, Stored, byte_at}
use next_os.Ramfs.Load.{load_sectors, filled, with_data}
use next_os.Ramfs.Decode.{SavedAs}
use next_os.Ramfs.Sectors.{Finds, load_sectors-bytes}

-- `kmalloc` has memory for a file.
abbrev pub Plentiful : (ℕ → Option (List ℕ)) → Type 0
Plentiful kmalloc =
    (n : ℕ)
    → 0 < n
    → n ≤ max_data
    → (block : List ℕ) × (kmalloc n ≡ some block) × (n ≤ length block)

-- An entry that was loaded for another one: the path, the type and the bytes of the file.
pub record Reloaded (e l : Entry) : Type 0 where
  pub in_use : l.used ≡ true
  pub name_back : l.name ≡ e.name
  pub parent_back : l.parent ≡ e.parent
  pub type_back : l.type ≡ e.type
  pub size_back : l.size ≡ e.size
  pub bytes_back : (k : ℕ) → k < e.size → byte_at l.content k ≡ byte_at e.content k

enough_sectors : (n : ℕ) → n ≤ max_data → n ≤ (0 + data_sectors n) * 512
unfolding data_sectors
enough_sectors n le = omega arith

loaded_bytes :
    (d : ℕ → List ℕ) (lba n capacity : ℕ) (content : Option (List ℕ)) (block : List ℕ)
    → Fits content capacity
    → n ≤ capacity
    → n ≤ max_data
    → 0 < n
    → n ≤ length block
    → Finds d (content_writes content lba n)
    → (k : ℕ) → k < n
    → get_or (load_sectors (λ q. some (d q)) (data_sectors n) 0 lba n block) k 0 ≡ byte_at content k
unfolding Fits content_writes
loaded_bytes d lba n capacity none block fits sized small pos room finds k lt = absurd (omega arith)
loaded_bytes d lba n capacity (some bytes) block fits sized small pos room finds k lt =
    let has : ltb 0 n ≡ true = ground arith in
    load_sectors-bytes d (data_sectors n) 0 lba n bytes block
      (subst (λ (b : Bool). Finds d (if b then data_writes (data_sectors n) 0 lba n bytes else []))
        has finds)
      room (omega arith) (enough_sectors n small) (λ j inside under. absurd (omega arith)) k lt

with_data-empty :
    (kmalloc read : ℕ → Option (List ℕ)) (lba : ℕ) (s : Entry)
    → ltb 0 s.size ≡ false
    → with_data kmalloc read lba s ≡ s
unfolding with_data
with_data-empty kmalloc read lba s empty = rw empty refl

with_data-filled :
    (kmalloc read : ℕ → Option (List ℕ)) (lba : ℕ) (s : Entry) (block : List ℕ)
    → ltb 0 s.size ≡ true
    → kmalloc s.size ≡ some block
    → with_data kmalloc read lba s ≡ record s {
      content = some (load_sectors read (data_sectors s.size) 0 lba s.size block);
      capacity = s.size;
    }
unfolding with_data filled
with_data-filled kmalloc read lba s block has made = rw (has, made) refl

-- The fields come from the sector of the entry, the bytes from those behind it.
pub with_data-Reloaded :
    (kmalloc : ℕ → Option (List ℕ)) (d : ℕ → List ℕ) (lba : ℕ) (e s : Entry)
    → Plentiful kmalloc
    → Stored e
    → SavedAs e s
    → s.used ≡ true
    → Finds d (content_writes e.content lba (e.size % 2 ^ 32))
    → Reloaded e (with_data kmalloc (λ q. some (d q)) lba s)
with_data-Reloaded kmalloc d lba e s plenty stored saved used finds = elim (dec_lt 0 s.size) [
  | no empty ↦
      subst (Reloaded e) (sym (with_data-empty kmalloc (λ q. some (d q)) lba s (ground arith)))
        (record {
          in_use = used;
          name_back = saved.same_name;
          parent_back = saved.same_parent;
          type_back = saved.same_type;
          size_back = saved.same_size;
          bytes_back = λ k lt. absurd (omega (arith, saved.same_size));
        })
  | yes has ↦
      let small : s.size ≤ max_data =
        omega (arith, saved.same_size, stored.bounded, stored.sized) in
      let same : e.size % 2 ^ 32 ≡ s.size = omega (arith, saved.same_size) in
      let (block, made, room) = plenty s.size has small in
      let bytes =
        loaded_bytes d lba s.size e.capacity e.content block stored.fits
          (omega (arith, saved.same_size, stored.sized)) small has room
          (subst (λ n. Finds d (content_writes e.content lba n)) same finds) in
      subst (Reloaded e)
        (sym (with_data-filled kmalloc (λ q. some (d q)) lba s block (ground arith) made))
        (record {
          in_use = used;
          name_back = saved.same_name;
          parent_back = saved.same_parent;
          type_back = saved.same_type;
          size_back = saved.same_size;
          bytes_back = λ k lt. bytes k (omega (arith, saved.same_size));
        })
]

-- A search in which no entry passes, wherever the counting begins.
abbrev pub Nowhere : (Entry → Bool) → List Entry → Type 0
Nowhere test es = (i : ℕ) → find_from test i es ≡ none

pub find_from-append :
    (test : Entry → Bool) (i : ℕ) (us ys : List Entry)
    → find_from test i us ≡ none
    → find_from test i (us ++ ys) ≡ find_from test (i + length us) ys
unfolding find_from
find_from-append test i [] ys h = ap (λ q. find_from test q ys) (omega arith)
find_from-append test i (u ∷ us) ys h =
    let fails : test u ≡ false = ground arith in
    let shift : i + 1 + length us ≡ i + suc (length us) = omega arith in
    rw fails
      (find_from-append test (i + 1) us ys (ground arith) ∙ ap (λ q. find_from test q ys) shift)

pub Nowhere-append :
    (test : Entry → Bool) (us : List Entry) (e : Entry)
    → Nowhere test us
    → test e ≡ false
    → Nowhere test (us ++ (e ∷ []))
unfolding find_from
Nowhere-append test us e none_there fails i =
    find_from-append test i us (e ∷ []) (none_there i) ∙ rw fails refl

-- No entry is in use.
unfoldable pub AllFree : List Entry → Type 0
AllFree [] = Unit
AllFree (e ∷ es) = (e.used ≡ false) × AllFree es

pub AllFree-Nowhere :
    (parent name : List ℕ) (fs : List Entry) → AllFree fs → Nowhere (is_named parent name) fs
unfolding AllFree find_from
AllFree-Nowhere parent name [] h i = refl
AllFree-Nowhere parent name (f ∷ fs) (free, h) i =
    rw free (AllFree-Nowhere parent name fs h (i + 1))

pub set-append :
    (us fs : List Entry) (f e : Entry) → set (us ++ (f ∷ fs)) (length us) e ≡ (us ++ (e ∷ [])) ++ fs
set-append [] fs f e = refl
set-append (u ∷ us) fs f e = ap (λ q. u ∷ q) (set-append us fs f e)
