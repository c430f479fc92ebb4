-- ===== src/Ramfs/Listing.antt =====
-- What a caller sees that asks `ramfs_readdir` of kernel/fs/ramfs.c for one index after another.
use next_os.Prelude.{
  ℕ, Bool, Option, zero, suc, ◌+◌, ◌≤◌, ◌<◌, ◌≡◌, refl, ap, ◌∙◌, ◌⊎◌, inl, inr, true, false, none,
  some, List, [], ◌∷◌, length, get_or, ◌==◌, if◌then◌else◌, ◌%◌, ◌^◌, Bool-cases, Option-cases,
  arith,
}
use native.Mathlib.Decide.{ℕ_discrete}
use next_os.Ramfs.Strings.{same, error, done}
use next_os.Ramfs.Table.{Entry, Ramfs, no_entry}
use next_os.Ramfs.Find.{same_self, same-eq}
use next_os.Ramfs.Place.{Place, dir_path-Place}
use next_os.Ramfs.Files.{node_of, lookup_found}
use next_os.Ramfs.Readdir.{is_child, nth_child, readdir_at, ramfs_readdir}

-- An entry of the directory `dir`: it is used and has that path as its parent.
pub record IsChild (dir : List ℕ) (e : Entry) : Type 0 where
  pub is_used : e.used ≡ true
  pub inside : e.parent ≡ dir

-- The test for one.
abbrev pub listed_in : List ℕ → Entry → Bool
listed_in dir e = if e.used then same e.parent dir else false

listed_in-IsChild : (dir : List ℕ) (e : Entry) → listed_in dir e ≡ true → IsChild dir e
listed_in-IsChild dir e h = elim (Bool-cases e.used) [
  | inl is_used ↦
      let named : same e.parent dir ≡ true = ground arith in
      record { is_used = is_used; inside = same-eq e.parent dir named }
  | inr unused ↦ ground arith
]

IsChild-listed_in : (dir : List ℕ) (e : Entry) → IsChild dir e → listed_in dir e ≡ true
IsChild-listed_in dir e c =
    let named : same e.parent dir ≡ true = ap (λ p. same p dir) c.inside ∙ same_self dir in
    rw (c.is_used, named) refl

is_child-listed_in : (dir : List ℕ) (e : Entry) → is_child dir e ≡ listed_in dir e
is_child-listed_in dir e = elim (Bool-cases e.used) [
  | inl is_used ↦ rw is_used refl
  | inr unused ↦ rw unused refl
]

-- The loop along the entries, with that test.
unfoldable pub nth_listed : List ℕ → ℕ → ℕ → ℕ → List Entry → Option ℕ
nth_listed dir index i count [] = none
nth_listed dir index i count (e ∷ es) =
    let skip = nth_listed dir index (i + 1) count es in
    let next = nth_listed dir index (i + 1) (count + 1) es in
    if listed_in dir e then (if count == index then some i else next) else skip

pub nth_child-nth_listed :
    (dir : List ℕ) (index i count : ℕ) (es : List Entry)
    → nth_child dir index i count es ≡ nth_listed dir index i count es
unfolding nth_child nth_listed
nth_child-nth_listed dir index i count [] = refl
nth_child-nth_listed dir index i count (e ∷ es) =
    let skip = nth_child-nth_listed dir index (i + 1) count es in
    let next = nth_child-nth_listed dir index (i + 1) (count + 1) es in
    elim (Bool-cases (listed_in dir e)) [
      | inl child ↦ rw (is_child-listed_in dir e, child, next) refl
      | inr other ↦ rw (is_child-listed_in dir e, other, skip) refl
    ]

-- The number of children among some entries.
unfoldable pub count_children : List ℕ → List Entry → ℕ
count_children dir [] = 0
count_children dir (e ∷ es) =
    let rest = count_children dir es in if listed_in dir e then suc rest else rest

-- The number of children in front of the entry at `k`.
unfoldable pub rank : List ℕ → ℕ → List Entry → ℕ
rank dir k [] = 0
rank dir zero (e ∷ es) = 0
rank dir (suc k) (e ∷ es) = let rest = rank dir k es in if listed_in dir e then suc rest else rest

-- The child at `k` is found under its rank.
nth_listed-rank :
    (dir : List ℕ) (index i count k : ℕ) (es : List Entry)
    → k < length es
    → listed_in dir (get_or es k no_entry) ≡ true
    → index ≡ count + rank dir k es
    → nth_listed dir index i count es ≡ some (i + k)
unfolding nth_listed rank
nth_listed-rank dir index i count k [] lt child at = absurd (omega arith)
nth_listed-rank dir index i count zero (e ∷ es) lt child at =
    let here : (count == index) ≡ true = ground arith in rw (child, here) (ap some (omega arith))
nth_listed-rank dir index i count (suc k) (e ∷ es) lt child at =
    elim (Bool-cases (listed_in dir e)) [
      | inl counts ↦
          let next : rank dir (suc k) (e ∷ es) ≡ suc (rank dir k es) = rw counts refl in
          let later : (count == index) ≡ false = ground (arith, next) in
          let rest =
            nth_listed-rank dir index (i + 1) (count + 1) k es (omega arith) child
              (omega (arith, next)) in
          rw (counts, later) (rest ∙ ap some (omega arith))
      | inr skipped ↦
          let same_rank : rank dir (suc k) (e ∷ es) ≡ rank dir k es = rw skipped refl in
          let rest =
            nth_listed-rank dir index (i + 1) count k es (omega arith) child
              (omega (arith, same_rank)) in
          rw skipped (rest ∙ ap some (omega arith))
    ]

-- What is found is a child, and its rank is the index.
nth_listed-some :
    (dir : List ℕ) (index i count n : ℕ) (es : List Entry)
    → count ≤ index
    → nth_listed dir index i count es ≡ some n
    → (k : ℕ) × (n ≡ i + k)
      × (k < length es)
      × (listed_in dir (get_or es k no_entry) ≡ true)
      × (count + rank dir k es ≡ index)
unfolding nth_listed rank
nth_listed-some dir index i count n [] le h = ground arith
nth_listed-some dir index i count n (e ∷ es) le h = elim (Bool-cases (listed_in dir e)) [
  | inl counts ↦ elim (ℕ_discrete count index) [
    | yes here ↦ (zero, ground arith, omega arith, counts, omega (arith, here))
    | no off ↦
        let (k, at, inside, child, ranked) =
          nth_listed-some dir index (i + 1) (count + 1) n es (omega arith) (ground arith) in
        (suc k, omega arith, omega arith, child, rw counts (omega arith))
  ]
  | inr skipped ↦
      let (k, at, inside, child, ranked) =
        nth_listed-some dir index (i + 1) count n es le (ground arith) in
      (suc k, omega arith, omega arith, child, rw skipped ranked)
]

-- Nothing is found from the number of children on.
nth_listed-none :
    (dir : List ℕ) (index i count : ℕ) (es : List Entry)
    → count + count_children dir es ≤ index
    → nth_listed dir index i count es ≡ none
unfolding nth_listed count_children
nth_listed-none dir index i count [] h = refl
nth_listed-none dir index i count (e ∷ es) h = elim (Bool-cases (listed_in dir e)) [
  | inl counts ↦
      let more : count_children dir (e ∷ es) ≡ suc (count_children dir es) = rw counts refl in
      let below : (count == index) ≡ false = ground (arith, more) in
      rw (counts, below) (nth_listed-none dir index (i + 1) (count + 1) es (omega (arith, more)))
  | inr skipped ↦
      let same_count : count_children dir (e ∷ es) ≡ count_children dir es = rw skipped refl in
      rw skipped (nth_listed-none dir index (i + 1) count es (omega (arith, same_count)))
]

rank-lt :
    (dir : List ℕ) (k : ℕ) (es : List Entry)
    → k < length es
    → listed_in dir (get_or es k no_entry) ≡ true
    → rank dir k es < count_children dir es
unfolding rank count_children
rank-lt dir k [] lt child = absurd (omega arith)
rank-lt dir zero (e ∷ es) lt child = rw child (omega arith)
rank-lt dir (suc k) (e ∷ es) lt child = elim (Bool-cases (listed_in dir e)) [
  | inl counts ↦ rw counts (omega (arith, rank-lt dir k es (omega arith) child))
  | inr skipped ↦ rw skipped (rank-lt dir k es (omega arith) child)
]

ramfs_readdir-nth_listed :
    (r : Ramfs) (fs_data : ℕ) (dir : List ℕ) (index : ℕ)
    → Place r (fs_data % 2 ^ 32) dir
    → ramfs_readdir r fs_data index ≡ lookup_found r (nth_listed dir index 0 0 r.entries)
unfolding ramfs_readdir readdir_at
ramfs_readdir-nth_listed r fs_data dir index place =
    rw (dir_path-Place r fs_data dir place)
      (ap (lookup_found r) (nth_child-nth_listed dir index 0 0 r.entries))

-- A directory whose path fits is listed completely: each used entry with that path as its parent is
-- returned under an index below their number; what is returned under an index is such an entry,
-- with as many of them in front of it; and from their number on the call fails.
pub ramfs_readdir-lists :
    (r : Ramfs) (fs_data : ℕ) (dir : List ℕ)
    → Place r (fs_data % 2 ^ 32) dir
    → ((k : ℕ)
        → k < length r.entries
        → IsChild dir (get_or r.entries k no_entry)
        → (index : ℕ) × (index < count_children dir r.entries)
          × (ramfs_readdir r fs_data index ≡ done (node_of r k)))
      × ((index : ℕ)
          → (ramfs_readdir r fs_data index ≡ error)
            ⊎ ((k : ℕ) × (k < length r.entries)
                × IsChild dir (get_or r.entries k no_entry)
                × (ramfs_readdir r fs_data index ≡ done (node_of r k))
                × (rank dir k r.entries ≡ index)))
      × ((index : ℕ) → count_children dir r.entries ≤ index → ramfs_readdir r fs_data index ≡ error)
unfolding lookup_found
ramfs_readdir-lists r fs_data dir place =
    let run = λ (index : ℕ). ramfs_readdir-nth_listed r fs_data dir index place in
    (
      λ k lt child.
          let found =
            nth_listed-rank dir (rank dir k r.entries) 0 0 k r.entries lt
              (IsChild-listed_in dir (get_or r.entries k no_entry) child) (omega arith) in
          (
            rank dir k r.entries,
            rank-lt dir k r.entries lt (IsChild-listed_in dir (get_or r.entries k no_entry) child),
            run (rank dir k r.entries) ∙ rw found (ap done (ap (node_of r) (omega arith))),
          ),
      λ index. elim (Option-cases (nth_listed dir index 0 0 r.entries)) [
        | inl absent ↦ inl (run index ∙ rw absent refl)
        | inr (n, found) ↦
            let (k, at, inside, child, ranked) =
              nth_listed-some dir index 0 0 n r.entries (omega arith) found in
            inr (
              k,
              inside,
              listed_in-IsChild dir (get_or r.entries k no_entry) child,
              run index ∙ rw found (ap done (ap (node_of r) (omega arith))),
              omega (arith, ranked),
            )
      ],
      λ index past. run index ∙ rw (nth_listed-none dir index 0 0 r.entries (omega arith)) refl,
    )
