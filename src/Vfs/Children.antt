-- ===== src/Vfs/Children.antt =====
-- The listing of the root of ramfs by `vfs_root_readdir` of kernel/fs/vfs.c.
use next_os.Prelude.{
  ℕ, zero, suc, ◌+◌, ◌-◌, ◌≤◌, ◌<◌, ◌≡◌, refl, sym, ap, ◌∙◌, ◌⊎◌, inl, inr, true, false, Option,
  none, some, List, [], ◌∷◌, ◌++◌, ◌==◌, if◌then◌else◌, length, get_elem?, Bool-cases, arith,
}
use native.Mathlib.Decide.{dec_lt, ℕ_discrete}
use next_os.Prelude.Outcome.{Outcome, fault, error, done}
use next_os.Ramfs.Strings.{slash}
use next_os.Ramfs.Table.{Entry, Ramfs}
use next_os.Ramfs.Files.{Node, node_of, lookup_found}
use next_os.Ramfs.Readdir.{dir_path, readdir_at, ramfs_readdir}
use next_os.Ramfs.Listing.{listed_in, nth_listed, nth_child-nth_listed}
use next_os.Vfs.Node.{VfsNode, ramfs_node}
use next_os.Vfs.Shown.{shown}
use next_os.Vfs.Root.{ramfs_sentinel, count_next, count_ramfs, vfs_child}

-- The answer for an entry of a list, or for none.
abbrev pub listed : Option VfsNode → Outcome VfsNode
listed none = error
listed (some node) = done node

-- The nodes of a directory's children in ramfs.
unfoldable pub child_nodes : Ramfs → List ℕ → ℕ → List Entry → List VfsNode
child_nodes r dir i [] = []
child_nodes r dir i (e ∷ es) =
    let rest = child_nodes r dir (i + 1) es in
    if listed_in dir e then ramfs_node (node_of r i) ∷ rest else rest

abbrev pub root_children : Ramfs → List VfsNode
root_children r = child_nodes r (slash ∷ []) 0 r.entries

-- Those of some nodes that are shown.
unfoldable pub visible : List VfsNode → List VfsNode
visible [] = []
visible (n ∷ ns) = let rest = visible ns in if shown n.name then n ∷ rest else rest

nth_listed-listed :
    (r : Ramfs) (dir : List ℕ) (index i count : ℕ) (es : List Entry)
    → count ≤ index
    → vfs_child (lookup_found r (nth_listed dir index i count es))
      ≡ listed (get_elem? (child_nodes r dir i es) (index - count))
unfolding nth_listed child_nodes lookup_found vfs_child
nth_listed-listed r dir index i count [] le = refl
nth_listed-listed r dir index i count (e ∷ es) le = elim (Bool-cases (listed_in dir e)) [
  | inr other ↦ rw other (nth_listed-listed r dir index (i + 1) count es le)
  | inl child ↦ elim (ℕ_discrete count index) [
    | yes here ↦
        let test : (count == index) ≡ true = ground arith in
        let first : index - count ≡ 0 = omega arith in rw (child, test, first) refl
    | no off ↦
        let test : (count == index) ≡ false = ground arith in
        let later : index - count ≡ suc (index - (count + 1)) = omega arith in
        rw (child, test, later) (nth_listed-listed r dir index (i + 1) (count + 1) es (omega arith))
  ]
]

at_root : (r : Ramfs) → dir_path r ramfs_sentinel ≡ done (slash ∷ [])
unfolding dir_path
at_root r = refl

-- The listing of the root of ramfs.
pub root-listed :
    (r : Ramfs) (index : ℕ)
    → vfs_child (ramfs_readdir r ramfs_sentinel index) ≡ listed (get_elem? (root_children r) index)
unfolding ramfs_readdir readdir_at
root-listed r index =
    let whole : index - 0 ≡ index = omega arith in
    rw (at_root r) (
      ap (λ q. vfs_child (lookup_found r q)) (nth_child-nth_listed (slash ∷ []) index 0 0 r.entries)
      ∙ nth_listed-listed r (slash ∷ []) index 0 0 r.entries (omega arith)
      ∙ ap (λ q. listed (get_elem? (root_children r) q)) whole)

pub length-child_nodes :
    (r : Ramfs) (dir : List ℕ) (i : ℕ) (es : List Entry)
    → length (child_nodes r dir i es) ≤ length es
unfolding child_nodes
length-child_nodes r dir i [] = omega arith
length-child_nodes r dir i (e ∷ es) = elim (Bool-cases (listed_in dir e)) [
  | inl child ↦ rw child (omega (arith, length-child_nodes r dir (i + 1) es))
  | inr other ↦ rw other (omega (arith, length-child_nodes r dir (i + 1) es))
]

get_elem_in :
    (xs : List VfsNode) (i : ℕ) → i < length xs → (x : VfsNode) × (get_elem? xs i ≡ some x)
get_elem_in [] i lt = absurd (omega arith)
get_elem_in (x ∷ xs) zero lt = (x, refl)
get_elem_in (x ∷ xs) (suc i) lt = get_elem_in xs i (omega arith)

get_elem_past : (xs : List VfsNode) (i : ℕ) → length xs ≤ i → get_elem? xs i ≡ none
get_elem_past [] i le = refl
get_elem_past (x ∷ xs) zero le = absurd (omega arith)
get_elem_past (x ∷ xs) (suc i) le = get_elem_past xs i (omega arith)

pub get_elem_left :
    (xs ys : List VfsNode) (i : ℕ) → i < length xs → get_elem? (xs ++ ys) i ≡ get_elem? xs i
get_elem_left [] ys i lt = absurd (omega arith)
get_elem_left (x ∷ xs) ys zero lt = refl
get_elem_left (x ∷ xs) ys (suc i) lt = get_elem_left xs ys i (omega arith)

pub get_elem_right :
    (xs ys : List VfsNode) (i : ℕ)
    → length xs ≤ i
    → get_elem? (xs ++ ys) i ≡ get_elem? ys (i - length xs)
get_elem_right [] ys i le = let whole : i ≡ i - 0 = omega arith in ap (get_elem? ys) whole
get_elem_right (x ∷ xs) ys zero le = absurd (omega arith)
get_elem_right (x ∷ xs) ys (suc i) le =
    let shift : i - length xs ≡ suc i - suc (length xs) = omega arith in
    get_elem_right xs ys i (omega arith) ∙ ap (get_elem? ys) shift

-- One round of the loop that counts.
tally :
    (o : Outcome Node) (x : Option VfsNode) (count : ℕ) (rest : Option ℕ)
    → vfs_child o ≡ listed x
    → ((x ≡ none) × (count_next o count rest ≡ some count))
      ⊎ ((n : VfsNode) × (x ≡ some n) × (count_next o count rest ≡ rest))
unfolding vfs_child count_next
tally fault none count rest h = cc
tally fault (some n) count rest h = cc
tally error none count rest h = inl (refl, refl)
tally error (some n) count rest h = cc
tally (done m) none count rest h = cc
tally (done m) (some n) count rest h = inr (n, refl, refl)

nothing_there : {n : VfsNode} → some n ≡ none → ⊥
nothing_there h = cc

pub count_ramfs-length :
    (n : ℕ) (r : Ramfs) (count : ℕ)
    → count ≤ length (root_children r)
    → length (root_children r) < n + count
    → count_ramfs n r count ≡ some (length (root_children r))
unfolding count_ramfs
count_ramfs-length zero r count le fuel = absurd (omega arith)
count_ramfs-length (suc n) r count le fuel =
    elim (tally (ramfs_readdir r ramfs_sentinel count) (get_elem? (root_children r) count) count
      (count_ramfs n r (count + 1)) (root-listed r count)) [
        | inl (at_end, stop) ↦ elim (dec_lt count (length (root_children r))) [
          | yes lt ↦
              let (x, there) = get_elem_in (root_children r) count lt in
              absurd (nothing_there (sym there ∙ at_end))
          | no past ↦ stop ∙ ap some (omega arith)
        ]
        | inr (node, there, next) ↦ elim (dec_lt count (length (root_children r))) [
          | yes lt ↦ next ∙ count_ramfs-length n r (count + 1) (omega arith) (omega arith)
          | no past ↦
              absurd
                (nothing_there (sym there ∙ get_elem_past (root_children r) count (omega arith)))
        ]
      ]
