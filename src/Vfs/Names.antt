-- ===== src/Vfs/Names.antt =====
-- The names of a path in `vfs_open` of kernel/fs/vfs.c.
use next_os.Prelude.{
  ℕ, zero, suc, ◌≤◌, ◌<◌, ◌≡◌, refl, sym, ap, true, false, Option, none, some, List, [], ◌∷◌, ◌++◌,
  ◌==◌, if◌then◌else◌, length, arith,
}
use next_os.Ramfs.Strings.{same, slash}
use next_os.Vfs.{after_component, next_component}
use next_os.Vfs.Node.{VfsNode}

-- The first node with a name.
unfoldable pub first_named : List ℕ → List VfsNode → Option VfsNode
first_named name [] = none
first_named name (n ∷ ns) =
    let rest = first_named name ns in if same n.name name then some n else rest

pub first_hit :
    (name : List ℕ) (n : VfsNode) (ns : List VfsNode)
    → same n.name name ≡ true
    → some n ≡ first_named name (n ∷ ns)
unfolding first_named
first_hit name n ns hit = rw hit refl

pub first_miss :
    (name : List ℕ) (n : VfsNode) (ns : List VfsNode)
    → same n.name name ≡ false
    → first_named name ns ≡ first_named name (n ∷ ns)
unfolding first_named
first_miss name n ns miss = rw miss refl

pub some_inj : {a b : VfsNode} → some a ≡ some b → a ≡ b
some_inj h = cc

-- A name that is a component of a path: not empty, without a slash, of at most 127 bytes.
unfoldable pub NoSlash : List ℕ → Type 0
NoSlash [] = Unit
NoSlash (c ∷ cs) = ((c == slash) ≡ false) × NoSlash cs

pub record IsComponent (name : List ℕ) : Type 0 where
  pub some_byte : 0 < length name
  pub short : length name ≤ 127
  pub plain : NoSlash name

-- The path of some names, without the slash in front of it.
unfoldable pub joined : List (List ℕ) → List ℕ
joined [] = []
joined (name ∷ []) = name
joined (name ∷ next ∷ names) = name ++ (slash ∷ joined (next ∷ names))

-- What is behind a name.
abbrev pub behind : List (List ℕ) → List ℕ
behind [] = []
behind (next ∷ names) = slash ∷ joined (next ∷ names)

pub split_name :
    (name : List ℕ) (names : List (List ℕ)) → joined (name ∷ names) ≡ name ++ behind names
unfolding joined
split_name name [] = sym (append_empty name)
  where
    append_empty : (xs : List ℕ) → xs ++ [] ≡ xs
    append_empty [] = refl
    append_empty (x ∷ xs) = ap (λ q. x ∷ q) (append_empty xs)
split_name name (next ∷ names) = refl

component_end :
    (n : ℕ) (names : List (List ℕ)) → next_component n (behind names) ≡ ([], joined names)
unfolding next_component after_component joined
component_end zero [] = refl
component_end (suc n) [] = refl
component_end zero (next ∷ names) = refl
component_end (suc n) (next ∷ names) = refl

pub next_component-name :
    (n : ℕ) (name : List ℕ) (names : List (List ℕ))
    → NoSlash name
    → length name ≤ n
    → next_component n (name ++ behind names) ≡ (name, joined names)
unfolding next_component NoSlash
next_component-name n [] names plain le = component_end n names
next_component-name zero (c ∷ cs) names plain le = absurd (omega arith)
next_component-name (suc n) (c ∷ cs) names (going, plain) le = rw going (
    ap {B = List ℕ × List ℕ} (λ r. (c ∷ r.0, r.1))
      (next_component-name n cs names plain (omega arith)))

pub after_slash : (path : List ℕ) → after_component (slash ∷ path) ≡ path
unfolding after_component
after_slash path = refl

pub longer : (path : List ℕ) → 0 < length path → same (slash ∷ path) (slash ∷ []) ≡ false
unfolding same
longer [] pos = absurd (omega arith)
longer (c ∷ path) pos = refl

pub length-behind : (names : List (List ℕ)) → length (joined names) ≤ length (behind names)
unfolding joined
length-behind [] = omega arith
length-behind (next ∷ names) = omega arith
