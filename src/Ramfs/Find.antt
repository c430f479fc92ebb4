-- ===== src/Ramfs/Find.antt =====
-- The searches of kernel/fs/ramfs.c along the entry table.
use next_os.Prelude.{
  ℕ, zero, suc, ◌+◌, ◌<◌, ◌≡◌, refl, ap, ◌∙◌, inl, inr, Bool, true, false, none, some, List, [],
  ◌∷◌, length, get_or, Bool-cases, arith,
}
use mathlib.Core.Path.{ap₂}
use next_os.Ramfs.Strings.{same}
use next_os.Ramfs.Table.{Entry, no_entry, find_from}

pub same_self : (xs : List ℕ) → same xs xs ≡ true
unfolding same
same_self [] = refl
same_self (x ∷ xs) = rw (same_self xs) (ground arith)

-- Strings that compare as equal are equal.
pub same-eq : (xs ys : List ℕ) → same xs ys ≡ true → xs ≡ ys
unfolding same
same-eq [] [] h = refl
same-eq [] (y ∷ ys) h = ground arith
same-eq (x ∷ xs) [] h = ground arith
same-eq (x ∷ xs) (y ∷ ys) h = ap₂ (λ a rest. a ∷ rest) (ground arith) (same-eq xs ys (ground arith))

-- A search that finds nothing: no entry passes the test.
pub find_from-none :
    (test : Entry → Bool) (i : ℕ) (es : List Entry)
    → find_from test i es ≡ none
    → (k : ℕ) → k < length es
    → test (get_or es k no_entry) ≡ false
unfolding find_from
find_from-none test i [] h k lt = absurd (omega arith)
find_from-none test i (e ∷ es) h zero lt = ground arith
find_from-none test i (e ∷ es) h (suc k) lt =
    find_from-none test (i + 1) es (ground arith) k (omega arith)

-- A search that finds an index: the entry there is in the table and passes the test.
pub find_from-some :
    (test : Entry → Bool) (i n : ℕ) (es : List Entry)
    → find_from test i es ≡ some n
    → (k : ℕ) × (n ≡ i + k) × (k < length es) × (test (get_or es k no_entry) ≡ true)
unfolding find_from
find_from-some test i n [] h = ground arith
find_from-some test i n (e ∷ es) h = elim (Bool-cases (test e)) [
  | inl passes ↦ (zero, ground arith, omega arith, passes)
  | inr fails ↦
      let (k, at, inside, passed) = find_from-some test (i + 1) n es (ground arith) in
      (suc k, omega arith, omega arith, passed)
]

-- The first entry that passes is found.
pub find_from-first :
    (test : Entry → Bool) (i k : ℕ) (es : List Entry)
    → k < length es
    → test (get_or es k no_entry) ≡ true
    → ((j : ℕ) → j < k → test (get_or es j no_entry) ≡ false)
    → find_from test i es ≡ some (i + k)
unfolding find_from
find_from-first test i k [] lt passes before = absurd (omega arith)
find_from-first test i zero (e ∷ es) lt passes before = ground arith
find_from-first test i (suc k) (e ∷ es) lt passes before =
    let fails : test e ≡ false = before zero (omega arith) in
    let rest =
      find_from-first test (i + 1) k es (omega arith) passes
        (λ j h. before (suc j) (omega arith)) in
    rw fails (rest ∙ ap some (omega arith))
