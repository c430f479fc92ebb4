-- ===== src/Ramfs/Split.antt =====
-- `split_path` of kernel/fs/ramfs.c.
use next_os.Prelude.{
  ℕ, zero, suc, ◌+◌, ◌-◌, ◌≤◌, ◌<◌, ◌≡◌, refl, sym, ap, ◌∙◌, ◌⊎◌, inl, inr, ◌≢◌, true, false, List,
  [], ◌∷◌, ◌++◌, length, get_or, take, drop, leb, ltb, ◌&&◌, ◌==◌, if◌then◌else◌, Bool-cases, arith,
}
use mathlib.Core.Path.{subst, ap₂}
use native.Mathlib.Decide.{ℕ_discrete, dec_lt}
use next_os.Ramfs.Strings.{
  fault, done, slash, path_end, last_slash_from, last_slash, parent_of, name_of, split_path,
  max_path, max_name,
}
use next_os.Prelude.Slices.{take_all, length-take, take-append_drop, get_or-take, get_or-drop}

-- What the loop finds in `n` rounds from index `i` on: no slash, or the last one.
last_slash_from-slash :
    (n i last : ℕ) (path : List ℕ)
    → last < i
    → (m : ℕ) → m ≡ last_slash_from n i last path
    → ((m ≡ last) × ((k : ℕ) → i ≤ k → k < i + n → get_or path k 0 ≢ slash))
      ⊎ ((i ≤ m)
          × (m < i + n)
          × (get_or path m 0 ≡ slash)
          × ((k : ℕ) → m < k → k < i + n → get_or path k 0 ≢ slash))
unfolding last_slash_from
last_slash_from-slash zero i last path h m e = inl (e, λ k ge lt. absurd (omega arith))
last_slash_from-slash (suc n) i last path h m e = elim (ℕ_discrete (get_or path i 0) slash) [
  | yes here ↦
      let here' : (get_or path i 0 == slash) ≡ true = ground arith in
      elim (last_slash_from-slash n (i + 1) i path (omega arith) m
        (e ∙ ap (λ b. last_slash_from n (i + 1) (if b then i else last) path) here')) [
          | inl (at, clear) ↦ inr (
            omega arith,
            omega arith,
            ap (λ q. get_or path q 0) at ∙ here,
            λ k gt lt. clear k (omega arith) (omega arith),
          )
          | inr (ge, lt, found, clear) ↦
              inr (omega arith, omega arith, found, λ k gt lt'. clear k gt (omega arith))
        ]
  | no other ↦
      let other' : (get_or path i 0 == slash) ≡ false = ground arith in
      elim (last_slash_from-slash n (i + 1) last path (omega arith) m
        (e ∙ ap (λ b. last_slash_from n (i + 1) (if b then i else last) path) other')) [
          | inl (at, clear) ↦ inl (
            at,
            λ k ge lt. elim (ℕ_discrete k i) [
              | yes same ↦ subst (λ q. get_or path q 0 ≢ slash) (sym same) other
              | no off ↦ clear k (omega arith) (omega arith)
            ],
          )
          | inr (ge, lt, found, clear) ↦
              inr (omega arith, omega arith, found, λ k gt lt'. clear k gt (omega arith))
        ]
]

length-take_le : (n : ℕ) (xs : List ℕ) → length (take n xs) ≤ n
length-take_le zero xs = omega arith
length-take_le (suc n) [] = omega arith
length-take_le (suc n) (x ∷ xs) = omega (arith, length-take_le n xs)

path_end-bounds :
    (path : List ℕ) → 0 < length path → (0 < path_end path) × (path_end path ≤ length path)
unfolding path_end
path_end-bounds path h = (ground arith, ground arith)

-- Where the last slash of a path that begins with one is.
last_slash_lem :
    (rest : List ℕ) (n : ℕ)
    → path_end (slash ∷ rest) ≡ suc n
    → (last_slash (slash ∷ rest) < suc n)
      × (get_or (slash ∷ rest) (last_slash (slash ∷ rest)) 0 ≡ slash)
      × ((k : ℕ) → last_slash (slash ∷ rest) < k → k < suc n → get_or (slash ∷ rest) k 0 ≢ slash)
unfolding last_slash last_slash_from
last_slash_lem rest n e =
    let path = slash ∷ rest in
    let m = last_slash path in
    let at : m ≡ last_slash_from n 1 0 path = ap (λ q. last_slash_from q 0 0 path) e in
    elim (last_slash_from-slash n 1 0 path (omega arith) m at) [
      | inl (start, clear) ↦ (
        omega arith,
        ap (λ q. get_or path q 0) start,
        λ k gt lt. clear k (omega arith) (omega arith),
      )
      | inr (ge, lt, found, clear) ↦ (omega arith, found, λ k gt lt'. clear k gt (omega arith))
    ]

-- The parent and the name of a path: they make up the path, or the path in front of a slash at its end
-- where something else is in front of that; the parent ends with a slash, and the name has none.
pub record Parts (path parent name : List ℕ) : Type 0 where
  pub joined :
      ((parent ++ name ≡ path) × ((length path ≡ 1) ⊎ (get_or path (length path - 1) 0 ≢ slash)))
      ⊎ ((((parent ++ name) ++ slash ∷ []) ≡ path) × (0 < length (parent ++ name)))
  pub ends : get_or parent (length parent - 1) 0 ≡ slash
  pub clear : (k : ℕ) → k < length name → get_or name k 0 ≢ slash

at_end : (path : List ℕ) (n : ℕ) → length path ≡ suc n → take n path ++ get_or path n 0 ∷ [] ≡ path
at_end [] n e = absurd (omega arith)
at_end (c ∷ []) zero e = refl
at_end (c ∷ d ∷ rest) zero e = absurd (omega arith)
at_end (c ∷ rest) (suc n) e = ap (λ q. c ∷ q) (at_end rest n (omega arith))

-- What `split_path` cuts into two parts.
whole_path :
    (path cut : List ℕ)
    → 0 < length path
    → cut ≡ take (path_end path) path
    → ((cut ≡ path) × ((length path ≡ 1) ⊎ (get_or path (length path - 1) 0 ≢ slash)))
      ⊎ (((cut ++ slash ∷ []) ≡ path) × (0 < length cut))
unfolding path_end
whole_path path cut pos e = elim (dec_lt 1 (length path)) [
  | no short ↦
      let test : ltb 1 (length path) ≡ false = ground arith in
      let uncut : cut ≡ path = e ∙ rw test (take_all (length path) path (omega arith)) in
      inl (uncut, inl (omega arith))
  | yes long ↦ elim (ℕ_discrete (get_or path (length path - 1) 0) slash) [
    | no other ↦
        let test : (ltb 1 (length path) && get_or path (length path - 1) 0 == slash) ≡ false =
          ground arith in
        inl (e ∙ rw test (take_all (length path) path (omega arith)), inr other)
    | yes here ↦
        let test : (ltb 1 (length path) && get_or path (length path - 1) 0 == slash) ≡ true =
          ground arith in
        let shorter : cut ≡ take (length path - 1) path = e ∙ rw test refl in
        let len : length cut ≡ length path - 1 =
          ap length shorter ∙ length-take (length path - 1) path (omega arith) in
        inr (
          ap₂ (λ q c. q ++ c ∷ []) shorter (sym here) ∙ at_end path (length path - 1) (omega arith),
          omega arith,
        )
  ]
]

parts_lem :
    (rest : List ℕ) → Parts (slash ∷ rest) (parent_of (slash ∷ rest)) (name_of (slash ∷ rest))
unfolding parent_of name_of
parts_lem rest =
    let path = slash ∷ rest in
    let m = last_slash path in
    let end = path_end path in
    let (pos, inside) = path_end-bounds path (omega arith) in
    let whole : end ≡ suc (end - 1) = omega arith in
    let (before, found, clear) = last_slash_lem rest (end - 1) whole in
    let parent_len = length-take (m + 1) path (omega arith) in
    let sum : (m + 1) + (end - (m + 1)) ≡ end = omega arith in
    record {
      joined =
          whole_path path (take (m + 1) path ++ take (end - (m + 1)) (drop (m + 1) path))
            (omega arith)
            (take-append_drop (m + 1) (end - (m + 1)) path ∙ ap (λ q. take q path) sum);
      ends =
          ap (λ q. get_or (take (m + 1) path) q 0) (omega arith)
          ∙ get_or-take (m + 1) path m (omega arith)
          ∙ found;
      clear = λ k lt.
          let shorter = length-take_le (end - (m + 1)) (drop (m + 1) path) in
          let at : get_or (name_of path) k 0 ≡ get_or path (m + 1 + k) 0 =
            get_or-take (end - (m + 1)) (drop (m + 1) path) k (omega arith)
            ∙ get_or-drop (m + 1) path k in
          subst (λ q. q ≢ slash) (sym at) (clear (m + 1 + k) (omega arith) (omega arith));
    }

-- What `split_path` does with a path that has these parts.
abbrev pub SplitsInto : List ℕ → List ℕ → List ℕ → Type 0
SplitsInto path parent name =
    ((split_path path ≡ fault) × ((256 ≤ length parent) ⊎ (128 ≤ length name)))
    ⊎ ((split_path path ≡ done (parent, name)) × (length parent < 256) × (length name < 128))

-- What `split_path` does with a path.
abbrev pub Splits : List ℕ → Type 0
Splits path =
    (parent : List ℕ) × (name : List ℕ) × Parts path parent name × SplitsInto path parent name

into_parts : (path : List ℕ) → SplitsInto path (parent_of path) (name_of path)
unfolding split_path
into_parts path = elim (Bool-cases (leb max_path (length (parent_of path)))) [
  | inl long ↦ inl (rw long refl, inl (ground arith))
  | inr fits ↦ elim (Bool-cases (leb max_name (length (name_of path)))) [
    | inl long ↦ inl (rw (fits, long) refl, inr (ground arith))
    | inr fits' ↦ inr (rw (fits, fits') refl, ground arith, ground arith)
  ]
]

-- A path that begins with a slash has a parent and a name: they make up the path, less a slash at its
-- end behind something else, the parent ends with a slash, and the name has none. `split_path` copies
-- them, unless the parent has 256 bytes or more or the name has 128 or more: then it writes behind
-- its buffers.
pub split_path-cases : (path : List ℕ) → get_or path 0 0 ≡ slash → Splits path
split_path-cases [] h = absurd (zero_slash h)
  where
    zero_slash : ¬ (0 ≡ slash)
    zero_slash q = omega arith
split_path-cases (c ∷ rest) h =
    subst (λ q. Splits (q ∷ rest)) (sym h)
      (parent_of (slash ∷ rest), name_of (slash ∷ rest), parts_lem rest, into_parts (slash ∷ rest))
