-- ===== src/Vfs/Shown.antt =====
-- The names of the disk's entries that `vfs_root_readdir` of kernel/fs/vfs.c shows.
use next_os.Prelude.{
  ℕ, ◌≡◌, refl, sym, ap, ◌∙◌, inl, inr, Bool, true, false, not, ◌&&◌, ◌||◌, List, [], ◌∷◌, ◌==◌,
  get_or, bytes_of, Bool-cases, arith,
}
use mathlib.Core.Path.{ap₂}
use next_os.Prelude.Bytes.{c_string}
use next_os.Ramfs.Strings.{same}
use next_os.Vfs.Root.{is_dot_entry, is_ramfs_builtin, hidden}

-- An entry of the disk is shown unless its name is `.` or `..`, one of the three directories that ramfs
-- has from the start, or that of the configuration.
abbrev pub shown : List ℕ → Bool
shown name = not (
    same (c_string name) (bytes_of ".")
    || same (c_string name) (bytes_of "..")
    || same name (bytes_of "Desktop")
    || same name (bytes_of "Documents")
    || same name (bytes_of "Images")
    || same name (bytes_of "nextos.cfg"))

shown_no : (b : Bool) → not b ≡ true → b ≡ false
shown_no b h = ground arith

shown_yes : (b : Bool) → not b ≡ false → b ≡ true
shown_yes b h = ground arith

at_end : (xs : List ℕ) → same (c_string xs) [] ≡ (get_or xs 0 0 == 0)
unfolding same
at_end [] = refl
at_end (x ∷ xs) = elim (Bool-cases (x == 0)) [ inl nul ↦ rw nul refl | inr byte ↦ rw byte refl ]

one_more_dot :
    (x : ℕ) (xs ys : List ℕ)
    → same (c_string (x ∷ xs)) (b'.' ∷ ys) ≡ ((x == b'.') && same (c_string xs) ys)
unfolding same
one_more_dot x xs ys = elim (Bool-cases (x == 0)) [
  | inl nul ↦ let other : (x == b'.') ≡ false = ground arith in rw (nul, other) refl
  | inr byte ↦ rw byte refl
]

one_dot :
    (xs : List ℕ)
    → same (c_string xs) (b'.' ∷ []) ≡ ((get_or xs 0 0 == b'.') && (get_or xs 1 0 == 0))
unfolding same
one_dot [] = refl
one_dot (x ∷ xs) = one_more_dot x xs [] ∙ ap (λ q. (x == b'.') && q) (at_end xs)

two_dots :
    (xs : List ℕ)
    → same (c_string xs) (b'.' ∷ b'.' ∷ [])
      ≡ ((get_or xs 0 0 == b'.') && ((get_or xs 1 0 == b'.') && (get_or xs 2 0 == 0)))
unfolding same
two_dots [] = refl
two_dots (x ∷ xs) = one_more_dot x xs (b'.' ∷ []) ∙ ap (λ q. (x == b'.') && q) (one_dot xs)

either : (a b c : Bool) → (a && (b || c)) ≡ ((a && b) || (a && c))
either true b c = refl
either false b c = refl

dot_names :
    (name : List ℕ)
    → is_dot_entry name
      ≡ (same (c_string name) (bytes_of ".") || same (c_string name) (bytes_of ".."))
unfolding is_dot_entry
dot_names name =
    either (get_or name 0 0 == b'.') (get_or name 1 0 == 0)
      ((get_or name 1 0 == b'.') && (get_or name 2 0 == 0))
    ∙ sym (ap₂ (λ p q. p || q) (one_dot name) (two_dots name))

names_test :
    (a b c d e f : Bool)
    → ((a || b) || ((c || (d || e)) || f)) ≡ not (not (a || b || c || d || e || f))
names_test a b c d e f = ground arith

hidden-shown : (name : List ℕ) → hidden name ≡ not (shown name)
unfolding hidden is_ramfs_builtin
hidden-shown name =
    ap
      (λ q.
        q
        || ((same name (bytes_of "Desktop")
              || (same name (bytes_of "Documents") || same name (bytes_of "Images")))
            || same name (bytes_of "nextos.cfg")))
      (dot_names name)
    ∙ names_test (same (c_string name) (bytes_of ".")) (same (c_string name) (bytes_of ".."))
        (same name (bytes_of "Desktop")) (same name (bytes_of "Documents"))
        (same name (bytes_of "Images")) (same name (bytes_of "nextos.cfg"))

pub unseen : (name : List ℕ) → hidden name ≡ true → shown name ≡ false
unseen name h = let test = sym (hidden-shown name) ∙ h in shown_no (shown name) test

pub seen : (name : List ℕ) → hidden name ≡ false → shown name ≡ true
seen name h = let test = sym (hidden-shown name) ∙ h in shown_yes (shown name) test
