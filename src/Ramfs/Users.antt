-- ===== src/Ramfs/Users.antt =====
-- The entries that `ramfs_sync_to_disk` of kernel/fs/ramfs.c writes, and those that are loaded for
-- them.
use next_os.Prelude.{
  ℕ, suc, ◌<◌, ◌≡◌, refl, sym, ◌∙◌, ◌⊎◌, inl, inr, false, not, ◌||◌, some, List, [], ◌∷◌, leb,
  if◌then◌else◌, Bool-cases, arith,
}
use next_os.Ramfs.Strings.{max_name, max_path}
use next_os.Ramfs.Table.{Entry, find_from, is_named, is_user}
use next_os.Ramfs.Find.{same-eq}
use next_os.Ramfs.Valid.{SamePath}
use next_os.Ramfs.Reload.{Reloaded}

-- The entries that are written: those in use that are not built-in directories.
unfoldable pub users : List Entry → List Entry
users [] = []
users (e ∷ es) = let rest = users es in if is_user e then e ∷ rest else rest

-- The entries that were loaded for others, in their order.
unfoldable pub AllReloaded : List Entry → List Entry → Type 0
AllReloaded [] [] = Unit
AllReloaded [] (l ∷ ls) = ⊥
AllReloaded (e ∷ es) [] = ⊥
AllReloaded (e ∷ es) (l ∷ ls) = Reloaded e l × AllReloaded es ls

pub short_names : (n m : ℕ) → n < 128 → m < 256 → (leb max_name n || leb max_path m) ≡ false
short_names n m n_lt m_lt = ground arith

pub List-cases :
    (xs : List Entry) → (xs ≡ []) ⊎ ((x : Entry) × (rest : List Entry) × (xs ≡ x ∷ rest))
List-cases [] = inl refl
List-cases (x ∷ xs) = inr (x, xs, refl)

pub zero_not : {n : ℕ} → ¬ (0 ≡ suc n)
zero_not h = omega arith

pub suc_eq : {n m : ℕ} → suc n ≡ suc m → n ≡ m
suc_eq h = omega arith

-- An entry that was loaded for `e` does not have the path of another entry.
pub unlike : (x e l : Entry) → Reloaded e l → ¬ SamePath e x → is_named x.parent x.name l ≡ false
unlike x e l back other = elim (Bool-cases (is_named x.parent x.name l)) [
  | inr off ↦ off
  | inl named ↦ absurd (
      other (
        sym back.parent_back ∙ same-eq l.parent x.parent (ground arith),
        sym back.name_back ∙ same-eq l.name x.name (ground arith),
      ))
]

pub first_free :
    (f : Entry) (fs : List Entry) (i : ℕ)
    → f.used ≡ false
    → find_from (λ x. not x.used) i (f ∷ fs) ≡ some i
unfolding find_from
first_free f fs i free = rw free refl
