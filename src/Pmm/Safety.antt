-- ===== src/Pmm/Safety.antt =====
-- Callers of the page allocator: any sequence of calls in which each caller gives back only pages
-- that it holds. `held k` says that page `k` was handed out and not yet given back.
use next_os.Prelude.{
  ℕ, ◌*◌, ◌<◌, ◌≡◌, ◌∙◌, ap, inl, inr, Bool, true, false, some, arith, ◌==◌, if◌then◌else◌, ◌⊎◌,
  Bool-cases, sym, some_inj,
}
use mathlib.Core.Path.{subst}
use mathlib.Core.Bool.{false≢true}
use next_os.Pmm.{Pmm, page_size, alloc_page, free_page}
use next_os.Pmm.Words.{used, IsValid}
use next_os.Pmm.Alloc.{Allocated, alloc_page-cases}
use next_os.Pmm.Free.{Freed, free_page-Freed}

abbrev pub Held : Type 0
Held = ℕ → Bool

abbrev pub update : Held → ℕ → Bool → Held
update held k b j = if k == j then b else held j

-- One call of the allocator.
pub data Step (p : Pmm) (held : Held) : Pmm → Held → Type 0 where
  takes :
      {q : Pmm} (k : ℕ)
      → 0 < k
      → alloc_page p ≡ (q, k * page_size)
      → Step p held q (update held k true)
  fails : {q : Pmm} → alloc_page p ≡ (q, 0) → Step p held q held
  gives_back :
      {q : Pmm} (k : ℕ)
      → held k ≡ true
      → free_page p (k * page_size) ≡ some q
      → Step p held q (update held k false)

pub data Reach (start : Pmm) : Pmm → Held → Type 0 where
  here : Reach start start (λ k. false)
  next :
      {p q : Pmm} {held held' : Held}
      → Reach start p held
      → Step p held q held'
      → Reach start q held'

-- What is held is in memory, is not page 0, and is marked as used.
pub record IsOwned (p : Pmm) (held : Held) : Type 0 where
  pub valid : IsValid p
  pub marked : (k : ℕ) → held k ≡ true → (used p.bitmap k ≡ 1) × (0 < k) × (k < p.total_pages)

Allocated-IsOwned :
    (p q : Pmm) (held : Held) (page k : ℕ)
    → Allocated p q page k
    → IsOwned p held
    → IsOwned q (update held k true)
Allocated-IsOwned p q held page k a o = record {
  valid = a.valid;
  marked = λ j e. ground (arith, a.marks j, a.same_total, a.in_memory, a.not_null, o.marked j);
}

Freed-IsOwned :
    (p q : Pmm) (held : Held) (k : ℕ)
    → Freed p q k
    → IsOwned p held
    → IsOwned q (update held k false)
Freed-IsOwned p q held k f o = record {
  valid = f.valid;
  marked = λ j e. ground (arith, f.marks j, f.same_total, o.marked j);
}

-- The page that a call returned is the one that it marked.
Allocated-same :
    (p q : Pmm) (k j : ℕ)
    → alloc_page p ≡ (q, k * page_size)
    → Allocated p (alloc_page p).0 (alloc_page p).1 j
    → Allocated p q (k * page_size) k
Allocated-same p q k j e a =
    let page : j ≡ k = omega (arith, a.address, ap (λ (t : Pmm × ℕ). t.1) e) in
    subst (λ i. Allocated p q (k * page_size) i) page
      (subst (λ (t : Pmm × ℕ). Allocated p t.0 t.1 j) e a)

Step-IsOwned :
    {p q : Pmm} {held held' : Held} → Step p held q held' → IsOwned p held → IsOwned q held'
Step-IsOwned {p} {held} (takes {q} k pos e) o = elim (alloc_page-cases p o.valid) [
  | inl (full, all) ↦
      absurd (omega (arith, ap (λ (t : Pmm × ℕ). t.1) e, ap (λ (t : Pmm × ℕ). t.1) full))
  | inr (j, a) ↦ Allocated-IsOwned p q held (k * page_size) k (Allocated-same p q k j e a) o
]
Step-IsOwned {p} {held} (fails {q} e) o = elim (alloc_page-cases p o.valid) [
  | inl (full, all) ↦ subst (λ r. IsOwned r held) (ap (λ (t : Pmm × ℕ). t.0) (sym full ∙ e)) o
  | inr (j, a) ↦ absurd (omega (arith, a.address, a.not_null, ap (λ (t : Pmm × ℕ). t.1) e))
]
Step-IsOwned {p} {held} (gives_back {q} k h e) o =
    let (r, freed, f) =
      free_page-Freed p o.valid k (o.marked k h).1 (o.marked k h).2 (k * page_size) (omega arith) in
    Freed-IsOwned p q held k (subst (λ s. Freed p s k) (some_inj (sym freed ∙ e)) f) o

Reach-IsOwned : {start p : Pmm} {held : Held} → IsValid start → Reach start p held → IsOwned p held
Reach-IsOwned v here = record { valid = v; marked = λ k e. absurd (false≢true e) }
Reach-IsOwned v (next r s) = Step-IsOwned s (Reach-IsOwned v r)

-- Whatever calls came before, from a valid start: a page that `pmm_alloc_page` returns is one that
-- no caller holds, lies in memory, and is not page 0.
pub alloc_page-exclusive :
    {start p q : Pmm} {held : Held} (k : ℕ)
    → IsValid start
    → Reach start p held
    → alloc_page p ≡ (q, k * page_size)
    → 0 < k
    → (held k ≡ false) × (k < p.total_pages) × IsOwned q (update held k true)
alloc_page-exclusive {start} {p} {q} {held} k v r e pos =
    let o : IsOwned p held = Reach-IsOwned v r in
    elim (alloc_page-cases p o.valid) [
      | inl (full, all) ↦
          absurd (omega (arith, ap (λ (t : Pmm × ℕ). t.1) e, ap (λ (t : Pmm × ℕ). t.1) full))
      | inr (j, a) ↦
          let b = Allocated-same p q k j e a in
          (free_of_unused o b (Bool-cases (held k)), b.in_memory, Step-IsOwned (takes k pos e) o)
    ]
  where
    free_of_unused :
        IsOwned p held
        → Allocated p q (k * page_size) k
        → (held k ≡ true) ⊎ (held k ≡ false)
        → held k ≡ false
    free_of_unused o b (inl h) = absurd (omega (arith, (o.marked k h).0, b.was_free))
    free_of_unused o b (inr h) = h
