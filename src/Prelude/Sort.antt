-- ===== src/Prelude/Sort.antt =====
-- Sorting, partition points and ranges of indices: the operations of slices that the planner uses.
use Prim.Native.Nat.{ℕ, zero, suc}
use mathlib.Core.Path.{refl}
use mathlib.Core.Logic.{inl, inr}
use mathlib.Core.Bool.{Bool}
use mathlib.Core.Option.{Option, none, some}
use mathlib.Core.List.{List, [], ◌∷◌}
use shin_bucket_deployment.Prelude.Tests.{if◌then◌else◌, Bool-cases}
use shin_bucket_deployment.Prelude.Lists.{All, In, here, there}

module _ {ℓ} {A : Type ℓ} where
  -- `slice.get(i)`.
  abbrev pub get_elem? : List A → ℕ → Option A
  get_elem? [] i = none
  get_elem? (x ∷ xs) zero = some x
  get_elem? (x ∷ xs) (suc i) = get_elem? xs i

  -- `partition_point` on a slice that the predicate cuts in two: the length of the first part.
  abbrev pub partition_point : (A → Bool) → List A → ℕ
  partition_point p [] = 0
  partition_point p (x ∷ xs) = let rest = partition_point p xs in if p x then suc rest else 0

  -- A stable sort by a test that says whether one element may stand before another.
  abbrev pub insert_sorted : (A → A → Bool) → A → List A → List A
  insert_sorted before x [] = x ∷ []
  insert_sorted before x (y ∷ ys) =
      let rest = insert_sorted before x ys in if before x y then x ∷ y ∷ ys else y ∷ rest

  abbrev pub sort : (A → A → Bool) → List A → List A
  sort before [] = []
  sort before (x ∷ xs) = insert_sorted before x (sort before xs)

  -- A relation between each element and each later one.
  abbrev pub Pairwise {κ} : (A → A → Type κ) → List A → Type (ℓ ⊔ κ)
  Pairwise R [] = Unit
  Pairwise R (x ∷ xs) = All (R x) xs × Pairwise R xs

-- `lo..lo + n`.
abbrev pub range_from : ℕ → ℕ → List ℕ
range_from lo zero = []
range_from lo (suc n) = lo ∷ range_from (suc lo) n

module _ {ℓ} {A : Type ℓ} (before : A → A → Bool) where
  pub All-insert_sorted {κ} :
      (P : A → Type κ) (x : A) (xs : List A) → P x → All P xs → All P (insert_sorted before x xs)
  All-insert_sorted P x [] h t = (h, tt)
  All-insert_sorted P x (y ∷ ys) h t = elim (Bool-cases (before x y)) [
    | inl e ↦ rw e (h, t)
    | inr e ↦ rw e (t.0, All-insert_sorted P x ys h t.1)
  ]

  pub All-sort {κ} : (P : A → Type κ) (xs : List A) → All P xs → All P (sort before xs)
  All-sort P [] t = tt
  All-sort P (x ∷ xs) t = All-insert_sorted P x (sort before xs) t.0 (All-sort P xs t.1)

  All_of_insert_sorted {κ} :
      (P : A → Type κ) (x : A) (xs : List A) → All P (insert_sorted before x xs) → P x × All P xs
  All_of_insert_sorted P x [] h = h
  All_of_insert_sorted P x (y ∷ ys) h = elim (Bool-cases (before x y)) [
    | inl e ↦ rw e at h
    | inr e ↦
        let k : P y × All P (insert_sorted before x ys) = rw e at h in
        let i = All_of_insert_sorted P x ys k.1 in (i.0, (k.0, i.1))
  ]

  pub All_of_sort {κ} : (P : A → Type κ) (xs : List A) → All P (sort before xs) → All P xs
  All_of_sort P [] h = tt
  All_of_sort P (x ∷ xs) h =
      let i = All_of_insert_sorted P x (sort before xs) h in (i.0, All_of_sort P xs i.1)

  pub In-insert_sorted : (x : A) (xs : List A) → In x (insert_sorted before x xs)
  In-insert_sorted x [] = here refl
  In-insert_sorted x (y ∷ ys) = elim (Bool-cases (before x y)) [
    | inl e ↦ rw e (here refl)
    | inr e ↦ rw e (there (In-insert_sorted x ys))
  ]

  In-tail : {a y : A} {xs ys : List A} → (In a xs → In a ys) → In a (y ∷ xs) → In a (y ∷ ys)
  In-tail f (here e) = here e
  In-tail f (there m) = there (f m)

  pub In-insert_sorted_of_In :
      (x : A) {a : A} (xs : List A) → In a xs → In a (insert_sorted before x xs)
  In-insert_sorted_of_In x [] m = elim m [ ]
  In-insert_sorted_of_In x (y ∷ ys) m = elim (Bool-cases (before x y)) [
    | inl e ↦ rw e (there m)
    | inr e ↦ rw e (In-tail (In-insert_sorted_of_In x ys) m)
  ]

  pub In-sort : {a : A} (xs : List A) → In a xs → In a (sort before xs)
  In-sort [] m = elim m [ ]
  In-sort (x ∷ xs) (here e) = rw e (In-insert_sorted x (sort before xs))
  In-sort (x ∷ xs) (there m) = In-insert_sorted_of_In x (sort before xs) (In-sort xs m)

module _ {ℓ κ} {A : Type ℓ} (before : A → A → Bool) (R : A → A → Type κ)
    (symmetric : (a b : A) → R a b → R b a) where
  Pairwise-insert_sorted :
      (x : A) (xs : List A) → All (R x) xs → Pairwise R xs → Pairwise R (insert_sorted before x xs)
  Pairwise-insert_sorted x [] h k = (tt, tt)
  Pairwise-insert_sorted x (y ∷ ys) h k = elim (Bool-cases (before x y)) [
    | inl e ↦ rw e (h, k)
    | inr e ↦ rw e (
      All-insert_sorted before (R y) x ys (symmetric x y h.0) k.0,
      Pairwise-insert_sorted x ys h.1 k.1,
    )
  ]

  -- A symmetric relation between any two elements does not see their order.
  pub Pairwise-sort : (xs : List A) → Pairwise R xs → Pairwise R (sort before xs)
  Pairwise-sort [] h = tt
  Pairwise-sort (x ∷ xs) h =
      Pairwise-insert_sorted x (sort before xs) (All-sort before (R x) xs h.0)
        (Pairwise-sort xs h.1)
