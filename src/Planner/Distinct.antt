-- ===== src/Planner/Distinct.antt =====
-- Association lists with one entry for each key, and what equal numbers of keys say of them
-- (rust/src/s3/planner.rs).
use shin_bucket_deployment.Prelude.{
  suc, ◌≤◌, List, [], ◌∷◌, map, true, false, none, some, Bytes, bytes_eq, bytes_eq_iff, length, ◌≡◌,
  refl, sym, ◌⊎◌, inl, inr, Bool-cases, arith, In, here, there,
}
use shin_bucket_deployment.Planner.Catalog.{lookup}

abbrev pub Distinct : {V : Type 0} → List (Bytes × V) → Type 0
Distinct [] = Unit
Distinct (entry ∷ entries) = (lookup entries entry.0 ≡ none) × Distinct entries

abbrev pub keys : {V : Type 0} → List (Bytes × V) → List Bytes
keys entries = map (λ entry. entry.0) entries

module _ {V : Type 0} where
  pub In_of_lookup :
      (m : List (Bytes × V)) (key : Bytes) {v : V} → lookup m key ≡ some v → In (key, v) m
  unfolding lookup
  In_of_lookup [] key h = cc
  In_of_lookup (x ∷ m) key {v = v} h = elim (Bool-cases (bytes_eq x.0 key)) [
    | inl e ↦ let z : some x.1 ≡ some v = rw e at h in let k = (bytes_eq_iff x.0 key).0 e in here cc
    | inr e ↦ there (In_of_lookup m key (rw (e, lookup) at h))
  ]

  pub In-keys : (m : List (Bytes × V)) {key : Bytes} {v : V} → In (key, v) m → In key (keys m)
  In-keys [] i = elim i [ ]
  In-keys (x ∷ m) (here e) = here cc
  In-keys (x ∷ m) (there i) = there (In-keys m i)

  pub lookup_of_keys :
      (m : List (Bytes × V)) (key : Bytes) → In key (keys m) → (v : V) × (lookup m key ≡ some v)
  unfolding lookup
  lookup_of_keys [] key i = elim i [ ]
  lookup_of_keys (x ∷ m) key i = elim (Bool-cases (bytes_eq x.0 key)) [
    | inl e ↦ (x.1, rw e refl)
    | inr e ↦ rw e (lookup_of_keys m key (later x.0 e i))
  ]
    where
      later : (y : Bytes) → bytes_eq y key ≡ false → In key (y ∷ keys m) → In key (keys m)
      later y e (here f) = let t = (bytes_eq_iff y key).1 (sym f) in let z : true ≡ false = cc in cc
      later y e (there j) = j

  pub lookup_of_In :
      (m : List (Bytes × V)) (key : Bytes) {v : V}
      → Distinct m
      → In (key, v) m
      → lookup m key ≡ some v
  unfolding lookup
  lookup_of_In [] key d i = elim i [ ]
  lookup_of_In (x ∷ m) key {v = v} d (here e) =
      let t = (bytes_eq_iff x.0 key).1 cc in let f : v ≡ x.1 = cc in rw t cc
  lookup_of_In (x ∷ m) key {v = v} d (there i) = elim (Bool-cases (bytes_eq x.0 key)) [
    | inl e ↦
        let k = (bytes_eq_iff x.0 key).0 e in
        let l = lookup_of_In m key {v = v} d.1 i in let n : lookup m key ≡ none = rw k at d.0 in cc
    | inr e ↦ rw e (lookup_of_In m key d.1 i)
  ]

-- A list without the place of one element.
abbrev without : {A : Type 0} {a : A} (xs : List A) → In a xs → List A
without [] i = []
without (x ∷ xs) (here e) = xs
without (x ∷ xs) (there i) = x ∷ without xs i

length-without :
    {A : Type 0} {a : A} (xs : List A) (i : In a xs) → suc (length (without xs i)) ≡ length xs
length-without [] i = elim i [ ]
length-without (x ∷ xs) (here e) = refl
length-without (x ∷ xs) (there i) = omega (arith, length-without xs i)

In-without :
    {A : Type 0} {a b : A} (xs : List A) (i : In a xs) → In b xs → (b ≡ a) ⊎ In b (without xs i)
In-without [] i j = elim i [ ]
In-without (x ∷ xs) (here e) (here f) = inl cc
In-without (x ∷ xs) (here e) (there j) = inr j
In-without (x ∷ xs) (there i) (here f) = inr (here f)
In-without (x ∷ xs) (there i) (there j) = elim (In-without xs i j) [
  | inl e ↦ inl e
  | inr k ↦ inr (there k)
]

-- Distinct keys that are all among others, and no fewer than they, are all of them.
pub pigeonhole :
    {V : Type 0} (m : List (Bytes × V)) (ys : List Bytes)
    → Distinct m
    → ((x : Bytes) → In x (keys m) → In x ys)
    → length ys ≤ length m
    → (y : Bytes) → In y ys
    → In y (keys m)
pigeonhole [] [] d s l y i = elim i [ ]
pigeonhole [] (z ∷ ys) d s l y i = absurd (omega arith)
pigeonhole (x ∷ m) ys d s l y i =
    let j = s x.0 (here refl) in
    elim (In-without ys j i) [
      | inl e ↦ here e
      | inr k ↦ there (
          pigeonhole m (without ys j) d.1 (still j) (let n = length-without ys j in omega arith) y
            k)
    ]
  where
    still : (j : In x.0 ys) (z : Bytes) → In z (keys m) → In z (without ys j)
    still j z k = elim (In-without ys j (s z (there k))) [
      | inr o ↦ o
      | inl e ↦
          let (v, f) = lookup_of_keys m z k in let n : lookup m z ≡ none = rw (sym e) at d.0 in cc
    ]
