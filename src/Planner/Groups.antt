-- ===== src/Planner/Groups.antt =====
-- The plans of one archive in the manifest, and in the groups of `collect_zip_entry_plans`
-- (rust/src/s3/planner.rs).
use mathlib.Core.List.{append_assoc, append-nil}
use shin_bucket_deployment.Prelude.{
  ℕ, suc, ◌≤◌, ◌<◌, List, [], ◌∷◌, ◌++◌, map, Bool, true, false, Bytes, bytes_eq, Option, none,
  some, ◌≡◌, refl, sym, ◌∙◌, ap, inl, inr, Bool-cases, arith, leb, ltb, ◌==◌, if◌then◌else◌, sort,
  All,
}
use shin_bucket_deployment.Deployment.{DeploymentManifest, PlannedObject}
use shin_bucket_deployment.Planner.{ZipEntryPlan}
use shin_bucket_deployment.Planner.Manifest.{
  bytes_ltb, insert_manifest_object, plan_of_object, Grouped, push_grouped, push_object, group_loop,
  collect_zip_entry_plans, group_of,
}

-- The plan, if it is of the archive, before the rest.
abbrev pub select : ℕ → Option (ℕ × ZipEntryPlan) → List ZipEntryPlan → List ZipEntryPlan
select archive none rest = rest
select archive (some plan) rest = if plan.0 == archive then plan.1 ∷ rest else rest

abbrev pub plans_of : ℕ → Bytes → DeploymentManifest → List ZipEntryPlan
plans_of archive prefix [] = []
plans_of archive prefix (entry ∷ manifest) =
    select archive (plan_of_object prefix entry.1) (plans_of archive prefix manifest)

-- The archives of the groups ascend.
abbrev Ordered : ℕ → Grouped → Type 0
Ordered lo [] = Unit
Ordered lo (group ∷ grouped) = (lo ≤ group.0) × Ordered (suc group.0) grouped

group_of_below :
    (lo archive : ℕ) (g : Grouped) → Ordered lo g → archive < lo → group_of archive g ≡ []
unfolding group_of
group_of_below lo a [] h k = refl
group_of_below lo a (x ∷ g) h k =
    let e : (x.0 == a) ≡ false = ground (arith, h.0) in
    rw e (group_of_below (suc x.0) a g h.1 (omega (arith, h.0)))

push-Ordered :
    (lo archive : ℕ) (plan : ZipEntryPlan) (g : Grouped)
    → Ordered lo g
    → lo ≤ archive
    → Ordered lo (push_grouped archive plan g)
unfolding push_grouped
push-Ordered lo a p [] h k = (k, tt)
push-Ordered lo a p (x ∷ g) h k = elim (Bool-cases (a == x.0)) [
  | inl e ↦ rw e h
  | inr e ↦ elim (Bool-cases (ltb a x.0)) [
    | inl f ↦ rw (e, f) (k, (ground arith, h.1))
    | inr f ↦ rw (e, f) (h.0, push-Ordered (suc x.0) a p g h.1 (ground arith))
  ]
]

group_of-push :
    (lo archive other : ℕ) (plan : ZipEntryPlan) (g : Grouped)
    → Ordered lo g
    → group_of archive (push_grouped other plan g)
      ≡ group_of archive g ++ select archive (some (other, plan)) []
unfolding group_of push_grouped
group_of-push lo a o p [] h = refl
group_of-push lo a o p (x ∷ g) h = elim (Bool-cases (o == x.0)) [
  | inl e ↦ elim (Bool-cases (x.0 == a)) [
    | inl m ↦ let n : (o == a) ≡ true = ground arith in rw (e, m, n) refl
    | inr m ↦
        let n : (o == a) ≡ false = ground arith in rw (e, m, n) (sym (append-nil (group_of a g)))
  ]
  | inr e ↦ elim (Bool-cases (ltb o x.0)) [
    | inl f ↦ elim (Bool-cases (o == a)) [
      | inl n ↦
          let m : (x.0 == a) ≡ false = ground arith in
          rw (e, f, m, n, group_of_below (suc x.0) a g h.1 (ground arith)) refl
      | inr n ↦ rw (e, f, n) (sym (append-nil (group_of a (x ∷ g))))
    ]
    | inr f ↦ elim (Bool-cases (x.0 == a)) [
      | inl m ↦ let n : (o == a) ≡ false = ground arith in rw (e, f, m, n) (sym (append-nil x.1))
      | inr m ↦ rw (e, f, m) (group_of-push (suc x.0) a o p g h.1)
    ]
  ]
]

append-select :
    (archive : ℕ) (xs rest : List ZipEntryPlan) (o : Option (ℕ × ZipEntryPlan))
    → (xs ++ select archive o []) ++ rest ≡ xs ++ select archive o rest
append-select a xs rest none = rw (append-nil xs) refl
append-select a xs rest (some p) = elim (Bool-cases (p.0 == a)) [
  | inl e ↦ rw e (append_assoc xs (p.1 ∷ []) rest)
  | inr e ↦ rw (e, append-nil xs) refl
]

push_object-Ordered :
    (o : Option (ℕ × ZipEntryPlan)) (g : Grouped) → Ordered 0 g → Ordered 0 (push_object o g)
unfolding push_object
push_object-Ordered none g h = h
push_object-Ordered (some p) g h = push-Ordered 0 p.0 p.1 g h (omega arith)

group_of-push_object :
    (archive : ℕ) (o : Option (ℕ × ZipEntryPlan)) (g : Grouped)
    → Ordered 0 g
    → group_of archive (push_object o g) ≡ group_of archive g ++ select archive o []
unfolding push_object
group_of-push_object a none g h = sym (append-nil (group_of a g))
group_of-push_object a (some p) g h = group_of-push 0 a p.0 p.1 g h

group_loop-plans_of :
    (archive : ℕ) (prefix : Bytes) (manifest : DeploymentManifest) (g : Grouped)
    → Ordered 0 g
    → group_of archive (group_loop prefix manifest g)
      ≡ group_of archive g ++ plans_of archive prefix manifest
unfolding group_loop
group_loop-plans_of a prefix [] g h = sym (append-nil (group_of a g))
group_loop-plans_of a prefix (x ∷ m) g h =
    let o = plan_of_object prefix x.1 in
    group_loop-plans_of a prefix m (push_object o g) (push_object-Ordered o g h)
    ∙ ap (λ y. y ++ plans_of a prefix m) (group_of-push_object a o g h)
    ∙ append-select a (group_of a g) (plans_of a prefix m) o

abbrev by_offset : ZipEntryPlan → ZipEntryPlan → Bool
by_offset a b = leb a.source_offset b.source_offset

group_of-sorted :
    (archive : ℕ) (g : Grouped)
    → group_of archive (map (λ x. (x.0, sort by_offset x.1)) g)
      ≡ sort by_offset (group_of archive g)
unfolding group_of
group_of-sorted a [] = refl
group_of-sorted a (x ∷ g) = elim (Bool-cases (x.0 == a)) [
  | inl e ↦ rw e refl
  | inr e ↦ rw e (group_of-sorted a g)
]

-- The group of an archive holds the archive's plans in the manifest, sorted by their offsets.
pub collect_zip_entry_plans-plans_of :
    (archive : ℕ) (prefix : Bytes) (manifest : DeploymentManifest)
    → group_of archive (collect_zip_entry_plans manifest prefix)
      ≡ sort (λ a b. leb a.source_offset b.source_offset) (plans_of archive prefix manifest)
unfolding collect_zip_entry_plans group_of
collect_zip_entry_plans-plans_of a prefix m =
    group_of-sorted a (group_loop prefix m [])
    ∙ ap (sort by_offset) (group_loop-plans_of a prefix m [] tt)

-- What an insertion into the manifest keeps of the archive's plans.
module _ {κ} (P : ZipEntryPlan → Type κ) (archive : ℕ) (prefix : Bytes) where
  All-select :
      (o : Option (ℕ × ZipEntryPlan)) (rest : List ZipEntryPlan)
      → All P (select archive o [])
      → All P rest
      → All P (select archive o rest)
  All-select none rest h k = k
  All-select (some p) rest h k = elim (Bool-cases (p.0 == archive)) [
    | inl e ↦ let z : All P (p.1 ∷ []) = rw e at h in rw e (z.0, k)
    | inr e ↦ rw e k
  ]

  All_of_select :
      (o : Option (ℕ × ZipEntryPlan)) (rest : List ZipEntryPlan)
      → All P (select archive o rest)
      → All P (select archive o []) × All P rest
  All_of_select none rest h = (tt, h)
  All_of_select (some p) rest h = elim (Bool-cases (p.0 == archive)) [
    | inl e ↦ let z : All P (p.1 ∷ rest) = rw e at h in rw e ((z.0, tt), z.1)
    | inr e ↦ let z : All P rest = rw e at h in rw e (tt, z)
  ]

  pub All-insert_manifest_object :
      (manifest : DeploymentManifest) (planned : PlannedObject)
      → All P (select archive (plan_of_object prefix planned) [])
      → All P (plans_of archive prefix manifest)
      → All P (plans_of archive prefix (insert_manifest_object manifest planned))
  unfolding insert_manifest_object
  All-insert_manifest_object [] p h k = h
  All-insert_manifest_object (x ∷ m) p h k =
      let (k0, k1) = All_of_select (plan_of_object prefix x.1) (plans_of archive prefix m) k in
      elim (Bool-cases (bytes_eq p.relative_key x.0)) [
        | inl e ↦ rw e (All-select (plan_of_object prefix p) _ h k1)
        | inr e ↦ elim (Bool-cases (bytes_ltb p.relative_key x.0)) [
          | inl f ↦ rw (e, f) (All-select (plan_of_object prefix p) _ h k)
          | inr f ↦
              rw (e, f)
                (All-select (plan_of_object prefix x.1) _ k0 (All-insert_manifest_object m p h k1))
        ]
      ]
