-- ===== src/Namespace/Relation.antt =====
-- What the relation of two namespaces says of the keys in them (rust/src/namespace.rs).
use shin_bucket_deployment.Prelude.{
  [], ◌∷◌, some, true, false, ◌≡◌, ◌≢◌, ◌↔◌, refl, inl, inr, arith, Bytes, bytes_eq, bytes_eq→eq,
  bytes_eq_iff, starts_with, starts_with_refl, starts_with_trans, starts_with_total,
  starts_with_antisymm, is_empty, Bool-cases, ◌||◌,
}
use shin_bucket_deployment.Namespace.{
  NamespaceRelation, same, previous_contains_current, current_contains_previous, disjoint,
  canonical_namespace, namespace_list_prefix, canonical_relation, namespace_relation,
}

-- Every key of the second namespace is a key of the first.
abbrev pub Covers : Bytes → Bytes → Type 0
Covers a b = (k : Bytes) → starts_with k b ≡ true → starts_with k a ≡ true

-- No key lies in both namespaces.
abbrev pub Apart : Bytes → Bytes → Type 0
Apart a b = (k : Bytes) → starts_with k a ≡ true → starts_with k b ≡ true → ⊥

-- What a relation promises of the keys of the previous and the current namespace.
abbrev pub Classifies : NamespaceRelation → Bytes → Bytes → Type 0
Classifies same p c = p ≡ c
Classifies previous_contains_current p c = (p ≢ c) × Covers p c
Classifies current_contains_previous p c = (p ≢ c) × Covers c p
Classifies disjoint p c = Apart p c

Covers→starts_with : (a b : Bytes) → Covers a b → starts_with b a ≡ true
Covers→starts_with a b h = h b (starts_with_refl b)

starts_with→Covers : (a b : Bytes) → starts_with b a ≡ true → Covers a b
starts_with→Covers a b h k g = starts_with_trans k b a g h

starts_with→Covers_or_empty : (a b : Bytes) → (is_empty a || starts_with b a) ≡ true → Covers a b
starts_with→Covers_or_empty [] b h k g = refl
starts_with→Covers_or_empty (x ∷ a) b h k g = starts_with→Covers (x ∷ a) b h k g

starts_with→Covers_false :
    (a b : Bytes) → (is_empty a || starts_with b a) ≡ false → starts_with b a ≡ false
starts_with→Covers_false [] b h = absurd (ground arith)
starts_with→Covers_false (x ∷ a) b h = h

ne_of_bytes_eq : (a b : Bytes) → bytes_eq a b ≡ false → a ≢ b
ne_of_bytes_eq a b h e = cc ((bytes_eq_iff a b).1 e)

Apart-of_false : (a b : Bytes) → starts_with a b ≡ false → starts_with b a ≡ false → Apart a b
Apart-of_false a b h g k ka kb = elim (starts_with_total k a b ka kb) [ inl e ↦ cc | inr e ↦ cc ]

pub canonical_relation-Classifies : (p c : Bytes) → Classifies (canonical_relation p c) p c
unfolding canonical_relation
canonical_relation-Classifies p c = elim (Bool-cases (bytes_eq p c)) [
  | inl e ↦ rw e (bytes_eq→eq p c e)
  | inr e ↦ rw e (elim (Bool-cases (is_empty p || starts_with c p)) [
    | inl f ↦ rw f (ne_of_bytes_eq p c e, starts_with→Covers_or_empty p c f)
    | inr f ↦ rw f (elim (Bool-cases (is_empty c || starts_with p c)) [
      | inl g ↦ rw g (ne_of_bytes_eq p c e, starts_with→Covers_or_empty c p g)
      | inr g ↦
          rw g
            (Apart-of_false p c (starts_with→Covers_false c p g) (starts_with→Covers_false p c f))
    ])
  ])
]

-- The four promises exclude one another.
pub Classifies-unique :
    (r s : NamespaceRelation) (p c : Bytes) → Classifies r p c → Classifies s p c → r ≡ s
Classifies-unique same same p c h g = refl
Classifies-unique same previous_contains_current p c h g = absurd (g.0 h)
Classifies-unique same current_contains_previous p c h g = absurd (g.0 h)
Classifies-unique same disjoint p c h g =
    absurd (g p (starts_with_refl p) (rw h (starts_with_refl c)))
Classifies-unique previous_contains_current same p c h g = absurd (h.0 g)
Classifies-unique previous_contains_current previous_contains_current p c h g = refl
Classifies-unique previous_contains_current current_contains_previous p c h g =
    absurd
      (h.0 (starts_with_antisymm p c (Covers→starts_with c p g.1) (Covers→starts_with p c h.1)))
Classifies-unique previous_contains_current disjoint p c h g =
    absurd (g c (Covers→starts_with p c h.1) (starts_with_refl c))
Classifies-unique current_contains_previous same p c h g = absurd (h.0 g)
Classifies-unique current_contains_previous previous_contains_current p c h g =
    absurd
      (h.0 (starts_with_antisymm p c (Covers→starts_with c p h.1) (Covers→starts_with p c g.1)))
Classifies-unique current_contains_previous current_contains_previous p c h g = refl
Classifies-unique current_contains_previous disjoint p c h g =
    absurd (g p (starts_with_refl p) (Covers→starts_with c p h.1))
Classifies-unique disjoint same p c h g =
    absurd (h p (starts_with_refl p) (rw g (starts_with_refl c)))
Classifies-unique disjoint previous_contains_current p c h g =
    absurd (h c (Covers→starts_with p c g.1) (starts_with_refl c))
Classifies-unique disjoint current_contains_previous p c h g =
    absurd (h p (starts_with_refl p) (Covers→starts_with c p g.1))
Classifies-unique disjoint disjoint p c h g = refl

-- The relation of two prefixes is r exactly when r's promise holds of the keys of their two
-- canonical namespaces: the same namespace, one strictly covering the other, or no key in common.
pub namespace_relation_iff :
    (r : NamespaceRelation) (previous current : Bytes)
    → (namespace_relation previous current ≡ r)
      ↔ Classifies r (canonical_namespace previous) (canonical_namespace current)
unfolding namespace_relation
namespace_relation_iff r previous current = (
  (λ e.
      rw e at (
        canonical_relation-Classifies (canonical_namespace previous)
          (canonical_namespace current))),
  (λ h.
      Classifies-unique
        (canonical_relation (canonical_namespace previous) (canonical_namespace current)) r
        (canonical_namespace previous) (canonical_namespace current)
        (canonical_relation-Classifies (canonical_namespace previous) (canonical_namespace current))
        h),
)

-- A prefix that is neither the root nor a bare slash is listed by its canonical namespace.
pub list_prefix-eq-canonical :
    (p : Bytes)
    → canonical_namespace p ≢ []
    → namespace_list_prefix p ≡ some (canonical_namespace p)
unfolding canonical_namespace namespace_list_prefix
list_prefix-eq-canonical p h = grind arith
