-- ===== src/Cloudformation/Order.antt =====
-- The calls that a request logs come in one order, each at most once, and each is allowed by the
-- request (rust/src/cloudformation.rs). The rules follow the way an action is built.
use mathlib.Core.List.{append_assoc, append-nil}
use shin_bucket_deployment.Prelude.{
  ℕ, ◌+◌, ◌≤◌, List, [], ◌∷◌, ◌++◌, Bool, true, false, ◌≡◌, refl, sym, ap, ◌∙◌, arith,
  if◌then◌else◌, Result, ok, err,
}
use shin_bucket_deployment.Cloudformation.{
  Action, clean_current, run_deploy, clean_previous, invalidate_previous, invalidate_current,
  await_both, Run, Exec, continue, ◌>>=◌, pure, perform,
}

abbrev pub phase : Action → ℕ
phase (clean_current c) = 0
phase (run_deploy o) = 1
phase (clean_previous c) = 2
phase (invalidate_previous i ps) = 3
phase (invalidate_current i ps b) = 4
phase (await_both p c) = 5

-- Actions that all satisfy `P`, their phases strictly rising from `lo` and below `hi`.
abbrev pub Steps : (Action → Type 0) → ℕ → ℕ → List Action → Type 0
Steps P lo hi [] = lo ≤ hi
Steps P lo hi (a ∷ xs) = (lo ≤ phase a) × P a × Steps P (phase a + 1) hi xs

pub Steps-weaken :
    (P : Action → Type 0) (lo mid hi : ℕ) (xs : List Action)
    → lo ≤ mid
    → Steps P mid hi xs
    → Steps P lo hi xs
Steps-weaken P lo mid hi [] h s = omega arith
Steps-weaken P lo mid hi (a ∷ xs) h s = (omega arith, s.1, s.2)

Steps-raise :
    (P : Action → Type 0) (lo mid hi : ℕ) (xs : List Action)
    → mid ≤ hi
    → Steps P lo mid xs
    → Steps P lo hi xs
Steps-raise P lo mid hi [] h s = omega arith
Steps-raise P lo mid hi (a ∷ xs) h s = (s.0, s.1, Steps-raise P (phase a + 1) mid hi xs h s.2)

Steps-append :
    (P : Action → Type 0) (lo mid hi : ℕ) (xs ys : List Action)
    → Steps P lo mid xs
    → Steps P mid hi ys
    → Steps P lo hi (xs ++ ys)
Steps-append P lo mid hi [] ys s t = Steps-weaken P lo mid hi ys s t
Steps-append P lo mid hi (a ∷ xs) ys s t =
    (s.0, s.1, Steps-append P (phase a + 1) mid hi xs ys s.2 t)

module _ {W E A : Type 0} (P : Action → Type 0) where
  -- What the action adds to the log, whether it fails or not.
  pub record Emits (lo hi : ℕ) (m : Exec W E A) : Type 0 where
    pub at : (s : Run W) → (xs : List Action) × ((m s).1.log ≡ s.log ++ xs) × Steps P lo hi xs

  pub Emits-pure : (a : A) (lo hi : ℕ) → lo ≤ hi → Emits lo hi (pure a)
  Emits-pure a lo hi h = record { at = λ s. ([], sym (append-nil s.log), h) }

  pub Emits-perform :
      (action : Action) (call : W → Result E A × W) (lo hi : ℕ)
      → lo ≤ phase action
      → phase action + 1 ≤ hi
      → P action
      → Emits lo hi (perform action call)
  Emits-perform action call lo hi h k p = record { at = λ s. (action ∷ [], refl, (h, p, k)) }

  pub Emits-if :
      (b : Bool) (m n : Exec W E A) (lo hi : ℕ)
      → (b ≡ true → Emits lo hi m)
      → (b ≡ false → Emits lo hi n)
      → Emits lo hi (if b then m else n)
  Emits-if true m n lo hi f g = f refl
  Emits-if false m n lo hi f g = g refl

module _ {W E A : Type 0} where
  -- What a successful run of the action returns.
  pub record Yields (Q : A → Type 0) (m : Exec W E A) : Type 0 where
    pub at : (s : Run W) (a : A) → (m s).0 ≡ ok a → Q a

  pub Yields-if :
      (Q : A → Type 0) (b : Bool) (m n : Exec W E A)
      → (b ≡ true → Yields Q m)
      → (b ≡ false → Yields Q n)
      → Yields Q (if b then m else n)
  Yields-if Q true m n f g = f refl
  Yields-if Q false m n f g = g refl

module _ {W E A B : Type 0} (P : Action → Type 0) where
  Emits-continue :
      (r : Result E A) (f : A → Exec W E B) (lo mid hi : ℕ) (s s' : Run W) (xs : List Action)
      → s'.log ≡ s.log ++ xs
      → Steps P lo mid xs
      → mid ≤ hi
      → ((a : A) → r ≡ ok a → Emits P mid hi (f a))
      → (ys : List Action) × ((continue r f s').1.log ≡ s.log ++ ys) × Steps P lo hi ys
  Emits-continue (ok a) f lo mid hi s s' xs e st h k =
      let (ys, e2, st2) = (k a refl).at s' in
      (
        xs ++ ys,
        e2 ∙ (ap (λ l. l ++ ys) e ∙ append_assoc s.log xs ys),
        Steps-append P lo mid hi xs ys st st2,
      )
  Emits-continue (err x) f lo mid hi s s' xs e st h k = (xs, e, Steps-raise P lo mid hi xs h st)

  pub Emits-bind :
      (m : Exec W E A) (f : A → Exec W E B) (lo mid hi : ℕ)
      → mid ≤ hi
      → Emits P lo mid m
      → ((a : A) → Emits P mid hi (f a))
      → Emits P lo hi (m >>= f)
  Emits-bind m f lo mid hi h em ef = record {
    at = λ s.
        let (xs, e, st) = em.at s in
        Emits-continue (m s).0 f lo mid hi s (m s).1 xs e st h (λ a _. ef a);
  }

  pub Emits-bind-Yields :
      (Q : A → Type 0) (m : Exec W E A) (f : A → Exec W E B) (lo mid hi : ℕ)
      → mid ≤ hi
      → Emits P lo mid m
      → Yields Q m
      → ((a : A) → Q a → Emits P mid hi (f a))
      → Emits P lo hi (m >>= f)
  Emits-bind-Yields Q m f lo mid hi h em y ef = record {
    at = λ s.
        let (xs, e, st) = em.at s in
        Emits-continue (m s).0 f lo mid hi s (m s).1 xs e st h (λ a r. ef a (y.at s a r));
  }
