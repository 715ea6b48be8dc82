-- ===== src/Prelude/Results.antt =====
-- Results of fallible code. `?` is the bind of a do block, and an `ensure!` its statement.
use mathlib.Core.Bool.{Bool, true, false}
use mathlib.Core.Option.{Option, none, some}
use mathlib.Core.Path.{◌≡◌, refl}

pub data Result {ℓ κ} (E : Type ℓ) (A : Type κ) : Type (ℓ ⊔ κ) where
  ok : A → Result E A
  err : E → Result E A

-- `option.ok_or(error)`.
abbrev pub ok_or {ℓ κ} : {E : Type ℓ} {A : Type κ} → Option A → E → Result E A
ok_or (some value) error = ok value
ok_or none error = err error

-- `ensure!(test, error)`.
abbrev pub ensure {ℓ} : {E : Type ℓ} → Bool → E → Result E (Unit {0})
ensure false error = err error
ensure true error = ok tt

module _ {ℓ κ} {E : Type ℓ} {B : Type κ} where
  infixl 5 ◌>>=◌ ◌>>◌
  abbrev pub ◌>>=◌ {μ} : {A : Type μ} → Result E A → (A → Result E B) → Result E B
  ◌>>=◌ (err error) next = err error
  ◌>>=◌ (ok value) next = next value

  abbrev pub ◌>>◌ : Result E (Unit {0}) → Result E B → Result E B
  ◌>>◌ guard next = guard >>= λ _. next

  -- A successful bind had a successful first part.
  pub >>=-eq-ok {μ} :
      {A : Type μ} (first : Result E A) (next : A → Result E B) {b : B}
      → (first >>= next) ≡ ok b
      → (value : A) × (first ≡ ok value) × (next value ≡ ok b)
  >>=-eq-ok (err error) next h = cc
  >>=-eq-ok (ok value) next h = (value, refl, h)

-- A successful guard held.
pub ensure-eq-ok {ℓ} :
    {E : Type ℓ} (test : Bool) (error : E) {u : Unit {0}} → ensure test error ≡ ok u → test ≡ true
ensure-eq-ok false error h = cc
ensure-eq-ok true error h = refl
