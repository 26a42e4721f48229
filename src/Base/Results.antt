-- ===== src/Base/Results.antt =====
-- A result that is a value or an error: what the source returns or throws.
use mathlib.Core.Path.{◌≡◌, refl}
use mathlib.Core.Logic.{◌⊎◌, inl, inr}
use mathlib.Core.Bool.{Bool, true, false}
use mathlib.Core.Option.{Option, none, some}

pub data Result {ℓ κ} (E : Type ℓ) (A : Type κ) : Type (ℓ ⊔ κ) where
  err : E → Result E A
  ok : A → Result E A

-- A value that is missing is a throw.
abbrev pub of_option {ℓ κ} : {E : Type ℓ} {A : Type κ} → Option A → E → Result E A
of_option (some a) thrown = ok a
of_option none thrown = err thrown

-- `if (!passed) throw thrown`
abbrev pub guard {ℓ} : {E : Type ℓ} → Bool → E → Result E (Unit {0})
guard false thrown = err thrown
guard true thrown = ok tt

infixl 5 ◌>>=◌ ◌>>◌
abbrev pub ◌>>=◌ {ℓ κ μ} :
    {E : Type ℓ} {A : Type κ} {B : Type μ} → Result E A → (A → Result E B) → Result E B
err thrown >>= next = err thrown
ok a >>= next = next a

abbrev pub ◌>>◌ {ℓ κ} : {E : Type ℓ} {B : Type κ} → Result E (Unit {0}) → Result E B → Result E B
check >> rest = check >>= λ passed. rest

pub ok-injective {ℓ κ} :
    {E : Type ℓ} {A : Type κ} {a b : A} → ◌≡◌ {A = Result E A} (ok a) (ok b) → a ≡ b
ok-injective same = cc

pub guard_passed {ℓ} :
    {E : Type ℓ} (b : Bool) (thrown : E) {u : Unit {0}} → guard b thrown ≡ ok u → b ≡ true
guard_passed false thrown done = cc
guard_passed true thrown done = refl

module _ {ℓ κ μ} {E : Type ℓ} {A : Type κ} {B : Type μ} where
  -- Where a chain returned, so did its first step.
  pub chain_returned :
      (r : Result E A) (next : A → Result E B) {b : B}
      → (r >>= next) ≡ ok b
      → (a : A) × (r ≡ ok a) × (next a ≡ ok b)
  chain_returned (err thrown) next done = cc
  chain_returned (ok a) next done = (a, refl, done)

  -- Where a chain threw, its first step did, or what follows it.
  pub chain_threw :
      (r : Result E A) (next : A → Result E B) {thrown : E}
      → (r >>= next) ≡ err thrown
      → (r ≡ err thrown) ⊎ ((a : A) × (r ≡ ok a) × (next a ≡ err thrown))
  chain_threw (err thrown) next failed = inl (cc)
  chain_threw (ok a) next failed = inr (a, refl, failed)

pub Result-cases {ℓ κ} :
    {E : Type ℓ} {A : Type κ} (r : Result E A) → ((e : E) × (r ≡ err e)) ⊎ ((a : A) × (r ≡ ok a))
Result-cases (err e) = inl (e, refl)
Result-cases (ok a) = inr (a, refl)
