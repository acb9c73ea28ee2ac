-- ===== src/Shared/Results.antt =====
-- What a method of the source returns, or the error that it throws, for each component's errors.
use mathlib.Core.Path.{◌≡◌, refl}
use mathlib.Core.Bool.{Bool}
use mathlib.Core.Option.{Option, none, some}
use mathlib.Core.Logic.{◌⊎◌, inl, inr}
use junon.Shared.Tests.{if◌then◌else◌}

pub data Fallible {ℓ} (E : Type 0) (A : Type ℓ) : Type ℓ where
  err : E → Fallible E A
  ok : A → Fallible E A

module _ {E : Type 0} where
  infixl 5 ◌>>=◌ ◌>>◌
  abbrev pub ◌>>=◌ {ℓ κ} :
      {A : Type ℓ} {B : Type κ} → Fallible E A → (A → Fallible E B) → Fallible E B
  err e >>= next = err e
  ok a >>= next = next a

  abbrev pub ◌>>◌ {κ} : {B : Type κ} → Fallible E (Unit {0}) → Fallible E B → Fallible E B
  err e >> rest = err e
  ok done >> rest = rest

  -- `if (bad) throw e;`
  abbrev pub refuse_if : Bool → E → Fallible E (Unit {0})
  refuse_if b e = if b then err e else ok tt

  -- `if (value === undefined) throw e;`
  abbrev pub required {ℓ} : {A : Type ℓ} → Option A → E → Fallible E A
  required none e = err e
  required (some a) e = ok a

  pub Result-cases {ℓ} :
      {A : Type ℓ} (r : Fallible E A) → ((e : E) × (r ≡ err e)) ⊎ ((a : A) × (r ≡ ok a))
  Result-cases (err e) = inl (e, refl)
  Result-cases (ok a) = inr (a, refl)
