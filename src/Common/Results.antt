-- ===== src/Common/Results.antt =====
-- `Result<A, E>` and its combinators.
use mathlib.Core.Path.{◌≡◌, refl}
use mathlib.Core.Logic.{◌⊎◌, inl, inr}
use mathlib.Core.Option.{Option, none, some}

pub data Result {ℓ κ} (E : Type κ) (A : Type ℓ) : Type (ℓ ⊔ κ) where
  ok : A → Result E A
  err : E → Result E A

module _ {ℓ κ} {E : Type κ} {A : Type ℓ} where
  abbrev pub map_err {μ} : {F : Type μ} → (E → F) → Result E A → Result F A
  map_err f (ok a) = ok a
  map_err f (err e) = err (f e)

  abbrev pub ok_or : Option A → E → Result E A
  ok_or none e = err e
  ok_or (some a) e = ok a

  -- `.ok()`
  abbrev pub ok? : Result E A → Option A
  ok? (ok a) = some a
  ok? (err e) = none

  abbrev pub unwrap_or : Result E A → A → A
  unwrap_or (ok a) d = a
  unwrap_or (err e) d = d

infixl 5 ◌>>=◌ ◌>>◌
-- `?` on the result of an earlier step.
abbrev pub ◌>>=◌ : {E A B : Type 0} → Result E A → (A → Result E B) → Result E B
ok a >>= f = f a
err e >>= f = err e

abbrev pub ◌>>◌ : {E B : Type 0} → Result E (Unit {0}) → Result E B → Result E B
r >> k = r >>= λ u. k

pub Result-cases {κ} :
    {E : Type κ} (r : Result E (Unit {0})) → ((e : E) × (r ≡ err e)) ⊎ (r ≡ ok tt)
Result-cases (ok a) = inr refl
Result-cases (err e) = inl (e, refl)

pub Result-split {κ μ} :
    {E : Type κ} {A : Type μ} (r : Result E A) → ((e : E) × (r ≡ err e)) ⊎ ((a : A) × (r ≡ ok a))
Result-split (ok a) = inr (a, refl)
Result-split (err e) = inl (e, refl)

abbrev pub and_then {ℓ κ} : {A : Type ℓ} {B : Type κ} → Option A → (A → Option B) → Option B
and_then none f = none
and_then (some a) f = f a

abbrev pub or_else {ℓ} : {A : Type ℓ} → Option A → A → A
or_else none d = d
or_else (some a) d = a
