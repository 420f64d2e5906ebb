-- ===== src/Proxy/Effects.antt =====
-- Handlers as functions on a state: an error keeps the state that it was raised in.
pub mod Timed
use torpc.Common.{ok, err, ◌≡◌, refl, ◌⊎◌, inl, inr}
use torpc.Errors.{ProxyError, ProxyResult}

abbrev pub M : Type 0 → Type 0 → Type 0
M S A = S → ProxyResult A × S

module _ {S : Type 0} where
  abbrev pub resume : {A B : Type 0} → ProxyResult A × S → (A → M S B) → ProxyResult B × S
  resume (ok a, s) f = f a s
  resume (err e, s) f = (err e, s)

  infixl 5 ◌>>=◌ ◌>>◌
  -- `?` on the result of an earlier step.
  abbrev pub ◌>>=◌ : {A B : Type 0} → M S A → (A → M S B) → M S B
  ◌>>=◌ m f s = resume (m s) f

  abbrev pub ◌>>◌ : {B : Type 0} → M S (Unit {0}) → M S B → M S B
  m >> k = m >>= λ _. k

  abbrev pub lift : {A : Type 0} → ProxyResult A → M S A
  lift r s = (r, s)

  -- A step on a part of the state.
  abbrev pub change : {A P : Type 0} → (S → P) → (S → P → S) → (P → ProxyResult A × P) → M S A
  change part put f s = let r = f (part s) in (r.0, put s r.1)

  -- A step that answers nothing either raises its error, or is followed by the rest.
  pub resume-cases :
      {B : Type 0} (r : ProxyResult (Unit {0}) × S) (f : Unit {0} → M S B)
      → ((e : ProxyError) × (r.0 ≡ err e) × (resume r f ≡ (err e, r.1)))
        ⊎ ((r.0 ≡ ok tt) × (resume r f ≡ f tt r.1))
  resume-cases (ok a, s) f = inr (refl, refl)
  resume-cases (err e, s) f = inl (e, refl, refl)

  pub resume-err :
      {B : Type 0} (r : ProxyResult (Unit {0}) × S) (f : Unit {0} → M S B) {e : ProxyError}
      → r.0 ≡ err e
      → resume r f ≡ (err e, r.1)
  resume-err (ok a, s) f h = cc
  resume-err (err x, s) f {e} h = cc
