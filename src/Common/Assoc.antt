-- ===== src/Common/Assoc.antt =====
-- Association lists with text keys: the model of `HashMap<String, V>` and of header maps.
use Prim.Native.String.{String}
use mathlib.Core.Path.{◌≡◌, refl}
use mathlib.Core.List.{List, [], ◌∷◌}
use mathlib.Core.Option.{Option, none, some}
use native.Mathlib.Omega.{arith}
use text.Mathlib.Text.{◌==◌}
use text.Mathlib.TextEquality.{eq_iff}
use mathlib.Core.Bool.{Bool, false}
use mathlib.Core.Logic.{inl, inr}
use torpc.Common.Tests.{if◌then◌else◌, Bool-cases}
use torpc.Common.Lists.{keep}

module _ {ℓ} {V : Type ℓ} where
  -- The value of the first entry with this key.
  unfoldable pub lookup : String → List (String × V) → Option V
  lookup key [] = none
  lookup key (e ∷ rest) = if e.0 == key then some e.1 else lookup key rest

  -- A write to a key that is present replaces its value in place.
  unfoldable pub insert : String → V → List (String × V) → List (String × V)
  insert key value [] = (key, value) ∷ []
  insert key value (e ∷ rest) =
      let later = e ∷ insert key value rest in if e.0 == key then (key, value) ∷ rest else later

  -- What a write leaves to be read, under its own key and any other.
  pub lookup-insert :
      (written read : String) (value : V) (table : List (String × V))
      → lookup read (insert written value table)
        ≡ (if written == read then some value else lookup read table)
  unfolding lookup insert
  lookup-insert written read value [] = refl
  lookup-insert written read value (e ∷ rest) =
      let at = eq_iff e.0 in
      let below = lookup-insert written read value rest in
      ground (arith, below, at written, at read, eq_iff written read)

  -- Each key stands once, as in a map.
  abbrev pub IsMap : List (String × V) → Type ℓ
  IsMap [] = Unit
  IsMap ((k, v) ∷ m) = (lookup k m ≡ none) × IsMap m

  fresh_below :
      (k j : String) (v : V) (m : List (String × V))
      → (j == k) ≡ false
      → lookup j m ≡ none
      → lookup j (insert k v m) ≡ none
  fresh_below k j v m other fresh = ground (arith, lookup-insert k j v m, eq_iff j k, eq_iff k j)

  pub insert-IsMap : (k : String) (v : V) (m : List (String × V)) → IsMap m → IsMap (insert k v m)
  unfolding insert lookup
  insert-IsMap k v [] h = (refl, tt)
  insert-IsMap k v ((j, w) ∷ m) (fresh, h) = elim (Bool-cases (j == k)) [
    | inl same ↦ rw same ((rw ((eq_iff j k).0 same) at fresh), h)
    | inr other ↦ rw other (fresh_below k j v m other fresh, insert-IsMap k v m h)
  ]

  -- An entry that `retain` looks at.
  abbrev pub retained : (V → Bool) → Option V → Option V
  retained p none = none
  retained p (some v) = if p v then some v else none

  lookup-keep-none :
      (p : V → Bool) (k : String) (m : List (String × V))
      → lookup k m ≡ none
      → lookup k (keep (λ e. p e.1) m) ≡ none
  unfolding lookup
  lookup-keep-none p k [] h = refl
  lookup-keep-none p k ((j, v) ∷ m) h = ground (arith, lookup-keep-none p k m)

  pub lookup-keep :
      (p : V → Bool) (k : String) (m : List (String × V))
      → IsMap m
      → lookup k (keep (λ e. p e.1) m) ≡ retained p (lookup k m)
  unfolding lookup
  lookup-keep p k [] h = refl
  lookup-keep p k ((j, v) ∷ m) (fresh, h) =
      ground
        (arith, eq_iff j k, lookup-keep p k m h, lookup-keep-none p k m, lookup-keep-none p j m)

  pub keep-IsMap : (p : V → Bool) (m : List (String × V)) → IsMap m → IsMap (keep (λ e. p e.1) m)
  unfolding lookup
  keep-IsMap p [] h = tt
  keep-IsMap p ((j, v) ∷ m) (fresh, h) =
      ground (arith, keep-IsMap p m h, lookup-keep-none p j m fresh)
