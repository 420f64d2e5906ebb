-- ===== src/App/Service/Growth.antt =====
-- What the steps of a handler add to a count of the state, such as the requests sent to the node.
use torpc.Common.{ℕ, ◌+◌, ◌≤◌, ◌≡◌, refl, ◌∙◌, arith, ok, err}
use torpc.External.{External}
use torpc.Errors.{ProxyResult}
use torpc.Proxy.Effects.{M, resume, lift}
use torpc.Mev.Handler.{MevProxyState}

module _ (X : External) (count : MevProxyState (X.Value) → ℕ) where
  open X use {Value}

  -- A step of a handler that adds so much at most, and keeps the relay's client.
  abbrev pub Grows : {A : Type 0} → ℕ → M (MevProxyState Value) A → Type 0
  Grows n k =
      (s : MevProxyState Value)
      → (count (k s).1 ≤ n + count s) × ((k s).1.mev_client ≡ s.mev_client)

  pub resumed :
      {A B : Type 0} (a b c : ℕ) (s : MevProxyState Value) (r : ProxyResult A × MevProxyState Value)
      (f : A → M (MevProxyState Value) B)
      → a + b ≤ c
      → (count r.1 ≤ a + count s) × (r.1.mev_client ≡ s.mev_client)
      → ((x : A) → Grows b (f x))
      → (count (resume r f).1 ≤ c + count s) × ((resume r f).1.mev_client ≡ s.mev_client)
  resumed a b c s (ok x, t) f fits (h, kept) k =
      let (last, after) = k x t in (omega arith, after ∙ kept)
  resumed a b c s (err e, t) f fits (h, kept) k = (omega arith, kept)

  pub bind-Grows :
      {A B : Type 0} (a b c : ℕ) (m : M (MevProxyState Value) A) (f : A → M (MevProxyState Value) B)
      → a + b ≤ c
      → Grows a m
      → ((x : A) → Grows b (f x))
      → Grows c (λ s. resume (m s) f)
  bind-Grows a b c m f fits h k s = resumed a b c s (m s) f fits (h s) k

  pub lift-Grows : {A : Type 0} (r : ProxyResult A) → Grows 0 (lift r)
  lift-Grows r s = (omega arith, refl)
