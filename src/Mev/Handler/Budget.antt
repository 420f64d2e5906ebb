-- ===== src/Mev/Handler/Budget.antt =====
-- What the MEV endpoint without a relay client leaves of the budget for writes.
use mathlib.Core.Path.{subst}
use torpc.Common.{
  ℕ, suc, ◌+◌, ◌-◌, ◌/◌, ◌<◌, ◌≤◌, ◌^◌, min, ◌≡◌, sym, inl, inr, arith, String, true, false, List,
  [], ◌∷◌, Option, none, some, length, lookup, All, if◌then◌else◌, Bool-cases,
}
use torpc.External.{External}
use torpc.Rpc.{JsonRpcRequest}
use torpc.Limiter.{RateLimitConfig, Bucket, charge}
use torpc.Whitelist.{contains}
use torpc.Proxy.{write_methods}
use torpc.Mev.Handler.{MevProxyState, MevEnv, handle_flashbots_with_mev}
use torpc.Proxy.Accounts.{limited}
use torpc.Mev.Handler.Charges.{twice, Writes, limiter_of, Charges-named}

-- What a bucket of the running window has left, and that it is one.
abbrev left : RateLimitConfig → Option Bucket → ℕ
left c none = c.max_requests
left c (some b) = c.max_requests - b.count

abbrev Opened : ℕ → Option Bucket → Type 0
Opened from none = Unit
Opened from (some b) = from ≤ b.window_start

twice-left :
    (c : RateLimitConfig) (from now : ℕ) (o : Option Bucket)
    → c.max_requests < 2 ^ 32
    → from ≤ now
    → now < from + c.window_duration
    → Opened from o
    → let (b, allowed) = twice c o now in
      Opened from (some b)
      × (if allowed then 1 + left c (some b) / 2 else 0) ≡ left c o / 2
      × (allowed ≡ false → left c (some b) / 2 ≡ 0)
unfolding charge
twice-left c from now none w p q h = ground arith
twice-left c from now (some b) w p q h = ground arith

module _ (X : External) where
  open X use {Value}

  -- The requests that are not refused for want of budget.
  unfoldable pub passed : List (MevEnv Value × JsonRpcRequest Value) → MevProxyState Value → ℕ
  passed [] s = 0
  passed ((env, request) ∷ ws) s =
      let r = handle_flashbots_with_mev X env request s in
      let rest = passed ws r.1 in if limited r.0 then rest else suc rest

  abbrev pub InSpan : String → ℕ → ℕ → MevEnv Value × JsonRpcRequest Value → Type 0
  InSpan method from width (env, request) = Writes X method from width env request

  passed-left :
      (s : MevProxyState Value) (method : String) (from : ℕ) (o : Option Bucket)
      (ws : List (MevEnv Value × JsonRpcRequest Value))
      → s.mev_client ≡ none
      → contains method write_methods ≡ true
      → (limiter_of X s).config.max_requests < 2 ^ 32
      → lookup method (limiter_of X s).requests ≡ o
      → Opened from o
      → All (InSpan method from (limiter_of X s).config.window_duration) ws
      → passed ws s ≡ min (length ws) (left (limiter_of X s).config o / 2)
  unfolding passed
  passed-left s method from o [] c w u l h hs = omega arith
  passed-left s method from o ((env, request) ∷ ws) c w u l h (hw, hs) =
      let k = (limiter_of X s).config in
      let s' = (handle_flashbots_with_mev X env request s).1 in
      let e = Charges-named X env request s o method from k.window_duration c w l hw in
      let (opened, paid, none_left) =
        twice-left k from env.node.limit_time o u hw.after_from hw.in_window h in
      let ih =
        passed-left s' method from (some (twice k o env.node.limit_time).0) ws e.alone w
          (subst (λ k. k.max_requests < 2 ^ 32) (sym e.settings) u) e.bucket opened
          (subst (λ k. All (InSpan method from k.window_duration) ws) (sym e.settings) hs) in
      let rest : passed ws s'
          ≡ min (length ws) (left k (some (twice k o env.node.limit_time).0) / 2) =
        subst
          (λ k'.
            passed ws s' ≡ min (length ws) (left k' (some (twice k o env.node.limit_time).0) / 2))
          e.settings ih in
      elim (Bool-cases (twice k o env.node.limit_time).1) [
        | inl allowed ↦ ground (arith, e.verdict)
        | inr refused ↦ ground (arith, e.verdict, none_left refused)
      ]

  -- Without a relay client, every request to write is charged twice: of requests for one method
  -- that the limiter does not know, in one window, half as many get past the limit as it is
  -- configured for, rounded down, or all, where they are fewer; with a limit of one, none. The
  -- requests are well formed, and no other task charges the limiter meanwhile.
  pub passed_half :
      (s : MevProxyState Value) (method : String) (from : ℕ)
      (ws : List (MevEnv Value × JsonRpcRequest Value))
      → s.mev_client ≡ none
      → contains method write_methods ≡ true
      → (limiter_of X s).config.max_requests < 2 ^ 32
      → lookup method (limiter_of X s).requests ≡ none
      → All (InSpan method from (limiter_of X s).config.window_duration) ws
      → passed ws s ≡ min (length ws) ((limiter_of X s).config.max_requests / 2)
  passed_half s method from ws c w u l hs = passed-left s method from none ws c w u l tt hs
