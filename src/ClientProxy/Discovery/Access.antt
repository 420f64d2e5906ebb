-- ===== src/ClientProxy/Discovery/Access.antt =====
-- Who is told of the proxy by the discovery server.
use Prim.Native.Char.{code}
use text.Mathlib.TextEquality.{Char-path}
use torpc.Common.{
  ℕ, ◌≡◌, refl, ap, ◌⊎◌, ◌↔◌, inl, inr, arith, String, true, false, List, [], ◌∷◌, Option, none,
  some, length, ◌==◌, ==_iff, str_eq, eq_iff, Bool-cases, bit_or, bit_xor, bit_or-eq-zero,
  bit_xor-eq-zero, as_bytes,
}
use torpc.External.{External}
use torpc.ClientProxy.Forward.{ProxyConfig}
use torpc.ClientProxy.Discovery.{
  collect_diff, constant_time_eq, DiscoveryRequest, is_provided, discovery_handler,
}

collect_diff-eq-zero :
    (diff : ℕ) (a b : List ℕ)
    → length a ≡ length b
    → (collect_diff diff a b ≡ 0) ↔ ((diff ≡ 0) × (a ≡ b))
unfolding collect_diff
collect_diff-eq-zero diff [] [] h = ground arith
collect_diff-eq-zero diff [] (y ∷ b) h = absurd (omega arith)
collect_diff-eq-zero diff (x ∷ a) [] h = absurd (omega arith)
collect_diff-eq-zero diff (x ∷ a) (y ∷ b) h = ground (
  arith,
  collect_diff-eq-zero (bit_or diff (bit_xor x y)) a b (omega arith),
  bit_or-eq-zero diff (bit_xor x y),
  bit_xor-eq-zero x y,
)

-- The comparison in constant time is the equality of the two byte strings.
pub constant_time_eq_iff : (a b : List ℕ) → (constant_time_eq a b ≡ true) ↔ (a ≡ b)
unfolding constant_time_eq
constant_time_eq_iff a b = elim (Bool-cases (length a == length b)) [
  | inl same ↦
      let sizes = (==_iff (length a) (length b)).0 same in
      ground (arith, collect_diff-eq-zero 0 a b sizes, ==_iff (collect_diff 0 a b) 0)
  | inr other ↦
      let apart : a ≡ b → length a ≡ length b = λ e. ap length e in
      ground (arith, ==_iff (length a) (length b))
]

as_bytes_inj : (s t : String) → as_bytes s ≡ as_bytes t → s ≡ t
as_bytes_inj String.[] String.[] h = refl
as_bytes_inj String.[] (String.◌∷◌ d t) h = cc
as_bytes_inj (String.◌∷◌ c s) String.[] h = cc
as_bytes_inj (String.◌∷◌ c s) (String.◌∷◌ d t) h =
    let heads : code c ≡ code d = cc in
    let tails : as_bytes s ≡ as_bytes t = cc in
    let same_head : c ≡ d = Char-path c d heads in
    let same_tail : s ≡ t = as_bytes_inj s t tails in cc

module _ (X : External) (render : External.Value X → String) (version : String) where
  pub is_provided_iff :
      (token : Option String) (expected_token : String)
      → (is_provided X render version token expected_token ≡ true) ↔ (token ≡ some expected_token)
  is_provided_iff none t = ground arith
  is_provided_iff (some p) t =
      let same : as_bytes p ≡ as_bytes t → p ≡ t = as_bytes_inj p t in
      let back : p ≡ t → as_bytes p ≡ as_bytes t = λ e. ap as_bytes e in
      ground (arith, constant_time_eq_iff (as_bytes p) (as_bytes t))

  refused_alike :
      (req : DiscoveryRequest) (config : ProxyConfig) (expected_token : String)
      → ((discovery_handler X render version req config expected_token).status ≡ 200)
        ⊎ ((other : ProxyConfig)
            → discovery_handler X render version req other expected_token
              ≡ discovery_handler X render version req config expected_token)
  unfolding discovery_handler
  refused_alike req config t =
      elim (Bool-cases ((discovery_handler X render version req config t).status == 200)) [
        | inl granted ↦ inl ((==_iff _ 200).0 granted)
        | inr refused ↦ inr (λ other. ground arith)
      ]

  -- The discovery server answers 200 exactly to a GET of its path with the expected token; every
  -- other answer is the same whatever the proxy's configuration is.
  pub granted_iff :
      (req : DiscoveryRequest) (config : ProxyConfig) (expected_token : String)
      → let reply = discovery_handler X render version req config expected_token in
        ((reply.status ≡ 200) ↔ (
          (req.method ≡ "GET") × (req.path ≡ "/api/discovery") × (req.token ≡ some expected_token)))
        × ((reply.status ≡ 200)
            ⊎ ((other : ProxyConfig)
                → discovery_handler X render version req other expected_token ≡ reply))
  unfolding discovery_handler
  granted_iff req config t =
      let get : req.method ≡ "GET" → str_eq req.method "OPTIONS" ≡ false = λ e. rw e refl in
      (
        ground (
          arith,
          eq_iff req.method "GET",
          eq_iff req.path "/api/discovery",
          is_provided_iff req.token t,
        ),
        refused_alike req config t,
      )
