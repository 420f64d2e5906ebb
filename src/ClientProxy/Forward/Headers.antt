-- ===== src/ClientProxy/Forward/Headers.antt =====
-- Which headers of a wallet's request reach the onion service.
use torpc.Common.{
  ℕ, ◌+◌, ◌≤◌, ◌≡◌, ◌⊎◌, inl, inr, refl, ap, String, Bool, true, false, List, [], ◌∷◌, ◌++◌, arith,
  ok, Result-split, length, keep, count_if, count_if-append, All, str_eq, eq_iff, decimal,
  if◌then◌else◌, Bool-cases,
}
use torpc.Whitelist.{contains}
use torpc.ClientProxy.Forward.{
  max_response_bytes, HeaderMap, ProxyConfig, WalletRequest, Upstream, Tunnel, is_forwarded,
  is_empty, is_hop_by_hop, is_wallet_fingerprint, upstream_request, tunnelled, do_proxy,
}

module _ (T : Tunnel) where
  open T use {Body, collect, accepts, connect, handshake, user_agent}

  keep-dropped :
      (before after : HeaderMap) (h : String × String)
      → is_forwarded h ≡ false
      → keep is_forwarded (before ++ h ∷ after) ≡ keep is_forwarded (before ++ after)
  keep-dropped [] after h drop = ground arith
  keep-dropped (x ∷ before) after h drop = ground (arith, keep-dropped before after h drop)

  upstream_request-dropped :
      (config : ProxyConfig) (req : WalletRequest Body) (before after : HeaderMap)
      (h : String × String)
      → is_forwarded h ≡ false
      → (bytes : List ℕ)
      → upstream_request T config (record req { headers = before ++ h ∷ after }) bytes
        ≡ upstream_request T config (record req { headers = before ++ after }) bytes
  unfolding upstream_request
  upstream_request-dropped config req before after h drop bytes =
      ap
        (λ kept. record (upstream_request T config req bytes) {
          headers =
              kept
              ++ ("host", config.onion_endpoint)
                ∷ ("user-agent", user_agent)
                ∷ (if is_empty bytes then [] else ("content-length", decimal (length bytes)) ∷ []);
        })
        (keep-dropped before after h drop)

  -- A header that `is_wallet_fingerprint` names, wherever it stands in the wallet's request, changes
  -- neither the answer nor anything that is sent to the onion service.
  pub fingerprint_unseen :
      (config : ProxyConfig) (req : WalletRequest Body) (before after : HeaderMap)
      (name value : String)
      → is_wallet_fingerprint name ≡ true
      → do_proxy T config (record req { headers = before ++ (name, value) ∷ after })
        ≡ do_proxy T config (record req { headers = before ++ after })
  unfolding do_proxy
  fingerprint_unseen config req before after name value h =
      ap (tunnelled T config req.body) (λ i bytes.
        upstream_request-dropped config req before after (name, value) (ground arith) bytes i)

  -- A header that says nothing of the wallet: its name is no fingerprint, or it is the proxy's own.
  abbrev pub Anonymous : String × String → Type 0
  Anonymous h = (is_wallet_fingerprint h.0 ≡ false) ⊎ (h ≡ ("user-agent", user_agent))

  kept-Anonymous :
      (hs : HeaderMap) (more : HeaderMap)
      → All Anonymous more
      → All Anonymous (keep is_forwarded hs ++ more)
  kept-Anonymous [] more m = m
  kept-Anonymous (h ∷ hs) more m = elim (Bool-cases (is_forwarded h)) [
    | inl goes ↦ rw goes (inl (ground arith), kept-Anonymous hs more m)
    | inr drops ↦ rw drops (kept-Anonymous hs more m)
  ]

  upstream_request-Anonymous :
      (config : ProxyConfig) (req : WalletRequest Body) (bytes : List ℕ)
      → All Anonymous (upstream_request T config req bytes).headers
  unfolding upstream_request is_wallet_fingerprint contains
  upstream_request-Anonymous config req [] = kept-Anonymous req.headers _ (inl refl, (inr refl, tt))
  upstream_request-Anonymous config req (b ∷ bs) =
      kept-Anonymous req.headers _ (inl refl, (inr refl, (inl refl, tt)))

  pub tunnelled-once :
      (config : ProxyConfig) (body : Body) (upstream : List ℕ → Upstream)
      → let sent = (tunnelled T config body upstream).1 in
        (sent ≡ [])
        ⊎ ((bytes : List ℕ) × (collect max_response_bytes body ≡ ok bytes)
            × (sent ≡ upstream bytes ∷ []))
  unfolding tunnelled
  tunnelled-once config body upstream = elim (Result-split (collect max_response_bytes body)) [
    | inl (e, unread) ↦ inl (ground arith)
    | inr (bytes, read) ↦ elim (Result-split (accepts (upstream bytes))) [
      | inl (e, refused) ↦ inl (ground arith)
      | inr (u, accepted) ↦ elim (Result-split (connect config.tor_proxy config.onion_endpoint)) [
        | inl (e, down) ↦ inl (ground arith)
        | inr (v, up) ↦ elim (Result-split handshake) [
          | inl (e, failed) ↦ inl (ground arith)
          | inr (w, shaken) ↦ inr (bytes, read, ground arith)
        ]
      ]
    ]
  ]

  -- At most one request is sent to the onion service, and every header of it that
  -- is_wallet_fingerprint names is the proxy's own user agent.
  pub do_proxy-Anonymous :
      (config : ProxyConfig) (req : WalletRequest Body)
      → let sent = (do_proxy T config req).1 in
        (length sent ≤ 1) × All (λ u. All Anonymous u.headers) sent
  unfolding do_proxy
  do_proxy-Anonymous config req =
      elim (tunnelled-once config req.body (upstream_request T config req)) [
        | inl quiet ↦ rw quiet (omega arith, tt)
        | inr (bytes, read, sent) ↦
            rw sent (omega arith, (upstream_request-Anonymous config req bytes, tt))
      ]

-- A header that states the length of the body.
abbrev pub is_content_length : String × String → Bool
is_content_length h = str_eq h.0 "content-length"

content_length_forwarded : (value : String) → is_forwarded ("content-length", value) ≡ true
unfolding is_hop_by_hop is_wallet_fingerprint contains
content_length_forwarded value = refl

content_length_kept : (h : String × String) → is_content_length h ≡ true → is_forwarded h ≡ true
content_length_kept (name, value) same =
    rw ((eq_iff name "content-length").0 same) (content_length_forwarded value)

count_if-keep :
    (hs : HeaderMap)
    → count_if is_content_length (keep is_forwarded hs) ≡ count_if is_content_length hs
count_if-keep [] = refl
count_if-keep (h ∷ hs) = elim (Bool-cases (is_content_length h)) [
  | inl same ↦ ground (arith, content_length_kept h same, count_if-keep hs)
  | inr other ↦ ground (arith, count_if-keep hs)
]

-- The request to the onion service states the length of its body as often as the wallet's request
-- did, and once more if the body is not empty.
pub content_lengths :
    (T : Tunnel) (config : ProxyConfig) (req : WalletRequest T.Body) (bytes : List ℕ)
    → count_if is_content_length (upstream_request T config req bytes).headers
      ≡ count_if is_content_length req.headers + (if is_empty bytes then 0 else 1)
unfolding upstream_request
content_lengths T config req [] = omega (
  arith,
  count_if-append is_content_length (keep is_forwarded req.headers)
      (("host", config.onion_endpoint) ∷ ("user-agent", T.user_agent) ∷ []),
  count_if-keep req.headers,
)
content_lengths T config req (b ∷ bs) = omega (
  arith,
  count_if-append is_content_length (keep is_forwarded req.headers) (
      ("host", config.onion_endpoint)
      ∷ ("user-agent", T.user_agent)
      ∷ ("content-length", decimal (length (b ∷ bs)))
      ∷ []),
  count_if-keep req.headers,
)
