-- ===== src/ClientProxy/Forward/Replies.antt =====
-- What the proxy answers a wallet.
use torpc.Common.{
  ℕ, ◌≤◌, ◌≡◌, inl, inr, refl, String, Bool, true, false, List, [], ◌∷◌, arith, Result,
  Result-split, ok, err, length, keep, All, str_eq, Bool-cases,
}
use torpc.Whitelist.{contains}
use torpc.ClientProxy.Forward.{
  HeaderMap, ProxyConfig, WalletRequest, Reply, Tunnel, max_response_bytes, is_returned,
  is_hop_by_hop, simple_response, reply_to_wallet, tunnelled, upstream_request, Upstream, do_proxy,
  proxy_request,
}

-- A header that may be given to a wallet.
abbrev pub Returned : String × String → Type 0
Returned h = (is_hop_by_hop h.0 ≡ false) × (str_eq h.0 "authorization" ≡ false)

-- An answer within the limit, with no header that must stay behind.
pub record Fits (r : Reply (List ℕ)) : Type 0 where
  pub bounded : length r.body ≤ max_response_bytes
  pub headers : All Returned r.headers

kept-Returned : (hs : HeaderMap) → All Returned (keep is_returned hs)
kept-Returned [] = tt
kept-Returned (h ∷ hs) = elim (Bool-cases (is_returned h)) [
  | inl goes ↦ rw goes ((ground arith, ground arith), kept-Returned hs)
  | inr drops ↦ rw drops (kept-Returned hs)
]

too_long : Fits (simple_response 502 "Onion response exceeded maximum size")
unfolding is_hop_by_hop contains
too_long = record { bounded = omega arith; headers = ((refl, refl), tt) }

unconnected : Fits (simple_response 502 "Failed to connect to onion service via Tor")
unfolding is_hop_by_hop contains
unconnected = record { bounded = omega arith; headers = ((refl, refl), tt) }

too_large : Fits (simple_response 413 "Request body exceeds proxy limit")
unfolding is_hop_by_hop contains
too_large = record { bounded = omega arith; headers = ((refl, refl), tt) }

too_late : Fits (simple_response 504 "Upstream onion request timed out")
unfolding is_hop_by_hop contains
too_late = record { bounded = omega arith; headers = ((refl, refl), tt) }

-- Every answer of this computation can be given to a wallet.
abbrev AllFit : Result String (Reply (List ℕ)) → Type 0
AllFit (ok r) = Fits r
AllFit (err e) = Unit

AllFit-ok : (x : Result String (Reply (List ℕ))) (r : Reply (List ℕ)) → AllFit x → x ≡ ok r → Fits r
AllFit-ok x r fits h = rw h at fits

module _ (T : Tunnel) where
  open T use {
    Body, collect, collect_limit, connect, handshake, accepts, accepts_reply, send_request,
  }

  reply_to_wallet-Fits : (reply : Reply Body) → AllFit (reply_to_wallet T reply)
  unfolding reply_to_wallet
  reply_to_wallet-Fits reply = elim (Result-split (collect max_response_bytes reply.body)) [
    | inl (e, long) ↦ rw (AllFit, long) too_long
    | inr (bytes, read) ↦
        let out : Reply (List ℕ) = record {
          status = reply.status;
          headers = keep is_returned reply.headers;
          body = bytes;
        } in
        let fits : Fits out = record {
          bounded = collect_limit max_response_bytes reply.body bytes read;
          headers = kept-Returned reply.headers;
        } in
        elim (Result-split (accepts_reply out)) [
          | inl (e, refused) ↦ rw (AllFit, read, refused) tt
          | inr (u, accepted) ↦ rw (AllFit, read, accepted) fits
        ]
  ]

  tunnelled-Fits :
      (config : ProxyConfig) (body : Body) (upstream : List ℕ → Upstream)
      → AllFit (tunnelled T config body upstream).0
  unfolding tunnelled
  tunnelled-Fits config body upstream =
      elim (Result-split (connect config.tor_proxy config.onion_endpoint)) [
        | inl (e, down) ↦ rw (AllFit, down) unconnected
        | inr (v, up) ↦ elim (Result-split handshake) [
          | inl (e, failed) ↦ rw (AllFit, up, failed) tt
          | inr (w, shaken) ↦ elim (Result-split (collect max_response_bytes body)) [
            | inl (e, unread) ↦ rw (AllFit, up, shaken, unread) too_large
            | inr (bytes, read) ↦ elim (Result-split (accepts (upstream bytes))) [
              | inl (e, refused) ↦ rw (AllFit, up, shaken, read, refused) tt
              | inr (u, accepted) ↦ elim (Result-split (send_request (upstream bytes))) [
                | inl (e, lost) ↦ rw (AllFit, up, shaken, read, accepted, lost) tt
                | inr (reply, answered) ↦
                    rw (AllFit, up, shaken, read, accepted, answered) (reply_to_wallet-Fits reply)
              ]
            ]
          ]
        ]
      ]

  -- Every answer that a wallet is given, on time or not, has a body of at most 4 MiB and no header
  -- that is hop-by-hop or named authorization.
  pub proxy_request-Fits :
      (elapsed : Bool) (config : ProxyConfig) (req : WalletRequest Body) (r : Reply (List ℕ))
      → proxy_request T elapsed config req ≡ ok r
      → Fits r
  unfolding proxy_request do_proxy
  proxy_request-Fits true config req r h = AllFit-ok _ r too_late h
  proxy_request-Fits false config req r h =
      AllFit-ok _ r (tunnelled-Fits config req.body (upstream_request T config req)) h
