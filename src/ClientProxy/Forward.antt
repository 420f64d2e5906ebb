-- ===== src/ClientProxy/Forward.antt =====
-- The forwarding of a wallet's request through Tor, torpc-proxy/torpc-proxy-core/src/proxy.rs.
--
-- A header map is the list of its entries in the order of iteration. A name is the text of a
-- `HeaderName`, which the `http` package keeps in lower case, so the `to_ascii_lowercase` of the
-- source changes nothing. `Tunnel` is what the packages `tokio-socks`, `hyper` and
-- `http-body-util`, and the network, do: the connection, the handshake, the acceptance of a request
-- or an answer by its builder, the onion service, and the reading of a body up to a limit.
pub mod Headers
pub mod Replies
use Prim.Native.String
use Prim.Native.Char.{code}
use text.Mathlib.Text.{starts_with}
use torpc.Common.{
  as_bytes, ℕ, ◌*◌, ◌≤◌, ◌≡◌, String, Bool, true, false, not, ◌||◌, List, [], ◌∷◌, ◌++◌, Option,
  none, some, Result, ok, err, length, keep, str_eq, ◌==◌, decimal, if◌then◌else◌,
}
use torpc.Whitelist.{contains}

abbrev pub HeaderMap : Type 0
HeaderMap = List (String × String)

abbrev pub max_response_bytes : ℕ
max_response_bytes = 4 * 1024 * 1024

-- The names that `is_hop_by_hop` matches.
abbrev pub hop_by_hop : List String
hop_by_hop =
    "connection" ∷ "keep-alive" ∷ "proxy-authenticate" ∷ "proxy-authorization" ∷ "te" ∷ "trailer"
    ∷ "transfer-encoding" ∷ "upgrade" ∷ []

unfoldable pub is_hop_by_hop : String → Bool
unfolding contains
is_hop_by_hop name = contains name hop_by_hop

-- The names that `is_wallet_fingerprint` matches in full.
abbrev pub fingerprints : List String
fingerprints =
    "user-agent" ∷ "accept-language" ∷ "origin" ∷ "referer" ∷ "cookie" ∷ "authorization" ∷ "dnt"
    ∷ "x-forwarded-for" ∷ "x-real-ip" ∷ []

unfoldable pub is_wallet_fingerprint : String → Bool
unfolding contains
is_wallet_fingerprint name =
    contains name fingerprints || (starts_with name "sec-" || starts_with name "x-wallet-")

pub record ProxyConfig : Type 0 where
  pub listen_addr : String
  pub tor_proxy : String
  pub onion_endpoint : String

pub record WalletRequest (Body : Type 0) : Type 0 where
  pub method : String
  pub path_and_query : Option String
  pub headers : HeaderMap
  pub body : Body

-- A request as it is given to the tunnel.
pub record Upstream : Type 0 where
  pub method : String
  pub uri : String
  pub headers : HeaderMap
  pub body : List ℕ

pub record Reply (Body : Type 0) : Type 0 where
  pub status : ℕ
  pub headers : HeaderMap
  pub body : Body

pub record Tunnel : Type 1 where
  pub Body : Type 0
  -- `Limited::new(body, limit).collect()`
  pub collect : ℕ → Body → Result String (List ℕ)
  pub collect_limit :
      (limit : ℕ) (body : Body) (bytes : List ℕ)
      → collect limit body ≡ ok bytes
      → length bytes ≤ limit
  pub connect : String → String → Result String (Unit {0})
  pub handshake : Result String (Unit {0})
  pub accepts : Upstream → Result String (Unit {0})
  pub accepts_reply : Reply (List ℕ) → Result String (Unit {0})
  pub send_request : Upstream → Result String (Reply Body)
  -- `forwarded_user_agent`: the text holds the package's version
  pub user_agent : String

abbrev pub simple_response : ℕ → String → Reply (List ℕ)
simple_response status msg = record {
  status = status;
  headers = ("content-type", "text/plain; charset=utf-8") ∷ [];
  body = as_bytes msg;
}

abbrev pub is_empty : List ℕ → Bool
is_empty [] = true
is_empty (b ∷ bs) = false

-- A header of the wallet's that is forwarded.
abbrev pub is_forwarded : String × String → Bool
is_forwarded h = not (str_eq h.0 "host" || (is_hop_by_hop h.0 || is_wallet_fingerprint h.0))

-- A header of the onion service's that is given to the wallet.
abbrev pub is_returned : String × String → Bool
is_returned h = not (is_hop_by_hop h.0 || str_eq h.0 "authorization")

module _ (T : Tunnel) where
  open T use {Body, collect, connect, handshake, accepts, accepts_reply, send_request, user_agent}

  -- The request to the onion service, once the wallet's body is read.
  unfoldable pub upstream_request : ProxyConfig → WalletRequest Body → List ℕ → Upstream
  upstream_request config req bytes = record {
    method = req.method;
    uri = elim req.path_and_query [ some path ↦ path | none ↦ "/" ];
    headers =
        keep is_forwarded req.headers
        ++ ("host", config.onion_endpoint)
          ∷ ("user-agent", user_agent)
          ∷ (if is_empty bytes then [] else ("content-length", decimal (length bytes)) ∷ []);
    body = bytes;
  }

  -- What the wallet is answered, once the onion service has.
  unfoldable pub reply_to_wallet : Reply Body → Result String (Reply (List ℕ))
  reply_to_wallet reply = elim (collect max_response_bytes reply.body) [
    | err e ↦ ok (simple_response 502 "Onion response exceeded maximum size")
    | ok bytes ↦
        let out : Reply (List ℕ) = record {
          status = reply.status;
          headers = keep is_returned reply.headers;
          body = bytes;
        } in
        elim (accepts_reply out) [ err e ↦ err "building outbound response" | ok u ↦ ok out ]
  ]

  -- The way of a request through Tor, with `upstream` made of its body. The second part is what was
  -- sent to the onion service.
  unfoldable pub tunnelled :
      ProxyConfig → Body → (List ℕ → Upstream) → Result String (Reply (List ℕ)) × List Upstream
  tunnelled config body upstream = elim (connect config.tor_proxy config.onion_endpoint) [
    | err e ↦ (ok (simple_response 502 "Failed to connect to onion service via Tor"), [])
    | ok u ↦ elim handshake [
      | err e ↦ (err "hyper handshake over Tor stream failed", [])
      | ok v ↦ elim (collect max_response_bytes body) [
        | err e ↦ (ok (simple_response 413 "Request body exceeds proxy limit"), [])
        | ok bytes ↦ elim (accepts (upstream bytes)) [
          | err e ↦ (err "building upstream request", [])
          | ok w ↦ elim (send_request (upstream bytes)) [
            | err e ↦ (err "send_request through Tor failed", upstream bytes ∷ [])
            | ok reply ↦ (reply_to_wallet reply, upstream bytes ∷ [])
          ]
        ]
      ]
    ]
  ]

  unfoldable pub do_proxy :
      ProxyConfig → WalletRequest Body → Result String (Reply (List ℕ)) × List Upstream
  unfolding tunnelled
  do_proxy config req = tunnelled config req.body (upstream_request config req)

  -- `elapsed` says that the time of the request ran out first.
  unfoldable pub proxy_request :
      Bool → ProxyConfig → WalletRequest Body → Result String (Reply (List ℕ))
  proxy_request elapsed config req =
      if elapsed
      then ok (simple_response 504 "Upstream onion request timed out")
      else (do_proxy config req).0
