-- ===== src/Tests/ClientTests.antt =====
-- The wallet's proxy on a concrete tunnel.
use torpc.Common.{
  ◌⊎◌, ℕ, ◌+◌, ◌≤◌, ◌≡◌, refl, String, true, false, List, [], ◌∷◌, some, arith, Result, ok, err,
  length, count_if, All, leb, if◌then◌else◌,
}
use torpc.Whitelist.{contains}
use torpc.ClientProxy.Forward.{
  ProxyConfig, WalletRequest, Reply, Tunnel, is_wallet_fingerprint, upstream_request, do_proxy,
  proxy_request, reply_to_wallet, is_hop_by_hop, tunnelled,
}
use torpc.ClientProxy.Forward.Headers.{
  Anonymous, fingerprint_unseen, do_proxy-Anonymous, is_content_length, content_lengths,
}
use torpc.ClientProxy.Forward.Replies.{Fits, proxy_request-Fits}
use torpc.Common.{◌↔◌}
use torpc.Tests.Sample.{sample}
use torpc.ClientProxy.Discovery.{
  DiscoveryRequest, constant_time_eq, generate_discovery_token, discovery_handler,
}
use torpc.ClientProxy.Discovery.Access.{granted_iff}

abbrev collect : ℕ → List ℕ → Result String (List ℕ)
collect limit body = if leb (length body) limit then ok body else err "length limit exceeded"

pub collect_limit :
    (limit : ℕ) (body bytes : List ℕ) → collect limit body ≡ ok bytes → length bytes ≤ limit
collect_limit limit body bytes h = ground arith

abbrev pub tunnel : Tunnel
tunnel = record {
  Body = List ℕ;
  collect = collect;
  collect_limit = collect_limit;
  connect = λ proxy onion. ok tt;
  handshake = ok tt;
  accepts = λ u. ok tt;
  accepts_reply = λ r. ok tt;
  send_request = λ u. ok (record {
    status = 200;
    headers = ("content-type", "application/json") ∷ ("connection", "close") ∷ [];
    body = 123 ∷ 125 ∷ [];
  });
  user_agent = "torpc-proxy/0.1.0";
}

abbrev pub config : ProxyConfig
config = record {
  listen_addr = "127.0.0.1:8545";
  tor_proxy = "127.0.0.1:9050";
  onion_endpoint = "test.onion:8545";
}

abbrev pub wallet : WalletRequest (List ℕ)
wallet = record {
  method = "POST";
  path_and_query = some "/rpc";
  headers = ("content-type", "application/json") ∷ ("content-length", "2") ∷ [];
  body = 123 ∷ 125 ∷ [];
}

-- `wallet_fingerprint_headers_are_stripped`
user_agent_is_fingerprint : is_wallet_fingerprint "user-agent" ≡ true
unfolding is_wallet_fingerprint contains
user_agent_is_fingerprint = refl

sec_is_fingerprint : is_wallet_fingerprint "sec-ch-ua" ≡ true
unfolding is_wallet_fingerprint contains
sec_is_fingerprint = refl

fingerprint_unseen_example :
    do_proxy tunnel config (record wallet {
      headers =
          ("content-type", "application/json")
          ∷ ("user-agent", "MetaMask")
          ∷ ("content-length", "2")
          ∷ [];
    })
    ≡ do_proxy tunnel config wallet
fingerprint_unseen_example =
    fingerprint_unseen tunnel config wallet (("content-type", "application/json") ∷ [])
      (("content-length", "2") ∷ []) "user-agent" "MetaMask" user_agent_is_fingerprint

do_proxy-Anonymous_example :
    let sent = (do_proxy tunnel config wallet).1 in
    (length sent ≤ 1) × All (λ u. All (Anonymous tunnel) u.headers) sent
do_proxy-Anonymous_example = do_proxy-Anonymous tunnel config wallet

abbrev reply : Reply (List ℕ)
reply = record {
  status = 200;
  headers = ("content-type", "application/json") ∷ [];
  body = 123 ∷ 125 ∷ [];
}

answered : proxy_request tunnel false config wallet ≡ ok reply
unfolding proxy_request do_proxy tunnelled reply_to_wallet is_hop_by_hop contains
answered = refl

proxy_request-Fits_example : Fits reply
proxy_request-Fits_example = proxy_request-Fits tunnel false config wallet reply answered

content_lengths_example :
    count_if is_content_length (upstream_request tunnel config wallet (123 ∷ 125 ∷ [])).headers
    ≡ 1 + 1
content_lengths_example = content_lengths tunnel config wallet (123 ∷ 125 ∷ [])

-- `constant_time_eq_matches`
bytes_same : constant_time_eq (97 ∷ 98 ∷ []) (97 ∷ 98 ∷ []) ≡ true
unfolding constant_time_eq
bytes_same = refl

bytes_differ : constant_time_eq (97 ∷ 98 ∷ []) (97 ∷ 99 ∷ []) ≡ false
unfolding constant_time_eq
bytes_differ = refl

lengths_differ : constant_time_eq (97 ∷ []) (97 ∷ 98 ∷ []) ≡ false
unfolding constant_time_eq
lengths_differ = refl

token_text : generate_discovery_token (0 ∷ 175 ∷ []) ≡ "00af"
unfolding generate_discovery_token
token_text = refl

abbrev asking : DiscoveryRequest
asking = record { method = "GET"; path = "/api/discovery"; token = some "00ae" }

granted_iff_example :
    let reply = discovery_handler sample (λ v. "json") "0.1.0" asking config "00af" in
    ((reply.status ≡ 200)
      ↔ ((asking.method ≡ "GET") × (asking.path ≡ "/api/discovery") × (asking.token ≡ some "00af")))
    × ((reply.status ≡ 200)
        ⊎ ((other : ProxyConfig)
            → discovery_handler sample (λ v. "json") "0.1.0" asking other "00af" ≡ reply))
granted_iff_example = granted_iff sample (λ v. "json") "0.1.0" asking config "00af"
