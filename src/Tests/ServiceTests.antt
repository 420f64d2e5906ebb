-- ===== src/Tests/ServiceTests.antt =====
-- The assembled daemon on a concrete history.
use torpc.Common.{
  ends_with, ℕ, ◌*◌, ◌≤◌, ◌≡◌, refl, [], ◌∷◌, none, some, arith, ok, err, lookup, str_eq,
  if◌then◌else◌,
}
use torpc.Breaker.{second}
use torpc.Limiter.Window.{quota}
use torpc.Mev.Client.{no_answer}
use torpc.Security.Middleware.{json_rpc_timeout_middleware}
use torpc.Common.{false}
use text.Mathlib.Text.{starts_with}
use torpc.Tor.{Files}
use torpc.App.Start.{Sockets, Running}
use torpc.App.Service.{
  Service, Visit, Body, timeout_error, without_mev, matched, fallback, public_response, bare,
}
use torpc.App.Service.Layers.{policy, shadowed, public_response-headers}
use torpc.App.Service.Histories.{visit, sweeping}
use torpc.App.Service.Traffic.{sent_for, traffic_bound}
use torpc.Tests.Sample.{Json, sample}
use torpc.Tests.ProxyTests.{node, asks, with_geth, up}

abbrev pub service : Service Json
service = record {
  rate_limiter = record {
    config = record { max_requests = 1; window_duration = 60 * second };
    requests = [];
  };
  mev_state = without_mev node.base;
}

abbrev pub posted : ℕ → Visit Json
posted now = record {
  request = record {
    method = "POST";
    path = "/rpc/flashbots";
    host = none;
    peer = some ("127.0.0.1", 40000);
    body = [];
  };
  now = now;
  handler = record {
    node = with_geth up;
    relay = record {
      encode = λ r. err "none";
      sign = λ b. err "none";
      reply = λ k c. no_answer "none";
      draw = λ k. 0;
      gate_time = 0;
      outcome_time = 0;
      others = λ b. b;
    };
    before_relay = λ b. b;
    decode = λ v. err "none";
  };
  decode = λ body. ok (asks "eth_blockNumber");
  files = λ r. bare 404;
}

traffic_bound_example :
    sent_for sample 1024 "127.0.0.1:40000" service
      (visit (posted 5) ∷ sweeping 6 ∷ visit (posted 7) ∷ [])
    ≤ 2 * quota service.rate_limiter.config
traffic_bound_example =
    traffic_bound sample 1024 service "127.0.0.1:40000" 5
      (visit (posted 5) ∷ sweeping 6 ∷ visit (posted 7) ∷ []) tt (omega arith)
      ((omega arith, omega arith), ((omega arith, omega arith), ((omega arith, omega arith), tt)))

-- `/health` is no route of the public listener.
no_health : matched "GET" "/health" ≡ fallback
unfolding matched
no_health = refl

public_response-headers_example : lookup "pragma" (public_response {Value = Json} none).headers ≡ (
    if str_eq "server" "pragma"
    then none
    else shadowed "pragma" policy (
        lookup "pragma"
          (json_rpc_timeout_middleware {Body = Body Json} timeout_error none).headers))
public_response-headers_example = public_response-headers none "pragma"

abbrev sockets : Sockets
sockets = record {
  parse_addr = λ text. ok text;
  is_loopback = λ addr. starts_with addr "127.";
  is_any_port = λ addr. ends_with addr ":0";
  bind = λ bound addr. elim bound [
    | [] ↦ ok tt
    | other ∷ rest ↦ if str_eq other addr then err "address in use" else ok tt
  ];
}

abbrev no_torrc : Files
no_torrc = record {
  exists = λ path. false;
  read_to_string = λ path. err "no such file";
  allow_non_anonymous = none;
  create_dir_all = ok tt;
  set_permissions = ok tt;
  mode = ok 448;
}

abbrev serving : Running Json
serving = record {
  public_addr = "127.0.0.1:8080";
  admin_addr = "127.0.0.1:9001";
  service = service;
}
