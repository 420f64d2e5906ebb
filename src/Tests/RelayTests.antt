-- ===== src/Tests/RelayTests.antt =====
-- Submissions to a relay that refuses them, and against the clock; the end of the daemon.
use mathlib.Core.Path.{subst}
use mathlib.Core.Option.{some-injective}
use torpc.Common.{
  ℕ, ◌+◌, ◌*◌, ◌≤◌, ◌≡◌, ◌⊎◌, ◌↔◌, refl, true, false, [], ◌∷◌, none, some, arith, ok, length,
}
use torpc.Errors.{upstream_error}
use torpc.Breaker.{second}
use torpc.Breaker.Outage.{MeetsOutage, serve_all, let_through}
use torpc.Mev.Retry.{default_policy}
use torpc.Mev.Client.{MevRelayClient, RelayEnv, no_answer, read_reply}
use torpc.Mev.Client.Outage.{Refuses, Task, guarded, relay_outage_bounded}
use torpc.Proxy.Effects.Timed.{whole}
use torpc.Mev.Handler.{MevProxyState, handle_flashbots_with_mev}
use torpc.Mev.Handler.Timeout.{Arrival, seen_env, flashbots_in_time}
use torpc.Mev.Handler.Timeout.Fits.{NodeInTime, RelayInTime, flashbots_in_time-Fits}
use torpc.App.Service.{Service, Visit, serve, public_response}
use torpc.App.Service.Histories.{visit}
use torpc.App.Service.Calls.{attempts}
use torpc.App.Service.Traffic.{called_for, relay_bound}
use torpc.Limiter.Window.{quota}
use torpc.App.Service.Deadline.{Slow, seen_visit, serve_in_time, is_kept_out}
use torpc.App.Service.Deadline.Charged.{DroppedFrom, serve_in_time-DroppedFrom}
use torpc.Tests.ServiceTests.{service, posted}
use torpc.App.Start.Shutdown.{
  signal, public_ends, admin_ends, ended, panicked, serving, run, step, returns, returns_iff,
  first_admin, Clean,
}
use torpc.Tests.Sample.{Json, a_text, an_array, cons, nil, sample}
use torpc.Tests.MevTests.{client, relay, relay_env, bundle, endpoint, mev_env}
use torpc.Tests.ProxyTests.{asks}

-- A relay that cannot be reached.
abbrev lost_env : RelayEnv
lost_env = record relay_env { reply = λ k call. no_answer "reset"; draw = λ k. 0 }

lost : Refuses sample client lost_env
unfolding read_reply
lost k call = (upstream_error "Network error: reset", refl)

abbrev task : Task sample client
task = record { bundle = bundle; env = lost_env; alone = λ b. refl }

meets : MeetsOutage (guarded sample client) 0 100 task
meets = (("bundle", refl, lost), omega arith, omega arith)

relay_outage_bounded_example :
    (let_through (guarded sample client) (task ∷ task ∷ []) relay ≡ 2)
    × (length (serve_all (guarded sample client) (task ∷ task ∷ []) relay).calls ≤ 0 + 2 * 3)
relay_outage_bounded_example =
    relay_outage_bounded sample client 0 0 (task ∷ task ∷ []) relay refl (omega arith) (omega arith)
      (omega arith) (meets, (meets, tt))

-- The client as the daemon makes it by default.
abbrev default_client : MevRelayClient
default_client = record {
  config = record client.config { request_timeout = 5 * second };
  retry_policy = default_policy;
}

-- A raw transaction that arrives at the endpoint, whose node answers at once.
abbrev arrival : Arrival Json
arrival = record {
  env = record mev_env { relay = record lost_env { gate_time = 4 } };
  request = record (asks "eth_sendRawTransaction") {
    params = some (an_array (cons (a_text "0x02") nil));
  };
  started = 1;
  limit = 30 * second;
  answers_at = λ s. some 2;
  timeout_error = "operation timed out";
  takes = λ k call. 5 * second;
}

abbrev served_by : MevProxyState Json
served_by = record endpoint { mev_client = some default_client }

abbrev node_early : NodeInTime sample arrival
node_early = λ s. omega arith

relay_early : RelayInTime sample arrival default_client
unfolding default_policy
relay_early = (
  record { calls = λ k call. omega arith; divides = omega arith; draws = λ k. omega arith },
  omega arith,
)

flashbots_in_time-Fits_example :
    flashbots_in_time sample arrival served_by
    ≡ whole (handle_flashbots_with_mev sample (seen_env sample arrival) arrival.request) served_by
flashbots_in_time-Fits_example =
    flashbots_in_time-Fits sample arrival served_by node_early (λ c same.
      subst (RelayInTime sample arrival) (some-injective default_client c same) relay_early)

-- The public listener before this client, and two such transactions to it. The relay cannot be
-- reached, and three calls are made.
abbrev with_relay : Service Json
with_relay = record service { mev_state = served_by }

abbrev submitted : ℕ → Visit Json
submitted now = record (posted now) { handler = arrival.env; decode = λ body. ok arrival.request }

relay_bound_example :
    called_for sample 1024 "127.0.0.1:40000" with_relay
      (visit (submitted 5) ∷ visit (submitted 7) ∷ [])
    ≤ 2 * quota service.rate_limiter.config * attempts (some default_client)
relay_bound_example =
    relay_bound sample 1024 with_relay "127.0.0.1:40000" 5
      (visit (submitted 5) ∷ visit (submitted 7) ∷ []) tt (omega arith)
      ((omega arith, omega arith), ((omega arith, omega arith), tt))

-- A visit to the endpoint, whose node does not answer within ten seconds.
abbrev slow : Slow Json
slow = record {
  visit = posted 1;
  started = 1;
  limit = 10 * second;
  admitted_at = some 2;
  answers_at = λ s. none;
  client_error = "operation timed out";
  takes = λ k call. 5 * second;
}

serve_in_time-DroppedFrom_example :
    let done = serve sample 1000 (seen_visit sample slow) service in
    let t = serve_in_time sample slow 1000 service in
    let kept_out = is_kept_out sample slow 1000 in
    ((kept_out ≡ true) × (t ≡ (public_response none, service)))
    ⊎ ((kept_out ≡ false)
        × ((t ≡ (public_response (some done.0), done.1))
            ⊎ ((t.0 ≡ public_response none) × DroppedFrom sample slow 1000 service done.1 t.1)))
serve_in_time-DroppedFrom_example = serve_in_time-DroppedFrom sample slow 1000 service

-- Both servers are gone, and the daemon goes on.
goes_on : returns (run serving (public_ends panicked ∷ admin_ends (ended (ok tt)) ∷ [])) ≡ none
unfolding run returns step
goes_on = refl

returns_iff_example :
    ((returns (run serving (signal ∷ public_ends panicked ∷ [])) ≡ none)
      ↔ ((true ≡ false) ⊎ (some panicked ≡ none) ⊎ (first_admin [] ≡ none)))
    × ((returns (run serving (signal ∷ public_ends panicked ∷ [])) ≡ some (ok tt))
        ↔ ((true ≡ true) × Clean (some panicked) × Clean none))
returns_iff_example = returns_iff (signal ∷ public_ends panicked ∷ [])
