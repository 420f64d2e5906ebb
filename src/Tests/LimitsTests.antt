-- ===== src/Tests/LimitsTests.antt =====
-- The limits on time and on requests, at a node that hangs and at a limiter that counts twice.
use torpc.Common.{
  ◌+◌, ◌*◌, count_if, ◌≡◌, refl, arith, false, true, List, [], ◌∷◌, none, ok, lookup, length, inl,
}
use torpc.Rpc.{validate}
use torpc.Breaker.{second}
use torpc.Whitelist.{contains, is_method_allowed}
use torpc.Proxy
use torpc.Limiter.{check_rate_limit, charge}
use torpc.Common.{insert}
use torpc.Mev.Handler.{dispatch, handle_flashbots_with_mev}
use torpc.Proxy.{write_methods}
use torpc.Proxy.Timeout.{Pending, serve_in_time, results_in_time}
use torpc.Proxy.Timeout.Hang.{Hangs, hang_unseen}
use torpc.Mev.Handler.{MevProxyState}
use torpc.Mev.Handler.Budget.{passed, passed_half}
use torpc.Mev.Handler.Charges.{Writes}
use torpc.App.Service.{without_mev}
use torpc.Proxy.Accounts.{unlisted, limited}
use torpc.Mev.Handler.Accounts.{metrics_of}
use torpc.Mev.Handler.Counters.{
  Asked, to_rpc, to_flashbots, results, served, Tallied, served-Tallied,
}
use torpc.Tests.Sample.{Json, sample}
use torpc.Tests.MevTests.{mev_env}
use torpc.Tests.ProxyTests.{node, asks, with_geth, up}

abbrev hanging : Pending Json
hanging = record {
  env = with_geth up;
  request = asks "eth_blockNumber";
  started = 1;
  answers_at = λ s. none;
  timeout_error = "operation timed out";
}

listed : is_method_allowed "eth_blockNumber" ≡ true
unfolding is_method_allowed contains
listed = refl

reads : contains "eth_blockNumber" write_methods ≡ false
unfolding contains
reads = refl

read_valid : validate (asks "eth_blockNumber") ≡ ok tt
unfolding validate
read_valid = refl

hangs : Hangs sample (20 * second) hanging
hangs = record {
  valid = read_valid;
  listed = listed;
  reads = reads;
  silent = λ s. refl;
  sooner = omega arith;
  before_gate = λ b. refl;
  others = λ b. refl;
}

hang_unseen_example :
    let after = serve_in_time sample (20 * second) (hanging ∷ hanging ∷ []) node in
    (results_in_time sample (20 * second) (hanging ∷ hanging ∷ []) node ≡ none ∷ none ∷ [])
    × (after.base.geth_circuit ≡ node.base.geth_circuit)
    × (length after.wire ≡ length node.wire + 2)
hang_unseen_example =
    hang_unseen sample (20 * second) (hanging ∷ hanging ∷ []) node (inl (0, refl))
      (hangs, (hangs, tt))

-- The endpoint without a relay client, its limit one write.
abbrev relayless : MevProxyState Json
relayless = without_mev node.base

bundle_writes : contains "eth_sendBundle" write_methods ≡ true
unfolding contains
bundle_writes = refl

bundle_valid : validate (asks "eth_sendBundle") ≡ ok tt
unfolding validate
bundle_valid = refl

writes : Writes sample "eth_sendBundle" 0 60 mev_env (asks "eth_sendBundle")
writes = record {
  valid = bundle_valid;
  names = refl;
  after_from = omega arith;
  in_window = omega arith;
  spared_before = λ b. refl;
  spared_after = λ b. refl;
}

passed_half_example : passed sample ((mev_env, asks "eth_sendBundle") ∷ []) relayless ≡ 0
unfolding lookup
passed_half_example =
    passed_half sample relayless "eth_sendBundle" 0 ((mev_env, asks "eth_sendBundle") ∷ []) refl
      bundle_writes (omega arith) refl (writes, tt)

-- A method off the list at each endpoint without a relay client, and two writes under a limit of one.
abbrev history : List (Asked sample)
history =
    to_rpc (with_geth up) (asks "eth_accounts")
    ∷ to_flashbots mev_env (asks "eth_accounts")
    ∷ to_flashbots mev_env (asks "eth_sendBundle")
    ∷ []

history_counted :
    (count_if unlisted (results sample history relayless) ≡ 2)
    × (count_if limited (results sample history relayless) ≡ 1)
unfolding results Proxy.handle_rpc Proxy.admit validate Proxy.check_method is_method_allowed
    contains Proxy.check_write_method_rate_limit handle_flashbots_with_mev dispatch
    Proxy.handle_flashbots check_rate_limit charge lookup insert
history_counted = (refl, refl)

served-Tallied_example :
    Tallied
      (count_if unlisted (results sample history relayless))
      (count_if limited (results sample history relayless))
      (metrics_of sample relayless)
      (metrics_of sample (served sample history relayless))
served-Tallied_example =
    served-Tallied sample history relayless
      ((λ b. refl, λ b. refl), ((λ b. refl, λ b. refl), ((λ b. refl, λ b. refl), tt)))
      (omega arith, omega arith, omega arith)
