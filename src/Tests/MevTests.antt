-- ===== src/Tests/MevTests.antt =====
-- The relay client and the MEV endpoint on concrete requests.
use torpc.Common.{
  ltb, ℕ, ◌+◌, ◌*◌, ◌<◌, ◌≤◌, ◌≡◌, ◌⊎◌, refl, String, true, false, [], ◌∷◌, none, some, arith, ok,
  err, contains_text, if◌then◌else◌,
}
use torpc.Errors.{ProxyError, ProxyResult, upstream_error, internal_error, to_string}
use torpc.Breaker.{closed, can_proceed}
use torpc.Proxy.{proxy_to_geth, handle_flashbots}
use torpc.Proxy.Wire.{SentOne}
use torpc.Whitelist.{is_method_allowed}
use torpc.Mev.Types.{Bundle}
use torpc.Mev.Retry.{
  RetryPolicy, default_policy, millisecond, capped_delay, calculate_delay, should_retry,
}
use torpc.Mev.Client.{
  read_reply, MevRelayClient, RelayCall, RelayReply, no_answer, answered, Relay, RelayEnv,
  send_bundle, body_message, map_relay_error,
}
use torpc.Mev.Client.Attempts.{Ends}
use torpc.Mev.Client.Submission
use torpc.Mev.Client.Submission.{Retried, gated, send_bundle-reaches}
use torpc.Mev.Client.Refused.{
  refusing, unauthenticated, over_rate, invalid_bundle, refusals_retried,
}
use torpc.Mev.Handler.{MevProxyState, MevEnv, on_node, block_req, handle_flashbots_with_mev}
use torpc.Rpc.{JsonRpcResponse}
use torpc.Common.{digits, join, u64, hex, trim_0x, parse_hex}
use torpc.Mev.Client.{create_bundle_from_tx}
use torpc.Mev.Handler.{read_block}
use torpc.Mev.Handler.Blocks.{block_round_trip}
use torpc.Tests.Sample.{a_text}
use torpc.Mev.Handler.Endpoint.{whitelist_skipped, raw_transaction_unsent}
use torpc.Tests.Sample.{Json, sample}
use torpc.Tests.ProxyTests.{node, asks, with_geth, up}

-- `test_retry_policy_delays`
second_delay : calculate_delay default_policy 1 (2 * 200) ≡ 250 * millisecond
unfolding calculate_delay default_policy capped_delay
second_delay = refl

abbrev pub policy : RetryPolicy
policy = record {
  max_attempts = 3;
  initial_delay = 100 * millisecond;
  max_delay = 5000 * millisecond;
  jitter_num = 1;
  jitter_den = 4;
}

second_cap : capped_delay policy 1 ≡ 200
unfolding capped_delay
second_cap = refl

in_range : 100 ≤ 2 * (capped_delay policy 1 * 1)
in_range = omega (arith, second_cap)

abbrev pub client : MevRelayClient
client = record {
  config = record {
    relay_url = "https://relay.flashbots.net";
    signing_key = "01";
    request_timeout = 5;
    blocks_ahead = 1;
  };
  retry_policy = policy;
}

abbrev pub bundle : Bundle
bundle = record {
  txs = "0x02" ∷ [];
  block_number = "0x64";
  min_timestamp = none;
  max_timestamp = none;
}

-- The relay cannot be reached for the first two attempts; the third finds it over its rate.
abbrev pub replies : ℕ → RelayCall → RelayReply
replies k call = if ltb k 2 then no_answer "reset" else answered 401 (ok "denied")

abbrev pub relay_env : RelayEnv
relay_env = record {
  encode = λ r. ok "bundle";
  sign = λ b. ok "signature";
  reply = replies;
  draw = λ k. 100;
  gate_time = 1;
  outcome_time = 9;
  others = λ b. b;
}

abbrev pub relay : Relay
relay = record {
  circuit_breaker = record { state = closed 0; failure_threshold = 5; recovery_timeout = 100 };
  calls = [];
  sleeps = [];
}

abbrev denied : ProxyError
denied = internal_error "Flashbots authentication failed - check signing key"

abbrev lost : ProxyError
lost = upstream_error "Network error: reset"

admits : (can_proceed relay.circuit_breaker relay_env.gate_time).1 ≡ true
unfolding can_proceed
admits = refl

lost_retried : should_retry (to_string lost) ≡ true
unfolding should_retry to_string contains_text
lost_retried = refl

denied_final : should_retry (to_string denied) ≡ false
unfolding should_retry to_string contains_text
denied_final = refl

abbrev answers : ℕ → ProxyResult String
answers = Submission.answer sample relay_env client "bundle" "signature"

lost_first :
    (c : MevRelayClient) (k : ℕ)
    → k < 2
    → Submission.answer sample relay_env c "bundle" "signature" k ≡ err lost
unfolding read_reply
lost_first c k h = ground arith

earlier : (c : MevRelayClient) (k : ℕ) → k < 2 → Retried sample relay_env c "bundle" "signature" k
earlier c k h = rw (lost_first c k h) lost_retried

denied_third : answers 2 ≡ err denied
unfolding read_reply map_relay_error
denied_third = refl

send_bundle-reaches_example :
    Ends sample relay_env client "bundle" "signature" 3 2
      (err denied)
      (gated relay_env relay)
      (send_bundle sample relay_env client bundle relay)
send_bundle-reaches_example =
    send_bundle-reaches sample relay_env client "bundle" "signature" refl bundle relay 2
      (err denied) admits refl (omega arith) (earlier client) denied_third denied_final

unread : body_message sample "" ≡ none
unread = refl

refusals_retried_example :
    let submitted =
      λ (status : ℕ). send_bundle sample (refusing relay_env status "") client bundle relay in
    Ends sample
      (refusing relay_env 401 "")
      client
      "bundle"
      "signature"
      1
      0
      (err unauthenticated)
      (gated relay_env relay)
      (submitted 401)
    × Ends sample
        (refusing relay_env 429 "")
        client
        "bundle"
        "signature"
        3
        2
        (err over_rate)
        (gated relay_env relay)
        (submitted 429)
    × Ends sample
        (refusing relay_env 400 "")
        client
        "bundle"
        "signature"
        3
        2
        (err invalid_bundle)
        (gated relay_env relay)
        (submitted 400)
refusals_retried_example =
    refusals_retried sample relay_env client "bundle" "signature" "" bundle relay 2 admits refl refl
      refl unread

abbrev pub endpoint : MevProxyState Json
endpoint = record { base_state = node; mev_client = some client; relay = relay }

abbrev pub mev_env : MevEnv Json
mev_env = record {
  node = with_geth up;
  relay = relay_env;
  before_relay = λ b. b;
  decode = λ v. err "no bundle";
}

off_list : is_method_allowed "eth_accounts" ≡ false
unfolding is_method_allowed
off_list = refl

whitelist_skipped_example :
    (handle_flashbots_with_mev sample mev_env (asks "eth_accounts") endpoint
      ≡ on_node sample (proxy_to_geth sample (with_geth up) (asks "eth_accounts")) endpoint)
    × ((handle_flashbots sample (with_geth up) (asks "eth_accounts") node).1.wire ≡ [])
    × ((e : ProxyError) × ((handle_flashbots sample (with_geth up) (asks "eth_accounts") node).0
          ≡ err e))
whitelist_skipped_example =
    whitelist_skipped sample mev_env (asks "eth_accounts") client endpoint refl off_list

raw_transaction_unsent_example :
    let s' =
      (handle_flashbots_with_mev sample mev_env (asks "eth_sendRawTransaction") endpoint).1 in
    (s'.base_state.wire ≡ []) ⊎ SentOne sample (block_req sample) node s'.base_state
raw_transaction_unsent_example =
    raw_transaction_unsent sample mev_env (asks "eth_sendRawTransaction") client endpoint refl refl

-- The node's answer for the last block that a u64 can number.
abbrev last_block : JsonRpcResponse Json
last_block = record {
  jsonrpc = "2.0";
  result = some (a_text "0xffffffffffffffff");
  error = none;
  id = none;
}

last_hex : hex 18446744073709551615 ≡ "ffffffffffffffff"
unfolding hex digits join
last_hex = refl

block_round_trip_example :
    (read_block sample last_block ≡ ok 18446744073709551615)
    × (parse_hex (trim_0x (create_bundle_from_tx client "0x02" 18446744073709551615).block_number)
        ≡ ok (u64 (18446744073709551615 + 1)))
block_round_trip_example =
    block_round_trip sample client last_block "0x02" 18446744073709551615 (omega arith)
      (rw last_hex refl)
