-- ===== src/Mev/Types.antt =====
-- The data of src/mev/types.rs; `CircuitState` is in Breaker. Durations are in nanoseconds.
use torpc.Common.{ℕ, ◌*◌, String, List, [], ◌∷◌, Option}
use torpc.Breaker.{second}

pub record Bundle : Type 0 where
  pub txs : List String
  pub block_number : String
  pub min_timestamp : Option ℕ  -- u64
  pub max_timestamp : Option ℕ  -- u64

pub record SendBundleRequest : Type 0 where
  pub jsonrpc : String
  pub method : String
  pub params : List Bundle
  pub id : ℕ  -- u64

unfoldable pub new_request : Bundle → ℕ → SendBundleRequest
new_request bundle id = record {
  jsonrpc = "2.0";
  method = "eth_sendBundle";
  params = bundle ∷ [];
  id = id;
}

pub record MevConfig : Type 0 where
  pub relay_url : String
  pub signing_key : String
  pub request_timeout : ℕ
  pub blocks_ahead : ℕ  -- u64

unfoldable pub default_config : MevConfig
default_config = record {
  relay_url = "https://relay.flashbots.net";
  signing_key = "";
  request_timeout = 5 * second;
  blocks_ahead = 1;
}
