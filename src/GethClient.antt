-- ===== src/GethClient.antt =====
-- The client that asks the node whether it is there, src/geth_client.rs.
--
-- `Geth` is the package `reqwest` and the node: the reply to a request sent to an address, or the
-- error of sending; and how `serde_json` shows a value.
use Prim.Native.String
use torpc.Common.{ℕ, String, not, Option, none, some, Result, ok, err, or_else, if◌then◌else◌}
use torpc.External.{External}
use torpc.Rpc.{JsonRpcRequest, JsonRpcResponse}

-- The status, and what reading the body gives.
pub record GethReply (Value : Type 0) : Type 0 where
  pub status : ℕ
  pub json : Result String (JsonRpcResponse Value)

module _ (X : External) where
  open X use {Value, number, is_success, status_text}

  pub record Geth : Type 0 where
    pub send : String → JsonRpcRequest Value → Result String (GethReply Value)
    pub show : Value → String

  abbrev pub query : String → JsonRpcRequest Value
  query method = record { jsonrpc = "2.0"; method = method; params = none; id = some (number 1) }

  abbrev pub result_of : Geth → String → JsonRpcResponse Value → Result String String
  result_of geth absent response = elim response.result [
    | some result ↦ ok (geth.show result)
    | none ↦ err absent
  ]

  unfoldable pub test_connectivity : Geth → String → Result String String
  test_connectivity geth url = elim (geth.send url (query "eth_blockNumber")) [
    | err e ↦ err e
    | ok reply ↦
        if not (is_success reply.status)
        then err (String.◌++◌ "Geth returned status: " (status_text reply.status))
        else elim reply.json [
          | err e ↦ err e
          | ok response ↦ elim response.error [
            | some error ↦ err (String.◌++◌ "RPC error: " error.message)
            | none ↦ result_of geth "No result in response" response
          ]
        ]
  ]

  -- The status is not looked at, nor an error in the answer.
  unfoldable pub get_chain_id : Geth → String → Result String String
  get_chain_id geth url = elim (geth.send url (query "eth_chainId")) [
    | err e ↦ err e
    | ok reply ↦ elim reply.json [
      | err e ↦ err e
      | ok response ↦ result_of geth "Failed to get chain ID" response
    ]
  ]

  unfoldable pub test_geth_connection : Geth → (String → Option String) → Result String (Unit {0})
  unfolding test_connectivity get_chain_id
  test_geth_connection geth env =
      let url = or_else (env "GETH_URL") "http://127.0.0.1:8545" in
      elim (test_connectivity geth url) [
        | err e ↦ err (String.◌++◌ "❌ Failed to connect to Geth: " e)
        | ok block_number ↦ elim (get_chain_id geth url) [
          | err e ↦ err (String.◌++◌ "Failed to get chain ID: " e)
          | ok chain_id ↦ ok tt
        ]
      ]
