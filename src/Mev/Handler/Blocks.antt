-- ===== src/Mev/Handler/Blocks.antt =====
-- The block number on its way from the node's answer to the bundle.
use Prim.Native.String
use torpc.Common.{
  ℕ, ◌+◌, ◌^◌, ◌<◌, ◌≡◌, refl, String, some, arith, ok, u64, hex, trim_0x, parse_hex,
}
use torpc.Common.RoundTrip.{parse_hex-trim_0x}
use torpc.External.{External}
use torpc.Rpc.{JsonRpcResponse}
use torpc.Mev.Client.{MevRelayClient, create_bundle_from_tx}
use torpc.Mev.Handler.{read_block}

module _ (X : External) where
  open X use {Value, text, as_str-text}

  -- Where the node answers with the current block, a u64 in the hexadecimal form of Ethereum, that
  -- block is read, and the block that the bundle is for reads back as the current one plus the
  -- client's blocks_ahead, wrapped around at 64 bits.
  pub block_round_trip :
      (client : MevRelayClient) (response : JsonRpcResponse Value) (raw_tx : String) (n : ℕ)
      → n < 2 ^ 64
      → response.result ≡ some (text (String.◌++◌ "0x" (hex n)))
      → (read_block X response ≡ ok n)
        × (parse_hex (trim_0x (create_bundle_from_tx client raw_tx n).block_number)
            ≡ ok (u64 (n + client.config.blocks_ahead)))
  unfolding read_block create_bundle_from_tx
  block_round_trip client response raw_tx n h same = (
    rw (read_block, same, as_str-text, parse_hex-trim_0x n h) refl,
    parse_hex-trim_0x (u64 (n + client.config.blocks_ahead)) (omega arith),
  )
