-- ===== src/Whitelist.antt =====
-- The methods that the daemon forwards, src/whitelist.rs.
use torpc.Common.{String, Bool, false, ◌||◌, List, [], ◌∷◌, str_eq}

-- `HashSet::contains`, over the set in the order of insertion.
unfoldable pub contains : String → List String → Bool
contains m [] = false
contains m (x ∷ xs) = str_eq x m || contains m xs

abbrev pub allowed_methods : List String
allowed_methods =
    "eth_blockNumber" ∷ "eth_getBalance" ∷ "eth_getStorageAt" ∷ "eth_getTransactionCount"
    ∷ "eth_getBlockTransactionCountByHash" ∷ "eth_getBlockTransactionCountByNumber" ∷ "eth_getCode"
    ∷ "eth_call" ∷ "eth_estimateGas" ∷ "eth_getBlockByHash" ∷ "eth_getBlockByNumber"
    ∷ "eth_getTransactionByHash" ∷ "eth_getTransactionByBlockHashAndIndex"
    ∷ "eth_getTransactionByBlockNumberAndIndex" ∷ "eth_getTransactionReceipt"
    ∷ "eth_getUncleByBlockHashAndIndex" ∷ "eth_getUncleByBlockNumberAndIndex"
    ∷ "eth_getUncleCountByBlockHash" ∷ "eth_getUncleCountByBlockNumber" ∷ "eth_protocolVersion"
    ∷ "eth_chainId" ∷ "eth_syncing" ∷ "eth_gasPrice" ∷ "eth_feeHistory" ∷ "eth_maxPriorityFeePerGas"
    ∷ "eth_getLogs" ∷ "net_version" ∷ "net_listening" ∷ "net_peerCount" ∷ "web3_clientVersion"
    ∷ "web3_sha3" ∷ "eth_sendRawTransaction" ∷ "eth_sendBundle" ∷ []

unfoldable pub is_method_allowed : String → Bool
unfolding contains
is_method_allowed method = contains method allowed_methods
