-- ===== src/Mev/Auth.antt =====
-- The signatures of src/mev/auth.rs.
--
-- `Crypto` is the packages `secp256k1`, `sha3` and `hex`. Keys, hashes and messages are lists of
-- bytes; a request's body is the list of its bytes.
pub mod Messages
use Prim.Native.String
use torpc.Common.{
  ℕ, ◌+◌, ◌%◌, ◌≡◌, String, List, [], ◌∷◌, ◌++◌, Result, ok, err, map_err, length, as_bytes,
  decimal, keep_from, strip_0x,
}

pub record Crypto : Type 1 where
  pub SecretKey : Type 0
  -- `hex::decode`, with the error's text, and `hex::encode`
  pub decode : String → Result String (List ℕ)
  pub encode : List ℕ → String
  -- `SecretKey::from_slice`
  pub from_slice : List ℕ → Result String SecretKey
  -- `serialize_uncompressed` of the public key
  pub public_key : SecretKey → List ℕ
  pub keccak256 : List ℕ → List ℕ
  -- `Message::from_slice`
  pub message : List ℕ → Result String (List ℕ)
  -- `sign_ecdsa_recoverable` and `serialize_compact`: the bytes and the recovery id
  pub sign : List ℕ → SecretKey → List ℕ × ℕ

pub data AuthError : Type 0 where
  invalid_key : String → AuthError
  signing_error : String → AuthError
  hex_error : String → AuthError

abbrev pub to_string : AuthError → String
to_string (invalid_key e) = String.◌++◌ "Invalid private key: " e
to_string (signing_error e) = String.◌++◌ "Failed to sign message: " e
to_string (hex_error e) = String.◌++◌ "Hex encoding error: " e

-- "\x19Ethereum Signed Message:\n", the length of the body in decimal, and the body.
unfoldable pub create_eip191_message : List ℕ → List ℕ
create_eip191_message body =
    (0x19 ∷ as_bytes "Ethereum Signed Message:" ++ 0x0a ∷ as_bytes (decimal (length body))) ++ body

module _ (C : Crypto) where
  open C use {SecretKey, decode, encode, from_slice, public_key, keccak256, message, sign}

  pub record FlashbotsAuthenticator : Type 0 where
    pub signing_key : SecretKey
    pub signer_address : String

  -- The last 20 bytes of the hash of the public key, which is taken without its first byte.
  abbrev pub address_of : SecretKey → String
  address_of key =
      String.◌++◌ "0x" (encode (keep_from 12 (keccak256 (keep_from 1 (public_key key)))))

  unfoldable pub new : String → Result AuthError FlashbotsAuthenticator
  new private_key_hex = elim (decode (strip_0x private_key_hex)) [
    | err e ↦ err (hex_error e)
    | ok key_bytes ↦ elim (from_slice key_bytes) [
      | err e ↦ err (invalid_key e)
      | ok key ↦ ok (record { signing_key = key; signer_address = address_of key })
    ]
  ]

  unfoldable pub address : FlashbotsAuthenticator → String
  address auth = auth.signer_address

  unfoldable pub sign_request : FlashbotsAuthenticator → List ℕ → Result AuthError String
  unfolding create_eip191_message
  sign_request auth body = elim (message (keccak256 (create_eip191_message body))) [
    | err e ↦ err (signing_error e)
    | ok m ↦
        let (signature_bytes, recovery_id) = sign m auth.signing_key in
        let eth_signature = signature_bytes ++ (recovery_id % 256 + 27) % 256 ∷ [] in
        ok (String.◌++◌ auth.signer_address (String.◌++◌ ":0x" (encode eth_signature)))
  ]
