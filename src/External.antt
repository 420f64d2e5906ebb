-- ===== src/External.antt =====
-- What the program takes from the `serde_json` and `http` packages, as a parameter of the models
-- that use it: JSON values with their accessors, and the classes of HTTP status codes.
use torpc.Common.{ℕ, ◌≤◌, ◌<◌, ◌≡◌, ◌↔◌, String, Bool, true, List, Option, some, lookup, Result}

pub record External : Type 1 where
  pub Value : Type 0
  -- `json!` of a text, of an unsigned number and of an object literal
  pub text : String → Value
  pub number : ℕ → Value
  pub object : List (String × Value) → Value
  pub as_str : Value → Option String
  pub as_array : Value → Option (List Value)
  pub get : String → Value → Option Value
  -- `serde_json::from_str::<Value>`, with the error's text
  pub from_str : String → Result String Value
  pub as_str-text : (s : String) → as_str (text s) ≡ some s
  pub get-object :
      (k : String) (fields : List (String × Value)) → get k (object fields) ≡ lookup k fields
  -- `StatusCode::is_success` and `StatusCode::is_server_error`
  pub is_success : ℕ → Bool
  pub is_server_error : ℕ → Bool
  -- how a status code is displayed
  pub status_text : ℕ → String
  pub is_success_iff : (s : ℕ) → (is_success s ≡ true) ↔ ((200 ≤ s) × (s < 300))
  pub is_server_error_iff : (s : ℕ) → (is_server_error s ≡ true) ↔ ((500 ≤ s) × (s < 600))
