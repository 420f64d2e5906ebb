-- ===== src/App/Service/Layers.antt =====
-- The headers of every response of the public listener.
use torpc.Common.{
  ◌≡◌, refl, sym, inl, inr, arith, String, List, [], ◌∷◌, Option, none, some, lookup, str_eq,
  eq_iff, if◌then◌else◌, Bool-cases,
}
use torpc.Security.Middleware.{
  Response, json_rpc_timeout_middleware, add_security_headers, override_csp, remove, set,
  static_csp,
}
use torpc.App.Service.{Body, timeout_error, public_response}

lookup-remove :
    (name read : String) (headers : List (String × String))
    → lookup read (remove name headers) ≡ (if str_eq name read then none else lookup read headers)
unfolding lookup remove
lookup-remove name read [] = ground arith
lookup-remove name read (h ∷ headers) =
    ground
      (arith, lookup-remove name read headers, eq_iff h.0 name, eq_iff h.0 read, eq_iff name read)

lookup-set :
    (name value read : String) (headers : List (String × String))
    → lookup read (set name value headers)
      ≡ (if str_eq name read then some value else lookup read headers)
unfolding lookup set
lookup-set name value read headers = ground (arith, lookup-remove name read headers)

-- The headers that the layers set.
abbrev pub policy : List (String × String)
policy =
    ("content-security-policy", static_csp)
    ∷ ("expires", "0")
    ∷ ("pragma", "no-cache")
    ∷ ("cache-control", "no-store, no-cache, must-revalidate")
    ∷ ("referrer-policy", "no-referrer")
    ∷ ("x-xss-protection", "0")
    ∷ ("x-frame-options", "DENY")
    ∷ ("x-content-type-options", "nosniff")
    ∷ []

-- What is read under a name where a list of headers stands before another.
abbrev pub shadowed : String → List (String × String) → Option String → Option String
shadowed name [] below = below
shadowed name (h ∷ headers) below =
    let rest = shadowed name headers below in if str_eq h.0 name then some h.1 else rest

-- Every response of the public listener, that of the timeout included, has no header `server`, has
-- each header of the policy with the policy's value, and has any other as the handlers gave it.
pub public_response-headers :
    {Value : Type 0} (answer : Option (Response (Body Value))) (name : String)
    → lookup name (public_response answer).headers ≡ (
        if str_eq "server" name
        then none
        else shadowed name policy
            (lookup name (json_rpc_timeout_middleware timeout_error answer).headers))
unfolding public_response override_csp add_security_headers
public_response-headers answer name = elim (Bool-cases (str_eq "server" name)) [
  | inl server ↦
      let same : "server" ≡ name = (eq_iff "server" name).0 server in
      rw (lookup-set, lookup-remove, server, sym same) refl
  | inr other ↦
      rw
        (
          lookup-set, lookup-remove, other, lookup-set, lookup-set, lookup-set, lookup-set,
          lookup-set, lookup-set, lookup-set,
        )
        refl
]
