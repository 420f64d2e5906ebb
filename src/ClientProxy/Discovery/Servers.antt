-- ===== src/ClientProxy/Discovery/Servers.antt =====
-- The discovery servers of one process whose proxy is started more than once:
-- `start_discovery_server`, which `run` of torpc-proxy/torpc-proxy-core/src/proxy.rs calls.
--
-- `run` keeps the handle of the server's task in `_discovery`. Where `run` ends or is aborted the
-- handle is dropped, and dropping a handle of tokio does not end its task: the server goes on, and
-- keeps its port. The environment of the process stays as it is, so that the port does.
use Prim.Native.String
use torpc.Common.{
  Result-split, Option-cases, ◌≡◌, ap, ◌∙◌, inl, inr, arith, ℕ, String, Bool, true, List, [], ◌∷◌,
  Option, none, some, Result, ok, err, All, str_eq, eq_iff, if◌then◌else◌,
}
use torpc.External.{External}
use torpc.ClientProxy.Forward.{ProxyConfig}
use torpc.ClientProxy.Discovery.{
  generate_discovery_token, FileAction, written, restricted, persist_discovery_token,
  discovery_port, discovery_handler,
}
use torpc.ClientProxy.Discovery.Access.{is_provided_iff}

pub record Server : Type 0 where
  pub config : ProxyConfig
  pub token : String

-- The server that listens on the port, and what the file of the token holds.
pub record Discovery : Type 0 where
  pub server : Option Server
  pub file : Option String

-- A start of the proxy: its configuration, the random bytes, what writing the file and narrowing its
-- permissions give, whether no other process has the port, what binding the wallet's listener
-- gives, and the error of accepting a connection that ends the loop, where it ends.
pub record Launch : Type 0 where
  pub config : ProxyConfig
  pub bytes : List ℕ
  pub write : Result String (Unit {0})
  pub set_permissions : Result String (Unit {0})
  pub is_free : Bool
  pub bind : Result String (Unit {0})
  pub accept_error : String

abbrev pub token_of : Launch → String
token_of l = generate_discovery_token l.bytes

-- The file after what was done to it.
abbrev pub contents : Option String → List FileAction → Option String
contents file [] = file
contents file (written token ∷ actions) = contents (some token) actions
contents file (restricted ∷ actions) = contents file actions

-- `runtime_dir` and `temp_dir` are where the file of the token is.
module _ (env : String → Option String) (temp_dir : String) where
  unfoldable pub start_discovery_server : Launch → Discovery → Discovery
  start_discovery_server l d = elim (discovery_port env) [
    | none ↦ d
    | some port ↦
        let token = generate_discovery_token l.bytes in
        let persisted =
          persist_discovery_token (env "XDG_RUNTIME_DIR") temp_dir l.write l.set_permissions
            token in
        record {
          server = elim d.server [
            | some other ↦ some other
            | none ↦ if l.is_free then some (record { config = l.config; token = token }) else none
          ];
          file = contents d.file persisted.1;
        }
  ]

  -- How `run` ends, if it is not aborted first. It never ends without an error.
  unfoldable pub run : Launch → Discovery → Result String (Unit {0}) × Discovery
  run l d =
      let after = start_discovery_server l d in
      (
        elim l.bind [
          | err e ↦ err (String.◌++◌ "Failed to bind " l.config.listen_addr)
          | ok u ↦ err l.accept_error
        ],
        after,
      )

  -- The proxy is started so often, and stopped in between.
  unfoldable pub launches : List Launch → Discovery → Discovery
  launches [] d = d
  launches (l ∷ ls) d = launches ls (run l d).1

  abbrev pub last_token : Launch → List Launch → String
  last_token l [] = token_of l
  last_token l (next ∷ ls) = last_token next ls

  -- The file can be written.
  abbrev pub Writes : Launch → Type 0
  Writes l = l.write ≡ ok tt

  once :
      (l : Launch) (d : Discovery) (port : ℕ)
      → discovery_port env ≡ some port
      → Writes l
      → ((start_discovery_server l d).file ≡ some (token_of l))
        × ((start_discovery_server l d).server ≡ elim d.server as (λ _. Option Server) [
          | some other ↦ some other
          | none ↦
              if l.is_free then some (record { config = l.config; token = token_of l }) else none
        ])
  unfolding start_discovery_server persist_discovery_token
  once l d port enabled w = elim (Result-split l.set_permissions) [
    | inl (e, wide) ↦ elim (Option-cases d.server) [
      | inl idle ↦ ground (arith, enabled, w, wide, idle)
      | inr (s, busy) ↦ ground (arith, enabled, w, wide, busy)
    ]
    | inr (u, narrowed) ↦ elim (Option-cases d.server) [
      | inl idle ↦ ground (arith, enabled, w, narrowed, idle)
      | inr (s, busy) ↦ ground (arith, enabled, w, narrowed, busy)
    ]
  ]

  kept :
      (ls : List Launch) (l : Launch) (d : Discovery) (s : Server) (port : ℕ)
      → discovery_port env ≡ some port
      → All Writes ls
      → d.server ≡ some s
      → d.file ≡ some (token_of l)
      → ((launches ls d).server ≡ some s) × ((launches ls d).file ≡ some (last_token l ls))
  unfolding launches run
  kept [] l d s port enabled w here file = (here, file)
  kept (next ∷ ls) l d s port enabled (w, ws) here file =
      let (stored, same) = once next d port enabled w in
      kept ls next (start_discovery_server next d) s port enabled ws (same ∙ ground (arith, here))
        stored

  module _ (X : External) (render : External.Value X → String) (version : String) where
    -- The status of the answer to a client that has read the file of the token.
    abbrev pub status_for : Option String → Server → ℕ
    status_for file s =
        (discovery_handler X render version
          (record { method = "GET"; path = "/api/discovery"; token = file }) s.config
          s.token).status

    status_for-file :
        (t : String) (s : Server) → status_for (some t) s ≡ (if str_eq t s.token then 200 else 401)
    unfolding discovery_handler
    status_for-file t s =
        let provided = is_provided_iff X render version (some t) s.token in
        ground (arith, provided, eq_iff t s.token)

    -- However often the proxy is started and stopped in one process, the discovery server is that of
    -- the first start, with its configuration and its token, while the file holds the token of the
    -- last: a client that reads the file is answered 200 where the two tokens are equal, as after a
    -- single start, and 401 otherwise. Discovery is enabled, its port is free at first, and the file
    -- can be written each time.
    pub launches_stale :
        (first : Launch) (later : List Launch) (file : Option String) (port : ℕ)
        → discovery_port env ≡ some port
        → first.is_free ≡ true
        → All Writes (first ∷ later)
        → let d = launches (first ∷ later) (record { server = none; file = file }) in
          let s : Server = record { config = first.config; token = token_of first } in
          (d.server ≡ some s)
          × (d.file ≡ some (last_token first later))
          × (status_for d.file s
              ≡ (if str_eq (last_token first later) (token_of first) then 200 else 401))
    unfolding launches run
    launches_stale first later file port enabled free (w, ws) =
        let d0 : Discovery = record { server = none; file = file } in
        let s : Server = record { config = first.config; token = token_of first } in
        let (stored, bound) = once first d0 port enabled w in
        let here : (start_discovery_server first d0).server ≡ some s =
          bound ∙ ground (arith, free) in
        let (same, last) =
          kept later first (start_discovery_server first d0) s port enabled ws here stored in
        (same, last, ap (λ f. status_for f s) last ∙ status_for-file (last_token first later) s)
