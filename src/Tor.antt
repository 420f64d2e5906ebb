-- ===== src/Tor.antt =====
-- The hidden service's files, src/tor.rs.
--
-- What `std::fs` and the environment give is a `Files`: the error of an operation is its text. The
-- checks return the result and what was done to the data directory.
pub mod Anonymity
use Prim.Native.String
use torpc.Common.{
  ℕ, zero, suc, ◌+◌, ◌%◌, ◌≡◌, String, Bool, true, false, not, ◌&&◌, ◌||◌, List, [], ◌∷◌, ◌++◌,
  Option, none, some, Result, ok, err, ◌==◌, str_eq, if◌then◌else◌, decimal, and_then, or_else,
  head?, is_empty_text, trim, split_whitespace, before_mark, lines, ends_with, octal,
}

pub record TorService : Type 0 where
  pub hostname_path : String
  pub config_path : String

unfoldable pub new : TorService
new = record { hostname_path = "./data/tor/torpc/hostname"; config_path = "./configs/torrc" }

-- Whether a path exists, what reading it gives, the variable TORPC_ALLOW_NON_ANONYMOUS, and what the
-- operations on the data directory give; `mode` is the mode of the directory afterwards.
pub record Files : Type 0 where
  pub exists : String → Bool
  pub read_to_string : String → Result String String
  pub allow_non_anonymous : Option String
  pub create_dir_all : Result String (Unit {0})
  pub set_permissions : Result String (Unit {0})
  pub mode : Result String ℕ

pub data Action : Type 0 where
  created : Action
  tightened : Action

abbrev pub data_dir : String
data_dir = "./data/tor/torpc"

-- A line of the torrc without its comment.
abbrev pub uncommented : String → String
uncommented raw = trim (before_mark b'#' raw)

abbrev pub second? : List String → Option String
second? [] = none
second? (w ∷ ws) = head? ws

-- The match of key and value in `check_configuration`.
abbrev pub is_disabling : String → String → Bool
is_disabling key val =
    (str_eq key "HiddenServiceSingleHopMode" && str_eq val "1")
    || (str_eq key "HiddenServiceNonAnonymousMode" && str_eq val "1")

unfoldable pub is_anonymity_disabling : String → Bool
is_anonymity_disabling line =
    let tokens = split_whitespace line in
    is_disabling (or_else (head? tokens) "") (or_else (second? tokens) "")

abbrev pub refusal : ℕ → String → String
refusal idx line = String.◌++◌ "torrc line " (
    String.◌++◌ (decimal (idx + 1)) (
      String.◌++◌ ": '" (
        String.◌++◌ line
          "' disables Tor anonymity. Set TORPC_ALLOW_NON_ANONYMOUS=1 if this is intentional (e.g. for benchmarking).")))

-- The loop over the lines, from the line `idx` on.
unfoldable pub check_lines : Bool → ℕ → List String → Result String (Unit {0})
unfolding is_anonymity_disabling
check_lines allow_override idx [] = ok tt
check_lines allow_override idx (raw ∷ rest) =
    let line = uncommented raw in
    let more = check_lines allow_override (idx + 1) rest in
    if is_empty_text line
    then more
    else if is_anonymity_disabling line && not allow_override
    then err (refusal idx line)
    else more

-- The permissions of the data directory, tightened and looked at.
unfoldable pub tighten : Files → List Action → Result String (Unit {0}) × List Action
tighten fs done = elim fs.set_permissions [
  | err e ↦ (err "Failed to set Tor directory permissions to 0700", done)
  | ok u ↦ elim fs.mode [
    | err e ↦ (err "Failed to read Tor data directory metadata", done ++ tightened ∷ [])
    | ok mode ↦ if mode % 512 == 448 then (ok tt, done ++ tightened ∷ []) else (
      err (
          String.◌++◌ "Tor data directory at " (
            String.◌++◌ data_dir (
              String.◌++◌ " has mode " (
                String.◌++◌ (octal (mode % 512))
                  ", expected 0700; refusing to start (the filesystem may not honour permissions)")))),
      done ++ tightened ∷ [],
    )
  ]
]

-- The data directory, made where it is missing.
unfoldable pub ensure_data_dir : Files → Result String (Unit {0}) × List Action
unfolding tighten
ensure_data_dir fs =
    let made = elim fs.create_dir_all as (λ _. Result String (Unit {0}) × List Action) [
      | err e ↦ (err "Failed to create Tor data directory", [])
      | ok u ↦ tighten fs (created ∷ [])
    ] in
    if not (fs.exists data_dir) then made else tighten fs []

unfoldable pub check_configuration : TorService → Files → Result String (Unit {0}) × List Action
unfolding check_lines ensure_data_dir
check_configuration tor fs =
    let audited =
      elim (fs.read_to_string tor.config_path) as (λ _. Result String (Unit {0}) × List Action) [
        | err e ↦ (err "Failed to read torrc for anonymity check", [])
        | ok torrc ↦
            elim (check_lines (str_eq (or_else fs.allow_non_anonymous "") "1") 0 (lines torrc)) [
              | err e ↦ (err e, [])
              | ok u ↦ ensure_data_dir fs
            ]
      ] in
    if not (fs.exists tor.config_path) then (ok tt, []) else audited

unfoldable pub get_hostname : TorService → Files → Result String (Option String)
get_hostname tor fs =
    let read = elim (fs.read_to_string tor.hostname_path) as (λ _. Result String (Option String)) [
      | err e ↦ err "Failed to read hostname file"
      | ok text ↦
          let hostname = trim text in
          if is_empty_text hostname
          then ok none
          else if not (ends_with hostname ".onion")
          then err (String.◌++◌ "Invalid hostname format: " hostname)
          else ok (some hostname)
    ] in
    if not (fs.exists tor.hostname_path) then ok none else read

unfoldable pub get_onion_url : TorService → Files → String → Result String (Option String)
unfolding get_hostname
get_onion_url tor fs path = elim (get_hostname tor fs) [
  | err e ↦ err e
  | ok none ↦ ok none
  | ok (some hostname) ↦ ok (some (String.◌++◌ "http://" (String.◌++◌ hostname path)))
]

unfoldable pub is_running : TorService → Files → Bool
is_running tor fs = fs.exists tor.hostname_path
