-- ===== src/Tests/DaemonTests.antt =====
-- The daemon's configuration, its hidden service and the signed message on concrete inputs.
use torpc.Common.{
  ℕ, ◌≡◌, ◌⊎◌, ◌↔◌, refl, String, true, false, List, [], ◌∷◌, Option, none, some, ok, err, str_eq,
  if◌then◌else◌, decimal, lookup, trim, lines, before_mark, lower_codes, ends_with_codes,
  split_whitespace, ends_with,
}
use torpc.Tor
use torpc.Tor.{TorService, Files, check_configuration, check_lines, get_hostname, get_onion_url}
use torpc.Tor.Anonymity.{Admissible, Secured, check_configuration_iff}
use torpc.App.{serve_root, index_user, index_operator}

abbrev environment : String → Option String
environment name = lookup name (
    ("RATE_LIMIT_REQUESTS", decimal 500)
    ∷ ("RATE_LIMIT_WINDOW", decimal 30)
    ∷ ("WRITE_RATE_LIMIT_REQUESTS", decimal 4294967296)
    ∷ ("WRITE_RATE_LIMIT_WINDOW", decimal 60)
    ∷ [])

-- `serve_root_returns_user_html_for_onion_host`
onion_visitor : serve_root (some "ABC.onion:80") ≡ index_user
unfolding serve_root ends_with_codes lower_codes before_mark
onion_visitor = refl

-- `serve_root_returns_operator_html_for_localhost_host`
local_visitor : serve_root (some "127.0.0.1:8080") ≡ index_operator
unfolding serve_root ends_with_codes lower_codes before_mark
local_visitor = refl

abbrev torrc : String → Files
torrc text = record {
  exists = λ path. true;
  read_to_string = λ path. if str_eq path "./configs/torrc" then ok text else ok " abc.onion\n";
  allow_non_anonymous = none;
  create_dir_all = ok tt;
  set_permissions = ok tt;
  mode = ok 16832;
}

abbrev commented : Files
commented = torrc "SocksPort 9050\n# HiddenServiceSingleHopMode 1\n"

check_configuration_iff_example : ((check_configuration Tor.new commented).0 ≡ ok tt) ↔ (
    (commented.exists Tor.new.config_path ≡ false)
    ⊎ ((text : String) × (commented.read_to_string Tor.new.config_path ≡ ok text)
        × (Admissible commented text × Secured commented)))
check_configuration_iff_example = check_configuration_iff Tor.new commented

refused_line :
    check_lines false 0 (lines "SocksPort 9050\nHiddenServiceSingleHopMode 1\n")
    ≡ err
        "torrc line 2: 'HiddenServiceSingleHopMode 1' disables Tor anonymity. Set TORPC_ALLOW_NON_ANONYMOUS=1 if this is intentional (e.g. for benchmarking)."
unfolding check_lines lines trim before_mark split_whitespace decimal
refused_line = refl

url : get_onion_url Tor.new commented "/rpc" ≡ ok (some "http://abc.onion/rpc")
unfolding get_onion_url Tor.new trim ends_with
url = refl

abbrev body : List ℕ
body = 123 ∷ 125 ∷ []
