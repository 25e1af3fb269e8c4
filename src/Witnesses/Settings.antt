-- ===== src/Witnesses/Settings.antt =====
-- Witnesses for the theorems on the configurations, the runtimes and the installer.
use remote_pc_controller.Prelude.{
  ℕ, ◌≤◌, true, none, some, List, [], ◌∷◌, ◌++◌, ◌≡◌, ◌≢◌, ◌↔◌, ◌⊎◌, inl, inr, refl,
}
use remote_pc_controller.Prelude.Decimal.{parse_int, scan_all, scan, to_int64}
use remote_pc_controller.Prelude.Dict.{lookup, insert, remove}
use remote_pc_controller.Prelude.Int.{pos}
use remote_pc_controller.Prelude.Text.{
  Text, codes, equal, trim_space, trim_left, trim_right, trim_onto, is_space, trim_suffix,
  ends_with, drop_last, has_prefix, split_once,
}
use remote_pc_controller.Errors.{ok, err, sentinel}
use remote_pc_controller.DotEnv.{
  ConfigError, get, read_dot_env, parse_dot_env, split_lines, parse_lines, parse_line, outside,
  assignment, entry, plain_value, before_pair, finish, replace_pair, double_quote, single_quote,
}
use remote_pc_controller.Sentinel.Config
use remote_pc_controller.Sentinel.Config.{public_key, parse_bool}
use remote_pc_controller.Sentinel.Keys
use remote_pc_controller.Sentinel.Keys.{
  AnyKey, rsa, unquote, single_line, inspect_public_key, validate_public_key_pem,
}
use remote_pc_controller.Sentinel.Keys.Panics.{inspect_panics_iff}
use remote_pc_controller.Sentinel.Config.Loading
use remote_pc_controller.Sentinel.Config.Loading.{load-IsUsable}
use remote_pc_controller.Relay.Config as RelayConfig
use remote_pc_controller.Relay.Config.Loading as RelayLoading
use remote_pc_controller.Relay.Config.Loading.{relay_load-IsUsable}
use remote_pc_controller.Relay.Config.{value_or, lookup_setting, file_values, load_private_key}
use remote_pc_controller.Installer.{
  Machine, Answer, state, running, start, install, replaced, create_service, set_recovery,
  add_event_source, remove_rule, add_rule,
}
use remote_pc_controller.Installer.Waiting.{Reaches, IsOpened, start_iff, install_iff}

abbrev pub sentinel_keys : Keys.KeyFormats ℕ
sentinel_keys = record {
  pem_decode = λ t. some t;
  parse_pkix = λ t. inr (rsa 7);
  parse_pkcs1 = λ t. none;
  bit_length = λ k. 2048;
}

abbrev sentinel_file : Text
sentinel_file = codes "PORT=80\nDEVICE_ID=pc\nPUBLIC_KEY=k\n"

abbrev pub sentinel_config : Config.Config ℕ
sentinel_config = record {
  listen_addr = codes ":80";
  device_id = codes "pc";
  public_key = 7;
  max_body_bytes = pos 65536;
  clock_skew_sec = pos 5;
  enable_notifications = true;
}

sentinel_loads : Config.load sentinel_keys (codes ".env") (ok sentinel_file) ≡ ok sentinel_config
unfolding Config.load read_dot_env parse_dot_env split_lines parse_lines parse_line outside
    assignment entry plain_value before_pair finish trim_space trim_left trim_right trim_onto
    is_space trim_suffix ends_with drop_last has_prefix split_once insert remove lookup equal get
    parse_int scan_all scan to_int64 public_key validate_public_key_pem inspect_public_key unquote
    single_line parse_bool
sentinel_loads = refl

load-IsUsable_example : Loading.IsUsable sentinel_config
load-IsUsable_example = load-IsUsable sentinel_keys (codes ".env") (ok sentinel_file) sentinel_loads

inspect_panics_iff_example :
    (inspect_public_key sentinel_keys (codes " '") ≡ err (sentinel ConfigError.panic)) ↔ (
      (trim_space (codes " '") ≡ double_quote ∷ []) ⊎ (trim_space (codes " '") ≡ single_quote ∷ []))
inspect_panics_iff_example = inspect_panics_iff sentinel_keys (codes " '")

abbrev relay_keys : RelayConfig.KeyFormats ℕ
relay_keys = record {
  pem_decode = λ t. some t;
  parse_pkcs1 = λ t. some 7;
  parse_pkcs8 = λ t. inl [];
}

abbrev relay_file : Text
relay_file = codes "API_SECRET=s\nDEVICE_ID=pc\nSENTINEL_URL=u\nPRIVATE_KEY=k"

abbrev no_environment : Text → Text
no_environment key = []

abbrev relay_config : RelayConfig.Config ℕ
relay_config = record {
  listen_addr = codes ":8080";
  api_secret = codes "s";
  device_id = codes "pc";
  sentinel_url = codes "u";
  private_key = 7;
  validity_seconds = pos 30;
  max_body_bytes = pos 16384;
}

relay_loads :
    RelayConfig.load relay_keys no_environment (codes ".env") true (ok relay_file) ≡ ok relay_config
unfolding RelayConfig.load file_values lookup_setting load_private_key value_or replace_pair
    read_dot_env parse_dot_env split_lines parse_lines parse_line outside assignment entry
    plain_value before_pair finish trim_space trim_left trim_right trim_onto is_space trim_suffix
    ends_with drop_last has_prefix split_once insert remove lookup equal
relay_loads = refl

relay_load-IsUsable_example : RelayLoading.IsUsable relay_config
relay_load-IsUsable_example =
    relay_load-IsUsable relay_keys no_environment (codes ".env") true (ok relay_file) relay_loads

abbrev sample_polls : List Answer
sample_polls = state 2 ∷ state 4 ∷ []

abbrev pub machine : Machine
machine = record {
  is_admin = true;
  executable = none;
  connect = none;
  open_service = none;
  query = state 1;
  control = none;
  start_service = none;
  polls = sample_polls;
  delete = none;
  port = codes "80";
  listen = none;
  create = none;
  recovery = none;
  add_source = some (codes "exists");
  remove_source = none;
  delete_rule = none;
  open_rule = none;
}

start_iff_example : ((start machine).0 ≡ none) ↔ (
    IsOpened machine
    × ((machine.query ≡ state running)
        ⊎ ((machine.query ≢ state running)
            × (machine.start_service ≡ none)
            × Reaches running machine.polls)))
start_iff_example = start_iff machine

install_iff_example : ((install machine).0 ≡ none) ↔ (
    (machine.is_admin ≡ true)
    × (machine.executable ≡ none)
    × (machine.connect ≡ none)
    × (machine.listen ≡ none)
    × (machine.create ≡ none)
    × ((p : ℕ) × (1 ≤ p)
        × (p ≤ 65535)
        × ((install machine).1
            ≡ replaced machine
              ++ create_service
                ∷ set_recovery machine.recovery
                ∷ add_event_source machine.add_source
                ∷ remove_rule machine.delete_rule
                ∷ add_rule p machine.open_rule
                ∷ [])))
install_iff_example = install_iff machine
