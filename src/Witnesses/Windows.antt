-- ===== src/Witnesses/Windows.antt =====
-- Witnesses for the theorems on the installer's window.
use remote_pc_controller.Prelude.{
  Bool, true, false, not, ◌&&◌, none, some, List, [], ◌∷◌, ◌++◌, ◌≡◌, inl, refl, arith,
}
use remote_pc_controller.Prelude.Decimal.{parse_int, scan_all, scan, to_int64, show, show_ℕ, digits}
use remote_pc_controller.Prelude.Dict.{lookup, insert, remove}
use remote_pc_controller.Prelude.Text.{
  Text, codes, equal, trim_space, trim_left, trim_right, trim_onto, is_space, ends_with, has_prefix,
}
use remote_pc_controller.Errors.{ok, err, sentinel}
use remote_pc_controller.DotEnv.{ConfigError, get, read_dot_env}
use remote_pc_controller.Sentinel.Keys.{
  validate_public_key_pem, inspect_public_key, unquote, single_line,
}
use remote_pc_controller.Sentinel.Saving.RoundTrip.{IsSavable}
use remote_pc_controller.Sentinel.Saving.{default_values, load_with_defaults}
use remote_pc_controller.Installer.{
  Machine, state, parse_port, install, Effect, stop_signal, start_signal,
}
use remote_pc_controller.Installer.Signals.{IsSignal, TakesStop, TakesStart, IsReplacing}
use remote_pc_controller.Installer.Window.{
  Window, no_service, update_service_status, validate_port_live, validate_key_live,
}
use remote_pc_controller.Installer.Window.KeyText.{
  begin_public, end_public, found, panics, extract_public_key_from_text,
}
use remote_pc_controller.Installer.Window.KeyText.Between.{
  NoneBefore, extract-between, extract-panics,
}
use remote_pc_controller.Installer.Window.Desktop.{Desktop, on_file, window_values}
use remote_pc_controller.Installer.Window.Clicks.{click_install, wnd_proc}
use remote_pc_controller.Installer.Window.Clicks.Consistent.{IsConsistent}
use remote_pc_controller.Installer.Window.Clicks.Installs.{install_acts, click_install-opens}
use remote_pc_controller.Installer.Window.Clicks.Refused.{OnlyTells, click_install-OnlyTells}
use remote_pc_controller.Installer.Window.Launch.{
  message, launch, message_loop, values_shown, create_controls,
}
use remote_pc_controller.Installer.Window.Launch.Reachable.{message_loop-IsConsistent}
use remote_pc_controller.Witnesses.Settings.{sentinel_keys}
use remote_pc_controller.Witnesses.Saves.{machine_name, typed-IsSavable}

abbrev admin_machine : Machine
admin_machine = record {
  is_admin = true;
  executable = none;
  connect = none;
  open_service = some (codes "no service");
  query = state 1;
  control = none;
  start_service = none;
  polls = state 4 ∷ [];
  delete = none;
  port = [];
  listen = none;
  create = none;
  recovery = none;
  add_source = some (codes "exists");
  remove_source = none;
  delete_rule = none;
  open_rule = none;
}

-- The old service runs, and takes the signal.
abbrev old_machine : Machine
old_machine = record admin_machine { open_service = none; query = state 4; polls = state 1 ∷ [] }

-- The new service does not run yet.
abbrev new_machine : Machine
new_machine = record admin_machine { open_service = none }

abbrev desktop : Desktop
desktop = record {
  at_stop = old_machine;
  at_install = admin_machine;
  at_start = new_machine;
  at_uninstall = admin_machine;
  listen = λ p. none;
  listen_after = λ p. none;
  seen = no_service;
  host = machine_name;
  env_path = codes ".env";
  write_error = none;
  env_file = err (sentinel ConfigError.not_exist);
  confirmed = true;
  chosen_file = none;
  clipboard = [];
  rule_deleted = none;
  rule_added = none;
  time = codes "12:00:00";
}

abbrev window_of : Text → Text → Window
window_of port key = record {
  port = port;
  device = codes "pc";
  skew = codes "5";
  key = key;
  firewall = true;
  notify = true;
  status_pill = [];
  port_status = [];
  key_status = [];
  log_line = [];
  can_install = true;
  can_start = false;
  can_stop = false;
  can_uninstall = false;
  service_running = false;
  service_pid = 0;
}

no_port : parse_port (trim_space (codes "0")) ≡ 0
unfolding parse_port parse_int scan_all scan to_int64 trim_space trim_left trim_right trim_onto
    is_space
no_port = refl

click_install-OnlyTells_example :
    OnlyTells (click_install sentinel_keys desktop (window_of (codes "0") (codes "k"))).acts
click_install-OnlyTells_example =
    click_install-OnlyTells sentinel_keys desktop (window_of (codes "0") (codes "k")) (inl no_port)

abbrev none_before : Text → Text → Text → Bool
none_before [] t needle = true
none_before (c ∷ pre) t needle =
    not (has_prefix (c ∷ (pre ++ t)) needle) && none_before pre t needle

none_before-NoneBefore :
    (pre t needle : Text) → none_before pre t needle ≡ true → NoneBefore pre t needle
none_before-NoneBefore [] t needle h = tt
none_before-NoneBefore (c ∷ pre) t needle h =
    (ground arith, none_before-NoneBefore pre t needle (ground arith))

extract-between_example :
    extract_public_key_from_text
      (codes "x " ++ (begin_public ++ (codes "k" ++ (end_public ++ codes " y"))))
    ≡ found (begin_public ++ (codes "k" ++ end_public))
unfolding has_prefix
extract-between_example =
    extract-between (codes "x ") (codes "k") (codes " y")
      (none_before-NoneBefore (codes "x ")
        (begin_public ++ (codes "k" ++ (end_public ++ codes " y"))) begin_public refl)
      (none_before-NoneBefore (codes "x " ++ (begin_public ++ codes "k")) (end_public ++ codes " y")
        end_public refl)

extract-panics_example :
    extract_public_key_from_text (codes "x" ++ (end_public ++ (codes " " ++ (begin_public ++ []))))
    ≡ panics
unfolding has_prefix
extract-panics_example =
    extract-panics (codes "x") (codes " ") [] (λ e. cc)
      (none_before-NoneBefore (codes "x") (end_public ++ (codes " " ++ (begin_public ++ [])))
        end_public refl)
      (none_before-NoneBefore (codes "x" ++ (end_public ++ codes " ")) (begin_public ++ [])
        begin_public refl)

typed_port : parse_port (trim_space (codes "80")) ≡ 80
unfolding parse_port parse_int scan_all scan to_int64 trim_space trim_left trim_right trim_onto
    is_space
typed_port = refl

typed_key : validate_public_key_pem sentinel_keys (trim_space (codes "k")) ≡ ok 7
unfolding validate_public_key_pem inspect_public_key unquote single_line has_prefix ends_with
    trim_space trim_left trim_right trim_onto is_space
typed_key = refl

window-IsSavable : IsSavable machine_name (window_values (window_of (codes "80") (codes "k")))
unfolding window_values
window-IsSavable = typed-IsSavable

installs : (install (on_file desktop (window_of (codes "80") (codes "k")))).0 ≡ none
unfolding install on_file
installs = refl

click_install-opens_example :
    (stops olds starts : List Effect) × IsSignal (TakesStop old_machine) stop_signal stops
    × IsReplacing desktop.at_install olds
    × IsSignal (TakesStart new_machine) start_signal starts
    × ((click_install sentinel_keys desktop (window_of (codes "80") (codes "k"))).acts
        ≡ install_acts sentinel_keys desktop
            (window_of (codes "80") (codes "k"))
            80
            stops
            olds
            starts)
click_install-opens_example =
    click_install-opens sentinel_keys desktop (window_of (codes "80") (codes "k")) 7 80 typed_port
      (ground arith) typed_key refl refl window-IsSavable installs

abbrev shown_window : Window
shown_window = record (window_of (codes "9876") []) {
  firewall = true;
  notify = true;
  device = codes "pc";
  status_pill = codes "⚪ No Instalado";
  port_status = codes "✅ Puerto 9876 disponible en todas las IPs (0.0.0.0)";
  key_status = codes "⚠" ++ 0xFE0F ∷ codes " Ingresa o carga la Clave Pública RSA";
  log_line = codes "Listo.";
}

reached_window :
    message_loop sentinel_keys
      (λ p. p)
      (message 0x0113 1 desktop ∷ message 0x000F 0 desktop ∷ [])
      (launch sentinel_keys desktop [])
    ≡ some shown_window
unfolding message_loop wnd_proc launch values_shown load_with_defaults read_dot_env default_values
    get lookup equal create_controls update_service_status validate_port_live validate_key_live
    parse_port parse_int scan_all scan to_int64 trim_space trim_left trim_right trim_onto is_space
    show show_ℕ digits insert remove
reached_window = refl

message_loop-IsConsistent_example : IsConsistent shown_window
message_loop-IsConsistent_example =
    message_loop-IsConsistent sentinel_keys (λ p. p) desktop []
      (message 0x0113 1 desktop ∷ message 0x000F 0 desktop ∷ []) (λ e. cc) reached_window
