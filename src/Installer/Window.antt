-- ===== src/Installer/Window.antt =====
-- sentinel/src/installer/gui_windows.go: the installer's window, its labels and its buttons. What
-- Windows answers is an input; what a handler does to the system is the list of its acts.
pub mod KeyText
pub mod Desktop
pub mod Texts
pub mod Clicks
pub mod Launch
pub mod Controls
pub mod Layout
pub mod Dialogs
pub mod Frame
pub mod Access
use remote_pc_controller.Prelude.{
  ℕ, Bool, true, false, not, ◌&&◌, ◌||◌, Option, none, some, List, [], ◌∷◌, ◌++◌, ◌==◌, ltb,
  if◌then◌else◌,
}
use remote_pc_controller.Prelude.Decimal.{show}
use remote_pc_controller.Prelude.Dict.{Dict}
use remote_pc_controller.Prelude.Int.{pos}
use remote_pc_controller.Prelude.Text.{Text, codes, is_empty, trim_space}
use remote_pc_controller.Errors.{Error, Result, ok, err, kind, message}
use remote_pc_controller.DotEnv.{ConfigError, get}
use remote_pc_controller.Sentinel.Keys.{KeyFormats, KeyInfo, inspect_public_key}
use remote_pc_controller.Installer.{State, stopped, running, state_string, parse_port}

-- guiState, with the texts of its controls, whether its check boxes are checked, and whether its
-- buttons are enabled.
pub record Window : Type 0 where
  pub port : Text
  pub device : Text
  pub skew : Text
  pub key : Text
  pub firewall : Bool
  pub notify : Bool
  pub status_pill : Text
  pub port_status : Text
  pub key_status : Text
  pub log_line : Text
  pub can_install : Bool
  pub can_start : Bool
  pub can_stop : Bool
  pub can_uninstall : Bool
  pub service_running : Bool
  pub service_pid : ℕ

-- What the service manager answers to `updateServiceStatus`.
pub data Scm : Type 0 where
  no_manager no_service query_error : Scm
  status : State → ℕ → Scm

abbrev with_buttons : Bool → Bool → Bool → Bool → Window → Window
with_buttons install start stop uninstall w = record w {
  can_install = install;
  can_start = start;
  can_stop = stop;
  can_uninstall = uninstall;
}

abbrev pid_text : ℕ → Text
pid_text pid = if ltb 0 pid then codes " (PID: " ++ (show (pos pid) ++ codes ")") else []

-- The answer to the query.
show_state : State → ℕ → Window → Window
unfolding show state_string
show_state s pid w =
    if s == running
    then with_buttons true false true true (record w {
      service_running = true;
      service_pid = pid;
      status_pill = codes "🟢 En Ejecución" ++ pid_text pid;
    })
    else if s == stopped
    then with_buttons true true false true
        (record w { service_running = false; service_pid = 0; status_pill = codes "🔴 Detenido" })
    else with_buttons true false true true
        (record w { service_running = false; status_pill = codes "🟡 " ++ state_string s })

-- updateServiceStatus
unfoldable pub update_service_status : Scm → Window → Window
unfolding show_state
update_service_status no_manager w =
    with_buttons true false false false
      (record w { service_running = false; status_pill = codes "⚪ Acceso SCM requerido" })
update_service_status no_service w =
    with_buttons true false false false
      (record w { service_running = false; status_pill = codes "⚪ No Instalado" })
update_service_status query_error w = record w { status_pill = codes "⚪ Error al consultar estado" }
update_service_status (status s pid) w = show_state s pid w

-- CheckPortAvailable, on what `net.Listen` returns for the port.
unfoldable pub check_port_available : (ℕ → Option Text) → ℕ → Option Text
unfolding show
check_port_available listen port = elim (listen port) [
  | some e ↦ some (
      codes "el puerto "
      ++ (show (pos port)
          ++ (codes " ya está en uso por otra aplicación o bloqueado en 0.0.0.0: " ++ e)))
  | none ↦ none
]

-- The label for a port in range.
port_label : (ℕ → Option Text) → Bool → ℕ → Text
unfolding show check_port_available
port_label listen true port =
    codes "🟢 En uso activo por este servicio (0.0.0.0:" ++ (show (pos port) ++ codes ")")
port_label listen false port = elim (check_port_available listen port) [
  | some e ↦ codes "❌ Ocupado por otra app en 0.0.0.0:" ++ show (pos port)
  | none ↦ codes "✅ Puerto " ++ (show (pos port) ++ codes " disponible en todas las IPs (0.0.0.0)")
]

-- The sign and the selector of its form.
abbrev warning_sign : Text
warning_sign = codes "⚠" ++ 0xFE0F ∷ []

-- validatePortLive; its test of the number is the one of `ParsePort`.
unfoldable pub validate_port_live : (ℕ → Option Text) → Window → Window
unfolding trim_space parse_port port_label
validate_port_live listen w =
    let port = parse_port (trim_space w.port) in
    record w {
      port_status =
          if is_empty (trim_space w.port)
          then warning_sign ++ codes " Ingresa un puerto (1-65535)"
          else if port == 0
          then codes "❌ Puerto inválido (rango permitido: 1 a 65535)"
          else port_label listen w.service_running port;
    }

-- No error of a key's text is a missing file.
abbrev pub error_text : Error ConfigError → Text
error_text e = message (λ s. []) e

module _ {PublicKey : Type 0} (keys : KeyFormats PublicKey) where
  -- The label for a key; `none` is a panic.
  key_label : Result ConfigError (KeyInfo PublicKey) → Option Text
  unfolding show
  key_label (ok i) = some (
      codes "✅ Clave RSA válida: "
      ++ (show (pos i.bits)
          ++ (codes " bits ("
              ++ ((if i.is_single_line
                    then codes "línea única con escapes"
                    else codes "multilínea tradicional")
                  ++ (codes " - " ++ (i.format_type ++ codes ")"))))))
  key_label (err e) = elim (kind e) [
    | some ConfigError.panic ↦ none
    | some ConfigError.not_exist ↦ some (codes "❌ Formato RSA inválido: " ++ error_text e)
    | none ↦ some (codes "❌ Formato RSA inválido: " ++ error_text e)
  ]

  abbrev with_key_status : Window → Option Text → Option Window
  with_key_status w none = none
  with_key_status w (some t) = some (record w { key_status = t })

  -- validateKeyLive; `none` is a panic.
  unfoldable pub validate_key_live : Window → Option Window
  unfolding trim_space key_label inspect_public_key
  validate_key_live w =
      let raw = trim_space w.key in
      if is_empty raw
      then some
          (record w { key_status = warning_sign ++ codes " Ingresa o carga la Clave Pública RSA" })
      else with_key_status w (key_label (inspect_public_key keys raw))
