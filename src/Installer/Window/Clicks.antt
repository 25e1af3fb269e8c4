-- ===== src/Installer/Window/Clicks.antt =====
-- `handleButtonClick` and `wndProc` of sentinel/src/installer/gui_windows.go: what the window does on
-- a message.
pub mod Consistent
pub mod Kept
pub mod Refused
pub mod Installs
use remote_pc_controller.Prelude.{
  ℕ, ◌/◌, ◌%◌, Bool, true, false, ◌&&◌, Option, none, some, List, [], ◌∷◌, ◌++◌, ◌==◌, ltb,
  if◌then◌else◌,
}
use remote_pc_controller.Prelude.Decimal.{show}
use remote_pc_controller.Prelude.Int.{pos}
use remote_pc_controller.Prelude.Text.{Text, codes, is_empty, trim_space}
use remote_pc_controller.Errors.{Result, ok, err, kind}
use remote_pc_controller.DotEnv.{ConfigError}
use remote_pc_controller.Sentinel.Keys.{KeyFormats, validate_public_key_pem}
use remote_pc_controller.Installer.{parse_port, start, stop, install, uninstall}
use remote_pc_controller.Installer.Window.{
  Window, update_service_status, check_port_available, validate_port_live, validate_key_live,
  error_text,
}
use remote_pc_controller.Installer.Window.KeyText.{Extract, panics, found}
use remote_pc_controller.Installer.Window.Desktop.{
  Box, invalid_port, key_required, confirm_uninstall, invalid_key, install_failed, start_failed,
  stop_failed, uninstall_failed, port_unavailable, cannot_start, Act, boxed, quit, Desktop, Click,
  returns, after, effects, set_log, save_current_env, on_file, rule_acts,
}
use remote_pc_controller.Installer.Window.Texts.{
  port_text, command_line, installed_line, started_line, trouble_box, key_text,
}

module _ {PublicKey : Type 0} (keys : KeyFormats PublicKey) where
  -- The three calls that end a handler: they show the state of the service, the port and the key.
  refresh : Desktop → Window → Click
  unfolding update_service_status validate_port_live validate_key_live
  refresh d w = record {
    window =
        validate_key_live keys (validate_port_live d.listen_after (update_service_status d.seen w));
    acts = [];
  }

  -- The key is shown, with a line of the log.
  show_key : Desktop → Window → Text → Extract → Click
  unfolding set_log validate_key_live
  show_key d w line panics = record { window = none; acts = [] }
  show_key d w line (found t) = record {
    window = validate_key_live keys (set_log d.time line (record w { key = t }));
    acts = [];
  }

  -- The button that loads a file, on the chosen one.
  click_load : (Text → Text) → Desktop → Window → Option (Text × Text) → Click
  unfolding key_text show_key
  click_load base d w none = returns w []
  click_load base d w (some (path, text)) =
      show_key d w (codes "Archivo cargado: " ++ base path) (key_text text)

  -- The button that pastes.
  click_paste : Desktop → Window → Click
  unfolding key_text show_key
  click_paste d w =
      if is_empty d.clipboard
      then returns w []
      else show_key d w (codes "Clave pegada desde el portapapeles.") (key_text d.clipboard)

  -- The start behind an installation, on what `start` returned.
  started_after_install : Desktop → Window → ℕ → Option Text → Click
  unfolding set_log refresh installed_line
  started_after_install d w port r = refresh d (set_log d.time (installed_line port r) w)

  -- What follows `install`, on what it returned.
  after_install : Desktop → Window → ℕ → Option Text → Click
  unfolding set_log start started_after_install
  after_install d w port (some e) =
      returns (set_log d.time (codes "Error al instalar: " ++ e) w) (boxed (install_failed e) ∷ [])
  after_install d w port none =
      after ((if w.firewall then rule_acts d port else []) ++ effects ((start d.at_start).1))
        (started_after_install d w port ((start d.at_start).0))

  -- The installation, on a port that is free.
  install_on : Desktop → Window → ℕ → Click
  unfolding set_log save_current_env on_file install after_install show
  install_on d w port =
      let m = on_file d w in
      after (save_current_env d w ++ effects ((install m).1)) (
        after_install d
          (set_log d.time
            (codes "Puerto "
              ++ (port_text port ++ codes " verificado. Guardando e instalando servicio..."))
            w)
          port ((install m).0))

  -- The installation, on what `CheckPortAvailable` returned.
  install_if_free : Desktop → Window → ℕ → Option Text → Click
  unfolding install_on
  install_if_free d w port (some e) = returns w (boxed (port_unavailable port e) ∷ [])
  install_if_free d w port none = install_on d w port

  -- The installation, on a key that is one: the old service is stopped, and the port must be free.
  install_checked : Desktop → Window → ℕ → Click
  unfolding stop check_port_available install_if_free
  install_checked d w port =
      after (effects ((stop d.at_stop).1))
        (install_if_free d w port (check_port_available d.listen port))

  -- A key that is refused, or panics.
  refuse_key : Window → Text → Option ConfigError → Click
  refuse_key w t (some ConfigError.panic) = record { window = none; acts = [] }
  refuse_key w t (some ConfigError.not_exist) = returns w (boxed (invalid_key t) ∷ [])
  refuse_key w t none = returns w (boxed (invalid_key t) ∷ [])

  -- On what `ValidatePublicKeyPEM` returned.
  install_with_key : Desktop → Window → ℕ → Result ConfigError PublicKey → Click
  unfolding install_checked refuse_key
  install_with_key d w port (ok k) = install_checked d w port
  install_with_key d w port (err e) = refuse_key w (error_text e) (kind e)

  -- The button that installs.
  unfoldable pub click_install : Desktop → Window → Click
  unfolding parse_port trim_space validate_public_key_pem install_with_key
  click_install d w =
      let port = parse_port (trim_space w.port) in
      let key = trim_space w.key in
      if port == 0
      then returns w (boxed invalid_port ∷ [])
      else if is_empty key
      then returns w (boxed key_required ∷ [])
      else install_with_key d w port (validate_public_key_pem keys key)

  -- What follows `start`, on what it returned.
  after_start : Desktop → Window → ℕ → Option Text → Click
  unfolding set_log refresh started_line
  after_start d w port r =
      after (trouble_box start_failed r) (refresh d (set_log d.time (started_line port r) w))

  -- The start on a port that is free, or is none.
  start_on : Desktop → Window → ℕ → Click
  unfolding set_log save_current_env start after_start
  start_on d w port =
      after
        (save_current_env d w
          ++ ((if w.firewall && ltb 0 port then rule_acts d port else [])
              ++ effects ((start d.at_start).1)))
        (after_start d (set_log d.time (codes "Iniciando servicio...") w) port
          ((start d.at_start).0))

  -- The start, on what `CheckPortAvailable` returned.
  start_if_free : Desktop → Window → ℕ → Option Text → Click
  unfolding start_on
  start_if_free d w port (some e) = returns w (boxed (cannot_start port e) ∷ [])
  start_if_free d w port none = start_on d w port

  -- The button that starts: a port out of range is not looked at.
  unfoldable pub click_start : Desktop → Window → Click
  unfolding parse_port trim_space check_port_available start_if_free
  click_start d w =
      let port = parse_port (trim_space w.port) in
      if port == 0
      then start_on d w port
      else start_if_free d w port (check_port_available d.listen port)

  -- What follows a command, on what it returned.
  after_command : Desktop → Window → (Text → Box) → Text → Text → Option Text → Click
  unfolding set_log refresh command_line
  after_command d w box trouble success r =
      after (trouble_box box r) (refresh d (set_log d.time (command_line trouble success r) w))

  -- The button that stops.
  click_stop : Desktop → Window → Click
  unfolding stop after_command set_log
  click_stop d w = after (effects ((stop d.at_stop).1)) (
      after_command d (set_log d.time (codes "Deteniendo servicio...") w) stop_failed
        (codes "Error al detener: ") (codes "Servicio detenido.") ((stop d.at_stop).0))

  -- The button that removes the service.
  click_uninstall : Desktop → Window → Click
  unfolding uninstall after_command set_log
  click_uninstall d w = after (boxed confirm_uninstall ∷ []) (
      if d.confirmed
      then after (effects ((uninstall d.at_uninstall).1)) (
          after_command d (set_log d.time (codes "Desinstalando servicio...") w) uninstall_failed
            (codes "Error al desinstalar: ") (codes "Servicio desinstalado correctamente.")
            ((uninstall d.at_uninstall).0))
      else returns w [])

  -- handleButtonClick; `base` is filepath.Base.
  unfoldable pub handle_button_click : (Text → Text) → ℕ → Desktop → Window → Click
  unfolding click_load click_paste click_install click_start click_stop click_uninstall
  handle_button_click base id d w =
      if id == 105
      then click_load base d w d.chosen_file
      else if id == 106
      then click_paste d w
      else if id == 101
      then click_install d w
      else if id == 102
      then click_start d w
      else if id == 103
      then click_stop d w
      else if id == 104
      then click_uninstall d w
      else returns w []

  -- The messages with a code: a button, or a text that changed.
  command : (Text → Text) → ℕ → ℕ → Desktop → Window → Click
  unfolding handle_button_click validate_port_live validate_key_live
  command base id code d w =
      if code == 0
      then handle_button_click base id d w
      else if code == 0x0300 && id == 201
      then returns (validate_port_live d.listen w) []
      else if code == 0x0300 && id == 204
      then record { window = validate_key_live keys w; acts = [] }
      else returns w []

  -- wndProc, without the drawing: a message and its first parameter.
  unfoldable pub wnd_proc : (Text → Text) → ℕ → ℕ → Desktop → Window → Click
  unfolding command update_service_status
  wnd_proc base msg w_param d w =
      if msg == 0x0111
      then command base (w_param % 65536) ((w_param / 65536) % 65536) d w
      else if msg == 0x0113
      then returns (update_service_status d.seen w) []
      else if msg == 0x0002
      then returns w (quit ∷ [])
      else returns w []
