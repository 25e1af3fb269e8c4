-- ===== src/Installer/Window/Clicks/Kept.antt =====
-- Every handler of the window keeps its buttons in agreement.
use remote_pc_controller.Prelude.{
  ℕ, ◌/◌, ◌%◌, Bool, true, false, Option, none, some, ◌++◌, ◌&&◌, Bool-cases, inl, inr, ◌==◌,
  if◌then◌else◌,
}
use remote_pc_controller.Prelude.Decimal.{show}
use remote_pc_controller.Prelude.Int.{pos}
use remote_pc_controller.Prelude.Text.{Text, codes, is_empty, trim_space}
use remote_pc_controller.Errors.{Result, ok, err, kind}
use remote_pc_controller.DotEnv.{ConfigError}
use remote_pc_controller.Sentinel.Keys.{KeyFormats, validate_public_key_pem}
use remote_pc_controller.Installer.{parse_port, start, stop, install, uninstall}
use remote_pc_controller.Installer.Window.{
  Window, check_port_available, update_service_status, validate_port_live, error_text,
}
use remote_pc_controller.Installer.Window.KeyText.{Extract, panics, found}
use remote_pc_controller.Installer.Window.Desktop.{
  Desktop, Click, Box, set_log, on_file, stop_failed, uninstall_failed,
}
use remote_pc_controller.Installer.Window.Texts.{
  key_text, command_line, installed_line, started_line,
}
use remote_pc_controller.Installer.Window.Clicks.Consistent.{
  IsConsistent, Keeps, update_service_status-IsConsistent, validate_key_live-Keeps,
}
use remote_pc_controller.Installer.Window.Clicks.{
  install_if_free, refuse_key, start_if_free, refresh, show_key, started_after_install,
  after_install, install_on, install_checked, install_with_key, click_install, after_start,
  start_on, click_start, after_command, click_load, click_paste, click_stop, click_uninstall,
  handle_button_click, command, wnd_proc,
}

-- A handler's window, as a type that tells the handler.
record IsKept (x : Click) : Type 0 where
  keeps : Keeps x.window

choose :
    (b : Bool) (x : Click) {y : Click} → Keeps x.window → IsKept y → IsKept (if b then x else y)
choose true x hx hy = record { keeps = hx }
choose false x hx hy = hy

module _ {PublicKey : Type 0} (keys : KeyFormats PublicKey) where
  refresh-Keeps : (d : Desktop) (w : Window) → IsConsistent w → Keeps (refresh keys d w).window
  unfolding refresh validate_port_live
  refresh-Keeps d w c =
      validate_key_live-Keeps keys
        (validate_port_live d.listen_after (update_service_status d.seen w))
        (update_service_status-IsConsistent d.seen w c)

  show_key-Keeps :
      (d : Desktop) (w : Window) (line : Text) (e : Extract)
      → IsConsistent w
      → Keeps (show_key keys d w line e).window
  unfolding show_key set_log
  show_key-Keeps d w line panics c = tt
  show_key-Keeps d w line (found t) c =
      validate_key_live-Keeps keys (set_log d.time line (record w { key = t })) c

  after_install-Keeps :
      (d : Desktop) (w : Window) (port : ℕ) (r : Option Text)
      → IsConsistent w
      → Keeps (after_install keys d w port r).window
  unfolding after_install started_after_install set_log
  after_install-Keeps d w port (some e) c = c
  after_install-Keeps d w port none c =
      refresh-Keeps d (set_log d.time (installed_line port ((start d.at_start).0)) w) c

  install_if_free-Keeps :
      (d : Desktop) (w : Window) (port : ℕ) (r : Option Text)
      → IsConsistent w
      → Keeps (install_if_free keys d w port r).window
  unfolding install_if_free install_on set_log
  install_if_free-Keeps d w port (some e) c = c
  install_if_free-Keeps d w port none c =
      after_install-Keeps d
        (set_log d.time
          (codes "Puerto "
            ++ (show (pos port) ++ codes " verificado. Guardando e instalando servicio..."))
          w)
        port ((install (on_file d w)).0) c

  refuse_key-Keeps :
      (w : Window) (t : Text) (k : Option ConfigError)
      → IsConsistent w
      → Keeps (refuse_key keys w t k).window
  unfolding refuse_key
  refuse_key-Keeps w t (some ConfigError.panic) c = tt
  refuse_key-Keeps w t (some ConfigError.not_exist) c = c
  refuse_key-Keeps w t none c = c

  install_with_key-Keeps :
      (d : Desktop) (w : Window) (port : ℕ) (k : Result ConfigError PublicKey)
      → IsConsistent w
      → Keeps (install_with_key keys d w port k).window
  unfolding install_with_key install_checked
  install_with_key-Keeps d w port (ok k) c =
      install_if_free-Keeps d w port (check_port_available d.listen port) c
  install_with_key-Keeps d w port (err e) c = refuse_key-Keeps w (error_text e) (kind e) c

  click_install-Keeps :
      (d : Desktop) (w : Window) → IsConsistent w → Keeps (click_install keys d w).window
  unfolding click_install
  click_install-Keeps d w c = elim (Bool-cases (parse_port (trim_space w.port) == 0)) [
    | inl p ↦ rw p c
    | inr p ↦ elim (Bool-cases (is_empty (trim_space w.key))) [
      | inl q ↦ rw (p, q) c
      | inr q ↦
          rw (p, q)
            (install_with_key-Keeps d w (parse_port (trim_space w.port))
              (validate_public_key_pem keys (trim_space w.key)) c)
    ]
  ]

  start_on-Keeps :
      (d : Desktop) (w : Window) (port : ℕ) → IsConsistent w → Keeps (start_on keys d w port).window
  unfolding start_on after_start set_log
  start_on-Keeps d w port c =
      refresh-Keeps d (set_log d.time (started_line port ((start d.at_start).0)) w) c

  start_if_free-Keeps :
      (d : Desktop) (w : Window) (port : ℕ) (r : Option Text)
      → IsConsistent w
      → Keeps (start_if_free keys d w port r).window
  unfolding start_if_free
  start_if_free-Keeps d w port (some e) c = c
  start_if_free-Keeps d w port none c = start_on-Keeps d w port c

  click_start-Keeps :
      (d : Desktop) (w : Window) → IsConsistent w → Keeps (click_start keys d w).window
  unfolding click_start
  click_start-Keeps d w c =
      let port = parse_port (trim_space w.port) in
      elim (Bool-cases (port == 0)) [
        | inl p ↦ rw p (start_on-Keeps d w port c)
        | inr p ↦ rw p (start_if_free-Keeps d w port (check_port_available d.listen port) c)
      ]

  after_command-Keeps :
      (d : Desktop) (w : Window) (box : Text → Box) (trouble success : Text) (r : Option Text)
      → IsConsistent w
      → Keeps (after_command keys d w box trouble success r).window
  unfolding after_command set_log
  after_command-Keeps d w box trouble success r c =
      refresh-Keeps d (set_log d.time (command_line trouble success r) w) c

  click_load-Keeps :
      (base : Text → Text) (d : Desktop) (w : Window) (chosen : Option (Text × Text))
      → IsConsistent w
      → Keeps (click_load keys base d w chosen).window
  unfolding click_load
  click_load-Keeps base d w none c = c
  click_load-Keeps base d w (some (path, text)) c =
      show_key-Keeps d w (codes "Archivo cargado: " ++ base path) (key_text text) c

  click_paste-Keeps :
      (d : Desktop) (w : Window) → IsConsistent w → Keeps (click_paste keys d w).window
  unfolding click_paste
  click_paste-Keeps d w c = elim (Bool-cases (is_empty d.clipboard)) [
    | inl p ↦ rw p c
    | inr p ↦
        rw p (
          show_key-Keeps d w (codes "Clave pegada desde el portapapeles.") (key_text d.clipboard) c)
  ]

  click_stop-Keeps :
      (d : Desktop) (w : Window) → IsConsistent w → Keeps (click_stop keys d w).window
  unfolding click_stop set_log
  click_stop-Keeps d w c =
      after_command-Keeps d (set_log d.time (codes "Deteniendo servicio...") w) stop_failed
        (codes "Error al detener: ") (codes "Servicio detenido.") ((stop d.at_stop).0) c

  click_uninstall-Keeps :
      (d : Desktop) (w : Window) → IsConsistent w → Keeps (click_uninstall keys d w).window
  unfolding click_uninstall set_log
  click_uninstall-Keeps d w c = elim (Bool-cases d.confirmed) [
    | inl p ↦ rw p (
        after_command-Keeps d (set_log d.time (codes "Desinstalando servicio...") w)
          uninstall_failed (codes "Error al desinstalar: ")
          (codes "Servicio desinstalado correctamente.") ((uninstall d.at_uninstall).0) c)
    | inr p ↦ rw p c
  ]

  handle_button_click-Keeps :
      (base : Text → Text) (id : ℕ) (d : Desktop) (w : Window)
      → IsConsistent w
      → Keeps (handle_button_click keys base id d w).window
  unfolding handle_button_click
  handle_button_click-Keeps base id d w c =
      (choose (id == 105) _ (click_load-Keeps base d w d.chosen_file c) (
        choose (id == 106) _ (click_paste-Keeps d w c) (
          choose (id == 101) _ (click_install-Keeps d w c) (
            choose (id == 102) _ (click_start-Keeps d w c) (
              choose (id == 103) _ (click_stop-Keeps d w c) (
                choose (id == 104) _ (click_uninstall-Keeps d w c)
                  (record { keeps = c }))))))).keeps

  command-Keeps :
      (base : Text → Text) (id code : ℕ) (d : Desktop) (w : Window)
      → IsConsistent w
      → Keeps (command keys base id code d w).window
  unfolding command validate_port_live
  command-Keeps base id code d w c =
      (choose (code == 0) _ (handle_button_click-Keeps base id d w c) (
        choose (code == 0x0300 && id == 201) _ c (
          choose (code == 0x0300 && id == 204) _ (validate_key_live-Keeps keys w c)
            (record { keeps = c })))).keeps

  pub wnd_proc-Keeps :
      (base : Text → Text) (msg w_param : ℕ) (d : Desktop) (w : Window)
      → IsConsistent w
      → Keeps (wnd_proc keys base msg w_param d w).window
  unfolding wnd_proc
  wnd_proc-Keeps base msg w_param d w c =
      (choose (msg == 0x0111) _
        (command-Keeps base (w_param % 65536) ((w_param / 65536) % 65536) d w c)
        (choose (msg == 0x0113) _ (update_service_status-IsConsistent d.seen w c)
          (choose (msg == 0x0002) _ c (record { keeps = c })))).keeps
