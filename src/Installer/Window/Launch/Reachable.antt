-- ===== src/Installer/Window/Launch/Reachable.antt =====
-- The windows that the program reaches.
use remote_pc_controller.Prelude.{Option, none, some, List, [], ◌∷◌, ◌≡◌, ◌≢◌}
use remote_pc_controller.Prelude.Text.{Text}
use remote_pc_controller.Prelude.Dict.{Dict}
use remote_pc_controller.Sentinel.Keys.{KeyFormats}
use remote_pc_controller.Sentinel.Saving.{load_with_defaults}
use remote_pc_controller.Installer.Window.{
  Window, query_error, update_service_status, validate_port_live,
}
use remote_pc_controller.Installer.Window.Desktop.{Desktop}
use remote_pc_controller.Installer.Window.Clicks.{wnd_proc}
use remote_pc_controller.Installer.Window.Clicks.Consistent.{
  IsConsistent, Keeps, answered-IsConsistent, validate_key_live-Keeps,
}
use remote_pc_controller.Installer.Window.Clicks.Kept.{wnd_proc-Keeps}
use remote_pc_controller.Installer.Window.Launch.{
  Input, edited, message, values_shown, create_controls, edit, launch_on, launch, message_loop,
}

module _ {PublicKey : Type 0} (keys : KeyFormats PublicKey) where
  launch_on-Keeps :
      (d : Desktop) (values : Option (Dict Text))
      → d.seen ≢ query_error
      → Keeps (launch_on keys d values)
  unfolding launch_on validate_port_live
  launch_on-Keeps d none h = tt
  launch_on-Keeps d (some values) h =
      validate_key_live-Keeps keys
        (validate_port_live d.listen (update_service_status d.seen (create_controls values)))
        (answered-IsConsistent d.seen (create_controls values) h)

  message_loop-Keeps :
      (base : Text → Text) (inputs : List Input) (w : Option Window)
      → Keeps w
      → Keeps (message_loop keys base inputs w)
  unfolding message_loop
  message_loop-Keeps base inputs none k = tt
  message_loop-Keeps base [] (some w) k = k
  message_loop-Keeps base (edited port device skew key firewall notify ∷ inputs) (some w) k =
      message_loop-Keeps base inputs (some (edit port device skew key firewall notify w)) k
  message_loop-Keeps base (message msg w_param d ∷ inputs) (some w) k =
      message_loop-Keeps base inputs ((wnd_proc keys base msg w_param d w).window)
        (wnd_proc-Keeps keys base msg w_param d w k)

  -- If the service can be queried when the window is launched, then whatever is typed and
  -- whichever messages follow, with whatever answers of Windows, in the window that is reached
  -- the service can be installed, it can be started or stopped but not both, what can be started
  -- or stopped can be removed, and a service that runs can be stopped.
  pub message_loop-IsConsistent :
      (base : Text → Text) (d : Desktop) (files : List (Option Text)) (inputs : List Input)
      {w : Window}
      → d.seen ≢ query_error
      → message_loop keys base inputs (launch keys d files) ≡ some w
      → IsConsistent w
  unfolding launch
  message_loop-IsConsistent base d files inputs {w} h e = coe 0 1 (i. Keeps (e i)) (
      message_loop-Keeps base inputs (launch keys d files) (
        launch_on-Keeps d (values_shown (load_with_defaults d.host d.env_path d.env_file) files) h))
