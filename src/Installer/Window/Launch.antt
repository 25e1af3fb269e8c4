-- ===== src/Installer/Window/Launch.antt =====
-- `LaunchGUI` and `createControls` of sentinel/src/installer/gui_windows.go: the window's start, and
-- its loop of messages.
pub mod Panics
pub mod Reachable
use remote_pc_controller.Prelude.{
  ℕ, Bool, true, false, not, Option, none, some, List, [], ◌∷◌, ◌++◌, ◌⊎◌, inl, inr, if◌then◌else◌,
}
use remote_pc_controller.Prelude.Dict.{Dict, insert}
use remote_pc_controller.Prelude.Text.{Text, codes, equal, is_empty}
use remote_pc_controller.Errors.{Result, ok, err}
use remote_pc_controller.DotEnv.{ConfigError, get}
use remote_pc_controller.Sentinel.Keys.{KeyFormats}
use remote_pc_controller.Sentinel.Saving.{load_with_defaults}
use remote_pc_controller.Installer.Privileges.{Elevation, elevate_self}
use remote_pc_controller.Installer.Window.{
  Window, update_service_status, validate_port_live, validate_key_live,
}
use remote_pc_controller.Installer.Window.KeyText.{
  Extract, panics, found, extract_public_key_from_text,
}
use remote_pc_controller.Installer.Window.Desktop.{Desktop, Click}
use remote_pc_controller.Installer.Window.Clicks.{wnd_proc}

-- The key in the first of the files that has one; a file that cannot be read is passed over.
pub key_in_files : List (Option Text) → Extract
unfolding extract_public_key_from_text
key_in_files [] = found []
key_in_files (none ∷ files) = key_in_files files
key_in_files (some text ∷ files) =
    let later = key_in_files files in
    elim (extract_public_key_from_text text) [
      | panics ↦ panics
      | found t ↦ if is_empty t then later else found t
    ]

-- The assignment of the key to the map of the values, which is nil if the file could not be read:
-- an assignment to it panics.
assign_key : Result ConfigError (Dict Text) → Extract → Option (Dict Text)
unfolding insert
assign_key values panics = none
assign_key (ok m) (found t) = some (if is_empty t then m else insert (codes "PUBLIC_KEY") t m)
assign_key (err e) (found t) = if is_empty t then some [] else none

-- The values that the window shows, on what `LoadWithDefaults` returned, whose error is dropped;
-- `none` is a panic.
unfoldable pub values_shown :
    Result ConfigError (Dict Text) → List (Option Text) → Option (Dict Text)
unfolding get key_in_files assign_key
values_shown (ok m) files =
    if is_empty (get (codes "PUBLIC_KEY") m) then assign_key (ok m) (key_in_files files) else some m
values_shown (err e) files = assign_key (err e) (key_in_files files)

-- createControls: a new control is enabled.
unfoldable pub create_controls : Dict Text → Window
unfolding get equal
create_controls values = record {
  port = get (codes "PORT") values;
  device = get (codes "DEVICE_ID") values;
  skew = get (codes "CLOCK_SKEW_SECONDS") values;
  key = get (codes "PUBLIC_KEY") values;
  firewall = true;
  notify = not (equal (get (codes "ENABLE_NOTIFICATIONS") values) (codes "false"));
  status_pill = codes "Consultando...";
  port_status = codes "Comprobando...";
  key_status = codes "Comprobando clave...";
  log_line = codes "Listo.";
  can_install = true;
  can_start = true;
  can_stop = true;
  can_uninstall = true;
  service_running = false;
  service_pid = 0;
}

-- What happens in front of the window: an edit of its texts and check boxes, which keeps the rest, or
-- a message with its first parameter and what the system answers meanwhile.
pub data Input : Type 0 where
  edited : (port device skew key : Text) → (firewall notify : Bool) → Input
  message : (msg w_param : ℕ) → Desktop → Input

abbrev pub edit : Text → Text → Text → Text → Bool → Bool → Window → Window
edit port device skew key firewall notify w = record w {
  port = port;
  device = device;
  skew = skew;
  key = key;
  firewall = firewall;
  notify = notify;
}

-- What `LaunchGUI` comes to: it elevates itself, fails, panics, or shows a window.
pub data Launched : Type 0 where
  elevated : Elevation → Launched
  refused : Text → Launched
  panicked : Launched
  shown : Window → Launched

shown_or_panicked : Option Window → Launched
shown_or_panicked none = panicked
shown_or_panicked (some w) = shown w

module _ {PublicKey : Type 0} (keys : KeyFormats PublicKey) where
  -- The window on the values that it shows.
  launch_on : Desktop → Option (Dict Text) → Option Window
  unfolding create_controls update_service_status validate_port_live validate_key_live
  launch_on d none = none
  launch_on d (some values) =
      validate_key_live keys
        (validate_port_live d.listen (update_service_status d.seen (create_controls values)))

  -- The window when its loop begins; `none` is a panic.
  unfoldable pub launch : Desktop → List (Option Text) → Option Window
  unfolding load_with_defaults values_shown launch_on
  launch d files =
      launch_on d (values_shown (load_with_defaults d.host d.env_path d.env_file) files)

  -- The creation of the window behind the reading of the values.
  create_window : Option Text → Desktop → Option (Dict Text) → Launched
  unfolding launch_on shown_or_panicked
  create_window creating d none = panicked
  create_window (some e) d (some values) = refused (codes "CreateWindowExW failed: " ++ e)
  create_window none d (some values) = shown_or_panicked (launch_on d (some values))

  -- LaunchGUI up to its loop: whether the process has the privileges, the path of the executable or
  -- its error, the error of the elevation, and that of the window's creation.
  unfoldable pub launch_gui :
      Bool → Text ⊎ Text → Option Text → Option Text → Desktop → List (Option Text) → Launched
  unfolding create_window values_shown load_with_defaults elevate_self
  launch_gui false executable elevating creating d files =
      elevated (elevate_self executable elevating (codes "service" ∷ codes "gui" ∷ []))
  launch_gui true (inl e) elevating creating d files = refused (codes "resolve executable: " ++ e)
  launch_gui true (inr path) elevating creating d files =
      create_window creating d
        (values_shown (load_with_defaults d.host d.env_path d.env_file) files)

  -- The loop of messages, from a window on, with `filepath.Base`; a panic ends it.
  unfoldable pub message_loop : (Text → Text) → List Input → Option Window → Option Window
  unfolding wnd_proc
  message_loop base inputs none = none
  message_loop base [] (some w) = some w
  message_loop base (edited port device skew key firewall notify ∷ inputs) (some w) =
      message_loop base inputs (some (edit port device skew key firewall notify w))
  message_loop base (message msg w_param d ∷ inputs) (some w) =
      message_loop base inputs ((wnd_proc keys base msg w_param d w).window)
