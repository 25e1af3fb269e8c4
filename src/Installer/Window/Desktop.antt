-- ===== src/Installer/Window/Desktop.antt =====
-- `saveCurrentEnv` of sentinel/src/installer/gui_windows.go, and what a handler of the window meets
-- and does.
use remote_pc_controller.Prelude.{
  ℕ, Bool, Option, none, some, List, [], ◌∷◌, ◌++◌, map, if◌then◌else◌,
}
use remote_pc_controller.Prelude.Dict.{Dict}
use remote_pc_controller.Prelude.Text.{Text, codes}
use remote_pc_controller.Errors.{Error, Result, ok, err}
use remote_pc_controller.DotEnv.{ConfigError, get}
use remote_pc_controller.Sentinel.Saving.{save, load_with_defaults}
use remote_pc_controller.Installer.{Machine, Effect, remove_rule, add_rule}
use remote_pc_controller.Installer.Window.{Window, Scm}

-- A message box, with what its text shows.
pub data Box : Type 0 where
  invalid_port key_required confirm_uninstall : Box
  invalid_key install_failed start_failed stop_failed uninstall_failed : Text → Box
  port_unavailable cannot_start : ℕ → Text → Box

-- What a handler does to the system, in order.
pub data Act : Type 0 where
  boxed : Box → Act
  -- The `.env` file is written.
  saved : Text → Act
  effect : Effect → Act
  quit : Act

-- What the system answers while a message is handled: to the commands of the installer, to
-- `net.Listen` before and behind them, and to the rest.
pub record Desktop : Type 0 where
  pub at_stop : Machine
  pub at_install : Machine
  pub at_start : Machine
  pub at_uninstall : Machine
  pub listen : ℕ → Option Text
  pub listen_after : ℕ → Option Text
  pub seen : Scm
  pub host : Option Text
  pub env_path : Text
  -- The error of `os.WriteFile`, and what the file then holds.
  pub write_error : Option (Error ConfigError)
  pub env_file : Result ConfigError Text
  -- The answer to the question behind the button for the removal.
  pub confirmed : Bool
  -- The chosen file, its name and its text, if there is one that can be read.
  pub chosen_file : Option (Text × Text)
  pub clipboard : Text
  -- The errors of the two calls of `AddFirewallRule` that the window makes.
  pub rule_deleted : Option Text
  pub rule_added : Option Text
  -- The time that the log shows.
  pub time : Text

-- The window afterwards, `none` if the program panicked, and what was done.
pub record Click : Type 0 where
  pub window : Option Window
  pub acts : List Act

abbrev pub returns : Window → List Act → Click
returns w acts = record { window = some w; acts = acts }

abbrev pub after : List Act → Click → Click
after acts c = record c { acts = acts ++ c.acts }

abbrev pub effects : List Effect → List Act
effects es = map effect es

-- setLog
unfoldable pub set_log : Text → Text → Window → Window
set_log time text w = record w { log_line = codes "[" ++ (time ++ (codes "] " ++ text)) }

-- The values that `saveCurrentEnv` hands to `Save`.
unfoldable pub window_values : Window → Dict Text
window_values w =
    (codes "PORT", w.port)
    ∷ (codes "DEVICE_ID", w.device)
    ∷ (codes "CLOCK_SKEW_SECONDS", w.skew)
    ∷ (codes "PUBLIC_KEY", w.key)
    ∷ (codes "ENABLE_NOTIFICATIONS", if w.notify then codes "true" else codes "false")
    ∷ []

-- saveCurrentEnv, whose error is dropped.
unfoldable pub save_current_env : Desktop → Window → List Act
unfolding save window_values
save_current_env d w = elim ((save d.host d.write_error (window_values w)).1) [
  | some text ↦ saved text ∷ []
  | none ↦ []
]

-- What the file holds behind `saveCurrentEnv`.
unfoldable pub file_after : Desktop → Window → Result ConfigError Text
unfolding save window_values
file_after d w = elim ((save d.host d.write_error (window_values w)).1) [
  | some text ↦ ok text
  | none ↦ d.env_file
]

abbrev values_or_none : Result ConfigError (Dict Text) → Dict Text
values_or_none (ok m) = m
values_or_none (err e) = []

-- The machine that `install` meets: it reads the port in the file that was just saved.
unfoldable pub on_file : Desktop → Window → Machine
unfolding file_after load_with_defaults get
on_file d w = record (d.at_install) {
  port =
      get (codes "PORT") (values_or_none (load_with_defaults d.host d.env_path (file_after d w)));
}

-- AddFirewallRule, whose error is dropped.
abbrev pub rule_acts : Desktop → ℕ → List Act
rule_acts d port = effects (remove_rule d.rule_deleted ∷ add_rule port d.rule_added ∷ [])
