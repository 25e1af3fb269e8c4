-- ===== src/Witnesses/Saves.antt =====
-- Witnesses for the theorems on the file that the installer writes, and on the agent's start.
use remote_pc_controller.Prelude.{ℕ, true, Option, none, some, [], ◌∷◌, ◌≡◌, ◌↔◌, inr, refl, arith}
use remote_pc_controller.Prelude.Decimal.{parse_int, scan_all, scan, to_int64}
use remote_pc_controller.Prelude.Dict.{Dict, lookup, insert, remove}
use remote_pc_controller.Prelude.Int.{pos}
use remote_pc_controller.Prelude.Text.{
  Text, codes, equal, trim_space, trim_left, trim_right, trim_onto, is_space, trim_suffix,
  ends_with, drop_last, has_prefix, split_once,
}
use remote_pc_controller.Errors.{ok}
use remote_pc_controller.DotEnv.{
  get, before_pair, parse_dot_env, split_lines, parse_lines, parse_line, outside, assignment, entry,
  plain_value, finish,
}
use remote_pc_controller.DotEnv.Lines.{plain_text}
use remote_pc_controller.Sentinel.Config.{Config, parse_bool}
use remote_pc_controller.Sentinel.Config.Saved.{Means}
use remote_pc_controller.Sentinel.Keys.{
  validate_public_key_pem, inspect_public_key, unquote, single_line,
}
use remote_pc_controller.Sentinel.Runtime.{runtime_of}
use remote_pc_controller.Sentinel.Start
use remote_pc_controller.Sentinel.Start.{runtime_from_executable-save_text}
use remote_pc_controller.Sentinel.Agent.{execute, request, done, ended, start_pending}
use remote_pc_controller.Sentinel.Agent.Control.{Stops, execute-Stops}
use remote_pc_controller.Installer.{state, running, wait_for_state}
use remote_pc_controller.Installer.Clocked.{Polling, wait_loop, answers_before, wait_loop-ends}
use remote_pc_controller.Witnesses.Settings.{sentinel_keys}
use remote_pc_controller.Sentinel.Saving.{
  save_text, saved_value, saved_device, value_or, clean_key, without_returns, default_values,
  load_with_defaults,
}
use remote_pc_controller.Sentinel.Saving.RoundTrip.{IsSavable, IsRead, parse-save}
use remote_pc_controller.Sentinel.Saving.Keeping.{chosen, load_with_defaults-chosen}

abbrev typed_config : Config ℕ
typed_config = record {
  listen_addr = codes ":80";
  device_id = codes "pc";
  public_key = 7;
  max_body_bytes = pos 65536;
  clock_skew_sec = pos 5;
  enable_notifications = true;
}

abbrev pub machine_name : Option Text
machine_name = some (codes "pc")

abbrev pub typed_values : Dict Text
typed_values =
    (codes "PORT", codes "80")
    ∷ (codes "DEVICE_ID", codes "pc")
    ∷ (codes "CLOCK_SKEW_SECONDS", codes "5")
    ∷ (codes "PUBLIC_KEY", codes "k")
    ∷ (codes "ENABLE_NOTIFICATIONS", codes "true")
    ∷ []

pub typed-IsSavable : IsSavable machine_name typed_values
unfolding saved_value saved_device value_or get lookup equal clean_key without_returns trim_space
    trim_left trim_right trim_onto is_space before_pair
typed-IsSavable = record {
  port = plain_text b'8' (codes "0") (ground arith) (ground arith) refl refl refl;
  device = plain_text b'p' (codes "c") (ground arith) (ground arith) refl refl refl;
  key = (ground arith, tt);
  skew = plain_text b'5' [] (ground arith) (ground arith) refl refl refl;
  body = plain_text b'6' (codes "5536") (ground arith) (ground arith) refl refl refl;
  notifications = plain_text b't' (codes "rue") (ground arith) (ground arith) refl refl refl;
}

typed-Means : Means sentinel_keys machine_name typed_values typed_config
unfolding saved_value saved_device value_or get lookup equal clean_key without_returns trim_space
    trim_left trim_right trim_onto is_space parse_int scan_all scan to_int64 parse_bool
    validate_public_key_pem inspect_public_key unquote single_line has_prefix ends_with
typed-Means = record {
  port = pos 80;
  port_is = refl;
  port_from = ground arith;
  port_til = ground arith;
  address = refl;
  device = refl;
  key_ne_nil = λ e. cc;
  key_is = refl;
  body_is = refl;
  body_from = ground arith;
  skew_is = refl;
  skew_nonneg = ground arith;
  skew_til = ground arith;
  notifications_are = refl;
}

parse-save_example :
    (m : Dict Text) × (parse_dot_env (save_text machine_name typed_values) ≡ ok m)
    × IsRead machine_name typed_values m
parse-save_example = parse-save machine_name typed_values typed-IsSavable

small_file :
    parse_dot_env (codes "PORT=80\nPUBLIC_KEY=\n")
    ≡ ok ((codes "PUBLIC_KEY", []) ∷ (codes "PORT", codes "80") ∷ [])
unfolding parse_dot_env split_lines parse_lines parse_line outside assignment entry plain_value
    before_pair finish trim_space trim_left trim_right trim_onto is_space trim_suffix ends_with
    drop_last has_prefix split_once insert remove equal
small_file = refl

load_with_defaults-chosen_example :
    (m : Dict Text) × (load_with_defaults machine_name
        (codes ".env")
        (ok (codes "PORT=80\nPUBLIC_KEY=\n"))
      ≡ ok m)
    × ((j : Text)
        → lookup j m
          ≡ chosen
              (lookup j ((codes "PUBLIC_KEY", []) ∷ (codes "PORT", codes "80") ∷ []))
              (lookup j (default_values machine_name)))
load_with_defaults-chosen_example =
    load_with_defaults-chosen machine_name (codes ".env") (codes "PORT=80\nPUBLIC_KEY=\n")
      ((codes "PUBLIC_KEY", []) ∷ (codes "PORT", codes "80") ∷ []) small_file

runtime_from_executable-save_text_example :
    (Start.runtime_from_executable {Executor = ℕ} {Clock = ℕ} {Logger = ℕ} sentinel_keys 1 2 3 4
      (λ p. p)
      (inr (codes "sentinel.exe"))
      (codes "--show-config" ∷ [])
      (ok (save_text machine_name typed_values))).1
    ≡ inr (runtime_of 1 2 typed_config 3 4)
runtime_from_executable-save_text_example =
    runtime_from_executable-save_text sentinel_keys 1 2 3 4 (λ p. p) (codes "sentinel.exe")
      (codes "--show-config" ∷ []) machine_name typed_values typed_config typed-IsSavable
      typed-Means

abbrev slow_polling : Polling
slow_polling = record { answer = λ k. state 2; cost = λ k. 5 }

wait_loop-ends_example :
    wait_loop 3 slow_polling running 600000000 0 0
    ≡ some (wait_for_state running (answers_before 3 slow_polling 600000000 0 0))
wait_loop-ends_example = wait_loop-ends 2 slow_polling running 600000000 0 0 (omega arith)

execute-Stops_example :
    ((execute none (request 4 start_pending ∷ request 1 start_pending ∷ done none ∷ [])).ending
      ≡ ended 0)
    ↔ Stops (request 4 start_pending ∷ request 1 start_pending ∷ done none ∷ [])
execute-Stops_example =
    execute-Stops (request 4 start_pending ∷ request 1 start_pending ∷ done none ∷ [])
