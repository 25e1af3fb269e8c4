-- ===== src/Sentinel/Config.antt =====
-- sentinel/src/config/config.go: the configuration of Sentinel.
pub mod Loading
pub mod Saved
use remote_pc_controller.Prelude.{
  ℕ, ◌*◌, Bool, true, false, not, ◌&&◌, ◌||◌, Option, none, some, List, [], ◌∷◌, ◌++◌, ◌==◌, ◌⊎◌,
  inl, inr, if◌then◌else◌,
}
use remote_pc_controller.Prelude.Decimal.{parse_int}
use remote_pc_controller.Prelude.Dict.{Dict, insert}
use remote_pc_controller.Prelude.Int.{ℤ, pos, ltb_ℤ}
use remote_pc_controller.Prelude.Text.{
  Text, codes, equal, is_empty, trim_space, ends_with, drop_last, has_prefix,
}
use remote_pc_controller.Errors.{Error, Result, ok, err, sentinel, foreign, kind, and_then}
use remote_pc_controller.DotEnv.{
  ConfigError, get, before_pair, replace_pair, unescape, read_dot_env, double_quote, single_quote,
  backslash, newline, carriage_return,
}
use remote_pc_controller.Sentinel.Keys.{KeyFormats, validate_public_key_pem}

pub record Config (PublicKey : Type 0) : Type 0 where
  pub listen_addr : Text
  pub device_id : Text
  pub public_key : PublicKey
  pub max_body_bytes : ℤ
  pub clock_skew_sec : ℤ
  pub enable_notifications : Bool

module _ {PublicKey : Type 0} (keys : KeyFormats PublicKey) where
  -- publicKey
  unfoldable pub public_key : Dict Text → Result ConfigError PublicKey
  unfolding validate_public_key_pem get
  public_key values =
      let raw = get (codes "PUBLIC_KEY") values in
      if is_empty raw
      then err (foreign (codes "PUBLIC_KEY is required"))
      else validate_public_key_pem keys raw

-- The number that was read, if it is in its range.
check_number : Text → (ℤ → Bool) → Option ℤ → Result ConfigError ℤ
check_number complaint out none = err (foreign complaint)
check_number complaint out (some n) = if out n then err (foreign complaint) else ok n

-- A number that may be missing.
number_or : ℤ → Text → (ℤ → Bool) → Text → Result ConfigError ℤ
unfolding check_number parse_int
number_or default complaint out value =
    if is_empty value then ok default else check_number complaint out (parse_int value)

max_body_bytes : Text → Result ConfigError ℤ
unfolding number_or
max_body_bytes value =
    number_or (pos (64 * 1024)) (codes "MAX_BODY_BYTES is invalid") (λ n. ltb_ℤ n (pos 1024)) value

clock_skew_seconds : Text → Result ConfigError ℤ
unfolding number_or
clock_skew_seconds value =
    number_or (pos 5) (codes "CLOCK_SKEW_SECONDS is invalid")
      (λ n. ltb_ℤ n (pos 0) || ltb_ℤ (pos 300) n) value

-- strconv.ParseBool
unfoldable pub parse_bool : Text → Option Bool
unfolding equal
parse_bool s =
    if equal s (codes "1")
      || equal s (codes "t")
      || equal s (codes "T")
      || equal s (codes "TRUE")
      || equal s (codes "true")
      || equal s (codes "True")
    then some true
    else if equal s (codes "0")
        || equal s (codes "f")
        || equal s (codes "F")
        || equal s (codes "FALSE")
        || equal s (codes "false")
        || equal s (codes "False")
    then some false
    else none

-- A value that is no truth value leaves the notifications on.
notifications : Text → Bool
unfolding parse_bool
notifications value = elim (parse_bool value) [ some b ↦ b | none ↦ true ]

module _ {PublicKey : Type 0} (keys : KeyFormats PublicKey) where
  -- The end of `Load`, with the two numbers that may be missing.
  with_limits : Text → PublicKey → Text → Dict Text → Result ConfigError (Config PublicKey)
  unfolding get max_body_bytes clock_skew_seconds notifications
  with_limits port key device values =
      and_then (max_body_bytes (get (codes "MAX_BODY_BYTES") values)) λ max_body.
        and_then (clock_skew_seconds (get (codes "CLOCK_SKEW_SECONDS") values)) λ skew. ok (record {
          listen_addr = codes ":" ++ port;
          device_id = device;
          public_key = key;
          max_body_bytes = max_body;
          clock_skew_sec = skew;
          enable_notifications = notifications (get (codes "ENABLE_NOTIFICATIONS") values);
        })

  -- The part of `Load` from the key on.
  with_key : Text → Dict Text → Result ConfigError (Config PublicKey)
  unfolding get public_key with_limits
  with_key port values = and_then (public_key keys values) λ key.
      let device = get (codes "DEVICE_ID") values in
      if is_empty device
      then err (foreign (codes "DEVICE_ID is required"))
      else with_limits port key device values

  -- `Load` on the values of the file.
  load_values : Dict Text → Result ConfigError (Config PublicKey)
  unfolding get check_number with_key
  load_values values =
      let port = get (codes "PORT") values in
      if is_empty port
      then err (foreign (codes "PORT is required"))
      else and_then
          (check_number (codes "PORT must be between 1 and 65535")
            (λ n. ltb_ℤ n (pos 1) || ltb_ℤ (pos 65535) n) (parse_int port))
          λ number. with_key port values

  -- Load, on what `os.ReadFile` returns.
  unfoldable pub load : Text → Result ConfigError Text → Result ConfigError (Config PublicKey)
  unfolding load_values read_dot_env
  load path file = and_then (read_dot_env path file) load_values
