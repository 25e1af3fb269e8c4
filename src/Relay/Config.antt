-- ===== src/Relay/Config.antt =====
-- relay/src/config/config.go: the configuration of Relay. Its reader of `.env` files is the one of
-- Sentinel, line for line.
pub mod Loading
use remote_pc_controller.Prelude.{
  ℕ, ◌*◌, Bool, true, false, ◌||◌, Option, none, some, List, [], ◌∷◌, ◌++◌, ◌⊎◌, inl, inr,
  if◌then◌else◌,
}
use remote_pc_controller.Prelude.Decimal.{parse_int}
use remote_pc_controller.Prelude.Dict.{Dict, lookup}
use remote_pc_controller.Prelude.Int.{ℤ, pos, ltb_ℤ}
use remote_pc_controller.Prelude.Text.{Text, codes, is_empty, trim_space}
use remote_pc_controller.Errors.{Error, Result, ok, err, foreign, and_then}
use remote_pc_controller.DotEnv
use remote_pc_controller.DotEnv.{ConfigError, replace_pair, backslash, newline, read_dot_env}

-- What `x509.ParsePKCS8PrivateKey` returns: an RSA key or another one.
pub data AnyKey (PrivateKey : Type 0) : Type 0 where
  rsa : PrivateKey → AnyKey PrivateKey
  other : AnyKey PrivateKey

-- What Relay uses of packages `encoding/pem` and `crypto/x509`.
pub record KeyFormats (PrivateKey : Type 0) : Type 0 where
  -- pem.Decode; the bytes of the first block.
  pub pem_decode : Text → Option Text
  -- `none` is an error.
  pub parse_pkcs1 : Text → Option PrivateKey
  -- The text of an error, or a key.
  pub parse_pkcs8 : Text → Text ⊎ AnyKey PrivateKey

pub record Config (PrivateKey : Type 0) : Type 0 where
  pub listen_addr : Text
  pub api_secret : Text
  pub device_id : Text
  pub sentinel_url : Text
  pub private_key : PrivateKey
  pub validity_seconds : ℤ
  pub max_body_bytes : ℤ

-- parseDotEnv
abbrev parse_dot_env : Text → Result ConfigError (Dict Text)
parse_dot_env = DotEnv.parse_dot_env

-- valueOr
unfoldable pub value_or : Text → Text → Text
value_or [] fallback = fallback
value_or (c ∷ s) fallback = c ∷ s

-- The function `get` of `Load`: the file's value, or that of the environment, trimmed.
unfoldable pub lookup_setting : Dict Text → (Text → Text) → Text → Text
unfolding lookup trim_space
lookup_setting v environment key = elim (lookup key v) [
  | some val ↦ if is_empty (trim_space val) then trim_space (environment key) else trim_space val
  | none ↦ trim_space (environment key)
]

module _ {PrivateKey : Type 0} (keys : KeyFormats PrivateKey) where
  pkcs8_key : Text ⊎ AnyKey PrivateKey → Result ConfigError PrivateKey
  pkcs8_key (inl e) = err (foreign (codes "private key is not valid: " ++ e))
  pkcs8_key (inr other) = err (foreign (codes "private key is not RSA"))
  pkcs8_key (inr (rsa key)) = ok key

  block_key : Option Text → Result ConfigError PrivateKey
  unfolding pkcs8_key
  block_key none = err (foreign (codes "private key is not PEM"))
  block_key (some block) = elim (keys.parse_pkcs1 block) [
    | some key ↦ ok key
    | none ↦ pkcs8_key (keys.parse_pkcs8 block)
  ]

  -- loadPrivateKey
  unfoldable pub load_private_key : (Text → Text) → Result ConfigError PrivateKey
  unfolding value_or replace_pair trim_space block_key
  load_private_key setting =
      let raw = value_or (setting (codes "PRIVATE_KEY")) (setting (codes "PRIVATE_KEY_PEM")) in
      if is_empty raw
      then err (foreign (codes "PRIVATE_KEY is required"))
      else block_key (keys.pem_decode (trim_space (replace_pair backslash b'n' newline raw)))

-- The number that was read, if it is in its range.
check_number : Text → (ℤ → Bool) → Option ℤ → Result ConfigError ℤ
check_number complaint out none = err (foreign complaint)
check_number complaint out (some n) = if out n then err (foreign complaint) else ok n

validity_seconds : Text → Result ConfigError ℤ
unfolding check_number parse_int
validity_seconds value =
    if is_empty value
    then ok (pos 30)
    else check_number (codes "VALIDITY_SECONDS is invalid")
        (λ n. ltb_ℤ n (pos 1) || ltb_ℤ (pos 300) n) (parse_int value)

max_body_bytes : Text → Result ConfigError ℤ
unfolding check_number parse_int
max_body_bytes value =
    if is_empty value
    then ok (pos (16 * 1024))
    else check_number (codes "MAX_BODY_BYTES is invalid") (λ n. ltb_ℤ n (pos 1024))
        (parse_int value)

-- The values of the file: a file that cannot be read counts as empty if there is none.
unfoldable pub file_values : Text → Bool → Result ConfigError Text → Result ConfigError (Dict Text)
unfolding read_dot_env
file_values [] exists file = ok []
file_values (c ∷ path) exists file = elim (read_dot_env (c ∷ path) file) [
  | ok values ↦ ok values
  | err e ↦ if exists then err e else ok []
]

module _ {PrivateKey : Type 0} (keys : KeyFormats PrivateKey) where
  -- The end of `Load`, behind the settings that are required.
  with_limits :
      Text → Text → Text → PrivateKey → (Text → Text) → Result ConfigError (Config PrivateKey)
  unfolding value_or validity_seconds max_body_bytes
  with_limits secret device url key setting =
      and_then (validity_seconds (setting (codes "VALIDITY_SECONDS"))) λ validity.
        and_then (max_body_bytes (setting (codes "MAX_BODY_BYTES"))) λ max_body. ok (record {
          listen_addr = value_or (setting (codes "LISTEN_ADDR")) (codes ":8080");
          api_secret = secret;
          device_id = device;
          sentinel_url = url;
          private_key = key;
          validity_seconds = validity;
          max_body_bytes = max_body;
        })

  -- `Load` on the function `get`.
  load_settings : (Text → Text) → Result ConfigError (Config PrivateKey)
  unfolding load_private_key with_limits
  load_settings setting =
      let secret = setting (codes "API_SECRET") in
      let device = setting (codes "DEVICE_ID") in
      let url = setting (codes "SENTINEL_URL") in
      if is_empty secret
      then err (foreign (codes "API_SECRET is required"))
      else if is_empty device
      then err (foreign (codes "DEVICE_ID is required"))
      else if is_empty url
      then err (foreign (codes "SENTINEL_URL is required"))
      else and_then (load_private_key keys setting) λ key. with_limits secret device url key setting

  -- Load, with `os.Getenv`, on what `os.Stat` and `os.ReadFile` say of the file.
  unfoldable pub load :
      (Text → Text) → Text → Bool → Result ConfigError Text → Result ConfigError (Config PrivateKey)
  unfolding file_values load_settings lookup_setting
  load environment path exists file =
      and_then (file_values path exists file) λ v. load_settings (lookup_setting v environment)
