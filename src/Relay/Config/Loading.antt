-- ===== src/Relay/Config/Loading.antt =====
-- What a configuration of Relay that was loaded guarantees.
use remote_pc_controller.Prelude.{Bool, false, ◌||◌, Option, none, some, [], ◌∷◌, ◌≡◌, ◌≢◌, arith}
use remote_pc_controller.Prelude.Decimal.{parse_int}
use remote_pc_controller.Prelude.Int.{ℤ, pos, ◌≤ℤ◌, ltb_ℤ}
use remote_pc_controller.Prelude.Text.{Text, codes, is_empty}
use remote_pc_controller.Errors.{Result, ok, and_then-ok, refused_unless-ok, ok-injective}
use remote_pc_controller.DotEnv.{ConfigError}
use remote_pc_controller.Relay.Config.{
  KeyFormats, Config, lookup_setting, load_private_key, check_number, validity_seconds,
  max_body_bytes, file_values, with_limits, load_settings, load,
}

check_number-ok :
    (t : Text) (out : ℤ → Bool) (x : Option ℤ) {n : ℤ} → check_number t out x ≡ ok n → out n ≡ false
unfolding check_number
check_number-ok t out none h = cc
check_number-ok t out (some n) h = ground arith

validity_seconds-ok : (v : Text) {n : ℤ} → validity_seconds v ≡ ok n → (pos 1 ≤ℤ n) × (n ≤ℤ pos 300)
unfolding validity_seconds
validity_seconds-ok [] h = (ground arith, ground arith)
validity_seconds-ok (c ∷ v) h =
    let inside =
      check_number-ok _ (λ n. ltb_ℤ n (pos 1) || ltb_ℤ (pos 300) n) (parse_int (c ∷ v)) h in
    (ground arith, ground arith)

max_body_bytes-ok : (v : Text) {n : ℤ} → max_body_bytes v ≡ ok n → pos 1024 ≤ℤ n
unfolding max_body_bytes
max_body_bytes-ok [] h = ground arith
max_body_bytes-ok (c ∷ v) h =
    let inside = check_number-ok _ (λ n. ltb_ℤ n (pos 1024)) (parse_int (c ∷ v)) h in ground arith

module _ {PrivateKey : Type 0} where
  -- A configuration with which Relay can run.
  pub record IsUsable (c : Config PrivateKey) : Type 0 where
    pub secret_ne_nil : c.api_secret ≢ []
    pub device_ne_nil : c.device_id ≢ []
    pub url_ne_nil : c.sentinel_url ≢ []
    pub validity_from : pos 1 ≤ℤ c.validity_seconds
    pub validity_til : c.validity_seconds ≤ℤ pos 300
    pub body_from : pos 1024 ≤ℤ c.max_body_bytes

module _ {PrivateKey : Type 0} (keys : KeyFormats PrivateKey) where
  with_limits-IsUsable :
      (secret device url : Text) (key : PrivateKey) (setting : Text → Text) {c : Config PrivateKey}
      → is_empty secret ≡ false
      → is_empty device ≡ false
      → is_empty url ≡ false
      → with_limits keys secret device url key setting ≡ ok c
      → IsUsable c
  unfolding with_limits
  with_limits-IsUsable secret device url key setting a b d h =
      let (validity, timed, rest) =
        and_then-ok (validity_seconds (setting (codes "VALIDITY_SECONDS"))) _ h in
      let (body, sized, done) =
        and_then-ok (max_body_bytes (setting (codes "MAX_BODY_BYTES"))) _ rest in
      let (above, below) = validity_seconds-ok (setting (codes "VALIDITY_SECONDS")) timed in
      let large = max_body_bytes-ok (setting (codes "MAX_BODY_BYTES")) sized in
      rw (← ok-injective done) (record {
        secret_ne_nil = ground arith;
        device_ne_nil = ground arith;
        url_ne_nil = ground arith;
        validity_from = above;
        validity_til = below;
        body_from = large;
      })

  load_settings-IsUsable :
      (setting : Text → Text) {c : Config PrivateKey}
      → load_settings keys setting ≡ ok c
      → IsUsable c
  unfolding load_settings
  load_settings-IsUsable setting h =
      let (a, h1) = refused_unless-ok (is_empty (setting (codes "API_SECRET"))) _ _ h in
      let (b, h2) = refused_unless-ok (is_empty (setting (codes "DEVICE_ID"))) _ _ h1 in
      let (d, h3) = refused_unless-ok (is_empty (setting (codes "SENTINEL_URL"))) _ _ h2 in
      let (key, _, rest) = and_then-ok (load_private_key keys setting) _ h3 in
      with_limits-IsUsable (setting (codes "API_SECRET")) (setting (codes "DEVICE_ID"))
        (setting (codes "SENTINEL_URL")) key setting a b d rest

  -- A configuration that Relay's `Load` returns, from whatever file and environment, names a
  -- secret, a device and an address, has a validity of 1 to 300 seconds, and reads bodies of 1024
  -- bytes at least.
  pub relay_load-IsUsable :
      (environment : Text → Text) (path : Text) (exists : Bool) (file : Result ConfigError Text)
      {c : Config PrivateKey}
      → load keys environment path exists file ≡ ok c
      → IsUsable c
  unfolding load
  relay_load-IsUsable environment path exists file h =
      let (values, _, loaded) = and_then-ok (file_values path exists file) _ h in
      load_settings-IsUsable (lookup_setting values environment) loaded
