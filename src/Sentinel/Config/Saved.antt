-- ===== src/Sentinel/Config/Saved.antt =====
-- The file that `Save` writes, as `Load` reads it.
use remote_pc_controller.Prelude.{
  Bool, false, ◌||◌, Option, some, [], ◌∷◌, ◌++◌, ◌≡◌, ◌≢◌, refl, arith,
}
use remote_pc_controller.Prelude.Decimal.{parse_int}
use remote_pc_controller.Prelude.Dict.{Dict}
use remote_pc_controller.Prelude.Int.{ℤ, pos, ◌≤ℤ◌, ltb_ℤ}
use remote_pc_controller.Prelude.Text.{Text, codes, is_empty}
use remote_pc_controller.Errors.{ok}
use remote_pc_controller.DotEnv.{get, read_dot_env}
use remote_pc_controller.Sentinel.Saving.{saved_value, saved_device, clean_key, save_text}
use remote_pc_controller.Sentinel.Saving.RoundTrip.{IsSavable, IsRead, parse-save}
use remote_pc_controller.Sentinel.Keys.{KeyFormats, validate_public_key_pem}
use remote_pc_controller.Sentinel.Config.{
  Config, public_key, check_number, number_or, max_body_bytes, clock_skew_seconds, parse_bool,
  notifications, with_limits, with_key, load_values, load,
}

in_range : (low high n : ℤ) → low ≤ℤ n → n ≤ℤ high → (ltb_ℤ n low || ltb_ℤ high n) ≡ false
in_range low high n above below = ground arith

large_enough : (low n : ℤ) → low ≤ℤ n → ltb_ℤ n low ≡ false
large_enough low n above = ground arith

notifications_of : (v : Text) {b : Bool} → parse_bool v ≡ some b → notifications v ≡ b
unfolding notifications
notifications_of v h = rw (notifications, h) refl

module _ {PublicKey : Type 0} (keys : KeyFormats PublicKey) (host : Option Text)
    (values : Dict Text) where
  -- The values mean a configuration: the numbers are in range, and the key is one.
  pub record Means (c : Config PublicKey) : Type 0 where
    pub port : ℤ
    pub port_is : parse_int (saved_value (codes "PORT") (codes "9876") values) ≡ some port
    pub port_from : pos 1 ≤ℤ port
    pub port_til : port ≤ℤ pos 65535
    pub address : c.listen_addr ≡ codes ":" ++ saved_value (codes "PORT") (codes "9876") values
    pub device : c.device_id ≡ saved_device host values
    pub key_ne_nil : clean_key (get (codes "PUBLIC_KEY") values) ≢ []
    pub key_is :
        validate_public_key_pem keys (clean_key (get (codes "PUBLIC_KEY") values)) ≡ ok c.public_key
    pub body_is :
        parse_int (saved_value (codes "MAX_BODY_BYTES") (codes "65536") values)
        ≡ some c.max_body_bytes
    pub body_from : pos 1024 ≤ℤ c.max_body_bytes
    pub skew_is :
        parse_int (saved_value (codes "CLOCK_SKEW_SECONDS") (codes "5") values)
        ≡ some c.clock_skew_sec
    pub skew_nonneg : pos 0 ≤ℤ c.clock_skew_sec
    pub skew_til : c.clock_skew_sec ≤ℤ pos 300
    pub notifications_are :
        parse_bool (saved_value (codes "ENABLE_NOTIFICATIONS") (codes "true") values)
        ≡ some c.enable_notifications

  check_number_in :
      (t : Text) (out : ℤ → Bool) (n : ℤ) → out n ≡ false → check_number t out (some n) ≡ ok n
  unfolding check_number
  check_number_in t out n h = rw h refl

  number_or_in :
      (d : ℤ) (t : Text) (out : ℤ → Bool) (v : Text) (n : ℤ)
      → v ≢ []
      → parse_int v ≡ some n
      → out n ≡ false
      → number_or d t out v ≡ ok n
  unfolding number_or
  number_or_in d t out [] n ne parsed h = absurd (ne refl)
  number_or_in d t out (c ∷ v) n ne parsed h = rw parsed (check_number_in t out n h)

  not_empty : (v : Text) → v ≢ [] → is_empty v ≡ false
  not_empty [] h = absurd (h refl)
  not_empty (c ∷ v) h = refl

  with_limits-read :
      (m : Dict Text) (c : Config PublicKey)
      → IsSavable host values
      → IsRead host values m
      → Means c
      → with_limits keys
          (saved_value (codes "PORT") (codes "9876") values)
          c.public_key
          (saved_device host values)
          m
        ≡ ok c
  unfolding with_limits max_body_bytes clock_skew_seconds notifications
  with_limits-read m c s r means =
      rw
        (
          r.body,
          number_or_in (pos 65536) (codes "MAX_BODY_BYTES is invalid") (λ n. ltb_ℤ n (pos 1024)) _ _
              s.body.ne_nil means.body_is
              (large_enough (pos 1024) c.max_body_bytes means.body_from),
          r.skew,
          number_or_in (pos 5) (codes "CLOCK_SKEW_SECONDS is invalid")
              (λ n. ltb_ℤ n (pos 0) || ltb_ℤ (pos 300) n) _ _ s.skew.ne_nil means.skew_is
              (in_range (pos 0) (pos 300) c.clock_skew_sec means.skew_nonneg means.skew_til),
          r.notifications,
          notifications_of _ means.notifications_are,
          ← means.address,
          ← means.device,
        )
        refl

  load_values-read :
      (m : Dict Text) (c : Config PublicKey)
      → IsSavable host values
      → IsRead host values m
      → Means c
      → load_values keys m ≡ ok c
  unfolding load_values with_key public_key
  load_values-read m c s r means =
      rw
        (
          r.port,
          not_empty _ s.port.ne_nil,
          means.port_is,
          check_number_in (codes "PORT must be between 1 and 65535")
              (λ n. ltb_ℤ n (pos 1) || ltb_ℤ (pos 65535) n) means.port
              (in_range (pos 1) (pos 65535) means.port means.port_from means.port_til),
          r.key,
          not_empty _ means.key_ne_nil,
          means.key_is,
          r.device,
          not_empty _ s.device.ne_nil,
        )
        (with_limits-read m c s r means)

  -- If the values can be saved and mean a configuration (the numbers are in range, and the key is
  -- one), then `Load` of the text that `Save` writes returns this configuration.
  pub load-save :
      (path : Text) (c : Config PublicKey)
      → IsSavable host values
      → Means c
      → load keys path (ok (save_text host values)) ≡ ok c
  unfolding load read_dot_env
  load-save path c s means =
      let (m, parsed, read) = parse-save host values s in
      rw parsed (load_values-read m c s read means)
