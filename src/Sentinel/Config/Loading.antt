-- ===== src/Sentinel/Config/Loading.antt =====
-- What a configuration that was loaded guarantees.
use remote_pc_controller.Prelude.{
  Bool, false, ◌||◌, Option, none, some, [], ◌∷◌, ◌++◌, ◌≡◌, ◌≢◌, refl, arith,
}
use remote_pc_controller.Prelude.Decimal.{parse_int}
use remote_pc_controller.Prelude.Dict.{Dict}
use remote_pc_controller.Prelude.Int.{ℤ, pos, ◌≤ℤ◌, ltb_ℤ}
use remote_pc_controller.Prelude.Text.{Text, codes, is_empty}
use remote_pc_controller.Errors.{Result, ok, and_then-ok, refused_unless-ok, ok-injective}
use remote_pc_controller.DotEnv.{ConfigError, get, read_dot_env}
use remote_pc_controller.Sentinel.Config.{
  Config, public_key, check_number, number_or, max_body_bytes, clock_skew_seconds, with_limits,
  with_key, load_values, load,
}
use remote_pc_controller.Sentinel.Keys.{KeyFormats}

check_number-ok :
    (t : Text) (out : ℤ → Bool) (x : Option ℤ) {n : ℤ}
    → check_number t out x ≡ ok n
    → (x ≡ some n) × (out n ≡ false)
unfolding check_number
check_number-ok t out none h = cc
check_number-ok t out (some n) h = ground arith

number_or-ok :
    (d : ℤ) (t : Text) (out : ℤ → Bool) (v : Text) {n : ℤ}
    → out d ≡ false
    → number_or d t out v ≡ ok n
    → out n ≡ false
unfolding number_or
number_or-ok d t out [] base h = ground arith
number_or-ok d t out (c ∷ v) base h = (check_number-ok t out (parse_int (c ∷ v)) h).1

max_body_bytes-ok : (v : Text) {n : ℤ} → max_body_bytes v ≡ ok n → pos 1024 ≤ℤ n
unfolding max_body_bytes
max_body_bytes-ok v h =
    let inside = number_or-ok _ _ (λ n. ltb_ℤ n (pos 1024)) v refl h in ground arith

clock_skew_seconds-ok :
    (v : Text) {n : ℤ} → clock_skew_seconds v ≡ ok n → (pos 0 ≤ℤ n) × (n ≤ℤ pos 300)
unfolding clock_skew_seconds
clock_skew_seconds-ok v h =
    let inside = number_or-ok _ _ (λ n. ltb_ℤ n (pos 0) || ltb_ℤ (pos 300) n) v refl h in
    (ground arith, ground arith)

module _ {PublicKey : Type 0} where
  -- The listening address names a port.
  abbrev pub HasPort : Config PublicKey → Type 0
  HasPort c =
      (port : Text) × (n : ℤ) × (c.listen_addr ≡ codes ":" ++ port)
      × (parse_int port ≡ some n)
      × (pos 1 ≤ℤ n)
      × (n ≤ℤ pos 65535)

  pub record IsUsable (c : Config PublicKey) : Type 0 where
    pub port : HasPort c
    pub device_ne_nil : c.device_id ≢ []
    pub body_from : pos 1024 ≤ℤ c.max_body_bytes
    pub skew_nonneg : pos 0 ≤ℤ c.clock_skew_sec
    pub skew_til : c.clock_skew_sec ≤ℤ pos 300

module _ {PublicKey : Type 0} (keys : KeyFormats PublicKey) where
  with_limits-IsUsable :
      (port : Text) (n : ℤ) (key : PublicKey) (device : Text) (values : Dict Text)
      {c : Config PublicKey}
      → parse_int port ≡ some n
      → (ltb_ℤ n (pos 1) || ltb_ℤ (pos 65535) n) ≡ false
      → is_empty device ≡ false
      → with_limits keys port key device values ≡ ok c
      → IsUsable c
  unfolding with_limits
  with_limits-IsUsable port n key device values parsed in_range named h =
      let (body, sized, rest) =
        and_then-ok (max_body_bytes (get (codes "MAX_BODY_BYTES") values)) _ h in
      let (skew, skewed, done) =
        and_then-ok (clock_skew_seconds (get (codes "CLOCK_SKEW_SECONDS") values)) _ rest in
      let large = max_body_bytes-ok (get (codes "MAX_BODY_BYTES") values) sized in
      let (above, below) = clock_skew_seconds-ok (get (codes "CLOCK_SKEW_SECONDS") values) skewed in
      let same = ok-injective done in
      rw (← same) (record {
        port = (port, n, refl, parsed, ground arith, ground arith);
        device_ne_nil = ground arith;
        body_from = large;
        skew_nonneg = above;
        skew_til = below;
      })

  load_values-IsUsable :
      (values : Dict Text) {c : Config PublicKey} → load_values keys values ≡ ok c → IsUsable c
  unfolding load_values with_key
  load_values-IsUsable values h =
      let port = get (codes "PORT") values in
      let (_, with_port) = refused_unless-ok (is_empty port) _ _ h in
      let (n, numbered, keyed) = and_then-ok (check_number _ _ (parse_int port)) _ with_port in
      let (parsed, in_range) = check_number-ok _ _ (parse_int port) numbered in
      let (key, _, with_device) = and_then-ok (public_key keys values) _ keyed in
      let (named, limited) =
        refused_unless-ok (is_empty (get (codes "DEVICE_ID") values)) _ _ with_device in
      with_limits-IsUsable port n key (get (codes "DEVICE_ID") values) values parsed in_range named
        limited

  -- A configuration that Sentinel's `Load` returns names a port from 1 to 65535 and a device,
  -- reads bodies of 1024 bytes at least, and has a skew of 0 to 300 seconds.
  pub load-IsUsable :
      (path : Text) (file : Result ConfigError Text) {c : Config PublicKey}
      → load keys path file ≡ ok c
      → IsUsable c
  unfolding load
  load-IsUsable path file h =
      let (values, _, loaded) = and_then-ok (read_dot_env path file) (load_values keys) h in
      load_values-IsUsable values loaded
