-- ===== src/Sentinel/Policy/Validation.antt =====
-- What `Validate` accepts, and what each of its errors says of the command.
use remote_pc_controller.Prelude.{
  ◌<◌, Bool, true, false, none, some, [], ◌≡◌, ◌≢◌, ◌↔◌, inl, inr, not, ◌||◌, Bool-cases,
  Option-cases, arith,
}
use remote_pc_controller.Prelude.Int.{pos, ◌≤ℤ◌, ◌<ℤ◌, eqb_ℤ, eqb_ℤ_iff}
use remote_pc_controller.Prelude.Text.{Text, is_empty, equal, equal_iff}
use remote_pc_controller.Clock.{Time, second, max_int64, min_int64}
use remote_pc_controller.Errors.{Error, kind}
use remote_pc_controller.Sentinel.Policy.{
  Policy, Command, Crypto, CommandError, canonical, protocol_version, action_hibernate,
  validate_configuration, bad_window, out_of_time, check_signature, validate,
}
use remote_pc_controller.Sentinel.Policy.Window.{
  InRange, IsTimely, IsWindow, IsOpen, bad_window-false, out_of_time-false, window_tests_iff,
}

-- What every command carries.
pub record HasFields (c : Command) : Type 0 where
  pub version_is : c.version ≡ protocol_version
  pub id_ne_nil : c.command_id ≢ []
  pub nonce_ne_nil : c.nonce ≢ []

-- The test of `Validate` on the fields.
abbrev lacks_fields : Command → Bool
lacks_fields c = not (eqb_ℤ c.version protocol_version) || is_empty c.command_id || is_empty c.nonce

lacks_fields-true : (c : Command) → lacks_fields c ≡ true → ¬ HasFields c
lacks_fields-true c t f =
    ground (arith, f.version_is, f.id_ne_nil, f.nonce_ne_nil, eqb_ℤ_iff c.version protocol_version)

lacks_fields-false : (c : Command) → lacks_fields c ≡ false → HasFields c
lacks_fields-false c t = ground (arith, eqb_ℤ_iff c.version protocol_version)

module _ {PublicKey : Type 0} where
  -- A configuration with which commands can be validated.
  pub record IsConfigured (p : Policy PublicKey) : Type 0 where
    pub device_ne_nil : p.device_id ≢ []
    pub key_ne_none : p.public_key ≢ none
    pub skew_nonneg : pos 0 ≤ℤ p.clock_skew
    pub validity_pos : pos 0 <ℤ p.max_validity

  pub configuration_iff :
      (p : Policy PublicKey) → (validate_configuration p ≡ none) ↔ IsConfigured p
  unfolding validate_configuration
  configuration_iff p = (ground arith, ground arith)

  -- The signature decodes, and verifies the canonical text under the policy's key.
  abbrev pub IsSigned : Crypto PublicKey → Policy PublicKey → Command → Type 0
  IsSigned crypto p c =
      (s : Text) × (crypto.decode_base64 c.signature ≡ some s)
      × (crypto.verify_pss p.public_key (crypto.sha256 (canonical c)) s ≡ none)

  -- The whole contract of an accepted command.
  pub record IsAdmissible (crypto : Crypto PublicKey) (p : Policy PublicKey) (c : Command)
      (now : Time) : Type 0 where
    pub configured : IsConfigured p
    pub fields : HasFields c
    pub for_device : c.device_id ≡ p.device_id
    pub hibernates : c.action ≡ action_hibernate
    pub timely : IsTimely p c now
    pub signed : IsSigned crypto p c

module _ {PublicKey : Type 0} (crypto : Crypto PublicKey) (p : Policy PublicKey) (c : Command) where
  pub signature_iff : (check_signature crypto p.public_key c ≡ none) ↔ IsSigned crypto p c
  unfolding check_signature
  signature_iff = (ground arith, ground arith)

  -- The tests of `Validate` that an accepted command has passed, in the source's order.
  pub record Passes (now : Time) : Type 0 where
    pub configured : validate_configuration p ≡ none
    pub fields : HasFields c
    pub for_device : c.device_id ≡ p.device_id
    pub hibernates : c.action ≡ action_hibernate
    pub window : bad_window p c ≡ false
    pub clock : out_of_time p c now ≡ false
    pub signed : check_signature crypto p.public_key c ≡ none

  pub validate_iff-Passes : (now : Time) → (validate crypto p c now ≡ none) ↔ Passes now
  unfolding validate
  validate_iff-Passes now =
      let same_device = equal_iff c.device_id p.device_id in
      let same_action = equal_iff c.action action_hibernate in
      let same_version = eqb_ℤ_iff c.version protocol_version in
      (
        ground (arith, same_device, same_action, same_version),
        ground (arith, same_device, same_action, same_version),
      )

  -- For 64-bit numbers, a skew and a validity that are durations, and a sane clock, `Validate`
  -- accepts a command exactly if the policy is configured, the command has its fields, names this
  -- device and the action to hibernate, is timely in unbounded arithmetic, and its signature
  -- verifies its canonical text.
  pub validate_iff-IsAdmissible :
      (now : Time)
      → InRange p c now
      → (validate crypto p c now ≡ none) ↔ IsAdmissible crypto p c now
  validate_iff-IsAdmissible now r =
      let passes = validate_iff-Passes now in
      let window = window_tests_iff p c now r in
      (
        λ e.
            let t = passes.0 e in
            record {
              configured = (configuration_iff p).0 t.configured;
              fields = t.fields;
              for_device = t.for_device;
              hibernates = t.hibernates;
              timely = window.0 (t.window, t.clock);
              signed = signature_iff.0 t.signed;
            },
        λ a. passes.1 (record {
          configured = (configuration_iff p).1 a.configured;
          fields = a.fields;
          for_device = a.for_device;
          hibernates = a.hibernates;
          window = (window.1 a.timely).0;
          clock = (window.1 a.timely).1;
          signed = signature_iff.1 a.signed;
        }),
      )

  -- The requirements that come before the test of the device, of the action, of the validity, of the
  -- clock, and of the signature.
  abbrev pub MeetsFields : Type 0
  MeetsFields = IsConfigured p × HasFields c

  abbrev pub MeetsDevice : Type 0
  MeetsDevice = MeetsFields × (c.device_id ≡ p.device_id)

  abbrev pub MeetsAction : Type 0
  MeetsAction = MeetsDevice × (c.action ≡ action_hibernate)

  abbrev pub MeetsValidity : Type 0
  MeetsValidity = MeetsAction × IsWindow p c

  abbrev pub MeetsClock : Time → Type 0
  MeetsClock now = MeetsValidity × IsOpen p c now

  -- What an error of `Validate` says: which requirement fails, with all those before it met.
  pub data Refuses (now : Time) : CommandError → Type 0 where
    bad_policy : ¬ IsConfigured p → Refuses now CommandError.invalid_policy
    bad_fields : IsConfigured p → ¬ HasFields c → Refuses now CommandError.invalid_command
    other_device : MeetsFields → c.device_id ≢ p.device_id → Refuses now CommandError.wrong_device
    other_action :
        MeetsDevice → c.action ≢ action_hibernate → Refuses now CommandError.unsupported_action
    bad_validity : MeetsAction → ¬ IsWindow p c → Refuses now CommandError.invalid_command
    wrong_time : MeetsValidity → ¬ IsOpen p c now → Refuses now CommandError.expired_command
    bad_signature :
        MeetsClock now → ¬ IsSigned crypto p c → Refuses now CommandError.invalid_signature

  signature_kind :
      (e : Error CommandError)
      → check_signature crypto p.public_key c ≡ some e
      → kind e ≡ some CommandError.invalid_signature
  unfolding check_signature
  signature_kind e h = ground arith

  configuration_kind :
      (e : Error CommandError)
      → validate_configuration p ≡ some e
      → kind e ≡ some CommandError.invalid_policy
  unfolding validate_configuration
  configuration_kind e h = ground arith

  -- For a 64-bit validity below the largest duration, and a clock with less than a second of
  -- nanoseconds, an error of `Validate` is of the kind of the first requirement that fails, with
  -- all those before it met, in this order: the configuration, the fields, the device, the
  -- action, the window of the command's two instants, the clock in it up to the skew, and the
  -- signature, where the instants are those of package `time`.
  pub validate-Refuses :
      (now : Time) (e : Error CommandError)
      → min_int64 ≤ℤ p.max_validity
      → p.max_validity <ℤ max_int64
      → now.nsec < second
      → validate crypto p c now ≡ some e
      → (k : CommandError) × (kind e ≡ some k) × Refuses now k
  unfolding validate
  validate-Refuses now e from below fine h =
      let window_iff = bad_window-false p c now from below in
      let clock_iff = out_of_time-false p c now fine in
      let same_device = equal_iff c.device_id p.device_id in
      let same_action = equal_iff c.action action_hibernate in
      elim (Option-cases (validate_configuration p)) [
        | inr (x, bad) ↦ (
          CommandError.invalid_policy,
          configuration_kind e (ground arith),
          bad_policy (λ g. cc ((configuration_iff p).1 g, bad)),
        )
        | inl configured ↦ elim (Bool-cases (lacks_fields c)) [
          | inl t ↦ (
            CommandError.invalid_command,
            ground arith,
            bad_fields ((configuration_iff p).0 configured) (lacks_fields-true c t),
          )
          | inr fields ↦
              let met : MeetsFields =
                ((configuration_iff p).0 configured, lacks_fields-false c fields) in
              elim (Bool-cases (equal c.device_id p.device_id)) [
                | inr t ↦ (
                  CommandError.wrong_device,
                  ground arith,
                  other_device met (ground (arith, same_device)),
                )
                | inl device ↦
                    let here : MeetsDevice = (met, same_device.0 device) in
                    elim (Bool-cases (equal c.action action_hibernate)) [
                      | inr t ↦ (
                        CommandError.unsupported_action,
                        ground arith,
                        other_action here (ground (arith, same_action)),
                      )
                      | inl action ↦
                          let known : MeetsAction = (here, same_action.0 action) in
                          elim (Bool-cases (bad_window p c)) [
                            | inl t ↦ (
                              CommandError.invalid_command,
                              ground arith,
                              bad_validity known (λ g. cc (t, window_iff.1 g)),
                            )
                            | inr window ↦
                                let ordered : MeetsValidity = (known, window_iff.0 window) in
                                elim (Bool-cases (out_of_time p c now)) [
                                  | inl t ↦ (
                                    CommandError.expired_command,
                                    ground arith,
                                    wrong_time ordered (λ g. cc (t, clock_iff.1 g)),
                                  )
                                  | inr clock ↦
                                      let unsigned : check_signature crypto p.public_key c
                                          ≡ some e =
                                        ground arith in
                                      (
                                        CommandError.invalid_signature,
                                        signature_kind e unsigned,
                                        bad_signature (ordered, clock_iff.0 clock)
                                            (λ s. cc (signature_iff.1 s)),
                                      )
                                ]
                          ]
                    ]
              ]
        ]
      ]
