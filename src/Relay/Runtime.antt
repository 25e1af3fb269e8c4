-- ===== src/Relay/Runtime.antt =====
-- relay/src/app/runtime.go and relay/src/app/run.go: from a configuration to the service.
use remote_pc_controller.Prelude.{Bool, true, false, some, [], ◌∷◌, ◌≡◌, arith}
use remote_pc_controller.Prelude.Int.{pos, ◌<ℤ◌, scale_parts}
use remote_pc_controller.Prelude.Text.{Text, codes}
use remote_pc_controller.Clock.{second, times_second}
use remote_pc_controller.Clock.Laws.{times_second_exact}
use remote_pc_controller.Errors.{Result, ok, err, foreign, and_then}
use remote_pc_controller.DotEnv.{ConfigError}
use remote_pc_controller.Relay.Command.{Policy, RelayError}
use remote_pc_controller.Relay.Config.{Config, KeyFormats, load}
use remote_pc_controller.Relay.Config.Loading.{IsUsable, relay_load-IsUsable}
use remote_pc_controller.Relay.Service.{
  Draft, with_signer, with_delivery, apply_option, apply_options, new_service,
}

-- The policy in `NewRuntime`.
unfoldable pub policy_of : {PrivateKey : Type 0} → Config PrivateKey → Policy
policy_of cfg = record {
  device_id = cfg.device_id;
  max_validity = times_second cfg.validity_seconds;
}

pub record Runtime (PrivateKey IdGenerator NonceGenerator Clock : Type 0) : Type 0 where
  pub config : Config PrivateKey
  -- The signer is the private key, and the client is the address that it sends to.
  pub service : Draft IdGenerator NonceGenerator PrivateKey Text Clock

module _ {PrivateKey IdGenerator NonceGenerator Clock : Type 0} (random_id : IdGenerator)
    (random_nonce : NonceGenerator) (system_clock : Clock) where
  -- NewRuntime; the first argument tells whether the logger is nil.
  unfoldable pub new_runtime :
      Bool
      → Config PrivateKey
      → Result RelayError (Runtime PrivateKey IdGenerator NonceGenerator Clock)
  unfolding policy_of new_service
  new_runtime true cfg = err (foreign (codes "logger is required"))
  new_runtime false cfg =
      and_then
        (new_service random_id random_nonce system_clock (policy_of cfg) (
          some (with_signer (some cfg.private_key))
          ∷ some (with_delivery (some cfg.sentinel_url))
          ∷ []))
        λ service. ok (record { config = cfg; service = service })

  abbrev wired : Config PrivateKey → Draft IdGenerator NonceGenerator PrivateKey Text Clock
  wired cfg = record {
    policy = policy_of cfg;
    id = some random_id;
    nonce = some random_nonce;
    sign = some cfg.private_key;
    deliver = some cfg.sentinel_url;
    now = some system_clock;
  }

  new_service-wired :
      (c : Config PrivateKey)
      → IsUsable c
      → new_service random_id random_nonce system_clock (policy_of c) (
          some (with_signer (some c.private_key)) ∷ some (with_delivery (some c.sentinel_url)) ∷ [])
        ≡ ok (wired c)
  unfolding new_service apply_options apply_option policy_of
  new_service-wired c u =
      let exact =
        times_second_exact c.validity_seconds (omega (arith, u.validity_from)) u.validity_til in
      let positive : pos 0 <ℤ times_second c.validity_seconds =
        rw exact (omega (arith, scale_parts second c.validity_seconds, u.validity_from)) in
      ground (arith, positive, u.device_ne_nil)

  -- Every configuration that Relay's `Load` returns gives a runtime, for a logger; its service
  -- has the device, the key and the address of the configuration, and the generators and the
  -- clock of the program.
  pub relay_loaded_starts :
      (keys : KeyFormats PrivateKey) (environment : Text → Text) (path : Text) (exists : Bool)
      (file : Result ConfigError Text) (c : Config PrivateKey)
      → load keys environment path exists file ≡ ok c
      → new_runtime false c ≡ ok (record { config = c; service = wired c })
  unfolding new_runtime
  relay_loaded_starts keys environment path exists file c h =
      let made = new_service-wired c (relay_load-IsUsable keys environment path exists file h) in
      ground (arith, made)
