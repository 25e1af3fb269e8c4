-- ===== src/Sentinel/Runtime.antt =====
-- sentinel/src/app/runtime.go and the wiring in sentinel/src/app/run.go: from a configuration to the
-- service and its server.
use remote_pc_controller.Prelude.{Option, none, some, [], ◌∷◌, ◌≡◌, refl, if◌then◌else◌, arith}
use remote_pc_controller.Prelude.Int.{scale_parts}
use remote_pc_controller.Prelude.Text.{Text, codes}
use remote_pc_controller.Clock.{second, times_second}
use remote_pc_controller.Clock.Laws.{times_second_exact}
use remote_pc_controller.Errors.{Result, ok, err, foreign, and_then}
use remote_pc_controller.DotEnv.{ConfigError}
use remote_pc_controller.Sentinel.Config.{Config, load}
use remote_pc_controller.Sentinel.Keys.{KeyFormats}
use remote_pc_controller.Sentinel.Config.Loading.{IsUsable, load-IsUsable}
use remote_pc_controller.Sentinel.Policy.{
  Policy, CommandError, default_max_validity, validate_configuration,
}
use remote_pc_controller.Sentinel.Policy.Validation.{IsConfigured, configuration_iff}
use remote_pc_controller.Sentinel.Replay.{Store, new_store}
use remote_pc_controller.Sentinel.Service.Assembly.{
  Draft, with_replay_protector, with_action_executor, with_audit_logger, apply_option,
  apply_options, default_audit, new_service,
}

-- The policy in `NewRuntime`: the product of two durations has 64 bits.
unfoldable pub policy_of : {PublicKey : Type 0} → Config PublicKey → Policy PublicKey
policy_of cfg = record {
  device_id = cfg.device_id;
  public_key = some cfg.public_key;
  clock_skew = times_second cfg.clock_skew_sec;
  max_validity = default_max_validity;
}

policy_of-IsConfigured :
    {PublicKey : Type 0} (c : Config PublicKey) → IsUsable c → IsConfigured (policy_of c)
unfolding policy_of
policy_of-IsConfigured c u =
    let exact = times_second_exact c.clock_skew_sec u.skew_nonneg u.skew_til in
    record {
      device_ne_nil = u.device_ne_nil;
      key_ne_none = ground arith;
      skew_nonneg = rw exact (omega (arith, scale_parts second c.clock_skew_sec, u.skew_nonneg));
      validity_pos = ground arith;
    }

-- The two notifiers.
pub data Notifier : Type 0 where
  windows no_op : Notifier

pub record Runtime (PublicKey Executor Clock Logger : Type 0) : Type 0 where
  pub config : Config PublicKey
  pub logger : Logger
  pub service : Draft PublicKey Store Executor Clock Logger
  pub notifier : Notifier

module _ {PublicKey Executor Clock Logger : Type 0} (system_clock : Clock) (discard : Logger) where
  -- NewRuntime
  unfoldable pub new_runtime :
      Config PublicKey
      → Option Logger
      → Option Executor
      → Result CommandError (Runtime PublicKey Executor Clock Logger)
  unfolding policy_of new_service new_store
  new_runtime cfg none executor = err (foreign (codes "logger is required"))
  new_runtime cfg (some logger) executor =
      and_then
        (new_service system_clock discard (policy_of cfg) (
          some (with_replay_protector (some new_store))
          ∷ some (with_action_executor executor)
          ∷ some (with_audit_logger (some logger))
          ∷ []))
        λ service. ok (record {
          config = cfg;
          logger = logger;
          service = service;
          notifier = if cfg.enable_notifications then windows else no_op;
        })

  abbrev wired : Policy PublicKey → Logger → Executor → Draft PublicKey Store Executor Clock Logger
  wired p logger executor = record {
    policy = p;
    replay = some new_store;
    executor = some executor;
    now = some system_clock;
    audit = some logger;
  }

  new_service-wired :
      (p : Policy PublicKey) (logger : Logger) (executor : Executor)
      → validate_configuration p ≡ none
      → new_service system_clock discard p (
          some (with_replay_protector (some new_store))
          ∷ some (with_action_executor (some executor))
          ∷ some (with_audit_logger (some logger))
          ∷ [])
        ≡ ok (wired p logger executor)
  unfolding new_service apply_options apply_option default_audit
  new_service-wired p logger executor valid = ground arith

  -- The runtime of a configuration.
  abbrev pub runtime_of :
      Config PublicKey → Logger → Executor → Runtime PublicKey Executor Clock Logger
  runtime_of c logger executor = record {
    config = c;
    logger = logger;
    service = wired (policy_of c) logger executor;
    notifier = if c.enable_notifications then windows else no_op;
  }

  pub new_runtime-loaded :
      (keys : KeyFormats PublicKey) (path : Text) (file : Result ConfigError Text)
      (c : Config PublicKey) (logger : Logger) (executor : Executor)
      → load keys path file ≡ ok c
      → new_runtime c (some logger) (some executor) ≡ ok (runtime_of c logger executor)
  unfolding new_runtime
  new_runtime-loaded keys path file c logger executor h =
      let usable = load-IsUsable keys path file h in
      let valid = (configuration_iff (policy_of c)).1 (policy_of-IsConfigured c usable) in
      let made = new_service-wired (policy_of c) logger executor valid in ground (arith, made)

  -- Every configuration that Sentinel's `Load` returns gives a runtime, for a logger and an
  -- executor; its service has the policy of the configuration, an empty store, the executor, the
  -- program's clock and the logger.
  pub loaded_starts :
      (keys : KeyFormats PublicKey) (path : Text) (file : Result ConfigError Text)
      (c : Config PublicKey) (logger : Logger) (executor : Executor)
      → load keys path file ≡ ok c
      → (r : Runtime PublicKey Executor Clock Logger) × (new_runtime c (some logger) (some executor)
          ≡ ok r)
        × (r.service ≡ wired (policy_of c) logger executor)
  loaded_starts keys path file c logger executor h =
      (runtime_of c logger executor, new_runtime-loaded keys path file c logger executor h, refl)
