-- ===== src/Relay/Start.antt =====
-- `Run` of relay/src/app/run.go and of relay/src/app/runtime.go: how the relay starts and ends.
use remote_pc_controller.Prelude.{
  Bool, true, false, Option, none, some, ◌⊎◌, inl, inr, if◌then◌else◌,
}
use mathlib.Core.Option
use remote_pc_controller.Prelude.Text.{Text, codes, is_empty}
use remote_pc_controller.Errors.{Error, Result, ok, err}
use remote_pc_controller.DotEnv.{ConfigError}
use remote_pc_controller.Relay.Command.{RelayError}
use remote_pc_controller.Relay.Config.{Config, KeyFormats, load}
use remote_pc_controller.Relay.Runtime.{Runtime, new_runtime}

-- What ends the `select` of `Runtime.Run`: its context, and what `Shutdown` then returns, or the
-- server, whose error is http.ErrServerClosed or another.
pub data Wake : Type 0 where
  context_done : Option Text → Wake
  server_closed : Wake
  server_failed : Text → Wake

-- Runtime.Run
unfoldable pub runtime_run : Wake → Option Text
runtime_run (context_done shutdown) = shutdown
runtime_run server_closed = none
runtime_run (server_failed e) = some e

-- The errors of `Run`.
pub data StartError : Type 0 where
  no_logger : StartError
  no_executable : Text → StartError
  bad_config : Error ConfigError → StartError
  bad_runtime : Error RelayError → StartError
  stopped : Text → StartError

-- The path of the `.env` file: the variable ENV_FILE, or beside the executable.
unfoldable pub env_file : (Text → Text) → Text → Text ⊎ Text → StartError ⊎ Text
env_file beside variable executable =
    if is_empty variable
    then elim executable [ inl e ↦ inl (no_executable e) | inr path ↦ inr (beside path) ]
    else inr variable

module _ {PrivateKey IdGenerator NonceGenerator Clock : Type 0} (keys : KeyFormats PrivateKey)
    (random_id : IdGenerator) (random_nonce : NonceGenerator) (system_clock : Clock) where
  -- How the runtime ends, if there is one.
  run_runtime :
      Result RelayError (Runtime PrivateKey IdGenerator NonceGenerator Clock)
      → Wake
      → Option StartError
  unfolding runtime_run
  run_runtime (err e) wake = some (bad_runtime e)
  run_runtime (ok r) wake = Option.map stopped (runtime_run wake)

  -- The run on what `Load` returned.
  run_config : Result ConfigError (Config PrivateKey) → Wake → Option StartError
  unfolding run_runtime new_runtime
  run_config (err e) wake = some (bad_config e)
  run_config (ok cfg) wake =
      run_runtime (new_runtime random_id random_nonce system_clock false cfg) wake

  -- Run, on whether the logger is nil, the environment, the executable's path or error, what the
  -- file system holds, and what ends the runtime.
  unfoldable pub run :
      Bool
      → (Text → Text)
      → (Text → Text)
      → Text ⊎ Text
      → (Text → Bool)
      → (Text → Result ConfigError Text)
      → Wake
      → Option StartError
  unfolding env_file run_config load
  run true environment beside executable exists read wake = some no_logger
  run false environment beside executable exists read wake =
      elim (env_file beside (environment (codes "ENV_FILE")) executable) [
        | inl e ↦ some e
        | inr path ↦ run_config (load keys environment path (exists path) (read path)) wake
      ]
