-- ===== src/Sentinel/Start.antt =====
-- sentinel/src/main.go and `runAsWindowsService`, `runtimeFromExecutable` of sentinel/src/app: what the
-- program does when it starts.
use remote_pc_controller.Prelude.{
  Bool, true, false, ◌||◌, Option, none, some, List, [], ◌∷◌, ◌++◌, ◌==◌, ◌⊎◌, inl, inr, ◌≡◌, refl,
  if◌then◌else◌,
}
use remote_pc_controller.Prelude.Decimal.{show}
use remote_pc_controller.Prelude.Dict.{Dict}
use remote_pc_controller.Prelude.Text.{Text, codes, equal}
use remote_pc_controller.Errors.{Error, Result, ok, err}
use remote_pc_controller.DotEnv.{ConfigError}
use remote_pc_controller.Sentinel.Config.{Config, load}
use remote_pc_controller.Sentinel.Keys.{KeyFormats}
use remote_pc_controller.Sentinel.Config.Saved.{Means, load-save}
use remote_pc_controller.Sentinel.Saving.{save_text}
use remote_pc_controller.Sentinel.Saving.RoundTrip.{IsSavable}
use remote_pc_controller.Sentinel.Policy.{CommandError}
use remote_pc_controller.Sentinel.Runtime.{Runtime, runtime_of, new_runtime, new_runtime-loaded}
use remote_pc_controller.Sentinel.Agent.{RunError, ServiceTest, unknown, is_service}

-- What `main` starts: the agent, the window, or a command of the installer with its arguments.
pub data Entry : Type 0 where
  agent window : Entry
  command : List Text → Entry

-- The arguments behind the executable.
entry_of : (Text → Text) → List Text → Entry
unfolding equal
entry_of to_lower [] = window
entry_of to_lower (first ∷ []) = if equal first (codes "service") then command [] else window
entry_of to_lower (first ∷ second ∷ rest) =
    if equal first (codes "service")
    then if equal (to_lower second) (codes "gui") then window else command (second ∷ rest)
    else window

-- main, on what `svc.IsWindowsService` answers; `to_lower` is strings.ToLower.
unfoldable pub main_entry : (Text → Text) → ServiceTest → List Text → Entry
unfolding entry_of
main_entry to_lower (is_service true) args = agent
main_entry to_lower (is_service false) args = entry_of to_lower args
main_entry to_lower (unknown e) args = entry_of to_lower args

-- The writer of the service's log: that of the program, or that of the event log.
pub data LogWriter : Type 0 where
  console event_log : LogWriter

-- What `runAsWindowsService` comes to before it runs the service: an error, nothing, or a service with
-- its log and the lines that are logged before.
pub data ServiceStart : Type 0 where
  fails : RunError → ServiceStart
  no_service : ServiceStart
  serves : LogWriter → List Text → ServiceStart

-- runAsWindowsService, on the error of `OpenEventLog`.
unfoldable pub run_as_windows_service : ServiceTest → Option Text → ServiceStart
run_as_windows_service (unknown e) opened = fails e
run_as_windows_service (is_service false) opened = no_service
run_as_windows_service (is_service true) none = serves event_log []
run_as_windows_service (is_service true) (some e) =
    serves console ((codes "warning: could not open event log, using default logger: " ++ e) ∷ [])

-- Whether an argument asks for the configuration.
unfoldable pub shows_config : List Text → Bool
unfolding equal
shows_config [] = false
shows_config (arg ∷ args) =
    equal arg (codes "--show-config")
    || equal arg (codes "--debug-env")
    || equal arg (codes "-show-config")
    || equal arg (codes "-debug-env")
    || shows_config args

-- strings.TrimPrefix(addr, ":")
port_of : Text → Text
port_of [] = []
port_of (c ∷ s) = if c == b':' then s else c ∷ s

config_lines : {PublicKey : Type 0} → Config PublicKey → List Text
unfolding show port_of
config_lines cfg =
    codes "[DEBUG-ENV] Variables cargadas para Sentinel:"
    ∷ (codes "  PORT="
        ++ (port_of cfg.listen_addr ++ (codes " (LISTEN_ADDR=" ++ (cfg.listen_addr ++ codes ")"))))
    ∷ (codes "  DEVICE_ID=" ++ cfg.device_id)
    ∷ (codes "  MAX_BODY_BYTES=" ++ show cfg.max_body_bytes)
    ∷ (codes "  CLOCK_SKEW_SECONDS=" ++ show cfg.clock_skew_sec)
    ∷ codes "  PUBLIC_KEY=Cargada y válida (RSA)"
    ∷ []

-- Why there is no runtime.
pub data StartError : Type 0 where
  no_executable : Text → StartError
  bad_config : Error ConfigError → StartError
  bad_runtime : Error CommandError → StartError

module _ {PublicKey Executor Clock Logger : Type 0} (keys : KeyFormats PublicKey)
    (system_clock : Clock) (discard logger : Logger) (executor : Executor) where
  abbrev AgentRuntime : Type 0
  AgentRuntime = Runtime PublicKey Executor Clock Logger

  -- The lines that are logged, and the runtime.
  abbrev Started : Type 0
  Started = List Text × (StartError ⊎ AgentRuntime)

  runtime_result : Result CommandError AgentRuntime → StartError ⊎ AgentRuntime
  runtime_result (ok r) = inr r
  runtime_result (err e) = inl (bad_runtime e)

  -- On what `Load` returned.
  runtime_from_config : List Text → Result ConfigError (Config PublicKey) → Started
  unfolding shows_config config_lines runtime_result new_runtime
  runtime_from_config args (err e) = ([], inl (bad_config e))
  runtime_from_config args (ok cfg) = (
    if shows_config args then config_lines cfg else [],
    runtime_result (new_runtime system_clock discard cfg (some logger) (some executor)),
  )

  -- runtimeFromExecutable: the error or the path of the executable, with the path of the `.env` file
  -- beside it, and what `os.ReadFile` returns for that.
  unfoldable pub runtime_from_executable :
      (Text → Text) → Text ⊎ Text → List Text → Result ConfigError Text → Started
  unfolding runtime_from_config load
  runtime_from_executable env_path (inl e) args file = ([], inl (no_executable e))
  runtime_from_executable env_path (inr path) args file =
      runtime_from_config args (load keys (env_path path) file)

  -- If the values can be saved and mean a configuration, then the agent that starts beside the
  -- file that `Save` writes has a runtime, with this configuration, its policy, an empty replay
  -- store, the executor, and the notifier that the configuration asks for.
  pub runtime_from_executable-save_text :
      (env_path : Text → Text) (path : Text) (args : List Text) (host : Option Text)
      (values : Dict Text) (c : Config PublicKey)
      → IsSavable host values
      → Means keys host values c
      → (runtime_from_executable env_path (inr path) args (ok (save_text host values))).1
        ≡ inr (runtime_of system_clock discard c logger executor)
  unfolding runtime_from_executable runtime_from_config runtime_result
  runtime_from_executable-save_text env_path path args host values c s means =
      let loaded = load-save keys host values (env_path path) c s means in
      rw
        (
          loaded,
          new_runtime-loaded system_clock discard keys (env_path path) (ok (save_text host values))
              c logger executor loaded,
        )
        refl
