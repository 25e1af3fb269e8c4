-- ===== src/Installer.antt =====
-- sentinel/src/installer/installer.go and firewall_windows.go: the commands that register, start,
-- stop and remove the Windows service. What Windows answers to each call is an input; what a
-- command does to the system is the list of its effects, in their order.
pub mod Waiting
pub mod Signals
pub mod System
pub mod Clocked
pub mod Window
pub mod Commands
pub mod EventLog
pub mod Privileges
pub mod Firewall
use remote_pc_controller.Prelude.{
  ℕ, Bool, true, false, not, ◌&&◌, ◌||◌, Option, none, some, List, [], ◌∷◌, ◌++◌, ◌==◌, ltb,
  if◌then◌else◌,
}
use remote_pc_controller.Prelude.Decimal.{show, parse_int}
use remote_pc_controller.Prelude.Int.{ℤ, pos, negsuc, ltb_ℤ}
use remote_pc_controller.Prelude.Text.{Text, codes}

-- svc.State
abbrev pub State : Type 0
State = ℕ

abbrev pub stopped : State
stopped = 1

abbrev pub running : State
running = 4

-- A query's answer: the state, or the text of an error.
pub data Answer : Type 0 where
  state : State → Answer
  failed : Text → Answer

-- What a command does to the system. A signal, a deletion or a creation is listed if Windows carried
-- it out; a call of the others, whose error is dropped or only printed, with that error.
pub data Effect : Type 0 where
  stop_signal start_signal delete_service create_service : Effect
  set_recovery add_event_source remove_event_source remove_rule : (failure : Option Text) → Effect
  add_rule : (port : ℕ) → (failure : Option Text) → Effect

-- What Windows answers, and what the polls of `waitForState` see before its deadline; an optional
-- text is a call's error.
pub record Machine : Type 0 where
  pub is_admin : Bool
  pub executable : Option Text
  pub connect : Option Text
  pub open_service : Option Text
  pub query : Answer
  pub control : Option Text
  pub start_service : Option Text
  pub polls : List Answer
  pub delete : Option Text
  -- The value of PORT in the `.env` file, or the default one.
  pub port : Text
  pub listen : Option Text
  pub create : Option Text
  -- The errors that are dropped or only printed.
  pub recovery : Option Text
  pub add_source : Option Text
  pub remove_source : Option Text
  pub delete_rule : Option Text
  pub open_rule : Option Text

-- The error of a command, and its effects.
abbrev pub Outcome : Type 0
Outcome = Option Text × List Effect

-- stateString
unfoldable pub state_string : State → Text
unfolding show
state_string s =
    if s == 1
    then codes "Stopped"
    else if s == 2
    then codes "Start Pending"
    else if s == 3
    then codes "Stop Pending"
    else if s == 4
    then codes "Running"
    else if s == 5
    then codes "Continue Pending"
    else if s == 6
    then codes "Pause Pending"
    else if s == 7
    then codes "Paused"
    else codes "Unknown (" ++ (show (pos s) ++ codes ")")

-- waitForState, on the answers to the queries before the deadline.
unfoldable pub wait_for_state : State → List Answer → Option Text
unfolding state_string
wait_for_state desired [] =
    some (codes "timed out waiting for service to reach state " ++ state_string desired)
wait_for_state desired (failed e ∷ rest) = some (codes "query service state: " ++ e)
wait_for_state desired (state s ∷ rest) =
    let later = wait_for_state desired rest in if s == desired then none else later

-- ParsePort; 0 comes with an error.
unfoldable pub parse_port : Text → ℕ
unfolding parse_int
parse_port text = elim (parse_int text) [
  | some (pos n) ↦ if ltb n 1 || ltb 65535 n then 0 else n
  | some (negsuc n) ↦ 0
  | none ↦ 0
]

abbrev prefixed : Text → Option Text → Option Text
prefixed t none = none
prefixed t (some e) = some (t ++ e)

abbrev no_admin : Text
no_admin =
    codes "this command requires administrator privileges — run the terminal as Administrator"

-- What every command does first: it asks for the privileges, and connects.
connected : Machine → Outcome → Outcome
connected m rest = if not m.is_admin then (some no_admin, []) else elim m.connect [
  | some e ↦ (some (codes "connect to service manager: " ++ e), [])
  | none ↦ rest
]

-- `start` behind the query.
start_opened : Machine → Outcome
unfolding wait_for_state
start_opened m = elim m.start_service [
  | some e ↦ (some (codes "start service: " ++ e), [])
  | none ↦ (
    prefixed (codes "el servicio no pasó a estado en ejecución: ") (wait_for_state running m.polls),
    start_signal ∷ [],
  )
]

abbrev is_state : State → Answer → Bool
is_state s (state t) = t == s
is_state s (failed e) = false

-- start
unfoldable pub start : Machine → Outcome
unfolding connected start_opened
start m = connected m (elim m.open_service [
  | some e ↦ (
    some (
        codes
          "el servicio \"RemotePcController\" no está instalado. Haz clic en 'Instalar Servicio' primero."),
    [],
  )
  | none ↦ if is_state running m.query then (none, []) else start_opened m
])

-- `stop` behind the query.
stop_opened : Machine → Answer → Outcome
unfolding wait_for_state
stop_opened m (failed e) = (some (codes "query service: " ++ e), [])
stop_opened m (state s) = if s == stopped then (none, []) else elim m.control [
  | some e ↦ (some (codes "stop service: " ++ e), [])
  | none ↦ (
    prefixed (codes "el servicio no se detuvo a tiempo: ") (wait_for_state stopped m.polls),
    stop_signal ∷ [],
  )
]

-- stop: a service that is not installed need not be stopped.
unfoldable pub stop : Machine → Outcome
unfolding connected stop_opened
stop m = connected m (elim m.open_service [ some e ↦ (none, []) | none ↦ stop_opened m m.query ])

-- The attempt of `uninstall` to stop the service; its errors are only printed.
try_stop : Machine → Answer → List Effect
try_stop m (failed e) = []
try_stop m (state s) =
    if s == stopped then [] else elim m.control [ some e ↦ [] | none ↦ stop_signal ∷ [] ]

-- uninstall
unfoldable pub uninstall : Machine → Outcome
unfolding connected try_stop
uninstall m = connected m (elim m.open_service [
  | some e ↦ (some (codes "service \"RemotePcController\" is not installed"), [])
  | none ↦ elim m.delete [
    | some e ↦ (some (codes "delete service: " ++ e), try_stop m m.query)
    | none ↦ (
      none,
      try_stop m m.query
          ++ delete_service ∷ remove_event_source m.remove_source ∷ remove_rule m.delete_rule ∷ [],
    )
  ]
])

-- What `install` does to a service that is there: a query that fails counts as a state that is not
-- stopped, and the errors of the other calls are dropped.
pub replaced : Machine → List Effect
replaced m = elim m.open_service [
  | some e ↦ []
  | none ↦
      (if is_state stopped m.query
        then []
        else elim m.control [ some e ↦ [] | none ↦ stop_signal ∷ [] ])
      ++ elim m.delete [ some e ↦ [] | none ↦ delete_service ∷ [] ]
]

-- The port that the service will listen on.
unfoldable pub install_port : Machine → ℕ
unfolding parse_port
install_port m = if parse_port m.port == 0 then 9876 else parse_port m.port

-- `install` behind the connection to the service manager.
installed : Machine → Outcome
unfolding replaced install_port show
installed m = elim m.listen [
  | some e ↦ (
    some (
        codes "el puerto "
        ++ (show (pos (install_port m)) ++ (codes " no está disponible en 0.0.0.0: " ++ e))),
    replaced m,
  )
  | none ↦ elim m.create [
    | some e ↦ (some (codes "create service: " ++ e), replaced m)
    | none ↦ (
      none,
      replaced m
          ++ create_service
            ∷ set_recovery m.recovery
            ∷ add_event_source m.add_source
            ∷ remove_rule m.delete_rule
            ∷ add_rule (install_port m) m.open_rule
            ∷ [],
    )
  ]
]

-- install
unfoldable pub install : Machine → Outcome
unfolding installed
install m = if not m.is_admin then (some no_admin, []) else elim m.executable [
  | some e ↦ (some (codes "resolve executable path: " ++ e), [])
  | none ↦ elim m.connect [
    | some e ↦ (some (codes "connect to service manager: " ++ e), [])
    | none ↦ installed m
  ]
]
