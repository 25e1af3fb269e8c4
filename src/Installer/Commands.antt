-- ===== src/Installer/Commands.antt =====
-- `Run`, `status` and `startTypeString` of sentinel/src/installer/installer.go: the command line of the
-- installer.
use remote_pc_controller.Prelude.{
  ℕ, not, Option, none, some, List, [], ◌∷◌, ◌++◌, ◌==◌, if◌then◌else◌,
}
use remote_pc_controller.Prelude.Decimal.{show}
use remote_pc_controller.Prelude.Int.{pos}
use remote_pc_controller.Prelude.Text.{Text, codes, equal}
use remote_pc_controller.Installer.{
  State, Answer, state, failed, Machine, Outcome, state_string, start, stop, uninstall, install,
}

-- What the service's configuration says, and its process.
pub record Service : Type 0 where
  pub display_name : Text
  pub process_id : ℕ
  pub start_type : ℕ
  pub binary : Text

-- startTypeString
unfoldable pub start_type_string : ℕ → Text
unfolding show
start_type_string t =
    if t == 2
    then codes "Automatic"
    else if t == 3
    then codes "Manual"
    else if t == 4
    then codes "Disabled"
    else codes "Unknown (" ++ (show (pos t) ++ codes ")")

-- The lines that `status` prints.
status_lines : Service → State → List Text
unfolding state_string start_type_string show
status_lines s st =
    codes "Service: RemotePcController"
    ∷ (codes "  Display Name: " ++ s.display_name)
    ∷ (codes "  Status:       " ++ state_string st)
    ∷ (codes "  PID:          " ++ show (pos s.process_id))
    ∷ (codes "  Start Type:   " ++ start_type_string s.start_type)
    ∷ (codes "  Binary:       " ++ s.binary)
    ∷ []

-- The error of a command, or the lines that it prints.
status_answer : Service → Answer → Option Text × List Text
unfolding status_lines
status_answer s (failed e) = (some (codes "query service: " ++ e), [])
status_answer s (state st) = (none, status_lines s st)

-- status; the error of `Config` is dropped.
unfoldable pub status : Machine → Service → Option Text × List Text
unfolding status_answer
status m s =
    if not m.is_admin
    then (
      some (
          codes
            "this command requires administrator privileges — run the terminal as Administrator"),
      [],
    )
    else elim m.connect [
      | some e ↦ (some (codes "connect to service manager: " ++ e), [])
      | none ↦ elim m.open_service [
        | some e ↦ (some (codes "service \"RemotePcController\" is not installed"), [])
        | none ↦ status_answer s m.query
      ]
    ]

-- What `Run` comes to: the window, an outcome, what `status` prints, or the usage, with an error.
pub data Dispatch : Type 0 where
  window : Dispatch
  outcome : Outcome → Dispatch
  printed : Option Text × List Text → Dispatch
  usage : Text → Dispatch

-- The command, in small letters, with the argument as it was written.
dispatch : Text → Text → Machine → Service → Dispatch
unfolding equal install uninstall start stop status
dispatch word written m s =
    if equal word (codes "gui")
    then window
    else if equal word (codes "install")
    then outcome (install m)
    else if equal word (codes "uninstall")
    then outcome (uninstall m)
    else if equal word (codes "start")
    then outcome (start m)
    else if equal word (codes "stop")
    then outcome (stop m)
    else if equal word (codes "status")
    then printed (status m s)
    else usage (codes "unknown service command: " ++ written)

-- Run; `to_lower` is strings.ToLower.
unfoldable pub run : (Text → Text) → List Text → Machine → Service → Dispatch
unfolding dispatch
run to_lower [] m s = window
run to_lower (first ∷ rest) m s = dispatch (to_lower first) first m s
