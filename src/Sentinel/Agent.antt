-- ===== src/Sentinel/Agent.antt =====
-- `Run` of sentinel/src/app/runtime.go, sentinel/src/app/run.go and
-- sentinel/src/app/service_windows.go: how the agent runs, in a console or as a Windows service.
pub mod Control
use remote_pc_controller.Prelude.{
  ℕ, Bool, true, false, not, ◌||◌, Option, none, some, List, [], ◌∷◌, ◌++◌, ◌==◌, if◌then◌else◌,
}
use remote_pc_controller.Prelude.Decimal.{show}
use remote_pc_controller.Prelude.Int.{pos}
use remote_pc_controller.Prelude.Text.{Text, codes}

-- The errors that the callers tell apart: http.ErrServerClosed and context.Canceled.
pub data RunError : Type 0 where
  server_closed canceled : RunError
  failure : Text → RunError

abbrev pub run_error_text : RunError → Text
run_error_text server_closed = codes "http: Server closed"
run_error_text canceled = codes "context canceled"
run_error_text (failure t) = t

-- What ends the `select` of `Runtime.Run`: its context, and what `Shutdown` then returns, or the
-- server, whose error is never nil.
pub data Wake : Type 0 where
  context_done : Option RunError → Wake
  server_ended : RunError → Wake

-- Runtime.Run
unfoldable pub runtime_run : Wake → Option RunError
runtime_run (context_done shutdown) = shutdown
runtime_run (server_ended server_closed) = none
runtime_run (server_ended canceled) = some canceled
runtime_run (server_ended (failure t)) = some (failure t)

-- The end of `Run` in a console: a cancelled context is no error.
console_error : Option RunError → Option RunError
console_error (some canceled) = none
console_error r = r

-- What `svc.IsWindowsService` answers: an error, or whether the process is a service.
pub data ServiceTest : Type 0 where
  unknown : RunError → ServiceTest
  is_service : Bool → ServiceTest

-- `Run` behind the test of the logger: `service` is what `svc.Run` returns, `built` the error of
-- `runtimeFromExecutable`, and `wake` what ends the runtime.
unfoldable pub run : Bool → ServiceTest → Option RunError → Option RunError → Wake → Option RunError
unfolding runtime_run console_error
run true test service built wake = some (failure (codes "logger is required"))
run false (unknown e) service built wake = some e
run false (is_service true) service built wake = service
run false (is_service false) service (some e) wake = some e
run false (is_service false) service none wake = console_error (runtime_run wake)

-- svc.Cmd, with the numbers that Windows gives to its controls.
abbrev pub cmd_stop : ℕ
cmd_stop = 1

abbrev pub cmd_interrogate : ℕ
cmd_interrogate = 4

abbrev pub cmd_shutdown : ℕ
cmd_shutdown = 5

-- svc.Status: a state, and the controls that are accepted.
pub record Status : Type 0 where
  pub state : ℕ
  pub accepts : ℕ

abbrev pub start_pending : Status
start_pending = record { state = 2; accepts = 0 }

abbrev pub stop_pending : Status
stop_pending = record { state = 3; accepts = 0 }

-- Running, with AcceptStop | AcceptShutdown.
abbrev pub running_status : Status
running_status = record { state = 4; accepts = 5 }

-- What reaches the loop of `Execute`: a request with the status that the manager knows, or the end of
-- the runtime.
pub data Event : Type 0 where
  request : ℕ → Status → Event
  done : Option RunError → Event

-- What `Execute` returns: it waits, or ends with an exit code. Its first result is always false.
pub data Ending : Type 0 where
  waiting : Ending
  ended : ℕ → Ending

pub record Report : Type 0 where
  pub statuses : List Status
  pub log : List Text
  pub ending : Ending

-- The receive from `done` behind a stop: no request is read any more.
unfoldable pub await_done : List Event → Ending
await_done [] = waiting
await_done (request cmd current ∷ events) = await_done events
await_done (done e ∷ events) = ended 0

abbrev with_status : Status → Report → Report
with_status s r = record r { statuses = s ∷ r.statuses }

abbrev with_log : Text → Report → Report
with_log t r = record r { log = t ∷ r.log }

-- A request, with what the loop does behind it.
handle : ℕ → Status → List Event → Report → Report
unfolding await_done show
handle cmd current events later =
    if cmd == cmd_interrogate
    then with_status current later
    else if cmd == cmd_stop || cmd == cmd_shutdown
    then record { statuses = stop_pending ∷ []; log = []; ending = await_done events }
    else with_log (codes "unexpected service control request: #" ++ show (pos cmd)) later

-- The end of the runtime without a stop.
stopped_itself : Option RunError → Report
stopped_itself none = record { statuses = []; log = []; ending = ended 1 }
stopped_itself (some e) = record {
  statuses = [];
  log = (codes "agent stopped: " ++ run_error_text e) ∷ [];
  ending = ended 1;
}

-- The loop of `Execute`.
unfoldable pub control_loop : List Event → Report
unfolding handle stopped_itself
control_loop [] = record { statuses = []; log = []; ending = waiting }
control_loop (request cmd current ∷ events) = handle cmd current events (control_loop events)
control_loop (done e ∷ events) = stopped_itself e

-- windowsService.Execute; `built` is the error of `runtimeFromExecutable`.
unfoldable pub execute : Option RunError → List Event → Report
unfolding control_loop
execute (some e) events = record {
  statuses = start_pending ∷ [];
  log = (codes "initialize runtime: " ++ run_error_text e) ∷ [];
  ending = ended 1;
}
execute none events = with_status start_pending (with_status running_status (control_loop events))
