-- ===== src/Lib.antt =====
-- Relay and Sentinel: two programs that let a phone put a PC into hibernation.
--
-- Relay runs on a server. Its HTTP handler (relay/src/httpapi/handler.go, Relay/Http.antt) checks
-- a bearer token and passes the request to a service (relay/src/command/service.go,
-- Relay/Service.antt), which builds and signs a command (relay/src/command/command.go,
-- Relay/Command.antt, with the random identifiers in Relay/Random.antt) and delivers it over HTTP
-- (relay/src/transport/sentinel.go, Relay/Transport.antt).
--
-- Sentinel runs on the PC. Its handler (sentinel/src/httpapi/handler.go, Sentinel/Http.antt)
-- decodes the command and passes it to a service (sentinel/src/command/service.go,
-- Sentinel/Service.antt), which asks the policy (sentinel/src/command/policy.go,
-- Sentinel/Policy.antt) whether the command is valid, and the replay store
-- (sentinel/src/replay/store.go, Sentinel/Replay.antt) whether it is new. An accepted command is
-- executed by a task of its own (sentinel/src/windows/executor.go, in Sentinel/Service.antt).
--
-- Both programs read a configuration from a `.env` file: DotEnv.antt is the reader, which
-- sentinel/src/config/config.go and relay/src/config/config.go have line for line,
-- Sentinel/Config.antt and Relay/Config.antt are what each file makes of the values,
-- Sentinel/Keys.antt is how `InspectPublicKey` of the former reads a public key, and
-- Sentinel/Runtime.antt and Relay/Runtime.antt how `NewRuntime` of sentinel/src/app/runtime.go
-- and relay/src/app/runtime.go wires a service from them.
--
-- Installer.antt has the commands of sentinel/src/installer/installer.go that register, start,
-- stop and remove Sentinel's service, with `ParsePort` of firewall_windows.go beside it,
-- Installer/Firewall.antt the rest of that file, Installer/Clocked.antt its loop that waits on a
-- clock, Installer/Commands.antt its command line, and Installer/System.antt what they leave
-- behind on the computer, with Windows as a parameter. A call whose error the code drops is an
-- effect that holds this error, and Installer/Signals.antt is about the calls that are made.
-- Installer/EventLog.antt is sentinel/src/installer/eventlog.go, and Installer/Privileges.antt
-- has the test of the privileges, the console of the parent and the elevation of
-- sentinel/src/installer/uac_windows.go.
--
-- Sentinel/Saving.antt is the other half of config.go: what `Save` writes, and the default
-- values. Sentinel/Start.antt is how the program starts (sentinel/src/main.go,
-- sentinel/src/app/run.go), and Sentinel/Agent.antt how the agent runs and ends, in a console or
-- as a Windows service (sentinel/src/app/service_windows.go). Relay/Start.antt is
-- relay/src/app/run.go. Sentinel/Notify.antt has the messages of
-- sentinel/src/notify/notify_windows.go.
--
-- The window of sentinel/src/installer/gui_windows.go is a record of its texts, check boxes and
-- buttons (Installer/Window.antt). Window/KeyText.antt finds a key in a text, Window/Desktop.antt
-- is what a handler meets and does, Window/Texts.antt what it shows, Window/Clicks.antt has the
-- handlers, and Window/Launch.antt the launch and the loop of messages. Window/Controls.antt
-- makes the controls, Window/Layout.antt lays them out, Window/Access.antt reads and changes
-- them, Window/Frame.antt has the fonts and the place on the screen, and Window/Dialogs.antt is
-- the clipboard and the dialog for files.
--
-- Protocol.antt puts the two programs together: what Relay signs is what Sentinel verifies, and
-- Protocol/Exchange.antt takes a request to Relay up to the answers of both programs: the
-- handler, the service and the client of Relay, over the handler of Sentinel.
-- Protocol/Authentic.antt is about forged commands. The routes of `NewHandler` are in
-- Relay/Http/Routes.antt and Sentinel/Http/Routes.antt.
--
-- How the code corresponds to the model:
--   * A Go function is a function of the same name in snake case. A method takes its receiver as
--     an argument. A function that returns an error returns an `Option (Error …)` or a `Result`,
--     with the sentinel errors as constructors (Errors.antt).
--   * A string is a list of code points (Prelude/Text.antt). Numbers of 64 bits are integers that
--     wrap around where the machine's do; times and durations follow package `time`, with its
--     wrap-around and saturation (Clock.antt).
--   * State is passed on: the store is a record with an association list (Prelude/Dict.antt), the
--     service's effects are a `World` of storage, audit lines and calls of the executor.
--   * What the code gets from outside is a parameter: the clock, the contexts' errors, the random
--     bytes, SHA-256, RSA-PSS, base64, PEM and X.509, the contents of files, what Windows
--     answers, and the results of the JSON decoder and of the HTTP client. Where the two programs
--     meet, a `Wire` is what JSON does on both sides, and a `Trip` what the network does to a
--     request. Theorems that rely on the cryptography take the hypotheses of
--     `Protocol.IsMatched`, or of `Protocol.Authentic.IsUnforgeable`.
--   * The handlers run concurrently and meet in the store's mutex only; Sentinel/Http/Server.antt
--     takes requests and tasks as the steps of a relation, in any order.
--   * The loops run over lists. `waitForState` runs over the answers to its queries before the
--     deadline; Clocked.antt has it with fuel for its rounds, each of which sleeps, and the fuel
--     that is enough is one more than the sleeps until the deadline.
--   * A panic, which ends the program in Go, is an error of its own, `panic`, in the reading of
--     keys, and no window (`none`) in the handlers of the window.
--
-- Not modelled: the HTTP servers' own loops and the service manager (libraries), the class, the
-- timer and the drawing of the window, the stubs for other systems, and Relay's entry point,
-- which makes a logger.
--
pub mod Prelude
pub mod Clock
pub mod Errors
pub mod DotEnv
pub mod Sentinel
pub mod Relay
pub mod Installer
pub mod Protocol
mod Witnesses
