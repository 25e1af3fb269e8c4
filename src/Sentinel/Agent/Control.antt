-- ===== src/Sentinel/Agent/Control.antt =====
-- How the Windows service ends, and what it reports.
use remote_pc_controller.Prelude.{
  ℕ, Option, none, some, List, [], ◌∷◌, ◌≡◌, ◌≢◌, ◌⊎◌, inl, inr, ◌↔◌, refl, sym, ◌∙◌, arith,
}
use remote_pc_controller.Sentinel.Agent.{
  RunError, Status, Event, request, done, ended, Report, cmd_stop, cmd_shutdown, await_done, handle,
  stopped_itself, control_loop, execute,
}

-- A stop or shutdown request.
abbrev pub IsStop : ℕ → Type 0
IsStop cmd = (cmd ≡ cmd_stop) ⊎ (cmd ≡ cmd_shutdown)

-- The runtime ends in some event.
pub data Finishes : List Event → Type 0 where
  finished : (e : Option RunError) (events : List Event) → Finishes (done e ∷ events)
  unread :
      (cmd : ℕ) (s : Status) {events : List Event}
      → Finishes events
      → Finishes (request cmd s ∷ events)

-- A stop is requested before the runtime ends, and the runtime ends behind it.
pub data Stops : List Event → Type 0 where
  stopped :
      (cmd : ℕ) (s : Status) {events : List Event}
      → IsStop cmd
      → Finishes events
      → Stops (request cmd s ∷ events)
  other :
      (cmd : ℕ) (s : Status) {events : List Event} → Stops events → Stops (request cmd s ∷ events)

await_done_ends : {events : List Event} → Finishes events → await_done events ≡ ended 0
unfolding await_done
await_done_ends (finished e events) = refl
await_done_ends (unread cmd s f) = await_done_ends f

await_done-Finishes : (events : List Event) (n : ℕ) → await_done events ≡ ended n → Finishes events
unfolding await_done
await_done-Finishes [] n h = cc
await_done-Finishes (request cmd s ∷ events) n h = unread cmd s (await_done-Finishes events n h)
await_done-Finishes (done e ∷ events) n h = finished e events

Stops-Finishes : {events : List Event} → Stops events → Finishes events
Stops-Finishes (stopped cmd s stop f) = unread cmd s f
Stops-Finishes (other cmd s later) = unread cmd s (Stops-Finishes later)

handle_ends :
    (cmd : ℕ) (s : Status) (events : List Event) (later : Report)
    → (IsStop cmd × ((handle cmd s events later).ending ≡ await_done events))
      ⊎ ((cmd ≢ cmd_stop)
          × (cmd ≢ cmd_shutdown)
          × ((handle cmd s events later).ending ≡ later.ending))
unfolding handle
handle_ends cmd s events later = ground arith

control_loop-Stops : (events : List Event) → (control_loop events).ending ≡ ended 0 → Stops events
unfolding control_loop stopped_itself
control_loop-Stops [] h = cc
control_loop-Stops (done (some e) ∷ events) h = cc
control_loop-Stops (done none ∷ events) h = cc
control_loop-Stops (request cmd s ∷ events) h =
    elim (handle_ends cmd s events (control_loop events)) [
      | inl p ↦ stopped cmd s p.0 (await_done-Finishes events 0 (sym p.1 ∙ h))
      | inr p ↦ other cmd s (control_loop-Stops events (sym p.2 ∙ h))
    ]

control_loop_ends : {events : List Event} → Stops events → (control_loop events).ending ≡ ended 0
unfolding control_loop
control_loop_ends (stopped cmd s {events} stop f) =
    elim (handle_ends cmd s events (control_loop events)) [
      | inl p ↦ p.1 ∙ await_done_ends f
      | inr p ↦ elim stop [ inl q ↦ absurd (p.0 q) | inr q ↦ absurd (p.1 q) ]
    ]
control_loop_ends (other cmd s {events} later) =
    elim (handle_ends cmd s events (control_loop events)) [
      | inl p ↦ p.1 ∙ await_done_ends (Stops-Finishes later)
      | inr p ↦ p.2 ∙ control_loop_ends later
    ]

-- Once its runtime is there, the Windows service ends with the exit code 0 exactly if a stop or a
-- shutdown is requested and the runtime ends at some point behind that request, with nothing but
-- requests before.
pub execute-Stops : (events : List Event) → ((execute none events).ending ≡ ended 0) ↔ Stops events
unfolding execute
execute-Stops events = (control_loop-Stops events, control_loop_ends)
