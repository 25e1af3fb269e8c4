-- ===== src/Installer/Waiting.antt =====
-- When a service is started, stopped or removed.
use remote_pc_controller.Prelude.{
  ℕ, ◌≤◌, true, false, none, List, [], ◌∷◌, ◌++◌, ◌≡◌, ◌≢◌, ◌↔◌, ◌⊎◌, inl, inr, Bool-cases, ◌==◌,
  All, arith,
}
use remote_pc_controller.Installer.{
  State, Answer, state, failed, Machine, remove_rule, Outcome, running, wait_for_state, connected,
  start_opened, start, stop, uninstall, replaced, parse_port, install_port, installed, install,
  create_service, set_recovery, add_event_source, add_rule,
}

-- Some poll sees the state, and no query before it fails.
pub data Reaches (desired : State) : List Answer → Type 0 where
  now : (rest : List Answer) → Reaches desired (state desired ∷ rest)
  later : (s : State) {rest : List Answer} → Reaches desired rest → Reaches desired (state s ∷ rest)

wait_for_state-Reaches :
    (desired : State) (polls : List Answer)
    → wait_for_state desired polls ≡ none
    → Reaches desired polls
unfolding wait_for_state
wait_for_state-Reaches desired [] h = cc
wait_for_state-Reaches desired (failed e ∷ rest) h = cc
wait_for_state-Reaches desired (state s ∷ rest) h = elim (Bool-cases (s == desired)) [
  | inl q ↦ let same : s ≡ desired = ground arith in rw same (now rest)
  | inr q ↦ later s (wait_for_state-Reaches desired rest (ground arith))
]

Reaches-wait_for_state :
    (desired : State) {polls : List Answer}
    → Reaches desired polls
    → wait_for_state desired polls ≡ none
unfolding wait_for_state
Reaches-wait_for_state desired (now rest) = ground arith
Reaches-wait_for_state desired (later s r) = ground (arith, Reaches-wait_for_state desired r)

-- `waitForState` succeeds exactly if some poll before the deadline sees the state that is waited
-- for, and no query before that poll fails.
pub wait_for_state_iff :
    (desired : State) (polls : List Answer)
    → (wait_for_state desired polls ≡ none) ↔ Reaches desired polls
wait_for_state_iff desired polls =
    (wait_for_state-Reaches desired polls, Reaches-wait_for_state desired)

-- The command reached the service.
abbrev pub IsOpened : Machine → Type 0
IsOpened m = (m.is_admin ≡ true) × (m.connect ≡ none) × (m.open_service ≡ none)

-- The installer's `start` succeeds exactly if it has the privileges, is connected and opens the
-- service, and the service runs already, or takes the signal to start and a poll before the
-- deadline sees it running with no failed query before.
pub start_iff :
    (m : Machine)
    → ((start m).0 ≡ none) ↔ (
        IsOpened m
        × ((m.query ≡ state running)
            ⊎ ((m.query ≢ state running) × (m.start_service ≡ none) × Reaches running m.polls)))
unfolding start connected start_opened
start_iff m =
    let waits = wait_for_state_iff running m.polls in
    (λ h. ground (arith, waits.0), λ h. ground (arith, waits.1))

-- Without an administrator's privileges each of the commands `start`, `stop`, `uninstall` and
-- `install` fails, and has no effect.
pub unprivileged_idle :
    (m : Machine)
    → m.is_admin ≡ false
    → All
        (λ (run : Machine → Outcome). ((run m).0 ≢ none) × ((run m).1 ≡ []))
        (start ∷ stop ∷ uninstall ∷ install ∷ [])
unfolding start stop uninstall install connected
unprivileged_idle m h = (
  (ground arith, ground arith),
  (
    (ground arith, ground arith),
    ((ground arith, ground arith), ((ground arith, ground arith), tt)),
  ),
)

install_port_in_range : (m : Machine) → (1 ≤ install_port m) × (install_port m ≤ 65535)
unfolding install_port parse_port
install_port_in_range m = (ground arith, ground arith)

-- `install` succeeds exactly if it has the privileges, knows its executable, is connected, can
-- bind the port and create the service, and its effects are those on a service that was there,
-- then the creation, and at last a firewall rule for a port from 1 to 65535.
pub install_iff :
    (m : Machine)
    → ((install m).0 ≡ none) ↔ (
        (m.is_admin ≡ true)
        × (m.executable ≡ none)
        × (m.connect ≡ none)
        × (m.listen ≡ none)
        × (m.create ≡ none)
        × ((p : ℕ) × (1 ≤ p)
            × (p ≤ 65535)
            × ((install m).1
                ≡ replaced m
                  ++ create_service
                    ∷ set_recovery m.recovery
                    ∷ add_event_source m.add_source
                    ∷ remove_rule m.delete_rule
                    ∷ add_rule p m.open_rule
                    ∷ [])))
unfolding install installed
install_iff m =
    let (low, high) = install_port_in_range m in
    (
      λ h. (
        ground arith,
        ground arith,
        ground arith,
        ground arith,
        ground arith,
        (install_port m, low, high, ground arith),
      ),
      λ h. ground (arith, h.0, h.1, h.2, h.3, h.4),
    )
