-- ===== src/Sentinel/Service.antt =====
-- sentinel/src/command/service.go and sentinel/src/windows/executor.go: the service that accepts a
-- command and executes it, with the effects of its calls.
pub mod Assembly
pub mod Acceptance
pub mod Once
pub mod Close
use remote_pc_controller.Prelude.{
  ℕ, ◌+◌, Bool, true, false, not, Option, none, some, List, [], ◌∷◌, ◌++◌, if◌then◌else◌,
}
use remote_pc_controller.Prelude.Text.{Text, codes, equal, is_empty, trim_space}
use remote_pc_controller.Clock.{Time}
use remote_pc_controller.Errors.{Error, sentinel, foreign, Result, ok, err}
use remote_pc_controller.Sentinel.Policy.{
  Policy, Command, Crypto, CommandError, action_hibernate, validate, replay_until,
}

-- The storage port: `claim` takes the context's error, a command's identifier and nonce, the end of
-- the entry and the clock, on a state of its own.
pub record ReplayProtector (Storage : Type 0) : Type 0 where
  pub claim :
      Option (Error CommandError)
      → Text
      → Text
      → Time
      → Time
      → Storage
      → Option (Error CommandError) × Storage

-- What the service writes to its audit logger.
pub data AuditLine : Type 0 where
  rejected : Text → Error CommandError → AuditLine
  accepted : Text → Text → AuditLine
  hibernate_failed : Text → Error CommandError → AuditLine
  hibernate_started : Text → AuditLine

-- A command that passed the policy and the replay check.
pub record AcceptedCommand : Type 0 where
  pub command : Command

-- All that a call of the service can change; `hibernations` counts the calls of the executor.
pub record World (Storage : Type 0) : Type 0 where
  pub storage : Storage
  pub audit : List AuditLine
  pub hibernations : ℕ

-- What a context reports when `Accept` starts, and when `Claim` does.
pub record Context : Type 0 where
  pub at_accept : Option (Error CommandError)
  pub at_claim : Option (Error CommandError)

pub record Service (PublicKey Storage : Type 0) : Type 0 where
  pub policy : Policy PublicKey
  pub replay : ReplayProtector Storage

abbrev pub Accepting : Type 0 → Type 0
Accepting Storage = Result CommandError AcceptedCommand × World Storage

module _ {Storage : Type 0} where
  abbrev log : AuditLine → World Storage → World Storage
  log line w = record w { audit = w.audit ++ line ∷ [] }

  reject : Command → Error CommandError → World Storage → Accepting Storage
  reject c e w = (err e, log (rejected c.command_id e) w)

  -- The end of `Accept`, on what `Claim` returned.
  finish_claim : Command → Option (Error CommandError) × Storage → World Storage → Accepting Storage
  unfolding reject
  finish_claim c (some e, s) w = reject c e (record w { storage = s })
  finish_claim c (none, s) w =
      (ok (record { command = c }), log (accepted c.command_id c.action) (record w { storage = s }))

  -- `Execute` behind the test of the action, on the executor's answer.
  started :
      Text
      → Option (Error CommandError)
      → World Storage
      → Option (Error CommandError) × World Storage
  started id (some e) w = (some e, log (hibernate_failed id e) w)
  started id none w = (none, log (hibernate_started id) w)

  -- Service.Execute; `outcome` is what the executor answers if it is called.
  unfoldable pub execute :
      Option (Error CommandError)
      → AcceptedCommand
      → World Storage
      → Option (Error CommandError) × World Storage
  unfolding started
  execute outcome a w =
      if not (equal a.command.action action_hibernate)
      then (some (sentinel CommandError.unsupported_action), w)
      else started a.command.command_id outcome (record w { hibernations = w.hibernations + 1 })

module _ {PublicKey Storage : Type 0} (crypto : Crypto PublicKey)
    (service : Service PublicKey Storage) where
  -- `Accept` behind the reading of the clock.
  accept_validated :
      Context → Time → Command → Option (Error CommandError) → World Storage → Accepting Storage
  unfolding reject finish_claim
  accept_validated ctx now c (some e) w = reject c e w
  accept_validated ctx now c none w =
      finish_claim c
        (service.replay.claim ctx.at_claim c.command_id c.nonce (replay_until service.policy c) now
          w.storage)
        w

  accept_live :
      Option (Error CommandError) → Context → Time → Command → World Storage → Accepting Storage
  unfolding accept_validated
  accept_live (some e) ctx now c w = (err e, w)
  accept_live none ctx now c w = accept_validated ctx now c (validate crypto service.policy c now) w

  -- Service.Accept; `now` is what the service's clock shows.
  unfoldable pub accept : Context → Time → Command → World Storage → Accepting Storage
  unfolding accept_live
  accept ctx now c w = accept_live ctx.at_accept ctx now c w

-- HibernateExecutor.Hibernate, on what `shutdown.exe /h` gave: its error, if any, and its output.
unfoldable pub hibernate : Option Text → Text → Option (Error CommandError)
unfolding trim_space
hibernate none output = none
hibernate (some e) output =
    let out = trim_space output in
    some (
      foreign (
        if not (is_empty out)
        then codes "shutdown /h failed (" ++ (e ++ (codes "): " ++ out))
        else codes "shutdown /h failed: " ++ e))
