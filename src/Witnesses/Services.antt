-- ===== src/Witnesses/Services.antt =====
-- Witnesses for the theorems on Sentinel's store, service and HTTP interface.
use remote_pc_controller.Prelude.{ℕ, Option, none, some, List, [], ◌∷◌, ◌≡◌, ◌≢◌, inl, refl, arith}
use remote_pc_controller.Prelude.Decimal.{show, show_ℕ, digits}
use remote_pc_controller.Prelude.Dict.{lookup}
use remote_pc_controller.Prelude.Int.{
  pos, ◌+ℤ◌, ◌-ℤ◌, ◌<ℤ◌, neg, scale, floor_div, floor_mod, wrap64,
}
use remote_pc_controller.Prelude.Text.{codes, equal}
use remote_pc_controller.Clock.{Time, unix, to_unix, add, sub, saturate, before, after, nanos}
use remote_pc_controller.Errors.{ok}
use remote_pc_controller.Sentinel.Policy.{
  validate, replay_until, validate_configuration, bad_window, out_of_time, check_signature,
  check_decoded, verified, canonical,
}
use remote_pc_controller.Sentinel.Replay.{Store, new_store, claim}
use remote_pc_controller.Sentinel.Replay.Persistence.{Request}
use remote_pc_controller.Sentinel.Replay.History.{successes, ledger_successes, successes-ledger}
use remote_pc_controller.Sentinel.Service.{World, AcceptedCommand, accept}
use remote_pc_controller.Sentinel.Service.Acceptance.{Outcome, accept-Outcome}
use remote_pc_controller.Sentinel.Service.Once.{Call, call, calls, store_service, accepted_once}
use remote_pc_controller.Sentinel.Service.Close.{live, accepted_twice}
use remote_pc_controller.Sentinel.Service.Assembly.{
  ServiceOption, Draft, with_replay_protector, with_action_executor, new_service, apply_options,
  apply_option, IsComplete, new_service-IsComplete,
}
use remote_pc_controller.Witnesses.{tiny_crypto, sentinel_policy, sample_command, sample_now}

abbrev empty_world : World Store
empty_world = record { storage = record { entries = [] }; audit = []; hibernations = 0 }

abbrev sample_call : Call
sample_call = record { context = live; now = sample_now; command = sample_command }

abbrev pub sample_accepted : AcceptedCommand
sample_accepted = record { command = sample_command }

sample_unix : to_unix sample_now ≡ pos 1010
unfolding to_unix wrap64 ◌-ℤ◌ ◌+ℤ◌ neg
sample_unix = refl

abbrev sample_expiry : Time
sample_expiry = record { sec = pos 62135597835; nsec = 0 }

sample_expiry_unix : to_unix sample_expiry ≡ pos 1035
unfolding to_unix wrap64 ◌-ℤ◌ ◌+ℤ◌ neg
sample_expiry_unix = refl

sample_replay_until : replay_until sentinel_policy sample_command ≡ sample_expiry
unfolding replay_until add unix wrap64 ◌+ℤ◌ ◌-ℤ◌ saturate floor_div floor_mod
sample_replay_until = refl

sample_in_time : to_unix sample_now <ℤ to_unix sample_expiry
sample_in_time = rw (sample_unix, sample_expiry_unix) (ground arith)

pub sample_in_window : to_unix sample_now <ℤ to_unix (replay_until sentinel_policy sample_command)
sample_in_window = rw sample_replay_until sample_in_time

abbrev pub sample_claim : Request
sample_claim = record {
  context = none;
  id = codes "a1";
  nonce = codes "n1";
  expires = sample_expiry;
  now = sample_now;
}

successes-ledger_example :
    successes new_store (sample_claim ∷ sample_claim ∷ [])
    ≡ ledger_successes [] (sample_claim ∷ sample_claim ∷ [])
successes-ledger_example =
    successes-ledger (pos 0) (sample_claim ∷ sample_claim ∷ [])
      (rw sample_unix (ground arith), (rw sample_unix (ground arith), tt))

pub sample_accepts :
    (call tiny_crypto sentinel_policy empty_world sample_call).0 ≡ ok sample_accepted
unfolding accept validate validate_configuration equal bad_window out_of_time after before unix sub
    add saturate nanos wrap64 ◌+ℤ◌ ◌-ℤ◌ scale floor_div floor_mod neg check_signature check_decoded
    verified canonical show show_ℕ digits claim lookup to_unix
sample_accepts = refl

accepted_once_example :
    (call tiny_crypto sentinel_policy
      (calls tiny_crypto sentinel_policy
        (call tiny_crypto sentinel_policy empty_world sample_call).1
        (sample_call ∷ []))
      sample_call).0
    ≢ ok sample_accepted
accepted_once_example =
    accepted_once tiny_crypto sentinel_policy empty_world sample_call (sample_call ∷ []) sample_call
      sample_accepted sample_accepted tt sample_accepts (inl refl) (sample_in_window, tt)
      sample_in_window

accepted_twice_example :
    (accept tiny_crypto
      (store_service sentinel_policy)
      live
      (replay_until sentinel_policy sample_command)
      sample_command
      (accept tiny_crypto
        (store_service sentinel_policy)
        live
        sample_now
        sample_command
        empty_world).1).0
    ≡ ok sample_accepted
accepted_twice_example =
    accepted_twice tiny_crypto sentinel_policy sample_command empty_world live sample_now
      sample_accepted tt (ground arith) sample_accepts

accept-Outcome_example :
    Outcome tiny_crypto (store_service sentinel_policy) live sample_now sample_command empty_world (
      accept tiny_crypto (store_service sentinel_policy) live sample_now sample_command empty_world)
accept-Outcome_example =
    accept-Outcome tiny_crypto (store_service sentinel_policy) live sample_now sample_command
      empty_world

abbrev sample_options : List (Option (ServiceOption ℕ ℕ ℕ ℕ))
sample_options =
    some (with_replay_protector (some 1)) ∷ none ∷ some (with_action_executor (some 2)) ∷ []

abbrev sample_draft : Draft ℕ ℕ ℕ ℕ ℕ
sample_draft = record {
  policy = sentinel_policy;
  replay = some 1;
  executor = some 2;
  now = some 3;
  audit = some 4;
}

new_service-IsComplete_example : (sentinel_policy ≡ sentinel_policy) × IsComplete sample_draft
unfolding new_service validate_configuration apply_options apply_option
new_service-IsComplete_example =
    new_service-IsComplete 3 4 sentinel_policy sample_options {s = sample_draft} refl
