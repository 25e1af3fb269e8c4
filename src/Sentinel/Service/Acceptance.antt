-- ===== src/Sentinel/Service/Acceptance.antt =====
-- When `Accept` lets a command through, and what each branch leaves behind.
use remote_pc_controller.Prelude.{Option, none, some, [], ◌∷◌, ◌++◌, ◌≡◌, ◌↔◌, refl, ap, arith}
use remote_pc_controller.Clock.{Time}
use remote_pc_controller.Errors.{Error, ok, err}
use remote_pc_controller.Sentinel.Policy.{Command, Crypto, CommandError, validate, replay_until}
use remote_pc_controller.Sentinel.Service.{
  Service, World, Context, Accepting, rejected, accepted, finish_claim, accept_validated,
  accept_live, accept,
}

module _ {PublicKey Storage : Type 0} (crypto : Crypto PublicKey)
    (service : Service PublicKey Storage) (ctx : Context) (now : Time) (c : Command)
    (w : World Storage) where
  -- What the replay protector answers, if it is asked.
  abbrev claimed : Option (Error CommandError) × Storage
  claimed =
      service.replay.claim ctx.at_claim c.command_id c.nonce (replay_until service.policy c) now
        w.storage

  -- The three ways in which `Accept` fails, and the one in which it succeeds, each with all that it
  -- leaves behind.
  pub data Outcome : Accepting Storage → Type 0 where
    cancelled : (e : Error CommandError) → ctx.at_accept ≡ some e → Outcome (err e, w)
    refused :
        (e : Error CommandError)
        → ctx.at_accept ≡ none
        → validate crypto service.policy c now ≡ some e
        → Outcome (err e, record w { audit = w.audit ++ rejected c.command_id e ∷ [] })
    repeated :
        (e : Error CommandError)
        → ctx.at_accept ≡ none
        → validate crypto service.policy c now ≡ none
        → claimed.0 ≡ some e
        → Outcome (
          err e,
          record w { storage = claimed.1; audit = w.audit ++ rejected c.command_id e ∷ [] },
        )
    passed :
        ctx.at_accept ≡ none
        → validate crypto service.policy c now ≡ none
        → claimed.0 ≡ none
        → Outcome (
          ok (record { command = c }),
          record w { storage = claimed.1; audit = w.audit ++ accepted c.command_id c.action ∷ [] },
        )

  Outcome-claimed :
      (r : Option (Error CommandError) × Storage)
      → claimed ≡ r
      → ctx.at_accept ≡ none
      → validate crypto service.policy c now ≡ none
      → Outcome (finish_claim c r w)
  unfolding finish_claim
  Outcome-claimed (some e, s) q live valid =
      rw (← ap (λ (r : Option (Error CommandError) × Storage). r.1) q)
        (repeated e live valid (ap (λ (r : Option (Error CommandError) × Storage). r.0) q))
  Outcome-claimed (none, s) q live valid =
      rw (← ap (λ (r : Option (Error CommandError) × Storage). r.1) q)
        (passed live valid (ap (λ (r : Option (Error CommandError) × Storage). r.0) q))

  Outcome-validated :
      (v : Option (Error CommandError))
      → validate crypto service.policy c now ≡ v
      → ctx.at_accept ≡ none
      → Outcome (accept_validated crypto service ctx now c v w)
  unfolding accept_validated
  Outcome-validated (some e) q live = refused e live q
  Outcome-validated none q live = Outcome-claimed claimed refl live q

  Outcome-live :
      (x : Option (Error CommandError))
      → ctx.at_accept ≡ x
      → Outcome (accept_live crypto service x ctx now c w)
  unfolding accept_live
  Outcome-live (some e) q = cancelled e q
  Outcome-live none q = Outcome-validated (validate crypto service.policy c now) refl q

  -- Every call of `Accept` ends in one of four ways, with the result, the audit line and the
  -- storage of each: the context was cancelled, the policy refused, the claim failed, or the
  -- command passed.
  pub accept-Outcome : Outcome (accept crypto service ctx now c w)
  unfolding accept
  accept-Outcome = Outcome-live ctx.at_accept refl

  -- `Accept` lets a command through exactly if the context is live, the command valid and its claim
  -- successful.
  pub accept_iff : ((accept crypto service ctx now c w).0 ≡ ok (record { command = c })) ↔ (
      (ctx.at_accept ≡ none) × (validate crypto service.policy c now ≡ none) × (claimed.0 ≡ none))
  unfolding accept
  accept_iff = (ground arith, ground arith)
