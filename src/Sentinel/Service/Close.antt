-- ===== src/Sentinel/Service/Close.antt =====
-- The last instant of a command's window: the store has forgotten the command, the policy has not.
use remote_pc_controller.Prelude.{◌<◌, false, none, ◌≡◌, refl, arith}
use remote_pc_controller.Prelude.Int.{ℤ, neg, ◌≤ℤ◌}
use remote_pc_controller.Prelude.Text.{Text}
use remote_pc_controller.Clock.{Time, second, unix, add, after, to_unix}
use remote_pc_controller.Clock.Laws.{nsec-add, before-false_iff}
use remote_pc_controller.Errors.{ok}
use remote_pc_controller.Sentinel.Policy.{
  Policy, Command, Crypto, validate, out_of_time, replay_until,
}
use remote_pc_controller.Sentinel.Policy.Validation.{validate_iff-Passes}
use remote_pc_controller.Sentinel.Replay.{Store, command_key, nonce_key, claim_keys, claim}
use remote_pc_controller.Prelude.Distinct.{IsDistinct}
use remote_pc_controller.Sentinel.Replay.Entries.{lookup-purge}
use remote_pc_controller.Sentinel.Replay.Persistence.{Holds}
use remote_pc_controller.Sentinel.Service.{World, Context, AcceptedCommand, accept}
use remote_pc_controller.Sentinel.Service.Acceptance.{accept_iff}
use remote_pc_controller.Sentinel.Service.Once.{
  Call, call-Effect, Effect-Holds_both, Effect_valid, store_service,
}

-- Entries whose second has come do not stand in the way of a claim.
claim_keys_expired :
    (id nonce : Text) (e e' now : ℤ) (s : Store)
    → Holds (command_key id) e s
    → Holds (nonce_key nonce) e s
    → e ≤ℤ now
    → (claim_keys id nonce e' now s).0 ≡ none
unfolding claim_keys
claim_keys_expired id nonce e e' now s by_id by_nonce later = ground (
  arith,
  by_id.held,
  by_nonce.held,
  lookup-purge now (command_key id) s.entries by_id.distinct,
  lookup-purge now (nonce_key nonce) s.entries by_id.distinct,
)

-- A context that is never cancelled.
abbrev pub live : Context
live = record { at_accept = none; at_claim = none }

module _ {PublicKey : Type 0} (crypto : Crypto PublicKey) (p : Policy PublicKey) (c : Command) where
  -- The last instant of the window is not out of time, if any instant is in time.
  close_in_time :
      (now : Time)
      → now.nsec < second
      → out_of_time p c now ≡ false
      → out_of_time p c (add (unix c.expires_at) p.clock_skew) ≡ false
  unfolding out_of_time after
  close_in_time now fine t =
      let opens = add (unix c.issued_at) (neg p.clock_skew) in
      let closes = add (unix c.expires_at) p.clock_skew in
      let opens_fine = nsec-add (unix c.issued_at) (neg p.clock_skew) in
      let closes_fine = nsec-add (unix c.expires_at) p.clock_skew in
      let early = (before-false_iff now opens fine opens_fine).0 (ground arith) in
      let late = (before-false_iff closes now closes_fine fine).0 (ground arith) in
      let not_early = (before-false_iff closes opens closes_fine opens_fine).1 (omega arith) in
      let not_late = (before-false_iff closes closes closes_fine closes_fine).1 (omega arith) in
      rw (not_early, not_late)

  -- A valid command is still valid at the last instant of its window.
  valid_at_close :
      (now : Time)
      → now.nsec < second
      → validate crypto p c now ≡ none
      → validate crypto p c (replay_until p c) ≡ none
  unfolding replay_until
  valid_at_close now fine v =
      let t = (validate_iff-Passes crypto p c now).0 v in
      (validate_iff-Passes crypto p c (add (unix c.expires_at) p.clock_skew)).1 (record {
        configured = t.configured;
        fields = t.fields;
        for_device = t.for_device;
        hibernates = t.hibernates;
        window = t.window;
        clock = close_in_time now fine t.clock;
        signed = t.signed;
      })

  -- Over the in-memory store with distinct keys, a command that was accepted at a clock with less
  -- than a second of nanoseconds is accepted a second time at the last instant of its window,
  -- `ReplayUntil`, by a call with a live context that follows directly.
  pub accepted_twice :
      (w : World Store) (k : Context) (now : Time) (a : AcceptedCommand)
      → IsDistinct w.storage.entries
      → now.nsec < second
      → (accept crypto (store_service p) k now c w).0 ≡ ok a
      → (accept crypto
          (store_service p)
          live
          (replay_until p c)
          c
          (accept crypto (store_service p) k now c w).1).0
        ≡ ok (record { command = c })
  accepted_twice w k now a d fine good =
      let w' = (accept crypto (store_service p) k now c w).1 in
      let first : Call = record { context = k; now = now; command = c } in
      let effect = call-Effect crypto p w first in
      let (by_id, by_nonce) = Effect-Holds_both crypto p w first _ effect d a good in
      let closes = replay_until p c in
      (accept_iff crypto (store_service p) live closes c w').1 (
        refl,
        valid_at_close now fine (Effect_valid crypto p w first _ effect a good),
        unfold claim in
            claim_keys_expired c.command_id c.nonce (to_unix closes) (to_unix closes)
              (to_unix closes) w'.storage by_id by_nonce (omega arith),
      )
