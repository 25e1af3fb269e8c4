-- ===== src/Sentinel/Service/Once.antt =====
-- The service over the in-memory store: how often a command can be accepted.
use remote_pc_controller.Prelude.{none, List, [], ◌∷◌, ◌≡◌, ◌≢◌, ◌⊎◌, inl, inr, refl, ap, sym, All}
use remote_pc_controller.Prelude.Int.{ℤ, ◌<ℤ◌}
use remote_pc_controller.Prelude.Text.{Text}
use remote_pc_controller.Clock.{Time, to_unix}
use remote_pc_controller.Errors.{Error, ok, err}
use remote_pc_controller.Sentinel.Policy.{
  Policy, Command, Crypto, CommandError, validate, replay_until,
}
use remote_pc_controller.Sentinel.Replay.{Store, command_key, nonce_key, claim}
use remote_pc_controller.Prelude.Distinct.{IsDistinct}
use remote_pc_controller.Sentinel.Replay.Persistence.{
  Request, step, Holds, step-Holds_both, step-Holds, step_fails,
}
use remote_pc_controller.Sentinel.Service.{
  ReplayProtector, Service, World, Context, AcceptedCommand, Accepting, accept,
}
use remote_pc_controller.Sentinel.Service.Acceptance.{
  Outcome, cancelled, refused, repeated, passed, accept-Outcome,
}

-- The store as the service's replay protector.
abbrev pub store_protector : ReplayProtector Store
store_protector = record { claim = claim }

-- The service that `NewRuntime` builds: a policy over the store.
abbrev pub store_service : {PublicKey : Type 0} → Policy PublicKey → Service PublicKey Store
store_service p = record { policy = p; replay = store_protector }

-- A call of `Accept`.
pub record Call : Type 0 where
  pub context : Context
  pub now : Time
  pub command : Command

module _ {PublicKey : Type 0} (crypto : Crypto PublicKey) (p : Policy PublicKey) where
  abbrev pub call : World Store → Call → Accepting Store
  call w k = accept crypto (store_service p) k.context k.now k.command w

  -- The world after a sequence of calls.
  unfoldable pub calls : World Store → List Call → World Store
  calls w [] = w
  calls w (k ∷ ks) = calls (call w k).1 ks

  -- The claim that a call makes if it comes to that.
  abbrev pub request : Call → Request
  request k = record {
    context = k.context.at_claim;
    id = k.command.command_id;
    nonce = k.command.nonce;
    expires = replay_until p k.command;
    now = k.now;
  }

  -- A call leaves the store alone, or makes its claim there; it succeeds only if the claim does.
  pub data Effect (w : World Store) (k : Call) : Accepting Store → Type 0 where
    untouched :
        (e : Error CommandError) (w' : World Store)
        → w'.storage ≡ w.storage
        → Effect w k (err e, w')
    failed :
        (e : Error CommandError) (w' : World Store)
        → w'.storage ≡ (step w.storage (request k)).1
        → Effect w k (err e, w')
    claimed :
        (a : AcceptedCommand) (w' : World Store)
        → a.command ≡ k.command
        → validate crypto p k.command k.now ≡ none
        → (step w.storage (request k)).0 ≡ none
        → w'.storage ≡ (step w.storage (request k)).1
        → Effect w k (ok a, w')

  pub call-Effect : (w : World Store) (k : Call) → Effect w k (call w k)
  unfolding step
  call-Effect w k = go _ (accept-Outcome crypto (store_service p) k.context k.now k.command w)
    where
      go :
          (r : Accepting Store)
          → Outcome crypto (store_service p) k.context k.now k.command w r
          → Effect w k r
      go _ (cancelled e _) = untouched e _ refl
      go _ (refused e _ _) = untouched e _ refl
      go _ (repeated e _ _ _) = failed e _ refl
      go _ (passed _ v h) = claimed _ _ refl v h refl

  Effect-Holds :
      (key : Text) (e : ℤ) (w : World Store) (k : Call) (r : Accepting Store)
      → Effect w k r
      → Holds key e w.storage
      → to_unix k.now <ℤ e
      → Holds key e r.1.storage
  Effect-Holds key e w k _ (untouched x w' same) h before = rw same h
  Effect-Holds key e w k _ (failed x w' same) h before =
      rw same (step-Holds key e w.storage (request k) h before)
  Effect-Holds key e w k _ (claimed a w' _ _ _ same) h before =
      rw same (step-Holds key e w.storage (request k) h before)

  calls-Holds :
      (key : Text) (e : ℤ) (w : World Store) (ks : List Call)
      → Holds key e w.storage
      → All (λ k. to_unix k.now <ℤ e) ks
      → Holds key e (calls w ks).storage
  unfolding calls
  calls-Holds key e w [] h before = h
  calls-Holds key e w (k ∷ ks) h (b, before) =
      calls-Holds key e (call w k).1 ks (Effect-Holds key e w k (call w k) (call-Effect w k) h b)
        before

  -- No call succeeds on a key that the store still holds.
  Holds-refuses :
      (key : Text) (e : ℤ) (w : World Store) (k : Call) (r : Accepting Store)
      → Effect w k r
      → (key ≡ command_key k.command.command_id) ⊎ (key ≡ nonce_key k.command.nonce)
      → Holds key e w.storage
      → to_unix k.now <ℤ e
      → (a : AcceptedCommand) → r.0 ≢ ok a
  Holds-refuses key e w k _ (untouched x w' same) which h before a good = cc
  Holds-refuses key e w k _ (failed x w' same) which h before a good = cc
  Holds-refuses key e w k _ (claimed a' w' _ _ fresh same) which h before a good =
      step_fails key e w.storage (request k) which h before fresh

  pub Effect-Holds_both :
      (w : World Store) (k : Call) (r : Accepting Store)
      → Effect w k r
      → IsDistinct w.storage.entries
      → (a : AcceptedCommand) → r.0 ≡ ok a
      → let e = to_unix (replay_until p k.command) in
        Holds (command_key k.command.command_id) e r.1.storage
        × Holds (nonce_key k.command.nonce) e r.1.storage
  Effect-Holds_both w k _ (untouched x w' same) d a good = cc
  Effect-Holds_both w k _ (failed x w' same) d a good = cc
  Effect-Holds_both w k _ (claimed a' w' _ _ fresh same) d a good =
      rw same (step-Holds_both w.storage (request k) d fresh)

  pub Effect_valid :
      (w : World Store) (k : Call) (r : Accepting Store)
      → Effect w k r
      → (a : AcceptedCommand) → r.0 ≡ ok a
      → validate crypto p k.command k.now ≡ none
  Effect_valid w k _ (untouched x w' same) a good = cc
  Effect_valid w k _ (failed x w' same) a good = cc
  Effect_valid w k _ (claimed a' w' _ v _ _) a good = v

  -- Over the in-memory store with distinct keys, once `Accept` lets a command through, no call
  -- before the Unix second of its replay entry's end lets a command with the same identifier or
  -- the same nonce through, whatever calls come in between before that second.
  pub accepted_once :
      (w : World Store) (k : Call) (ks : List Call) (q : Call) (a b : AcceptedCommand)
      → IsDistinct w.storage.entries
      → (call w k).0 ≡ ok a
      → (q.command.command_id ≡ k.command.command_id) ⊎ (q.command.nonce ≡ k.command.nonce)
      → All (λ j. to_unix j.now <ℤ to_unix (replay_until p k.command)) ks
      → to_unix q.now <ℤ to_unix (replay_until p k.command)
      → (call (calls (call w k).1 ks) q).0 ≢ ok b
  accepted_once w k ks q a b d good same before last =
      let e = to_unix (replay_until p k.command) in
      let w' = calls (call w k).1 ks in
      let (by_id, by_nonce) = Effect-Holds_both w k (call w k) (call-Effect w k) d a good in
      elim same [
        | inl x ↦
            Holds-refuses (command_key k.command.command_id) e w' q (call w' q) (call-Effect w' q)
              (inl (ap command_key (sym x))) (calls-Holds _ e (call w k).1 ks by_id before) last b
        | inr x ↦
            Holds-refuses (nonce_key k.command.nonce) e w' q (call w' q) (call-Effect w' q)
              (inr (ap nonce_key (sym x))) (calls-Holds _ e (call w k).1 ks by_nonce before) last b
      ]
