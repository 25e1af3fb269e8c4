-- ===== src/Protocol/Authentic.antt =====
-- Sentinel accepts nothing that Relay did not sign, as far as the signature cannot be forged.
use remote_pc_controller.Prelude.{ℕ, ◌*◌, ◌≤◌, Bool, none, some, ◌≡◌, sym, ap, ◌∙◌, arith}
use remote_pc_controller.Prelude.Bars.{NoBar}
use remote_pc_controller.Prelude.Int.{pos}
use remote_pc_controller.Prelude.Text.{Text}
use remote_pc_controller.Clock.{Time, second}
use remote_pc_controller.Errors.{Result, ok}
use remote_pc_controller.Protocol.{transfer}
use remote_pc_controller.Protocol.Timing.{IsSane, built_in_range}
use remote_pc_controller.Relay.Command
use remote_pc_controller.Relay.Command.{RelayError, truncate_second, unsigned, build}
use remote_pc_controller.Relay.Command.Building.{IsAllowed, build_iff}
use remote_pc_controller.Sentinel.Http.{Response, Request, value, decode_command}
use remote_pc_controller.Sentinel.Http.Routes.{new_handler, new_handler_spawned_iff}
use remote_pc_controller.Sentinel.Service.{Service, World, Context, Accepting, AcceptedCommand}
use remote_pc_controller.Sentinel.Service.Acceptance.{
  Outcome, cancelled, refused, repeated, passed, accept-Outcome,
}
use remote_pc_controller.Sentinel.Policy
use remote_pc_controller.Sentinel.Policy.{Crypto, validate}
use remote_pc_controller.Sentinel.Policy.Canonical.{IsSized, SameFields, canonical-SameFields}
use remote_pc_controller.Sentinel.Policy.Validation.{validate_iff-Passes, signature_iff}

-- A call of Relay's `Build` that returned a command, with the texts of its generators.
pub record Issue : Type 0 where
  pub request : Command.Request
  pub now : Time
  pub id : Text
  pub nonce : Text
  pub sign : Text → Result RelayError Text
  pub command : Command.Command

-- `Build` returned that command, for a clock that is sane, and texts without bars.
pub record IsIssue (rp : Command.Policy) (i : Issue) : Type 0 where
  pub built : build rp i.request i.now (ok i.id) (ok i.nonce) i.sign ≡ ok i.command
  pub sane : IsSane i.now
  pub id_NoBar : NoBar i.id
  pub nonce_NoBar : NoBar i.nonce

-- What such a call fixes of the command that it returned.
issue-command :
    (rp : Command.Policy) (i : Issue)
    → IsIssue rp i
    → IsAllowed rp i.request
      × ((s : Text) × (i.command
            ≡ record (unsigned rp i.request i.now i.id i.nonce) { signature = s }))
issue-command rp i h =
    let (allowed, (id, nonce, s, same_id, same_nonce, _, same)) =
      (build_iff rp i.request i.now i.sign i.command (ok i.id) (ok i.nonce)).0 h.built in
    let id_is : i.id ≡ id = cc in
    let nonce_is : i.nonce ≡ nonce = cc in (allowed, (s, rw (id_is, nonce_is) same))

module _ (rp : Command.Policy) (k : ℕ) (validity : rp.max_validity ≡ pos (k * second))
    (short : k ≤ 300) where
  issue-IsSized : (i : Issue) → IsIssue rp i → IsSized (transfer i.command)
  unfolding transfer unsigned
  issue-IsSized i h =
      let (_, (s, same)) = issue-command rp i h in
      let sized = built_in_range i.now k h.sane short in
      rw (same, validity)
        (record {
          version_sized = (omega arith, omega arith);
          issued_sized = sized.0;
          expires_sized = sized.1;
        })

module _ {PublicKey : Type 0} (crypto : Crypto PublicKey) (public : PublicKey)
    (WasIssued : Issue → Type 0) where
  -- A digest whose signature verifies is that of a command that was issued, and no other text meets
  -- such a digest.
  pub record IsUnforgeable : Type 0 where
    pub signed_by :
        (d s : Text)
        → crypto.verify_pss (some public) d s ≡ none
        → (i : Issue) × WasIssued i × (crypto.sha256 (Policy.canonical (transfer i.command)) ≡ d)
    pub collision_free :
        (i : Issue) (t : Text)
        → WasIssued i
        → crypto.sha256 (Policy.canonical (transfer i.command)) ≡ crypto.sha256 t
        → Policy.canonical (transfer i.command) ≡ t

  module _ (rp : Command.Policy) (k : ℕ) (sp : Policy.Policy PublicKey)
      (validity : rp.max_validity ≡ pos (k * second)) (short : k ≤ 300)
      (same_device : rp.device_id ≡ sp.device_id) (key_is : sp.public_key ≡ some public)
      (issues : (i : Issue) → WasIssued i → IsIssue rp i) (unforgeable : IsUnforgeable) where
    valid-issued :
        (c : Policy.Command) (now : Time)
        → IsSized c
        → validate crypto sp c now ≡ none
        → (i : Issue) × WasIssued i × SameFields (transfer i.command) c
    unfolding transfer unsigned
    valid-issued c now sized valid =
        let passed = (validate_iff-Passes crypto sp c now).0 valid in
        let (s, _, verified) = (signature_iff crypto sp c).0 passed.signed in
        let (i, was, digest) =
          unforgeable.signed_by (crypto.sha256 (Policy.canonical c)) s (rw (← key_is) verified) in
        let issue = issues i was in
        let (allowed, (sign, same)) = issue-command rp i issue in
        let id_is : i.command.command_id ≡ i.id = ap (λ (x : Command.Command). x.command_id) same in
        let nonce_is : i.command.nonce ≡ i.nonce = ap (λ (x : Command.Command). x.nonce) same in
        let device_is : i.command.device_id ≡ i.request.device_id =
          ap (λ (x : Command.Command). x.device_id) same in
        let action_is : i.command.action ≡ i.request.action =
          ap (λ (x : Command.Command). x.action) same in
        (
          i,
          was,
          canonical-SameFields (transfer i.command) c (issue-IsSized rp k validity short i issue)
              sized (rw id_is issue.id_NoBar) (rw nonce_is issue.nonce_NoBar)
              (device_is ∙ allowed.for_device ∙ same_device ∙ sym passed.for_device)
              (action_is ∙ allowed.hibernates ∙ sym passed.hibernates)
              (unforgeable.collision_free i (Policy.canonical c) was digest),
        )

    module _ {Storage : Type 0} (service : Service PublicKey Storage) (uses : service.policy ≡ sp)
        (mux_answer : Text → Response) where
      -- `Accept` returns the command that it was given, and found valid.
      Outcome_valid :
          (ctx : Context) (now : Time) (c : Policy.Command) (w : World Storage)
          (x : Accepting Storage) (a : AcceptedCommand)
          → Outcome crypto service ctx now c w x
          → x.0 ≡ ok a
          → (a.command ≡ c) × (validate crypto sp c now ≡ none)
      Outcome_valid ctx now c w _ a (cancelled e _) h = absurd (cc h)
      Outcome_valid ctx now c w _ a (refused e _ _) h = absurd (cc h)
      Outcome_valid ctx now c w _ a (repeated e _ _ _) h = absurd (cc h)
      Outcome_valid ctx now c w _ a (passed _ valid _) h = (cc, rw (← uses) valid)

      -- If whatever verifies under Relay's public key was issued by a call of Relay's `Build`
      -- (with a sane clock, and an identifier and a nonce without bars), no other text meets the
      -- digest of an issued command, Relay has Sentinel's device and a validity of whole seconds
      -- up to 300, Sentinel's policy has the public key, and decoded numbers fit into 64 bits,
      -- then Sentinel's handler spawns no task but for a command that agrees in every signed
      -- field with one that was issued.
      pub spawned-issued :
          (is_nil : Bool) (path : Text) (r : Request) (w : World Storage) (a : AcceptedCommand)
          → ((c : Policy.Command) → decode_command r.first r.second ≡ value c → IsSized c)
          → (new_handler crypto service mux_answer is_nil path r w).0.spawned ≡ some a
          → (i : Issue) × WasIssued i × SameFields (transfer i.command) a.command
      spawned-issued is_nil path r w a sized spawned =
          let (_, _, _, (c, decoded, good)) =
            (new_handler_spawned_iff crypto service mux_answer is_nil path r w a).0 spawned in
          let (same, valid) =
            Outcome_valid r.context r.now c w _ a
              (accept-Outcome crypto service r.context r.now c w) good in
          let (i, was, fields) = valid-issued c r.now (sized c decoded) valid in
          (i, was, rw same fields)
