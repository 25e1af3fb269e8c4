-- ===== src/Protocol/Exchange/Accepted.antt =====
-- What Relay's answer says of Sentinel.
use remote_pc_controller.Prelude.{◌<◌, Bool, none, some, ◌≡◌, sym, ap, ◌∙◌, if◌then◌else◌}
use remote_pc_controller.Prelude.Text.{Text}
use remote_pc_controller.Errors.{ok}
use remote_pc_controller.Clock.{Time}
use remote_pc_controller.Protocol.{transfer}
use remote_pc_controller.Protocol.Exchange.{
  Wire, IsFaithful, Arrival, posted, handled, delivery, effect_of, environment, sent, exchange,
}
use remote_pc_controller.Protocol.Exchange.Sent.{created-sent, sent-deliver}
use remote_pc_controller.Protocol.Exchange.Arrived.{
  Answer_success, delivery-Arrives, effect_of_arrived,
}
use remote_pc_controller.Relay.Command as RelayCommand
use remote_pc_controller.Relay.Http as RelayHttp
use remote_pc_controller.Relay.Service as RelayService
use remote_pc_controller.Sentinel.Policy.{Crypto, Policy, Command}
use remote_pc_controller.Sentinel.Replay.{Store}
use remote_pc_controller.Sentinel.Service.{World, Context, AcceptedCommand, Accepting, accept}
use remote_pc_controller.Sentinel.Service.Acceptance.{
  Outcome, cancelled, refused, repeated, passed, accept-Outcome,
}
use remote_pc_controller.Sentinel.Service.Once.{store_service}
use remote_pc_controller.Sentinel.Http as SentinelHttp
use remote_pc_controller.Sentinel.Http.Responses.{command-Answer, decode_command_iff}

abbrev pub accepted_command : RelayCommand.Command → AcceptedCommand
accepted_command c = record { command = transfer c }

value-injective : {a b : Command} → SentinelHttp.value a ≡ SentinelHttp.value b → a ≡ b
value-injective h = cc

module _ {PublicKey : Type 0} (crypto : Crypto PublicKey) (policy : Policy PublicKey) where
  -- `Accept` returns the command that it was given.
  Outcome_same :
      (ctx : Context) (now : Time) (c : Command) (w : World Store) (r : Accepting Store)
      (a : AcceptedCommand)
      → Outcome crypto (store_service policy) ctx now c w r
      → r.0 ≡ ok a
      → a ≡ record { command = c }
  Outcome_same ctx now c w _ a (cancelled e _) h = cc
  Outcome_same ctx now c w _ a (refused e _ _) h = cc
  Outcome_same ctx now c w _ a (repeated e _ _ _) h = cc
  Outcome_same ctx now c w _ a (passed _ _ _) h = cc

  -- What Sentinel does with a request, if it accepts its command.
  abbrev Accepts :
      Context → Time → Bool → World Store → SentinelHttp.Reply × World Store → Command → Type 0
  Accepts ctx now write_fails w x b =
      ((accept crypto (store_service policy) ctx now b w).0 ≡ ok (record { command = b }))
      × (x.0.spawned ≡ (if write_fails then none else some (record { command = b })))
      × (x.1 ≡ (accept crypto (store_service policy) ctx now b w).1)

  module _ (wire : Wire) (faithful : IsFaithful wire) where
    decoded_same :
        (c : RelayCommand.Command) (body : Text) (b : Command)
        → wire.encode c ≡ ok body
        → SentinelHttp.decode_command (wire.decode body).0 (wire.decode body).1
          ≡ SentinelHttp.value b
        → b ≡ transfer c
    decoded_same c body b encoded decoded =
        let (first, _) = (decode_command_iff _ _ b).0 decoded in
        let read = ap (λ d. d.0) (faithful.reads c body encoded) in
        value-injective (sym first ∙ read)

    handled-Accepts :
        (a : Arrival) (w : World Store) (body : Text)
        → (handled crypto policy wire a w body).0.response.status < 300
        → (b : Command) × (SentinelHttp.decode_command (wire.decode body).0 (wire.decode body).1
            ≡ SentinelHttp.value b)
          × Accepts a.context a.now a.write_fails w (handled crypto policy wire a w body) b
    handled-Accepts a w body less =
        let (b, decoded, (acc, good, spawned, world)) =
          Answer_success crypto policy (posted wire a body) w (handled crypto policy wire a w body)
            (unfold handled in command-Answer crypto (store_service policy) (posted wire a body) w)
            less in
        let who =
          Outcome_same a.context a.now b w _ acc
            (accept-Outcome crypto (store_service policy) a.context a.now b w) good in
        (
          b,
          decoded,
          (good ∙ ap ok who, spawned ∙ ap (λ x. if a.write_fails then none else some x) who, world),
        )

    -- If JSON keeps commands and Relay answers a request with 202, then Relay sent a command that
    -- Sentinel's `Accept` let through at its arrival, Sentinel's world is the one that this call
    -- left, and the task of the command was spawned unless the response could not be written.
    pub exchange-accepted :
        (secret : Text) (p : RelayCommand.Policy) (x : RelayService.Environment)
        (r : RelayHttp.Request) (a : Arrival) (w : World Store)
        → (exchange crypto policy wire secret p x r a w).response.status ≡ 202
        → (c : RelayCommand.Command) × (sent secret p x r ≡ some c)
          × ((accept crypto (store_service policy) a.context a.now (transfer c) w).0
              ≡ ok (accepted_command c))
          × ((exchange crypto policy wire secret p x r a w).spawned
              ≡ (if a.write_fails then none else some (accepted_command c)))
          × ((exchange crypto policy wire secret p x r a w).world
              ≡ (accept crypto (store_service policy) a.context a.now (transfer c) w).1)
    unfolding exchange
    exchange-accepted secret p x r a w h =
        let (c, sends, fine) =
          (created-sent secret p (environment crypto policy wire x a w) r).0 h in
        let (body, encoded, request, trip, less) = delivery-Arrives crypto policy wire a w c fine in
        let (b, decoded, accepts) = handled-Accepts a w body less in
        let same = decoded_same c body b encoded decoded in
        let effect = effect_of_arrived crypto policy wire a w c body encoded request trip in
        let known : Accepts a.context a.now a.write_fails w (handled crypto policy wire a w body)
            (transfer c) =
          rw (← same) accepts in
        let sent_it = sym (sent-deliver secret p x r (delivery crypto policy wire a w)) ∙ sends in
        (
          c,
          sent_it,
          known.0,
          ap (λ o. (effect_of crypto policy wire a w o).0) sent_it
              ∙ (ap (λ q. q.0) effect ∙ known.1),
          ap (λ o. (effect_of crypto policy wire a w o).1) sent_it
              ∙ (ap (λ q. q.1) effect ∙ known.2),
        )
