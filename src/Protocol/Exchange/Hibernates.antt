-- ===== src/Protocol/Exchange/Hibernates.antt =====
-- A request to Relay that nothing disturbs puts the computer into hibernation.
use remote_pc_controller.Prelude.{
  ℕ, suc, false, none, some, [], ◌≡◌, ◌≢◌, refl, sym, ap, ◌∙◌, if◌then◌else◌, arith,
}
use remote_pc_controller.Prelude.Dict.{lookup}
use remote_pc_controller.Prelude.Text.{Text, codes, equal_iff}
use remote_pc_controller.Errors.{ok}
use remote_pc_controller.Clock.{Time}
use remote_pc_controller.Protocol.{transfer, IsMatched}
use remote_pc_controller.Protocol.Delivery.{IsPaired, IsInTime, build_validates}
use remote_pc_controller.Protocol.Exchange.{
  arrives, Wire, IsFaithful, Arrival, posted, handled, travelled, post, delivery, effect_of,
  environment, exchange,
}
use remote_pc_controller.Protocol.Exchange.Sent.{Makes, sent-Makes, created-sent, sent-deliver}
use remote_pc_controller.Protocol.Exchange.Arrived.{effect_of_arrived}
use remote_pc_controller.Protocol.Exchange.Accepted.{accepted_command}
use remote_pc_controller.Relay.Command as RelayCommand
use remote_pc_controller.Relay.Command.{Signing, rsa_pss_signer, unsigned}
use remote_pc_controller.Relay.Command.Building.{build_iff}
use remote_pc_controller.Relay.Http as RelayHttp
use remote_pc_controller.Relay.Service as RelayService
use remote_pc_controller.Relay.Service.{create-build}
use remote_pc_controller.Relay.Transport.{deliver_iff}
use remote_pc_controller.Sentinel.Policy.{Crypto, Policy, Command, validate, action_hibernate}
use remote_pc_controller.Sentinel.Replay.{Store, command_key, nonce_key}
use remote_pc_controller.Sentinel.Replay.Entries.{claim_fresh}
use remote_pc_controller.Sentinel.Service.{
  World, Context, AcceptedCommand, Accepting, accept, execute,
}
use remote_pc_controller.Sentinel.Service.Acceptance.{
  Outcome, cancelled, refused, repeated, passed, accept-Outcome, accept_iff,
}
use remote_pc_controller.Sentinel.Service.Once.{store_service}
use remote_pc_controller.Sentinel.Http as SentinelHttp
use remote_pc_controller.Sentinel.Http.{run_task}
use remote_pc_controller.Sentinel.Http.Responses.{
  decode_command_iff, Answer, wrong_method, bad_body, rejected, taken, command-Answer,
}

-- Nothing disturbs a command on its way and at Sentinel: it is encoded, the request is made and
-- arrives, its contexts live, and the response can be written.
pub record IsUndisturbed (wire : Wire) (a : Arrival) (c : RelayCommand.Command) : Type 0 where
  pub encoded : (body : Text) × (wire.encode c ≡ ok body)
  pub requested : wire.request_error ≡ none
  pub arrived : a.trip ≡ arrives
  pub accept_live : a.context.at_accept ≡ none
  pub claim_live : a.context.at_claim ≡ none
  pub written : a.write_fails ≡ false

-- Sentinel's store knows neither the identifier nor the nonce.
pub record IsFresh (s : Store) (c : RelayCommand.Command) : Type 0 where
  pub id_fresh : lookup (command_key c.command_id) s.entries ≡ none
  pub nonce_fresh : lookup (nonce_key c.nonce) s.entries ≡ none

value-injective : {a b : Command} → SentinelHttp.value a ≡ SentinelHttp.value b → a ≡ b
value-injective h = cc

module _ {PublicKey : Type 0} (crypto : Crypto PublicKey) (policy : Policy PublicKey) where
  -- `Accept` on a valid command that is new.
  accept_new :
      (a : Arrival) (w : World Store) (c : RelayCommand.Command)
      → a.context.at_accept ≡ none
      → a.context.at_claim ≡ none
      → IsFresh w.storage c
      → validate crypto policy (transfer c) a.now ≡ none
      → (accept crypto (store_service policy) a.context a.now (transfer c) w).0
        ≡ ok (accepted_command c)
  unfolding transfer
  accept_new a w c live claims fresh valid =
      (accept_iff crypto (store_service policy) a.context a.now (transfer c) w).1 (
        live,
        valid,
        rw claims
            (claim_fresh c.command_id c.nonce _ a.now w.storage fresh.id_fresh fresh.nonce_fresh),
      )

  -- `Accept` calls no executor.
  Outcome_hibernations :
      (ctx : Context) (now : Time) (c : Command) (w : World Store) (r : Accepting Store)
      → Outcome crypto (store_service policy) ctx now c w r
      → r.1.hibernations ≡ w.hibernations
  Outcome_hibernations ctx now c w _ (cancelled e _) = refl
  Outcome_hibernations ctx now c w _ (refused e _ _) = refl
  Outcome_hibernations ctx now c w _ (repeated e _ _ _) = refl
  Outcome_hibernations ctx now c w _ (passed _ _ _) = refl

  -- The handler on a request with that command.
  Answer_taken :
      (r : SentinelHttp.Request) (w : World Store) (x : SentinelHttp.Reply × World Store)
      (c : Command) (a : AcceptedCommand)
      → Answer crypto (store_service policy) r w x
      → r.method ≡ codes "POST"
      → SentinelHttp.decode_command r.first r.second ≡ SentinelHttp.value c
      → (accept crypto (store_service policy) r.context r.now c w).0 ≡ ok a
      → (x.0.response.status ≡ 202)
        × (x.0.spawned ≡ (if r.write_fails then none else some a))
        × (x.1 ≡ (accept crypto (store_service policy) r.context r.now c w).1)
  Answer_taken r w x c a (wrong_method other _ _ _) method body good = absurd (other method)
  Answer_taken r w x c a (bad_body e _ bad _ _ _) method body good = absurd (cc (bad, body))
  Answer_taken r w x c a (rejected d e _ body' bad _ _ _) method body good =
      let same : d ≡ c = value-injective (sym body' ∙ body) in absurd (cc (good, same, bad))
  Answer_taken r w x c a (taken d b _ body' good' status spawned world) method body good =
      let same : d ≡ c = value-injective (sym body' ∙ body) in
      let who : b ≡ a = cc (good, good', same) in
      (
        status,
        spawned ∙ ap (λ y. if r.write_fails then none else some y) who,
        world ∙ ap (λ y. (accept crypto (store_service policy) r.context r.now y w).1) same,
      )

  -- The task of an accepted command calls the executor once.
  run_task_hibernates :
      (w : World Store) (c : RelayCommand.Command)
      → c.action ≡ action_hibernate
      → (run_task none (accepted_command c) w).hibernations ≡ suc w.hibernations
  unfolding run_task execute transfer
  run_task_hibernates w c h = ground (arith, h, equal_iff c.action action_hibernate)

  module _ (wire : Wire) where
    -- The handler's answer to the text of a command that it accepts.
    handled_new :
        (a : Arrival) (w : World Store) (c : RelayCommand.Command) (body : Text)
        → IsFaithful wire
        → wire.encode c ≡ ok body
        → (accept crypto (store_service policy) a.context a.now (transfer c) w).0
          ≡ ok (accepted_command c)
        → let x = handled crypto policy wire a w body in
          (x.0.response.status ≡ 202)
          × (x.0.spawned ≡ (if a.write_fails then none else some (accepted_command c)))
          × (x.1 ≡ (accept crypto (store_service policy) a.context a.now (transfer c) w).1)
    unfolding handled
    handled_new a w c body faithful encoded good =
        Answer_taken (posted wire a body) w _ (transfer c) (accepted_command c)
          (command-Answer crypto (store_service policy) (posted wire a body) w) refl
          ((decode_command_iff (wire.decode body).0 (wire.decode body).1 (transfer c)).1 (
            ap (λ d. d.0) (faithful.reads c body encoded),
            ap (λ d. d.1) (faithful.reads c body encoded),
          ))
          good

    -- The delivery of a command that Sentinel answers with 202.
    delivery_fine :
        (a : Arrival) (w : World Store) (c : RelayCommand.Command) (body : Text)
        → wire.encode c ≡ ok body
        → wire.request_error ≡ none
        → a.trip ≡ arrives
        → (handled crypto policy wire a w body).0.response.status ≡ 202
        → delivery crypto policy wire a w c ≡ none
    unfolding delivery post travelled
    delivery_fine a w c body encoded requested trip status = (deliver_iff _ _ _).1 (
      rw encoded refl,
      requested,
      (202, rw (encoded, requested, trip) (ap ok status), omega arith, omega arith),
    )

module _ {PrivateKey PublicKey : Type 0} (signing : Signing PrivateKey) (crypto : Crypto PublicKey)
    (private : PrivateKey) (public : PublicKey)
    (matched : IsMatched signing crypto private public) where
  -- A command that Relay made is valid at Sentinel, and asks to hibernate.
  made_validates :
      (secret : Text) (p : RelayCommand.Policy) (k : ℕ) (policy : Policy PublicKey)
      (x : RelayService.Environment) (r : RelayHttp.Request) (now' : Time)
      (c : RelayCommand.Command)
      → IsPaired signing crypto private public p k policy
      → IsInTime signing crypto private public x.now k policy now'
      → x.sign ≡ rsa_pss_signer signing private
      → Makes secret p x r c
      → c.command_id ≢ []
      → c.nonce ≢ []
      → (validate crypto policy (transfer c) now' ≡ none) × (c.action ≡ action_hibernate)
  made_validates secret p k policy x r now' c paired clocks signer made id_ne nonce_ne =
      let (_, _, (input, _, _, created)) = made in
      let built = create-build p x input c created in
      let (allowed, (i, n, s, _, _, _, same)) =
        (build_iff p input x.now x.sign c x.id x.nonce).0 built in
      (
        build_validates signing crypto private public matched p input x.now k policy now' paired
            clocks x.id x.nonce c (rw (← signer) built) id_ne nonce_ne,
        ap (λ (b : RelayCommand.Command). b.action) same ∙ unfold unsigned in allowed.hibernates,
      )

module _ {PrivateKey PublicKey : Type 0} (signing : Signing PrivateKey) (crypto : Crypto PublicKey)
    (private : PrivateKey) (public : PublicKey)
    (matched : IsMatched signing crypto private public) where
  -- If JSON keeps commands, the two programs' cryptography and configuration fit together, the
  -- clocks agree with the command's window, Relay makes a command with a non-empty identifier and
  -- nonce from an authorized request, nothing disturbs the command on its way, and Sentinel's
  -- store knows neither its identifier nor its nonce, then Relay answers 202, Sentinel spawns the
  -- task of that command, and this task, with a live context, puts the computer into hibernation
  -- once.
  pub exchange-hibernates :
      (wire : Wire) (secret : Text) (p : RelayCommand.Policy) (k : ℕ) (policy : Policy PublicKey)
      (x : RelayService.Environment) (r : RelayHttp.Request) (a : Arrival) (w : World Store)
      (c : RelayCommand.Command)
      → IsFaithful wire
      → IsPaired signing crypto private public p k policy
      → IsInTime signing crypto private public x.now k policy a.now
      → x.sign ≡ rsa_pss_signer signing private
      → Makes secret p x r c
      → c.command_id ≢ []
      → c.nonce ≢ []
      → IsFresh w.storage c
      → IsUndisturbed wire a c
      → ((exchange crypto policy wire secret p x r a w).response.status ≡ 202)
        × ((exchange crypto policy wire secret p x r a w).spawned ≡ some (accepted_command c))
        × ((run_task none
              (accepted_command c)
              (exchange crypto policy wire secret p x r a w).world).hibernations
            ≡ suc w.hibernations)
  unfolding exchange
  exchange-hibernates wire secret p k policy x r a w c faithful paired clocks signer made id_ne
        nonce_ne fresh calm =
      let (valid, hibernates) =
        made_validates signing crypto private public matched secret p k policy x r a.now c paired
          clocks signer made id_ne nonce_ne in
      let (body, encoded) = calm.encoded in
      let good = accept_new crypto policy a w c calm.accept_live calm.claim_live fresh valid in
      let (status, spawned, world) =
        handled_new crypto policy wire a w c body faithful encoded good in
      let sends = (sent-Makes secret p x r c).1 made in
      let sends' = sent-deliver secret p x r (delivery crypto policy wire a w) ∙ sends in
      let fine =
        delivery_fine crypto policy wire a w c body encoded calm.requested calm.arrived status in
      let effect =
        ap (effect_of crypto policy wire a w) sends
        ∙ effect_of_arrived crypto policy wire a w c body encoded calm.requested calm.arrived in
      let after = ap (λ q. q.1) effect ∙ world in
      let quiet =
        Outcome_hibernations crypto policy a.context a.now (transfer c) w _
          (accept-Outcome crypto (store_service policy) a.context a.now (transfer c) w) in
      (
        (created-sent secret p (environment crypto policy wire x a w) r).1 (c, sends', fine),
        ap (λ q. q.0) effect
            ∙ (spawned ∙ ap (λ b. if b then none else some (accepted_command c)) calm.written),
        run_task_hibernates crypto policy _ c hibernates
            ∙ ap suc (ap (λ (v : World Store). v.hibernations) after ∙ quiet),
      )
