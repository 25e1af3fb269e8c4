-- ===== src/Protocol/Exchange/Arrived.antt =====
-- What a delivery that succeeded says of Sentinel.
use remote_pc_controller.Prelude.{ℕ, ◌<◌, Option, none, some, ◌≡◌, refl, if◌then◌else◌, arith}
use remote_pc_controller.Prelude.Text.{Text}
use remote_pc_controller.Errors.{Error, Result, ok, err, kind, ok-injective}
use remote_pc_controller.Protocol.Exchange.{
  Trip, arrives, request_lost, response_lost, Wire, Arrival, travelled, post, marshal_error,
  handled, delivery, effect_of,
}
use remote_pc_controller.Relay.Command as RelayCommand
use remote_pc_controller.Relay.Command.{RelayError}
use remote_pc_controller.Relay.Transport
use remote_pc_controller.Relay.Transport.{deliver_iff}
use remote_pc_controller.Sentinel.Policy.{Crypto, Policy, Command}
use remote_pc_controller.Sentinel.Replay.{Store}
use remote_pc_controller.Sentinel.Service.{World, AcceptedCommand, accept}
use remote_pc_controller.Sentinel.Service.Once.{store_service}
use remote_pc_controller.Sentinel.Http as SentinelHttp
use remote_pc_controller.Sentinel.Http.Responses.{
  Answer, wrong_method, bad_body, rejected, taken, request_error_status_from, status_of_from,
}

module _ {PublicKey : Type 0} (crypto : Crypto PublicKey) (policy : Policy PublicKey) where
  -- The handler answers with a status in the two hundreds only for a command that was accepted.
  pub Answer_success :
      (r : SentinelHttp.Request) (w : World Store) (x : SentinelHttp.Reply × World Store)
      → Answer crypto (store_service policy) r w x
      → x.0.response.status < 300
      → (c : Command) × (SentinelHttp.decode_command r.first r.second ≡ SentinelHttp.value c)
        × ((a : AcceptedCommand) × ((accept crypto (store_service policy) r.context r.now c w).0
              ≡ ok a)
            × (x.0.spawned ≡ (if r.write_fails then none else some a))
            × (x.1 ≡ (accept crypto (store_service policy) r.context r.now c w).1))
  Answer_success r w x (wrong_method other status spawned same) less = absurd (ground arith)
  Answer_success r w x (bad_body e method body status spawned same) less =
      absurd (omega (arith, status, less, request_error_status_from e))
  Answer_success r w x (rejected c e method body bad status spawned same) less =
      absurd (omega (arith, status, less, status_of_from (kind e)))
  Answer_success r w x (taken c a method body good status spawned same) less =
      (c, body, (a, good, spawned, same))

marshal_error-none :
    (encoded : Result RelayError Text)
    → marshal_error encoded ≡ none
    → (body : Text) × (encoded ≡ ok body)
marshal_error-none (ok body) h = (body, refl)
marshal_error-none (err e) h = cc

module _ {PublicKey : Type 0} (crypto : Crypto PublicKey) (policy : Policy PublicKey)
    (wire : Wire) where
  travelled_arrives :
      (a : Arrival) (w : World Store) (trip : Trip) (x : SentinelHttp.Reply × World Store)
      (status : ℕ)
      → (travelled crypto policy wire a w trip x).response ≡ ok status
      → (trip ≡ arrives) × (x.0.response.status ≡ status)
  unfolding travelled
  travelled_arrives a w arrives (reply, w') status h = (refl, ok-injective h)
  travelled_arrives a w (request_lost e) x status h = cc
  travelled_arrives a w (response_lost e) (reply, w') status h = cc

  -- A command's text arrived, and Sentinel's handler answered it with a status of success.
  abbrev pub Arrives :
      Arrival → World Store → Result RelayError Text → Option (Error RelayError) → Type 0
  Arrives a w encoded request =
      (body : Text) × (encoded ≡ ok body)
      × (request ≡ none)
      × (a.trip ≡ arrives)
      × ((handled crypto policy wire a w body).0.response.status < 300)

  post-Arrives :
      (a : Arrival) (w : World Store) (encoded : Result RelayError Text)
      (request : Option (Error RelayError))
      → Transport.deliver
          (marshal_error encoded)
          request
          (post crypto policy wire a w encoded request).response
        ≡ none
      → Arrives a w encoded request
  unfolding post
  post-Arrives a w (err e) request h = absurd (cc ((deliver_iff _ _ _).0 h).0)
  post-Arrives a w (ok body) (some e) h = absurd (cc ((deliver_iff _ _ _).0 h).1)
  post-Arrives a w (ok body) none h =
      let (_, _, (status, response, low, high)) = (deliver_iff _ _ _).0 h in
      let (trip, same) =
        travelled_arrives a w a.trip (handled crypto policy wire a w body) status response in
      (body, refl, refl, trip, omega (arith, same, high))

  pub delivery-Arrives :
      (a : Arrival) (w : World Store) (c : RelayCommand.Command)
      → delivery crypto policy wire a w c ≡ none
      → Arrives a w (wire.encode c) wire.request_error
  unfolding delivery
  delivery-Arrives a w c h = post-Arrives a w (wire.encode c) wire.request_error h

  -- The effect of a command that arrived is that of Sentinel's handler.
  pub effect_of_arrived :
      (a : Arrival) (w : World Store) (c : RelayCommand.Command) (body : Text)
      → wire.encode c ≡ ok body
      → wire.request_error ≡ none
      → a.trip ≡ arrives
      → effect_of crypto policy wire a w (some c)
        ≡ ((handled crypto policy wire a w body).0.spawned, (handled crypto policy wire a w body).1)
  unfolding effect_of post travelled
  effect_of_arrived a w c body encoded request trip = rw (encoded, request, trip) refl
