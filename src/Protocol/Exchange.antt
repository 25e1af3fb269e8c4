-- ===== src/Protocol/Exchange.antt =====
-- A request to Relay, up to the answers of both programs: relay/src/httpapi/handler.go calls its
-- service, this one the client of relay/src/transport/sentinel.go, and that one the handler of
-- sentinel/src/httpapi/handler.go. JSON and the network are parameters.
pub mod Sent
pub mod Arrived
pub mod Accepted
pub mod Hibernates
use remote_pc_controller.Prelude.{ℕ, Bool, true, false, not, Option, none, some, ◌≡◌, if◌then◌else◌}
use remote_pc_controller.Prelude.Text.{Text, codes, equal}
use remote_pc_controller.Clock.{Time}
use remote_pc_controller.Errors.{Error, Result, ok, err}
use remote_pc_controller.Protocol.{transfer}
use remote_pc_controller.Relay.Command as RelayCommand
use remote_pc_controller.Relay.Command.{RelayError, bearer_token}
use remote_pc_controller.Relay.Http as RelayHttp
use remote_pc_controller.Relay.Service as RelayService
use remote_pc_controller.Relay.Transport
use remote_pc_controller.Sentinel.Policy.{Crypto, Policy}
use remote_pc_controller.Sentinel.Replay.{Store}
use remote_pc_controller.Sentinel.Service.{World, Context, AcceptedCommand}
use remote_pc_controller.Sentinel.Service.Once.{store_service}
use remote_pc_controller.Sentinel.Http as SentinelHttp

-- What happens to a request and its response between the programs.
pub data Trip : Type 0 where
  arrives : Trip
  request_lost response_lost : Error RelayError → Trip

-- JSON on both sides, and the address of Sentinel: `json.Marshal`, the error of
-- `http.NewRequestWithContext`, and the two calls of `Decode`.
pub record Wire : Type 0 where
  pub encode : RelayCommand.Command → Result RelayError Text
  pub request_error : Option (Error RelayError)
  pub decode : Text → SentinelHttp.Decoded × Option SentinelHttp.DecodeError

-- JSON keeps a command: its text is read back, with nothing behind it.
pub record IsFaithful (wire : Wire) : Type 0 where
  pub reads :
      (c : RelayCommand.Command) (body : Text)
      → wire.encode c ≡ ok body
      → wire.decode body ≡ (SentinelHttp.value (transfer c), some SentinelHttp.eof)

-- What a request meets on its way and at Sentinel.
pub record Arrival : Type 0 where
  pub trip : Trip
  pub context : Context
  pub now : Time
  pub write_fails : Bool

-- The request that Sentinel's handler gets.
abbrev pub posted : Wire → Arrival → Text → SentinelHttp.Request
posted wire a body = record {
  method = codes "POST";
  first = (wire.decode body).0;
  second = (wire.decode body).1;
  context = a.context;
  now = a.now;
  write_fails = a.write_fails;
}

-- What a request leaves behind: what `Client.Do` returns, the task that Sentinel spawned, and
-- Sentinel's world.
pub record Posted : Type 0 where
  pub response : Result RelayError ℕ
  pub spawned : Option AcceptedCommand
  pub world : World Store

made : Result RelayError RelayCommand.Command → Option RelayCommand.Command
made (ok c) = some c
made (err e) = none

-- What Relay does about a request: the command that it hands to the client.
sent_decoded :
    RelayCommand.Policy
    → RelayService.Environment
    → RelayHttp.Decoded
    → Option RelayHttp.DecodeError
    → Option RelayCommand.Command
unfolding RelayService.create made
sent_decoded p x (RelayHttp.failed e) second = none
sent_decoded p x (RelayHttp.value input) (some RelayHttp.eof) = made (RelayService.create p x input)
sent_decoded p x (RelayHttp.value input) second = none

unfoldable pub sent :
    Text
    → RelayCommand.Policy
    → RelayService.Environment
    → RelayHttp.Request
    → Option RelayCommand.Command
unfolding sent_decoded
sent secret p x r =
    if not (equal r.method (codes "POST"))
    then none
    else if not (bearer_token r.authorization secret)
    then none
    else sent_decoded p x r.first r.second

abbrev pub marshal_error : Result RelayError Text → Option (Error RelayError)
marshal_error (ok body) = none
marshal_error (err e) = some e

module _ {PublicKey : Type 0} (crypto : Crypto PublicKey) (policy : Policy PublicKey)
    (wire : Wire) where
  -- Sentinel's handler, on what the trip keeps of the exchange.
  travelled : Arrival → World Store → Trip → SentinelHttp.Reply × World Store → Posted
  travelled a w arrives (reply, w') = record {
    response = ok reply.response.status;
    spawned = reply.spawned;
    world = w';
  }
  travelled a w (request_lost e) x = record { response = err e; spawned = none; world = w }
  travelled a w (response_lost e) (reply, w') = record {
    response = err e;
    spawned = reply.spawned;
    world = w';
  }

  -- What Sentinel's handler makes of a text that arrives.
  unfoldable pub handled : Arrival → World Store → Text → SentinelHttp.Reply × World Store
  unfolding SentinelHttp.command
  handled a w body = SentinelHttp.command crypto (store_service policy) (posted wire a body) w

  -- Client.Do with the encoded command; without a request nothing happens.
  unfoldable pub post :
      Arrival → World Store → Result RelayError Text → Option (Error RelayError) → Posted
  unfolding travelled handled
  post a w (err e) request = record { response = err e; spawned = none; world = w }
  post a w (ok body) (some e) = record { response = err e; spawned = none; world = w }
  post a w (ok body) none = travelled a w a.trip (handled a w body)

  -- The delivery of a command: the client of Relay over Sentinel's handler.
  unfoldable pub delivery : Arrival → World Store → RelayCommand.Command → Option (Error RelayError)
  unfolding Transport.deliver post
  delivery a w c =
      let encoded = wire.encode c in
      Transport.deliver (marshal_error encoded) wire.request_error
        (post a w encoded wire.request_error).response

  -- What a request to Relay comes to: Relay's answer, Sentinel's task, and Sentinel's world.
  pub record Exchanged : Type 0 where
    pub response : RelayHttp.Response
    pub spawned : Option AcceptedCommand
    pub world : World Store

  abbrev pub environment :
      RelayService.Environment → Arrival → World Store → RelayService.Environment
  environment x a w = record x { deliver = delivery a w }

  -- The task and the world behind what Relay hands to the client.
  pub effect_of :
      Arrival → World Store → Option RelayCommand.Command → Option AcceptedCommand × World Store
  unfolding post
  effect_of a w none = (none, w)
  effect_of a w (some c) =
      let q = post a w (wire.encode c) wire.request_error in (q.spawned, q.world)

  unfoldable pub exchange :
      Text
      → RelayCommand.Policy
      → RelayService.Environment
      → RelayHttp.Request
      → Arrival
      → World Store
      → Exchanged
  unfolding RelayHttp.create effect_of sent delivery
  exchange secret p x r a w =
      let effect = effect_of a w (sent secret p x r) in
      record {
        response = RelayHttp.create secret p (environment x a w) r;
        spawned = effect.0;
        world = effect.1;
      }
