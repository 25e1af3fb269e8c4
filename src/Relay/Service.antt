-- ===== src/Relay/Service.antt =====
-- relay/src/command/service.go: the service that creates commands and delivers them.
use remote_pc_controller.Prelude.{
  ◌||◌, Option, none, some, List, [], ◌∷◌, ◌≡◌, ◌≢◌, ◌↔◌, refl, ap, is_nil, if◌then◌else◌, arith,
}
use remote_pc_controller.Prelude.Int.{pos, leb_ℤ, ◌<ℤ◌}
use remote_pc_controller.Prelude.Text.{Text, codes, is_empty}
use remote_pc_controller.Clock.{Time}
use remote_pc_controller.Errors.{
  Error, Result, ok, err, foreign, wrapped, message, and_then, and_then-ok, ok-injective,
}
use remote_pc_controller.Relay.Command.{
  Policy, Request, Command, RelayError, relay_error_text, build,
}

-- What the service's dependencies return while it handles a request: the context's error, the clock,
-- the two generators, the signer, and the delivery of the command that was built.
pub record Environment : Type 0 where
  pub context : Option (Error RelayError)
  pub now : Time
  pub id : Result RelayError Text
  pub nonce : Result RelayError Text
  pub sign : Text → Result RelayError Text
  pub deliver : Command → Option (Error RelayError)

create_live : Option (Error RelayError) → Policy → Environment → Request → Result RelayError Command
create_live (some e) p x r = err e
create_live none p x r = build p r x.now x.id x.nonce x.sign

-- Service.Create
unfoldable pub create : Policy → Environment → Request → Result RelayError Command
unfolding create_live
create p x r = create_live x.context p x r

delivered : Command → Option (Error RelayError) → Result RelayError Command
delivered c none = ok c
delivered c (some e) = err (wrapped RelayError.delivery_failed (message relay_error_text e))

-- Service.Deliver
unfoldable pub deliver : Policy → Environment → Request → Result RelayError Command
unfolding delivered
deliver p x r = and_then (create p x r) λ c. delivered c (x.deliver c)

-- What `Create` makes does not depend on the delivery.
create_live-deliver :
    (e : Option (Error RelayError)) (p : Policy) (x : Environment) (r : Request)
    (f : Command → Option (Error RelayError))
    → create_live e p (record x { deliver = f }) r ≡ create_live e p x r
unfolding create_live
create_live-deliver (some e) p x r f = refl
create_live-deliver none p x r f = refl

pub create-deliver :
    (p : Policy) (x : Environment) (r : Request) (f : Command → Option (Error RelayError))
    → create p (record x { deliver = f }) r ≡ create p x r
unfolding create
create-deliver p x r f = create_live-deliver x.context p x r f

create_live-build :
    (e : Option (Error RelayError)) (p : Policy) (x : Environment) (r : Request) (c : Command)
    → create_live e p x r ≡ ok c
    → build p r x.now x.id x.nonce x.sign ≡ ok c
unfolding create_live
create_live-build (some e) p x r c h = cc
create_live-build none p x r c h = h

-- A command that `Create` returns is one that `Build` returned.
pub create-build :
    (p : Policy) (x : Environment) (r : Request) (c : Command)
    → create p x r ≡ ok c
    → build p r x.now x.id x.nonce x.sign ≡ ok c
unfolding create
create-build p x r c h = create_live-build x.context p x r c h

delivered-none :
    (c : Command) (e : Option (Error RelayError)) (b : Command)
    → (delivered c e ≡ ok b) ↔ ((e ≡ none) × (c ≡ b))
unfolding delivered
delivered-none c none b = (λ h. (refl, ok-injective h), λ h. ap ok h.1)
delivered-none c (some e) b = (λ h. cc, λ h. cc (h.0))

-- `Deliver` returns the command that `Create` made, and that was delivered.
pub deliver-create :
    (p : Policy) (x : Environment) (r : Request) (c : Command)
    → (deliver p x r ≡ ok c) ↔ ((create p x r ≡ ok c) × (x.deliver c ≡ none))
unfolding deliver
deliver-create p x r c = (
  λ h.
      let (b, built, sent) = and_then-ok (create p x r) (λ b. delivered b (x.deliver b)) h in
      let (fine, same) = (delivered-none b (x.deliver b) c).0 sent in rw (← same) (built, fine),
  λ h. rw h.0 ((delivered-none c (x.deliver c) c).1 (h.1, refl)),
)

-- The option functions; each value may be nil. What they supply is opaque here.
pub data ServiceOption (IdGenerator NonceGenerator Signer Delivery Clock : Type 0) : Type 0 where
  with_id_generator :
      Option IdGenerator → ServiceOption IdGenerator NonceGenerator Signer Delivery Clock
  with_nonce_generator :
      Option NonceGenerator → ServiceOption IdGenerator NonceGenerator Signer Delivery Clock
  with_signer : Option Signer → ServiceOption IdGenerator NonceGenerator Signer Delivery Clock
  with_delivery : Option Delivery → ServiceOption IdGenerator NonceGenerator Signer Delivery Clock
  with_clock : Option Clock → ServiceOption IdGenerator NonceGenerator Signer Delivery Clock

-- The service's fields, which may be nil until `NewService` has checked them.
pub record Draft (IdGenerator NonceGenerator Signer Delivery Clock : Type 0) : Type 0 where
  pub policy : Policy
  pub id : Option IdGenerator
  pub nonce : Option NonceGenerator
  pub sign : Option Signer
  pub deliver : Option Delivery
  pub now : Option Clock

module _ {IdGenerator NonceGenerator Signer Delivery Clock : Type 0} where
  unfoldable pub apply_option :
      Draft IdGenerator NonceGenerator Signer Delivery Clock
      → Option (ServiceOption IdGenerator NonceGenerator Signer Delivery Clock)
      → Draft IdGenerator NonceGenerator Signer Delivery Clock
  apply_option s none = s
  apply_option s (some (with_id_generator x)) = record s { id = x }
  apply_option s (some (with_nonce_generator x)) = record s { nonce = x }
  apply_option s (some (with_signer x)) = record s { sign = x }
  apply_option s (some (with_delivery x)) = record s { deliver = x }
  apply_option s (some (with_clock x)) = record s { now = x }

  unfoldable pub apply_options :
      Draft IdGenerator NonceGenerator Signer Delivery Clock
      → List (Option (ServiceOption IdGenerator NonceGenerator Signer Delivery Clock))
      → Draft IdGenerator NonceGenerator Signer Delivery Clock
  apply_options s [] = s
  apply_options s (x ∷ xs) = apply_options (apply_option s x) xs

  -- NewService, with the generators and the clock that stand in for those not given.
  unfoldable pub new_service :
      IdGenerator
      → NonceGenerator
      → Clock
      → Policy
      → List (Option (ServiceOption IdGenerator NonceGenerator Signer Delivery Clock))
      → Result RelayError (Draft IdGenerator NonceGenerator Signer Delivery Clock)
  new_service random_id random_nonce system_clock p options =
      let s =
        apply_options
          (record {
            policy = p;
            id = some random_id;
            nonce = some random_nonce;
            sign = none;
            deliver = none;
            now = some system_clock;
          })
          options in
      if is_empty p.device_id
        || leb_ℤ p.max_validity (pos 0)
        || is_nil s.id
        || is_nil s.nonce
        || is_nil s.sign
        || is_nil s.deliver
        || is_nil s.now
      then err (foreign (codes "command service: invalid configuration"))
      else ok s

  -- A service that is fit for use.
  pub record IsReady (p : Policy) (s : Draft IdGenerator NonceGenerator Signer Delivery Clock)
      : Type 0 where
    pub device_ne_nil : p.device_id ≢ []
    pub validity_pos : pos 0 <ℤ p.max_validity
    pub id_ne_none : s.id ≢ none
    pub nonce_ne_none : s.nonce ≢ none
    pub sign_ne_none : s.sign ≢ none
    pub deliver_ne_none : s.deliver ≢ none
    pub now_ne_none : s.now ≢ none

  -- Whatever its options, a Relay service that `NewService` returns has a device, a positive
  -- validity and no nil dependency.
  pub new_service-IsReady :
      (random_id : IdGenerator) (random_nonce : NonceGenerator) (system_clock : Clock) (p : Policy)
      (options : List (Option (ServiceOption IdGenerator NonceGenerator Signer Delivery Clock)))
      {s : Draft IdGenerator NonceGenerator Signer Delivery Clock}
      → new_service random_id random_nonce system_clock p options ≡ ok s
      → IsReady p s
  unfolding new_service
  new_service-IsReady random_id random_nonce system_clock p options h = ground arith
