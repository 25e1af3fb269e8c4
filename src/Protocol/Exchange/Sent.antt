-- ===== src/Protocol/Exchange/Sent.antt =====
-- What Relay's answer says of the command that it sent.
use remote_pc_controller.Prelude.{
  true, not, Option, none, some, ◌≡◌, ◌↔◌, refl, ap, if◌then◌else◌, arith,
}
use remote_pc_controller.Prelude.Text.{Text, codes, equal, equal_iff}
use remote_pc_controller.Errors.{Error, Result, ok, err}
use remote_pc_controller.Relay.Command as RelayCommand
use remote_pc_controller.Relay.Command.{RelayError, bearer_token}
use remote_pc_controller.Relay.Http as RelayHttp
use remote_pc_controller.Relay.Http.Responses.{created_iff}
use remote_pc_controller.Relay.Service as RelayService
use remote_pc_controller.Relay.Service.{deliver-create, create-deliver}
use remote_pc_controller.Protocol.Exchange.{made, sent_decoded, sent}

-- Relay hands a command to its client exactly if the request is authorized, and its body is one
-- request from which the service makes that command.
abbrev pub Makes :
    Text
    → RelayCommand.Policy
    → RelayService.Environment
    → RelayHttp.Request
    → RelayCommand.Command
    → Type 0
Makes secret p x r c =
    (r.method ≡ codes "POST")
    × (bearer_token r.authorization secret ≡ true)
    × ((input : RelayCommand.Request) × (r.first ≡ RelayHttp.value input)
        × (r.second ≡ some RelayHttp.eof)
        × (RelayService.create p x input ≡ ok c))

made-ok :
    (r : Result RelayError RelayCommand.Command) (c : RelayCommand.Command)
    → (made r ≡ some c) ↔ (r ≡ ok c)
unfolding made
made-ok (ok b) c = (λ h. cc, λ h. cc)
made-ok (err e) c = (λ h. cc, λ h. cc)

sent_decoded-makes :
    (p : RelayCommand.Policy) (x : RelayService.Environment) (first : RelayHttp.Decoded)
    (second : Option RelayHttp.DecodeError) (c : RelayCommand.Command)
    → (sent_decoded p x first second ≡ some c) ↔ (
        (input : RelayCommand.Request) × (first ≡ RelayHttp.value input)
        × (second ≡ some RelayHttp.eof)
        × (RelayService.create p x input ≡ ok c))
unfolding sent_decoded
sent_decoded-makes p x (RelayHttp.failed e) second c = (λ h. cc, λ h. cc (h.1))
sent_decoded-makes p x (RelayHttp.value input) none c = (λ h. cc, λ h. cc (h.2))
sent_decoded-makes p x (RelayHttp.value input) (some RelayHttp.too_large) c =
    (λ h. cc, λ h. cc (h.2))
sent_decoded-makes p x (RelayHttp.value input) (some (RelayHttp.malformed t)) c =
    (λ h. cc, λ h. cc (h.2))
sent_decoded-makes p x (RelayHttp.value input) (some RelayHttp.eof) c = (
  λ h. (input, refl, refl, (made-ok (RelayService.create p x input) c).0 h),
  λ h. ground (arith, h.1, h.3, made-ok (RelayService.create p x input) c),
)

pub sent-Makes :
    (secret : Text) (p : RelayCommand.Policy) (x : RelayService.Environment) (r : RelayHttp.Request)
    (c : RelayCommand.Command)
    → (sent secret p x r ≡ some c) ↔ Makes secret p x r c
unfolding sent
sent-Makes secret p x r c = (
  λ h. (
    ground (arith, equal_iff r.method (codes "POST")),
    ground arith,
    (sent_decoded-makes p x r.first r.second c).0 (ground arith),
  ),
  λ h. ground (
    arith,
    h.0,
    h.1,
    equal_iff r.method (codes "POST"),
    (sent_decoded-makes p x r.first r.second c).1 h.2,
  ),
)

-- Relay answers 202 exactly if it sent a command and its client delivered that.
pub created-sent :
    (secret : Text) (p : RelayCommand.Policy) (x : RelayService.Environment) (r : RelayHttp.Request)
    → ((RelayHttp.create secret p x r).status ≡ 202)
      ↔ ((c : RelayCommand.Command) × (sent secret p x r ≡ some c) × (x.deliver c ≡ none))
created-sent secret p x r = (
  λ h.
      let (post, bearer, (input, c, first, second, delivered)) = (created_iff secret p x r).0 h in
      let (built, fine) = (deliver-create p x input c).0 delivered in
      (c, (sent-Makes secret p x r c).1 ((post, bearer, (input, first, second, built))), fine),
  λ h.
      let (c, made_it, fine) = h in
      let (post, bearer, (input, first, second, built)) = (sent-Makes secret p x r c).0 made_it in
      (created_iff secret p x r).1
        (post, bearer, (input, c, first, second, (deliver-create p x input c).1 (built, fine))),
)

-- What is sent does not depend on the delivery.
pub sent-deliver :
    (secret : Text) (p : RelayCommand.Policy) (x : RelayService.Environment) (r : RelayHttp.Request)
    (f : RelayCommand.Command → Option (Error RelayError))
    → sent secret p (record x { deliver = f }) r ≡ sent secret p x r
unfolding sent sent_decoded
sent-deliver secret p x r f =
    ap
      (λ c.
        if not (equal r.method (codes "POST"))
        then none
        else if not (bearer_token r.authorization secret)
        then none
        else c)
      (decoded_same r.first r.second)
  where
    decoded_same :
        (first : RelayHttp.Decoded) (second : Option RelayHttp.DecodeError)
        → sent_decoded p (record x { deliver = f }) first second ≡ sent_decoded p x first second
    decoded_same (RelayHttp.failed e) second = refl
    decoded_same (RelayHttp.value input) none = refl
    decoded_same (RelayHttp.value input) (some RelayHttp.eof) = ap made (create-deliver p x input f)
    decoded_same (RelayHttp.value input) (some RelayHttp.too_large) = refl
    decoded_same (RelayHttp.value input) (some (RelayHttp.malformed t)) = refl
