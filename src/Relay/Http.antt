-- ===== src/Relay/Http.antt =====
-- relay/src/httpapi/handler.go: the HTTP interface of Relay.
pub mod Responses
pub mod Routes
use remote_pc_controller.Prelude.{ℕ, Bool, true, false, not, Option, none, some, [], if◌then◌else◌}
use remote_pc_controller.Prelude.Text.{Text, codes, equal}
use remote_pc_controller.Errors.{Error, Result, ok, err, kind}
use remote_pc_controller.Relay.Command.{Policy, RelayError, bearer_token}
use remote_pc_controller.Relay.Command
use remote_pc_controller.Relay.Service.{Environment, deliver}

-- What `json.Decoder.Decode` reports on a request's body.
pub data DecodeError : Type 0 where
  -- http.MaxBytesError
  too_large : DecodeError
  -- io.EOF
  eof : DecodeError
  malformed : Text → DecodeError

-- The first call of `Decode`, which fills a `Request`.
pub data Decoded : Type 0 where
  value : Command.Request → Decoded
  failed : DecodeError → Decoded

pub data Body : Type 0 where
  plain : Text → Body
  -- {"status": "accepted", "commandId": id}
  accepted_json : Text → Body

pub record Response : Type 0 where
  pub status : ℕ
  pub body : Body

-- What the server hands to the handler: the `Authorization` header, and the results of the two
-- calls of `Decode` on the body.
pub record Request : Type 0 where
  pub method : Text
  pub authorization : Text
  pub first : Decoded
  pub second : Option DecodeError

abbrev http_error : ℕ → Text → Response
http_error status text = record { status = status; body = plain text }

-- Handler.health
unfoldable pub health : Text → Response
health method =
    if not (equal method (codes "GET"))
    then http_error 405 (codes "method not allowed")
    else record { status = 200; body = plain (codes "ok\n") }

error_response : Option RelayError → Response
error_response (some RelayError.invalid_request) = http_error 400 (codes "invalid command request")
error_response (some RelayError.delivery_failed) = http_error 502 (codes "sentinel unavailable")
error_response _ = http_error 500 (codes "command rejected")

-- The end of `Handler.create`, on what the service returns.
answer : Result RelayError Command.Command → Response
unfolding error_response
answer (err e) = error_response (kind e)
answer (ok c) = record { status = 202; body = accepted_json c.command_id }

-- `Handler.create` behind the authorization, on the results of `Decode`.
decoded : Policy → Environment → Decoded → Option DecodeError → Response
unfolding answer
decoded p x (failed too_large) second = http_error 413 (codes "invalid JSON")
decoded p x (failed e) second = http_error 400 (codes "invalid JSON")
decoded p x (value input) (some eof) = answer (deliver p x input)
decoded p x (value input) second = http_error 400 (codes "invalid JSON")

-- Handler.create, with the handler's secret.
unfoldable pub create : Text → Policy → Environment → Request → Response
unfolding decoded
create secret p x r =
    if not (equal r.method (codes "POST"))
    then http_error 405 (codes "method not allowed")
    else if not (bearer_token r.authorization secret)
    then http_error 401 (codes "unauthorized")
    else decoded p x r.first r.second
