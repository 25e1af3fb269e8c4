-- ===== src/Sentinel/Http.antt =====
-- sentinel/src/httpapi/handler.go and the interface of sentinel/src/notify/notify.go: requests,
-- responses, and the task that executes an accepted command.
pub mod Responses
pub mod Replies
pub mod Server
pub mod Replayed
pub mod Routes
use remote_pc_controller.Prelude.{
  ℕ, Bool, true, false, not, Option, none, some, List, [], ◌∷◌, ◌++◌, if◌then◌else◌,
}
use remote_pc_controller.Prelude.Text.{Text, codes, equal, is_empty}
use remote_pc_controller.Clock.{Time}
use remote_pc_controller.Errors.{Error, Result, ok, err, kind, message}
use remote_pc_controller.Sentinel.Policy.{Command, Crypto, CommandError, command_error_text}
use remote_pc_controller.Sentinel.Service.{
  Service, World, Context, AcceptedCommand, Accepting, accept, execute,
}

-- What `json.Decoder.Decode` reports on a request's body.
pub data DecodeError : Type 0 where
  -- http.MaxBytesError
  too_large : DecodeError
  -- io.EOF
  eof : DecodeError
  malformed : Text → DecodeError

-- The first call of `Decode`, which fills a `Command`.
pub data Decoded : Type 0 where
  value : Command → Decoded
  failed : DecodeError → Decoded

pub data Notice : Type 0 where
  validation_failure : Text → Text → Notice
  action_executed : Text → Text → Notice

pub data Body : Type 0 where
  plain : Text → Body
  -- {"status": "accepted", "commandId": id}
  accepted_json : Text → Body

pub record Response : Type 0 where
  pub status : ℕ
  pub body : Body

-- All that a request does outside the service; `spawned` is the task that executes the command.
pub record Reply : Type 0 where
  pub response : Response
  pub notices : List Notice
  pub spawned : Option AcceptedCommand

-- What the server hands to the handler, and what happens to it while it runs: `second` is the error
-- of the second call of `Decode`, and `write_fails` tells whether writing the response fails.
pub record Request : Type 0 where
  pub method : Text
  pub first : Decoded
  pub second : Option DecodeError
  pub context : Context
  pub now : Time
  pub write_fails : Bool

abbrev http_error : ℕ → Text → Response
http_error status text = record { status = status; body = plain text }

-- decodeCommand, on the errors of its two calls of `Decode`.
unfoldable pub decode_command : Decoded → Option DecodeError → Decoded
decode_command (failed e) second = failed e
decode_command (value c) (some eof) = value c
decode_command (value c) second =
    failed (malformed (codes "request contains more than one JSON value"))

unfoldable pub request_error_status : DecodeError → ℕ
request_error_status too_large = 413
request_error_status _ = 400

error_response : Option CommandError → Response
error_response (some CommandError.already_processed) =
    http_error 409 (codes "command already processed")
error_response (some CommandError.wrong_device) = http_error 403 (codes "target device mismatch")
error_response (some CommandError.unsupported_action) = http_error 422 (codes "unsupported action")
error_response (some CommandError.expired_command) =
    http_error 403 (codes "command expired or skew exceeded")
error_response (some CommandError.invalid_signature) =
    http_error 401 (codes "invalid cryptographic signature")
error_response (some CommandError.replay_unavailable) =
    http_error 503 (codes "replay protection unavailable")
error_response _ = http_error 400 (codes "invalid command payload")

unfoldable pub command_error_response : Error CommandError → Response
unfolding error_response
command_error_response e = error_response (kind e)

-- Handler.health
unfoldable pub health : Text → Response
health method =
    if not (equal method (codes "GET"))
    then http_error 405 (codes "method not allowed")
    else record { status = 200; body = plain (codes "ok\n") }

-- The end of `Handler.command`: what the service said of a decoded command.
module _ {Storage : Type 0} where
  answer : Command → Bool → Accepting Storage → Reply × World Storage
  unfolding command_error_response
  answer c write_fails (err e, w) = (
    record {
      response = command_error_response e;
      notices =
          validation_failure (if is_empty c.command_id then codes "N/A" else c.command_id)
            (message command_error_text e)
          ∷ [];
      spawned = none;
    },
    w,
  )
  answer c write_fails (ok a, w) = (
    record {
      response = record { status = 202; body = accepted_json a.command.command_id };
      notices = action_executed a.command.action a.command.device_id ∷ [];
      spawned = if write_fails then none else some a;
    },
    w,
  )

module _ {PublicKey Storage : Type 0} (crypto : Crypto PublicKey)
    (service : Service PublicKey Storage) where
  decoded : Request → Decoded → World Storage → Reply × World Storage
  unfolding answer request_error_status
  decoded r (failed e) w = (
    record {
      response = http_error (request_error_status e) (codes "invalid JSON");
      notices =
          validation_failure (codes "N/A") (codes "JSON inválido o cuerpo de petición corrupto")
          ∷ [];
      spawned = none;
    },
    w,
  )
  decoded r (value c) w = answer c r.write_fails (accept crypto service r.context r.now c w)

  -- Handler.command
  unfoldable pub command : Request → World Storage → Reply × World Storage
  unfolding decoded decode_command
  command r w =
      if not (equal r.method (codes "POST"))
      then (
        record {
          response = http_error 405 (codes "method not allowed");
          notices = [];
          spawned = none;
        },
        w,
      )
      else decoded r (decode_command r.first r.second) w

-- Handler.execute: the result of the service is dropped.
unfoldable pub run_task :
    {Storage : Type 0}
    → Option (Error CommandError)
    → AcceptedCommand
    → World Storage
    → World Storage
run_task outcome a w = (execute outcome a w).1
