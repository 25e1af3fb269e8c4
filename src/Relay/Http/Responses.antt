-- ===== src/Relay/Http/Responses.antt =====
-- When Relay's handler answers that a command was accepted.
use remote_pc_controller.Prelude.{true, Option, none, some, ◌≡◌, ◌≢◌, ◌↔◌, refl, arith}
use remote_pc_controller.Prelude.Text.{Text, codes, equal_iff}
use remote_pc_controller.Errors.{Result, ok, err, kind}
use remote_pc_controller.Relay.Command
use remote_pc_controller.Relay.Command.{Policy, RelayError, bearer_token}
use remote_pc_controller.Relay.Service.{Environment, deliver}
use remote_pc_controller.Relay.Http.{
  Request, Decoded, DecodeError, value, failed, too_large, eof, malformed, error_response, answer,
  decoded, create,
}

-- The body is one request, and the service delivered a command for it.
abbrev pub Delivers : Policy → Environment → Decoded → Option DecodeError → Type 0
Delivers p x first second =
    (input : Command.Request) × (c : Command.Command) × (first ≡ value input)
    × (second ≡ some eof)
    × (deliver p x input ≡ ok c)

error_response_status : (k : Option RelayError) → (error_response k).status ≢ 202
unfolding error_response
error_response_status (some RelayError.invalid_request) h = ground arith
error_response_status (some RelayError.unauthorized) h = ground arith
error_response_status (some RelayError.delivery_failed) h = ground arith
error_response_status none h = ground arith

answer_delivered :
    (x : Result RelayError Command.Command)
    → (answer x).status ≡ 202
    → (c : Command.Command) × (x ≡ ok c)
unfolding answer
answer_delivered (ok c) h = (c, refl)
answer_delivered (err e) h = absurd (error_response_status (kind e) h)

decoded-Delivers :
    (p : Policy) (x : Environment) (first : Decoded) (second : Option DecodeError)
    → (decoded p x first second).status ≡ 202
    → Delivers p x first second
unfolding decoded
decoded-Delivers p x (failed too_large) second h = ground arith
decoded-Delivers p x (failed eof) second h = ground arith
decoded-Delivers p x (failed (malformed _)) second h = ground arith
decoded-Delivers p x (value input) none h = ground arith
decoded-Delivers p x (value input) (some too_large) h = ground arith
decoded-Delivers p x (value input) (some (malformed _)) h = ground arith
decoded-Delivers p x (value input) (some eof) h =
    let (c, q) = answer_delivered (deliver p x input) h in (input, c, refl, refl, q)

decoded_created :
    (p : Policy) (x : Environment) (first : Decoded) (second : Option DecodeError)
    → Delivers p x first second
    → (decoded p x first second).status ≡ 202
unfolding decoded answer
decoded_created p x first second (input, c, f, s, d) = rw (f, s, d) refl

-- Relay's handler answers 202 exactly if the method is POST, the header is a bearer token for the
-- secret, the body is one request and nothing behind it, and the service built and delivered a
-- command for that request.
pub created_iff :
    (secret : Text) (p : Policy) (x : Environment) (r : Request)
    → ((create secret p x r).status ≡ 202) ↔ (
        (r.method ≡ codes "POST")
        × (bearer_token r.authorization secret ≡ true)
        × Delivers p x r.first r.second)
unfolding create
created_iff secret p x r = (
  λ h. (
    ground (arith, equal_iff r.method (codes "POST")),
    ground arith,
    decoded-Delivers p x r.first r.second (ground arith),
  ),
  λ h. ground (
    arith,
    h.0,
    h.1,
    equal_iff r.method (codes "POST"),
    decoded_created p x r.first r.second h.2,
  ),
)
