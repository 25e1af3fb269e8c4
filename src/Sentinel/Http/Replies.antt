-- ===== src/Sentinel/Http/Replies.antt =====
-- Everything that a client and the desktop see of a command request.
use remote_pc_controller.Prelude.{
  ℕ, Option, none, some, [], ◌∷◌, ◌≡◌, ◌≢◌, inl, inr, refl, sym, ap, if◌then◌else◌, Bool-cases,
  arith,
}
use remote_pc_controller.Prelude.Text.{Text, codes, equal, equal_iff}
use remote_pc_controller.Errors.{Error, ok, err, kind, message}
use remote_pc_controller.Sentinel.Policy.{Command, Crypto, CommandError, command_error_text}
use remote_pc_controller.Sentinel.Service.{Service, World, AcceptedCommand, Accepting, accept}
use remote_pc_controller.Sentinel.Http.{
  DecodeError, too_large, eof, malformed, Decoded, value, failed, validation_failure,
  action_executed, plain, accepted_json, Request, Reply, decode_command, command_error_response,
  answer, decoded, command,
}

-- The status and the text for each of the errors that the client is told apart.
abbrev pub refusal : Option CommandError → ℕ × Text
refusal (some CommandError.already_processed) = (409, codes "command already processed")
refusal (some CommandError.wrong_device) = (403, codes "target device mismatch")
refusal (some CommandError.unsupported_action) = (422, codes "unsupported action")
refusal (some CommandError.expired_command) = (403, codes "command expired or skew exceeded")
refusal (some CommandError.invalid_signature) = (401, codes "invalid cryptographic signature")
refusal (some CommandError.replay_unavailable) = (503, codes "replay protection unavailable")
refusal _ = (400, codes "invalid command payload")

-- A reply with a text, and at most a notice, that spawns nothing.
abbrev pub Tells : ℕ → Text → Reply → Type 0
Tells status text x =
    (x.response.status ≡ status) × (x.response.body ≡ plain text) × (x.spawned ≡ none)

-- The notice of a failure, with the text for a command that is not known.
abbrev pub Notifies : Text → Text → Reply → Type 0
Notifies id reason x = x.notices ≡ validation_failure id reason ∷ []

module _ {PublicKey Storage : Type 0} (crypto : Crypto PublicKey)
    (service : Service PublicKey Storage) (r : Request) (w : World Storage) where
  -- The ways in which a request is answered, with the whole reply of each, and the world behind it.
  pub data Replied (x : Reply × World Storage) : Type 0 where
    wrong_method :
        r.method ≢ codes "POST"
        → Tells 405 (codes "method not allowed") x.0
        → x.0.notices ≡ []
        → x.1 ≡ w
        → Replied x
    big_body :
        r.method ≡ codes "POST"
        → decode_command r.first r.second ≡ failed too_large
        → Tells 413 (codes "invalid JSON") x.0
        → Notifies (codes "N/A") (codes "JSON inválido o cuerpo de petición corrupto") x.0
        → x.1 ≡ w
        → Replied x
    bad_body :
        (e : DecodeError)
        → r.method ≡ codes "POST"
        → decode_command r.first r.second ≡ failed e
        → e ≢ too_large
        → Tells 400 (codes "invalid JSON") x.0
        → Notifies (codes "N/A") (codes "JSON inválido o cuerpo de petición corrupto") x.0
        → x.1 ≡ w
        → Replied x
    rejected_unnamed :
        (c : Command) (e : Error CommandError)
        → r.method ≡ codes "POST"
        → decode_command r.first r.second ≡ value c
        → c.command_id ≡ []
        → (accept crypto service r.context r.now c w).0 ≡ err e
        → Tells (refusal (kind e)).0 (refusal (kind e)).1 x.0
        → Notifies (codes "N/A") (message command_error_text e) x.0
        → x.1 ≡ (accept crypto service r.context r.now c w).1
        → Replied x
    rejected :
        (c : Command) (e : Error CommandError)
        → r.method ≡ codes "POST"
        → decode_command r.first r.second ≡ value c
        → c.command_id ≢ []
        → (accept crypto service r.context r.now c w).0 ≡ err e
        → Tells (refusal (kind e)).0 (refusal (kind e)).1 x.0
        → Notifies c.command_id (message command_error_text e) x.0
        → x.1 ≡ (accept crypto service r.context r.now c w).1
        → Replied x
    taken :
        (c : Command) (a : AcceptedCommand)
        → r.method ≡ codes "POST"
        → decode_command r.first r.second ≡ value c
        → (accept crypto service r.context r.now c w).0 ≡ ok a
        → x.0.response.status ≡ 202
        → x.0.response.body ≡ accepted_json a.command.command_id
        → x.0.notices ≡ action_executed a.command.action a.command.device_id ∷ []
        → x.0.spawned ≡ (if r.write_fails then none else some a)
        → x.1 ≡ (accept crypto service r.context r.now c w).1
        → Replied x

  refusal-command_error_response :
      (e : Error CommandError)
      → ((command_error_response e).status ≡ (refusal (kind e)).0)
        × ((command_error_response e).body ≡ plain (refusal (kind e)).1)
  unfolding command_error_response
  refusal-command_error_response e = (ground arith, ground arith)

  rejected-Replied :
      (c : Command) (id : Text) (e : Error CommandError) (w' : World Storage)
      → c.command_id ≡ id
      → r.method ≡ codes "POST"
      → decode_command r.first r.second ≡ value c
      → accept crypto service r.context r.now c w ≡ (err e, w')
      → Replied (answer c r.write_fails (err e, w'))
  unfolding answer
  rejected-Replied c [] e w' named post one e' =
      let (status, body) = refusal-command_error_response e in
      rejected_unnamed c e post one named (ap (λ y. y.0) e') (status, body, refl) (rw named refl)
        (sym (ap (λ (y : Accepting Storage). y.1) e'))
  rejected-Replied c (a ∷ id) e w' named post one e' =
      let (status, body) = refusal-command_error_response e in
      rejected c e post one (λ h. cc) (ap (λ y. y.0) e') (status, body, refl) (rw named refl)
        (sym (ap (λ (y : Accepting Storage). y.1) e'))

  answer-Replied :
      (c : Command) (x : Accepting Storage)
      → r.method ≡ codes "POST"
      → decode_command r.first r.second ≡ value c
      → accept crypto service r.context r.now c w ≡ x
      → Replied (answer c r.write_fails x)
  unfolding answer
  answer-Replied c (err e, w') post one e' = rejected-Replied c c.command_id e w' refl post one e'
  answer-Replied c (ok a, w') post one e' =
      taken c a post one (ap (λ y. y.0) e') refl refl refl refl
        (sym (ap (λ (y : Accepting Storage). y.1) e'))

  decoded-Replied :
      (d : Decoded)
      → r.method ≡ codes "POST"
      → decode_command r.first r.second ≡ d
      → Replied (decoded crypto service r d w)
  unfolding decoded
  decoded-Replied (failed too_large) post one = big_body post one (refl, refl, refl) refl refl
  decoded-Replied (failed eof) post one =
      bad_body eof post one (λ h. cc) (refl, refl, refl) refl refl
  decoded-Replied (failed (malformed t)) post one =
      bad_body (malformed t) post one (λ h. cc) (refl, refl, refl) refl refl
  decoded-Replied (value c) post one =
      answer-Replied c (accept crypto service r.context r.now c w) post one refl

  -- A command request is answered in one of six ways, told apart by its method, its body, and
  -- what `Accept` returns, each with its status, the text of its body, the notices that are
  -- shown, the task that is spawned and the world behind it: for another method than POST, for a
  -- body that is too large, for one that is no JSON text of a command, for a refused command
  -- without and with an identifier, and for an accepted one.
  pub command-Replied : Replied (command crypto service r w)
  unfolding command
  command-Replied = elim (Bool-cases (equal r.method (codes "POST"))) [
    | inr other ↦ rw other (
        wrong_method (ground (arith, equal_iff r.method (codes "POST"))) (refl, refl, refl) refl
          refl)
    | inl post ↦ rw post (
        decoded-Replied (decode_command r.first r.second)
          ((equal_iff r.method (codes "POST")).0 post) refl)
  ]
