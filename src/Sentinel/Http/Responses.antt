-- ===== src/Sentinel/Http/Responses.antt =====
-- What a client sees of a command request, and when a command is handed to the executor.
use remote_pc_controller.Prelude.{
  ℕ, ◌≤◌, false, Option, none, some, ◌≡◌, ◌≢◌, ◌↔◌, inl, inr, refl, sym, ap, if◌then◌else◌,
  Bool-cases, arith,
}
use remote_pc_controller.Prelude.Text.{codes, equal, equal_iff}
use remote_pc_controller.Errors.{Error, ok, err, kind}
use remote_pc_controller.Sentinel.Policy.{Command, Crypto, CommandError}
use remote_pc_controller.Sentinel.Service.{Service, World, AcceptedCommand, Accepting, accept}
use remote_pc_controller.Sentinel.Http.{
  DecodeError, too_large, eof, malformed, Decoded, value, failed, Request, Reply, decode_command,
  request_error_status, command_error_response, answer, decoded, command,
}

-- A body is one JSON value, and nothing behind it, exactly if it is decoded.
pub decode_command_iff :
    (first : Decoded) (second : Option DecodeError) (c : Command)
    → (decode_command first second ≡ value c) ↔ ((first ≡ value c) × (second ≡ some eof))
unfolding decode_command
decode_command_iff (failed e) second c = (λ h. cc, λ h. cc (h.0))
decode_command_iff (value d) none c = (λ h. cc, λ h. cc (h.1))
decode_command_iff (value d) (some too_large) c = (λ h. cc, λ h. cc (h.1))
decode_command_iff (value d) (some eof) c = (λ h. (h, refl), λ h. h.0)
decode_command_iff (value d) (some (malformed t)) c = (λ h. cc, λ h. cc (h.1))

-- The statuses of an error, by the sentinel error that it wraps.
abbrev pub status_of : Option CommandError → ℕ
status_of (some CommandError.already_processed) = 409
status_of (some CommandError.wrong_device) = 403
status_of (some CommandError.expired_command) = 403
status_of (some CommandError.unsupported_action) = 422
status_of (some CommandError.invalid_signature) = 401
status_of (some CommandError.replay_unavailable) = 503
status_of _ = 400

status-command_error_response :
    (e : Error CommandError) → (command_error_response e).status ≡ status_of (kind e)
unfolding command_error_response
status-command_error_response e = ground arith

request_error_status-ne_accepted : (e : DecodeError) → request_error_status e ≢ 202
unfolding request_error_status
request_error_status-ne_accepted e = ground arith

status_of-ne_accepted : (k : Option CommandError) → status_of k ≢ 202
status_of-ne_accepted k = ground arith

-- The statuses of errors lie above those of success.
pub request_error_status_from : (e : DecodeError) → 400 ≤ request_error_status e
unfolding request_error_status
request_error_status_from e = ground arith

pub status_of_from : (k : Option CommandError) → 400 ≤ status_of k
status_of_from k = ground arith

module _ {PublicKey Storage : Type 0} (crypto : Crypto PublicKey)
    (service : Service PublicKey Storage) (r : Request) (w : World Storage) where
  -- The ways in which a request is answered: its status, the task it spawns, and the world behind it.
  pub data Answer (x : Reply × World Storage) : Type 0 where
    wrong_method :
        r.method ≢ codes "POST"
        → x.0.response.status ≡ 405
        → x.0.spawned ≡ none
        → x.1 ≡ w
        → Answer x
    bad_body :
        (e : DecodeError)
        → r.method ≡ codes "POST"
        → decode_command r.first r.second ≡ failed e
        → x.0.response.status ≡ request_error_status e
        → x.0.spawned ≡ none
        → x.1 ≡ w
        → Answer x
    rejected :
        (c : Command) (e : Error CommandError)
        → r.method ≡ codes "POST"
        → decode_command r.first r.second ≡ value c
        → (accept crypto service r.context r.now c w).0 ≡ err e
        → x.0.response.status ≡ status_of (kind e)
        → x.0.spawned ≡ none
        → x.1 ≡ (accept crypto service r.context r.now c w).1
        → Answer x
    taken :
        (c : Command) (a : AcceptedCommand)
        → r.method ≡ codes "POST"
        → decode_command r.first r.second ≡ value c
        → (accept crypto service r.context r.now c w).0 ≡ ok a
        → x.0.response.status ≡ 202
        → x.0.spawned ≡ (if r.write_fails then none else some a)
        → x.1 ≡ (accept crypto service r.context r.now c w).1
        → Answer x

  answer-Answer :
      (c : Command) (x : Accepting Storage)
      → r.method ≡ codes "POST"
      → decode_command r.first r.second ≡ value c
      → accept crypto service r.context r.now c w ≡ x
      → Answer (answer c r.write_fails x)
  unfolding answer
  answer-Answer c (err e, w') post one e' =
      rejected c e post one (ap (λ (y : Accepting Storage). y.0) e')
        (status-command_error_response e) refl (sym (ap (λ (y : Accepting Storage). y.1) e'))
  answer-Answer c (ok a, w') post one e' =
      taken c a post one (ap (λ (y : Accepting Storage). y.0) e') refl refl
        (sym (ap (λ (y : Accepting Storage). y.1) e'))

  decoded-Answer :
      (d : Decoded)
      → r.method ≡ codes "POST"
      → decode_command r.first r.second ≡ d
      → Answer (decoded crypto service r d w)
  unfolding decoded
  decoded-Answer (failed e) post one = bad_body e post one refl refl refl
  decoded-Answer (value c) post one =
      answer-Answer c (accept crypto service r.context r.now c w) post one refl

  -- Every request is answered in one of four ways, with the status, the spawned task and the
  -- service's effects of each: wrong method, bad body, a command that the service rejected, or one
  -- that it took.
  pub command-Answer : Answer (command crypto service r w)
  unfolding command
  command-Answer = elim (Bool-cases (equal r.method (codes "POST"))) [
    | inr other ↦
        rw other (wrong_method (ground (arith, equal_iff r.method (codes "POST"))) refl refl refl)
    | inl post ↦ rw post (
        decoded-Answer (decode_command r.first r.second)
          ((equal_iff r.method (codes "POST")).0 post) refl)
  ]

  -- The HTTP handler hands a command to the executor exactly if writing the response did not
  -- fail, the method is POST, the body decodes to a command and the service accepts that command
  -- as the one handed on.
  pub spawned_iff :
      (a : AcceptedCommand)
      → ((command crypto service r w).0.spawned ≡ some a) ↔ (
          (r.write_fails ≡ false)
          × (r.method ≡ codes "POST")
          × ((c : Command) × (decode_command r.first r.second ≡ value c)
              × ((accept crypto service r.context r.now c w).0 ≡ ok a)))
  spawned_iff a = (spawned_there _ command-Answer, spawned_back _ command-Answer)
    where
      spawned_there :
          (x : Reply × World Storage)
          → Answer x
          → x.0.spawned ≡ some a
          → (r.write_fails ≡ false)
            × (r.method ≡ codes "POST")
            × ((c : Command) × (decode_command r.first r.second ≡ value c)
                × ((accept crypto service r.context r.now c w).0 ≡ ok a))
      spawned_there x (wrong_method _ _ q _) h = cc
      spawned_there x (bad_body _ _ _ _ q _) h = cc
      spawned_there x (rejected _ _ _ _ _ _ q _) h = cc
      spawned_there x (taken c b post one good _ q _) h =
          (ground arith, post, (c, one, ground arith))

      spawned_back :
          (x : Reply × World Storage)
          → Answer x
          → (r.write_fails ≡ false)
            × (r.method ≡ codes "POST")
            × ((c : Command) × (decode_command r.first r.second ≡ value c)
                × ((accept crypto service r.context r.now c w).0 ≡ ok a))
          → x.0.spawned ≡ some a
      spawned_back x (wrong_method q _ _ _) (_, post, _) = absurd (q post)
      spawned_back x (bad_body _ _ q _ _ _) (_, _, (c, one, _)) = cc
      spawned_back x (rejected d e _ q bad _ _ _) (_, _, (c, one, good)) = cc
      spawned_back x (taken d b _ q other _ made _) (sent, _, (c, one, good)) =
          let same : d ≡ c = cc in
          let task : b ≡ a = ground (arith, rw same at other) in rw (made, sent, task)
