-- ===== src/Sentinel/Http/Routes.antt =====
-- `NewHandler` of sentinel/src/httpapi/handler.go: the routes, and a notifier that is nil.
use remote_pc_controller.Prelude.{
  Bool, true, false, none, some, List, [], ◌≡◌, ◌↔◌, if◌then◌else◌, arith,
}
use remote_pc_controller.Prelude.Text.{Text, codes, equal, equal_iff}
use remote_pc_controller.Errors.{ok}
use remote_pc_controller.Sentinel.Policy.{Crypto, Command}
use remote_pc_controller.Sentinel.Service.{Service, World, AcceptedCommand, accept}
use remote_pc_controller.Sentinel.Http.{
  Notice, Response, Reply, Request, value, decode_command, health, command,
}
use remote_pc_controller.Sentinel.Http.Responses.{spawned_iff}

-- The notices that reach the desktop: notify.NewNoOp takes the place of a notifier that is nil.
unfoldable pub shown_notices : (is_nil : Bool) → List Notice → List Notice
shown_notices true notices = []
shown_notices false notices = notices

abbrev pub only_answer : Response → Reply
only_answer response = record { response = response; notices = []; spawned = none }

module _ {PublicKey Storage : Type 0} (crypto : Crypto PublicKey)
    (service : Service PublicKey Storage) (mux_answer : Text → Response) where
  -- The handler that `NewHandler` returns, on the path of a request; `mux_answer` is what
  -- `http.ServeMux` answers to a path that is none of the two.
  unfoldable pub new_handler :
      (is_nil : Bool) → Text → Request → World Storage → Reply × World Storage
  unfolding health command shown_notices
  new_handler is_nil path r w =
      if equal path (codes "/health")
      then (only_answer (health r.method), w)
      else if equal path (codes "/v1/commands")
      then (let (reply, w') = command crypto service r w in
          (record reply { notices = shown_notices is_nil reply.notices }, w'))
      else (only_answer (mux_answer path), w)

  on_path_iff :
      (is_nil : Bool) (path : Text) (r : Request) (w : World Storage) (a : AcceptedCommand)
      → ((new_handler is_nil path r w).0.spawned ≡ some a)
        ↔ ((path ≡ codes "/v1/commands") × ((command crypto service r w).0.spawned ≡ some a))
  unfolding new_handler equal
  on_path_iff is_nil path r w a = (
    λ h. ground (arith, equal_iff path (codes "/health"), equal_iff path (codes "/v1/commands")),
    λ h. rw h.0 h.1,
  )

  -- The handler that Sentinel's `NewHandler` returns hands a command to the executor exactly if
  -- the path is the one for commands, writing the response did not fail, the method is POST, the
  -- body decodes to a command and the service accepts that command as the one handed on.
  pub new_handler_spawned_iff :
      (is_nil : Bool) (path : Text) (r : Request) (w : World Storage) (a : AcceptedCommand)
      → ((new_handler is_nil path r w).0.spawned ≡ some a) ↔ (
          (path ≡ codes "/v1/commands")
          × (r.write_fails ≡ false)
          × (r.method ≡ codes "POST")
          × ((c : Command) × (decode_command r.first r.second ≡ value c)
              × ((accept crypto service r.context r.now c w).0 ≡ ok a)))
  new_handler_spawned_iff is_nil path r w a =
      let routed = on_path_iff is_nil path r w a in
      let answered = spawned_iff crypto service r w a in
      (
        λ h.
            let (here, spawned) = routed.0 h in
            let (written, method, body) = answered.0 spawned in (here, written, method, body),
        λ (here, written, method, body). routed.1 (here, answered.1 (written, method, body)),
      )

  -- On every other path the service is left alone.
  pub new_handler_idle :
      (is_nil : Bool) (path : Text) (r : Request) (w : World Storage)
      → equal path (codes "/v1/commands") ≡ false
      → (new_handler is_nil path r w).1 ≡ w
  unfolding new_handler
  new_handler_idle is_nil path r w h = ground arith
