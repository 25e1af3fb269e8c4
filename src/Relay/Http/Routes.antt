-- ===== src/Relay/Http/Routes.antt =====
-- `NewHandler` of relay/src/httpapi/handler.go: the routes.
use remote_pc_controller.Prelude.{true, ◌≡◌, ◌≢◌, ◌↔◌, if◌then◌else◌, Bool-cases, inl, inr, arith}
use remote_pc_controller.Prelude.Text.{Text, codes, equal, equal_iff}
use remote_pc_controller.Relay.Command.{Policy, bearer_token}
use remote_pc_controller.Relay.Service.{Environment}
use remote_pc_controller.Relay.Http.{Response, Request, health, create}
use remote_pc_controller.Relay.Http.Responses.{Delivers, created_iff}

health-ne-202 : (method : Text) → (health method).status ≢ 202
unfolding health
health-ne-202 method h = ground arith

-- The handler that `NewHandler` returns, on the path of a request; `mux_answer` is what
-- `http.ServeMux` answers to a path that is none of the two.
module _ (mux_answer : Text → Response) where
  unfoldable pub new_handler : Text → Policy → Environment → Text → Request → Response
  unfolding health create
  new_handler secret p x path r =
      if equal path (codes "/health")
      then health r.method
      else if equal path (codes "/v1/commands")
      then create secret p x r
      else mux_answer path

  -- If the multiplexer's own answers never have the status 202, the handler that Relay's
  -- `NewHandler` returns answers 202 exactly if the path is the one for commands, the method is
  -- POST, the header is a bearer token for the secret, the body is one request and nothing behind
  -- it, and the service built and delivered a command for that request.
  pub new_handler_created_iff :
      (secret : Text) (p : Policy) (x : Environment) (path : Text) (r : Request)
      → ((other : Text) → (mux_answer other).status ≢ 202)
      → ((new_handler secret p x path r).status ≡ 202) ↔ (
          (path ≡ codes "/v1/commands")
          × (r.method ≡ codes "POST")
          × (bearer_token r.authorization secret ≡ true)
          × Delivers p x r.first r.second)
  unfolding new_handler equal
  new_handler_created_iff secret p x path r never =
      let created = created_iff secret p x r in
      (
        λ h. elim (Bool-cases (equal path (codes "/health"))) [
          | inl e ↦ absurd (health-ne-202 r.method (ground (arith, e, h)))
          | inr e ↦ elim (Bool-cases (equal path (codes "/v1/commands"))) [
            | inl i ↦
                let (method, bearer, body) = created.0 (ground (arith, e, i, h)) in
                ((equal_iff path (codes "/v1/commands")).0 i, method, bearer, body)
            | inr i ↦ absurd (never path (ground (arith, e, i, h)))
          ]
        ],
        λ (here, method, bearer, body). rw here (created.1 (method, bearer, body)),
      )
