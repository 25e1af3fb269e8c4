-- ===== src/Sentinel/Service/Assembly.antt =====
-- `NewService` and its functional options. What the options supply is opaque here.
use remote_pc_controller.Prelude.{
  Option, none, some, List, [], ◌∷◌, ◌≡◌, ◌≢◌, refl, ◌∙◌, inl, inr, Option-cases, arith,
}
use remote_pc_controller.Prelude.Text.{codes}
use remote_pc_controller.Errors.{Result, ok, err, foreign}
use remote_pc_controller.Sentinel.Policy.{Policy, CommandError, validate_configuration}
use remote_pc_controller.Sentinel.Policy.Validation.{IsConfigured, configuration_iff}

-- The option functions; each value may be a nil interface or function.
pub data ServiceOption (Replay Executor Clock Audit : Type 0) : Type 0 where
  with_replay_protector : Option Replay → ServiceOption Replay Executor Clock Audit
  with_action_executor : Option Executor → ServiceOption Replay Executor Clock Audit
  with_clock : Option Clock → ServiceOption Replay Executor Clock Audit
  with_audit_logger : Option Audit → ServiceOption Replay Executor Clock Audit

-- The service's fields, which may be nil until `NewService` has checked them.
pub record Draft (PublicKey Replay Executor Clock Audit : Type 0) : Type 0 where
  pub policy : Policy PublicKey
  pub replay : Option Replay
  pub executor : Option Executor
  pub now : Option Clock
  pub audit : Option Audit

-- A nil logger becomes the one that discards.
unfoldable pub default_audit : {Audit : Type 0} → Audit → Option Audit → Option Audit
default_audit discard none = some discard
default_audit discard (some x) = some x

module _ {PublicKey Replay Executor Clock Audit : Type 0} where
  -- Calls an option, if it is not nil.
  unfoldable pub apply_option :
      Draft PublicKey Replay Executor Clock Audit
      → Option (ServiceOption Replay Executor Clock Audit)
      → Draft PublicKey Replay Executor Clock Audit
  apply_option s none = s
  apply_option s (some (with_replay_protector x)) = record s { replay = x }
  apply_option s (some (with_action_executor x)) = record s { executor = x }
  apply_option s (some (with_clock x)) = record s { now = x }
  apply_option s (some (with_audit_logger x)) = record s { audit = x }

  unfoldable pub apply_options :
      Draft PublicKey Replay Executor Clock Audit
      → List (Option (ServiceOption Replay Executor Clock Audit))
      → Draft PublicKey Replay Executor Clock Audit
  apply_options s [] = s
  apply_options s (x ∷ xs) = apply_options (apply_option s x) xs

  -- The checks of `NewService` behind the policy's, in their order.
  check_replay :
      Audit
      → Option Replay
      → Option Executor
      → Option Clock
      → Draft PublicKey Replay Executor Clock Audit
      → Result CommandError (Draft PublicKey Replay Executor Clock Audit)
  unfolding default_audit
  check_replay discard none x n s =
      err (foreign (codes "command service: replay protector is required"))
  check_replay discard (some r) none n s =
      err (foreign (codes "command service: action executor is required"))
  check_replay discard (some r) (some x) none s =
      err (foreign (codes "command service: clock is required"))
  check_replay discard (some r) (some x) (some n) s =
      ok (record s { audit = default_audit discard s.audit })

  -- NewService, with the clock and the logger that stand in for those not given.
  unfoldable pub new_service :
      Clock
      → Audit
      → Policy PublicKey
      → List (Option (ServiceOption Replay Executor Clock Audit))
      → Result CommandError (Draft PublicKey Replay Executor Clock Audit)
  unfolding check_replay
  new_service system_clock discard p options =
      let s =
        apply_options
          (record {
            policy = p;
            replay = none;
            executor = none;
            now = some system_clock;
            audit = some discard;
          })
          options in
      elim (validate_configuration p) [
        | some e ↦ err e
        | none ↦ check_replay discard s.replay s.executor s.now s
      ]

  -- A service that is fit for use.
  pub record IsComplete (s : Draft PublicKey Replay Executor Clock Audit) : Type 0 where
    pub configured : IsConfigured s.policy
    pub replay_ne_none : s.replay ≢ none
    pub executor_ne_none : s.executor ≢ none
    pub now_ne_none : s.now ≢ none
    pub audit_ne_none : s.audit ≢ none

  policy-apply_option :
      (s : Draft PublicKey Replay Executor Clock Audit)
      (x : Option (ServiceOption Replay Executor Clock Audit))
      → (apply_option s x).policy ≡ s.policy
  unfolding apply_option
  policy-apply_option s none = refl
  policy-apply_option s (some (with_replay_protector x)) = refl
  policy-apply_option s (some (with_action_executor x)) = refl
  policy-apply_option s (some (with_clock x)) = refl
  policy-apply_option s (some (with_audit_logger x)) = refl

  policy-apply_options :
      (s : Draft PublicKey Replay Executor Clock Audit)
      (options : List (Option (ServiceOption Replay Executor Clock Audit)))
      → (apply_options s options).policy ≡ s.policy
  unfolding apply_options
  policy-apply_options s [] = refl
  policy-apply_options s (x ∷ xs) =
      policy-apply_options (apply_option s x) xs ∙ policy-apply_option s x

  check_replay-IsComplete :
      (discard : Audit) (r : Option Replay) (x : Option Executor) (n : Option Clock)
      (s : Draft PublicKey Replay Executor Clock Audit)
      {t : Draft PublicKey Replay Executor Clock Audit}
      → s.replay ≡ r
      → s.executor ≡ x
      → s.now ≡ n
      → IsConfigured s.policy
      → check_replay discard r x n s ≡ ok t
      → (t.policy ≡ s.policy) × IsComplete t
  unfolding check_replay
  check_replay-IsComplete discard none x n s hr hx hn c h = cc
  check_replay-IsComplete discard (some r) none n s hr hx hn c h = cc
  check_replay-IsComplete discard (some r) (some x) none s hr hx hn c h = cc
  check_replay-IsComplete discard (some r) (some x) (some n) s {t} hr hx hn c h =
      let same : t.policy ≡ s.policy = ground arith in
      (
        same,
        record {
          configured = rw same c;
          replay_ne_none = ground arith;
          executor_ne_none = ground arith;
          now_ne_none = ground arith;
          audit_ne_none = ground arith;
        },
      )

  -- Whatever its options, a Sentinel service that `NewService` returns has the given policy, a
  -- valid one, and no nil dependency.
  pub new_service-IsComplete :
      (system_clock : Clock) (discard : Audit) (p : Policy PublicKey)
      (options : List (Option (ServiceOption Replay Executor Clock Audit)))
      {s : Draft PublicKey Replay Executor Clock Audit}
      → new_service system_clock discard p options ≡ ok s
      → (s.policy ≡ p) × IsComplete s
  unfolding new_service
  new_service-IsComplete system_clock discard p options {s} h =
      elim (Option-cases (validate_configuration p)) [
        | inr (e, bad) ↦ cc
        | inl fine ↦
            let first : Draft PublicKey Replay Executor Clock Audit = record {
              policy = p;
              replay = none;
              executor = none;
              now = some system_clock;
              audit = some discard;
            } in
            let t = apply_options first options in
            let same = policy-apply_options first options in
            let (kept, complete) =
              check_replay-IsComplete discard t.replay t.executor t.now t {t = s} refl refl refl
                (rw same ((configuration_iff p).0 fine)) (rw (fine, new_service) at h) in
            (kept ∙ same, complete)
      ]
