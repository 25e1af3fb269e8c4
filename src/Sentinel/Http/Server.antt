-- ===== src/Sentinel/Http/Server.antt =====
-- Requests and execution tasks in any order. A request is one step: the store's mutex and the audit
-- lines are all that two requests share. The task that an accepted request spawns runs later.
use remote_pc_controller.Prelude.{
  ℕ, suc, ◌+◌, ◌≤◌, Bool, true, false, Option, none, some, List, [], ◌∷◌, ◌++◌, ◌≡◌, refl, ap,
  if◌then◌else◌, length, length-append, All, All-append, append-nil, arith,
}
use remote_pc_controller.Prelude.Text.{equal_iff}
use remote_pc_controller.Clock.{Time}
use remote_pc_controller.Errors.{Error, ok, err}
use remote_pc_controller.Sentinel.Policy.{Command, Crypto, CommandError, action_hibernate}
use remote_pc_controller.Sentinel.Policy.Validation.{validate_iff-Passes}
use remote_pc_controller.Sentinel.Service.{
  Context, Service, World, AuditLine, rejected, accepted, AcceptedCommand, Accepting, accept,
  execute,
}
use remote_pc_controller.Sentinel.Service.Acceptance.{
  Outcome, cancelled, refused, repeated, passed, accept-Outcome,
}
use remote_pc_controller.Sentinel.Http.{Request, Reply, command, run_task}
use remote_pc_controller.Sentinel.Http.Responses
use remote_pc_controller.Sentinel.Http.Responses.{
  Answer, wrong_method, bad_body, taken, command-Answer,
}

-- The world, and the tasks that have not run yet.
pub record Server (Storage : Type 0) : Type 0 where
  pub world : World Storage
  pub pending : List AcceptedCommand

abbrev pub spawn : Option AcceptedCommand → List AcceptedCommand
spawn none = []
spawn (some a) = a ∷ []

-- How many commands the audit log calls accepted.
unfoldable pub acceptances : List AuditLine → ℕ
acceptances [] = 0
acceptances (accepted _ _ ∷ l) = suc (acceptances l)
acceptances (_ ∷ l) = acceptances l

acceptances-append :
    (l : List AuditLine) (x : AuditLine)
    → acceptances (l ++ x ∷ []) ≡ acceptances l + acceptances (x ∷ [])
unfolding acceptances
acceptances-append [] x = omega arith
acceptances-append (accepted _ _ ∷ l) x = omega (arith, acceptances-append l x)
acceptances-append (rejected _ _ ∷ l) x = acceptances-append l x
acceptances-append (AuditLine.hibernate_failed _ _ ∷ l) x = acceptances-append l x
acceptances-append (AuditLine.hibernate_started _ ∷ l) x = acceptances-append l x

-- A line of another kind adds nothing.
acceptances-same :
    (l : List AuditLine) (x : AuditLine)
    → acceptances (x ∷ []) ≡ 0
    → acceptances (l ++ x ∷ []) ≡ acceptances l
acceptances-same l x h = omega (arith, acceptances-append l x)

-- The command asks for the only action that there is.
abbrev pub Hibernates : AcceptedCommand → Type 0
Hibernates a = a.command.action ≡ action_hibernate

module _ {PublicKey Storage : Type 0} (crypto : Crypto PublicKey)
    (service : Service PublicKey Storage) where
  -- A request is served, or one of the pending tasks runs and gets the executor's answer.
  pub data Step (s : Server Storage) : Server Storage → Type 0 where
    serve :
        (r : Request)
        → Step s (record {
          world = (command crypto service r s.world).1;
          pending = s.pending ++ spawn (command crypto service r s.world).0.spawned;
        })
    run :
        (outcome : Option (Error CommandError)) (before : List AcceptedCommand)
        (a : AcceptedCommand) (after : List AcceptedCommand)
        → s.pending ≡ before ++ a ∷ after
        → Step s (record { world = run_task outcome a s.world; pending = before ++ after })

  pub data Reach (s : Server Storage) : Server Storage → Type 0 where
    here : Reach s s
    next : {t u : Server Storage} → Reach s t → Step t u → Reach s u

  -- Every call of the executor, made or still to come, is covered by an acceptance of its own.
  pub record IsCovered (s : Server Storage) : Type 0 where
    pub covered : s.world.hibernations + length s.pending ≤ acceptances s.world.audit
    pub hibernate_only : All Hibernates s.pending

  -- What a call of `Accept` adds to the counts.
  abbrev Counted : World Storage → Accepting Storage → Type 0
  Counted w (ok a, w') =
      (w'.hibernations ≡ w.hibernations)
      × (acceptances w'.audit ≡ acceptances w.audit + 1)
      × Hibernates a
  Counted w (err e, w') =
      (w'.hibernations ≡ w.hibernations) × (acceptances w'.audit ≡ acceptances w.audit)

  accept-Counted :
      (ctx : Context) (now : Time) (c : Command) (w : World Storage)
      → Counted w (accept crypto service ctx now c w)
  unfolding acceptances
  accept-Counted ctx now c w = go _ (accept-Outcome crypto service ctx now c w)
    where
      go : (x : Accepting Storage) → Outcome crypto service ctx now c w x → Counted w x
      go _ (cancelled e _) = (refl, refl)
      go _ (refused e _ _) = (refl, acceptances-same w.audit (rejected c.command_id e) refl)
      go _ (repeated e _ _ _) = (refl, acceptances-same w.audit (rejected c.command_id e) refl)
      go _ (passed _ v _) = (
        refl,
        acceptances-append w.audit (accepted c.command_id c.action),
        ((validate_iff-Passes crypto service.policy c now).0 v).hibernates,
      )

  Counted-err :
      (w : World Storage) {e : Error CommandError} (x : Accepting Storage)
      → Counted w x
      → x.0 ≡ err e
      → (x.1.hibernations ≡ w.hibernations) × (acceptances x.1.audit ≡ acceptances w.audit)
  Counted-err w (ok a, w') h q = cc
  Counted-err w (err e, w') h q = h

  Counted-ok :
      (w : World Storage) {a : AcceptedCommand} (x : Accepting Storage)
      → Counted w x
      → x.0 ≡ ok a
      → (x.1.hibernations ≡ w.hibernations)
        × (acceptances x.1.audit ≡ acceptances w.audit + 1)
        × Hibernates a
  Counted-ok w {a} (ok b, w') h q = let same : b ≡ a = ground arith in (h.0, h.1, rw (← same) h.2)
  Counted-ok w (err e, w') h q = cc

  serve_counts :
      (r : Request) (s : Server Storage) (x : Reply × World Storage)
      → Answer crypto service r s.world x
      → IsCovered s
      → IsCovered (record { world = x.1; pending = s.pending ++ spawn x.0.spawned })
  serve_counts r s x (wrong_method _ _ q same) h = rw (q, same, append-nil) h
  serve_counts r s x (bad_body _ _ _ _ q same) h = rw (q, same, append-nil) h
  serve_counts r s x (Responses.rejected c e _ _ bad _ q same) h =
      let counts = Counted-err s.world _ (accept-Counted r.context r.now c s.world) bad in
      rw (q, same, append-nil)
        (record { covered = omega (arith, counts, h.covered); hibernate_only = h.hibernate_only })
  serve_counts r s x (taken c a _ _ good _ q same) h = rw (q, same) (spawned_counts r.write_fails)
    where
      spawned_counts :
          (lost : Bool)
          → IsCovered (record {
            world = (accept crypto service r.context r.now c s.world).1;
            pending = s.pending ++ spawn (if lost then none else some a);
          })
      spawned_counts true =
          let counts = Counted-ok s.world _ (accept-Counted r.context r.now c s.world) good in
          rw append-nil (record {
            covered = omega (arith, counts, h.covered);
            hibernate_only = h.hibernate_only;
          })
      spawned_counts false =
          let counts = Counted-ok s.world _ (accept-Counted r.context r.now c s.world) good in
          record {
            covered = omega (arith, counts, h.covered, length-append s.pending (a ∷ []));
            hibernate_only =
                All-append Hibernates s.pending (a ∷ []) h.hibernate_only (counts.2, tt);
          }

  run_counts :
      (outcome : Option (Error CommandError)) (a : AcceptedCommand) (w : World Storage)
      → Hibernates a
      → ((run_task outcome a w).hibernations ≡ w.hibernations + 1)
        × (acceptances (run_task outcome a w).audit ≡ acceptances w.audit)
  unfolding run_task execute acceptances
  run_counts (some e) a w h = ground (
    arith,
    (equal_iff a.command.action action_hibernate).1 h,
    acceptances-same w.audit (AuditLine.hibernate_failed a.command.command_id e) refl,
  )
  run_counts none a w h = ground (
    arith,
    (equal_iff a.command.action action_hibernate).1 h,
    acceptances-same w.audit (AuditLine.hibernate_started a.command.command_id) refl,
  )

  All-parts :
      (before : List AcceptedCommand) (a : AcceptedCommand) (after : List AcceptedCommand)
      → All Hibernates (before ++ a ∷ after)
      → Hibernates a × All Hibernates (before ++ after)
  All-parts [] a after (ha, hs) = (ha, hs)
  All-parts (b ∷ before) a after (hb, hs) =
      let (ha, rest) = All-parts before a after hs in (ha, (hb, rest))

  pub Step-IsCovered : {s t : Server Storage} → Step s t → IsCovered s → IsCovered t
  Step-IsCovered {s} (serve r) h =
      serve_counts r s (command crypto service r s.world) (command-Answer crypto service r s.world)
        h
  Step-IsCovered {s} (run outcome before a after q) h =
      let (ha, rest) = All-parts before a after (rw q at h.hibernate_only) in
      let counts = run_counts outcome a s.world ha in
      record {
        covered = omega (
          arith,
          counts,
          h.covered,
          ap length q,
          length-append before (a ∷ after),
          length-append before after,
        );
        hibernate_only = rest;
      }

  -- However requests and execution tasks interleave, the executor's calls and the tasks still to
  -- run never outnumber the acceptances in the audit log, and every pending task asks to
  -- hibernate, if this holds at the start.
  pub Reach-IsCovered : {s t : Server Storage} → IsCovered s → Reach s t → IsCovered t
  Reach-IsCovered h here = h
  Reach-IsCovered h (next r st) = Step-IsCovered st (Reach-IsCovered h r)
