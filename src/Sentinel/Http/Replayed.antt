-- ===== src/Sentinel/Http/Replayed.antt =====
-- A command that was spawned is spawned once, however often its request comes again.
use remote_pc_controller.Prelude.{
  Bool, true, false, none, some, List, [], ◌∷◌, ◌≡◌, ◌≢◌, ◌⊎◌, inl, inr, refl, sym, ap, ◌∙◌, All,
  if◌then◌else◌,
}
use remote_pc_controller.Prelude.Distinct.{IsDistinct}
use remote_pc_controller.Prelude.Int.{ℤ, ◌<ℤ◌}
use remote_pc_controller.Clock.{to_unix}
use remote_pc_controller.Errors.{ok}
use remote_pc_controller.Sentinel.Policy.{Policy, Command, Crypto, replay_until}
use remote_pc_controller.Sentinel.Replay.{Store}
use remote_pc_controller.Sentinel.Service.{World, AcceptedCommand}
use remote_pc_controller.Sentinel.Service.Once.{store_service, Call, call, calls, accepted_once}
use remote_pc_controller.Sentinel.Http.{value, Request, Reply, decode_command, command}
use remote_pc_controller.Sentinel.Http.Responses.{
  Answer, wrong_method, bad_body, rejected, taken, command-Answer,
}

value-injective : {c d : Command} → value c ≡ value d → c ≡ d
value-injective h = cc

if-some : (fails : Bool) {a b : AcceptedCommand} → (if fails then none else some a) ≡ some b → a ≡ b
if-some true h = cc
if-some false h = cc

module _ {PublicKey : Type 0} (crypto : Crypto PublicKey) (p : Policy PublicKey) where
  -- The world behind a sequence of requests.
  unfoldable pub serve : World Store → List Request → World Store
  unfolding command
  serve w [] = w
  serve w (r ∷ rs) = serve ((command crypto (store_service p) r w).1) rs

  -- A request leaves the world alone, or makes a call of `Accept` at its time.
  Answer_call :
      (r : Request) (w : World Store) (x : Reply × World Store)
      → Answer crypto (store_service p) r w x
      → (x.1 ≡ w) ⊎ ((k : Call) × (k.now ≡ r.now) × (x.1 ≡ (call crypto p w k).1))
  Answer_call r w x (wrong_method _ _ _ same) = inl same
  Answer_call r w x (bad_body _ _ _ _ _ same) = inl same
  Answer_call r w x (rejected c _ _ _ _ _ _ same) =
      inr (record { context = r.context; now = r.now; command = c }, refl, same)
  Answer_call r w x (taken c _ _ _ _ _ _ same) =
      inr (record { context = r.context; now = r.now; command = c }, refl, same)

  -- A sequence of requests before a second comes to a sequence of calls before that second.
  serve-calls :
      (e : ℤ) (w : World Store) (rs : List Request)
      → All (λ r. to_unix r.now <ℤ e) rs
      → (ks : List Call) × All (λ k. to_unix k.now <ℤ e) ks × (serve w rs ≡ calls crypto p w ks)
  unfolding serve calls
  serve-calls e w [] before = ([], tt, refl)
  serve-calls e w (r ∷ rs) (b, before) =
      let x = command crypto (store_service p) r w in
      let (ks, fine, same) = serve-calls e x.1 rs before in
      elim (Answer_call r w x (command-Answer crypto (store_service p) r w)) [
        | inl idle ↦ (ks, fine, same ∙ ap (λ v. calls crypto p v ks) idle)
        | inr (k, at, moved) ↦ (k ∷ ks, (rw at b, fine), same ∙ ap (λ v. calls crypto p v ks) moved)
      ]

  abbrev call_with : Request → Command → Call
  call_with r c = record { context = r.context; now = r.now; command = c }

  -- A request that spawned a task made a call of `Accept` with its command.
  Answer_spawned :
      (r : Request) (w : World Store) (x : Reply × World Store) (c : Command) (a : AcceptedCommand)
      → Answer crypto (store_service p) r w x
      → decode_command r.first r.second ≡ value c
      → x.0.spawned ≡ some a
      → ((call crypto p w (call_with r c)).0 ≡ ok a) × (x.1 ≡ (call crypto p w (call_with r c)).1)
  Answer_spawned r w x c a (wrong_method _ _ none_there _) decoded h = cc
  Answer_spawned r w x c a (bad_body _ _ _ _ none_there _) decoded h = cc
  Answer_spawned r w x c a (rejected _ _ _ _ _ _ none_there _) decoded h = cc
  Answer_spawned r w x c a (taken d b _ decoded' good _ there same) decoded h =
      let same_command : d ≡ c = value-injective (sym decoded' ∙ decoded) in
      let who : b ≡ a = if-some r.write_fails (sym there ∙ h) in
      (
        cc (good, same_command, who),
        same ∙ ap (λ y. (call crypto p w (call_with r y)).1) same_command,
      )

  -- Over the in-memory store with distinct keys, once a request spawned the task of a command, no
  -- request before the Unix second of its replay entry's end whose command has the same
  -- identifier or nonce spawns a task, whatever requests come in between before that second.
  pub spawned_once :
      (w : World Store) (r : Request) (rs : List Request) (q : Request) (c d : Command)
      (a b : AcceptedCommand)
      → IsDistinct w.storage.entries
      → decode_command r.first r.second ≡ value c
      → decode_command q.first q.second ≡ value d
      → (d.command_id ≡ c.command_id) ⊎ (d.nonce ≡ c.nonce)
      → (command crypto (store_service p) r w).0.spawned ≡ some a
      → All (λ j. to_unix j.now <ℤ to_unix (replay_until p c)) rs
      → to_unix q.now <ℤ to_unix (replay_until p c)
      → (command crypto
          (store_service p)
          q
          (serve ((command crypto (store_service p) r w).1) rs)).0.spawned
        ≢ some b
  spawned_once w r rs q c d a b distinct first second same spawned before last again =
      let (good, moved) =
        Answer_spawned r w _ c a (command-Answer crypto (store_service p) r w) first spawned in
      let (ks, fine, served) =
        serve-calls (to_unix (replay_until p c)) ((command crypto (store_service p) r w).1) rs
          before in
      let later = served ∙ ap (λ v. calls crypto p v ks) moved in
      let (good', _) =
        Answer_spawned q _ _ d b (command-Answer crypto (store_service p) q _) second again in
      accepted_once crypto p w (call_with r c) ks (call_with q d) a b distinct good same fine last
        (sym (ap (λ v. (call crypto p v (call_with q d)).0) later) ∙ good')
