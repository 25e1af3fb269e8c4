-- ===== src/Sentinel/Replay/Persistence.antt =====
-- An entry stays, and refuses its key, until the clock reaches its second.
use remote_pc_controller.Prelude.{
  Option, none, some, List, [], ◌∷◌, ◌≡◌, ◌≢◌, ◌⊎◌, inl, inr, ap, sym, arith, All, Option-cases,
}
use remote_pc_controller.Prelude.Dict.{lookup, insert, lookup-insert}
use remote_pc_controller.Prelude.Int.{ℤ, ◌<ℤ◌}
use remote_pc_controller.Prelude.Text.{Text, equal_iff}
use remote_pc_controller.Clock.{Time, to_unix}
use remote_pc_controller.Errors.{Error, sentinel}
use remote_pc_controller.Sentinel.Policy.{CommandError}
use remote_pc_controller.Sentinel.Replay.{Store, purge, command_key, nonce_key, claim_keys, claim}
use remote_pc_controller.Prelude.Distinct.{IsDistinct, insert-IsDistinct}
use remote_pc_controller.Sentinel.Replay.Entries.{
  lookup-purge, purge-IsDistinct, command_key-ne-nonce_key,
}

-- A call of `Claim`, with the error that its context has by then.
pub record Request : Type 0 where
  pub context : Option (Error CommandError)
  pub id : Text
  pub nonce : Text
  pub expires : Time
  pub now : Time

unfoldable pub step : Store → Request → Option (Error CommandError) × Store
step s r = claim r.context r.id r.nonce r.expires r.now s

-- The store after a sequence of calls.
unfoldable pub run : Store → List Request → Store
run s [] = s
run s (r ∷ rs) = run (step s r).1 rs

-- The store holds each key once, and `k` until second `e`.
pub record Holds (k : Text) (e : ℤ) (s : Store) : Type 0 where
  pub distinct : IsDistinct s.entries
  pub held : lookup k s.entries ≡ some e

module _ (id nonce : Text) (expires now : ℤ) (s : Store) where
  pub claim_keys-IsDistinct :
      IsDistinct s.entries → IsDistinct (claim_keys id nonce expires now s).1.entries
  unfolding claim_keys
  claim_keys-IsDistinct d =
      let m = purge now s.entries in
      let kept = purge-IsDistinct now s.entries d in
      let one = insert-IsDistinct (command_key id) expires m kept in
      ground (
        arith,
        kept,
        insert-IsDistinct (nonce_key nonce) expires (insert (command_key id) expires m) one,
      )

  -- A call before the second of an entry keeps it.
  claim_keys-Holds :
      (k : Text) (e : ℤ) → Holds k e s → now <ℤ e → Holds k e (claim_keys id nonce expires now s).1
  unfolding claim_keys
  claim_keys-Holds k e h before =
      let m = purge now s.entries in
      let ck = command_key id in
      let nk = nonce_key nonce in
      record {
        distinct = claim_keys-IsDistinct h.distinct;
        held = ground (
          arith,
          h.held,
          lookup-purge now k s.entries h.distinct,
          equal_iff nk k,
          equal_iff ck k,
          lookup-insert nk k expires (insert ck expires m),
          lookup-insert ck k expires m,
        );
      }

  -- A call before the second of the entry of either of its keys is refused.
  claim_keys_refused :
      (k : Text) (e : ℤ)
      → (k ≡ command_key id) ⊎ (k ≡ nonce_key nonce)
      → Holds k e s
      → now <ℤ e
      → (claim_keys id nonce expires now s).0 ≡ some (sentinel CommandError.already_processed)
  unfolding claim_keys
  claim_keys_refused k e which h before = ground (
    arith,
    h.held,
    lookup-purge now (command_key id) s.entries h.distinct,
    lookup-purge now (nonce_key nonce) s.entries h.distinct,
  )

  -- A call that succeeds holds both of its keys from then on.
  pub claim_keys-Holds_both :
      IsDistinct s.entries
      → (claim_keys id nonce expires now s).0 ≡ none
      → Holds (command_key id) expires (claim_keys id nonce expires now s).1
        × Holds (nonce_key nonce) expires (claim_keys id nonce expires now s).1
  unfolding claim_keys
  claim_keys-Holds_both d ok =
      let m = purge now s.entries in
      let ck = command_key id in
      let nk = nonce_key nonce in
      let distinct = claim_keys-IsDistinct d in
      (
        record {
          distinct = distinct;
          held = ground (
            arith,
            command_key-ne-nonce_key id nonce,
            equal_iff nk ck,
            equal_iff ck ck,
            lookup-insert nk ck expires (insert ck expires m),
            lookup-insert ck ck expires m,
          );
        },
        record {
          distinct = distinct;
          held = ground (arith, equal_iff nk nk, lookup-insert nk nk expires (insert ck expires m));
        },
      )

abbrev pub Before : ℤ → Request → Type 0
Before e r = to_unix r.now <ℤ e

pub step-Holds :
    (k : Text) (e : ℤ) (s : Store) (r : Request) → Holds k e s → Before e r → Holds k e (step s r).1
unfolding step claim
step-Holds k e s r h before = go r.context
  where
    go : (x : Option (Error CommandError)) → Holds k e (claim x r.id r.nonce r.expires r.now s).1
    go (some x) = h
    go none = claim_keys-Holds r.id r.nonce (to_unix r.expires) (to_unix r.now) s k e h before

run-Holds :
    (k : Text) (e : ℤ) (s : Store) (rs : List Request)
    → Holds k e s
    → All (Before e) rs
    → Holds k e (run s rs)
unfolding run
run-Holds k e s [] h before = h
run-Holds k e s (r ∷ rs) h (b, before) =
    run-Holds k e (step s r).1 rs (step-Holds k e s r h b) before

pub step-Holds_both :
    (s : Store) (r : Request)
    → IsDistinct s.entries
    → (step s r).0 ≡ none
    → Holds (command_key r.id) (to_unix r.expires) (step s r).1
      × Holds (nonce_key r.nonce) (to_unix r.expires) (step s r).1
unfolding step claim
step-Holds_both s r d = go r.context
  where
    go :
        (x : Option (Error CommandError))
        → (claim x r.id r.nonce r.expires r.now s).0 ≡ none
        → Holds (command_key r.id) (to_unix r.expires) (claim x r.id r.nonce r.expires r.now s).1
          × Holds (nonce_key r.nonce) (to_unix r.expires) (claim x r.id r.nonce r.expires r.now s).1
    go (some x) ok = cc
    go none ok = claim_keys-Holds_both r.id r.nonce (to_unix r.expires) (to_unix r.now) s d ok

pub step_refused :
    (k : Text) (e : ℤ) (s : Store) (q : Request)
    → (k ≡ command_key q.id) ⊎ (k ≡ nonce_key q.nonce)
    → q.context ≡ none
    → Holds k e s
    → Before e q
    → (step s q).0 ≡ some (sentinel CommandError.already_processed)
unfolding step
step_refused k e s q which live h before = rw live (
    unfold claim in
    claim_keys_refused q.id q.nonce (to_unix q.expires) (to_unix q.now) s k e which h before)

-- After a claim that succeeds on a store with distinct keys, and any calls before its Unix
-- second, a claim of the same identifier or nonce with a live context before that second is
-- refused with the error for a repeated command.
pub claim_refused_later :
    (s : Store) (r : Request) (rs : List Request) (q : Request)
    → IsDistinct s.entries
    → (step s r).0 ≡ none
    → (q.id ≡ r.id) ⊎ (q.nonce ≡ r.nonce)
    → q.context ≡ none
    → All (Before (to_unix r.expires)) rs
    → Before (to_unix r.expires) q
    → (step (run (step s r).1 rs) q).0 ≡ some (sentinel CommandError.already_processed)
claim_refused_later s r rs q d ok same live before last =
    let e = to_unix r.expires in
    let (by_id, by_nonce) = step-Holds_both s r d ok in
    elim same [
      | inl x ↦
          step_refused (command_key r.id) e (run (step s r).1 rs) q (inl (ap command_key (sym x)))
            live (run-Holds _ e (step s r).1 rs by_id before) last
      | inr x ↦
          step_refused (nonce_key r.nonce) e (run (step s r).1 rs) q (inr (ap nonce_key (sym x)))
            live (run-Holds _ e (step s r).1 rs by_nonce before) last
    ]

pub step-IsDistinct :
    (s : Store) (r : Request) → IsDistinct s.entries → IsDistinct (step s r).1.entries
unfolding step claim
step-IsDistinct s r d = go r.context
  where
    go :
        (x : Option (Error CommandError))
        → IsDistinct (claim x r.id r.nonce r.expires r.now s).1.entries
    go (some x) = d
    go none = claim_keys-IsDistinct r.id r.nonce (to_unix r.expires) (to_unix r.now) s d

-- A call that finds one of its keys held fails, whatever its context.
pub step_fails :
    (k : Text) (e : ℤ) (s : Store) (q : Request)
    → (k ≡ command_key q.id) ⊎ (k ≡ nonce_key q.nonce)
    → Holds k e s
    → Before e q
    → (step s q).0 ≢ none
step_fails k e s q which h before fresh = elim (Option-cases q.context) [
  | inl live ↦ cc (step_refused k e s q which live h before)
  | inr (x, stopped) ↦ step_stopped x stopped fresh
]
  where
    step_stopped : (x : Error CommandError) → q.context ≡ some x → (step s q).0 ≢ none
    step_stopped x stopped f = unfold step claim in cc
