-- ===== src/Sentinel/Replay/Ledger.antt =====
-- The store refines a ledger that forgets nothing, as long as the clock does not go back.
use remote_pc_controller.Prelude.{
  Bool, true, false, not, ◌&&◌, ◌||◌, Option, none, some, List, [], ◌∷◌, ◌≡◌, refl, arith,
  if◌then◌else◌, is_nil,
}
use remote_pc_controller.Prelude.Dict.{lookup, insert, lookup-insert}
use remote_pc_controller.Prelude.Int.{ℤ, ◌≤ℤ◌, leb_ℤ}
use remote_pc_controller.Prelude.Text.{Text, equal, equal_iff}
use remote_pc_controller.Sentinel.Replay.{
  Store, new_store, purge, command_key, nonce_key, claim_keys,
}
use remote_pc_controller.Prelude.Distinct.{IsDistinct, insert-IsDistinct}
use remote_pc_controller.Sentinel.Replay.Entries.{live, lookup-purge, purge-IsDistinct}

-- Every key that was ever claimed, with the second from which it may be claimed again.
abbrev pub Ledger : Type 0
Ledger = List (Text × ℤ)

-- Whether a key is claimed at a time.
unfoldable pub held : ℤ → Text → Ledger → Bool
held now k [] = false
held now k ((j, expiry) ∷ l) = equal j k && not (leb_ℤ expiry now) || held now k l

-- The abstract operation: refuses (`true`) if a key is held, else records both.
unfoldable pub ledger_claim : Text → Text → ℤ → ℤ → Ledger → Bool × Ledger
ledger_claim id nonce expires now l =
    if held now (command_key id) l || held now (nonce_key nonce) l
    then (true, l)
    else (false, (nonce_key nonce, expires) ∷ (command_key id, expires) ∷ l)

-- From time `t` on, the store and the ledger hold the same keys.
pub record Refines (t : ℤ) (s : Store) (l : Ledger) : Type 0 where
  pub distinct : IsDistinct s.entries
  pub agrees :
      (now : ℤ) (k : Text) → t ≤ℤ now → held now k l ≡ not (is_nil (live now (lookup k s.entries)))

pub new_store-Refines : (t : ℤ) → Refines t new_store []
unfolding new_store held lookup
new_store-Refines t = record { distinct = tt; agrees = λ now k h. refl }

-- What is dropped by a time is dropped at every later time.
live-live : (t now : ℤ) (o : Option ℤ) → t ≤ℤ now → live now (live t o) ≡ live now o
live-live t now none h = refl
live-live t now (some e) h = ground arith

module _ (id nonce : Text) (expires : ℤ) (t now : ℤ) (s : Store) (l : Ledger) where
  -- A claim has the ledger's verdict.
  pub claim-ledger :
      Refines t s l
      → t ≤ℤ now
      → is_nil (claim_keys id nonce expires now s).0 ≡ not (ledger_claim id nonce expires now l).0
  unfolding claim_keys ledger_claim
  claim-ledger r h = ground (
    arith,
    lookup-purge now (command_key id) s.entries r.distinct,
    lookup-purge now (nonce_key nonce) s.entries r.distinct,
    r.agrees now (command_key id) h,
    r.agrees now (nonce_key nonce) h,
  )

  -- After a claim the store still refines the ledger.
  pub claim-Refines :
      Refines t s l
      → t ≤ℤ now
      → Refines now (claim_keys id nonce expires now s).1 (ledger_claim id nonce expires now l).1
  unfolding claim_keys ledger_claim held
  claim-Refines r h =
      let m = purge now s.entries in
      let ck = command_key id in
      let nk = nonce_key nonce in
      let kept = purge-IsDistinct now s.entries r.distinct in
      record {
        distinct = ground (
          arith,
          kept,
          insert-IsDistinct ck expires m kept,
          insert-IsDistinct nk expires (insert ck expires m) (insert-IsDistinct ck expires m kept),
        );
        agrees = λ later k since. claim_agrees r h later k since;
      }
    where
      claim_agrees :
          Refines t s l
          → t ≤ℤ now
          → (later : ℤ) (k : Text) → now ≤ℤ later
          → held later k (ledger_claim id nonce expires now l).1
            ≡ not (is_nil (live later (lookup k (claim_keys id nonce expires now s).1.entries)))
      claim_agrees r h later k since =
          let m = purge now s.entries in
          let ck = command_key id in
          let nk = nonce_key nonce in
          ground (
            arith,
            equal_iff nk k,
            equal_iff ck k,
            lookup-purge now k s.entries r.distinct,
            lookup-purge now ck s.entries r.distinct,
            lookup-purge now nk s.entries r.distinct,
            lookup-insert nk k expires (insert ck expires m),
            lookup-insert ck k expires m,
            live-live now later (lookup k s.entries) since,
            r.agrees now ck h,
            r.agrees now nk h,
            r.agrees later k (omega arith),
          )
