-- ===== src/Sentinel/Replay/History.antt =====
-- Whole sequences of claims on the store, against the ledger.
use mathlib.Core.Path.{ap₂}
use remote_pc_controller.Prelude.{
  Bool, not, Option, none, some, List, [], ◌∷◌, ◌≡◌, refl, is_nil, arith,
}
use remote_pc_controller.Prelude.Int.{ℤ, ◌≤ℤ◌}
use remote_pc_controller.Clock.{to_unix}
use remote_pc_controller.Errors.{Error}
use remote_pc_controller.Sentinel.Policy.{CommandError}
use remote_pc_controller.Sentinel.Replay.{Store, new_store, claim}
use remote_pc_controller.Sentinel.Replay.Ledger.{
  Ledger, ledger_claim, Refines, new_store-Refines, claim-ledger, claim-Refines,
}
use remote_pc_controller.Sentinel.Replay.Persistence.{Request, step}

-- Which calls of a sequence succeed.
unfoldable pub successes : Store → List Request → List Bool
successes s [] = []
successes s (r ∷ rs) = is_nil (step s r).0 ∷ successes (step s r).1 rs

-- The ledger's operation, for a call with a context: `true` is a success.
unfoldable pub ledger_step : Option (Error CommandError) → Request → Ledger → Bool × Ledger
ledger_step (some e) r l = (Bool.false, l)
ledger_step none r l =
    let (refused, l') = ledger_claim r.id r.nonce (to_unix r.expires) (to_unix r.now) l in
    (not refused, l')

unfoldable pub ledger_successes : Ledger → List Request → List Bool
ledger_successes l [] = []
ledger_successes l (r ∷ rs) =
    (ledger_step r.context r l).0 ∷ ledger_successes (ledger_step r.context r l).1 rs

-- The clock, in Unix seconds, never goes back: not behind `t`, nor behind an earlier reading.
abbrev pub InOrder : ℤ → List Request → Type 0
InOrder t [] = Unit
InOrder t (r ∷ rs) = (t ≤ℤ to_unix r.now) × InOrder (to_unix r.now) rs

step-ledger :
    (x : Option (Error CommandError)) (t : ℤ) (s : Store) (l : Ledger) (r : Request)
    → Refines t s l
    → t ≤ℤ to_unix r.now
    → is_nil (claim x r.id r.nonce r.expires r.now s).0 ≡ (ledger_step x r l).0
unfolding claim ledger_step
step-ledger (some e) t s l r h o = refl
step-ledger none t s l r h o =
    claim-ledger r.id r.nonce (to_unix r.expires) t (to_unix r.now) s l h o

step-Refines :
    (x : Option (Error CommandError)) (t : ℤ) (s : Store) (l : Ledger) (r : Request)
    → Refines t s l
    → t ≤ℤ to_unix r.now
    → Refines (to_unix r.now) (claim x r.id r.nonce r.expires r.now s).1 (ledger_step x r l).1
unfolding claim ledger_step
step-Refines (some e) t s l r h o = record {
  distinct = h.distinct;
  agrees = λ now k since. h.agrees now k (omega arith);
}
step-Refines none t s l r h o =
    claim-Refines r.id r.nonce (to_unix r.expires) t (to_unix r.now) s l h o

successes-ledger_from :
    (t : ℤ) (s : Store) (l : Ledger) (rs : List Request)
    → Refines t s l
    → InOrder t rs
    → successes s rs ≡ ledger_successes l rs
unfolding successes ledger_successes step
successes-ledger_from t s l [] h o = refl
successes-ledger_from t s l (r ∷ rs) h (first, o) =
    ap₂ ◌∷◌ (step-ledger r.context t s l r h first) (
      successes-ledger_from (to_unix r.now) (step s r).1 (ledger_step r.context r l).1 rs
        (step-Refines r.context t s l r h first) o)

-- From an empty store, and with a clock that does not go back in Unix seconds, the store that
-- forgets expired entries answers every sequence of claims as a ledger that remembers every key.
pub successes-ledger :
    (t : ℤ) (rs : List Request) → InOrder t rs → successes new_store rs ≡ ledger_successes [] rs
successes-ledger t rs o = successes-ledger_from t new_store [] rs (new_store-Refines t) o
