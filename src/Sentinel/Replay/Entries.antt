-- ===== src/Sentinel/Replay/Entries.antt =====
-- What the map of the store holds, key by key.
use mathlib.Core.List.{append_cancel_left}
use remote_pc_controller.Prelude.{
  ℕ, ap, Option, none, some, [], ◌∷◌, ◌≡◌, ◌≢◌, refl, arith, if◌then◌else◌,
}
use remote_pc_controller.Prelude.Dict.{Dict, lookup}
use remote_pc_controller.Prelude.Distinct.{IsDistinct}
use remote_pc_controller.Prelude.Int.{ℤ, leb_ℤ}
use remote_pc_controller.Prelude.Text.{Text, codes, equal_iff}
use remote_pc_controller.Sentinel.Replay.{Store, purge, command_key, nonce_key, claim_keys, claim}
use remote_pc_controller.Clock.{Time, to_unix}

-- What is left of an entry once its second has come.
abbrev pub live : ℤ → Option ℤ → Option ℤ
live now none = none
live now (some expiry) = if leb_ℤ expiry now then none else some expiry

pub lookup-purge :
    (now : ℤ) (k : Text) (m : Dict ℤ)
    → IsDistinct m
    → lookup k (purge now m) ≡ live now (lookup k m)
unfolding lookup purge
lookup-purge now k [] d = refl
lookup-purge now k ((j, e) ∷ m) (fresh, d) = ground (arith, lookup-purge now k m d, equal_iff j k)

pub purge-IsDistinct : (now : ℤ) (m : Dict ℤ) → IsDistinct m → IsDistinct (purge now m)
unfolding purge
purge-IsDistinct now [] d = tt
purge-IsDistinct now ((j, e) ∷ m) (fresh, d) =
    ground (arith, purge-IsDistinct now m d, lookup-purge now j m d)

first_code : Text → ℕ
first_code [] = 0
first_code (c ∷ s) = c

-- The two kinds of keys never meet, and a key determines its text.
pub command_key-ne-nonce_key : (id nonce : Text) → command_key id ≢ nonce_key nonce
unfolding command_key nonce_key first_code
command_key-ne-nonce_key id nonce e = omega (arith, ap first_code e)

pub command_key-injective : (a b : Text) → command_key a ≡ command_key b → a ≡ b
unfolding command_key
command_key-injective a b e = append_cancel_left (codes "command:") a b e

pub nonce_key-injective : (a b : Text) → nonce_key a ≡ nonce_key b → a ≡ b
unfolding nonce_key
nonce_key-injective a b e = append_cancel_left (codes "nonce:") a b e

-- A key that the store does not hold is not there behind a purge, either.
lookup-purge-none :
    (k : Text) (now : ℤ) (m : Dict ℤ) → lookup k m ≡ none → lookup k (purge now m) ≡ none
unfolding lookup purge
lookup-purge-none k now [] h = refl
lookup-purge-none k now ((j, e) ∷ m) h = ground (arith, lookup-purge-none k now m)

-- A claim of keys that the store does not hold succeeds.
pub claim_fresh :
    (id nonce : Text) (expires now : Time) (s : Store)
    → lookup (command_key id) s.entries ≡ none
    → lookup (nonce_key nonce) s.entries ≡ none
    → (claim none id nonce expires now s).0 ≡ none
unfolding claim claim_keys
claim_fresh id nonce expires now s by_id by_nonce =
    rw
      (
        lookup-purge-none (command_key id) (to_unix now) s.entries by_id,
        lookup-purge-none (nonce_key nonce) (to_unix now) s.entries by_nonce,
      )
      refl
