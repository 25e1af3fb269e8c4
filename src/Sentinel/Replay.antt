-- ===== src/Sentinel/Replay.antt =====
-- sentinel/src/replay/store.go: the in-memory store of the keys of accepted commands. The mutex
-- makes each call of `Claim` one step, so a call is a function on the map.
pub mod Entries
pub mod Ledger
pub mod Persistence
pub mod History
use remote_pc_controller.Prelude.{
  Bool, true, false, ◌||◌, Option, none, some, [], ◌∷◌, ◌++◌, is_nil, not, if◌then◌else◌,
}
use remote_pc_controller.Prelude.Dict.{Dict, lookup, insert}
use remote_pc_controller.Prelude.Int.{ℤ, leb_ℤ}
use remote_pc_controller.Prelude.Text.{Text, codes}
use remote_pc_controller.Clock.{Time, to_unix}
use remote_pc_controller.Errors.{Error, sentinel}
use remote_pc_controller.Sentinel.Policy.{CommandError}

-- The map from a key to the Unix second from which its entry is forgotten.
pub record Store : Type 0 where
  pub entries : Dict ℤ

unfoldable pub new_store : Store
new_store = record { entries = [] }

unfoldable pub command_key : Text → Text
command_key id = codes "command:" ++ id

unfoldable pub nonce_key : Text → Text
nonce_key nonce = codes "nonce:" ++ nonce

-- The loop that deletes the entries whose second has come.
unfoldable pub purge : ℤ → Dict ℤ → Dict ℤ
purge now [] = []
purge now ((k, expiry) ∷ m) =
    let rest = purge now m in if leb_ℤ expiry now then rest else (k, expiry) ∷ rest

-- Whether a key is in the map.
abbrev pub exists : Text → Dict ℤ → Bool
exists k m = not (is_nil (lookup k m))

-- `Claim` behind the lock, on Unix seconds.
unfoldable pub claim_keys : Text → Text → ℤ → ℤ → Store → Option (Error CommandError) × Store
unfolding purge
claim_keys id nonce expires now s =
    let live = purge now s.entries in
    if exists (command_key id) live || exists (nonce_key nonce) live
    then (some (sentinel CommandError.already_processed), record { entries = live })
    else (
      none,
      record { entries = insert (nonce_key nonce) expires (insert (command_key id) expires live) },
    )

-- Store.Claim; the first argument is the context's error when `Claim` starts.
unfoldable pub claim :
    Option (Error CommandError)
    → Text
    → Text
    → Time
    → Time
    → Store
    → Option (Error CommandError) × Store
unfolding claim_keys
claim (some e) id nonce expires now s = (some e, s)
claim none id nonce expires now s = claim_keys id nonce (to_unix expires) (to_unix now) s
