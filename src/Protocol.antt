-- ===== src/Protocol.antt =====
-- The two programs together: a command that Relay builds and signs, as Sentinel validates it.
pub mod Timing
pub mod Delivery
pub mod Exchange
pub mod Authentic
use remote_pc_controller.Prelude.{
  ℕ, ◌*◌, ◌^◌, ◌+◌, ◌≤◌, ◌<◌, Option, none, some, [], ◌∷◌, ◌++◌, ◌≡◌, ◌≢◌, refl, arith,
}
use remote_pc_controller.Prelude.Int.{ℤ, pos, ◌+ℤ◌, ◌-ℤ◌, ◌≤ℤ◌, ◌<ℤ◌, scale}
use remote_pc_controller.Prelude.Text.{Text}
use remote_pc_controller.Clock.{Time, second, unix_to_internal, add, to_unix, nanos, max_int64}
use remote_pc_controller.Clock.Laws.{SameInt, time_laws, add_cases, nsec-add, to_unix_exact}
use remote_pc_controller.Errors.{Result, ok, err}
use remote_pc_controller.Relay.Command
use remote_pc_controller.Relay.Command.{Signing, truncate_second, unsigned, rsa_pss_signer, build}
use remote_pc_controller.Relay.Command.Building.{IsAllowed, IsMade, build_iff}
use remote_pc_controller.Sentinel.Policy
use remote_pc_controller.Sentinel.Policy.{Crypto, validate}
use remote_pc_controller.Sentinel.Policy.Validation.{
  IsAdmissible, IsSigned, IsConfigured, validate_iff-IsAdmissible,
}
use remote_pc_controller.Sentinel.Policy.Window.{InRange, IsTimely, unix_nanos}

-- The command that Sentinel decodes from Relay's JSON: both records have the same field names.
unfoldable pub transfer : Command.Command → Policy.Command
transfer c = record {
  version = c.version;
  command_id = c.command_id;
  device_id = c.device_id;
  action = c.action;
  issued_at = c.issued_at;
  expires_at = c.expires_at;
  nonce = c.nonce;
  signature = c.signature;
}

-- Both programs sign and verify the same text.
pub canonical-transfer : (c : Command.Command) → Policy.canonical (transfer c) ≡ Command.canonical c
unfolding transfer Policy.canonical Command.canonical
canonical-transfer c = refl

-- The two programs' cryptography fits together: the hash is the same, base64 is decoded to what was
-- encoded, and a signature with the private key verifies under the public key.
pub record IsMatched {PrivateKey PublicKey : Type 0} (s : Signing PrivateKey) (v : Crypto PublicKey)
    (private : PrivateKey) (public : PublicKey) : Type 0 where
  pub same_hash : (t : Text) → s.sha256 t ≡ v.sha256 t
  pub decodes : (b : Text) → v.decode_base64 (s.encode_base64 b) ≡ some b
  pub verifies : (d b : Text) → s.sign_pss private d ≡ ok b → v.verify_pss (some public) d b ≡ none
