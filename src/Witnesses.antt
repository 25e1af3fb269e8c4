-- ===== src/Witnesses.antt =====
-- Concrete data for the witnesses: a small cryptography, two policies that fit together, and a
-- command. A signature is the key, put before the text that is signed.
mod Policies
mod Services
mod Requests
mod Relaying
mod Settings
mod Saves
mod Exchanges
mod Windows
mod Screens
mod Computers
mod Authenticity
use remote_pc_controller.Prelude.{
  ℕ, ◌*◌, Bool, true, false, Option, none, some, [], ◌∷◌, if◌then◌else◌,
}
use remote_pc_controller.Prelude.Int.{ℤ, pos}
use remote_pc_controller.Prelude.Text.{Text, codes, equal}
use remote_pc_controller.Clock.{Time, second, unix}
use remote_pc_controller.Errors.{Result, ok}
use remote_pc_controller.Relay.Command
use remote_pc_controller.Relay.Command.{Signing, RelayError}
use remote_pc_controller.Sentinel.Policy
use remote_pc_controller.Sentinel.Policy.{Crypto, default_max_validity, action_hibernate}

abbrev pub tiny_verify : Option ℕ → Text → Text → Option Text
tiny_verify none d s = some (codes "no key")
tiny_verify (some key) d s = if equal s (key ∷ d) then none else some (codes "mismatch")

abbrev pub tiny_crypto : Crypto ℕ
tiny_crypto = record { decode_base64 = λ t. some t; sha256 = λ t. t; verify_pss = tiny_verify }

abbrev pub tiny_signing : Signing ℕ
tiny_signing = record { sha256 = λ t. t; sign_pss = λ key d. ok (key ∷ d); encode_base64 = λ t. t }

abbrev pub relay_policy : Command.Policy
relay_policy = record { device_id = codes "pc"; max_validity = pos (30 * second) }

abbrev pub sentinel_policy : Policy.Policy ℕ
sentinel_policy = record {
  device_id = codes "pc";
  public_key = some 7;
  clock_skew = pos (5 * second);
  max_validity = default_max_validity;
}

abbrev pub sample_command : Policy.Command
sample_command = record {
  version = pos 1;
  command_id = codes "a1";
  device_id = codes "pc";
  action = action_hibernate;
  issued_at = pos 1000;
  expires_at = pos 1030;
  nonce = codes "n1";
  signature = 7 ∷ codes "v1|a1|pc|hibernate|1000|1030|n1";
}

-- Ten seconds after the command was issued.
abbrev pub sample_now : Time
sample_now = record { sec = pos 62135597810; nsec = 0 }
