-- ===== src/Sentinel/Policy.antt =====
-- sentinel/src/command/policy.go: the signed command and the policy that validates it.
pub mod Window
pub mod Validation
pub mod Canonical
use remote_pc_controller.Prelude.{
  ℕ, ◌*◌, Bool, true, false, not, ◌&&◌, ◌||◌, Option, none, some, ◌++◌, is_nil,
}
use remote_pc_controller.Prelude.Int.{ℤ, pos, neg, ltb_ℤ, leb_ℤ, eqb_ℤ}
use remote_pc_controller.Prelude.Decimal.{show}
use remote_pc_controller.Prelude.Text.{Text, codes, equal, is_empty}
use remote_pc_controller.Clock.{Time, second, unix, add, sub, before, after}
use remote_pc_controller.Errors.{Error, sentinel, wrapped, ◌>>◌, refuse_if}

abbrev pub protocol_version : ℤ
protocol_version = pos 1

-- 5 * time.Minute
abbrev pub default_max_validity : ℤ
default_max_validity = pos (300 * second)

-- The type `Action` is a string.
abbrev pub action_hibernate : Text
action_hibernate = codes "hibernate"

pub data CommandError : Type 0 where
  invalid_policy invalid_command wrong_device unsupported_action : CommandError
  expired_command invalid_signature already_processed replay_unavailable : CommandError

abbrev pub command_error_text : CommandError → Text
command_error_text CommandError.invalid_policy = codes "invalid command policy"
command_error_text CommandError.invalid_command = codes "invalid command"
command_error_text CommandError.wrong_device = codes "command targets another device"
command_error_text CommandError.unsupported_action = codes "unsupported action"
command_error_text CommandError.expired_command = codes "expired or not yet valid command"
command_error_text CommandError.invalid_signature = codes "invalid command signature"
command_error_text CommandError.already_processed = codes "command already processed"
command_error_text CommandError.replay_unavailable = codes "replay protection unavailable"

pub record Command : Type 0 where
  pub version : ℤ
  pub command_id : Text
  pub device_id : Text
  pub action : Text
  pub issued_at : ℤ
  pub expires_at : ℤ
  pub nonce : Text
  pub signature : Text

-- What Sentinel uses of packages `encoding/base64`, `crypto/sha256` and `crypto/rsa`.
pub record Crypto (PublicKey : Type 0) : Type 0 where
  -- base64.StdEncoding.DecodeString; `none` is an error.
  pub decode_base64 : Text → Option Text
  pub sha256 : Text → Text
  -- rsa.VerifyPSS with SHA-256 and a salt of the hash's length, on a digest and a signature;
  -- `none` is success, and an error comes with its text.
  pub verify_pss : Option PublicKey → Text → Text → Option Text

pub record Policy (PublicKey : Type 0) : Type 0 where
  pub device_id : Text
  pub public_key : Option PublicKey
  pub clock_skew : ℤ
  pub max_validity : ℤ

-- Command.Canonical
unfoldable pub canonical : Command → Text
unfolding show
canonical c =
    codes "v"
    ++ (show c.version
        ++ (codes "|"
            ++ (c.command_id
                ++ (codes "|"
                    ++ (c.device_id
                        ++ (codes "|"
                            ++ (c.action
                                ++ (codes "|"
                                    ++ (show c.issued_at
                                        ++ (codes "|"
                                            ++ (show c.expires_at
                                                ++ (codes "|" ++ c.nonce))))))))))))

-- The error of `rsa.VerifyPSS`, wrapped.
unfoldable pub verified : Option Text → Option (Error CommandError)
verified none = none
verified (some e) = some (wrapped CommandError.invalid_signature e)

module _ {PublicKey : Type 0} where
  -- Policy.ValidateConfiguration
  unfoldable pub validate_configuration : Policy PublicKey → Option (Error CommandError)
  validate_configuration p =
      refuse_if
        (is_empty p.device_id
          || is_nil p.public_key
          || ltb_ℤ p.clock_skew (pos 0)
          || leb_ℤ p.max_validity (pos 0))
        (sentinel CommandError.invalid_policy)

  -- Policy.ReplayUntil
  unfoldable pub replay_until : Policy PublicKey → Command → Time
  replay_until p c = add (unix c.expires_at) p.clock_skew

  -- The tests of the validity window, on the instants that the command names.
  unfoldable pub bad_window : Policy PublicKey → Command → Bool
  bad_window p c =
      not (after (unix c.expires_at) (unix c.issued_at))
      || ltb_ℤ p.max_validity (sub (unix c.expires_at) (unix c.issued_at))

  -- The tests of the clock against the window, widened by the skew.
  unfoldable pub out_of_time : Policy PublicKey → Command → Time → Bool
  out_of_time p c now =
      before now (add (unix c.issued_at) (neg p.clock_skew))
      || after now (add (unix c.expires_at) p.clock_skew)

module _ {PublicKey : Type 0} (crypto : Crypto PublicKey) where
  unfoldable pub check_decoded :
      Option PublicKey → Command → Option Text → Option (Error CommandError)
  unfolding verified
  check_decoded key c none =
      some (wrapped CommandError.invalid_signature (codes "malformed base64"))
  check_decoded key c (some s) = verified (crypto.verify_pss key (crypto.sha256 (canonical c)) s)

  -- The end of `Validate`: the signature over the canonical text.
  unfoldable pub check_signature : Option PublicKey → Command → Option (Error CommandError)
  unfolding check_decoded
  check_signature key c = check_decoded key c (crypto.decode_base64 c.signature)

  -- Policy.Validate; `none` is a valid command.
  unfoldable pub validate : Policy PublicKey → Command → Time → Option (Error CommandError)
  validate p c now = do
    validate_configuration p
    refuse_if (not (eqb_ℤ c.version protocol_version) || is_empty c.command_id || is_empty c.nonce)
        (wrapped CommandError.invalid_command (codes "missing required fields"))
    refuse_if (not (equal c.device_id p.device_id)) (sentinel CommandError.wrong_device)
    refuse_if (not (equal c.action action_hibernate)) (sentinel CommandError.unsupported_action)
    refuse_if (bad_window p c)
        (wrapped CommandError.invalid_command (codes "invalid validity window"))
    refuse_if (out_of_time p c now) (sentinel CommandError.expired_command)
    check_signature p.public_key c
