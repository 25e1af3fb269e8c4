-- ===== src/Relay/Command.antt =====
-- relay/src/command/command.go: the command that Relay builds and signs for a request.
pub mod Building
pub mod Contents
use remote_pc_controller.Prelude.{
  ℕ, Bool, true, false, not, ◌&&◌, ◌||◌, Option, none, some, [], ◌∷◌, ◌++◌, if◌then◌else◌,
}
use remote_pc_controller.Prelude.Int.{ℤ, pos, leb_ℤ}
use remote_pc_controller.Prelude.Decimal.{show}
use remote_pc_controller.Prelude.Text.{Text, codes, equal, is_empty, trim_space}
use remote_pc_controller.Clock.{Time, add, to_unix}
use remote_pc_controller.Errors.{Error, Result, ok, err, sentinel, and_then, with_prefix}

abbrev pub protocol_version : ℤ
protocol_version = pos 1

abbrev pub action_hibernate : Text
action_hibernate = codes "hibernate"

pub data RelayError : Type 0 where
  invalid_request unauthorized delivery_failed : RelayError

abbrev pub relay_error_text : RelayError → Text
relay_error_text RelayError.invalid_request = codes "invalid command request"
relay_error_text RelayError.unauthorized = codes "unauthorized"
relay_error_text RelayError.delivery_failed = codes "command delivery failed"

pub record Request : Type 0 where
  pub device_id : Text
  pub action : Text

pub record Command : Type 0 where
  pub version : ℤ
  pub command_id : Text
  pub device_id : Text
  pub action : Text
  pub issued_at : ℤ
  pub expires_at : ℤ
  pub nonce : Text
  pub signature : Text

pub record Policy : Type 0 where
  pub device_id : Text
  pub max_validity : ℤ

-- Command.Canonical
unfoldable pub canonical : Command → Text
unfolding show
canonical c =
    codes "v"
    ++ (show c.version
        ++ (codes "|"
            ++ (c.command_id
                ++ (codes "|"
                    ++ (c.device_id
                        ++ (codes "|"
                            ++ (c.action
                                ++ (codes "|"
                                    ++ (show c.issued_at
                                        ++ (codes "|"
                                            ++ (show c.expires_at
                                                ++ (codes "|" ++ c.nonce))))))))))))

-- Policy.Validate; `none` is a valid request.
unfoldable pub validate : Policy → Request → Option (Error RelayError)
validate p r =
    if is_empty p.device_id
      || not (equal r.device_id p.device_id)
      || not (equal r.action action_hibernate)
    then some (sentinel RelayError.invalid_request)
    else none

-- t.Truncate(time.Second)
unfoldable pub truncate_second : Time → Time
truncate_second t = record t { nsec = 0 }

-- The command before it is signed.
unfoldable pub unsigned : Policy → Request → Time → Text → Text → Command
unfolding truncate_second
unsigned p r now id nonce =
    let issued = truncate_second now in
    record {
      version = protocol_version;
      command_id = id;
      device_id = r.device_id;
      action = r.action;
      issued_at = to_unix issued;
      expires_at = to_unix (add issued p.max_validity);
      nonce = nonce;
      signature = [];
    }

-- The end of `Build`, behind the checks of the request and of the policy.
unfoldable pub build_checked :
    Policy
    → Request
    → Time
    → Result RelayError Text
    → Result RelayError Text
    → (Text → Result RelayError Text)
    → Result RelayError Command
unfolding unsigned
build_checked p r now id nonce sign =
    and_then (with_prefix (codes "generate command id") id) λ command_id.
      and_then (with_prefix (codes "generate nonce") nonce) λ nonce_value.
        let c = unsigned p r now command_id nonce_value in
        and_then (with_prefix (codes "sign command") (sign (canonical c)))
          λ signature. ok (record c { signature = signature })

-- Build, on what the two generators return.
unfoldable pub build :
    Policy
    → Request
    → Time
    → Result RelayError Text
    → Result RelayError Text
    → (Text → Result RelayError Text)
    → Result RelayError Command
unfolding build_checked validate
build p r now id nonce sign = elim (validate p r) [
  | some e ↦ err e
  | none ↦
      if leb_ℤ p.max_validity (pos 0)
      then err (sentinel RelayError.invalid_request)
      else build_checked p r now id nonce sign
]

-- BearerToken
unfoldable pub bearer_token : Text → Text → Bool
unfolding trim_space
bearer_token header expected =
    not (is_empty expected) && equal (trim_space header) (codes "Bearer " ++ expected)

-- What Relay uses of packages `encoding/base64`, `crypto/sha256` and `crypto/rsa`.
pub record Signing (PrivateKey : Type 0) : Type 0 where
  pub sha256 : Text → Text
  -- rsa.SignPSS with SHA-256 and a salt of the hash's length.
  pub sign_pss : PrivateKey → Text → Result RelayError Text
  -- base64.StdEncoding.EncodeToString
  pub encode_base64 : Text → Text

-- RSAPSSSigner
unfoldable pub rsa_pss_signer :
    {PrivateKey : Type 0} → Signing PrivateKey → PrivateKey → Text → Result RelayError Text
rsa_pss_signer s key text =
    and_then (s.sign_pss key (s.sha256 text)) λ signature. ok (s.encode_base64 signature)
