-- ===== src/Relay/Random.antt =====
-- `RandomID` and `RandomNonce` of relay/src/command/command.go, on the bytes that `crypto/rand`
-- gives.
pub mod Shape
use Prim.Native.Nat.{bit_and, bit_or}
use remote_pc_controller.Prelude.{
  ℕ, zero, suc, ◌+◌, ◌*◌, ◌/◌, ◌%◌, Option, none, some, List, [], ◌∷◌, ◌++◌, ◌-◌, ltb, ◌==◌,
  if◌then◌else◌,
}
use remote_pc_controller.Prelude.Text.{Text, codes}
use remote_pc_controller.Errors.{Error, Result, ok, err, and_then}
use remote_pc_controller.Relay.Command.{RelayError}

unfoldable pub hex_digit : ℕ → ℕ
hex_digit n = if ltb n 10 then b'0' + n else b'W' + n

-- The verb %x on a slice of bytes.
unfoldable pub hex : List ℕ → Text
unfolding hex_digit
hex [] = []
hex (b ∷ bs) = hex_digit (b / 16) ∷ hex_digit (b % 16) ∷ hex bs

abbrev pub Bytes : Type 0
Bytes = List ℕ

-- The text of the sixteen bytes, with the version and the variant of a random UUID put in.
unfoldable pub format_id : Bytes → Text
unfolding hex
format_id (b0 ∷ b1 ∷ b2 ∷ b3 ∷ b4 ∷ b5 ∷ b6 ∷ b7 ∷ b8 ∷ b9 ∷ rest) =
    hex (b0 ∷ b1 ∷ b2 ∷ b3 ∷ [])
    ++ (b'-'
        ∷ (hex (b4 ∷ b5 ∷ [])
            ++ (b'-'
                ∷ (hex (bit_or (bit_and b6 0x0f) 0x40 ∷ b7 ∷ [])
                    ++ (b'-'
                        ∷ (hex (bit_or (bit_and b8 0x3f) 0x80 ∷ b9 ∷ []) ++ (b'-' ∷ hex rest)))))))
format_id _ = []

-- RandomID, on what `rand.Read` of sixteen bytes gives.
unfoldable pub random_id : Result RelayError Bytes → Result RelayError Text
unfolding format_id
random_id bytes = and_then bytes λ b. ok (format_id b)

-- The alphabet of base64.URLEncoding.
unfoldable pub url_char : ℕ → ℕ
url_char n =
    if ltb n 26
    then b'A' + n
    else if ltb n 52
    then b'G' + n
    else if ltb n 62
    then n - 4
    else if n == 62
    then b'-'
    else b'_'

-- base64.RawURLEncoding.EncodeToString: three bytes make four characters, without padding.
unfoldable pub encode_raw_url : Bytes → Text
unfolding url_char
encode_raw_url [] = []
encode_raw_url (a ∷ []) = url_char (a / 4) ∷ url_char (a % 4 * 16) ∷ []
encode_raw_url (a ∷ b ∷ []) =
    url_char (a / 4) ∷ url_char (a % 4 * 16 + b / 16) ∷ url_char (b % 16 * 4) ∷ []
encode_raw_url (a ∷ b ∷ c ∷ rest) =
    url_char (a / 4)
    ∷ url_char (a % 4 * 16 + b / 16)
    ∷ url_char (b % 16 * 4 + c / 64)
    ∷ url_char (c % 64)
    ∷ encode_raw_url rest

-- RandomNonce, on what `rand.Read` of 32 bytes gives.
unfoldable pub random_nonce : Result RelayError Bytes → Result RelayError Text
unfolding encode_raw_url
random_nonce bytes = and_then bytes λ b. ok (encode_raw_url b)
