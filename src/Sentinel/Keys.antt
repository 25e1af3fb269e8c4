-- ===== src/Sentinel/Keys.antt =====
-- `InspectPublicKey` and `ValidatePublicKeyPEM` of sentinel/src/config/config.go: the reading of an
-- RSA public key.
pub mod Panics
use remote_pc_controller.Prelude.{
  ℕ, ◌*◌, Bool, true, false, not, ◌&&◌, ◌||◌, Option, none, some, List, [], ◌∷◌, ◌++◌, ◌==◌, ◌⊎◌,
  inl, inr, if◌then◌else◌,
}
use remote_pc_controller.Prelude.Decimal.{parse_int}
use remote_pc_controller.Prelude.Dict.{Dict, insert}
use remote_pc_controller.Prelude.Int.{ℤ, pos, ltb_ℤ}
use remote_pc_controller.Prelude.Text.{
  Text, codes, equal, is_empty, trim_space, ends_with, drop_last, has_prefix,
}
use remote_pc_controller.Errors.{Error, Result, ok, err, sentinel, foreign, kind, and_then}
use remote_pc_controller.DotEnv.{
  ConfigError, get, before_pair, replace_pair, unescape, read_dot_env, double_quote, single_quote,
  backslash, newline, carriage_return,
}

-- What `x509.ParsePKIXPublicKey` returns: an RSA key or another one.
pub data AnyKey (PublicKey : Type 0) : Type 0 where
  rsa : PublicKey → AnyKey PublicKey
  other : AnyKey PublicKey

-- What Sentinel uses of packages `encoding/pem` and `crypto/x509`.
pub record KeyFormats (PublicKey : Type 0) : Type 0 where
  -- pem.Decode; the bytes of the first block.
  pub pem_decode : Text → Option Text
  -- The text of an error, or a key.
  pub parse_pkix : Text → Text ⊎ AnyKey PublicKey
  -- `none` is an error.
  pub parse_pkcs1 : Text → Option PublicKey
  -- key.N.BitLen()
  pub bit_length : PublicKey → ℕ

pub record KeyInfo (PublicKey : Type 0) : Type 0 where
  pub key : PublicKey
  pub bits : ℕ
  pub format_type : Text
  pub is_single_line : Bool

abbrev is_in_quotes : ℕ → Text → Bool
is_in_quotes q s = has_prefix s (q ∷ []) && ends_with s q

-- raw[1 : len(raw)-1], which panics for a text of one character.
unfoldable pub slice_inner : Text → Result ConfigError Text
unfolding drop_last
slice_inner [] = err (sentinel ConfigError.panic)
slice_inner (c ∷ []) = err (sentinel ConfigError.panic)
slice_inner (c ∷ d ∷ s) = ok (drop_last (d ∷ s))

-- The removal of outer quotes.
unfoldable pub unquote : Text → Result ConfigError Text
unfolding slice_inner has_prefix ends_with
unquote raw =
    if is_in_quotes double_quote raw || is_in_quotes single_quote raw
    then slice_inner raw
    else ok raw

-- strings.Contains(s, "\n")
unfoldable pub has_newline : Text → Bool
has_newline [] = false
has_newline (c ∷ s) = c == newline || has_newline s

-- Whether the key is on one line, with escapes for the ends of its lines.
unfoldable pub single_line : Text → Bool
unfolding before_pair has_newline
single_line raw = elim (before_pair backslash b'n' raw) [
  | some t ↦ not (has_newline raw)
  | none ↦ false
]

abbrev format_type : Bool → Text
format_type true = codes "Línea única (con escapes \\n)"
format_type false = codes "Tradicional (multilínea con saltos de línea)"

module _ {PublicKey : Type 0} (keys : KeyFormats PublicKey) where
  abbrev info : PublicKey → Bool → Text → KeyInfo PublicKey
  info key single suffix = record {
    key = key;
    bits = keys.bit_length key;
    format_type = format_type single ++ suffix;
    is_single_line = single;
  }

  -- The second format, if the first one did not fit: `cause` is the first one's error.
  try_pkcs1 : Bool → Text → Option PublicKey → Result ConfigError (KeyInfo PublicKey)
  try_pkcs1 single cause (some key) = ok (info key single (codes " [PKCS#1 RSA]"))
  try_pkcs1 single cause none =
      err (foreign (codes "no se pudo parsear como clave pública RSA (PKIX/PKCS#1): " ++ cause))

  parsed_key : Bool → Text → Text ⊎ AnyKey PublicKey → Result ConfigError (KeyInfo PublicKey)
  unfolding try_pkcs1
  parsed_key single block (inl cause) = try_pkcs1 single cause (keys.parse_pkcs1 block)
  parsed_key single block (inr other) =
      err (foreign (codes "el bloque PEM contiene una clave pero no es de tipo RSA"))
  parsed_key single block (inr (rsa key)) = ok (info key single (codes " [PKIX/X.509]"))

  parsed_block : Bool → Option Text → Result ConfigError (KeyInfo PublicKey)
  unfolding parsed_key
  parsed_block single none =
      err (
        foreign
          (codes "no se encontró un bloque PEM válido (debe iniciar con -----BEGIN ...-----)"))
  parsed_block single (some block) = parsed_key single block (keys.parse_pkix block)

  -- `InspectPublicKey` behind the trimming.
  inspect_trimmed : Text → Result ConfigError (KeyInfo PublicKey)
  unfolding unquote single_line unescape parsed_block
  inspect_trimmed [] = err (foreign (codes "la clave está vacía"))
  inspect_trimmed (c ∷ s) = and_then (unquote (c ∷ s)) λ inner.
      let single = single_line inner in
      parsed_block single (keys.pem_decode (if single then unescape inner else inner))

  -- InspectPublicKey
  unfoldable pub inspect_public_key : Text → Result ConfigError (KeyInfo PublicKey)
  unfolding trim_space inspect_trimmed
  inspect_public_key text = inspect_trimmed (trim_space text)

  -- ValidatePublicKeyPEM
  unfoldable pub validate_public_key_pem : Text → Result ConfigError PublicKey
  unfolding inspect_public_key
  validate_public_key_pem raw = and_then (inspect_public_key raw) λ i. ok i.key
