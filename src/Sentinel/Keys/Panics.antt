-- ===== src/Sentinel/Keys/Panics.antt =====
-- When reading a public key panics.
use remote_pc_controller.Prelude.{
  Bool, Option, [], ◌∷◌, ◌≡◌, ◌≢◌, ◌↔◌, ◌⊎◌, refl, if◌then◌else◌, arith,
}
use remote_pc_controller.Prelude.Text.{Text, trim_space, has_prefix, ends_with}
use remote_pc_controller.Errors.{Result, ok, err, sentinel, and_then}
use remote_pc_controller.DotEnv.{ConfigError, double_quote, single_quote, unescape}
use remote_pc_controller.Sentinel.Keys.{
  KeyFormats, slice_inner, unquote, single_line, try_pkcs1, parsed_key, parsed_block,
  inspect_trimmed, inspect_public_key,
}

module _ {PublicKey : Type 0} (keys : KeyFormats PublicKey) where
  parsed_block-ne-panic :
      (single : Bool) (block : Option Text)
      → parsed_block keys single block ≢ err (sentinel ConfigError.panic)
  unfolding parsed_block parsed_key try_pkcs1
  parsed_block-ne-panic single block = ground arith

  -- One quotation mark.
  abbrev IsQuote : Text → Type 0
  IsQuote s = (s ≡ double_quote ∷ []) ⊎ (s ≡ single_quote ∷ [])

  unquote_panics_iff : (s : Text) → (unquote s ≡ err (sentinel ConfigError.panic)) ↔ IsQuote s
  unfolding unquote slice_inner has_prefix ends_with
  unquote_panics_iff [] = (λ h. ground arith, λ h. ground arith)
  unquote_panics_iff (c ∷ []) = (λ h. ground arith, λ h. ground arith)
  unquote_panics_iff (c ∷ d ∷ s) = (λ h. ground arith, λ h. ground arith)

  unquoted-ne-panic :
      (x : Result ConfigError Text)
      → and_then x (λ inner.
        parsed_block keys
          (single_line inner)
          (keys.pem_decode (if single_line inner then unescape inner else inner)))
        ≡ err (sentinel ConfigError.panic)
      → x ≡ err (sentinel ConfigError.panic)
  unquoted-ne-panic (ok inner) h = absurd (parsed_block-ne-panic (single_line inner) _ h)
  unquoted-ne-panic (err e) h = ground arith

  inspect_trimmed_panics_iff :
      (s : Text) → (inspect_trimmed keys s ≡ err (sentinel ConfigError.panic)) ↔ IsQuote s
  unfolding inspect_trimmed
  inspect_trimmed_panics_iff [] = (λ h. ground arith, λ h. ground arith)
  inspect_trimmed_panics_iff (c ∷ s) =
      let panics = unquote_panics_iff (c ∷ s) in
      (λ h. panics.0 (unquoted-ne-panic (unquote (c ∷ s)) h), λ h. rw (panics.1 h) refl)

  -- `InspectPublicKey` panics exactly for a text that is, up to white space at its ends, a single
  -- quotation mark, of either kind.
  pub inspect_panics_iff :
      (text : Text)
      → (inspect_public_key keys text ≡ err (sentinel ConfigError.panic))
        ↔ ((trim_space text ≡ double_quote ∷ []) ⊎ (trim_space text ≡ single_quote ∷ []))
  unfolding inspect_public_key
  inspect_panics_iff text = inspect_trimmed_panics_iff (trim_space text)
