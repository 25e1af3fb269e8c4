-- ===== src/Installer/Window/KeyText.antt =====
-- `extractPublicKeyFromText` of sentinel/src/installer/gui_windows.go: the key in the text of a file
-- or of the clipboard.
pub mod Between
use remote_pc_controller.Prelude.{
  ℕ, zero, suc, ◌+◌, ◌-◌, ◌<◌, Bool, true, false, Option, none, some, List, [], ◌∷◌, ◌++◌, ltb,
  length, if◌then◌else◌,
}
use mathlib.Core.Option
use remote_pc_controller.Prelude.Text.{Text, codes, has_prefix, trim_space}

-- strings.Index, in code points
unfoldable pub index : Text → Text → Option ℕ
unfolding has_prefix
index [] needle = if has_prefix [] needle then some 0 else none
index (c ∷ s) needle =
    let later = index s needle in if has_prefix (c ∷ s) needle then some 0 else Option.map suc later

unfoldable pub take : ℕ → Text → Text
take zero s = []
take (suc n) [] = []
take (suc n) (c ∷ s) = c ∷ take n s

unfoldable pub drop : ℕ → Text → Text
drop zero s = s
drop (suc n) [] = []
drop (suc n) (c ∷ s) = drop n s

abbrev pub begin_public : Text
begin_public = codes "-----BEGIN PUBLIC KEY-----"

abbrev pub begin_rsa : Text
begin_rsa = codes "-----BEGIN RSA PUBLIC KEY-----"

abbrev pub end_public : Text
end_public = codes "-----END PUBLIC KEY-----"

abbrev pub end_rsa : Text
end_rsa = codes "-----END RSA PUBLIC KEY-----"

-- What was extracted, which may be nothing, or a panic.
pub data Extract : Type 0 where
  panics : Extract
  found : Text → Extract

-- The first marker, or else the second one.
or_else : Option ℕ → Option ℕ → Option ℕ
or_else (some i) second = some i
or_else none second = second

-- Where the key's text ends: behind the first end marker.
end_of : Option ℕ → Option ℕ → Option ℕ
end_of (some i) second = some (i + length end_public)
end_of none (some i) = some (i + length end_rsa)
end_of none none = none

-- strings.TrimSpace(text[start:end]), which panics if the bounds are out of order.
slice : Text → Option ℕ → Option ℕ → Extract
unfolding take drop trim_space
slice text none end = found []
slice text (some start) none = found []
slice text (some start) (some end) =
    if ltb end start then panics else found (trim_space (take (end - start) (drop start text)))

-- extractPublicKeyFromText
unfoldable pub extract_public_key_from_text : Text → Extract
unfolding slice or_else end_of index
extract_public_key_from_text text =
    slice text (or_else (index text begin_public) (index text begin_rsa))
      (end_of (index text end_public) (index text end_rsa))
