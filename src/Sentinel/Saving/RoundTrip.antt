-- ===== src/Sentinel/Saving/RoundTrip.antt =====
-- What `Save` writes is read back by `parseDotEnv`.
use remote_pc_controller.Prelude.{
  ℕ, Option, [], ◌∷◌, ◌≡◌, ◌≢◌, refl, Bool-cases, inl, inr, sym, ap, ◌==◌, All, arith,
}
use remote_pc_controller.Prelude.Dict.{Dict, insert, remove, lookup}
use remote_pc_controller.Prelude.Text.{
  Text, codes, is_space, trim_left, trim_right, trim_onto, trim_space, trim_suffix, ends_with,
  drop_last, has_prefix, equal,
}
use remote_pc_controller.Errors.{ok}
use remote_pc_controller.DotEnv.{
  newline, backslash, get, split_lines, replace_pair, unescape, outside, parse_lines, finish,
  parse_dot_env,
}
use remote_pc_controller.DotEnv.Lines.{IsPlain, IsKey, parser, skip, set, set_quoted, read_nothing}
use remote_pc_controller.Sentinel.Saving.{
  rule, title, port_comment, device_comment, key_comment, skew_comment, body_comment,
  notification_comment, saved_device, saved_value, escape_newlines, clean_key, save_text,
}

-- The escapes of the ends of lines are undone, if the text holds no backslash of its own.
replace_pair-skip :
    (b to c : ℕ) (t : Text)
    → c ≢ backslash
    → replace_pair backslash b to (c ∷ t) ≡ c ∷ replace_pair backslash b to t
unfolding replace_pair
replace_pair-skip b to c [] p = refl
replace_pair-skip b to c (d ∷ t) p = ground (arith, p)

replace-escape :
    (s : Text)
    → All (λ c. c ≢ backslash) s
    → replace_pair backslash b'n' newline (escape_newlines s) ≡ s
unfolding replace_pair escape_newlines
replace-escape [] h = refl
replace-escape (c ∷ s) (p, h) = elim (Bool-cases (c == newline)) [
  | inl e ↦
      let same : c ≡ newline = ground (arith, e) in
      rw (e, replace-escape s h) (ap (λ d. d ∷ s) (sym same))
  | inr e ↦ rw (e, replace_pair-skip b'n' newline c (escape_newlines s) p, replace-escape s h) refl
]

replace_nothing :
    (b to : ℕ) (s : Text) → All (λ c. c ≢ backslash) s → replace_pair backslash b to s ≡ s
unfolding replace_pair
replace_nothing b to [] h = refl
replace_nothing b to (c ∷ []) h = refl
replace_nothing b to (c ∷ d ∷ s) (p, h) = ground (arith, replace_nothing b to (d ∷ s) h)

unescape-escape : (s : Text) → All (λ c. c ≢ backslash) s → unescape (escape_newlines s) ≡ s
unfolding unescape
unescape-escape s h = rw (replace-escape s h) (replace_nothing b'r' 13 s h)

escape_one_line : (s : Text) → All (λ c. c ≢ newline) (escape_newlines s)
unfolding escape_newlines
escape_one_line [] = tt
escape_one_line (c ∷ s) = ground (arith, escape_one_line s)

-- What can be saved so that it is read back: the key holds no backslash, and the other values need no
-- quotes.
pub record IsSavable (host : Option Text) (values : Dict Text) : Type 0 where
  pub port : IsPlain (saved_value (codes "PORT") (codes "9876") values)
  pub device : IsPlain (saved_device host values)
  pub key : All (λ c. c ≢ backslash) (clean_key (get (codes "PUBLIC_KEY") values))
  pub skew : IsPlain (saved_value (codes "CLOCK_SKEW_SECONDS") (codes "5") values)
  pub body : IsPlain (saved_value (codes "MAX_BODY_BYTES") (codes "65536") values)
  pub notifications : IsPlain (saved_value (codes "ENABLE_NOTIFICATIONS") (codes "true") values)

-- A key of capital letters and underscores.
abbrev KeyPart : Text → Type 0
KeyPart [] = Unit
KeyPart (c ∷ k) = IsKey c k

keys_plain :
    KeyPart (codes "PORT")
    × KeyPart (codes "DEVICE_ID")
    × KeyPart (codes "PUBLIC_KEY")
    × KeyPart (codes "CLOCK_SKEW_SECONDS")
    × KeyPart (codes "MAX_BODY_BYTES")
    × KeyPart (codes "ENABLE_NOTIFICATIONS")
unfolding trim_space trim_left trim_right trim_onto is_space
keys_plain = (
  record { solid = refl; no_hash = ground arith; trimmed = refl; no_equals = ground arith },
  record { solid = refl; no_hash = ground arith; trimmed = refl; no_equals = ground arith },
  record { solid = refl; no_hash = ground arith; trimmed = refl; no_equals = ground arith },
  record { solid = refl; no_hash = ground arith; trimmed = refl; no_equals = ground arith },
  record { solid = refl; no_hash = ground arith; trimmed = refl; no_equals = ground arith },
  record { solid = refl; no_hash = ground arith; trimmed = refl; no_equals = ground arith },
)

abbrev saved_lines : Option Text → Dict Text → Dict Text
saved_lines host values =
    insert (codes "ENABLE_NOTIFICATIONS")
      (saved_value (codes "ENABLE_NOTIFICATIONS") (codes "true") values)
      (insert (codes "MAX_BODY_BYTES") (saved_value (codes "MAX_BODY_BYTES") (codes "65536") values)
        (insert (codes "CLOCK_SKEW_SECONDS")
          (saved_value (codes "CLOCK_SKEW_SECONDS") (codes "5") values)
          (insert (codes "PUBLIC_KEY")
            (unescape (escape_newlines (clean_key (get (codes "PUBLIC_KEY") values))))
            (insert (codes "DEVICE_ID") (saved_device host values)
              (insert (codes "PORT") (saved_value (codes "PORT") (codes "9876") values) [])))))

read_saved :
    (host : Option Text) (values : Dict Text)
    → IsSavable host values
    → parse_lines 0 (split_lines (save_text host values)) (parser [])
      ≡ ok (parser (saved_lines host values))
unfolding save_text outside trim_space trim_left trim_right trim_onto is_space trim_suffix ends_with
    drop_last has_prefix
read_saved host values s =
    let (port, device, key, skew, body, notification) = keys_plain in
    skip rule _ _ _ refl refl (
      skip title _ _ _ refl refl (
        skip rule _ _ _ refl refl (
          skip [] _ _ _ refl refl (
            skip port_comment _ _ _ refl refl (
              set _ _ (saved_value (codes "PORT") (codes "9876") values) _ _ _ refl port s.port (
                skip [] _ _ _ refl refl (
                  skip device_comment _ _ _ refl refl (
                    set _ _ (saved_device host values) _ _ _ refl device s.device (
                      skip [] _ _ _ refl refl (
                        skip key_comment _ _ _ refl refl (
                          set_quoted _ _
                            (escape_newlines (clean_key (get (codes "PUBLIC_KEY") values))) _ _ _
                            refl key (escape_one_line (clean_key (get (codes "PUBLIC_KEY") values)))
                            (skip [] _ _ _ refl refl (
                              skip skew_comment _ _ _ refl refl (
                                set _ _
                                  (saved_value (codes "CLOCK_SKEW_SECONDS") (codes "5") values) _ _
                                  _ refl skew s.skew
                                  (skip [] _ _ _ refl refl (
                                    skip body_comment _ _ _ refl refl (
                                      set _ _
                                        (saved_value (codes "MAX_BODY_BYTES") (codes "65536")
                                          values)
                                        _ _ _ refl body s.body
                                        (skip [] _ _ _ refl refl (
                                          skip notification_comment _ _ _ refl refl (
                                            set _ _
                                              (saved_value (codes "ENABLE_NOTIFICATIONS")
                                                (codes "true") values)
                                              _ _ _ refl notification s.notifications
                                              (read_nothing _ _)))))))))))))))))))))

-- The values that the file holds for the reader.
pub record IsRead (host : Option Text) (values m : Dict Text) : Type 0 where
  pub port : get (codes "PORT") m ≡ saved_value (codes "PORT") (codes "9876") values
  pub device : get (codes "DEVICE_ID") m ≡ saved_device host values
  pub key : get (codes "PUBLIC_KEY") m ≡ clean_key (get (codes "PUBLIC_KEY") values)
  pub skew :
      get (codes "CLOCK_SKEW_SECONDS") m
      ≡ saved_value (codes "CLOCK_SKEW_SECONDS") (codes "5") values
  pub body :
      get (codes "MAX_BODY_BYTES") m ≡ saved_value (codes "MAX_BODY_BYTES") (codes "65536") values
  pub notifications :
      get (codes "ENABLE_NOTIFICATIONS") m
      ≡ saved_value (codes "ENABLE_NOTIFICATIONS") (codes "true") values

saved_lines-IsRead :
    (host : Option Text) (values : Dict Text)
    → IsSavable host values
    → IsRead host values (saved_lines host values)
unfolding get lookup insert remove equal
saved_lines-IsRead host values s = record {
  port = refl;
  device = refl;
  key = unescape-escape (clean_key (unfold get lookup in get (codes "PUBLIC_KEY") values)) s.key;
  skew = refl;
  body = refl;
  notifications = refl;
}

-- The text that `Save` writes for values that need no quotes, and a key without backslashes, is
-- read back by `parseDotEnv`, and every key has the value that `Save` chose for it: trimmed, or
-- the default one, with the returns taken out of the key.
pub parse-save :
    (host : Option Text) (values : Dict Text)
    → IsSavable host values
    → (m : Dict Text) × (parse_dot_env (save_text host values) ≡ ok m) × IsRead host values m
unfolding parse_dot_env finish
parse-save host values s =
    (saved_lines host values, rw (read_saved host values s) refl, saved_lines-IsRead host values s)
