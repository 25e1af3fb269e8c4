-- ===== src/Installer/Window/Clicks/Refused.antt =====
-- What the button that installs refuses.
use remote_pc_controller.Prelude.{
  ℕ, Option, none, some, List, [], ◌∷◌, ◌≡◌, ◌≢◌, ◌⊎◌, inl, inr, refl, ◌==◌, Bool-cases,
}
use remote_pc_controller.Prelude.Text.{Text, is_empty, trim_space}
use remote_pc_controller.Errors.{Result, ok, err, kind}
use remote_pc_controller.DotEnv.{ConfigError}
use remote_pc_controller.Sentinel.Keys.{KeyFormats, validate_public_key_pem}
use remote_pc_controller.Installer.{parse_port}
use remote_pc_controller.Installer.Window.{Window, error_text}
use remote_pc_controller.Installer.Window.Desktop.{
  Box, invalid_port, key_required, invalid_key, Act, boxed, Desktop,
}
use remote_pc_controller.Installer.Window.Clicks.{refuse_key, install_with_key, click_install}

-- At most a message box is shown.
abbrev pub OnlyTells : List Act → Type 0
OnlyTells acts = (acts ≡ []) ⊎ ((b : Box) × (acts ≡ boxed b ∷ []))

module _ {PublicKey : Type 0} (keys : KeyFormats PublicKey) where
  refuse_key-OnlyTells :
      (w : Window) (t : Text) (k : Option ConfigError) → OnlyTells (refuse_key keys w t k).acts
  unfolding refuse_key
  refuse_key-OnlyTells w t (some ConfigError.panic) = inl refl
  refuse_key-OnlyTells w t (some ConfigError.not_exist) = inr (invalid_key t, refl)
  refuse_key-OnlyTells w t none = inr (invalid_key t, refl)

  install_with_key-OnlyTells :
      (d : Desktop) (w : Window) (port : ℕ) (k : Result ConfigError PublicKey)
      → ((key : PublicKey) → k ≢ ok key)
      → OnlyTells (install_with_key keys d w port k).acts
  unfolding install_with_key
  install_with_key-OnlyTells d w port (ok key) h = absurd (h key refl)
  install_with_key-OnlyTells d w port (err e) h = refuse_key-OnlyTells w (error_text e) (kind e)

  -- If the port in the window is none, or its key is not valid, the button that installs does
  -- nothing but show a message box, if that: no service is stopped and no file is written.
  pub click_install-OnlyTells :
      (d : Desktop) (w : Window)
      → (parse_port (trim_space w.port) ≡ 0)
        ⊎ ((key : PublicKey) → validate_public_key_pem keys (trim_space w.key) ≢ ok key)
      → OnlyTells (click_install keys d w).acts
  unfolding click_install
  click_install-OnlyTells d w (inl zero_port) = rw zero_port (inr (invalid_port, refl))
  click_install-OnlyTells d w (inr h) = elim (Bool-cases (parse_port (trim_space w.port) == 0)) [
    | inl p ↦ rw p (inr (invalid_port, refl))
    | inr p ↦ elim (Bool-cases (is_empty (trim_space w.key))) [
      | inl q ↦ rw (p, q) (inr (key_required, refl))
      | inr q ↦
          rw (p, q)
            (install_with_key-OnlyTells d w (parse_port (trim_space w.port))
              (validate_public_key_pem keys (trim_space w.key)) h)
    ]
  ]
