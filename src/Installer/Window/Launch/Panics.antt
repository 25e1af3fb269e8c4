-- ===== src/Installer/Window/Launch/Panics.antt =====
-- When the launch of the window panics before it shows anything.
use remote_pc_controller.Prelude.{
  true, Option, none, some, List, [], ◌∷◌, ◌≡◌, ◌≢◌, ◌↔◌, ◌⊎◌, inl, inr, refl, if◌then◌else◌,
}
use remote_pc_controller.Prelude.Dict.{Dict}
use remote_pc_controller.Prelude.Text.{Text, codes, is_empty}
use remote_pc_controller.Errors.{Result, ok, err}
use remote_pc_controller.DotEnv.{ConfigError, get}
use remote_pc_controller.Installer.Window.KeyText.{Extract, panics, found}
use remote_pc_controller.Installer.Window.Launch.{key_in_files, assign_key, values_shown}

-- The values name no key.
abbrev pub HasNoKey : Result ConfigError (Dict Text) → Type 0
HasNoKey (ok m) = get (codes "PUBLIC_KEY") m ≡ []
HasNoKey (err e) = Unit

abbrev pub IsNil : Result ConfigError (Dict Text) → Type 0
IsNil values = (e : _) × (values ≡ err e)

is_empty_iff : (t : Text) → (is_empty t ≡ true) ↔ (t ≡ [])
is_empty_iff [] = (λ h. refl, λ h. refl)
is_empty_iff (c ∷ t) = (λ h. cc, λ h. cc)

assign_key_panics_iff :
    (values : Result ConfigError (Dict Text)) (x : Extract)
    → (assign_key values x ≡ none)
      ↔ ((x ≡ panics) ⊎ (IsNil values × ((t : Text) × (x ≡ found t) × (t ≢ []))))
unfolding assign_key
assign_key_panics_iff (ok m) panics = (λ h. inl refl, λ h. refl)
assign_key_panics_iff (err e) panics = (λ h. inl refl, λ h. refl)
assign_key_panics_iff (ok m) (found t) = (λ h. cc, λ h. elim h [ inl i ↦ cc | inr i ↦ cc (i.0.1) ])
assign_key_panics_iff (err e) (found []) =
    (λ h. cc, λ h. elim h [ inl i ↦ cc | inr (nil, (t, same, full)) ↦ absurd (full (cc same)) ])
assign_key_panics_iff (err e) (found (c ∷ t)) =
    (λ h. inr ((e, refl), (c ∷ t, refl, λ i. cc)), λ h. refl)

-- The test on the key in front of the files.
keyless :
    {P : Type 0} (key : Text) (m : Dict Text) (assigned : Option (Dict Text))
    → (assigned ≡ none) ↔ P
    → ((if is_empty key then assigned else some m) ≡ none) ↔ ((key ≡ []) × P)
keyless [] m assigned iff = (λ h. (refl, iff.0 h), λ h. iff.1 h.1)
keyless (c ∷ key) m assigned iff = (λ h. cc, λ h. cc (h.0))

-- The launch of the window panics over the values that it is to show exactly if they name no key
-- and the search through the files for one panics, or finds a key while the map of the values is
-- nil, since `LoadWithDefaults` failed.
pub values_shown_panics_iff :
    (values : Result ConfigError (Dict Text)) (files : List (Option Text))
    → (values_shown values files ≡ none) ↔ (
        HasNoKey values
        × ((key_in_files files ≡ panics)
            ⊎ (IsNil values × ((t : Text) × (key_in_files files ≡ found t) × (t ≢ [])))))
unfolding values_shown
values_shown_panics_iff (err e) files = (
  λ h. (tt, (assign_key_panics_iff (err e) (key_in_files files)).0 h),
  λ h. (assign_key_panics_iff (err e) (key_in_files files)).1 h.1,
)
values_shown_panics_iff (ok m) files =
    keyless (get (codes "PUBLIC_KEY") m) m (assign_key (ok m) (key_in_files files))
      (assign_key_panics_iff (ok m) (key_in_files files))
