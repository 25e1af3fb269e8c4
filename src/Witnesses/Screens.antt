-- ===== src/Witnesses/Screens.antt =====
-- Witnesses for the theorems on the window's controls, its dialogs and its launch.
use remote_pc_controller.Prelude.{
  ◌+◌, Option, none, some, List, [], ◌∷◌, ◌++◌, ◌≡◌, ◌≢◌, ◌↔◌, ◌⊎◌, arith,
}
use remote_pc_controller.Prelude.Dict.{Dict}
use remote_pc_controller.Prelude.Text.{Text, codes}
use remote_pc_controller.Errors.{Result, err, foreign}
use remote_pc_controller.DotEnv.{ConfigError}
use remote_pc_controller.Installer.Window.Controls.{Screen}
use remote_pc_controller.Installer.Window.Dialogs.{
  get_clipboard_text, run, released, get_clipboard_text-Released,
}
use remote_pc_controller.Installer.Window.Layout.{Fonts, Handles, create_controls}
use remote_pc_controller.Installer.Window.Layout.Shows.{IsShown, create_controls-IsShown}
use remote_pc_controller.Installer.Window.Launch as Launch
use remote_pc_controller.Installer.Window.Launch.{values_shown, key_in_files}
use remote_pc_controller.Installer.Window.Launch.Panics.{HasNoKey, IsNil, values_shown_panics_iff}
use remote_pc_controller.Installer.Window.KeyText.{panics, found}

abbrev sample_values : Dict Text
sample_values = (codes "PORT", codes "8080") ∷ (codes "DEVICE_ID", codes "pc") ∷ []

abbrev sample_fonts : Fonts
sample_fonts = record { normal = 1; small = 2; bold = 3; title = 4; mono = 5 }

abbrev sample_screen : Screen
sample_screen = record { handles = λ i. i + 10; controls = [] }

abbrev sample_controls : Handles × Screen
sample_controls = create_controls 9 sample_values sample_fonts sample_screen

create_controls-IsShown_example :
    IsShown sample_controls.0 sample_controls.1.controls (Launch.create_controls sample_values)
create_controls-IsShown_example =
    create_controls-IsShown 9 sample_values sample_fonts (λ i. i + 10) (λ i j h. omega (arith, h))

get_clipboard_text-Released_example :
    run ((get_clipboard_text 1 2 3 (codes "key")).trace) (some released) ≡ some released
get_clipboard_text-Released_example = get_clipboard_text-Released 1 2 3 (codes "key")

abbrev unread : Result ConfigError (Dict Text)
unread = err (foreign (codes "denied"))

abbrev key_files : List (Option Text)
key_files =
    some (codes "-----BEGIN PUBLIC KEY-----" ++ codes "MIIB" ++ codes "-----END PUBLIC KEY-----")
    ∷ []

values_shown_panics_iff_example : (values_shown unread key_files ≡ none) ↔ (
    HasNoKey unread
    × ((key_in_files key_files ≡ panics)
        ⊎ (IsNil unread × ((t : Text) × (key_in_files key_files ≡ found t) × (t ≢ [])))))
values_shown_panics_iff_example = values_shown_panics_iff unread key_files
