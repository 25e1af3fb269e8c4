-- ===== src/Installer/Window/Access.antt =====
-- `isChecked`, `setWindowText`, `getWindowText` and `enableControl` of
-- sentinel/src/installer/gui_windows.go, on the controls that were created.
use remote_pc_controller.Prelude.{
  ℕ, Bool, false, Option, none, some, List, [], ◌∷◌, ◌≡◌, ◌≢◌, refl, ◌==◌, if◌then◌else◌,
  Bool-cases, inl, inr, arith,
}
use remote_pc_controller.Prelude.Text.{Text, is_empty}
use remote_pc_controller.Sentinel.Notify.{has_zero}
use remote_pc_controller.Installer.Window.Controls.{Control, utf16_ptr}
use remote_pc_controller.Installer.Window.Layout.Shows.{control_with}

-- A call that changes the control with a handle.
pub change : ℕ → (Control → Control) → List Control → List Control
change handle f [] = []
change handle f (c ∷ cs) =
    let rest = change handle f cs in if c.handle == handle then f c ∷ cs else c ∷ rest

-- The text of a control, which is empty for a nil pointer.
abbrev text_of : Option Control → Text
text_of none = []
text_of (some c) = elim c.text [ some t ↦ t | none ↦ [] ]

unfoldable pub get_window_text : ℕ → List Control → Text
unfolding control_with
get_window_text handle cs =
    let text = text_of (control_with handle cs) in if is_empty text then [] else text

unfoldable pub set_window_text : ℕ → Text → List Control → List Control
unfolding change utf16_ptr
set_window_text handle text = change handle (λ c. record c { text = utf16_ptr text })

abbrev checked_of : Option Control → Bool
checked_of none = false
checked_of (some c) = c.checked

unfoldable pub is_checked : ℕ → List Control → Bool
unfolding control_with
is_checked handle cs = checked_of (control_with handle cs)

unfoldable pub enable_control : ℕ → Bool → List Control → List Control
unfolding change
enable_control handle enable = change handle (λ c. record c { enabled = enable })

change_found :
    (handle : ℕ) (f : Control → Control) (cs : List Control) (c : Control)
    → ((d : Control) → (f d).handle ≡ d.handle)
    → control_with handle cs ≡ some c
    → control_with handle (change handle f cs) ≡ some (f c)
unfolding control_with change
change_found handle f [] c keeps h = absurd (cc h)
change_found handle f (d ∷ cs) c keeps h = elim (Bool-cases (d.handle == handle)) [
  | inl e ↦ ground (arith, e, h, keeps d)
  | inr e ↦ ground (arith, e, h, change_found handle f cs c keeps)
]

-- A change of one control leaves the others alone.
pub change_others :
    (handle other : ℕ) (f : Control → Control) (cs : List Control)
    → ((d : Control) → (f d).handle ≡ d.handle)
    → handle ≢ other
    → control_with other (change handle f cs) ≡ control_with other cs
unfolding control_with change
change_others handle other f [] keeps differ = refl
change_others handle other f (d ∷ cs) keeps differ = elim (Bool-cases (d.handle == handle)) [
  | inl e ↦ ground (arith, e, keeps d, differ)
  | inr e ↦ ground (arith, e, differ, change_others handle other f cs keeps differ)
]

-- A text without a zero that is set is the one that is read.
pub get-set :
    (handle : ℕ) (text : Text) (cs : List Control) (c : Control)
    → control_with handle cs ≡ some c
    → has_zero text ≡ false
    → get_window_text handle (set_window_text handle text cs) ≡ text
unfolding get_window_text set_window_text
get-set handle [] cs c found plain =
    rw (change_found handle (λ d. record d { text = utf16_ptr [] }) cs c (λ d. refl) found) refl
get-set handle (a ∷ text) cs c found plain =
    rw
      (
        change_found handle (λ d. record d { text = utf16_ptr (a ∷ text) }) cs c (λ d. refl) found,
        plain,
      )
      refl
