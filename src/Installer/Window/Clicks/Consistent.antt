-- ===== src/Installer/Window/Clicks/Consistent.antt =====
-- The buttons of the window agree with what it knows of the service.
use remote_pc_controller.Prelude.{
  Bool, true, false, Option, none, some, Bool-cases, inl, inr, ◌≡◌, refl, ◌≢◌, ◌==◌,
}
use remote_pc_controller.Prelude.Text.{Text, is_empty, trim_space}
use remote_pc_controller.Sentinel.Keys.{KeyFormats}
use remote_pc_controller.Installer.{stopped, running}
use remote_pc_controller.Installer.Window.{
  Window, with_key_status, Scm, no_manager, no_service, query_error, status, show_state,
  update_service_status, validate_key_live,
}

-- The service can be installed; it can be started or stopped, not both; one that runs can be stopped
-- and one that can be started or stopped can be removed.
pub record Agrees (install start stop uninstall runs : Bool) : Type 0 where
  pub installs : install ≡ true
  pub starts : start ≡ true → (stop ≡ false) × (uninstall ≡ true)
  pub stops : stop ≡ true → uninstall ≡ true
  pub running_stops : runs ≡ true → stop ≡ true

abbrev pub IsConsistent : Window → Type 0
IsConsistent w = Agrees w.can_install w.can_start w.can_stop w.can_uninstall w.service_running

-- Of the window behind a message, if there is one.
abbrev pub Keeps : Option Window → Type 0
Keeps none = Unit
Keeps (some w) = IsConsistent w

idle : Agrees true false false false false
idle = record { installs = refl; starts = λ h. cc; stops = λ h. cc; running_stops = λ h. cc }

startable : Agrees true true false true false
startable = record {
  installs = refl;
  starts = λ h. (refl, refl);
  stops = λ h. cc;
  running_stops = λ h. cc;
}

stoppable : (runs : Bool) → Agrees true false true true runs
stoppable runs = record {
  installs = refl;
  starts = λ h. cc;
  stops = λ h. refl;
  running_stops = λ h. refl;
}

-- An answer of the service manager makes the buttons agree, whatever they were.
pub answered-IsConsistent :
    (seen : Scm) (w : Window) → seen ≢ query_error → IsConsistent (update_service_status seen w)
unfolding update_service_status show_state
answered-IsConsistent no_manager w h = idle
answered-IsConsistent no_service w h = idle
answered-IsConsistent query_error w h = absurd (h refl)
answered-IsConsistent (status s pid) w h = elim (Bool-cases (s == running)) [
  | inl p ↦ rw p (stoppable true)
  | inr p ↦ elim (Bool-cases (s == stopped)) [
    | inl q ↦ rw (p, q) startable
    | inr q ↦ rw (p, q) (stoppable false)
  ]
]

pub update_service_status-IsConsistent :
    (seen : Scm) (w : Window) → IsConsistent w → IsConsistent (update_service_status seen w)
unfolding update_service_status
update_service_status-IsConsistent no_manager w c = idle
update_service_status-IsConsistent no_service w c = idle
update_service_status-IsConsistent query_error w c = c
update_service_status-IsConsistent (status s pid) w c =
    answered-IsConsistent (status s pid) w (λ e. cc)

module _ {PublicKey : Type 0} (keys : KeyFormats PublicKey) where
  with_key_status-Keeps :
      (w : Window) → IsConsistent w → (t : Option Text) → Keeps (with_key_status keys w t)
  with_key_status-Keeps w c none = tt
  with_key_status-Keeps w c (some t) = c

  pub validate_key_live-Keeps : (w : Window) → IsConsistent w → Keeps (validate_key_live keys w)
  unfolding validate_key_live
  validate_key_live-Keeps w c = elim (Bool-cases (is_empty (trim_space w.key))) [
    | inl p ↦ rw p c
    | inr p ↦ rw p (with_key_status-Keeps w c _)
  ]
