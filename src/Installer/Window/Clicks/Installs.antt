-- ===== src/Installer/Window/Clicks/Installs.antt =====
-- The port that is typed in the window, up to the firewall's rule.
use remote_pc_controller.Prelude.{
  ℕ, false, Option, none, some, List, [], ◌∷◌, ◌++◌, append-nil, ◌≡◌, ◌≢◌, refl, sym, ap, ◌∙◌, ◌==◌,
  if◌then◌else◌, arith,
}
use remote_pc_controller.Prelude.Decimal.{parse_int, scan_all, scan, to_int64}
use remote_pc_controller.Prelude.Dict.{Dict, lookup}
use remote_pc_controller.Prelude.Text.{
  Text, codes, equal, is_empty, trim_left, trim_right, trim_space,
}
use remote_pc_controller.Errors.{ok}
use remote_pc_controller.DotEnv.{get}
use remote_pc_controller.Sentinel.Keys.{KeyFormats, inspect_public_key, validate_public_key_pem}
use remote_pc_controller.Sentinel.Saving.{
  value_or, saved_value, save_text, save, load_with_defaults,
}
use remote_pc_controller.Sentinel.Saving.Keeping.{chosen, load_with_defaults-chosen}
use remote_pc_controller.Sentinel.Saving.RoundTrip.{IsSavable, parse-save}
use remote_pc_controller.Installer.{
  Machine, create_service, set_recovery, add_event_source, remove_rule, add_rule, parse_port,
  install_port, replaced, install, stop, start, installed, Effect, stop_signal, start_signal,
}
use remote_pc_controller.Installer.Signals.{
  IsSignal, TakesStop, TakesStart, IsReplacing, replaced-IsReplacing, start-IsSignal, stop-IsSignal,
}
use remote_pc_controller.Installer.Window.{Window, check_port_available}
use remote_pc_controller.Installer.Window.Desktop.{
  Desktop, Act, saved, after, effects, rule_acts, window_values, save_current_env, file_after,
  on_file,
}
use remote_pc_controller.Installer.Window.Clicks.{
  refresh, started_after_install, after_install, install_on, install_if_free, install_checked,
  install_with_key, click_install,
}

-- A value that is there stands before the default one.
chosen-get :
    (k : Text) (values m : Dict Text) (default : Option Text)
    → get k values ≢ []
    → lookup k m ≡ chosen (lookup k values) default
    → get k m ≡ get k values
unfolding get
chosen-get k values m default present same =
    chosen_text (lookup k m) (lookup k values) default present same
  where
    chosen_text :
        (x y default : Option Text)
        → (elim y [ some v ↦ v | none ↦ [] ]) ≢ []
        → x ≡ chosen y default
        → (elim x [ some v ↦ v | none ↦ [] ]) ≡ (elim y [ some v ↦ v | none ↦ [] ])
    chosen_text x none default present same = absurd (present refl)
    chosen_text x (some []) default present same = absurd (present refl)
    chosen_text x (some (c ∷ v)) default present same = rw same refl

get-loaded :
    (host : Option Text) (path : Text) (values : Dict Text)
    → IsSavable host values
    → (m : Dict Text) × (load_with_defaults host path (ok (save_text host values)) ≡ ok m)
      × (get (codes "PORT") m ≡ saved_value (codes "PORT") (codes "9876") values)
get-loaded host path values s =
    let (read, parsed, reads) = parse-save host values s in
    let (m, loaded, choices) =
      load_with_defaults-chosen host path (save_text host values) read parsed in
    (
      m,
      loaded,
      chosen-get (codes "PORT") read m _ (λ e. s.port.ne_nil (sym reads.port ∙ e))
            (choices (codes "PORT"))
          ∙ reads.port,
    )

on_file-port :
    (d : Desktop) (w : Window)
    → IsSavable d.host (window_values w)
    → d.write_error ≡ none
    → (on_file d w).port ≡ saved_value (codes "PORT") (codes "9876") (window_values w)
unfolding on_file file_after save
on_file-port d w s written =
    let (m, loaded, reads) = get-loaded d.host d.env_path (window_values w) s in
    rw (written, loaded) reads

parse_port-ne-nil : (t : Text) → parse_port t ≢ 0 → is_empty t ≡ false
unfolding parse_port parse_int scan_all scan to_int64
parse_port-ne-nil [] h = absurd (h refl)
parse_port-ne-nil (c ∷ t) h = refl

saved_value-port :
    (w : Window)
    → parse_port (trim_space w.port) ≢ 0
    → saved_value (codes "PORT") (codes "9876") (window_values w) ≡ trim_space w.port
unfolding saved_value value_or get lookup window_values equal
saved_value-port w h = rw (parse_port-ne-nil (trim_space w.port) h) refl

port_or_default : (n : ℕ) → n ≢ 0 → (if n == 0 then 9876 else n) ≡ n
port_or_default n h = ground arith

-- The port that the installation opens is the one in the window.
install_port-on_file :
    (d : Desktop) (w : Window)
    → IsSavable d.host (window_values w)
    → d.write_error ≡ none
    → parse_port (trim_space w.port) ≢ 0
    → install_port (on_file d w) ≡ parse_port (trim_space w.port)
unfolding install_port
install_port-on_file d w s written h =
    let text : (on_file d w).port ≡ trim_space w.port =
      on_file-port d w s written ∙ saved_value-port w h in
    rw text (port_or_default (parse_port (trim_space w.port)) h)

install-effects :
    (m : Machine)
    → (install m).0 ≡ none
    → (install m).1
      ≡ replaced m
        ++ create_service
          ∷ set_recovery m.recovery
          ∷ add_event_source m.add_source
          ∷ remove_rule m.delete_rule
          ∷ add_rule (install_port m) m.open_rule
          ∷ []
unfolding install installed
install-effects m h = ground arith

module _ {PublicKey : Type 0} (keys : KeyFormats PublicKey) where
  -- A text that is a key is not empty.
  valid_text :
      (t : Text) (k : PublicKey) → validate_public_key_pem keys t ≡ ok k → is_empty t ≡ false
  unfolding validate_public_key_pem inspect_public_key trim_space trim_left trim_right
  valid_text [] k h = cc
  valid_text (c ∷ t) k h = refl

  -- The acts of a pressed button whose installation succeeds: the effects of stopping the old
  -- service, the file, the installation, the rule of the check box, and the effects of starting.
  abbrev pub install_acts :
      Desktop → Window → ℕ → List Effect → List Effect → List Effect → List Act
  install_acts d w port stops olds starts =
      effects stops
      ++ ((saved (save_text d.host (window_values w)) ∷ [])
          ++ effects (
              olds
              ++ create_service
                ∷ set_recovery d.at_install.recovery
                ∷ add_event_source d.at_install.add_source
                ∷ remove_rule d.at_install.delete_rule
                ∷ add_rule port d.at_install.open_rule
                ∷ [])
          ++ ((if w.firewall then rule_acts d port else []) ++ effects starts))

  -- Its part behind the test of the port.
  install_on-acts :
      (d : Desktop) (w : Window) (port : ℕ)
      → port ≢ 0
      → parse_port (trim_space w.port) ≡ port
      → d.write_error ≡ none
      → IsSavable d.host (window_values w)
      → (install (on_file d w)).0 ≡ none
      → effects ((stop d.at_stop).1) ++ (install_on keys d w port).acts
        ≡ install_acts d w port (stop d.at_stop).1 (replaced (on_file d w)) (start d.at_start).1
  unfolding install_on after_install started_after_install refresh save_current_env save
  install_on-acts d w port inside typed written s installs =
      let opened : install_port (on_file d w) ≡ port =
        install_port-on_file d w s written (λ e. inside (sym typed ∙ e)) ∙ typed in
      rw (written, installs, install-effects (on_file d w) installs, opened, append-nil) refl

  install_if_free-free :
      (d : Desktop) (w : Window) (port : ℕ) (r : Option Text)
      → r ≡ none
      → install_if_free keys d w port r ≡ install_on keys d w port
  unfolding install_if_free
  install_if_free-free d w port none h = refl
  install_if_free-free d w port (some e) h = cc

  check_port_available-free :
      (listen : ℕ → Option Text) (port : ℕ)
      → listen port ≡ none
      → check_port_available listen port ≡ none
  unfolding check_port_available
  check_port_available-free listen port free = rw (check_port_available, free) refl

  install_checked-free :
      (d : Desktop) (w : Window) (k : PublicKey) (port : ℕ)
      → d.listen port ≡ none
      → install_with_key keys d w port (ok k)
        ≡ after (effects ((stop d.at_stop).1)) (install_on keys d w port)
  unfolding install_with_key install_checked
  install_checked-free d w k port free =
      ap (λ c. after (effects ((stop d.at_stop).1)) c)
        (install_if_free-free d w port (check_port_available d.listen port)
          (check_port_available-free d.listen port free))

  click_install-press :
      (d : Desktop) (w : Window) (k : PublicKey) (port : ℕ)
      → parse_port (trim_space w.port) ≡ port
      → port ≢ 0
      → validate_public_key_pem keys (trim_space w.key) ≡ ok k
      → d.listen port ≡ none
      → click_install keys d w ≡ after (effects ((stop d.at_stop).1)) (install_on keys d w port)
  unfolding click_install
  click_install-press d w k port typed inside valid free =
      let tested : (port == 0) ≡ false = ground (arith, inside) in
      rw (typed, tested, valid_text (trim_space w.key) k valid, valid)
        (install_checked-free d w k port free)

  -- The old service is the one of the machine that `install` meets.
  replaced-on_file : (d : Desktop) (w : Window) → replaced (on_file d w) ≡ replaced d.at_install
  unfolding on_file replaced
  replaced-on_file d w = refl

  -- If the port in the window is one, its key is valid and without backslashes, its other values
  -- need no quotes, the port is free, the `.env` file can be written, and `install` behind that
  -- succeeds, then the button does this, in this order: the stop signal, exactly if the old
  -- service can be reached (privileges included), its query succeeds, it is in another state than
  -- stopped and takes the signal; the file with the window's values; the signal to the old
  -- service, if it is still there, exactly if no query tells that it is stopped and it takes the
  -- signal, and its deletion, exactly if that succeeds; the creation of the new one, with the
  -- calls whose errors are dropped and these errors; the rule for the port in the window, which
  -- `install` reads back from the file; if the check box for it is set, the call that replaces
  -- the rule for this port, with its dropped errors; and the start signal, exactly if the service
  -- can be reached, does not run, and takes it.
  pub click_install-opens :
      (d : Desktop) (w : Window) (k : PublicKey) (port : ℕ)
      → parse_port (trim_space w.port) ≡ port
      → port ≢ 0
      → validate_public_key_pem keys (trim_space w.key) ≡ ok k
      → d.listen port ≡ none
      → d.write_error ≡ none
      → IsSavable d.host (window_values w)
      → (install (on_file d w)).0 ≡ none
      → (stops olds starts : List Effect) × IsSignal (TakesStop d.at_stop) stop_signal stops
        × IsReplacing d.at_install olds
        × IsSignal (TakesStart d.at_start) start_signal starts
        × ((click_install keys d w).acts ≡ install_acts d w port stops olds starts)
  click_install-opens d w k port typed inside valid free written s installs = (
    (stop d.at_stop).1,
    replaced d.at_install,
    (start d.at_start).1,
    stop-IsSignal d.at_stop,
    replaced-IsReplacing d.at_install,
    start-IsSignal d.at_start,
    ap (λ c. c.acts) (click_install-press d w k port typed inside valid free)
        ∙ install_on-acts d w port inside typed written s installs
        ∙ ap (λ olds. install_acts d w port (stop d.at_stop).1 olds (start d.at_start).1)
            (replaced-on_file d w),
  )
