-- ===== src/Witnesses/Computers.antt =====
-- A witness for the theorem on what the installer leaves behind: a computer of three parts.
use remote_pc_controller.Prelude.{ℕ, ◌≤◌, Bool, true, false, none, List, [], ◌∷◌, ◌≡◌, refl}
use remote_pc_controller.Installer.{
  Effect, stop_signal, start_signal, delete_service, create_service, set_recovery, add_event_source,
  remove_event_source, remove_rule, add_rule, uninstall, install,
}
use remote_pc_controller.Installer.System.{
  Windows, IsWindows, unless_failed, changes_registered, changes_source, changes_rules, apply_all,
  IsInstalled, IsRemoved, uninstall-install,
}
use remote_pc_controller.Witnesses.Settings.{machine}

record Computer : Type 0 where
  service : Bool
  source : Bool
  ports : List ℕ

act : Effect → Computer → Computer
act delete_service s = record s { service = false }
act create_service s = record s { service = true }
act (add_event_source failure) s = record s { source = unless_failed failure s.source true }
act (remove_event_source failure) s = record s { source = unless_failed failure s.source false }
act (remove_rule failure) s = record s { ports = unless_failed failure s.ports [] }
act (add_rule p failure) s = record s { ports = unless_failed failure s.ports (p ∷ s.ports) }
act e s = s

abbrev computer : Windows Computer
computer = record {
  apply = act;
  registered = λ s. s.service;
  event_source = λ s. s.source;
  rules = λ s. s.ports;
}

act-service :
    (e : Effect) (s : Computer) → changes_registered e ≡ false → (act e s).service ≡ s.service
unfolding act
act-service stop_signal s h = refl
act-service start_signal s h = refl
act-service delete_service s h = absurd (cc h)
act-service create_service s h = absurd (cc h)
act-service (set_recovery x) s h = refl
act-service (add_event_source x) s h = refl
act-service (remove_event_source x) s h = refl
act-service (remove_rule x) s h = refl
act-service (add_rule p x) s h = refl

act-source : (e : Effect) (s : Computer) → changes_source e ≡ false → (act e s).source ≡ s.source
unfolding act
act-source stop_signal s h = refl
act-source start_signal s h = refl
act-source delete_service s h = refl
act-source create_service s h = refl
act-source (set_recovery x) s h = refl
act-source (add_event_source x) s h = absurd (cc h)
act-source (remove_event_source x) s h = absurd (cc h)
act-source (remove_rule x) s h = refl
act-source (add_rule p x) s h = refl

act-ports : (e : Effect) (s : Computer) → changes_rules e ≡ false → (act e s).ports ≡ s.ports
unfolding act
act-ports stop_signal s h = refl
act-ports start_signal s h = refl
act-ports delete_service s h = refl
act-ports create_service s h = refl
act-ports (set_recovery x) s h = refl
act-ports (add_event_source x) s h = refl
act-ports (remove_event_source x) s h = refl
act-ports (remove_rule x) s h = absurd (cc h)
act-ports (add_rule p x) s h = absurd (cc h)

computer-IsWindows : IsWindows computer
unfolding act
computer-IsWindows = record {
  created = λ s. refl;
  deleted = λ s. refl;
  registered_kept = act-service;
  source_added = λ x s. refl;
  source_removed = λ x s. refl;
  source_kept = act-source;
  rules_removed = λ x s. refl;
  rule_added = λ p x s. refl;
  rules_kept = act-ports;
}

-- A computer with two rules that were left behind.
abbrev used : Computer
used = record { service = true; source = false; ports = 80 ∷ 81 ∷ [] }

machine_installs : (install machine).0 ≡ none
unfolding install
machine_installs = refl

machine_uninstalls : (uninstall machine).0 ≡ none
unfolding uninstall
machine_uninstalls = refl

abbrev set_up : Computer
set_up = apply_all computer computer-IsWindows (install machine).1 used

uninstall-install_example :
    ((p : ℕ) × (1 ≤ p)
      × (p ≤ 65535)
      × IsInstalled computer computer-IsWindows machine p used set_up)
    × IsRemoved computer computer-IsWindows machine set_up
        (apply_all computer computer-IsWindows (uninstall machine).1 set_up)
uninstall-install_example =
    uninstall-install computer computer-IsWindows machine machine used machine_installs
      machine_uninstalls
