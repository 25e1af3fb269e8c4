-- ===== src/Installer/System.antt =====
-- What the installer's commands leave behind on the computer. What Windows does for a call is a
-- parameter, with the documented behaviour as laws: a call that reports an error changes nothing, and
-- a service that is deleted is marked for deletion, and goes at some time, once the last handle to it
-- is closed: the model does not tell these two states apart.
use remote_pc_controller.Prelude.{
  ℕ, ◌≤◌, Bool, true, false, Option, none, some, List, [], ◌∷◌, ◌++◌, ◌≡◌, refl, ap, ◌∙◌, arith,
}
use remote_pc_controller.Prelude.Text.{Text}
use remote_pc_controller.Installer.{
  Effect, delete_service, create_service, set_recovery, add_event_source, remove_event_source,
  remove_rule, add_rule, Machine, uninstall, install, replaced, try_stop,
}
use remote_pc_controller.Installer.Waiting.{install_iff}

-- Windows, as far as the installer changes it: whether the service is registered and not marked for
-- deletion, whether the event log knows it as a source, and the ports of the firewall's rules with
-- its name.
pub record Windows (System : Type 0) : Type 0 where
  pub apply : Effect → System → System
  pub registered : System → Bool
  pub event_source : System → Bool
  pub rules : System → List ℕ

abbrev pub changes_registered : Effect → Bool
changes_registered create_service = true
changes_registered delete_service = true
changes_registered e = false

abbrev pub changes_source : Effect → Bool
changes_source (add_event_source failure) = true
changes_source (remove_event_source failure) = true
changes_source e = false

abbrev pub changes_rules : Effect → Bool
changes_rules (remove_rule failure) = true
changes_rules (add_rule p failure) = true
changes_rules e = false

-- What is left of `old` by a call that makes it `new` unless it fails.
abbrev pub unless_failed : {A : Type 0} → Option Text → A → A → A
unless_failed none old new = new
unless_failed (some e) old new = old

-- The documented behaviour: each call changes what it is for, and nothing else; `netsh` deletes
-- every rule with the name, and adds one without looking for others.
pub record IsWindows {System : Type 0} (w : Windows System) : Type 0 where
  pub created : (s : System) → w.registered (w.apply create_service s) ≡ true
  pub deleted : (s : System) → w.registered (w.apply delete_service s) ≡ false
  pub registered_kept :
      (e : Effect) (s : System)
      → changes_registered e ≡ false
      → w.registered (w.apply e s) ≡ w.registered s
  pub source_added :
      (failure : Option Text) (s : System)
      → w.event_source (w.apply (add_event_source failure) s)
        ≡ unless_failed failure (w.event_source s) true
  pub source_removed :
      (failure : Option Text) (s : System)
      → w.event_source (w.apply (remove_event_source failure) s)
        ≡ unless_failed failure (w.event_source s) false
  pub source_kept :
      (e : Effect) (s : System)
      → changes_source e ≡ false
      → w.event_source (w.apply e s) ≡ w.event_source s
  pub rules_removed :
      (failure : Option Text) (s : System)
      → w.rules (w.apply (remove_rule failure) s) ≡ unless_failed failure (w.rules s) []
  pub rule_added :
      (p : ℕ) (failure : Option Text) (s : System)
      → w.rules (w.apply (add_rule p failure) s) ≡ unless_failed failure (w.rules s) (p ∷ w.rules s)
  pub rules_kept :
      (e : Effect) (s : System) → changes_rules e ≡ false → w.rules (w.apply e s) ≡ w.rules s

module _ {System : Type 0} (w : Windows System) (laws : IsWindows w) where
  unfoldable pub apply_all : List Effect → System → System
  apply_all [] s = s
  apply_all (e ∷ es) s = apply_all es (w.apply e s)

  apply_all-append :
      (es fs : List Effect) (s : System) → apply_all (es ++ fs) s ≡ apply_all fs (apply_all es s)
  unfolding apply_all
  apply_all-append [] fs s = refl
  apply_all-append (e ∷ es) fs s = apply_all-append es fs (w.apply e s)

  -- Effects that say nothing of the source and the rules keep them.
  IsQuiet : List Effect → Type 0
  IsQuiet [] = Unit
  IsQuiet (e ∷ es) = (changes_source e ≡ false) × (changes_rules e ≡ false) × IsQuiet es

  IsQuiet-kept :
      (es : List Effect) (s : System)
      → IsQuiet es
      → (w.event_source (apply_all es s) ≡ w.event_source s)
        × (w.rules (apply_all es s) ≡ w.rules s)
  unfolding apply_all IsQuiet
  IsQuiet-kept [] s q = (refl, refl)
  IsQuiet-kept (e ∷ es) s (source, rule, q) =
      let (sources, rules) = IsQuiet-kept es (w.apply e s) q in
      (sources ∙ laws.source_kept e s source, rules ∙ laws.rules_kept e s rule)

  replaced-IsQuiet : (m : Machine) → IsQuiet (replaced m)
  unfolding replaced IsQuiet
  replaced-IsQuiet m = ground arith

  try_stop-IsQuiet : (m : Machine) → IsQuiet (try_stop m m.query)
  unfolding try_stop IsQuiet
  try_stop-IsQuiet m = ground arith

  -- What `install` leaves of a computer: the service is registered, the event log knows its source
  -- unless that call failed and it did not before, and the firewall has the rule for the port unless
  -- that call failed, and those from before only if their deletion failed.
  pub record IsInstalled (m : Machine) (p : ℕ) (s s' : System) : Type 0 where
    pub is_registered : w.registered s' ≡ true
    pub source : w.event_source s' ≡ unless_failed m.add_source (w.event_source s) true
    pub rule : w.rules s' ≡ (
        let left = unless_failed m.delete_rule (w.rules s) [] in
        unless_failed m.open_rule left (p ∷ left))

  -- What `uninstall` leaves: the service is marked for deletion, or gone already, and there is
  -- neither its source nor a rule unless the call for that failed.
  pub record IsRemoved (m : Machine) (s s' : System) : Type 0 where
    pub is_deleted : w.registered s' ≡ false
    pub source : w.event_source s' ≡ unless_failed m.remove_source (w.event_source s) false
    pub rule : w.rules s' ≡ unless_failed m.delete_rule (w.rules s) []

  created-IsInstalled :
      (m : Machine) (p : ℕ) (s s' : System)
      → (w.event_source s' ≡ w.event_source s) × (w.rules s' ≡ w.rules s)
      → IsInstalled m p s (
          apply_all
            (create_service
              ∷ set_recovery m.recovery
              ∷ add_event_source m.add_source
              ∷ remove_rule m.delete_rule
              ∷ add_rule p m.open_rule
              ∷ [])
            s')
  unfolding apply_all
  created-IsInstalled m p s s' (source, rules) = record {
    is_registered =
        laws.registered_kept _ _ refl
        ∙ laws.registered_kept _ _ refl
        ∙ laws.registered_kept _ _ refl
        ∙ laws.registered_kept _ _ refl
        ∙ laws.created s';
    source =
        laws.source_kept _ _ refl
        ∙ laws.source_kept _ _ refl
        ∙ laws.source_added m.add_source _
        ∙ ap (λ b. unless_failed m.add_source b true)
            (laws.source_kept _ _ refl ∙ laws.source_kept _ _ refl ∙ source);
    rule =
        laws.rule_added p m.open_rule _
        ∙ ap (λ ps. unless_failed m.open_rule ps (p ∷ ps))
            (laws.rules_removed m.delete_rule _
              ∙ ap (λ ps. unless_failed m.delete_rule ps [])
                  (laws.rules_kept _ _ refl
                    ∙ laws.rules_kept _ _ refl
                    ∙ laws.rules_kept _ _ refl
                    ∙ rules));
  }

  deleted-IsRemoved :
      (m : Machine) (s s' : System)
      → (w.event_source s' ≡ w.event_source s) × (w.rules s' ≡ w.rules s)
      → IsRemoved m s (
          apply_all
            (delete_service ∷ remove_event_source m.remove_source ∷ remove_rule m.delete_rule ∷ [])
            s')
  unfolding apply_all
  deleted-IsRemoved m s s' (source, rules) = record {
    is_deleted = laws.registered_kept _ _ refl ∙ laws.registered_kept _ _ refl ∙ laws.deleted s';
    source =
        laws.source_kept _ _ refl
        ∙ laws.source_removed m.remove_source _
        ∙ ap (λ b. unless_failed m.remove_source b false) (laws.source_kept _ _ refl ∙ source);
    rule =
        laws.rules_removed m.delete_rule _
        ∙ ap (λ ps. unless_failed m.delete_rule ps [])
            (laws.rules_kept _ _ refl ∙ laws.rules_kept _ _ refl ∙ rules);
  }

  install-IsInstalled :
      (m : Machine) (s : System)
      → (install m).0 ≡ none
      → (p : ℕ) × (1 ≤ p) × (p ≤ 65535) × IsInstalled m p s (apply_all (install m).1 s)
  install-IsInstalled m s h =
      let (_, _, _, _, _, (p, low, high, acts)) = (install_iff m).0 h in
      (
        p,
        low,
        high,
        rw (acts, apply_all-append (replaced m))
            (created-IsInstalled m p s (apply_all (replaced m) s)
              (IsQuiet-kept (replaced m) s (replaced-IsQuiet m))),
      )

  uninstall-effects :
      (m : Machine)
      → (uninstall m).0 ≡ none
      → (uninstall m).1
        ≡ try_stop m m.query
          ++ delete_service ∷ remove_event_source m.remove_source ∷ remove_rule m.delete_rule ∷ []
  unfolding uninstall
  uninstall-effects m h = ground arith

  uninstall-IsRemoved :
      (m : Machine) (s : System)
      → (uninstall m).0 ≡ none
      → IsRemoved m s (apply_all (uninstall m).1 s)
  uninstall-IsRemoved m s h =
      rw (uninstall-effects m h, apply_all-append (try_stop m m.query))
        (deleted-IsRemoved m s (apply_all (try_stop m m.query) s)
          (IsQuiet-kept (try_stop m m.query) s (try_stop-IsQuiet m)))

  -- If Windows does for each call what it is documented to do, and `install` and, with nothing in
  -- between, `uninstall` succeed, then on whatever computer, behind `install` the service is
  -- registered, its source of events is there unless that call failed, and its rules in the
  -- firewall are those that the dropped errors of its calls leave, for a port from 1 to 65535;
  -- behind `uninstall` the service is marked for deletion, or gone already, and the source and
  -- the rules are gone unless the call for it failed.
  pub uninstall-install :
      (m n : Machine) (s : System)
      → (install m).0 ≡ none
      → (uninstall n).0 ≡ none
      → ((p : ℕ) × (1 ≤ p) × (p ≤ 65535) × IsInstalled m p s (apply_all (install m).1 s))
        × IsRemoved n
            (apply_all (install m).1 s)
            (apply_all (uninstall n).1 (apply_all (install m).1 s))
  uninstall-install m n s h i =
      (install-IsInstalled m s h, uninstall-IsRemoved n (apply_all (install m).1 s) i)
