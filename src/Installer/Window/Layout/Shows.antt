-- ===== src/Installer/Window/Layout/Shows.antt =====
-- What the controls show, and that the state of the window has their handles.
use remote_pc_controller.Prelude.{
  ℕ, zero, suc, ◌<◌, Option, none, some, List, [], ◌∷◌, ◌≡◌, ◌≢◌, refl, sym, ◌∙◌, ◌==◌,
  if◌then◌else◌, length, arith,
}
use remote_pc_controller.Prelude.Dict.{Dict}
use remote_pc_controller.Prelude.Text.{Text}
use remote_pc_controller.Installer.Window.{Window}
use remote_pc_controller.Installer.Window.Launch as Launch
use remote_pc_controller.Installer.Window.Controls.{Control, Screen, utf16_ptr}
use remote_pc_controller.Installer.Window.Layout.{
  Fonts, Handles, create_controls, id_txt_port, id_txt_dev, id_txt_skew, id_txt_key, id_chk_fw,
  id_chk_notify, id_btn_install, id_btn_start, id_btn_stop, id_btn_uninstall,
}

-- The control with a handle.
unfoldable pub control_with : ℕ → List Control → Option Control
control_with handle [] = none
control_with handle (c ∷ cs) = if c.handle == handle then some c else control_with handle cs

control_at : ℕ → List Control → Option Control
control_at n [] = none
control_at zero (c ∷ cs) = some c
control_at (suc n) (c ∷ cs) = control_at n cs

module _ (handles : ℕ → ℕ) where
  -- Every control has the handle of its turn.
  IsNumbered : List Control → Type 0
  IsNumbered [] = Unit
  IsNumbered (c ∷ cs) = (c.handle ≡ handles (length cs)) × IsNumbered cs

  -- No two windows have the same handle.
  abbrev pub AreDistinct : Type 0
  AreDistinct = (i j : ℕ) → handles i ≡ handles j → i ≡ j

  earlier :
      (n : ℕ) (cs : List Control) (c : Control)
      → IsNumbered cs
      → control_at n cs ≡ some c
      → (k : ℕ) × (c.handle ≡ handles k) × (k < length cs)
  unfolding IsNumbered control_at
  earlier n [] c numbered h = absurd (cc h)
  earlier zero (d ∷ cs) c (own, numbered) h = (length cs, cc, omega arith)
  earlier (suc n) (d ∷ cs) c (own, numbered) h =
      let (k, same, less) = earlier n cs c numbered h in (k, same, omega arith)

  found :
      (n : ℕ) (cs : List Control) (c : Control)
      → AreDistinct
      → IsNumbered cs
      → control_at n cs ≡ some c
      → control_with c.handle cs ≡ some c
  unfolding IsNumbered control_at control_with
  found n [] c distinct numbered h = cc
  found zero (d ∷ cs) c distinct (own, numbered) h = let same : d ≡ c = cc in ground (arith, same)
  found (suc n) (d ∷ cs) c distinct (own, numbered) h =
      let (k, same, less) = earlier n cs c numbered h in
      let other : d.handle ≢ c.handle =
        λ e. omega (arith, distinct (length cs) k (sym own ∙ e ∙ same)) in
      ground (arith, other, found n cs c distinct numbered h)

-- The handle is that of a control with an identifier and a property.
abbrev Finds : ℕ → ℕ → List Control → (Control → Type 0) → Type 0
Finds handle id cs P = (c : Control) × (control_with handle cs ≡ some c) × (c.id ≡ id) × P c

-- A label, which has no identifier, with its text.
abbrev Labels : ℕ → List Control → Text → Type 0
Labels handle cs text = Finds handle 0 cs (λ c. c.text ≡ some text)

-- The controls behind the handles of the state have the texts, the marks and the limits that belong
-- to the window.
pub record IsShown (h : Handles) (cs : List Control) (w : Window) : Type 0 where
  pub port :
      Finds h.h_txt_port id_txt_port cs (λ c. (c.text ≡ utf16_ptr w.port) × (c.limit ≡ some 5))
  pub device :
      Finds h.h_txt_dev id_txt_dev cs (λ c. (c.text ≡ utf16_ptr w.device) × (c.limit ≡ none))
  pub skew :
      Finds h.h_txt_skew id_txt_skew cs (λ c. (c.text ≡ utf16_ptr w.skew) × (c.limit ≡ some 4))
  pub key : Finds h.h_txt_key id_txt_key cs (λ c. (c.text ≡ utf16_ptr w.key) × (c.limit ≡ none))
  pub firewall : Finds h.h_chk_fw id_chk_fw cs (λ c. c.checked ≡ w.firewall)
  pub notify : Finds h.h_chk_notify id_chk_notify cs (λ c. c.checked ≡ w.notify)
  pub status_pill : Labels h.h_status_pill cs w.status_pill
  pub port_status : Labels h.h_lbl_port_status cs w.port_status
  pub key_status : Labels h.h_lbl_key_status cs w.key_status
  pub log_line : Labels h.h_lbl_log cs w.log_line
  pub install : Finds h.h_btn_install id_btn_install cs (λ c. Unit)
  pub start : Finds h.h_btn_start id_btn_start cs (λ c. Unit)
  pub stop : Finds h.h_btn_stop id_btn_stop cs (λ c. Unit)
  pub uninstall : Finds h.h_btn_uninstall id_btn_uninstall cs (λ c. Unit)

module _ (hwnd : ℕ) (values : Dict Text) (f : Fonts) (handles : ℕ → ℕ) where
  abbrev made : Handles × Screen
  made = create_controls hwnd values f (record { handles = handles; controls = [] })

  made-IsNumbered : IsNumbered handles made.1.controls
  unfolding create_controls IsNumbered
  made-IsNumbered = (
    refl,
    (
      refl,
      (
        refl,
        (
          refl,
          (
            refl,
            (
              refl,
              (
                refl,
                (
                  refl,
                  (
                    refl,
                    (
                      refl,
                      (
                        refl,
                        (
                          refl,
                          (
                            refl,
                            (
                              refl,
                              (
                                refl,
                                (
                                  refl,
                                  (
                                    refl,
                                    (
                                      refl,
                                      (refl, (refl, (refl, (refl, (refl, (refl, (refl, tt))))))),
                                    ),
                                  ),
                                ),
                              ),
                            ),
                          ),
                        ),
                      ),
                    ),
                  ),
                ),
              ),
            ),
          ),
        ),
      ),
    ),
  )

  module _ (distinct : AreDistinct handles) where
    made_at :
        (n : ℕ) (c : Control)
        → control_at n made.1.controls ≡ some c
        → control_with c.handle made.1.controls ≡ some c
    made_at n c = found handles n made.1.controls c distinct made-IsNumbered

    -- If no two windows have the same handle, then behind every handle that `createControls`
    -- keeps in the state stands the control with its identifier, with the text, the mark, and the
    -- limit of the abstract window for the same values.
    pub create_controls-IsShown : IsShown made.0 made.1.controls (Launch.create_controls values)
    unfolding create_controls control_at Launch.create_controls
    create_controls-IsShown = record {
      log_line = (_, made_at 0 _ refl, refl, refl);
      uninstall = (_, made_at 1 _ refl, refl, tt);
      stop = (_, made_at 2 _ refl, refl, tt);
      start = (_, made_at 3 _ refl, refl, tt);
      install = (_, made_at 4 _ refl, refl, tt);
      key = (_, made_at 5 _ refl, refl, (refl, refl));
      key_status = (_, made_at 6 _ refl, refl, refl);
      notify = (_, made_at 10 _ refl, refl, refl);
      firewall = (_, made_at 11 _ refl, refl, refl);
      skew = (_, made_at 12 _ refl, refl, (refl, refl));
      device = (_, made_at 14 _ refl, refl, (refl, refl));
      port_status = (_, made_at 16 _ refl, refl, refl);
      port = (_, made_at 17 _ refl, refl, (refl, refl));
      status_pill = (_, made_at 20 _ refl, refl, refl);
    }
