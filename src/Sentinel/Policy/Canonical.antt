-- ===== src/Sentinel/Policy/Canonical.antt =====
-- The signed text determines the command.
use mathlib.Core.List.{append_cancel_left}
use remote_pc_controller.Prelude.{ℕ, ◌+◌, ◌≡◌, refl, sym, ap, ◌∙◌, ◌∷◌, ◌++◌, arith}
use remote_pc_controller.Prelude.Bars.{bars, NoBar, bars-append, bars-NoBar, NoBar-bars, bar_cancel}
use remote_pc_controller.Prelude.Decimal.{show}
use remote_pc_controller.Prelude.Decimal.RoundTrip.{show-ne_bar, show-injective}
use remote_pc_controller.Prelude.Int.{IsInt64}
use remote_pc_controller.Prelude.Text.{Text}
use remote_pc_controller.Sentinel.Policy.{Command, canonical}

-- The numbers of a command are 64-bit integers.
pub record IsSized (c : Command) : Type 0 where
  pub version_sized : IsInt64 c.version
  pub issued_sized : IsInt64 c.issued_at
  pub expires_sized : IsInt64 c.expires_at

-- The fields of two commands are the same, but for the signature.
pub record SameFields (c d : Command) : Type 0 where
  pub version : c.version ≡ d.version
  pub command_id : c.command_id ≡ d.command_id
  pub device_id : c.device_id ≡ d.device_id
  pub action : c.action ≡ d.action
  pub issued_at : c.issued_at ≡ d.issued_at
  pub expires_at : c.expires_at ≡ d.expires_at
  pub nonce : c.nonce ≡ d.nonce

-- The texts of the fields, which the canonical text joins.
abbrev joined : Text → Text → Text → Text → Text → Text → Text → Text
joined v id dev act iss exp nonce =
    b'v'
    ∷ (v
        ++ b'|'
          ∷ (id ++ b'|' ∷ (dev ++ b'|' ∷ (act ++ b'|' ∷ (iss ++ b'|' ∷ (exp ++ b'|' ∷ nonce))))))

canonical-joined :
    (c : Command)
    → canonical c
      ≡ joined
          (show c.version)
          c.command_id
          c.device_id
          c.action
          (show c.issued_at)
          (show c.expires_at)
          c.nonce
unfolding canonical
canonical-joined c = refl

bars-joined :
    (v id dev act iss exp nonce : Text)
    → NoBar v
    → NoBar iss
    → NoBar exp
    → bars (joined v id dev act iss exp nonce) ≡ 6 + bars id + bars dev + bars act + bars nonce
bars-joined v id dev act iss exp nonce hv hi he =
    simp bars-append (omega (arith, bars-NoBar v hv, bars-NoBar iss hi, bars-NoBar exp he))

-- Behind the same first character, equal texts are equal.
tail_eq : {x : ℕ} {s t : Text} → x ∷ s ≡ x ∷ t → s ≡ t
tail_eq e = cc

bars-canonical :
    (c : Command)
    → bars (canonical c) ≡ 6 + bars c.command_id + bars c.device_id + bars c.action + bars c.nonce
bars-canonical c = rw canonical-joined (
    bars-joined _ _ _ _ _ _ _ (show-ne_bar c.version) (show-ne_bar c.issued_at)
      (show-ne_bar c.expires_at))

-- Two commands with 64-bit numbers, the same device and the same action, and the same canonical
-- text agree in every signed field, if the identifier and the nonce of the first hold no bar; the
-- second may hold any.
pub canonical-SameFields :
    (c d : Command)
    → IsSized c
    → IsSized d
    → NoBar c.command_id
    → NoBar c.nonce
    → c.device_id ≡ d.device_id
    → c.action ≡ d.action
    → canonical c ≡ canonical d
    → SameFields c d
canonical-SameFields c d sc sd id_c nonce_c device action e =
    let counts = ap bars e in
    let id_d = NoBar-bars d.command_id (
      omega (
        arith,
        counts,
        bars-canonical c,
        bars-canonical d,
        bars-NoBar c.command_id id_c,
        bars-NoBar c.nonce nonce_c,
        ap bars device,
        ap bars action,
      )) in
    let v =
      bar_cancel (show c.version) (show d.version) (show-ne_bar c.version) (show-ne_bar d.version)
        (tail_eq (sym (canonical-joined c) ∙ e ∙ canonical-joined d)) in
    let i = bar_cancel c.command_id d.command_id id_c id_d v.1 in
    let dev = append_cancel_left d.device_id _ _ (rw device at i.1) in
    let act = append_cancel_left d.action _ _ (rw action at (tail_eq dev)) in
    let iss =
      bar_cancel (show c.issued_at) (show d.issued_at) (show-ne_bar c.issued_at)
        (show-ne_bar d.issued_at) (tail_eq act) in
    let exp =
      bar_cancel (show c.expires_at) (show d.expires_at) (show-ne_bar c.expires_at)
        (show-ne_bar d.expires_at) iss.1 in
    record {
      version = show-injective _ _ sc.version_sized sd.version_sized v.0;
      command_id = i.0;
      device_id = device;
      action = action;
      issued_at = show-injective _ _ sc.issued_sized sd.issued_sized iss.0;
      expires_at = show-injective _ _ sc.expires_sized sd.expires_sized exp.0;
      nonce = exp.1;
    }
