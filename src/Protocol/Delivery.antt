-- ===== src/Protocol/Delivery.antt =====
-- A command that Relay builds is accepted by a Sentinel with the same device, the public key to
-- Relay's private key, and a clock that agrees with Relay's.
use remote_pc_controller.Prelude.{ℕ, ◌*◌, ◌≤◌, none, some, [], ◌≡◌, ◌≢◌, refl, ap, ◌∙◌, arith}
use remote_pc_controller.Prelude.Int.{pos, ◌+ℤ◌, ◌≤ℤ◌, ◌<ℤ◌, pos_part, neg_part}
use remote_pc_controller.Prelude.Text.{Text}
use remote_pc_controller.Clock.{Time, second, max_int64}
use remote_pc_controller.Clock.Laws.{time_laws}
use remote_pc_controller.Errors.{Result, ok, err, and_then}
use remote_pc_controller.Protocol.{transfer, canonical-transfer, IsMatched}
use remote_pc_controller.Protocol.Timing.{
  IsSane, issued_nanos, built_issued, built_expires, built_in_range,
}
use remote_pc_controller.Relay.Command
use remote_pc_controller.Relay.Command.{
  RelayError, Signing, truncate_second, unsigned, rsa_pss_signer, build,
}
use remote_pc_controller.Relay.Command.Building.{IsAllowed, build_iff}
use remote_pc_controller.Sentinel.Policy
use remote_pc_controller.Sentinel.Policy.{Crypto, default_max_validity, validate}
use remote_pc_controller.Sentinel.Policy.Validation.{
  IsSigned, IsConfigured, validate_iff-IsAdmissible,
}
use remote_pc_controller.Sentinel.Policy.Window.{InRange, IsTimely, unix_nanos}

module _ {PrivateKey PublicKey : Type 0} (signing : Signing PrivateKey) (crypto : Crypto PublicKey)
    (private : PrivateKey) (public : PublicKey) where
  -- Relay's policy with `k` seconds of validity, and Sentinel's, are set up for one another.
  pub record IsPaired (rp : Command.Policy) (k : ℕ) (sp : Policy.Policy PublicKey) : Type 0 where
    pub validity_is : rp.max_validity ≡ pos (k * second)
    pub validity_short : k ≤ 300
    pub sentinel_validity : sp.max_validity ≡ default_max_validity
    pub same_device : rp.device_id ≡ sp.device_id
    pub key_is : sp.public_key ≡ some public
    pub skew_nonneg : pos 0 ≤ℤ sp.clock_skew
    pub skew_in_range : sp.clock_skew ≤ℤ max_int64

  -- Sentinel's clock lies between Relay's full second and the command's end, up to the skew.
  pub record IsInTime (now : Time) (k : ℕ) (sp : Policy.Policy PublicKey) (now' : Time)
      : Type 0 where
    pub relay_sane : IsSane now
    pub sentinel_sane : IsSane now'
    pub not_early : issued_nanos now ≤ℤ unix_nanos now' +ℤ sp.clock_skew
    pub not_late : unix_nanos now' ≤ℤ issued_nanos now +ℤ pos (k * second) +ℤ sp.clock_skew

  module _ (matched : IsMatched signing crypto private public) (rp : Command.Policy)
      (r : Command.Request) (now : Time) (k : ℕ) (sp : Policy.Policy PublicKey) (now' : Time)
      (paired : IsPaired rp k sp) (clocks : IsInTime now k sp now') where
    build-IsSigned :
        (i n s : Text)
        → rsa_pss_signer signing private (Command.canonical (unsigned rp r now i n)) ≡ ok s
        → IsSigned crypto sp (transfer (record (unsigned rp r now i n) { signature = s }))
    build-IsSigned i n s h =
        let text = Command.canonical (unsigned rp r now i n) in
        go (signing.sign_pss private (signing.sha256 text)) refl (unfold rsa_pss_signer in h)
      where
        go :
            (x : Result RelayError Text)
            → signing.sign_pss private (signing.sha256 (Command.canonical (unsigned rp r now i n)))
              ≡ x
            → and_then x (λ b. ok (signing.encode_base64 b)) ≡ ok s
            → IsSigned crypto sp (transfer (record (unsigned rp r now i n) { signature = s }))
        go (ok b) q h =
            let encoded : signing.encode_base64 b ≡ s = ground arith in
            let c : Command.Command = record (unsigned rp r now i n) { signature = s } in
            let text = Command.canonical (unsigned rp r now i n) in
            let unsigned_text : Command.canonical c ≡ text = unfold Command.canonical in refl in
            (
              b,
              unfold transfer in rw (← encoded) (matched.decodes b),
              rw (paired.key_is, canonical-transfer c, unsigned_text, ← matched.same_hash text)
                  (matched.verifies (signing.sha256 text) b q),
            )
        go (err e) q h = cc

    build-IsTimely :
        (i n s : Text)
        → pos 0 <ℤ rp.max_validity
        → InRange sp (transfer (record (unsigned rp r now i n) { signature = s })) now'
          × IsTimely sp (transfer (record (unsigned rp r now i n) { signature = s })) now'
    unfolding transfer unsigned
    build-IsTimely i n s h =
        let relay = clocks.relay_sane in
        let sentinel = clocks.sentinel_sane in
        let short = paired.validity_short in
        let sized = built_in_range now k relay short in
        let issued = built_issued now k relay short in
        let expires = built_expires now k relay short in
        let validity = ap pos_part paired.sentinel_validity in
        let no_debt = ap neg_part paired.sentinel_validity in
        let relay_validity = ap pos_part paired.validity_is in
        let relay_no_debt = ap neg_part paired.validity_is in
        rw paired.validity_is (
          record {
            issued_in_range = sized.0;
            expires_in_range = sized.1;
            skew_nonneg = paired.skew_nonneg;
            skew_in_range = paired.skew_in_range;
            validity_from = omega time_laws;
            validity_in_range = omega time_laws;
            now_from_year_1 = sentinel.from_year_1;
            now_in_range = sentinel.in_range;
            now_nsec = sentinel.nsec_in_range;
          },
          record {
            ordered = omega time_laws;
            short = omega time_laws;
            not_early = omega (time_laws, clocks.not_early);
            not_late = omega (time_laws, clocks.not_late);
          },
        )

    IsPaired-IsConfigured : IsAllowed rp r → IsConfigured sp
    IsPaired-IsConfigured allowed = record {
      device_ne_nil = λ e. allowed.device_ne_nil (paired.same_device ∙ e);
      key_ne_none = λ e. cc (paired.key_is);
      skew_nonneg = paired.skew_nonneg;
      validity_pos = rw paired.sentinel_validity (omega arith);
    }

    -- If the two programs' cryptography and configuration fit together (same hash and device, a
    -- validity of whole seconds up to 300 on Relay, the default maximum on Sentinel, a skew that
    -- is a duration), the clocks are sane and Sentinel's lies in the command's window up to the
    -- skew, then every command that Relay's `Build` returns with a non-empty identifier and nonce
    -- passes Sentinel's `Validate`.
    pub build_validates :
        (id nonce : Result RelayError Text) (c : Command.Command)
        → build rp r now id nonce (rsa_pss_signer signing private) ≡ ok c
        → c.command_id ≢ []
        → c.nonce ≢ []
        → validate crypto sp (transfer c) now' ≡ none
    build_validates id nonce c built id_ne nonce_ne =
        let (allowed, made) =
          (build_iff rp r now (rsa_pss_signer signing private) c id nonce).0 built in
        let (i, n, s, hi, hn, hs, hc) = made in
        let c' : Command.Command = record (unsigned rp r now i n) { signature = s } in
        let (sizes, timely) = build-IsTimely i n s allowed.validity_pos in
        let same_id : c.command_id ≡ i =
          ap (λ (x : Command.Command). x.command_id) hc ∙ unfold unsigned in refl in
        let same_nonce : c.nonce ≡ n =
          ap (λ (x : Command.Command). x.nonce) hc ∙ unfold unsigned in refl in
        rw hc (
          (validate_iff-IsAdmissible crypto sp (transfer c') now' sizes).1 (record {
            configured = IsPaired-IsConfigured allowed;
            fields =
                unfold transfer unsigned in
                record {
                  version_is = refl;
                  id_ne_nil = λ e. id_ne (same_id ∙ e);
                  nonce_ne_nil = λ e. nonce_ne (same_nonce ∙ e);
                };
            for_device = unfold transfer unsigned in allowed.for_device ∙ paired.same_device;
            hibernates = unfold transfer unsigned in allowed.hibernates;
            timely = timely;
            signed = build-IsSigned i n s hs;
          }))
