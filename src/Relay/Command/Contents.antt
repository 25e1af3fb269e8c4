-- ===== src/Relay/Command/Contents.antt =====
-- The fields of a command that `Build` returns, one by one.
use remote_pc_controller.Prelude.{◌∷◌, ◌++◌, ◌≡◌, ◌↔◌, refl, sym, ap, ◌∙◌}
use remote_pc_controller.Prelude.Int.{pos}
use remote_pc_controller.Prelude.Text.{Text, codes}
use remote_pc_controller.Prelude.Decimal.{show}
use remote_pc_controller.Clock.{Time, to_unix, add}
use remote_pc_controller.Errors.{Result, ok}
use remote_pc_controller.Relay.Command.{
  Policy, Request, Command, RelayError, canonical, truncate_second, unsigned, build,
}
use remote_pc_controller.Relay.Command.Building.{IsAllowed, build_iff}

-- The text that the signature of a command is for: its other fields, with bars between them.
abbrev pub signed_text : Command → Text
signed_text c =
    b'v'
    ∷ (show c.version
        ++ b'|'
          ∷ (c.command_id
              ++ b'|'
                ∷ (c.device_id
                    ++ b'|'
                      ∷ (c.action
                          ++ b'|'
                            ∷ (show c.issued_at ++ b'|' ∷ (show c.expires_at ++ b'|' ∷ c.nonce))))))

-- The full second of a time.
abbrev pub full_second : Time → Time
full_second t = record { sec = t.sec; nsec = 0 }

-- What a command carries: the version of the protocol, what the generators return, the policy's
-- device, the one action, the clock's full second and the end of the policy's validity behind it, and
-- the signature of all that.
pub record Carries (p : Policy) (now : Time) (made_id made_nonce : Result RelayError Text)
    (sign : Text → Result RelayError Text) (c : Command) : Type 0 where
  pub version : c.version ≡ pos 1
  pub command_id : made_id ≡ ok c.command_id
  pub device_id : c.device_id ≡ p.device_id
  pub action : c.action ≡ codes "hibernate"
  pub issued_at : c.issued_at ≡ to_unix (full_second now)
  pub expires_at : c.expires_at ≡ to_unix (add (full_second now) p.max_validity)
  pub nonce : made_nonce ≡ ok c.nonce
  pub signature : sign (signed_text c) ≡ ok c.signature

canonical-signed_text : (c : Command) → canonical c ≡ signed_text c
unfolding canonical
canonical-signed_text c = refl

module _ (p : Policy) (r : Request) (now : Time) (id nonce : Result RelayError Text)
    (sign : Text → Result RelayError Text) (c : Command) where
  built-Carries : build p r now id nonce sign ≡ ok c → Carries p now id nonce sign c
  unfolding unsigned truncate_second canonical
  built-Carries h =
      let (allowed, (i, n, s, id_is, nonce_is, signed, same)) =
        (build_iff p r now sign c id nonce).0 h in
      rw same (record {
        version = refl;
        command_id = id_is;
        device_id = allowed.for_device;
        action = allowed.hibernates;
        issued_at = refl;
        expires_at = refl;
        nonce = nonce_is;
        signature = signed;
      })

  Carries-built : IsAllowed p r → Carries p now id nonce sign c → build p r now id nonce sign ≡ ok c
  unfolding unsigned truncate_second canonical
  Carries-built allowed made =
      let device = made.device_id ∙ sym allowed.for_device in
      let action = made.action ∙ sym allowed.hibernates in
      let same : c ≡ record (unsigned p r now c.command_id c.nonce) { signature = c.signature } =
        λ i. record c {
          version = made.version i;
          device_id = device i;
          action = action i;
          issued_at = made.issued_at i;
          expires_at = made.expires_at i;
        } in
      let signed : sign (canonical (unsigned p r now c.command_id c.nonce)) ≡ ok c.signature =
        ap (λ x. sign (signed_text x)) (sym same) ∙ made.signature in
      (build_iff p r now sign c id nonce).1
        (allowed, (c.command_id, c.nonce, c.signature, made.command_id, made.nonce, signed, same))

  -- `Build` returns a command exactly if the request is allowed, and each field of the command is
  -- what it should be: the identifier and the nonce are those of their generators, the command is
  -- issued at the clock's full second and expires when the policy's validity behind it is over,
  -- and the signer signs, for its signature, the text of these fields.
  pub build-Carries :
      (build p r now id nonce sign ≡ ok c) ↔ (IsAllowed p r × Carries p now id nonce sign c)
  build-Carries = (
    λ h. (((build_iff p r now sign c id nonce).0 h).0, built-Carries h),
    λ h. Carries-built h.0 h.1,
  )
