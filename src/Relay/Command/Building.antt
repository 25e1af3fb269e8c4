-- ===== src/Relay/Command/Building.antt =====
-- What `Build` puts into a command, and when it fails.
use remote_pc_controller.Prelude.{none, [], ◌≡◌, ◌≢◌, ◌↔◌, refl, inl, inr, Option-cases, arith}
use remote_pc_controller.Prelude.Int.{pos, ◌<ℤ◌}
use remote_pc_controller.Prelude.Text.{Text, codes, equal_iff}
use remote_pc_controller.Clock.{Time}
use remote_pc_controller.Errors.{Result, ok, err, and_then, with_prefix}
use remote_pc_controller.Relay.Command.{
  Policy, Request, Command, RelayError, action_hibernate, canonical, validate, unsigned,
  build_checked, build,
}

-- A request that the policy lets through.
pub record IsAllowed (p : Policy) (r : Request) : Type 0 where
  pub device_ne_nil : p.device_id ≢ []
  pub for_device : r.device_id ≡ p.device_id
  pub hibernates : r.action ≡ action_hibernate
  pub validity_pos : pos 0 <ℤ p.max_validity

validate_iff :
    (p : Policy) (r : Request)
    → (validate p r ≡ none)
      ↔ ((p.device_id ≢ []) × (r.device_id ≡ p.device_id) × (r.action ≡ action_hibernate))
unfolding validate
validate_iff p r =
    let device = equal_iff r.device_id p.device_id in
    let action = equal_iff r.action action_hibernate in
    (ground (arith, device, action), ground (arith, device, action))

module _ (p : Policy) (r : Request) (now : Time) (sign : Text → Result RelayError Text)
    (c : Command) where
  -- The command carries what the generators and the signer return.
  abbrev pub IsMade : Result RelayError Text → Result RelayError Text → Type 0
  IsMade id nonce =
      (i n s : Text) × (id ≡ ok i)
      × (nonce ≡ ok n)
      × (sign (canonical (unsigned p r now i n)) ≡ ok s)
      × (c ≡ record (unsigned p r now i n) { signature = s })

  signed-IsMade :
      (i n : Text) (x : Result RelayError Text)
      → sign (canonical (unsigned p r now i n)) ≡ x
      → and_then
          (with_prefix (codes "sign command") x)
          (λ s. ok (record (unsigned p r now i n) { signature = s }))
        ≡ ok c
      → IsMade (ok i) (ok n)
  signed-IsMade i n (ok s) q h = (i, n, s, refl, refl, q, ground arith)
  signed-IsMade i n (err e) q h = cc

  build_checked-IsMade :
      (id nonce : Result RelayError Text)
      → build_checked p r now id nonce sign ≡ ok c
      → IsMade id nonce
  unfolding build_checked
  build_checked-IsMade (ok i) (ok n) h =
      signed-IsMade i n (sign (canonical (unsigned p r now i n))) refl h
  build_checked-IsMade (ok i) (err e) h = cc
  build_checked-IsMade (err e) nonce h = cc

  build_of_made :
      (id nonce : Result RelayError Text)
      → IsMade id nonce
      → build_checked p r now id nonce sign ≡ ok c
  unfolding build_checked
  build_of_made id nonce (i, n, s, hi, hn, hs, hc) = rw (hi, hn, hs, hc)

  pub build_iff :
      (id nonce : Result RelayError Text)
      → (build p r now id nonce sign ≡ ok c) ↔ (IsAllowed p r × IsMade id nonce)
  unfolding build
  build_iff id nonce = (there, back)
    where
      there : build p r now id nonce sign ≡ ok c → IsAllowed p r × IsMade id nonce
      there h = elim (Option-cases (validate p r)) [
        | inr (e, bad) ↦ absurd (ground arith)
        | inl fine ↦
            let (device, same, action) = (validate_iff p r).0 fine in
            (
              record {
                device_ne_nil = device;
                for_device = same;
                hibernates = action;
                validity_pos = ground arith;
              },
              build_checked-IsMade id nonce (ground arith),
            )
      ]

      back : IsAllowed p r × IsMade id nonce → build p r now id nonce sign ≡ ok c
      back (a, made) =
          let fine = (validate_iff p r).1 (a.device_ne_nil, a.for_device, a.hibernates) in
          let made' = build_of_made id nonce made in ground (arith, fine, made', a.validity_pos)
