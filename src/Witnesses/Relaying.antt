-- ===== src/Witnesses/Relaying.antt =====
-- Witnesses for the theorems on Relay, and on the two programs together.
use remote_pc_controller.Prelude.{◌*◌, true, none, some, ◌∷◌, ◌≡◌, ◌↔◌, refl, arith}
use remote_pc_controller.Prelude.Int.{pos, ◌+ℤ◌, ◌-ℤ◌, scale, wrap64, floor_div, floor_mod}
use remote_pc_controller.Prelude.Text.{Text, codes, equal, equal_self}
use remote_pc_controller.Prelude.Decimal.{show, show_ℕ, digits}
use remote_pc_controller.Clock.{Time, second, to_unix, add, saturate, nanos}
use remote_pc_controller.Errors.{ok}
use remote_pc_controller.Relay.Command
use remote_pc_controller.Relay.Command.{
  RelayError, truncate_second, unsigned, rsa_pss_signer, build, bearer_token,
}
use remote_pc_controller.Relay.Command.Building.{IsAllowed}
use remote_pc_controller.Relay.Command.Contents.{Carries, build-Carries}
use remote_pc_controller.Relay.Service.{Environment}
use remote_pc_controller.Relay.Http.{Request, value, eof}
use remote_pc_controller.Relay.Http.Responses.{Delivers}
use remote_pc_controller.Relay.Http.{Response, plain}
use remote_pc_controller.Relay.Http.Routes.{new_handler, new_handler_created_iff}
use remote_pc_controller.Protocol.{transfer, IsMatched}
use remote_pc_controller.Protocol.Timing.{issued_nanos}
use remote_pc_controller.Protocol.Delivery.{IsPaired, IsInTime, build_validates}
use remote_pc_controller.Sentinel.Policy.{validate}
use remote_pc_controller.Sentinel.Policy.Window.{unix_nanos}
use remote_pc_controller.Witnesses.{
  tiny_crypto, tiny_signing, relay_policy, sentinel_policy, sample_now,
}

abbrev pub relay_now : Time
relay_now = record { sec = pos 62135597800; nsec = 5 }

abbrev pub sample_request : Command.Request
sample_request = record { device_id = codes "pc"; action = codes "hibernate" }

abbrev pub signed : Command.Command
signed = record {
  version = pos 1;
  command_id = codes "a1";
  device_id = codes "pc";
  action = codes "hibernate";
  issued_at = pos 1000;
  expires_at = pos 1030;
  nonce = codes "n1";
  signature = 7 ∷ codes "v1|a1|pc|hibernate|1000|1030|n1";
}

pub tiny-IsMatched : IsMatched tiny_signing tiny_crypto 7 7
unfolding equal
tiny-IsMatched = record {
  same_hash = λ t. refl;
  decodes = λ b. refl;
  verifies = λ d b h. let same : 7 ∷ d ≡ b = ground arith in rw (← same, equal_self (7 ∷ d)) refl;
}

pub sample-IsPaired : IsPaired tiny_signing tiny_crypto 7 7 relay_policy 30 sentinel_policy
sample-IsPaired = record {
  validity_is = refl;
  validity_short = ground arith;
  sentinel_validity = refl;
  same_device = refl;
  key_is = refl;
  skew_nonneg = ground arith;
  skew_in_range = ground arith;
}

relay_issued : issued_nanos relay_now ≡ pos (1000 * second)
unfolding truncate_second nanos scale ◌+ℤ◌ ◌-ℤ◌
relay_issued = refl

sample_nanos : unix_nanos sample_now ≡ pos (1010 * second)
unfolding nanos scale ◌+ℤ◌ ◌-ℤ◌
sample_nanos = refl

pub sample-IsInTime : IsInTime tiny_signing tiny_crypto 7 7 relay_now 30 sentinel_policy sample_now
unfolding ◌+ℤ◌
sample-IsInTime = record {
  relay_sane = record {
    from_year_1 = ground arith;
    in_range = ground arith;
    nsec_in_range = ground arith;
  };
  sentinel_sane = record {
    from_year_1 = ground arith;
    in_range = ground arith;
    nsec_in_range = ground arith;
  };
  not_early = rw (relay_issued, sample_nanos) (ground arith);
  not_late = rw (relay_issued, sample_nanos) (ground arith);
}

pub sample_built :
    build relay_policy sample_request relay_now
      (ok (codes "a1"))
      (ok (codes "n1"))
      (rsa_pss_signer tiny_signing 7)
    ≡ ok signed
unfolding build Command.validate equal Command.build_checked unsigned truncate_second to_unix add
    saturate wrap64 ◌+ℤ◌ ◌-ℤ◌ floor_div floor_mod rsa_pss_signer Command.canonical show show_ℕ
    digits
sample_built = refl

build_validates_example : validate tiny_crypto sentinel_policy (transfer signed) sample_now ≡ none
build_validates_example =
    build_validates tiny_signing tiny_crypto 7 7 tiny-IsMatched relay_policy sample_request
      relay_now 30 sentinel_policy sample_now sample-IsPaired sample-IsInTime (ok (codes "a1"))
      (ok (codes "n1")) signed sample_built (λ h. cc) (λ h. cc)

build-Carries_example :
    (build relay_policy sample_request relay_now
        (ok (codes "a1"))
        (ok (codes "n1"))
        (rsa_pss_signer tiny_signing 7)
      ≡ ok signed)
    ↔ (IsAllowed relay_policy sample_request
        × Carries relay_policy relay_now
            (ok (codes "a1"))
            (ok (codes "n1"))
            (rsa_pss_signer tiny_signing 7)
            signed)
build-Carries_example =
    build-Carries relay_policy sample_request relay_now (ok (codes "a1")) (ok (codes "n1"))
      (rsa_pss_signer tiny_signing 7) signed

abbrev pub sample_environment : Environment
sample_environment = record {
  context = none;
  now = relay_now;
  id = ok (codes "a1");
  nonce = ok (codes "n1");
  sign = rsa_pss_signer tiny_signing 7;
  deliver = λ c. none;
}

abbrev pub sample_post : Request
sample_post = record {
  method = codes "POST";
  authorization = codes "Bearer key";
  first = value sample_request;
  second = some eof;
}

abbrev not_found : Text → Response
not_found path = record { status = 404; body = plain (codes "404 page not found\n") }

new_handler_created_iff_example :
    ((new_handler not_found
        (codes "key")
        relay_policy
        sample_environment
        (codes "/v1/commands")
        sample_post).status
      ≡ 202)
    ↔ ((codes "/v1/commands" ≡ codes "/v1/commands")
        × (sample_post.method ≡ codes "POST")
        × (bearer_token sample_post.authorization (codes "key") ≡ true)
        × Delivers relay_policy sample_environment sample_post.first sample_post.second)
new_handler_created_iff_example =
    new_handler_created_iff not_found (codes "key") relay_policy sample_environment
      (codes "/v1/commands") sample_post (λ other h. omega (arith, h))
