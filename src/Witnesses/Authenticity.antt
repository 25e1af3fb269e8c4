-- ===== src/Witnesses/Authenticity.antt =====
-- A witness for the theorem on forged commands: a cryptography that verifies one text, which Relay
-- signed.
use remote_pc_controller.Prelude.{
  ℕ, true, Option, none, some, ◌≡◌, refl, sym, ◌∙◌, if◌then◌else◌, arith,
}
use remote_pc_controller.Prelude.Decimal.{show, show_ℕ, digits}
use remote_pc_controller.Prelude.Dict.{lookup}
use remote_pc_controller.Prelude.Int.{◌+ℤ◌, ◌-ℤ◌, neg, scale, floor_div, floor_mod, wrap64}
use remote_pc_controller.Prelude.Text.{Text, codes, equal, equal_iff}
use remote_pc_controller.Clock.{unix, to_unix, add, sub, saturate, before, after, nanos}
use remote_pc_controller.Errors.{ok}
use remote_pc_controller.Protocol.{transfer}
use remote_pc_controller.Protocol.Authentic.{Issue, IsIssue, IsUnforgeable, spawned-issued}
use remote_pc_controller.Relay.Command.{rsa_pss_signer}
use remote_pc_controller.Sentinel.Policy
use remote_pc_controller.Sentinel.Policy.{
  Crypto, validate, replay_until, validate_configuration, bad_window, out_of_time, check_signature,
  check_decoded, verified, canonical,
}
use remote_pc_controller.Sentinel.Policy.Canonical.{IsSized, SameFields}
use remote_pc_controller.Sentinel.Http.{value}
use remote_pc_controller.Sentinel.Http.Routes.{new_handler, new_handler_spawned_iff}
use remote_pc_controller.Sentinel.Replay.{claim}
use remote_pc_controller.Sentinel.Service.{accept}
use remote_pc_controller.Sentinel.Service.Once.{store_service}
use remote_pc_controller.Witnesses.{tiny_signing, relay_policy, sentinel_policy, sample_command}
use remote_pc_controller.Witnesses.Relaying.{relay_now, sample_request, signed, sample_built}
use remote_pc_controller.Witnesses.Requests.{idle, post, not_found, post_decodes}
use remote_pc_controller.Witnesses.Services.{sample_accepted}

abbrev issued_text : Text
issued_text = codes "v1|a1|pc|hibernate|1000|1030|n1"

abbrev ideal_verify : Option ℕ → Text → Text → Option Text
ideal_verify key d s = if equal d issued_text then none else some (codes "forged")

abbrev ideal_crypto : Crypto ℕ
ideal_crypto = record { decode_base64 = λ t. some t; sha256 = λ t. t; verify_pss = ideal_verify }

abbrev sample_issue : Issue
sample_issue = record {
  request = sample_request;
  now = relay_now;
  id = codes "a1";
  nonce = codes "n1";
  sign = rsa_pss_signer tiny_signing 7;
  command = signed;
}

abbrev WasSample : Issue → Type 0
WasSample i = i ≡ sample_issue

sample-IsIssue : IsIssue relay_policy sample_issue
sample-IsIssue = record {
  built = sample_built;
  sane = record {
    from_year_1 = ground arith;
    in_range = ground arith;
    nsec_in_range = ground arith;
  };
  id_NoBar = (ground arith, (ground arith, tt));
  nonce_NoBar = (ground arith, (ground arith, tt));
}

WasSample-IsIssue : (i : Issue) → WasSample i → IsIssue relay_policy i
WasSample-IsIssue i same = rw same sample-IsIssue

signed_text : canonical (transfer signed) ≡ issued_text
unfolding transfer canonical show show_ℕ digits
signed_text = refl

ideal-IsUnforgeable : IsUnforgeable ideal_crypto 7 WasSample
ideal-IsUnforgeable = record {
  signed_by = λ d s h.
      let same : d ≡ issued_text = ground (arith, h, equal_iff d issued_text) in
      (sample_issue, refl, rw same signed_text);
  collision_free = λ i t was h. h;
}

sample_accepts :
    (accept ideal_crypto
      (store_service sentinel_policy)
      post.context
      post.now
      sample_command
      idle).0
    ≡ ok sample_accepted
unfolding accept validate validate_configuration equal bad_window out_of_time after before unix sub
    add saturate nanos wrap64 ◌+ℤ◌ ◌-ℤ◌ scale floor_div floor_mod neg check_signature check_decoded
    verified canonical show show_ℕ digits claim lookup to_unix
sample_accepts = refl

handler_spawned :
    (new_handler ideal_crypto
      (store_service sentinel_policy)
      not_found
      true
      (codes "/v1/commands")
      post
      idle).0.spawned
    ≡ some sample_accepted
handler_spawned =
    (new_handler_spawned_iff ideal_crypto (store_service sentinel_policy) not_found true
        (codes "/v1/commands") post idle sample_accepted).1
      (refl, refl, refl, (sample_command, post_decodes, sample_accepts))

value-injective : {c d : Policy.Command} → value c ≡ value d → c ≡ d
value-injective h = cc

sample-IsSized : IsSized sample_command
sample-IsSized = record {
  version_sized = (ground arith, ground arith);
  issued_sized = (ground arith, ground arith);
  expires_sized = (ground arith, ground arith);
}

spawned-issued_example : (i : Issue) × WasSample i × SameFields (transfer i.command) sample_command
spawned-issued_example =
    spawned-issued ideal_crypto 7 WasSample relay_policy 30 sentinel_policy refl (ground arith) refl
      refl WasSample-IsIssue ideal-IsUnforgeable (store_service sentinel_policy) refl not_found true
      (codes "/v1/commands") post idle sample_accepted
      (λ c h. rw (value-injective (sym h ∙ post_decodes)) sample-IsSized) handler_spawned
