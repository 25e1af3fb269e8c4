-- ===== src/Witnesses/Exchanges.antt =====
-- Witnesses for the theorems on a request to Relay and both programs' answers. The wire writes the
-- fields of a command one behind the other, with a zero at the end of a text.
use remote_pc_controller.Prelude.{
  zero, suc, none, some, [], ◌∷◌, ◌≡◌, refl, ap, if◌then◌else◌, false,
}
use remote_pc_controller.Prelude.Int.{ℤ, pos, negsuc}
use remote_pc_controller.Prelude.Text.{Text, codes, equal, trim_space}
use remote_pc_controller.Errors.{ok}
use remote_pc_controller.Protocol.{transfer}
use remote_pc_controller.Protocol.Exchange.{arrives, Wire, IsFaithful, Arrival, sent, exchange}
use remote_pc_controller.Protocol.Exchange.Sent.{Makes}
use remote_pc_controller.Protocol.Exchange.Accepted.{accepted_command, exchange-accepted}
use remote_pc_controller.Protocol.Exchange.Hibernates.{IsUndisturbed, IsFresh, exchange-hibernates}
use remote_pc_controller.Relay.Command as RelayCommand
use remote_pc_controller.Relay.Command.{bearer_token}
use remote_pc_controller.Relay.Service.{create}
use remote_pc_controller.Prelude.Dict.{lookup}
use remote_pc_controller.Sentinel.Http as SentinelHttp
use remote_pc_controller.Sentinel.Http.{run_task}
use remote_pc_controller.Sentinel.Service.{accept}
use remote_pc_controller.Sentinel.Service.Once.{store_service}
use remote_pc_controller.Sentinel.Service.Close.{live}
use remote_pc_controller.Witnesses.{
  tiny_crypto, tiny_signing, relay_policy, sentinel_policy, sample_now,
}
use remote_pc_controller.Witnesses.Relaying.{
  signed, sample_environment, sample_post, tiny-IsMatched, sample-IsPaired, sample-IsInTime,
  sample_built,
}
use remote_pc_controller.Witnesses.Requests.{idle}

put_text : Text → Text → Text
put_text [] t = 0 ∷ t
put_text (c ∷ s) t = suc c ∷ put_text s t

get_text : Text → Text × Text
get_text [] = ([], [])
get_text (zero ∷ t) = ([], t)
get_text (suc c ∷ t) = let r = get_text t in (c ∷ r.0, r.1)

get_text-put_text : (s t : Text) → get_text (put_text s t) ≡ (s, t)
unfolding get_text put_text
get_text-put_text [] t = refl
get_text-put_text (c ∷ s) t = ap (λ r. (c ∷ r.0, r.1)) (get_text-put_text s t)

put_int : ℤ → Text → Text
put_int (pos n) t = 0 ∷ n ∷ t
put_int (negsuc n) t = 1 ∷ n ∷ t

get_int : Text → ℤ × Text
get_int (zero ∷ n ∷ t) = (pos n, t)
get_int (suc k ∷ n ∷ t) = (negsuc n, t)
get_int t = (pos 0, t)

get_int-put_int : (a : ℤ) (t : Text) → get_int (put_int a t) ≡ (a, t)
unfolding get_int put_int
get_int-put_int (pos n) t = refl
get_int-put_int (negsuc n) t = refl

put_command : RelayCommand.Command → Text
unfolding put_text put_int
put_command c = put_int c.version (
    put_text c.command_id (
      put_text c.device_id (
        put_text c.action (
          put_int c.issued_at
            (put_int c.expires_at (put_text c.nonce (put_text c.signature [])))))))

get_command : Text → RelayCommand.Command
get_command t =
    let version = get_int t in
    let command_id = get_text version.1 in
    let device_id = get_text command_id.1 in
    let action = get_text device_id.1 in
    let issued_at = get_int action.1 in
    let expires_at = get_int issued_at.1 in
    let nonce = get_text expires_at.1 in
    let signature = get_text nonce.1 in
    record {
      version = version.0;
      command_id = command_id.0;
      device_id = device_id.0;
      action = action.0;
      issued_at = issued_at.0;
      expires_at = expires_at.0;
      nonce = nonce.0;
      signature = signature.0;
    }

get_command-put_command : (c : RelayCommand.Command) → get_command (put_command c) ≡ c
unfolding get_command put_command
get_command-put_command c = simp (get_int-put_int, get_text-put_text) refl

abbrev plain_wire : Wire
plain_wire = record {
  encode = λ c. ok (put_command c);
  request_error = none;
  decode = λ t. (SentinelHttp.value (transfer (get_command t)), some SentinelHttp.eof);
}

plain-IsFaithful : IsFaithful plain_wire
plain-IsFaithful = record {
  reads =
      λ c body h. let same : put_command c ≡ body = cc in rw (← same, get_command-put_command) refl;
}

abbrev quiet : Arrival
quiet = record { trip = arrives; context = live; now = sample_now; write_fails = false }

sample-Makes : Makes (codes "key") relay_policy sample_environment sample_post signed
unfolding bearer_token trim_space equal create
sample-Makes = (refl, refl, (_, refl, refl, sample_built))

quiet-IsUndisturbed : IsUndisturbed plain_wire quiet signed
quiet-IsUndisturbed = record {
  encoded = (put_command signed, refl);
  requested = refl;
  arrived = refl;
  accept_live = refl;
  claim_live = refl;
  written = refl;
}

idle-IsFresh : IsFresh idle.storage signed
unfolding lookup
idle-IsFresh = record { id_fresh = refl; nonce_fresh = refl }

exchange-hibernates_example :
    ((exchange tiny_crypto sentinel_policy plain_wire
        (codes "key")
        relay_policy
        sample_environment
        sample_post
        quiet
        idle).response.status
      ≡ 202)
    × ((exchange tiny_crypto sentinel_policy plain_wire
          (codes "key")
          relay_policy
          sample_environment
          sample_post
          quiet
          idle).spawned
        ≡ some (accepted_command signed))
    × ((run_task none
          (accepted_command signed)
          (exchange tiny_crypto sentinel_policy plain_wire
            (codes "key")
            relay_policy
            sample_environment
            sample_post
            quiet
            idle).world).hibernations
        ≡ suc idle.hibernations)
exchange-hibernates_example =
    exchange-hibernates tiny_signing tiny_crypto 7 7 tiny-IsMatched plain_wire (codes "key")
      relay_policy 30 sentinel_policy sample_environment sample_post quiet idle signed
      plain-IsFaithful sample-IsPaired sample-IsInTime refl sample-Makes (λ h. cc) (λ h. cc)
      idle-IsFresh quiet-IsUndisturbed

exchange-accepted_example :
    (c : RelayCommand.Command) × (sent (codes "key") relay_policy sample_environment sample_post
      ≡ some c)
    × ((accept tiny_crypto
          (store_service sentinel_policy)
          quiet.context
          quiet.now
          (transfer c)
          idle).0
        ≡ ok (accepted_command c))
    × ((exchange tiny_crypto sentinel_policy plain_wire
          (codes "key")
          relay_policy
          sample_environment
          sample_post
          quiet
          idle).spawned
        ≡ (if quiet.write_fails then none else some (accepted_command c)))
    × ((exchange tiny_crypto sentinel_policy plain_wire
          (codes "key")
          relay_policy
          sample_environment
          sample_post
          quiet
          idle).world
        ≡ (accept tiny_crypto
            (store_service sentinel_policy)
            quiet.context
            quiet.now
            (transfer c)
            idle).1)
exchange-accepted_example =
    exchange-accepted tiny_crypto sentinel_policy plain_wire plain-IsFaithful (codes "key")
      relay_policy sample_environment sample_post quiet idle exchange-hibernates_example.0
