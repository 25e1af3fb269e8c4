-- ===== src/Relay/Transport.antt =====
-- relay/src/transport/sentinel.go: the delivery of a command over HTTP.
use remote_pc_controller.Prelude.{
  ℕ, ◌≤◌, ◌<◌, ◌||◌, Option, none, some, ◌++◌, ◌≡◌, refl, ◌↔◌, ltb, leb, if◌then◌else◌, arith,
}
use remote_pc_controller.Prelude.Decimal.{show}
use remote_pc_controller.Prelude.Int.{pos}
use remote_pc_controller.Prelude.Text.{codes}
use remote_pc_controller.Errors.{Error, Result, ok, err, foreign}
use remote_pc_controller.Relay.Command.{RelayError}

-- The test on the status code of the response.
unfoldable pub check_status : ℕ → Option (Error RelayError)
unfolding show
check_status status =
    if ltb status 200 || leb 300 status
    then some (foreign (codes "sentinel returned HTTP " ++ show (pos status)))
    else none

answered : Result RelayError ℕ → Option (Error RelayError)
unfolding check_status
answered (err e) = some e
answered (ok status) = check_status status

-- SentinelClient.Deliver, on what its three calls return: the error of `json.Marshal`, that of
-- `http.NewRequestWithContext`, and the status or the error of `Client.Do`.
unfoldable pub deliver :
    Option (Error RelayError)
    → Option (Error RelayError)
    → Result RelayError ℕ
    → Option (Error RelayError)
unfolding answered
deliver (some e) request response = some e
deliver none (some e) response = some e
deliver none none response = answered response

-- A delivery succeeds exactly if none of its three calls fails and the status lies in the two
-- hundreds.
pub deliver_iff :
    (marshal request : Option (Error RelayError)) (response : Result RelayError ℕ)
    → (deliver marshal request response ≡ none) ↔ (
        (marshal ≡ none)
        × (request ≡ none)
        × ((status : ℕ) × (response ≡ ok status) × (200 ≤ status) × (status < 300)))
unfolding deliver
deliver_iff (some e) request response = (λ h. cc, λ h. cc (h.0))
deliver_iff none (some e) response = (λ h. cc, λ h. cc (h.1))
deliver_iff none none (err e) = (λ h. cc, λ h. cc (h.2.1))
deliver_iff none none (ok status) = (
  λ h. (refl, refl, (status, refl, ground arith, ground arith)),
  λ h. let (x, same, low, high) = h.2 in ground arith,
)
