-- ===== src/Witnesses/Policies.antt =====
-- Witnesses for the theorems on Sentinel's policy.
use remote_pc_controller.Prelude.{Bool, none, some, [], ◌≡◌, ◌↔◌, refl, arith}
use remote_pc_controller.Prelude.Text.{equal}
use remote_pc_controller.Errors.{sentinel, kind}
use remote_pc_controller.Sentinel.Policy.{
  Command, CommandError, canonical, validate_configuration, bad_window, out_of_time, validate,
}
use remote_pc_controller.Sentinel.Policy.Window.{InRange, IsTimely, window_tests_iff}
use remote_pc_controller.Sentinel.Policy.Validation.{
  IsAdmissible, Refuses, validate_iff-IsAdmissible, validate-Refuses,
}
use remote_pc_controller.Sentinel.Policy.Canonical.{SameFields, canonical-SameFields}
use remote_pc_controller.Witnesses.{tiny_crypto, sentinel_policy, sample_command, sample_now}

sample-InRange : InRange sentinel_policy sample_command sample_now
sample-InRange = record {
  issued_in_range = ground arith;
  expires_in_range = ground arith;
  skew_nonneg = ground arith;
  skew_in_range = ground arith;
  validity_from = ground arith;
  validity_in_range = ground arith;
  now_from_year_1 = ground arith;
  now_in_range = ground arith;
  now_nsec = ground arith;
}

window_tests_iff_example :
    ((bad_window sentinel_policy sample_command ≡ Bool.false)
      × (out_of_time sentinel_policy sample_command sample_now ≡ Bool.false))
    ↔ IsTimely sentinel_policy sample_command sample_now
window_tests_iff_example = window_tests_iff sentinel_policy sample_command sample_now sample-InRange

validate_iff_example :
    (validate tiny_crypto sentinel_policy sample_command sample_now ≡ none)
    ↔ IsAdmissible tiny_crypto sentinel_policy sample_command sample_now
validate_iff_example =
    validate_iff-IsAdmissible tiny_crypto sentinel_policy sample_command sample_now sample-InRange

-- A command for another device.
abbrev stray_command : Command
stray_command = record sample_command { device_id = [] }

validate-Refuses_example :
    (k : CommandError) × (kind (sentinel CommandError.wrong_device) ≡ some k)
    × Refuses tiny_crypto sentinel_policy stray_command sample_now k
unfolding validate validate_configuration equal
validate-Refuses_example =
    validate-Refuses tiny_crypto sentinel_policy stray_command sample_now
      (sentinel CommandError.wrong_device) (ground arith) (ground arith) (ground arith) refl

canonical-SameFields_example : SameFields sample_command (record sample_command { signature = [] })
canonical-SameFields_example =
    canonical-SameFields sample_command (record sample_command { signature = [] }) (ground arith)
      (ground arith) (ground arith) (ground arith) refl refl (unfold canonical in refl)
