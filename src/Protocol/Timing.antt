-- ===== src/Protocol/Timing.antt =====
-- The times in a command that Relay builds, on Sentinel's clock.
use remote_pc_controller.Prelude.{ℕ, ◌*◌, ◌^◌, ◌≤◌, ◌<◌, arith}
use remote_pc_controller.Prelude.Int.{ℤ, pos, ◌+ℤ◌, ◌≤ℤ◌, scale, IsInt64}
use remote_pc_controller.Clock.{Time, second, add, to_unix}
use remote_pc_controller.Clock.Laws.{SameInt, time_laws, add_cases, nsec-add, to_unix_exact}
use remote_pc_controller.Relay.Command.{truncate_second}
use remote_pc_controller.Sentinel.Policy.Window.{unix_nanos}

-- A clock between the year 1 and the year 36 billion.
pub record IsSane (t : Time) : Type 0 where
  pub from_year_1 : pos 0 ≤ℤ t.sec
  pub in_range : t.sec ≤ℤ pos (2 ^ 60)
  pub nsec_in_range : t.nsec < second

-- Relay's clock at the full second, in nanoseconds since 1970.
abbrev pub issued_nanos : Time → ℤ
issued_nanos t = unix_nanos (truncate_second t)

-- The numbers in a built command: the full second of Relay's clock, and `k` seconds later.
module _ (now : Time) (k : ℕ) (sane : IsSane now) (short : k ≤ 300) where
  pub built_issued : SameInt (scale second (to_unix (truncate_second now))) (issued_nanos now)
  unfolding truncate_second
  built_issued =
      omega (time_laws, to_unix_exact (truncate_second now) sane.from_year_1 (omega arith))

  abbrev pub built_end : Time
  built_end = add (truncate_second now) (pos (k * second))

  built_end_sec : SameInt built_end.sec (now.sec +ℤ pos k)
  unfolding truncate_second
  built_end_sec =
      let t = truncate_second now in
      let exact = add_cases t (pos (k * second)) (omega arith) (omega arith) in
      omega (time_laws, exact, nsec-add t (pos (k * second)), sane.from_year_1, sane.in_range)

  pub built_expires : SameInt (to_unix built_end) (to_unix (truncate_second now) +ℤ pos k)
  unfolding truncate_second
  built_expires = omega (
    time_laws,
    built_end_sec,
    sane.from_year_1,
    sane.in_range,
    to_unix_exact (truncate_second now) sane.from_year_1 (omega arith),
    to_unix_exact built_end (omega (time_laws, built_end_sec, sane.from_year_1))
        (omega (time_laws, built_end_sec, sane.in_range)),
  )

  -- The numbers fit into 64 bits.
  pub built_in_range : IsInt64 (to_unix (truncate_second now)) × IsInt64 (to_unix built_end)
  unfolding truncate_second
  built_in_range =
      let issued = to_unix_exact (truncate_second now) sane.from_year_1 (omega arith) in
      (
        omega (time_laws, issued, sane.from_year_1, sane.in_range),
        omega (time_laws, issued, built_expires, sane.from_year_1, sane.in_range),
      )
