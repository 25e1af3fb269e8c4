-- ===== src/Clock.antt =====
-- The parts of Go's package `time` that the program calls. A `Duration` is a number of nanoseconds.
-- A `Time` without a monotonic reading is a 64-bit count of seconds since the year 1, and
-- nanoseconds; the seconds wrap around in `time.Unix` and `Unix`, and stop at the bounds in `Add`.
pub mod Laws
use remote_pc_controller.Prelude.{
  ℕ, ◌+◌, ◌-◌, ◌*◌, ◌^◌, Bool, true, false, ◌&&◌, ◌||◌, ltb, leb, if◌then◌else◌,
}
use remote_pc_controller.Prelude.Int.{
  ℤ, pos, negsuc, ◌+ℤ◌, ◌-ℤ◌, scale, ltb_ℤ, leb_ℤ, eqb_ℤ, floor_div, floor_mod, wrap64,
}

-- time.Second
abbrev pub second : ℕ
second = 1000000000

-- The seconds from the start of the year 1 to the start of 1970.
abbrev pub unix_to_internal : ℕ
unix_to_internal = 62135596800

abbrev pub max_int64 : ℤ
max_int64 = pos (2 ^ 63 - 1)

abbrev pub min_int64 : ℤ
min_int64 = negsuc (2 ^ 63 - 1)

pub record Time : Type 0 where
  pub sec : ℤ
  pub nsec : ℕ

-- time.Unix(s, 0)
unfoldable pub unix : ℤ → Time
unix s = record { sec = wrap64 (s +ℤ pos unix_to_internal); nsec = 0 }

-- t.Unix()
unfoldable pub to_unix : Time → ℤ
to_unix t = wrap64 (t.sec -ℤ pos unix_to_internal)

-- What `addSec` does with a sum that 64 bits cannot hold.
unfoldable pub saturate : ℤ → ℤ
saturate s =
    if ltb_ℤ max_int64 s then max_int64 else if ltb_ℤ s min_int64 then negsuc (2 ^ 63 - 2) else s

-- t.Add(d)
unfoldable pub add : Time → ℤ → Time
add t d =
    let total = pos t.nsec +ℤ d in
    record { sec = saturate (t.sec +ℤ floor_div total second); nsec = floor_mod total second }

-- t.Before(u)
unfoldable pub before : Time → Time → Bool
before t u = ltb_ℤ t.sec u.sec || (eqb_ℤ t.sec u.sec && ltb t.nsec u.nsec)

-- t.After(u)
unfoldable pub after : Time → Time → Bool
unfolding before
after t u = before u t

-- The nanoseconds of an instant since the year 1, with no bound.
unfoldable pub nanos : Time → ℤ
nanos t = scale second t.sec +ℤ pos t.nsec

-- t.Sub(u): a difference that a `Duration` cannot hold becomes the nearest one that it can.
unfoldable pub sub : Time → Time → ℤ
unfolding nanos
sub t u =
    let d = nanos t -ℤ nanos u in
    if ltb_ℤ max_int64 d then max_int64 else if ltb_ℤ d min_int64 then min_int64 else d

-- The product of a `Duration` and `time.Second`, in 64 bits.
unfoldable pub times_second : ℤ → ℤ
unfolding floor_mod
times_second d = pos (floor_mod (scale second d +ℤ pos (2 ^ 63)) (2 ^ 64)) -ℤ pos (2 ^ 63)
