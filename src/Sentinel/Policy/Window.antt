-- ===== src/Sentinel/Policy/Window.antt =====
-- The window tests of `Validate`, as arithmetic on unbounded integers.
use remote_pc_controller.Prelude.{◌^◌, ◌*◌, ◌<◌, false, ◌≡◌, ◌↔◌, refl, arith}
use remote_pc_controller.Prelude.Int.{ℤ, pos, neg, ◌+ℤ◌, ◌-ℤ◌, ◌≤ℤ◌, ◌<ℤ◌, scale, IsInt64}
use remote_pc_controller.Clock.{
  Time, second, unix_to_internal, unix, add, after, nanos, max_int64, min_int64,
}
use remote_pc_controller.Clock.Laws.{
  time_laws, before_iff, before-false_iff, sub_bound_iff, add_cases, SameInt, unix_cases, nsec-add,
}
use remote_pc_controller.Sentinel.Policy.{Policy, Command, bad_window, out_of_time}

-- An instant in nanoseconds since 1970, with no bound.
abbrev pub unix_nanos : Time → ℤ
unix_nanos t = nanos t -ℤ pos (unix_to_internal * second)

module _ {PublicKey : Type 0} where
  -- What the machine and the configuration give: 64-bit numbers, a validity below the largest
  -- duration, and a clock between the year 1 and the year 36 billion.
  pub record InRange (p : Policy PublicKey) (c : Command) (now : Time) : Type 0 where
    pub issued_in_range : IsInt64 c.issued_at
    pub expires_in_range : IsInt64 c.expires_at
    pub skew_nonneg : pos 0 ≤ℤ p.clock_skew
    pub skew_in_range : p.clock_skew ≤ℤ max_int64
    pub validity_from : min_int64 ≤ℤ p.max_validity
    pub validity_in_range : p.max_validity <ℤ max_int64
    pub now_from_year_1 : pos 0 ≤ℤ now.sec
    pub now_in_range : now.sec ≤ℤ pos (2 ^ 60)
    pub now_nsec : now.nsec < second

  -- The command's window is not longer than allowed, and the clock lies in it up to the skew.
  pub record IsTimely (p : Policy PublicKey) (c : Command) (now : Time) : Type 0 where
    pub ordered : c.issued_at <ℤ c.expires_at
    pub short : scale second c.expires_at ≤ℤ scale second c.issued_at +ℤ p.max_validity
    pub not_early : scale second c.issued_at ≤ℤ unix_nanos now +ℤ p.clock_skew
    pub not_late : unix_nanos now ≤ℤ scale second c.expires_at +ℤ p.clock_skew

  -- The instants of the command, as package `time` has them, are in order, and not further apart
  -- than allowed.
  abbrev pub IsWindow : Policy PublicKey → Command → Type 0
  IsWindow p c =
      (nanos (unix c.issued_at) <ℤ nanos (unix c.expires_at))
      × (nanos (unix c.expires_at) ≤ℤ nanos (unix c.issued_at) +ℤ p.max_validity)

  -- The clock is not before the first instant by more than the skew, nor behind the second one, as
  -- package `time` adds the skew.
  abbrev pub IsOpen : Policy PublicKey → Command → Time → Type 0
  IsOpen p c now =
      (nanos (add (unix c.issued_at) (neg p.clock_skew)) ≤ℤ nanos now)
      × (nanos now ≤ℤ nanos (add (unix c.expires_at) p.clock_skew))

  module _ (p : Policy PublicKey) (c : Command) (now : Time) where
    pub bad_window-false :
        min_int64 ≤ℤ p.max_validity
        → p.max_validity <ℤ max_int64
        → (bad_window p c ≡ false) ↔ IsWindow p c
    unfolding bad_window after unix
    bad_window-false lo h =
        let order = before_iff (unix c.issued_at) (unix c.expires_at) (omega arith) (omega arith) in
        let bound = sub_bound_iff (unix c.expires_at) (unix c.issued_at) p.max_validity lo h in
        (ground (arith, order, bound), ground (arith, order, bound))

    pub out_of_time-false : now.nsec < second → (out_of_time p c now ≡ false) ↔ IsOpen p c now
    unfolding out_of_time after
    out_of_time-false h =
        let opens = add (unix c.issued_at) (neg p.clock_skew) in
        let closes = add (unix c.expires_at) p.clock_skew in
        let early = before-false_iff now opens h (nsec-add _ _) in
        let late = before-false_iff closes now (nsec-add _ _) h in
        (ground (arith, early, late), ground (arith, early, late))

-- The instants of a window: `i` and `e` are the numbers of seconds, `s` the skew.
module _ (i e s : ℤ) (now : Time) where
  abbrev opens : Time
  opens = add (unix i) (neg s)

  abbrev closes : Time
  closes = add (unix e) s

  -- Every instant is exact.
  abbrev IsExact : Type 0
  IsExact =
      SameInt (nanos (unix i)) (scale second i +ℤ pos (unix_to_internal * second))
      × SameInt (nanos (unix e)) (scale second e +ℤ pos (unix_to_internal * second))
      × SameInt (nanos opens) (nanos (unix i) +ℤ neg s)
      × SameInt (nanos closes) (nanos (unix e) +ℤ s)

  -- A window that holds the clock is exact.
  exact_of_tests :
      (m : ℤ)
      → IsInt64 i
      → IsInt64 e
      → pos 0 ≤ℤ s
      → s ≤ℤ max_int64
      → m <ℤ max_int64
      → pos 0 ≤ℤ now.sec
      → now.sec ≤ℤ pos (2 ^ 60)
      → now.nsec < second
      → nanos (unix e) ≤ℤ nanos (unix i) +ℤ m
      → nanos opens ≤ℤ nanos now
      → nanos now ≤ℤ nanos closes
      → IsExact
  exact_of_tests m hi he lo hs hm from til fine short early late =
      let i_whole : (unix i).nsec ≡ 0 = unfold unix in refl in
      let e_whole : (unix e).nsec ≡ 0 = unfold unix in refl in
      let opens_fine = nsec-add (unix i) (neg s) in
      let closes_fine = nsec-add (unix e) s in
      let opening = add_cases (unix i) (neg s) (omega time_laws) (omega time_laws) in
      let closing = add_cases (unix e) s (omega time_laws) (omega time_laws) in
      let opens_exact : SameInt (nanos opens) (nanos (unix i) +ℤ neg s) = omega time_laws in
      let closes_exact : SameInt (nanos closes) (nanos (unix e) +ℤ s) = omega time_laws in
      (
        omega (time_laws, unix_cases i hi),
        omega (time_laws, unix_cases e he),
        opens_exact,
        closes_exact,
      )

  -- A window that holds the clock, in unbounded arithmetic, is exact.
  exact_of_bounds :
      (m : ℤ)
      → IsInt64 i
      → IsInt64 e
      → pos 0 ≤ℤ s
      → s ≤ℤ max_int64
      → m <ℤ max_int64
      → pos 0 ≤ℤ now.sec
      → now.sec ≤ℤ pos (2 ^ 60)
      → now.nsec < second
      → i <ℤ e
      → scale second e ≤ℤ scale second i +ℤ m
      → scale second i ≤ℤ unix_nanos now +ℤ s
      → unix_nanos now ≤ℤ scale second e +ℤ s
      → IsExact
  exact_of_bounds m hi he lo hs hm from til fine order short early late =
      let i_whole : (unix i).nsec ≡ 0 = unfold unix in refl in
      let e_whole : (unix e).nsec ≡ 0 = unfold unix in refl in
      let i_exact : SameInt (nanos (unix i)) (scale second i +ℤ pos (unix_to_internal * second)) =
        omega (time_laws, unix_cases i hi) in
      let e_exact : SameInt (nanos (unix e)) (scale second e +ℤ pos (unix_to_internal * second)) =
        omega (time_laws, unix_cases e he) in
      (
        i_exact,
        e_exact,
        omega (time_laws, add_cases (unix i) (neg s) (omega time_laws) (omega time_laws)),
        omega (time_laws, add_cases (unix e) s (omega time_laws) (omega time_laws)),
      )

module _ {PublicKey : Type 0} (p : Policy PublicKey) (c : Command) (now : Time) where
  -- For numbers in range, the window tests of `Validate`, with 64-bit seconds that wrap around
  -- and durations that saturate, pass exactly for a command that is timely in unbounded
  -- arithmetic.
  pub window_tests_iff :
      InRange p c now
      → ((bad_window p c ≡ false) × (out_of_time p c now ≡ false)) ↔ IsTimely p c now
  window_tests_iff r =
      let s = p.clock_skew in
      let i = c.issued_at in
      let e = c.expires_at in
      let m = p.max_validity in
      let window = bad_window-false p c now r.validity_from r.validity_in_range in
      let clock = out_of_time-false p c now r.now_nsec in
      let there : (bad_window p c ≡ false) × (out_of_time p c now ≡ false) → IsTimely p c now = λ t.
        let (order, short) = window.0 t.0 in
        let (early, late) = clock.0 t.1 in
        let exact =
          exact_of_tests i e s now m r.issued_in_range r.expires_in_range r.skew_nonneg
            r.skew_in_range r.validity_in_range r.now_from_year_1 r.now_in_range r.now_nsec short
            early late in
        record {
          ordered = omega (time_laws, exact);
          short = omega (time_laws, exact);
          not_early = omega (time_laws, exact);
          not_late = omega (time_laws, exact);
        } in
      let back : IsTimely p c now → (bad_window p c ≡ false) × (out_of_time p c now ≡ false) = λ t.
        let exact =
          exact_of_bounds i e s now m r.issued_in_range r.expires_in_range r.skew_nonneg
            r.skew_in_range r.validity_in_range r.now_from_year_1 r.now_in_range r.now_nsec
            t.ordered t.short t.not_early t.not_late in
        (
          window.1 (omega (time_laws, exact), omega (time_laws, exact)),
          clock.1 (omega (time_laws, exact), omega (time_laws, exact)),
        ) in
      (there, back)
