-- ===== src/Clock/Laws.antt =====
-- Orders on instants, read as numbers of nanoseconds.
use remote_pc_controller.Prelude.{
  ℕ, ◌+◌, ◌-◌, ◌*◌, ◌^◌, ◌≤◌, ◌<◌, ◌≡◌, ◌↔◌, Bool, true, false, ◌⊎◌, inl, inr, Bool-cases, arith,
}
use remote_pc_controller.Prelude.Int.{
  ltb_ℤ, leb_ℤ, wrap64, eq_of_parts, neg_parts, +ℤ_parts, -ℤ_parts, ℤ, pos, negsuc, ◌+ℤ◌, ◌-ℤ◌,
  ◌≤ℤ◌, ◌<ℤ◌, scale, pos_part, neg_part, scale_parts, floor_div, floor_mod, IsInt64, int_laws,
}
use remote_pc_controller.Clock.{
  saturate, max_int64, min_int64, Time, second, unix_to_internal, unix, to_unix, add, before, nanos,
  times_second, sub,
}

-- An instant whose fields are in range.
pub record IsTime (t : Time) : Type 0 where
  pub sec_in_range : IsInt64 t.sec
  pub nsec_in_range : t.nsec < second

pub scale_second :
    (a : ℤ)
    → pos_part (scale second a) + second * neg_part a
      ≡ neg_part (scale second a) + second * pos_part a
scale_second a = scale_parts second a

pub nanos_parts :
    (t : Time)
    → pos_part (nanos t) + second * neg_part t.sec
      ≡ neg_part (nanos t) + second * pos_part t.sec + t.nsec
unfolding nanos
nanos_parts t = omega (arith, scale_second t.sec, +ℤ_parts (scale second t.sec) (pos t.nsec))

pub before_iff :
    (t u : Time) → t.nsec < second → u.nsec < second → (before t u ≡ true) ↔ (nanos t <ℤ nanos u)
unfolding before
before_iff t u h k =
    (ground (arith, nanos_parts t, nanos_parts u), ground (arith, nanos_parts t, nanos_parts u))

floor_parts :
    (a : ℤ)
    → pos_part (floor_div a second) * second + floor_mod a second + neg_part a
      ≡ neg_part (floor_div a second) * second + pos_part a
unfolding floor_div floor_mod
floor_parts (pos n) = omega arith
floor_parts (negsuc n) = omega arith

floor_mod-lt : (a : ℤ) → floor_mod a second < second
unfolding floor_mod
floor_mod-lt (pos n) = omega arith
floor_mod-lt (negsuc n) = omega arith

-- The same integer, in the form that linear arithmetic reads.
abbrev pub SameInt : ℤ → ℤ → Type 0
SameInt a b = pos_part a + neg_part b ≡ pos_part b + neg_part a

saturate_cases :
    (s : ℤ)
    → (max_int64 <ℤ s) × SameInt (saturate s) max_int64
      ⊎ (s <ℤ min_int64) × SameInt (saturate s) (negsuc (2 ^ 63 - 2))
      ⊎ (min_int64 ≤ℤ s) × (s ≤ℤ max_int64) × SameInt (saturate s) s
unfolding saturate
saturate_cases s = elim (Bool-cases (ltb_ℤ max_int64 s)) [
  | inl p ↦ inl (ground arith, rw p (omega arith))
  | inr p ↦ elim (Bool-cases (ltb_ℤ s min_int64)) [
    | inl q ↦ inr (inl (ground arith, rw (p, q) (omega arith)))
    | inr q ↦ inr (inr (ground arith, ground arith, rw (p, q) (omega arith)))
  ]
]

wrap64_cases :
    (s : ℤ)
    → (pos (2 ^ 63) ≤ℤ s) × SameInt (wrap64 s) (s -ℤ pos (2 ^ 64))
      ⊎ (s <ℤ min_int64) × SameInt (wrap64 s) (s +ℤ pos (2 ^ 64))
      ⊎ (min_int64 ≤ℤ s) × (s ≤ℤ max_int64) × SameInt (wrap64 s) s
unfolding wrap64
wrap64_cases s = elim (Bool-cases (leb_ℤ (pos (2 ^ 63)) s)) [
  | inl p ↦ inl (ground arith, rw p (omega arith))
  | inr p ↦ elim (Bool-cases (ltb_ℤ s min_int64)) [
    | inl q ↦ inr (inl (ground arith, rw (p, q) (omega arith)))
    | inr q ↦ inr (inr (ground arith, ground arith, rw (p, q) (omega arith)))
  ]
]

-- The instant of `time.Unix` is exact, or (for the largest numbers) near the low end of the range.
pub unix_cases :
    (s : ℤ)
    → IsInt64 s
    → SameInt (nanos (unix s)) (scale second s +ℤ pos (unix_to_internal * second))
      ⊎ (pos (2 ^ 62) ≤ℤ s) × ((unix s).sec <ℤ negsuc (2 ^ 62))
unfolding unix
unix_cases s h =
    let shift = +ℤ_parts s (pos unix_to_internal) in
    let back = -ℤ_parts (s +ℤ pos unix_to_internal) (pos (2 ^ 64)) in
    elim (wrap64_cases (s +ℤ pos unix_to_internal)) [
      | inl (p, e) ↦ inr (omega (arith, shift), omega (arith, shift, back))
      | inr (inl (p, e)) ↦ absurd (omega (arith, shift))
      | inr (inr (p, q, e)) ↦ inl (
          omega (
            arith,
            shift,
            nanos_parts (unix s),
            scale_second s,
            +ℤ_parts (scale second s) (pos (unix_to_internal * second)),
          ))
    ]

pub nsec-add : (t : Time) (d : ℤ) → (add t d).nsec < second
unfolding add
nsec-add t d = floor_mod-lt (pos t.nsec +ℤ d)

-- A sum is exact, or stays near the end of the range that its instant is near.
pub add_cases :
    (t : Time) (d : ℤ)
    → t.nsec < second
    → IsInt64 d
    → (pos (2 ^ 62) <ℤ t.sec) × (pos (2 ^ 61) <ℤ (add t d).sec)
      ⊎ (t.sec <ℤ negsuc (2 ^ 62)) × ((add t d).sec <ℤ pos 0)
      ⊎ SameInt (nanos (add t d)) (nanos t +ℤ d)
unfolding add
add_cases t d h k =
    let total = pos t.nsec +ℤ d in
    let q = floor_div total second in
    let lines = saturate_cases (t.sec +ℤ q) in
    let parts = floor_parts total in
    let fine = floor_mod-lt total in
    let sums = +ℤ_parts (pos t.nsec) d in
    let secs = +ℤ_parts t.sec q in
    elim (Bool-cases (ltb_ℤ (pos (2 ^ 62)) t.sec)) [
      | inl p ↦ inl (ground arith, ground (arith, lines, parts, fine, sums, secs, p))
      | inr p ↦ elim (Bool-cases (ltb_ℤ t.sec (negsuc (2 ^ 62)))) [
        | inl q ↦ inr (inl (ground arith, ground (arith, lines, parts, fine, sums, secs, q)))
        | inr q ↦ inr (inr (exact_sum (ground arith) (ground arith)))
      ]
    ]
  where
    exact_sum :
        negsuc (2 ^ 62) ≤ℤ t.sec → t.sec ≤ℤ pos (2 ^ 62) → SameInt (nanos (add t d)) (nanos t +ℤ d)
    exact_sum lo hi =
        let total = pos t.nsec +ℤ d in
        let q = floor_div total second in
        omega (
          arith,
          saturate_cases (t.sec +ℤ q),
          nanos_parts t,
          nanos_parts (add t d),
          floor_mod-lt total,
          floor_parts total,
          +ℤ_parts (pos t.nsec) d,
          +ℤ_parts t.sec q,
          +ℤ_parts (nanos t) d,
        )

pub before-false_iff :
    (t u : Time) → t.nsec < second → u.nsec < second → (before t u ≡ false) ↔ (nanos u ≤ℤ nanos t)
unfolding before
before-false_iff t u h k =
    (ground (arith, nanos_parts t, nanos_parts u), ground (arith, nanos_parts t, nanos_parts u))

-- A bound below the largest duration bounds the exact difference.
pub sub_bound_iff :
    (t u : Time) (m : ℤ)
    → min_int64 ≤ℤ m
    → m <ℤ max_int64
    → (ltb_ℤ m (sub t u) ≡ false) ↔ (nanos t ≤ℤ nanos u +ℤ m)
unfolding sub
sub_bound_iff t u m lo hi =
    let d = nanos t -ℤ nanos u in
    let lists = -ℤ_parts (nanos t) (nanos u) in
    let adds = +ℤ_parts (nanos u) m in
    elim (Bool-cases (ltb_ℤ max_int64 d)) [
      | inl p ↦ rw p (ground (arith, lists, adds), ground (arith, lists, adds))
      | inr p ↦ elim (Bool-cases (ltb_ℤ d min_int64)) [
        | inl q ↦ rw (p, q) (ground (arith, lists, adds), ground (arith, lists, adds))
        | inr q ↦ rw (p, q) (ground (arith, lists, adds), ground (arith, lists, adds))
      ]
    ]

pub ruleset time_laws = (arith, +ℤ_parts, -ℤ_parts, neg_parts, nanos_parts, scale_second)

-- The Unix seconds of an instant far from the ends of the range are exact.
pub to_unix_exact :
    (t : Time)
    → pos 0 ≤ℤ t.sec
    → t.sec ≤ℤ pos (2 ^ 62)
    → SameInt (to_unix t +ℤ pos unix_to_internal) t.sec
unfolding to_unix
to_unix_exact t lo hi = omega (time_laws, wrap64_cases (t.sec -ℤ pos unix_to_internal))

-- A product of at most five minutes is exact.
pub times_second_exact : (d : ℤ) → pos 0 ≤ℤ d → d ≤ℤ pos 300 → times_second d ≡ scale second d
unfolding times_second scale ◌+ℤ◌ ◌-ℤ◌ floor_mod
times_second_exact (pos n) lo hi = ground arith
times_second_exact (negsuc n) lo hi = absurd (ground arith)
