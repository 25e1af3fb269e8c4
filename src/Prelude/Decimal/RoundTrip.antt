-- ===== src/Prelude/Decimal/RoundTrip.antt =====
-- A printed number is read back, so the print determines the number.
use Prim.Native.Nat.{ℕ, zero, suc, ◌+◌, ◌/◌, ◌%◌, ◌≤◌}
use mathlib.Core.Path.{◌≡◌, refl, ap, ◌∙◌}
use mathlib.Core.Logic.{◌≢◌}
use mathlib.Core.List.{[], ◌∷◌, ◌++◌, append_assoc, append-nil}
use mathlib.Core.Option.{some}
use native.Mathlib.Omega.{arith}
use remote_pc_controller.Prelude.Int.{ℤ, pos, negsuc, IsInt64}
use mathlib.Core.Logic.{inl, inr}
use remote_pc_controller.Prelude.Tests.{ltb, Bool-cases}
use remote_pc_controller.Prelude.Lists.{All, All-append}
use remote_pc_controller.Prelude.Text.{Text}
use remote_pc_controller.Prelude.Decimal.{digits, show_ℕ, show, scan, scan_all, parse_int}

abbrev pub IsDigit : ℕ → Type 0
IsDigit c = (b'0' ≤ c) × (c ≤ b'9')

pub digits-IsDigit : (fuel n : ℕ) → All IsDigit (digits fuel n)
unfolding digits
digits-IsDigit zero n = omega arith
digits-IsDigit (suc fuel) n = ground (
  arith,
  All-append IsDigit (digits fuel (n / 10)) ((b'0' + n % 10) ∷ []) (digits-IsDigit fuel (n / 10)),
)

IsDigit-ne_bar : (s : Text) → All IsDigit s → All (λ c. c ≢ b'|') s
IsDigit-ne_bar [] h = tt
IsDigit-ne_bar (c ∷ s) (d, h) = (omega arith, IsDigit-ne_bar s h)

-- A printed number holds no `|`.
pub show-ne_bar : (i : ℤ) → All (λ c. c ≢ b'|') (show i)
unfolding show show_ℕ
show-ne_bar (pos n) = IsDigit-ne_bar _ (digits-IsDigit n n)
show-ne_bar (negsuc n) = (omega arith, IsDigit-ne_bar _ (digits-IsDigit (suc n) (suc n)))

-- Reading one more digit behind `n / 10` gives `n`.
scan_last : (n : ℕ) (rest : Text) → scan (n / 10) ((b'0' + n % 10) ∷ rest) ≡ scan n rest
unfolding scan
scan_last n rest = ground arith

-- Reading the digits of `n` gives `n`, whatever text follows.
scan-digits : (fuel n : ℕ) (rest : Text) → n ≤ fuel → scan 0 (digits fuel n ++ rest) ≡ scan n rest
unfolding digits
scan-digits zero n rest h = unfold scan in ground arith
scan-digits (suc fuel) n rest h = elim (Bool-cases (ltb n 10)) [
  | inl small ↦ rw small (unfold scan in ground arith)
  | inr large ↦
      rw (large, append_assoc) (scan-digits fuel (n / 10) _ (ground arith) ∙ scan_last n rest)
]

-- The digits begin with a digit.
digits-head : (fuel n : ℕ) → (d : ℕ) × (s : Text) × (digits fuel n ≡ d ∷ s) × IsDigit d
unfolding digits
digits-head zero n = (b'0' + n % 10, [], refl, omega arith)
digits-head (suc fuel) n = elim (Bool-cases (ltb n 10)) [
  | inl small ↦ (b'0' + n, [], rw small, ground arith)
  | inr large ↦
      let (d, s, e, h) = digits-head fuel (n / 10) in
      (d, s ++ (b'0' + n % 10) ∷ [], rw (large, e), h)
]

pub scan_all-show_ℕ : (n : ℕ) → scan_all (show_ℕ n) ≡ some n
unfolding scan_all show_ℕ
scan_all-show_ℕ n =
    let (d, s, e, h) = digits-head n n in
    let read = scan-digits n n [] (omega arith) in
    rw e (rw (append-nil, e) at read ∙ unfold scan in refl)

-- A 64-bit integer is read back from its print.
pub parse_int-show : (i : ℤ) → IsInt64 i → parse_int (show i) ≡ some i
unfolding parse_int show
parse_int-show (pos n) h = let (d, s, e, k) = digits-head n n in ground (arith, scan_all-show_ℕ n)
parse_int-show (negsuc n) h = ground (arith, scan_all-show_ℕ (suc n))

-- The print determines the number.
pub show-injective : (i j : ℤ) → IsInt64 i → IsInt64 j → show i ≡ show j → i ≡ j
show-injective i j hi hj e = cc (parse_int-show i hi, parse_int-show j hj, ap parse_int e)
