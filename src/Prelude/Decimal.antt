-- ===== src/Prelude/Decimal.antt =====
-- Decimal numbers as text: the verb %d of package `fmt`, and `strconv.ParseInt` in base 10.
pub mod RoundTrip
use Prim.Native.Nat.{ℕ, zero, suc, ◌+◌, ◌-◌, ◌*◌, ◌/◌, ◌%◌, ◌^◌, ◌≤◌, ◌<◌}
use mathlib.Core.Path.{◌≡◌, refl}
use mathlib.Core.Bool.{Bool, true, false, ◌&&◌, ◌||◌}
use mathlib.Core.List.{List, [], ◌∷◌, ◌++◌}
use mathlib.Core.Option.{Option, none, some}
use native.Mathlib.Omega.{arith}
use remote_pc_controller.Prelude.Tests.{ltb, leb, ◌==◌, if◌then◌else◌}
use remote_pc_controller.Prelude.Int.{ℤ, pos, negsuc}
use remote_pc_controller.Prelude.Text.{Text, codes}

-- The digits of `n`. A number has fewer digits than its value says, so `n` rounds are enough.
unfoldable pub digits : ℕ → ℕ → Text
digits zero n = (b'0' + n % 10) ∷ []
digits (suc fuel) n =
    let more = digits fuel (n / 10) ++ (b'0' + n % 10) ∷ [] in
    if ltb n 10 then (b'0' + n) ∷ [] else more

unfoldable pub show_ℕ : ℕ → Text
unfolding digits
show_ℕ n = digits n n

-- fmt.Sprintf("%d", i)
unfoldable pub show : ℤ → Text
unfolding show_ℕ
show (pos n) = show_ℕ n
show (negsuc n) = b'-' ∷ show_ℕ (suc n)

-- Reads digits behind the number `acc` that has been read.
unfoldable pub scan : ℕ → Text → Option ℕ
scan acc [] = some acc
scan acc (c ∷ s) =
    let rest = scan (acc * 10 + (c - b'0')) s in if leb b'0' c && leb c b'9' then rest else none

unfoldable pub scan_all : Text → Option ℕ
unfolding scan
scan_all [] = none
scan_all (c ∷ s) = scan 0 (c ∷ s)

-- The magnitude that was read, with its sign, if 64 bits can hold it.
unfoldable pub to_int64 : Bool → Option ℕ → Option ℤ
to_int64 negative none = none
to_int64 false (some n) = if ltb n (2 ^ 63) then some (pos n) else none
to_int64 true (some zero) = some (pos 0)
to_int64 true (some (suc n)) = if ltb n (2 ^ 63) then some (negsuc n) else none

-- strconv.ParseInt(s, 10, 64), and strconv.Atoi where `int` has 64 bits; `none` is an error.
unfoldable pub parse_int : Text → Option ℤ
unfolding scan_all to_int64
parse_int [] = none
parse_int (c ∷ s) =
    if c == b'-'
    then to_int64 true (scan_all s)
    else if c == b'+'
    then to_int64 false (scan_all s)
    else to_int64 false (scan_all (c ∷ s))

show_negative : show (negsuc 119) ≡ codes "-120"
unfolding show
show_negative = refl

parse_int_bound :
    (parse_int (codes "9223372036854775808") ≡ none) × (parse_int (codes "+7") ≡ some (pos 7))
unfolding parse_int
parse_int_bound = (refl, refl)
