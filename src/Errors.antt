-- ===== src/Errors.antt =====
-- Go's `error` values. A package declares its sentinel errors; `fmt.Errorf` with %w wraps one of
-- them in a text, and `errors.Is` finds it there. An error of another package is its text.
use remote_pc_controller.Prelude.{
  Bool, true, false, Option, none, some, ◌++◌, ◌≡◌, refl, if◌then◌else◌,
}
use remote_pc_controller.Prelude.Text.{Text, codes}

pub data Error (Sentinel : Type 0) : Type 0 where
  sentinel : Sentinel → Error Sentinel
  wrapped : Sentinel → Text → Error Sentinel
  foreign : Text → Error Sentinel
  -- An error of a callee behind a text, as in `fmt.Errorf("sign command: %w", err)`.
  prefixed : Text → Error Sentinel → Error Sentinel

-- A function that returns a value and an error returns one of them.
pub data Result (Sentinel : Type 0) (A : Type 0) : Type 0 where
  ok : A → Result Sentinel A
  err : Error Sentinel → Result Sentinel A

module _ {Sentinel : Type 0} where
  -- The sentinel error that `errors.Is` finds in an error.
  abbrev pub kind : Error Sentinel → Option Sentinel
  kind (sentinel s) = some s
  kind (wrapped s _) = some s
  kind (foreign _) = none
  kind (prefixed _ e) = kind e

  -- The text of the error, from the texts of the package's sentinel errors.
  abbrev pub message : (Sentinel → Text) → Error Sentinel → Text
  message text (sentinel s) = text s
  message text (wrapped s detail) = text s ++ (codes ": " ++ detail)
  message text (foreign t) = t
  message text (prefixed t e) = t ++ (codes ": " ++ message text e)

  -- What follows a call that returned a value and no error.
  abbrev pub and_then :
      {A B : Type 0} → Result Sentinel A → (A → Result Sentinel B) → Result Sentinel B
  and_then (ok a) f = f a
  and_then (err e) f = err e

  -- `if err != nil { return …, fmt.Errorf("text: %w", err) }`
  abbrev pub with_prefix : {A : Type 0} → Text → Result Sentinel A → Result Sentinel A
  with_prefix t (ok a) = ok a
  with_prefix t (err e) = err (prefixed t e)

  -- A chain of `if err := …; err != nil { return err }`.
  infixl 5 ◌>>◌
  abbrev pub ◌>>◌ : Option (Error Sentinel) → Option (Error Sentinel) → Option (Error Sentinel)
  none >> rest = rest
  some e >> rest = some e

  -- `if test { return e }`
  abbrev pub refuse_if : Bool → Error Sentinel → Option (Error Sentinel)
  refuse_if true e = some e
  refuse_if false e = none

-- Both steps of a chain returned a value.
pub and_then-ok :
    {Sentinel A B : Type 0} (x : Result Sentinel A) (f : A → Result Sentinel B) {b : B}
    → and_then x f ≡ ok b
    → (a : A) × (x ≡ ok a) × (f a ≡ ok b)
and_then-ok (ok a) f h = (a, refl, h)
and_then-ok (err e) f h = cc

-- A test that returns an error was not met.
pub refused_unless-ok :
    {Sentinel B : Type 0} (test : Bool) (e : Error Sentinel) (x : Result Sentinel B) {b : B}
    → (if test then err e else x) ≡ ok b
    → (test ≡ false) × (x ≡ ok b)
refused_unless-ok true e x h = cc
refused_unless-ok false e x h = (refl, h)

pub ok-injective :
    {Sentinel A : Type 0} {a b : A} → ◌≡◌ {A = Result Sentinel A} (ok a) (ok b) → a ≡ b
ok-injective h = cc
