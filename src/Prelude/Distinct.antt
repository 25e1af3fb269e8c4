-- ===== src/Prelude/Distinct.antt =====
-- Association lists in which a key stands once, as in a map of Go.
use remote_pc_controller.Prelude.{none, [], ◌∷◌, ◌≡◌, arith}
use remote_pc_controller.Prelude.Dict.{Dict, lookup, insert, remove, lookup-remove}
use remote_pc_controller.Prelude.Text.{Text, equal_iff}

-- No key stands twice.
abbrev pub IsDistinct {ℓ} : {V : Type ℓ} → Dict V → Type ℓ
IsDistinct [] = Unit
IsDistinct ((k, v) ∷ m) = (lookup k m ≡ none) × IsDistinct m

module _ {ℓ} {V : Type ℓ} where
  remove-IsDistinct : (k : Text) (m : Dict V) → IsDistinct m → IsDistinct (remove k m)
  unfolding remove
  remove-IsDistinct k [] d = tt
  remove-IsDistinct k ((j, e) ∷ m) (fresh, d) =
      ground (arith, remove-IsDistinct k m d, lookup-remove k j m)

  -- A map stays one when a value is put into it.
  pub insert-IsDistinct : (k : Text) (e : V) (m : Dict V) → IsDistinct m → IsDistinct (insert k e m)
  unfolding insert
  insert-IsDistinct k e m d =
      ground (arith, remove-IsDistinct k m d, lookup-remove k k m, equal_iff k k)
