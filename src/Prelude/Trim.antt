-- ===== src/Prelude/Trim.antt =====
-- What trimming leaves alone, and the ends of joined texts.
use remote_pc_controller.Prelude.{
  ℕ, true, false, some, [], ◌∷◌, ◌++◌, ◌≡◌, ◌≢◌, refl, sym, ap, ◌∙◌, ◌==◌, Bool-cases, inl, inr,
  All, arith,
}
use remote_pc_controller.Prelude.Text.{
  Text, is_space, trim_left, trim_onto, trim_right, trim_space, ends_with, drop_last, split_once,
}

trim_right-onto : (c : ℕ) (t : Text) → trim_right t ≡ t → trim_right (trim_onto c t) ≡ trim_onto c t
unfolding trim_right trim_onto
trim_right-onto c [] h = ground arith
trim_right-onto c (d ∷ t) h = rw h refl

trim_right_idem : (s : Text) → trim_right (trim_right s) ≡ trim_right s
unfolding trim_right
trim_right_idem [] = refl
trim_right_idem (c ∷ s) = trim_right-onto c (trim_right s) (trim_right_idem s)

-- A trimmed text ends in no white space.
pub trim_right_of_trimmed : (s : Text) → trim_space s ≡ s → trim_right s ≡ s
unfolding trim_space
trim_right_of_trimmed s h = ap trim_right (sym h) ∙ (trim_right_idem (trim_left s) ∙ h)

-- What stands before such a text is left alone, too.
pub trim_right-append : (s t : Text) → trim_right t ≡ t → t ≢ [] → trim_right (s ++ t) ≡ s ++ t
unfolding trim_right trim_onto
trim_right-append [] t h n = h
trim_right-append (c ∷ s) t h n = rw (trim_right-append s t h n) (onto (s ++ t) (append-ne-nil s))
  where
    append-ne-nil : (s : Text) → s ++ t ≢ []
    append-ne-nil [] e = n e
    append-ne-nil (d ∷ s) e = cc

    onto : (u : Text) → u ≢ [] → trim_onto c u ≡ c ∷ u
    onto [] m = absurd (m refl)
    onto (d ∷ u) m = refl

-- A text is trimmed if it starts with no white space, and ends in a trimmed text.
pub trim_space-append :
    (c : ℕ) (s t : Text)
    → is_space c ≡ false
    → trim_right t ≡ t
    → t ≢ []
    → trim_space (c ∷ (s ++ t)) ≡ c ∷ (s ++ t)
unfolding trim_space trim_left
trim_space-append c s t solid h n = rw solid (trim_right-append (c ∷ s) t h n)

pub ends_with-append : (s t : Text) (q : ℕ) → t ≢ [] → ends_with (s ++ t) q ≡ ends_with t q
unfolding ends_with
ends_with-append [] t q n = refl
ends_with-append (c ∷ []) [] q n = absurd (n refl)
ends_with-append (c ∷ []) (d ∷ t) q n = refl
ends_with-append (c ∷ d ∷ s) t q n = ends_with-append (d ∷ s) t q n

onto_tail : (c d : ℕ) (s t : Text) → trim_onto c t ≡ c ∷ d ∷ s → t ≡ d ∷ s
unfolding trim_onto
onto_tail c d s [] h = elim (Bool-cases (is_space c)) [
  | inl e ↦ absurd (ground (arith, e))
  | inr e ↦ absurd (ground (arith, e))
]
onto_tail c d s (e ∷ t) h = cc

onto_single : (c : ℕ) → trim_onto c [] ≡ c ∷ [] → is_space c ≡ false
unfolding trim_onto
onto_single c h = elim (Bool-cases (is_space c)) [ inl e ↦ absurd (ground (arith, e)) | inr e ↦ e ]

-- A text without white space at its end does not end in a carriage return.
pub ends_with-trimmed :
    (s : Text) (q : ℕ) → is_space q ≡ true → trim_right s ≡ s → ends_with s q ≡ false
unfolding ends_with trim_right
ends_with-trimmed [] q space h = refl
ends_with-trimmed (c ∷ []) q space h = elim (Bool-cases (c == q)) [
  | inl e ↦
      let same : c ≡ q = ground (arith, e) in absurd (cc (ap is_space same, space, onto_single c h))
  | inr e ↦ e
]
ends_with-trimmed (c ∷ d ∷ s) q space h =
    ends_with-trimmed (d ∷ s) q space (onto_tail c d s (trim_right (d ∷ s)) h)

pub drop_last-append : (s : Text) (q : ℕ) → drop_last (s ++ q ∷ []) ≡ s
unfolding drop_last
drop_last-append [] q = refl
drop_last-append (c ∷ []) q = refl
drop_last-append (c ∷ d ∷ s) q = ap (λ t. c ∷ t) (drop_last-append (d ∷ s) q)

pub split_once-append :
    (sep : ℕ) (s t : Text) → All (λ c. c ≢ sep) s → split_once sep (s ++ sep ∷ t) ≡ some (s, t)
unfolding split_once
split_once-append sep [] t h = ground arith
split_once-append sep (c ∷ s) t (p, h) = ground (arith, split_once-append sep s t h)
