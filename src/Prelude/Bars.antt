-- ===== src/Prelude/Bars.antt =====
-- Texts whose fields are parted by `|`.
use remote_pc_controller.Prelude.{
  ℕ, ◌+◌, ◌≡◌, ◌≢◌, refl, [], ◌∷◌, ◌++◌, ◌==◌, if◌then◌else◌, All, arith,
}
use remote_pc_controller.Prelude.Text.{Text}

-- How many bars a text holds.
abbrev pub bars : Text → ℕ
bars [] = 0
bars (c ∷ s) = (if c == b'|' then 1 else 0) + bars s

abbrev pub NoBar : Text → Type 0
NoBar = All (λ c. c ≢ b'|')

pub bars-append : (s t : Text) → bars (s ++ t) ≡ bars s + bars t
bars-append [] t = omega arith
bars-append (c ∷ s) t = omega (arith, bars-append s t)

pub bars-NoBar : (s : Text) → NoBar s → bars s ≡ 0
bars-NoBar [] h = refl
bars-NoBar (c ∷ s) (p, h) = ground (arith, bars-NoBar s h)

pub NoBar-bars : (s : Text) → bars s ≡ 0 → NoBar s
NoBar-bars [] h = tt
NoBar-bars (c ∷ s) h = (ground arith, NoBar-bars s (ground arith))

-- The first bar parts a text in one way only.
pub bar_cancel :
    (s t : Text) {u v : Text}
    → NoBar s
    → NoBar t
    → s ++ b'|' ∷ u ≡ t ++ b'|' ∷ v
    → (s ≡ t) × (u ≡ v)
bar_cancel [] [] hs ht e = (refl, cc)
bar_cancel [] (d ∷ t) hs (p, ht) e = absurd (p (cc))
bar_cancel (c ∷ s) [] (p, hs) ht e = absurd (p (cc))
bar_cancel (c ∷ s) (d ∷ t) {u} {v} (p, hs) (q, ht) e =
    let h = bar_cancel s t {u = u} {v = v} hs ht (cc) in (cc (h.0), h.1)
