-- ===== src/Installer/Window/KeyText/Between.antt =====
-- The key between its markers, and the markers in the wrong order.
use remote_pc_controller.Prelude.{
  ℕ, ◌+◌, ◌-◌, ◌<◌, true, false, some, [], ◌∷◌, ◌++◌, ◌≡◌, ◌≢◌, refl, ap, ◌∙◌, append_assoc, ltb,
  length, length-append, arith,
}
use remote_pc_controller.Prelude.Text.{
  Text, codes, has_prefix, is_space, trim_space, trim_right, trim_onto,
}
use remote_pc_controller.Prelude.Trim.{trim_space-append}
use remote_pc_controller.Installer.Window.KeyText.{
  index, take, drop, begin_public, end_public, panics, found, or_else, end_of, slice,
  extract_public_key_from_text,
}

-- No occurrence of `needle` in `pre ++ t` starts in `pre`.
abbrev pub NoneBefore : Text → Text → Text → Type 0
NoneBefore [] t needle = Unit
NoneBefore (c ∷ pre) t needle =
    (has_prefix (c ∷ (pre ++ t)) needle ≡ false) × NoneBefore pre t needle

has_prefix-append : (needle rest : Text) → has_prefix (needle ++ rest) needle ≡ true
unfolding has_prefix
has_prefix-append [] [] = refl
has_prefix-append [] (c ∷ rest) = refl
has_prefix-append (c ∷ needle) rest = ground (arith, has_prefix-append needle rest)

index-append :
    (pre t needle : Text)
    → NoneBefore pre t needle
    → has_prefix t needle ≡ true
    → index (pre ++ t) needle ≡ some (length pre)
unfolding index
index-append [] [] needle n h = rw h refl
index-append [] (c ∷ t) needle n h = rw h refl
index-append (c ∷ pre) t needle (fresh, n) h = rw (fresh, index-append pre t needle n h) refl

drop-append : (s t : Text) → drop (length s) (s ++ t) ≡ t
unfolding drop
drop-append [] t = refl
drop-append (c ∷ s) t = drop-append s t

take-append : (s t : Text) → take (length s) (s ++ t) ≡ s
unfolding take
take-append [] t = refl
take-append (c ∷ s) t = ap (λ r. c ∷ r) (take-append s t)

-- The slice of a text that stands between two others.
slice-append :
    (pre s post : Text) (end : ℕ)
    → end ≡ length pre + length s
    → slice (pre ++ (s ++ post)) (some (length pre)) (some end) ≡ found (trim_space s)
unfolding slice
slice-append pre s post end same =
    let ordered : ltb end (length pre) ≡ false = ground (arith, same) in
    let measured : end - length pre ≡ length s = omega (arith, same) in
    rw (ordered, measured, drop-append pre (s ++ post), take-append s post) refl

slice-panics :
    (text : Text) (start end : ℕ) → end < start → slice text (some start) (some end) ≡ panics
unfolding slice
slice-panics text start end less =
    let ordered : ltb end start ≡ true = ground (arith, less) in rw ordered refl

-- The markers of a text.
extract-slice :
    (text : Text) (start end : ℕ)
    → index text begin_public ≡ some start
    → index text end_public ≡ some end
    → extract_public_key_from_text text ≡ slice text (some start) (some (end + length end_public))
unfolding extract_public_key_from_text or_else end_of
extract-slice text start end begins ends = rw (begins, ends) refl

append_assoc3 : (a b c d : Text) → a ++ (b ++ (c ++ d)) ≡ (a ++ (b ++ c)) ++ d
append_assoc3 a b c d = rw (append_assoc, append_assoc) refl

-- Two markers, one behind the other.
index-markers :
    (pre a mid b post : Text)
    → NoneBefore pre (a ++ (mid ++ (b ++ post))) a
    → NoneBefore (pre ++ (a ++ mid)) (b ++ post) b
    → (index (pre ++ (a ++ (mid ++ (b ++ post)))) a ≡ some (length pre))
      × (index (pre ++ (a ++ (mid ++ (b ++ post)))) b ≡ some (length (pre ++ (a ++ mid))))
index-markers pre a mid b post first second = (
  index-append pre (a ++ (mid ++ (b ++ post))) a first (has_prefix-append a (mid ++ (b ++ post))),
  ap (λ t. index t b) (append_assoc3 pre a mid (b ++ post))
      ∙ index-append (pre ++ (a ++ mid)) (b ++ post) b second (has_prefix-append b post),
)

-- The markers hold no white space at their ends.
marked-trimmed :
    (body : Text)
    → trim_space (begin_public ++ (body ++ end_public)) ≡ begin_public ++ (body ++ end_public)
unfolding is_space trim_right trim_onto
marked-trimmed body =
    trim_space-append b'-' (codes "----BEGIN PUBLIC KEY-----" ++ body) end_public refl refl
      (λ e. cc)

slice-marked :
    (pre a mid b post : Text)
    → trim_space (a ++ (mid ++ b)) ≡ a ++ (mid ++ b)
    → slice
        (pre ++ (a ++ (mid ++ (b ++ post))))
        (some (length pre))
        (some (length (pre ++ (a ++ mid)) + length b))
      ≡ found (a ++ (mid ++ b))
slice-marked pre a mid b post trimmed =
    let measured : length (pre ++ (a ++ mid)) + length b ≡ length pre + length (a ++ (mid ++ b)) =
      omega (
        arith,
        length-append pre (a ++ mid),
        length-append a mid,
        length-append a (mid ++ b),
        length-append mid b,
      ) in
    ap (λ t. slice (pre ++ t) (some (length pre)) (some (length (pre ++ (a ++ mid)) + length b)))
      (append_assoc3 a mid b post)
    ∙ (slice-append pre (a ++ (mid ++ b)) post (length (pre ++ (a ++ mid)) + length b) measured
        ∙ ap found trimmed)

nonempty_length : (s : Text) → s ≢ [] → 0 < length s
nonempty_length [] h = absurd (h refl)
nonempty_length (c ∷ s) h = omega arith

slice-markers-panics :
    (pre a mid text : Text)
    → mid ≢ []
    → slice text (some (length (pre ++ (a ++ mid)))) (some (length pre + length a)) ≡ panics
slice-markers-panics pre a mid text h =
    slice-panics text (length (pre ++ (a ++ mid))) (length pre + length a)
      (rw (length-append, length-append) (omega (arith, nonempty_length mid h)))

-- From a text with the two markers of a public key in their order, each at its first place,
-- `extractPublicKeyFromText` returns the text from the first marker to the end of the second one.
pub extract-between :
    (pre body post : Text)
    → NoneBefore pre (begin_public ++ (body ++ (end_public ++ post))) begin_public
    → NoneBefore (pre ++ (begin_public ++ body)) (end_public ++ post) end_public
    → extract_public_key_from_text (pre ++ (begin_public ++ (body ++ (end_public ++ post))))
      ≡ found (begin_public ++ (body ++ end_public))
extract-between pre body post first second =
    let (begins, ends) = index-markers pre begin_public body end_public post first second in
    extract-slice _ (length pre) (length (pre ++ (begin_public ++ body))) begins ends
    ∙ slice-marked pre begin_public body end_public post (marked-trimmed body)

-- On a text in which the end marker of a public key comes before its begin marker, with a text
-- between them, and each stands at its first place, `extractPublicKeyFromText` panics.
pub extract-panics :
    (pre mid post : Text)
    → mid ≢ []
    → NoneBefore pre (end_public ++ (mid ++ (begin_public ++ post))) end_public
    → NoneBefore (pre ++ (end_public ++ mid)) (begin_public ++ post) begin_public
    → extract_public_key_from_text (pre ++ (end_public ++ (mid ++ (begin_public ++ post)))) ≡ panics
extract-panics pre mid post h first second =
    let (ends, begins) = index-markers pre end_public mid begin_public post first second in
    extract-slice _ (length (pre ++ (end_public ++ mid))) (length pre) begins ends
    ∙ slice-markers-panics pre end_public mid _ h
