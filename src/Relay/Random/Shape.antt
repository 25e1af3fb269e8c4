-- ===== src/Relay/Random/Shape.antt =====
-- The generated identifiers and nonces have the shape that the signed text relies on.
use Prim.Native.Nat.{bit_and, bit_or}
use remote_pc_controller.Prelude.{
  Bool, true, ◌&&◌, ltb, ℕ, zero, suc, ◌*◌, ◌<◌, ◌≡◌, ◌≢◌, refl, [], ◌∷◌, ◌++◌, All, All-append,
  length, arith,
}
use remote_pc_controller.Prelude.Bars.{NoBar}
use remote_pc_controller.Prelude.Text.{Text}
use remote_pc_controller.Relay.Random.{Bytes, hex, format_id, encode_raw_url}

abbrev pub IsByte : ℕ → Type 0
IsByte b = b < 256

NoBar-hex : (bs : Bytes) → All IsByte bs → NoBar (hex bs)
unfolding hex
NoBar-hex [] h = tt
NoBar-hex (b ∷ bs) (p, h) = (ground arith, (ground arith, NoBar-hex bs h))

length-hex : (bs : Bytes) → length (hex bs) ≡ 2 * length bs
unfolding hex
length-hex [] = refl
length-hex (b ∷ bs) = omega (arith, length-hex bs)

-- A nonce holds no bar.
pub NoBar-encode_raw_url : (bs : Bytes) → NoBar (encode_raw_url bs)
unfolding encode_raw_url
NoBar-encode_raw_url [] = tt
NoBar-encode_raw_url (a ∷ []) = (ground arith, (ground arith, tt))
NoBar-encode_raw_url (a ∷ b ∷ []) = (ground arith, (ground arith, (ground arith, tt)))
NoBar-encode_raw_url (a ∷ b ∷ c ∷ rest) =
    (ground arith, (ground arith, (ground arith, (ground arith, NoBar-encode_raw_url rest))))

-- Checks a test at every number below a bound.
all_below : ℕ → (ℕ → Bool) → Bool
all_below zero test = true
all_below (suc n) test = test n && all_below n test

all_below_sound :
    (n : ℕ) (test : ℕ → Bool) (x : ℕ) → all_below n test ≡ true → x < n → test x ≡ true
unfolding all_below
all_below_sound zero test x h lt = absurd (omega arith)
all_below_sound (suc n) test x h lt = ground (arith, all_below_sound n test x)

version-IsByte : (b : ℕ) → IsByte b → IsByte (bit_or (bit_and b 0x0f) 0x40)
unfolding all_below
version-IsByte b h =
    let table = all_below_sound 256 (λ x. ltb (bit_or (bit_and x 0x0f) 0x40) 256) b refl h in
    ground arith

variant-IsByte : (b : ℕ) → IsByte b → IsByte (bit_or (bit_and b 0x3f) 0x80)
unfolding all_below
variant-IsByte b h =
    let table = all_below_sound 256 (λ x. ltb (bit_or (bit_and x 0x3f) 0x80) 256) b refl h in
    ground arith

-- The digits of some bytes, and a text without a bar behind a dash.
dashed : (bs : Bytes) (t : Text) → All IsByte bs → NoBar t → NoBar (hex bs ++ (b'-' ∷ t))
dashed bs t hs ht =
    All-append (λ c. c ≢ b'|') (hex bs) (b'-' ∷ t) (NoBar-hex bs hs) (omega arith, ht)

-- The identifier made of sixteen bytes has 36 characters and no bar.
pub format_id_shape :
    (bs : Bytes)
    → All IsByte bs
    → length bs ≡ 16
    → (length (format_id bs) ≡ 36) × NoBar (format_id bs)
unfolding format_id
format_id_shape (b0 ∷ b1 ∷ b2 ∷ b3 ∷ b4 ∷ b5 ∷ b6 ∷ b7 ∷ b8 ∷ b9 ∷ rest)
      (h0, (h1, (h2, (h3, (h4, (h5, (h6, (h7, (h8, (h9, hr)))))))))) n =
    let version = bit_or (bit_and b6 0x0f) 0x40 in
    let variant = bit_or (bit_and b8 0x3f) 0x80 in
    let first = hex (variant ∷ b9 ∷ []) ++ (b'-' ∷ hex rest) in
    let second = hex (version ∷ b7 ∷ []) ++ (b'-' ∷ first) in
    let third = hex (b4 ∷ b5 ∷ []) ++ (b'-' ∷ second) in
    (
      omega (arith, length-hex rest),
      dashed (b0 ∷ b1 ∷ b2 ∷ b3 ∷ []) third (h0, (h1, (h2, (h3, tt))))
          (dashed (b4 ∷ b5 ∷ []) second (h4, (h5, tt))
            (dashed (version ∷ b7 ∷ []) first (version-IsByte b6 h6, (h7, tt))
              (dashed (variant ∷ b9 ∷ []) (hex rest) (variant-IsByte b8 h8, (h9, tt))
                (NoBar-hex rest hr)))),
    )
format_id_shape _ h n = absurd (omega arith)
