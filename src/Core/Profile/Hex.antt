-- ===== src/Core/Profile/Hex.antt =====
-- crates/fairypam-agent-core/src/profile.rs: digests as hexadecimal text.
use fairypam_rust_agent.Base.{
  ℕ, true, ◌+◌, ◌-◌, ◌*◌, ◌/◌, ◌%◌, ◌<◌, ◌≡◌, refl, Bool, ◌&&◌, Option, none, some, [], ◌∷◌, arith,
  Bytes, length, All, all, ltb, ◌==◌, between, is_ascii_hexdigit, if◌then◌else◌,
}

-- `{:02x}`.
abbrev nibble : ℕ → ℕ
nibble n = if ltb n 10 then b'0' + n else b'a' + (n - 10)

unfoldable pub hex_digest : Bytes → Bytes
hex_digest [] = []
hex_digest (b ∷ bs) = nibble (b / 16) ∷ nibble (b % 16) ∷ hex_digest bs

abbrev hex_value : ℕ → Option ℕ
hex_value c =
    if between b'0' b'9' c
    then some (c - b'0')
    else if between b'a' b'f' c
    then some (c - b'a' + 10)
    else if between b'A' b'F' c
    then some (c - b'A' + 10)
    else none

-- `u8::from_str_radix(chunk, 16)` on two bytes: digits, or a plus sign and a digit.
unfoldable pub radix_pair : ℕ → ℕ → Option ℕ
radix_pair c d = elim (hex_value d) [
  | none ↦ none
  | some low ↦
      if c == b'+'
      then some low
      else elim (hex_value c) [ none ↦ none | some high ↦ some (high * 16 + low) ]
]

-- The walk over `chunks_exact(2)`: a last odd byte is not read.
unfoldable pub decode_chunks : Bytes → Option Bytes
unfolding radix_pair
decode_chunks (c ∷ d ∷ rest) = elim (radix_pair c d) [
  | none ↦ none
  | some b ↦ elim (decode_chunks rest) [ none ↦ none | some bs ↦ some (b ∷ bs) ]
]
decode_chunks _ = some []

unfoldable pub decode_fixed_hex : ℕ → Bytes → Option Bytes
unfolding decode_chunks
decode_fixed_hex n value = if length value == n * 2 then decode_chunks value else none

unfoldable pub is_sha256 : Bytes → Bool
is_sha256 value = length value == 64 && all is_ascii_hexdigit value

length-hex_digest : (bs : Bytes) → length (hex_digest bs) ≡ length bs * 2
unfolding hex_digest
length-hex_digest [] = refl
length-hex_digest (b ∷ bs) = omega (arith, length-hex_digest bs)

radix_pair-nibble : (b : ℕ) → b < 256 → radix_pair (nibble (b / 16)) (nibble (b % 16)) ≡ some b
unfolding radix_pair
radix_pair-nibble b h = ground arith

decode_chunks-hex_digest :
    (bs : Bytes) → All (λ b. b < 256) bs → decode_chunks (hex_digest bs) ≡ some bs
unfolding hex_digest decode_chunks
decode_chunks-hex_digest [] h = refl
decode_chunks-hex_digest (b ∷ bs) h =
    rw (radix_pair-nibble b h.0, decode_chunks) (rw (decode_chunks-hex_digest bs h.1))

-- A digest of bytes, printed as hexadecimal text, is read back as the same bytes, at the length of
-- the digest.
pub decode_fixed_hex-hex_digest :
    (bs : Bytes) → All (λ b. b < 256) bs → decode_fixed_hex (length bs) (hex_digest bs) ≡ some bs
unfolding decode_fixed_hex
decode_fixed_hex-hex_digest bs h =
    ground (arith, length-hex_digest bs, decode_chunks-hex_digest bs h)

-- The text of a digest of 32 bytes has the form that file digests are checked for.
nibble-hexdigit : (n : ℕ) → n < 16 → is_ascii_hexdigit (nibble n) ≡ true
nibble-hexdigit n h = ground arith

all-hex_digest : (bs : Bytes) → All (λ b. b < 256) bs → all is_ascii_hexdigit (hex_digest bs) ≡ true
unfolding hex_digest
all-hex_digest [] h = refl
all-hex_digest (b ∷ bs) h =
    ground (arith, nibble-hexdigit (b / 16), nibble-hexdigit (b % 16), all-hex_digest bs h.1)
