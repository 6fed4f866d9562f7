-- ===== src/HostProbe/Hex.antt =====
-- The hexadecimal digests of apps/host_probe/sha256.cpp.
use autosar_idsm.Prelude.{
  ℕ, ◌+◌, ◌-◌, ◌*◌, ◌/◌, ◌%◌, ◌<◌, ◌≡◌, refl, ◌&&◌, Option, none, some, List, [], ◌∷◌, All, length,
  ltb, leb, ◌==◌, if◌then◌else◌, u8, arith,
}

-- `k_hex[n]`
unfoldable pub hex_digit : ℕ → ℕ
hex_digit n = if ltb n 10 then 48 + n else 87 + n

unfoldable pub sha256_hex : List ℕ → List ℕ
unfolding hex_digit
sha256_hex [] = []
sha256_hex (b ∷ digest) = hex_digit (b / 16) ∷ hex_digit (b % 16) ∷ sha256_hex digest

-- `nib`
unfoldable pub nib : ℕ → Option ℕ
nib c =
    if leb 48 c && leb c 57
    then some (c - 48)
    else if leb 97 c && leb c 102
    then some (c - 97 + 10)
    else if leb 65 c && leb c 70
    then some (c - 65 + 10)
    else none

-- `static_cast<uint8_t>((hi << 4) | lo)`, in front of the bytes that follow.
unfoldable pub hex_byte : Option ℕ → Option ℕ → Option (List ℕ) → Option (List ℕ)
hex_byte (some hi) (some lo) (some rest) = some (u8 (hi * 16 + lo) ∷ rest)
hex_byte _ _ _ = none

unfoldable pub hex_bytes : List ℕ → Option (List ℕ)
unfolding nib hex_byte
hex_bytes [] = some []
hex_bytes (h ∷ []) = none
hex_bytes (h ∷ l ∷ hex) = hex_byte (nib h) (nib l) (hex_bytes hex)

unfoldable pub sha256_from_hex : List ℕ → Option (List ℕ)
unfolding hex_bytes
sha256_from_hex hex = if length hex == 64 then hex_bytes hex else none

nib-hex_digit : (n : ℕ) → n < 16 → nib (hex_digit n) ≡ some n
unfolding nib hex_digit
nib-hex_digit n h = ground arith

hex_byte_lem :
    (b : ℕ) (rest : List ℕ)
    → b < 256
    → hex_byte (some (b / 16)) (some (b % 16)) (some rest) ≡ some (b ∷ rest)
unfolding hex_byte
hex_byte_lem b rest h = let same : u8 (b / 16 * 16 + b % 16) ≡ b = omega arith in rw same refl

hex_bytes-sha256_hex :
    (digest : List ℕ) → All (λ b. b < 256) digest → hex_bytes (sha256_hex digest) ≡ some digest
unfolding hex_bytes sha256_hex
hex_bytes-sha256_hex [] h = refl
hex_bytes-sha256_hex (b ∷ digest) (small, h) =
    rw
      (
        nib-hex_digit (b / 16) (omega (arith, small)),
        nib-hex_digit (b % 16) (omega arith),
        hex_bytes-sha256_hex digest h,
      )
      (hex_byte_lem b digest small)

pub length-sha256_hex :
    (digest : List ℕ) → length (sha256_hex digest) ≡ length digest + length digest
unfolding sha256_hex
length-sha256_hex [] = refl
length-sha256_hex (b ∷ digest) = omega (arith, length-sha256_hex digest)

pub sha256_from_hex-sha256_hex :
    (digest : List ℕ)
    → length digest ≡ 32
    → All (λ b. b < 256) digest
    → sha256_from_hex (sha256_hex digest) ≡ some digest
unfolding sha256_from_hex
sha256_from_hex-sha256_hex digest size small =
    let full : length (sha256_hex digest) ≡ 64 = omega (arith, length-sha256_hex digest, size) in
    rw full (hex_bytes-sha256_hex digest small)
