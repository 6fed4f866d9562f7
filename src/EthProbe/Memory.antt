-- ===== src/EthProbe/Memory.antt =====
-- Reads of a frame in memory (the inline functions and memcpy of apps/eth_probe/packet.cpp). A frame
-- is a list of bytes and a pointer an offset into it; a read out of the frame is `none`.
use autosar_idsm.Prelude.{
  ℕ, zero, suc, ◌+◌, ◌*◌, ◌<◌, ◌≤◌, ◌≡◌, refl, Option, none, some, List, [], ◌∷◌, ◌++◌, get_elem?,
  get_or, take, drop, length, leb, if◌then◌else◌, arith,
}

infixl 5 ◌>>=◌
abbrev pub ◌>>=◌ {ℓ κ} : {A : Type ℓ} {B : Type κ} → Option A → (A → Option B) → Option B
none >>= f = none
some a >>= f = f a

-- `p[i]`
unfoldable pub byte : List ℕ → ℕ → Option ℕ
byte p i = get_elem? p i

-- rd16 and rd32: big-endian.
unfoldable pub rd16 : List ℕ → ℕ → Option ℕ
unfolding byte
rd16 p i = do a ← byte p i; b ← byte p (i + 1); some (a * 256 + b)

unfoldable pub rd32 : List ℕ → ℕ → Option ℕ
unfolding rd16
rd32 p i = do a ← rd16 p i; b ← rd16 p (i + 2); some (a * 65536 + b)

-- `memcpy(dst, p + i, n)`: the n bytes.
unfoldable pub copy : List ℕ → ℕ → ℕ → Option (List ℕ)
copy p i n = if leb (i + n) (length p) then some (take n (drop i p)) else none

-- A copy into the front of an array.
unfoldable pub over_front : List ℕ → List ℕ → List ℕ
over_front bytes old = bytes ++ drop (length bytes) old

pub byte_in : (p : List ℕ) (i : ℕ) → i < length p → byte p i ≡ some (get_or p i 0)
unfolding byte
byte_in [] i h = absurd (omega arith)
byte_in (x ∷ p) zero h = refl
byte_in (x ∷ p) (suc i) h = byte_in p i (omega arith)

pub rd16_in :
    (p : List ℕ) (i : ℕ)
    → i + 1 < length p
    → rd16 p i ≡ some (get_or p i 0 * 256 + get_or p (i + 1) 0)
unfolding rd16
rd16_in p i h = rw (byte_in p i (omega arith)) (rw (byte_in p (i + 1) (omega arith)) refl)

-- The values of reads in range.
abbrev pub word16 : List ℕ → ℕ → ℕ
word16 p i = get_or p i 0 * 256 + get_or p (i + 1) 0

pub rd32_in :
    (p : List ℕ) (i : ℕ)
    → i + 3 < length p
    → rd32 p i ≡ some (word16 p i * 65536 + word16 p (i + 2))
unfolding rd32
rd32_in p i h = rw (rd16_in p i (omega arith)) (rw (rd16_in p (i + 2) (omega arith)) refl)

pub copy_in : (p : List ℕ) (i n : ℕ) → i + n ≤ length p → copy p i n ≡ some (take n (drop i p))
unfolding copy
copy_in p i n h = ground arith
