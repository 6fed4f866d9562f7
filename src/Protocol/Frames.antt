-- ===== src/Protocol/Frames.antt =====
-- The timestamp and the context frame of src/IdsM_Protocol.c, each read back by itself.
use Prim.Native.Nat.{bit_or}
use autosar_idsm.Prelude.{
  ℕ, zero, suc, ◌+◌, ◌*◌, ◌/◌, ◌%◌, ◌<◌, ◌≤◌, ◌≡◌, sym, refl, true, some, List, [], ◌∷◌, ◌++◌, drop,
  length, get_or, leb, ◌==◌, if◌then◌else◌, Bool-cases, inl, inr, u8, arith,
}
use autosar_idsm.Idsm.Types.{Timestamp, TimestampSource, autosar, oem}
use autosar_idsm.Protocol.Serialize.{
  timestamp_bytes, context_frame, length_bytes, copied, source_bit,
}
use autosar_idsm.Protocol.Masks.{bit_or_top, bit_or_none}
use autosar_idsm.Protocol.Decode.{
  big_endian, read_timestamp, read_blob, read_length, read_long, read_context,
}

-- A first byte of a timestamp, taken apart.
source_byte :
    (s : TimestampSource) (x : ℕ)
    → x < 64
    → (u8 (bit_or (source_bit s) x) % 64 ≡ x)
      × ((if u8 (bit_or (source_bit s) x) / 128 == 1 then oem else autosar) ≡ s)
source_byte oem x h = ground (arith, bit_or_top x)
source_byte autosar x h = ground (arith, bit_or_none x)

four_bytes :
    (x : ℕ)
    → x < 4294967296
    → big_endian (u8 (x / 16777216) ∷ u8 (x / 65536 % 256) ∷ u8 (x / 256 % 256) ∷ u8 (x % 256) ∷ [])
      ≡ x
unfolding big_endian
four_bytes x h = omega arith

low_thirty :
    (x : ℕ)
    → x < 1073741824
    → big_endian (
        (x % 1073741824 / 16777216 % 64)
        ∷ u8 (x % 1073741824 / 65536 % 256)
        ∷ u8 (x % 1073741824 / 256 % 256)
        ∷ u8 (x % 1073741824 % 256)
        ∷ [])
      ≡ x
unfolding big_endian
low_thirty x h = omega arith

pub read_timestamp-timestamp_bytes :
    (t : Timestamp) (rest : List ℕ)
    → t.seconds < 4294967296
    → t.nanoseconds < 1073741824
    → read_timestamp true (timestamp_bytes t ++ rest) ≡ some (some t, rest)
unfolding read_timestamp timestamp_bytes
read_timestamp-timestamp_bytes t rest hs hn =
    let (low, src) =
      source_byte (t.source) (t.nanoseconds % 1073741824 / 16777216 % 64) (omega arith) in
    rw (low, src, low_thirty (t.nanoseconds) hn, four_bytes (t.seconds) hs) refl

drop_step :
    (bytes : List ℕ) (i : ℕ)
    → i < length bytes
    → drop i bytes ≡ get_or bytes i 0 ∷ drop (suc i) bytes
drop_step [] i h = absurd (omega arith)
drop_step (b ∷ bytes) zero h = refl
drop_step (b ∷ bytes) (suc i) h = drop_step bytes i (omega arith)

drop_end : (bytes : List ℕ) → drop (length bytes) bytes ≡ []
drop_end [] = refl
drop_end (b ∷ bytes) = drop_end bytes

-- The copy loop copies.
copied-drop : (n i : ℕ) (bytes : List ℕ) → length bytes ≡ i + n → copied n i bytes ≡ drop i bytes
unfolding copied
copied-drop zero i bytes h = let e : i ≡ length bytes = omega arith in rw e (sym (drop_end bytes))
copied-drop (suc n) i bytes h =
    rw (copied-drop n (suc i) bytes (omega arith)) (sym (drop_step bytes i (omega arith)))

copied_all : (bytes : List ℕ) → copied (length bytes) 0 bytes ≡ bytes
copied_all bytes = copied-drop (length bytes) 0 bytes (omega arith)

read_blob_all :
    (version : ℕ) (bytes : List ℕ)
    → read_blob version (length bytes) bytes ≡ some (some (version, bytes))
unfolding read_blob
read_blob_all version bytes = ground arith

read_length_short :
    (version : ℕ) (bytes : List ℕ)
    → length bytes ≤ 127
    → read_length version (u8 (length bytes) ∷ bytes) ≡ some (some (version, bytes))
unfolding read_length
read_length_short version bytes h =
    let e : u8 (length bytes) ≡ length bytes = omega arith in
    ground (arith, read_blob_all version bytes)

long_size :
    (size : ℕ)
    → size < 65536
    → big_endian (0 ∷ u8 (size / 65536 % 256) ∷ u8 (size / 256 % 256) ∷ u8 (size % 256) ∷ []) ≡ size
unfolding big_endian
long_size size h = omega arith

read_length_long :
    (version size : ℕ) (bytes : List ℕ)
    → length bytes ≡ size
    → size < 65536
    → read_length version
        (128 ∷ u8 (size / 65536 % 256) ∷ u8 (size / 256 % 256) ∷ u8 (size % 256) ∷ bytes)
      ≡ some (some (version, bytes))
unfolding read_length read_long
read_length_long version size bytes e h = rw (long_size size h, ← e) (read_blob_all version bytes)

read_length-length_bytes :
    (version : ℕ) (bytes : List ℕ)
    → length bytes < 65536
    → read_length version (length_bytes (length bytes) ++ bytes) ≡ some (some (version, bytes))
unfolding length_bytes
read_length-length_bytes version bytes h = elim (Bool-cases (leb (length bytes) 127)) [
  | inl short ↦ rw short (read_length_short version bytes (ground arith))
  | inr long ↦
      let top : length bytes / 16777216 % 128 ≡ 0 = omega arith in
      rw long (rw top (read_length_long version (length bytes) bytes refl h))
]

pub read_context-context_frame :
    (version size : ℕ) (bytes : List ℕ)
    → version < 65536
    → size < 65536
    → size ≡ length bytes
    → read_context true (context_frame version size bytes) ≡ some (some (version, bytes))
unfolding read_context context_frame
read_context-context_frame version size bytes v h e =
    let whole : u8 (version / 256) * 256 + u8 (version % 256) ≡ version = omega arith in
    let fits : length bytes < 65536 = omega arith in
    rw (whole, e, copied_all bytes) (read_length-length_bytes version bytes fits)
