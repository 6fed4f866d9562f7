-- ===== src/Protocol/Serialize.antt =====
-- `IdsM_Protocol_GetMessageSize` and `IdsM_Protocol_SerializeQSEv` of src/IdsM_Protocol.c. A buffer is
-- a list of bytes; a write out of its range, which the source would make all the same, changes nothing.
use Prim.Native.Nat.{bit_or}
use autosar_idsm.Prelude.{
  ℕ, zero, suc, ◌+◌, ◌*◌, ◌/◌, ◌%◌, Bool, false, ◌||◌, Option, none, some, List, [], ◌∷◌, ◌++◌,
  get_or, set, leb, ltb, ◌==◌, if◌then◌else◌, u8, u16,
}
use autosar_idsm.Idsm.Types.{Qsev, Timestamp, TimestampSource, autosar, oem}

-- IDSM_IDS_CONTEXT_SHORT_MAX
abbrev pub context_short_max : ℕ
context_short_max = 127

-- context_length_field_size
unfoldable pub context_length_field_size : ℕ → ℕ
context_length_field_size size = if leb size context_short_max then 1 else 4

-- `(context_data != NULL) && (context_data_size > 0)`
unfoldable pub has_context : Qsev → Bool
has_context q = elim (q.context_data) [ none ↦ false | some bytes ↦ ltb 0 (q.context_data_size) ]

-- IdsM_Protocol_GetMessageSize on a QSEv that is not NULL; each sum is cut to 16 bits.
unfoldable pub message_size : Qsev → ℕ
message_size q =
    let with_timestamp : ℕ = if q.has_timestamp then u16 (8 + 8) else 8 in
    if has_context q
    then u16
        (with_timestamp + 2 + context_length_field_size (q.context_data_size) + q.context_data_size)
    else with_timestamp

-- The protocol header: bit 0 for context data, bit 1 for a timestamp.
unfoldable pub header_of : Qsev → ℕ
header_of q = bit_or (if has_context q then 0x01 else 0) (if q.has_timestamp then 0x02 else 0)

-- The eight bytes of the event frame. `x & (2^k - 1)` is `x % 2^k`, and `x >> k` is `x / 2^k`.
unfoldable pub event_frame : Qsev → List ℕ
event_frame q =
    u8 (bit_or (2 * 16) (header_of q))
    ∷ u8 (q.idsm_instance_id / 4)
    ∷ u8 (bit_or (u16 (q.idsm_instance_id % 4 * 64)) (q.sensor_instance_id % 64))
    ∷ u8 (q.external_event_id / 256)
    ∷ u8 (q.external_event_id % 256)
    ∷ u8 (q.count / 256)
    ∷ u8 (q.count % 256)
    ∷ 0
    ∷ []

abbrev pub source_bit : TimestampSource → ℕ
source_bit oem = 0x80
source_bit autosar = 0

-- The eight bytes of a timestamp; 30 bits of nanoseconds.
unfoldable pub timestamp_bytes : Timestamp → List ℕ
timestamp_bytes t =
    let ns30 : ℕ = t.nanoseconds % 1073741824 in
    u8 (bit_or (source_bit (t.source)) (ns30 / 16777216 % 64))
    ∷ u8 (ns30 / 65536 % 256)
    ∷ u8 (ns30 / 256 % 256)
    ∷ u8 (ns30 % 256)
    ∷ u8 (t.seconds / 16777216)
    ∷ u8 (t.seconds / 65536 % 256)
    ∷ u8 (t.seconds / 256 % 256)
    ∷ u8 (t.seconds % 256)
    ∷ []

-- The length of the context data, in the short form of one byte or the long form of four.
unfoldable pub length_bytes : ℕ → List ℕ
length_bytes size =
    if leb size context_short_max
    then u8 size ∷ []
    else u8 (bit_or 0x80 (size / 16777216 % 128))
      ∷ u8 (size / 65536 % 256)
      ∷ u8 (size / 256 % 256)
      ∷ u8 (size % 256)
      ∷ []

-- `for (i = 0; i < size; ++i)`: `context_data[i]`, from position i on.
unfoldable pub copied : ℕ → ℕ → List ℕ → List ℕ
copied zero i bytes = []
copied (suc n) i bytes = get_or bytes i 0 ∷ copied n (suc i) bytes

-- The context data frame: version, length and data.
unfoldable pub context_frame : ℕ → ℕ → List ℕ → List ℕ
context_frame version size bytes =
    u8 (version / 256) ∷ u8 (version % 256) ∷ (length_bytes size ++ copied size 0 bytes)

-- `buffer[offset++] = b` for each byte in turn; the offset is a uint16.
unfoldable pub write : List ℕ → List ℕ → ℕ → List ℕ × ℕ
write [] buffer offset = (buffer, offset)
write (b ∷ bytes) buffer offset = write bytes (set buffer offset b) (u16 (offset + 1))

abbrev pub timestamp_part : Qsev → List ℕ
timestamp_part q = if q.has_timestamp then timestamp_bytes (q.timestamp) else []

abbrev pub context_part : Qsev → List ℕ
context_part q = elim (q.context_data) [
  | none ↦ []
  | some bytes ↦
      if has_context q
      then context_frame (q.context_data_version) (q.context_data_size) bytes
      else []
]

-- What the function writes, in order.
unfoldable pub message_bytes : Qsev → List ℕ
message_bytes q = event_frame q ++ (timestamp_part q ++ context_part q)

-- IdsM_Protocol_GetMessageSize
unfoldable pub get_message_size : Option Qsev → ℕ
unfolding message_size
get_message_size none = 0
get_message_size (some q) = message_size q

-- IdsM_Protocol_SerializeQSEv: the buffer afterwards, and the returned count.
unfoldable pub serialize_qsev : Option Qsev → Option (List ℕ) → ℕ → Option (List ℕ) × ℕ
serialize_qsev none buffer size = (buffer, 0)
serialize_qsev (some q) none size = (none, 0)
serialize_qsev (some q) (some buffer) size =
    let (written, offset) = write (message_bytes q) buffer 0 in
    if (message_size q == 0) || ltb size (message_size q)
    then (some buffer, 0)
    else (some written, offset)
