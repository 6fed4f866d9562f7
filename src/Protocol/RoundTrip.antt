-- ===== src/Protocol/RoundTrip.antt =====
-- What `IdsM_Protocol_SerializeQSEv` of src/IdsM_Protocol.c writes reads back as the event.
use Prim.Native.Nat.{bit_or}
use autosar_idsm.Prelude.{
  ℕ, ◌+◌, ◌*◌, ◌/◌, ◌%◌, ◌<◌, ◌≤◌, ◌≡◌, sym, refl, Bool, true, false, none, some, List, [], ◌++◌,
  drop, take, take-append_left, length, ◌==◌, if◌then◌else◌, Option-cases, Bool-cases, inl, inr, u8,
  u16, arith,
}
use autosar_idsm.Idsm.Types.{Qsev}
use autosar_idsm.Protocol.Serialize.{
  message_size, message_bytes, event_frame, context_frame, serialize_qsev, has_context, header_of,
  timestamp_part, context_part,
}
use autosar_idsm.Protocol.Masks.{bit_or_pair}
use autosar_idsm.Protocol.Write.{serialize_qsev_lem, message_size_fits}
use autosar_idsm.Protocol.Decode.{Message, read_timestamp, read_context, read_message, read_body}
use autosar_idsm.Protocol.Frames.{read_timestamp-timestamp_bytes, read_context-context_frame}

-- The bytes behind the context pointer.
abbrev pub bytes_of : Qsev → List ℕ
bytes_of q = elim (q.context_data) [ none ↦ [] | some bytes ↦ bytes ]

-- The values of a QSEv are within the widths that the wire format gives them, and a context pointer
-- comes with its size.
pub record IsWireable (q : Qsev) : Type 0 where
  pub instance_10_bit : q.idsm_instance_id < 1024
  pub sensor_6_bit : q.sensor_instance_id < 64
  pub event_16_bit : q.external_event_id < 65536
  pub count_16_bit : q.count < 65536
  pub version_16_bit : q.context_data_version < 65536
  pub seconds_32_bit : q.timestamp.seconds < 4294967296
  pub nanoseconds_30_bit : q.timestamp.nanoseconds < 1073741824
  pub size_16_bit : q.context_data_size < 65536
  pub size_right : q.context_data_size ≡ length (bytes_of q)

context_part_present :
    (q : Qsev) (bytes : List ℕ)
    → q.context_data ≡ some bytes
    → has_context q ≡ true
    → context_part q ≡ context_frame (q.context_data_version) (q.context_data_size) bytes
context_part_present q bytes c h = ground arith

context_part_absent : (q : Qsev) → has_context q ≡ false → context_part q ≡ []
context_part_absent q h = ground arith

read_context-context_part :
    (q : Qsev)
    → IsWireable q
    → read_context (has_context q) (context_part q)
      ≡ some (if has_context q then some (q.context_data_version, bytes_of q) else none)
read_context-context_part q w = elim (Bool-cases (has_context q)) [
  | inr absent ↦ rw (context_part_absent q absent, absent) (unfold read_context in refl)
  | inl present ↦ elim (Option-cases (q.context_data)) [
    | inl null ↦ absurd (unfold has_context in ground arith)
    | inr (bytes, c) ↦
        let same : bytes_of q ≡ bytes = ground arith in
        let size : q.context_data_size ≡ length bytes = ground arith in
        rw (context_part_present q bytes c present, present, same)
          (read_context-context_frame (q.context_data_version) (q.context_data_size) bytes
            (w.version_16_bit) (w.size_16_bit) size)
  ]
]

-- The bits of the first byte.
header_byte :
    (c t : Bool)
    → let b : ℕ = u8 (bit_or 32 (bit_or (if c then 0x01 else 0) (if t then 0x02 else 0))) in
      (b / 16 ≡ 2) × ((b % 2 == 1) ≡ c) × ((b / 2 % 2 == 1) ≡ t)
header_byte true true = (refl, refl, refl)
header_byte true false = (refl, refl, refl)
header_byte false true = (refl, refl, refl)
header_byte false false = (refl, refl, refl)

-- What a reader is to find: the fields, the timestamp if there is one, and the context data if it is
-- not empty.
abbrev pub content : Qsev → Message
content q = record {
  instance_id = q.idsm_instance_id;
  sensor_id = q.sensor_instance_id;
  event_id = q.external_event_id;
  count = q.count;
  timestamp = if q.has_timestamp then some (q.timestamp) else none;
  context = if has_context q then some (q.context_data_version, bytes_of q) else none;
}

read_timestamp-timestamp_part :
    (q : Qsev) (rest : List ℕ)
    → IsWireable q
    → read_timestamp (q.has_timestamp) (timestamp_part q ++ rest)
      ≡ some (if q.has_timestamp then some (q.timestamp) else none, rest)
read_timestamp-timestamp_part q rest w = elim (Bool-cases (q.has_timestamp)) [
  | inl stamped ↦
      rw stamped (
        read_timestamp-timestamp_bytes (q.timestamp) rest (w.seconds_32_bit) (w.nanoseconds_30_bit))
  | inr bare ↦ rw bare (unfold read_timestamp in refl)
]

fields :
    (q : Qsev)
    → IsWireable q
    → (u8 (q.idsm_instance_id / 4) * 4
          + u8 (bit_or (u16 (q.idsm_instance_id % 4 * 64)) (q.sensor_instance_id % 64)) / 64
        ≡ q.idsm_instance_id)
      × (u8 (bit_or (u16 (q.idsm_instance_id % 4 * 64)) (q.sensor_instance_id % 64)) % 64
          ≡ q.sensor_instance_id)
      × (u8 (q.external_event_id / 256) * 256 + u8 (q.external_event_id % 256)
          ≡ q.external_event_id)
      × (u8 (q.count / 256) * 256 + u8 (q.count % 256) ≡ q.count)
fields q w =
    let small : u16 (q.idsm_instance_id % 4 * 64) ≡ q.idsm_instance_id % 4 * 64 = omega arith in
    let sum =
      bit_or_pair (q.idsm_instance_id % 4) (q.sensor_instance_id % 64) (omega arith)
        (omega arith) in
    rw (small, sum) (omega arith, omega arith, omega arith, omega arith)

read_body-parts :
    (q : Qsev)
    → IsWireable q
    → read_body (q.has_timestamp) (has_context q) (timestamp_part q ++ context_part q)
      ≡ some (
        if q.has_timestamp then some (q.timestamp) else none,
        if has_context q then some (q.context_data_version, bytes_of q) else none,
      )
unfolding read_body
read_body-parts q w =
    ground
      (arith, read_timestamp-timestamp_part q (context_part q) w, read_context-context_part q w)

read_message-message_bytes :
    (q : Qsev) → IsWireable q → read_message (message_bytes q) ≡ some (content q)
unfolding read_message message_bytes event_frame header_of
read_message-message_bytes q w =
    let (two, ctx, ts) = header_byte (has_context q) (q.has_timestamp) in
    let (f1, f2, f3, f4) = fields q w in rw (two, ctx, ts, read_body-parts q w, f1, f2, f3, f4) refl

take_front : (n : ℕ) (xs ys : List ℕ) → n ≡ length xs → take n (xs ++ ys) ≡ xs
take_front n xs ys e = rw e (take-append_left xs ys)

-- What is serialized reads back: for a QSEv within the widths of the wire format, with its context
-- bytes and their number (at most 65513), and a buffer with room for the message, the bytes that the
-- returned count marks off are read, by a reader of the wire format, as the event's identity, count,
-- timestamp if it has one, and context version and data if there are any.
pub read_message-serialize_qsev :
    (q : Qsev) (buffer : List ℕ) (size : ℕ)
    → IsWireable q
    → q.context_data_size + 22 < 65536
    → size ≤ length buffer
    → message_size q ≤ size
    → (out : List ℕ) × ((serialize_qsev (some q) (some buffer) size).0 ≡ some out)
      × (read_message (take ((serialize_qsev (some q) (some buffer) size).1) out)
          ≡ some (content q))
read_message-serialize_qsev q buffer size w fits room enough =
    let out = message_bytes q ++ drop (message_size q) buffer in
    let value : serialize_qsev (some q) (some buffer) size ≡ (some out, message_size q) =
      ground (arith, serialize_qsev_lem q buffer size fits room) in
    let front =
      take_front (message_size q) (message_bytes q) (drop (message_size q) buffer)
        (sym (message_size_fits q fits)) in
    (out, rw value refl, rw value (rw front (read_message-message_bytes q w)))
