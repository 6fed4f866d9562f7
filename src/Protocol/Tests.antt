-- ===== src/Protocol/Tests.antt =====
-- The serializer's theorems at concrete messages.
use autosar_idsm.Prelude.{
  ℕ, ◌+◌, ◌≤◌, ◌≡◌, refl, true, some, List, [], ◌∷◌, ◌++◌, drop, take, replicate, length, ltb,
  if◌then◌else◌, arith,
}
use autosar_idsm.Idsm.Types.{Qsev, medium, oem}
use autosar_idsm.Protocol.Serialize.{
  message_size, message_bytes, serialize_qsev, has_context, context_length_field_size, event_frame,
  timestamp_bytes, header_of, context_frame, length_bytes, copied,
}
use autosar_idsm.Protocol.Decode.{read_message}
use autosar_idsm.Protocol.Write.{serialize_qsev_lem, message_size_wraps}
use autosar_idsm.Protocol.RoundTrip.{IsWireable, content, read_message-serialize_qsev}

-- A QSEv with a timestamp and three bytes of context data.
abbrev sample : Qsev
sample = record {
  idsm_instance_id = 677;
  external_event_id = 0x8001;
  sensor_instance_id = 5;
  severity = medium;
  count = 300;
  has_timestamp = true;
  timestamp = record { seconds = 1700000000; nanoseconds = 123456789; source = oem };
  context_data_version = 1;
  context_data = some (0xDE ∷ 0xAD ∷ 0x01 ∷ []);
  context_data_size = 3;
}

serialize_qsev_lem_example : serialize_qsev (some sample) (some (replicate 30 0)) 30 ≡ (
    if ltb 30 (message_size sample) then (some (replicate 30 0), 0) else (
      some (message_bytes sample ++ drop (message_size sample) (replicate 30 0)),
      message_size sample,
    ))
serialize_qsev_lem_example =
    serialize_qsev_lem sample (replicate 30 0) 30 (omega arith) (omega arith)

-- The same QSEv with a context of 65520 bytes.
abbrev oversized : Qsev
oversized = record sample { context_data = some (replicate 65520 0); context_data_size = 65520 }

message_size_wraps_example :
    (message_size oversized ≤ 21)
    × (length (message_bytes oversized) ≡ message_size oversized + 65536)
message_size_wraps_example =
    message_size_wraps oversized (replicate 65520 0) refl refl (omega arith) (omega arith)

sample-IsWireable : IsWireable sample
sample-IsWireable = record {
  instance_10_bit = omega arith;
  sensor_6_bit = omega arith;
  event_16_bit = omega arith;
  count_16_bit = omega arith;
  version_16_bit = omega arith;
  seconds_32_bit = omega arith;
  nanoseconds_30_bit = omega arith;
  size_16_bit = omega arith;
  size_right = refl;
}

read_message-serialize_qsev_example :
    (out : List ℕ) × ((serialize_qsev (some sample) (some (replicate 30 0)) 30).0 ≡ some out)
    × (read_message (take ((serialize_qsev (some sample) (some (replicate 30 0)) 30).1) out)
        ≡ some (content sample))
unfolding message_size context_length_field_size has_context
read_message-serialize_qsev_example =
    read_message-serialize_qsev sample (replicate 30 0) 30 sample-IsWireable (omega arith)
      (omega arith) (omega arith)

-- The bytes of the sample.
message_bytes-sample :
    message_bytes sample
    ≡ 0x23 ∷ 0xA9 ∷ 0x45 ∷ 0x80 ∷ 0x01 ∷ 0x01 ∷ 0x2C ∷ 0 ∷ 0x87 ∷ 0x5B ∷ 0xCD ∷ 0x15 ∷ 0x65 ∷ 0x53
      ∷ 0xF1 ∷ 0x00 ∷ 0 ∷ 1 ∷ 3 ∷ 0xDE ∷ 0xAD ∷ 0x01 ∷ []
unfolding message_bytes event_frame header_of has_context timestamp_bytes context_frame length_bytes
    copied
message_bytes-sample = refl
