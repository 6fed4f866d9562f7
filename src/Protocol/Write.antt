-- ===== src/Protocol/Write.antt =====
-- How much `IdsM_Protocol_SerializeQSEv` of src/IdsM_Protocol.c writes, and where.
use mathlib.Core.List.{append_assoc}
use autosar_idsm.Prelude.{
  ℕ, zero, suc, ◌+◌, ◌<◌, ◌≤◌, ◌≡◌, ap, refl, true, some, List, [], ◌∷◌, ◌++◌, drop, set, length,
  ltb, if◌then◌else◌, Option-cases, inl, inr, length-append, arith,
}
use autosar_idsm.Idsm.Types.{Qsev}
use autosar_idsm.Protocol.Serialize.{
  message_size, message_bytes, event_frame, timestamp_bytes, context_frame, length_bytes, copied,
  write, serialize_qsev, has_context, context_length_field_size, timestamp_part, context_part,
}

set-append {ℓ} :
    {A : Type ℓ} (pre : List A) (t b : A) (ts : List A)
    → set (pre ++ (t ∷ ts)) (length pre) b ≡ (pre ++ (b ∷ [])) ++ ts
set-append [] t b ts = refl
set-append (x ∷ pre) t b ts = ap (◌∷◌ x) (set-append pre t b ts)

write_lem :
    (bytes pre tail : List ℕ)
    → length bytes ≤ length tail
    → length pre + length bytes < 65536
    → write bytes (pre ++ tail) (length pre)
      ≡ (pre ++ (bytes ++ drop (length bytes) tail), length pre + length bytes)
unfolding write
write_lem [] pre tail h k = ground arith
write_lem (b ∷ bytes) pre [] h k = absurd (omega arith)
write_lem (b ∷ bytes) pre (t ∷ tail) h k = ground (
  arith,
  set-append pre t b tail,
  length-append pre (b ∷ []),
  append_assoc pre (b ∷ []) (bytes ++ drop (length bytes) tail),
  write_lem bytes (pre ++ (b ∷ [])) tail,
)

length-copied : (n i : ℕ) (bytes : List ℕ) → length (copied n i bytes) ≡ n
unfolding copied
length-copied zero i bytes = refl
length-copied (suc n) i bytes = ap suc (length-copied n (suc i) bytes)

length-length_bytes : (size : ℕ) → length (length_bytes size) ≡ context_length_field_size size
unfolding length_bytes context_length_field_size
length-length_bytes size = ground arith

length-context_frame :
    (version size : ℕ) (bytes : List ℕ)
    → length (context_frame version size bytes) ≡ 2 + context_length_field_size size + size
unfolding context_frame
length-context_frame version size bytes = omega (
  arith,
  length-append {0} (length_bytes size) (copied size 0 bytes),
  length-length_bytes size,
  length-copied size 0 bytes,
)

length-event_frame : (q : Qsev) → length (event_frame q) ≡ 8
unfolding event_frame
length-event_frame q = omega arith

length-timestamp_part : (q : Qsev) → length (timestamp_part q) ≡ (if q.has_timestamp then 8 else 0)
unfolding timestamp_bytes
length-timestamp_part q = ground arith

length-context_part :
    (q : Qsev)
    → length (context_part q) ≡ (
        if has_context q
        then 2 + context_length_field_size (q.context_data_size) + q.context_data_size
        else 0)
unfolding has_context
length-context_part q = elim (Option-cases (q.context_data)) [
  | inl null ↦ ground arith
  | inr (bytes, found) ↦
      ground (arith, length-context_frame (q.context_data_version) (q.context_data_size) bytes)
]

-- The bytes of a message, before any 16-bit cut.
length-message_bytes :
    (q : Qsev)
    → length (message_bytes q)
      ≡ 8
        + ((if q.has_timestamp then 8 else 0)
            + (if has_context q
                then 2 + context_length_field_size (q.context_data_size) + q.context_data_size
                else 0))
unfolding message_bytes
length-message_bytes q = omega (
  arith,
  length-append {0} (event_frame q) (timestamp_part q ++ context_part q),
  length-append {0} (timestamp_part q) (context_part q),
  length-event_frame q,
  length-timestamp_part q,
  length-context_part q,
)

pub message_size_fits :
    (q : Qsev) → q.context_data_size + 22 < 65536 → length (message_bytes q) ≡ message_size q
unfolding message_size context_length_field_size
message_size_fits q h = ground (arith, length-message_bytes q)

message_size_pos : (q : Qsev) → q.context_data_size + 22 < 65536 → 0 < message_size q
unfolding message_size context_length_field_size
message_size_pos q h = ground arith

message_size_lt : (q : Qsev) → message_size q < 65536
unfolding message_size context_length_field_size
message_size_lt q = ground arith

-- For context data of at most 65513 bytes and a caller's size that is within its buffer: a size
-- below the message size returns 0 and leaves the buffer alone; any other writes exactly the
-- message at the front of the buffer, leaves what is behind it, and returns the message size.
pub serialize_qsev_lem :
    (q : Qsev) (buffer : List ℕ) (size : ℕ)
    → q.context_data_size + 22 < 65536
    → size ≤ length buffer
    → serialize_qsev (some q) (some buffer) size ≡ (
        if ltb size (message_size q)
        then (some buffer, 0)
        else (some (message_bytes q ++ drop (message_size q) buffer), message_size q))
unfolding serialize_qsev
serialize_qsev_lem q buffer size fits room = ground (
  arith,
  message_size_fits q fits,
  message_size_pos q fits,
  message_size_lt q,
  write_lem (message_bytes q) [] buffer,
)

-- With a timestamp and context data of 65514 to 65535 bytes the 16-bit message size wraps: the size
-- that guards the buffer is at most 21, and the message is 65536 bytes longer than it.
pub message_size_wraps :
    (q : Qsev) (bytes : List ℕ)
    → q.has_timestamp ≡ true
    → q.context_data ≡ some bytes
    → 65514 ≤ q.context_data_size
    → q.context_data_size < 65536
    → (message_size q ≤ 21) × (length (message_bytes q) ≡ message_size q + 65536)
unfolding message_size context_length_field_size has_context
message_size_wraps q bytes t c lo hi = ground (arith, length-message_bytes q)
