-- ===== src/Protocol/Decode.antt =====
-- A reader of IDS Messages, written from the wire format that the head comment of
-- src/IdsM_Protocol.c describes, with no use of the serializer.
use mathlib.Core.Option
use autosar_idsm.Prelude.{
  ℕ, ◌+◌, ◌*◌, ◌/◌, ◌%◌, ◌^◌, Bool, true, false, ◌&&◌, Option, none, some, List, [], ◌∷◌, length,
  ltb, ◌==◌, if◌then◌else◌,
}
use autosar_idsm.Idsm.Types.{Timestamp, autosar, oem}

-- The content of a message.
pub record Message : Type 0 where
  pub instance_id : ℕ
  pub sensor_id : ℕ
  pub event_id : ℕ
  pub count : ℕ
  pub timestamp : Option Timestamp
  pub context : Option (ℕ × List ℕ)

-- A big-endian number.
unfoldable pub big_endian : List ℕ → ℕ
big_endian [] = 0
big_endian (b ∷ bytes) = b * 256 ^ length bytes + big_endian bytes

-- The optional timestamp, and what follows it.
unfoldable pub read_timestamp : Bool → List ℕ → Option (Option Timestamp × List ℕ)
read_timestamp false rest = some (none, rest)
read_timestamp true (a ∷ b ∷ c ∷ d ∷ e ∷ f ∷ g ∷ h ∷ rest) = some (
  some (record {
    seconds = big_endian (e ∷ f ∷ g ∷ h ∷ []);
    nanoseconds = big_endian ((a % 64) ∷ b ∷ c ∷ d ∷ []);
    source = if a / 128 == 1 then oem else autosar;
  }),
  rest,
)
read_timestamp true _ = none

-- The blob: exactly the bytes that the length announces.
unfoldable pub read_blob : ℕ → ℕ → List ℕ → Option (Option (ℕ × List ℕ))
read_blob version size rest = if length rest == size then some (some (version, rest)) else none

-- The length in its long form of 31 bits, and the blob.
unfoldable pub read_long : ℕ → ℕ → List ℕ → Option (Option (ℕ × List ℕ))
read_long version a (b ∷ c ∷ d ∷ rest) = read_blob version (big_endian (a ∷ b ∷ c ∷ d ∷ [])) rest
read_long version a _ = none

-- The length in its short or long form, and the blob.
unfoldable pub read_length : ℕ → List ℕ → Option (Option (ℕ × List ℕ))
read_length version [] = none
read_length version (a ∷ rest) =
    if ltb a 128 then read_blob version a rest else read_long version (a % 128) rest

-- The optional context data frame, which ends the message.
unfoldable pub read_context : Bool → List ℕ → Option (Option (ℕ × List ℕ))
read_context false [] = some none
read_context false (b ∷ rest) = none
read_context true (a ∷ b ∷ rest) = read_length (a * 256 + b) rest
read_context true _ = none

-- What follows the event frame.
unfoldable pub read_body : Bool → Bool → List ℕ → Option (Option Timestamp × Option (ℕ × List ℕ))
read_body stamped contextual rest = elim (read_timestamp stamped rest) [
  | none ↦ none
  | some (timestamp, behind) ↦
      Option.map (λ context. (timestamp, context)) (read_context contextual behind)
]

-- A message: protocol version 2, header bit 0 for context data and bit 1 for the timestamp.
unfoldable pub read_message : List ℕ → Option Message
read_message (a ∷ b ∷ c ∷ d ∷ e ∷ f ∷ g ∷ h ∷ rest) =
    if (a / 16 == 2) && (h == 0)
    then Option.map
        (λ body. record {
          instance_id = b * 4 + c / 64;
          sensor_id = c % 64;
          event_id = d * 256 + e;
          count = f * 256 + g;
          timestamp = body.0;
          context = body.1;
        })
        (read_body (a / 2 % 2 == 1) (a % 2 == 1) rest)
    else none
read_message _ = none
