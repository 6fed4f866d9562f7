-- ===== src/EthProbe/Stream.antt =====
-- A direction of a TCP stream in apps/eth_probe/stream_tcp.h and stream_tcp.cpp: what add_segment does
-- with the payload of a packet. `ooo` is in the order of the map's keys.
use autosar_idsm.Prelude.{
  ℕ, ◌+◌, ◌-◌, ◌*◌, Bool, true, false, not, ◌&&◌, ◌||◌, List, [], ◌∷◌, ◌++◌, drop, length, ltb, leb,
  ◌==◌, if◌then◌else◌, u32, sub64,
}

-- `a - b` on uint32_t.
abbrev pub sub32 : ℕ → ℕ → ℕ
sub32 a b = u32 (a + 4294967296 - b)

-- `static_cast<int32_t>(a - b) < 0` and `<= 0`
abbrev pub seq_lt : ℕ → ℕ → Bool
seq_lt a b = leb 2147483648 (sub32 a b)

abbrev pub seq_leq : ℕ → ℕ → Bool
seq_leq a b = (sub32 a b == 0) || seq_lt a b

abbrev pub Segments : Type 0
Segments = List (ℕ × List ℕ)

pub record Direction : Type 0 where
  pub initialized : Bool
  pub next_seq : ℕ
  pub ooo : Segments
  pub ooo_bytes : ℕ
  pub gap_pending : Bool
  pub gap_since_ms : ℕ
  pub fin_seen : Bool

abbrev pub no_direction : Direction
no_direction = record {
  initialized = false;
  next_seq = 0;
  ooo = [];
  ooo_bytes = 0;
  gap_pending = false;
  gap_since_ms = 0;
  fin_seen = false;
}

pub record StreamConfig : Type 0 where
  pub max_stream_bytes : ℕ
  pub max_mem_bytes : ℕ
  pub gap_timeout_ms : ℕ

abbrev pub default_stream : StreamConfig
default_stream = record {
  max_stream_bytes = 64 * 1024;
  max_mem_bytes = 4 * 1024 * 1024;
  gap_timeout_ms = 5000;
}

-- `it->first + it->second.size()`, as the comparisons take it.
abbrev pub segment_end : ℕ × List ℕ → ℕ
segment_end s = u32 (s.0 + length s.1)

-- The segments below the lower bound of `begin`, and those from it on.
unfoldable pub below : ℕ → Segments → Segments
below begin [] = []
below begin (s ∷ ooo) = let rest = below begin ooo in if ltb s.0 begin then s ∷ rest else []

unfoldable pub from_bound : ℕ → Segments → Segments
from_bound begin [] = []
from_bound begin (s ∷ ooo) =
    let rest = from_bound begin ooo in if ltb s.0 begin then rest else s ∷ ooo

unfoldable pub last_covers : ℕ → Segments → Bool
last_covers end [] = false
last_covers end (s ∷ ooo) =
    let later = last_covers end ooo in
    elim ooo [ [] ↦ seq_leq end (segment_end s) | t ∷ rest ↦ later ]

-- "duplicate start, no new tail bytes"
unfoldable pub start_covers : ℕ → ℕ → Segments → Bool
start_covers begin end [] = false
start_covers begin end (s ∷ ooo) = (s.0 == begin) && seq_leq end (segment_end s)

-- "drop any later segments fully covered by the new one": their bytes, and the segments left.
unfoldable pub drop_covered : ℕ → Segments → ℕ × Segments
drop_covered end [] = (0, [])
drop_covered end (s ∷ ooo) =
    let rest = drop_covered end ooo in
    if seq_leq (segment_end s) end then (length s.1 + rest.0, rest.1) else (0, s ∷ ooo)

-- "future segment: buffer out-of-order": whether it is dropped for the caps, the direction and the
-- memory in use.
unfoldable pub buffer_segment :
    StreamConfig → ℕ → ℕ → List ℕ → ℕ → Direction → ℕ → Bool × Direction × ℕ
unfolding below from_bound last_covers start_covers drop_covered
buffer_segment cfg begin end bytes now d mem =
    let under = below begin (d.ooo) in
    let over = from_bound begin (d.ooo) in
    let left = drop_covered end over in
    let dominated = start_covers begin end over || last_covers end under in
    if ltb (cfg.max_stream_bytes) (d.ooo_bytes + length bytes)
      || ltb (cfg.max_mem_bytes) (mem + length bytes)
    then (true, d, mem)
    else if dominated
    then (false, d, mem)
    else (
      false,
      record d {
        ooo = under ++ ((begin, bytes) ∷ left.1);
        ooo_bytes = sub64 (d.ooo_bytes) left.0 + length bytes;
        gap_pending = true;
        gap_since_ms = if d.gap_pending then d.gap_since_ms else now;
      },
      sub64 mem left.0 + length bytes,
    )

-- "Drain contiguous out-of-order segments": the bytes delivered, the next number, the bytes freed and
-- the segments left.
unfoldable pub drain_segments : ℕ → Segments → List ℕ × ℕ × ℕ × Segments
drain_segments next [] = ([], next, 0, [])
drain_segments next (s ∷ ooo) =
    let fresh = seq_lt next (segment_end s) in
    let rest = drain_segments (if fresh then segment_end s else next) ooo in
    if seq_leq s.0 next
    then (
      (if fresh then drop (sub32 next s.0) s.1 else []) ++ rest.0,
      rest.1,
      length s.1 + rest.2,
      rest.3,
    )
    else ([], next, 0, s ∷ ooo)

-- "skip gap after timeout"
unfoldable pub skip_gap : StreamConfig → ℕ → Direction → Direction
skip_gap cfg now d = elim (d.ooo) [
  | [] ↦ d
  | s ∷ rest ↦
      if d.gap_pending
        && leb (cfg.gap_timeout_ms) (sub64 now (d.gap_since_ms))
        && seq_lt (d.next_seq) s.0
      then record d { next_seq = s.0; gap_pending = false }
      else d
]

abbrev pub no_segments : Segments → Bool
no_segments [] = true
no_segments (s ∷ rest) = false

unfoldable pub drain : StreamConfig → ℕ → Direction → ℕ → List ℕ × Direction × ℕ
unfolding drain_segments skip_gap
drain cfg now d mem =
    let e = skip_gap cfg now d in
    let out = drain_segments (e.next_seq) (e.ooo) in
    if no_segments (d.ooo) then ([], d, mem) else (
      out.0,
      record e {
        next_seq = out.1;
        ooo = out.3;
        ooo_bytes = sub64 (e.ooo_bytes) out.2;
        gap_pending = e.gap_pending && not (no_segments out.3);
      },
      sub64 mem out.2,
    )

-- What a payload gives: the bytes delivered, whether a cap dropped it, the direction and the memory.
pub record Taken : Type 0 where
  pub delivered : List ℕ
  pub evicted : Bool
  pub direction : Direction
  pub mem_used : ℕ

-- The payload against the next number: retransmitted, overlapping, next, or in the future.
unfoldable pub place_payload : StreamConfig → ℕ → List ℕ → ℕ → Direction → ℕ → Taken
unfolding buffer_segment
place_payload cfg seq bytes now d mem =
    let end = u32 (seq + u32 (length bytes)) in
    let trim = sub32 (d.next_seq) seq in
    let buffered = buffer_segment cfg seq end bytes now d mem in
    if seq_leq end (d.next_seq)
    then record { delivered = []; evicted = false; direction = d; mem_used = mem }
    else if seq_lt seq (d.next_seq)
    then record {
      delivered = drop trim bytes;
      evicted = false;
      direction = record d { next_seq = u32 (d.next_seq + u32 (length bytes - trim)) };
      mem_used = mem;
    }
    else if seq == d.next_seq
    then record {
      delivered = bytes;
      evicted = false;
      direction = record d { next_seq = u32 (d.next_seq + u32 (length bytes)) };
      mem_used = mem;
    }
    else record {
      delivered = [];
      evicted = buffered.0;
      direction = buffered.1;
      mem_used = buffered.2;
    }

unfoldable pub take_payload : StreamConfig → ℕ → List ℕ → ℕ → Direction → ℕ → Taken
unfolding place_payload drain
take_payload cfg seq bytes now d mem =
    let placed = place_payload cfg seq bytes now d mem in
    let drained = drain cfg now (placed.direction) (placed.mem_used) in
    if length bytes == 0
    then record { delivered = []; evicted = false; direction = d; mem_used = mem }
    else record placed {
      delivered = placed.delivered ++ drained.0;
      direction = drained.1;
      mem_used = drained.2;
    }

-- "Sequence init" and "FIN handling" around the payload.
unfoldable pub start_direction : ℕ → Bool → Direction → Direction
start_direction seq syn d =
    if d.initialized
    then d
    else record d { initialized = true; next_seq = u32 (seq + (if syn then 1 else 0)) }

unfoldable pub end_direction : Bool → Direction → Direction
end_direction fin d =
    if fin && not (d.fin_seen)
    then record d { fin_seen = true; next_seq = u32 (d.next_seq + 1) }
    else d

unfoldable pub take_segment : StreamConfig → ℕ → Bool → Bool → List ℕ → ℕ → Direction → ℕ → Taken
unfolding take_payload start_direction end_direction
take_segment cfg seq syn fin bytes now d mem =
    let taken = take_payload cfg seq bytes now (start_direction seq syn d) mem in
    record taken { direction = end_direction fin (taken.direction) }
