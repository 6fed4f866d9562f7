-- ===== src/EthProbe/Advance.antt =====
-- The numbers of apps/eth_probe/stream_tcp.cpp: the next number goes on by the bytes delivered.
use autosar_idsm.Prelude.{
  ℕ, ◌+◌, ◌-◌, ◌<◌, ◌≡◌, ◌∙◌, true, List, [], ◌∷◌, ◌++◌, All, drop, length, length-drop,
  length-append, ◌==◌, u32, Bool-cases, inl, inr, arith,
}
use autosar_idsm.EthProbe.Stream.{
  Segments, Direction, StreamConfig, sub32, seq_lt, seq_leq, buffer_segment, drain_segments,
  place_payload,
}

buffer_segment-next_seq :
    (cfg : StreamConfig) (begin end : ℕ) (bytes : List ℕ) (now : ℕ) (d : Direction) (mem : ℕ)
    → (buffer_segment cfg begin end bytes now d mem).1.next_seq ≡ d.next_seq
unfolding buffer_segment
buffer_segment-next_seq cfg begin end bytes now d mem = ground arith

-- A segment that begins at or before `next` and ends behind it.
wrapped_end :
    (k n len next : ℕ)
    → next < 4294967296
    → k < 4294967296
    → 0 < len
    → len < 2147483648
    → seq_leq k next ≡ true
    → seq_lt next (u32 (k + len)) ≡ true
    → u32 (u32 (k + len) + n) ≡ u32 (next + (len - sub32 next k + n))
wrapped_end k n len next h p q r starts ends = ground arith

-- Segments that a map of 32-bit numbers can hold, none of them empty.
abbrev pub IsShort : ℕ × List ℕ → Type 0
IsShort s = (s.0 < 4294967296) × (0 < length s.1) × (length s.1 < 2147483648)

drain_segments-next :
    (next : ℕ) (ooo : Segments)
    → next < 4294967296
    → All IsShort ooo
    → (drain_segments next ooo).1 ≡ u32 (next + length (drain_segments next ooo).0)
unfolding drain_segments
drain_segments-next next [] h all = omega arith
drain_segments-next next ((k, seg) ∷ ooo) h ((p, q, r), all) = elim (Bool-cases (seq_leq k next)) [
  | inr gap ↦ rw gap (omega arith)
  | inl starts ↦ elim (Bool-cases (seq_lt next (u32 (k + length seg)))) [
    | inl ends ↦
        let rest = drain_segments-next (u32 (k + length seg)) ooo (omega arith) all in
        let bytes = (drain_segments (u32 (k + length seg)) ooo).0 in
        let size : length (drop (sub32 next k) seg ++ bytes)
            ≡ length seg - sub32 next k + length bytes =
          omega (
            arith,
            length-append (drop (sub32 next k) seg) bytes,
            length-drop (sub32 next k) seg,
          ) in
        rw (starts, ends, size)
          (rest ∙ wrapped_end k (length bytes) (length seg) next h p q r starts ends)
    | inr old ↦ rw (starts, old) (drain_segments-next next ooo h all)
  ]
]

place_payload-next :
    (cfg : StreamConfig) (seq : ℕ) (bytes : List ℕ) (now : ℕ) (d : Direction) (mem : ℕ)
    → d.next_seq < 4294967296
    → (place_payload cfg seq bytes now d mem).direction.next_seq
      ≡ u32 (d.next_seq + length ((place_payload cfg seq bytes now d mem).delivered))
unfolding place_payload
place_payload-next cfg seq bytes now d mem h =
    let end = u32 (seq + u32 (length bytes)) in
    elim (Bool-cases (seq_leq end (d.next_seq))) [
      | inl old ↦ rw old (omega arith)
      | inr new ↦ elim (Bool-cases (seq_lt seq (d.next_seq))) [
        | inl overlap ↦
            rw (new, overlap) (omega (arith, length-drop (sub32 (d.next_seq) seq) bytes))
        | inr ahead ↦ elim (Bool-cases (seq == d.next_seq)) [
          | inl next ↦ rw (new, ahead, next) (omega arith)
          | inr future ↦
              rw (new, ahead, future)
                (omega (arith, buffer_segment-next_seq cfg seq end bytes now d mem))
        ]
      ]
    ]

-- The number of the next byte goes on by the number of bytes delivered, modulo 2^32: where a payload
-- is placed, whatever its number, and where segments in waiting that are not empty and shorter than
-- 2^31 are drained.
pub next_seq_advances :
    (cfg : StreamConfig) (seq : ℕ) (bytes : List ℕ) (now : ℕ) (d : Direction) (mem : ℕ)
    → d.next_seq < 4294967296
    → All IsShort (d.ooo)
    → ((place_payload cfg seq bytes now d mem).direction.next_seq
        ≡ u32 (d.next_seq + length ((place_payload cfg seq bytes now d mem).delivered)))
      × ((drain_segments (d.next_seq) (d.ooo)).1
          ≡ u32 (d.next_seq + length (drain_segments (d.next_seq) (d.ooo)).0))
next_seq_advances cfg seq bytes now d mem h all =
    (place_payload-next cfg seq bytes now d mem h, drain_segments-next (d.next_seq) (d.ooo) h all)
