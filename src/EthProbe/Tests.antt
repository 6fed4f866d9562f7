-- ===== src/EthProbe/Tests.antt =====
-- Runs of the Ethernet probe, and each of its theorems at a concrete input.
use autosar_idsm.Prelude.{
  ℕ, u32, ◌+◌, ◌≡◌, refl, true, false, some, ◌&&◌, List, [], ◌∷◌, ◌++◌, replicate, length, ltb, leb,
  arith,
}
use autosar_idsm.Prelude.Assoc.{lookup, distinct, absent, forget, store}
use autosar_idsm.EthProbe.Packet.{ParsedPacket, empty_packet, Parsed, parse_packet}
use autosar_idsm.EthProbe.Detectors.{Scan, ScanConfig, scan_step}
use autosar_idsm.EthProbe.Scanning.{IsTally, events_for, positive, scan_step-IsTally}
use autosar_idsm.EthProbe.Stream.{
  Direction, Taken, no_direction, default_stream, take_segment, place_payload, drain_segments,
}
use autosar_idsm.EthProbe.Advance.{next_seq_advances}
use autosar_idsm.EthProbe.Bounds.{packet_ok, parse_packet_in_bounds}
use autosar_idsm.EthProbe.Coverage.{copy_range, put_bytes}
use autosar_idsm.EthProbe.Fragment.{frag_key_key}
use autosar_idsm.EthProbe.Defrag.{
  Defrag, default_defrag, add_fragment, frag_key, make_room, make_memory, evict_one, other_in_front,
  expire,
}
use autosar_idsm.EthProbe.Pool.{IsSound, charge}
use autosar_idsm.EthProbe.Refinement.{add_fragment_refines}
use autosar_idsm.EthProbe.Evicting.{evictions_end}
use autosar_idsm.EthProbe.Expiry.{fresh_entry, expire_drops_stale}

-- A UDP datagram of one byte over IPv4.
abbrev udp_frame : List ℕ
udp_frame =
    replicate 12 1
    ++ 8 ∷ 0 ∷ 69 ∷ 0 ∷ 0 ∷ 29 ∷ 0 ∷ 1 ∷ 0 ∷ 0 ∷ 64 ∷ 17 ∷ 0 ∷ 0 ∷ 10 ∷ 0 ∷ 0 ∷ 1 ∷ 10 ∷ 0 ∷ 0 ∷ 2
      ∷ 0 ∷ 53 ∷ 4 ∷ 0 ∷ 0 ∷ 9 ∷ 0 ∷ 0 ∷ 7 ∷ []

parse_packet_in_bounds_example :
    (r : Parsed) × (parse_packet (some udp_frame) ≡ some r)
    × (packet_ok (length udp_frame) (r.packet) ≡ true)
parse_packet_in_bounds_example = parse_packet_in_bounds udp_frame

-- The first twelve bytes of a datagram, and the eight from the eighth on, the last.
abbrev first_fragment : ParsedPacket
first_fragment = record empty_packet {
  is_fragment = true;
  frag_id = 7;
  l4_proto = 17;
  frag_more = true;
}

abbrev last_fragment : ParsedPacket
last_fragment = record first_fragment { frag_offset = 8; frag_more = false }

abbrev first_bytes : List ℕ
first_bytes = replicate 12 1

abbrev last_bytes : List ℕ
last_bytes = replicate 8 2

abbrev one_fragment : Defrag
one_fragment = (add_fragment first_fragment first_bytes 1000 default_defrag).1

default_defrag-IsSound : IsSound default_defrag
unfolding distinct charge
default_defrag-IsSound = record {
  keys = refl;
  entries = tt;
  paid = refl;
  bounded = omega arith;
  small = omega arith;
}

one_fragment-IsSound : IsSound one_fragment
one_fragment-IsSound =
    (add_fragment_refines first_fragment first_bytes 1000 default_defrag 0 default_defrag-IsSound
      (omega arith) (omega arith)).0

-- The bytes of the first fragment stay where the two overlap.
overlap_delivered :
    (add_fragment last_fragment last_bytes 1010 one_fragment).0
    ≡ record { complete = true; evicted = false; datagram = replicate 12 1 ++ replicate 4 2 }
unfolding add_fragment forget store copy_range put_bytes
overlap_delivered = refl

expire_drops_stale_example :
    IsSound ((expire 11000 one_fragment).1)
    × (lookup (frag_key first_fragment) ((expire 11000 one_fragment).1.table)
        ≡ fresh_entry 11000
            (one_fragment.timeout_ms)
            (lookup (frag_key first_fragment) (one_fragment.table)))
expire_drops_stale_example =
    expire_drops_stale 11000 one_fragment (frag_key first_fragment) one_fragment-IsSound

abbrev full_table : Defrag
full_table = record one_fragment { max_datagrams = 1; max_mem_bytes = 12 }

evictions_end_example :
    ((leb
          ((make_room (length (full_table.lru)) full_table).1.max_datagrams)
          (length ((make_room (length (full_table.lru)) full_table).1.table))
        && (evict_one ((make_room (length (full_table.lru)) full_table).1)).0)
      ≡ false)
    × ((ltb
            ((make_memory
              (length (full_table.lru))
              (frag_key empty_packet)
              4
              full_table).1.max_mem_bytes)
            ((make_memory (length (full_table.lru)) (frag_key empty_packet) 4 full_table).1.mem_used
              + 4)
          && other_in_front
              (frag_key empty_packet)
              ((make_memory (length (full_table.lru)) (frag_key empty_packet) 4 full_table).1.lru))
        ≡ false)
evictions_end_example = evictions_end (frag_key empty_packet) 4 full_table

-- Two events for port 80 and one for port 22, the first of them too old at time 10100.
abbrev scanned : Scan
scanned = record {
  events = (0, 80) ∷ (200, 22) ∷ (300, 80) ∷ [];
  port_counts = (80, 2) ∷ (22, 1) ∷ [];
  alerted = false;
}

scanned-IsTally : IsTally (scanned.events) (scanned.port_counts)
unfolding distinct absent lookup positive events_for
scanned-IsTally = record { keys = refl; tally = λ port. ground arith }

abbrev scan_config : ScanConfig
scan_config = record { window_ms = 10000; unique_threshold = 3 }

-- The old event is gone, and the third port alerts.
third_port : scan_step scan_config 443 10100 scanned ≡ (
  true,
  record {
    events = (200, 22) ∷ (300, 80) ∷ (10100, 443) ∷ [];
    port_counts = (80, 1) ∷ (22, 1) ∷ (443, 1) ∷ [];
    alerted = true;
  },
)
unfolding scan_step
third_port = refl

scan_step-IsTally_example :
    IsTally
      ((scan_step scan_config 443 10100 scanned).1.events)
      ((scan_step scan_config 443 10100 scanned).1.port_counts)
scan_step-IsTally_example =
    scan_step-IsTally scan_config 443 10100 scanned (omega arith) scanned-IsTally

-- A stream whose next byte is number 100, and its last two bytes, 101 and 102, that come with the FIN
-- before byte 100: the FIN advances the next number at once, and byte 100 is not delivered.
abbrev before_fin : Direction
before_fin = record no_direction { initialized = true; next_seq = 100 }

abbrev after_fin : Taken
after_fin = take_segment default_stream 101 false true (7 ∷ 8 ∷ []) 0 before_fin 0

fin_out_of_order :
    (take_segment default_stream 100 false false
      (9 ∷ [])
      10
      (after_fin.direction)
      (after_fin.mem_used)).delivered
    ≡ 7 ∷ 8 ∷ []
unfolding take_segment
fin_out_of_order = refl

-- Byte 100 with the segment of bytes 101 and 102 in waiting.
abbrev waiting : Direction
waiting = record before_fin { ooo = (101, 7 ∷ 8 ∷ []) ∷ []; ooo_bytes = 2; gap_pending = true }

next_seq_advances_example :
    ((place_payload default_stream 99 (5 ∷ 9 ∷ []) 10 waiting 2).direction.next_seq
      ≡ u32 (100 + length ((place_payload default_stream 99 (5 ∷ 9 ∷ []) 10 waiting 2).delivered)))
    × ((drain_segments 100 (waiting.ooo)).1
        ≡ u32 (100 + length (drain_segments 100 (waiting.ooo)).0))
next_seq_advances_example =
    next_seq_advances default_stream 99 (5 ∷ 9 ∷ []) 10 waiting 2 (omega arith) (ground arith)
