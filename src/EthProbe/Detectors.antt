-- ===== src/EthProbe/Detectors.antt =====
-- The packet detectors of apps/eth_probe/detectors.h and detectors.cpp.
use autosar_idsm.Prelude.{
  ℕ, ◌+◌, ◌/◌, ◌%◌, Bool, true, false, not, ◌&&◌, ◌||◌, Option, none, some, List, [], ◌∷◌, ◌++◌,
  take, replicate, length, ltb, leb, ◌==◌, if◌then◌else◌, u32, sub64, ◌~~◌, nat_key, bytes_key,
}
use autosar_idsm.Prelude.Assoc.{lookup, lookup_or, store, erase}
use autosar_idsm.EthProbe.Packet.{ParsedPacket}
use autosar_idsm.EthProbe.Alert.{
  ProbeAlert, make_alert, dt_port_scan, dt_rate_flood, dt_flag_anomaly, dt_arp,
}

-- A flag of the TCP header: 1, 2, 4, 8, 16 or 32.
abbrev pub flag_set : ℕ → ℕ → Bool
flag_set f bit = f / bit % 2 == 1

unfoldable pub check_flag_anomaly : ParsedPacket → Option ProbeAlert
unfolding make_alert
check_flag_anomaly pp =
    let f = pp.tcp_flags in
    if not (pp.is_tcp)
    then none
    else if f == 0
    then some (make_alert dt_flag_anomaly pp 1)
    else if flag_set f 1 && flag_set f 8 && flag_set f 32
    then some (make_alert dt_flag_anomaly pp 2)
    else if flag_set f 2 && flag_set f 1
    then some (make_alert dt_flag_anomaly pp 3)
    else none

-- PortScanDetector::SrcState; the front of the deque is the head of the list.
pub record Scan : Type 0 where
  pub events : List (ℕ × ℕ)
  pub port_counts : List (ℕ × ℕ)
  pub alerted : Bool

abbrev pub no_scan : Scan
no_scan = record { events = []; port_counts = []; alerted = false }

pub record ScanConfig : Type 0 where
  pub window_ms : ℕ
  pub unique_threshold : ℕ

-- `if (it != end && --it->second == 0) erase(it)`
unfoldable pub drop_port : ℕ → List (ℕ × ℕ) → List (ℕ × ℕ)
unfolding lookup erase store
drop_port port counts = elim (lookup port counts) [
  | none ↦ counts
  | some n ↦
      if u32 (n + 4294967295) == 0
      then erase port counts
      else store port (u32 (n + 4294967295)) counts
]

-- "expire events outside the window"
unfoldable pub expire_events : ℕ → ℕ → List (ℕ × ℕ) → List (ℕ × ℕ) → List (ℕ × ℕ) × List (ℕ × ℕ)
unfolding drop_port
expire_events now window [] counts = ([], counts)
expire_events now window ((ts, port) ∷ events) counts =
    let later = expire_events now window events (drop_port port counts) in
    if leb window (sub64 now ts) then later else ((ts, port) ∷ events, counts)

-- `++st.port_counts[port]`
unfoldable pub add_port : ℕ → List (ℕ × ℕ) → List (ℕ × ℕ)
unfolding store lookup_or
add_port port counts = store port (u32 (lookup_or 0 port counts + 1)) counts

-- The feed for one source: whether it alerts, and its next state.
unfoldable pub scan_step : ScanConfig → ℕ → ℕ → Scan → Bool × Scan
unfolding expire_events add_port
scan_step cfg port now s =
    let left = expire_events now (cfg.window_ms) (s.events) (s.port_counts) in
    let counts = add_port port left.1 in
    let alerted = s.alerted && not (ltb (length left.1) (cfg.unique_threshold)) in
    let hit = leb (cfg.unique_threshold) (length counts) && not alerted in
    (
      hit,
      record {
        events = left.0 ++ ((now, port) ∷ []);
        port_counts = counts;
        alerted = alerted || hit;
      },
    )

-- PortScanDetector, with the state of each source address.
pub record PortScan : Type 0 where
  pub cfg : ScanConfig
  pub sources : List (List ℕ × Scan)

unfoldable pub port_scan_feed : ParsedPacket → ℕ → PortScan → Option ProbeAlert × PortScan
unfolding lookup_or store scan_step make_alert
port_scan_feed pp now d =
    let out = scan_step (d.cfg) (pp.dst_port) now (lookup_or no_scan (pp.src_ip) (d.sources)) in
    let later = record d { sources = store (pp.src_ip) out.1 (d.sources) } in
    if not (pp.is_tcp)
    then (none, d)
    else if out.0
    then (some (make_alert dt_port_scan pp (u32 (length (out.1.port_counts)))), later)
    else (none, later)

-- RateFloodDetector::SrcState and ArpSpoofDetector::StormState, with the length of the window and the
-- threshold.
pub record Tumbling : Type 0 where
  pub active : Bool
  pub window_start : ℕ
  pub count : ℕ
  pub alerted : Bool

abbrev pub no_tumbling : Tumbling
no_tumbling = record { active = false; window_start = 0; count = 0; alerted = false }

unfoldable pub tumble : ℕ → ℕ → ℕ → Tumbling → Bool × Tumbling
tumble window threshold now s =
    let rolled : Tumbling =
      if not (s.active) || leb window (sub64 now (s.window_start))
      then record { active = true; window_start = now; count = 0; alerted = false }
      else s in
    let count = u32 (rolled.count + 1) in
    let hit = leb threshold count && not (rolled.alerted) in
    (hit, record rolled { count = count; alerted = rolled.alerted || hit })

pub record RateFlood : Type 0 where
  pub window_ms : ℕ
  pub pps_threshold : ℕ
  pub sources : List (List ℕ × Tumbling)

unfoldable pub rate_flood_feed : ParsedPacket → ℕ → RateFlood → Option ProbeAlert × RateFlood
unfolding lookup_or store tumble make_alert
rate_flood_feed pp now d =
    let out =
      tumble (d.window_ms) (d.pps_threshold) now (lookup_or no_tumbling (pp.src_ip) (d.sources)) in
    (
      (if out.0
          then some (record (make_alert dt_rate_flood pp (out.1.count)) { count = out.1.count })
          else none),
      record d { sources = store (pp.src_ip) out.1 (d.sources) },
    )

pub record ArpSpoof : Type 0 where
  pub window_ms : ℕ
  pub gratuitous_threshold : ℕ
  pub bindings : List (List ℕ × List ℕ)
  pub gratuitous : List (List ℕ × Tumbling)

-- "reply to broadcast, or request where sender == target", as the code tests it
unfoldable pub is_gratuitous : ParsedPacket → Bool
is_gratuitous pp =
    ((pp.arp_opcode == 2) && (pp.dst_mac ~~ replicate 6 0))
    || ((pp.arp_opcode == 1) && (take 4 (pp.src_ip) ~~ take 4 (pp.dst_ip)))

unfoldable pub gratuitous_feed : ParsedPacket → ℕ → ArpSpoof → Option ProbeAlert × ArpSpoof
unfolding lookup_or store tumble make_alert is_gratuitous
gratuitous_feed pp now d =
    let out =
      tumble (d.window_ms) (d.gratuitous_threshold) now
        (lookup_or no_tumbling (pp.src_mac) (d.gratuitous)) in
    let later = record d { gratuitous = store (pp.src_mac) out.1 (d.gratuitous) } in
    if not (is_gratuitous pp)
    then (none, d)
    else if out.0
    then (some (make_alert dt_arp pp 2), later)
    else (none, later)

-- The binding of a sender address that is not zero.
unfoldable pub bind_feed : ParsedPacket → ℕ → ArpSpoof → Option ProbeAlert × ArpSpoof
unfolding lookup store make_alert gratuitous_feed
bind_feed pp now d =
    let spa = take 4 (pp.src_ip) in
    let bound = record d { bindings = store spa (pp.src_mac) (d.bindings) } in
    elim (lookup spa (d.bindings)) [
      | none ↦ gratuitous_feed pp now bound
      | some mac ↦
          if not (mac ~~ pp.src_mac)
          then (some (make_alert dt_arp pp 1), bound)
          else gratuitous_feed pp now d
    ]

unfoldable pub arp_feed : ParsedPacket → ℕ → ArpSpoof → Option ProbeAlert × ArpSpoof
unfolding bind_feed
arp_feed pp now d =
    if not (pp.is_arp)
    then (none, d)
    else if not (pp.arp_opcode == 1) && not (pp.arp_opcode == 2)
    then (none, d)
    else if take 4 (pp.src_ip) ~~ replicate 4 0
    then (none, d)
    else bind_feed pp now d
