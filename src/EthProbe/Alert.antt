-- ===== src/EthProbe/Alert.antt =====
-- The alerts of apps/eth_probe/alert.h and alert.cpp.
use autosar_idsm.Prelude.{ℕ, List}
use autosar_idsm.EthProbe.Packet.{ParsedPacket}

abbrev pub dt_port_scan : ℕ
dt_port_scan = 1

abbrev pub dt_rate_flood : ℕ
dt_rate_flood = 2

abbrev pub dt_flag_anomaly : ℕ
dt_flag_anomaly = 3

abbrev pub dt_arp : ℕ
dt_arp = 12

pub record ProbeAlert : Type 0 where
  pub detector_type : ℕ
  pub proto : ℕ
  pub src_port : ℕ
  pub dst_port : ℕ
  pub src_ip : List ℕ
  pub dst_ip : List ℕ
  pub count : ℕ
  pub aux : ℕ

unfoldable pub make_alert : ℕ → ParsedPacket → ℕ → ProbeAlert
make_alert detector_type pp aux = record {
  detector_type = detector_type;
  proto = pp.l4_proto;
  src_port = pp.src_port;
  dst_port = pp.dst_port;
  src_ip = pp.src_ip;
  dst_ip = pp.dst_ip;
  count = 1;
  aux = aux;
}
