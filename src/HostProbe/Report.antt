-- ===== src/HostProbe/Report.antt =====
-- The reporting of apps/host_probe/main.cpp: an alert becomes a security event of the IDS manager.
use autosar_idsm.Prelude.{
  ℕ, ◌-◌, ◌/◌, ◌&&◌, none, List, [], ◌∷◌, ◌++◌, ltb, leb, ◌==◌, if◌then◌else◌, u8, u16,
}
use autosar_idsm.Idsm.Types.{Manager}
use autosar_idsm.Idsm.Api.{report_security_event}
use autosar_idsm.HostProbe.Alert.{HostAlert}

unfoldable pub sev_for_detector : ℕ → ℕ
sev_for_detector detector_type =
    if leb 1 detector_type && leb detector_type 10 then u16 (detector_type - 1) else 0xFFFF

-- `for (int i = 3; i >= 0; --i) out[o++] = static_cast<uint8_t>(x >> (8 * i));`
abbrev pub big_endian : ℕ → List ℕ → List ℕ
big_endian x rest = u8 (x / 16777216) ∷ u8 (x / 65536) ∷ u8 (x / 256) ∷ u8 x ∷ rest

-- serialize_context: 32 bytes.
unfoldable pub serialize_context : HostAlert → List ℕ
serialize_context a =
    a.detector_type
    ∷ a.flags
    ∷ big_endian (a.pid)
        (big_endian (a.uid) (big_endian (a.count) (big_endian (a.aux) (a.name ++ (0 ∷ 0 ∷ [])))))

unfoldable pub report_count : HostAlert → ℕ
report_count a = u16 (if ltb 65535 (a.count) then 65535 else if a.count == 0 then 1 else a.count)

-- report_alert, without its log line.
unfoldable pub report_alert : HostAlert → Manager → Manager
unfolding sev_for_detector serialize_context report_count
report_alert a m =
    let sev = sev_for_detector (a.detector_type) in
    if sev == 0xFFFF
    then m
    else report_security_event sev (serialize_context a) 1 (report_count a) none m

-- The callback, for each alert in order.
unfoldable pub report_all : List HostAlert → Manager → Manager
unfolding report_alert
report_all [] m = m
report_all (a ∷ alerts) m = report_all alerts (report_alert a m)
