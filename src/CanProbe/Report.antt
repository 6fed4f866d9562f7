-- ===== src/CanProbe/Report.antt =====
-- The reporting of apps/can_probe/main.cpp: an alert becomes a security event of the IDS manager.
use Prim.Native.Nat.{bit_or}
use autosar_idsm.Prelude.{
  ℕ, ◌-◌, ◌/◌, ◌&&◌, none, List, [], ◌∷◌, ltb, leb, ◌==◌, if◌then◌else◌, u8, u16,
}
use autosar_idsm.Idsm.Types.{Manager}
use autosar_idsm.Idsm.Api.{report_security_event}
use autosar_idsm.CanProbe.Alert.{CanAlert}

-- sev_for_detector
unfoldable pub sev_for_detector : ℕ → ℕ
sev_for_detector detector_type =
    if leb 1 detector_type && leb detector_type 10 then u16 (detector_type - 1) else 0xFFFF

-- The flag byte of the context.
unfoldable pub flag_byte : CanAlert → ℕ
flag_byte a = u8 (
    bit_or
      (bit_or (bit_or (if a.eff then 0x01 else 0) (if a.rtr then 0x02 else 0))
        (if a.fd then 0x04 else 0))
      (if a.err then 0x08 else 0))

-- serialize_context: 16 bytes, big-endian.
unfoldable pub serialize_context : CanAlert → List ℕ
unfolding flag_byte
serialize_context a =
    a.detector_type
    ∷ flag_byte a
    ∷ u8 (a.can_id / 16777216)
    ∷ u8 (a.can_id / 65536)
    ∷ u8 (a.can_id / 256)
    ∷ u8 (a.can_id)
    ∷ 0
    ∷ 0
    ∷ u8 (a.count / 16777216)
    ∷ u8 (a.count / 65536)
    ∷ u8 (a.count / 256)
    ∷ u8 (a.count)
    ∷ u8 (a.aux / 16777216)
    ∷ u8 (a.aux / 65536)
    ∷ u8 (a.aux / 256)
    ∷ u8 (a.aux)
    ∷ []

-- The count of the report: 16 bits, at least 1.
unfoldable pub report_count : CanAlert → ℕ
report_count a = u16 (if ltb 65535 (a.count) then 65535 else if a.count == 0 then 1 else a.count)

-- report_alert, without its log line.
unfoldable pub report_alert : CanAlert → Manager → Manager
report_alert a m =
    let sev = sev_for_detector (a.detector_type) in
    if sev == 0xFFFF
    then m
    else report_security_event sev (serialize_context a) 1 (report_count a) none m
