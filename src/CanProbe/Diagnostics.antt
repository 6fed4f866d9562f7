-- ===== src/CanProbe/Diagnostics.antt =====
-- The UDS detectors of apps/can_probe/detectors.h and detectors.cpp.
use autosar_idsm.Prelude.{
  ℕ, ◌+◌, ◌%◌, Bool, true, false, not, ◌&&◌, ◌||◌, Option, none, some, List, [], length, get_or,
  ltb, leb, ◌==◌, if◌then◌else◌, u32, sub64,
}
use autosar_idsm.Prelude.Dict.{put, find_or, insert}
use autosar_idsm.CanProbe.Frame.{CanFrame}
use autosar_idsm.CanProbe.Alert.{CanAlert, make_alert, dt_uds_sec_access, dt_uds_svc_scan}
use autosar_idsm.CanProbe.Floods.{started, flood_alert}

-- UdsSecAccessDetector::Config
pub record SecAccessConfig : Type 0 where
  pub window_ms : ℕ
  pub seed_threshold : ℕ
  pub key_threshold : ℕ

-- UdsSecAccessDetector::TesterState
pub record SecAccess : Type 0 where
  pub window_start : ℕ
  pub seeds : ℕ
  pub keys : ℕ
  pub seed_alerted : Bool
  pub key_alerted : Bool

abbrev pub no_sec_access : SecAccess
no_sec_access = record {
  window_start = 0;
  seeds = 0;
  keys = 0;
  seed_alerted = false;
  key_alerted = false;
}

-- The window of a tester starts or rolls over.
unfoldable pub roll_sec_access : ℕ → ℕ → SecAccess → SecAccess
roll_sec_access window_ms now st =
    let start = started now (st.window_start) in
    if leb window_ms (sub64 now start)
    then record no_sec_access { window_start = now }
    else record st { window_start = start }

-- requestSeed: an odd sub-function.
unfoldable pub count_seed : SecAccessConfig → CanFrame → SecAccess → SecAccess × Option CanAlert
unfolding make_alert
count_seed cfg f st =
    let seeds = u32 (st.seeds + 1) in
    if leb (cfg.seed_threshold) seeds && not (st.seed_alerted)
    then (
      record st { seeds = seeds; seed_alerted = true },
      some (flood_alert dt_uds_sec_access f 1 seeds),
    )
    else (record st { seeds = seeds }, none)

-- sendKey: an even sub-function.
unfoldable pub count_key : SecAccessConfig → CanFrame → SecAccess → SecAccess × Option CanAlert
unfolding make_alert
count_key cfg f st =
    let keys = u32 (st.keys + 1) in
    if leb (cfg.key_threshold) keys && not (st.key_alerted)
    then (
      record st { keys = keys; key_alerted = true },
      some (flood_alert dt_uds_sec_access f 2 keys),
    )
    else (record st { keys = keys }, none)

-- UdsSecAccessDetector::feed; 0x27 is UDS_SID_SECURITY_ACCESS, and bit 7 of the sub-function is left out.
unfoldable pub sec_access_feed :
    SecAccessConfig → CanFrame → ℕ → List (ℕ × SecAccess) → List (ℕ × SecAccess) × Option CanAlert
unfolding roll_sec_access count_seed count_key
sec_access_feed cfg f now testers =
    let rolled = roll_sec_access (cfg.window_ms) now (find_or no_sec_access (f.can_id) testers) in
    let subfn = get_or (f.payload) 1 0 % 128 in
    if ltb (f.len) 2 || not (get_or (f.payload) 0 0 == 0x27)
    then (testers, none)
    else let (next, alert) =
        if subfn % 2 == 1 then count_seed cfg f rolled else count_key cfg f rolled in
      (put (f.can_id) next testers, alert)

-- UdsSvcScanDetector::Config
pub record SvcScanConfig : Type 0 where
  pub window_ms : ℕ
  pub svc_threshold : ℕ

-- UdsSvcScanDetector::TesterState
pub record SvcScan : Type 0 where
  pub window_start : ℕ
  pub sids : List ℕ
  pub alerted : Bool

abbrev pub no_svc_scan : SvcScan
no_svc_scan = record { window_start = 0; sids = []; alerted = false }

-- The part of UdsSvcScanDetector::feed on a tester's state.
unfoldable pub svc_scan_step : SvcScanConfig → CanFrame → ℕ → SvcScan → SvcScan × Option CanAlert
unfolding make_alert insert
svc_scan_step cfg f now st =
    let start = started now (st.window_start) in
    let rolled : SvcScan =
      if leb (cfg.window_ms) (sub64 now start)
      then record { window_start = now; sids = []; alerted = false }
      else record st { window_start = start } in
    let seen = insert (get_or (f.payload) 0 0) (rolled.sids) in
    if leb (cfg.svc_threshold) (length seen) && not (rolled.alerted)
    then (
      record rolled { sids = seen; alerted = true },
      some (flood_alert dt_uds_svc_scan f (u32 (length seen)) (u32 (length seen))),
    )
    else (record rolled { sids = seen }, none)

-- UdsSvcScanDetector::feed
unfoldable pub svc_scan_feed :
    SvcScanConfig → CanFrame → ℕ → List (ℕ × SvcScan) → List (ℕ × SvcScan) × Option CanAlert
unfolding svc_scan_step
svc_scan_feed cfg f now testers =
    if ltb (f.len) 1
    then (testers, none)
    else let (next, alert) = svc_scan_step cfg f now (find_or no_svc_scan (f.can_id) testers) in
      (put (f.can_id) next testers, alert)
