-- ===== src/CanProbe/Alert.antt =====
-- apps/can_probe/alert.h and alert.cpp, and the stateless checks of detectors.cpp.
use autosar_idsm.Prelude.{ℕ, Bool, not, ◌&&◌, ◌||◌, Option, none, some, ltb, if◌then◌else◌}
use autosar_idsm.CanProbe.Frame.{CanFrame}

-- DetectorType
abbrev pub dt_unknown_id : ℕ
dt_unknown_id = 1

abbrev pub dt_id_flood : ℕ
dt_id_flood = 2

abbrev pub dt_bus_flood : ℕ
dt_bus_flood = 3

abbrev pub dt_error_burst : ℕ
dt_error_burst = 4

abbrev pub dt_dlc_anomaly : ℕ
dt_dlc_anomaly = 5

abbrev pub dt_remote_frame : ℕ
dt_remote_frame = 6

abbrev pub dt_uds_sec_access : ℕ
dt_uds_sec_access = 7

abbrev pub dt_uds_svc_scan : ℕ
dt_uds_svc_scan = 8

abbrev pub dt_diag_flood : ℕ
dt_diag_flood = 9

abbrev pub dt_cycle_anomaly : ℕ
dt_cycle_anomaly = 10

-- CanAlert
pub record CanAlert : Type 0 where
  pub detector_type : ℕ
  pub can_id : ℕ
  pub eff : Bool
  pub rtr : Bool
  pub fd : Bool
  pub err : Bool
  pub count : ℕ
  pub aux : ℕ

-- make_alert
unfoldable pub make_alert : ℕ → CanFrame → ℕ → CanAlert
make_alert detector_type f aux = record {
  detector_type = detector_type;
  can_id = f.can_id;
  eff = f.eff;
  rtr = f.rtr;
  fd = f.fd;
  err = f.err;
  count = 1;
  aux = aux;
}

-- check_dlc_anomaly
unfoldable pub check_dlc_anomaly : CanFrame → Option CanAlert
unfolding make_alert
check_dlc_anomaly f =
    if f.err || f.rtr
    then none
    else if not (f.fd) && ltb 8 (f.dlc)
    then some (make_alert dt_dlc_anomaly f 1)
    else if f.fd && ltb 64 (f.dlc)
    then some (make_alert dt_dlc_anomaly f 2)
    else none

-- check_remote_frame
unfoldable pub check_remote_frame : CanFrame → Option CanAlert
unfolding make_alert
check_remote_frame f = if not (f.rtr) || f.err then none else some (make_alert dt_remote_frame f 0)
