-- ===== src/CanProbe/Routing.antt =====
-- Which alerts a frame can give (CanProbePipeline::Impl::feed_frame of apps/can_probe/pipeline.cpp).
use autosar_idsm.Prelude.{
  ℕ, ◌≤◌, ◌≡◌, Bool, true, false, not, ◌&&◌, ◌||◌, Option, none, some, List, [], ◌∷◌, ◌++◌, All,
  length, ◌==◌, if◌then◌else◌, Bool-cases, inl, inr, arith,
}
use autosar_idsm.CanProbe.Frame.{CanFrame, is_diag_request_id, is_diag_response_id}
use autosar_idsm.CanProbe.Alert.{
  CanAlert, make_alert, check_dlc_anomaly, check_remote_frame, dt_unknown_id, dt_id_flood,
  dt_bus_flood, dt_error_burst, dt_dlc_anomaly, dt_remote_frame, dt_uds_sec_access, dt_uds_svc_scan,
  dt_diag_flood, dt_cycle_anomaly,
}
use autosar_idsm.CanProbe.Floods.{
  Window, FloodConfig, Cycle, id_flood_feed, bus_flood_feed, error_burst_feed, diag_flood_feed,
  unknown_id_feed, cycle_feed,
}
use autosar_idsm.CanProbe.Diagnostics.{
  SecAccessConfig, SecAccess, SvcScanConfig, SvcScan, sec_access_feed, svc_scan_feed,
}
use autosar_idsm.CanProbe.Pipeline.{
  Pipeline, emit, check_unknown, feed_diagnostics, feed_data, feed_frame,
}

-- An answer is silence or an alert of the given type.
abbrev IsType : ℕ → Option CanAlert → Type 0
IsType t none = Unit
IsType t (some a) = a.detector_type ≡ t

id_flood_feed-dt :
    (cfg : FloodConfig) (f : CanFrame) (now : ℕ) (ids : List (ℕ × Window))
    → IsType dt_id_flood (id_flood_feed cfg f now ids).1
unfolding id_flood_feed make_alert
id_flood_feed-dt cfg f now ids = ground arith

bus_flood_feed-dt :
    (cfg : FloodConfig) (f : CanFrame) (now : ℕ) (w : Window)
    → IsType dt_bus_flood (bus_flood_feed cfg f now w).1
unfolding bus_flood_feed make_alert
bus_flood_feed-dt cfg f now w = ground arith

error_burst_feed-dt :
    (cfg : FloodConfig) (f : CanFrame) (now : ℕ) (w : Window)
    → IsType dt_error_burst (error_burst_feed cfg f now w).1
unfolding error_burst_feed make_alert
error_burst_feed-dt cfg f now w = ground arith

diag_flood_feed-dt :
    (cfg : FloodConfig) (f : CanFrame) (now : ℕ) (ids : List (ℕ × Window))
    → IsType dt_diag_flood (diag_flood_feed cfg f now ids).1
unfolding diag_flood_feed make_alert
diag_flood_feed-dt cfg f now ids = ground arith

sec_access_feed-dt :
    (cfg : SecAccessConfig) (f : CanFrame) (now : ℕ) (ids : List (ℕ × SecAccess))
    → IsType dt_uds_sec_access (sec_access_feed cfg f now ids).1
unfolding sec_access_feed make_alert
sec_access_feed-dt cfg f now ids = ground arith

svc_scan_feed-dt :
    (cfg : SvcScanConfig) (f : CanFrame) (now : ℕ) (ids : List (ℕ × SvcScan))
    → IsType dt_uds_svc_scan (svc_scan_feed cfg f now ids).1
unfolding svc_scan_feed make_alert
svc_scan_feed-dt cfg f now ids = ground arith

cycle_feed-dt :
    (cooldown : ℕ) (f : CanFrame) (now : ℕ) (ids : List (ℕ × Cycle))
    → IsType dt_cycle_anomaly (cycle_feed cooldown f now ids).1
unfolding cycle_feed make_alert
cycle_feed-dt cooldown f now ids = ground arith

-- The types that a class of frames may give.
unfoldable pub allowed : CanFrame → ℕ → Bool
allowed f t =
    if f.err
    then t == dt_error_burst
    else if f.rtr
    then t == dt_remote_frame
    else (t == dt_dlc_anomaly)
      || (t == dt_cycle_anomaly)
      || (t == dt_id_flood)
      || (t == dt_bus_flood)
      || (is_diag_request_id (f.can_id)
          && ((t == dt_diag_flood) || (t == dt_uds_sec_access) || (t == dt_uds_svc_scan)))
      || (not (is_diag_request_id (f.can_id))
          && not (is_diag_response_id (f.can_id))
          && (t == dt_unknown_id))

abbrev pub AllAllowed : CanFrame → List CanAlert → Type 0
AllAllowed f alerts = All (λ a. allowed f (a.detector_type) ≡ true) alerts

AllAllowed-append :
    (f : CanFrame) (xs ys : List CanAlert)
    → AllAllowed f xs
    → AllAllowed f ys
    → AllAllowed f (xs ++ ys)
AllAllowed-append f [] ys hx hy = hy
AllAllowed-append f (x ∷ xs) ys hx hy = (hx.0, AllAllowed-append f xs ys hx.1 hy)

AllAllowed-emit :
    (f : CanFrame) (t : ℕ) (o : Option CanAlert)
    → allowed f t ≡ true
    → IsType t o
    → AllAllowed f (emit o)
AllAllowed-emit f t none h p = tt
AllAllowed-emit f t (some a) h p = (rw p h, tt)

length-emit : (o : Option CanAlert) → length (emit o) ≤ 1
length-emit none = omega arith
length-emit (some a) = omega arith

check_unknown-AllAllowed :
    (known : List ℕ) (f : CanFrame)
    → f.err ≡ false
    → f.rtr ≡ false
    → AllAllowed f (check_unknown known f)
unfolding check_unknown unknown_id_feed allowed
check_unknown-AllAllowed known f e r = ground arith

-- A data frame may give each of the types that its path has.
allowed_data :
    (f : CanFrame)
    → f.err ≡ false
    → f.rtr ≡ false
    → (allowed f dt_dlc_anomaly ≡ true)
      × (allowed f dt_cycle_anomaly ≡ true)
      × (allowed f dt_id_flood ≡ true)
      × (allowed f dt_bus_flood ≡ true)
unfolding allowed
allowed_data f e r = ground arith

allowed_diag :
    (f : CanFrame)
    → f.err ≡ false
    → f.rtr ≡ false
    → is_diag_request_id (f.can_id) ≡ true
    → (allowed f dt_diag_flood ≡ true)
      × (allowed f dt_uds_sec_access ≡ true)
      × (allowed f dt_uds_svc_scan ≡ true)
unfolding allowed
allowed_diag f e r d = ground arith

feed_diagnostics-AllAllowed :
    (f : CanFrame) (now : ℕ) (p : Pipeline)
    → f.err ≡ false
    → f.rtr ≡ false
    → AllAllowed f (feed_diagnostics f now p).1
unfolding feed_diagnostics
feed_diagnostics-AllAllowed f now p e r = elim (Bool-cases (is_diag_request_id (f.can_id))) [
  | inr other ↦ rw other tt
  | inl diag ↦
      let (h9, h7, h8) = allowed_diag f e r diag in
      rw diag (
        AllAllowed-append f _ _ (AllAllowed-emit f _ _ h9 (diag_flood_feed-dt _ f now _)) (
          AllAllowed-append f _ _ (AllAllowed-emit f _ _ h7 (sec_access_feed-dt _ f now _))
            (AllAllowed-emit f _ _ h8 (svc_scan_feed-dt _ f now _))))
]

feed_data-AllAllowed :
    (f : CanFrame) (now : ℕ) (p : Pipeline)
    → f.err ≡ false
    → f.rtr ≡ false
    → AllAllowed f (feed_data f now p).1
unfolding feed_data
feed_data-AllAllowed f now p e r =
    let (h5, h10, h2, h3) = allowed_data f e r in
    AllAllowed-append f _ _ (check_unknown-AllAllowed (p.known) f e r) (
      AllAllowed-append f _ _ (AllAllowed-emit f _ _ h10 (cycle_feed-dt _ f now _)) (
        AllAllowed-append f _ _ (AllAllowed-emit f _ _ h2 (id_flood_feed-dt _ f now _)) (
          AllAllowed-append f _ _ (AllAllowed-emit f _ _ h3 (bus_flood_feed-dt _ f now _))
            (feed_diagnostics-AllAllowed f now _ e r))))

check_dlc_anomaly-AllAllowed : (f : CanFrame) → AllAllowed f (emit (check_dlc_anomaly f))
unfolding check_dlc_anomaly allowed
check_dlc_anomaly-AllAllowed f = ground arith

check_remote_frame-AllAllowed : (f : CanFrame) → AllAllowed f (emit (check_remote_frame f))
unfolding check_remote_frame allowed
check_remote_frame-AllAllowed f = ground arith

error_burst-AllAllowed :
    (cfg : FloodConfig) (f : CanFrame) (now : ℕ) (w : Window)
    → f.err ≡ true
    → AllAllowed f (emit (error_burst_feed cfg f now w).1)
error_burst-AllAllowed cfg f now w e =
    AllAllowed-emit f dt_error_burst _ (unfold allowed in ground arith)
      (error_burst_feed-dt cfg f now w)

-- Every alert that a frame gives is of a type for its class: error bursts from error frames alone, a
-- remote-frame alert from remote frames alone, the diagnostic types from diagnostic requests alone,
-- and never an unknown identifier for a diagnostic request or response.
pub feed_frame-AllAllowed :
    (f : CanFrame) (now : ℕ) (p : Pipeline) → AllAllowed f (feed_frame f now p).1
unfolding feed_frame
feed_frame-AllAllowed f now p = elim (Bool-cases (f.err)) [
  | inl error ↦ simp error (error_burst-AllAllowed _ f now _ error)
  | inr fine ↦ elim (Bool-cases (f.rtr)) [
    | inl remote ↦
        simp (fine, remote)
          (AllAllowed-append f _ _ (check_dlc_anomaly-AllAllowed f)
            (check_remote_frame-AllAllowed f))
    | inr plain ↦
        simp (fine, plain)
          (AllAllowed-append f _ _ (check_dlc_anomaly-AllAllowed f)
            (feed_data-AllAllowed f now p fine plain))
  ]
]

-- A type that some class of frames may give is one of the ten.
allowed-lt : (f : CanFrame) (t : ℕ) → allowed f t ≡ true → (1 ≤ t) × (t ≤ 10)
unfolding allowed
allowed-lt f t h = ground arith

pub AllAllowed-types :
    (f : CanFrame) (alerts : List CanAlert)
    → AllAllowed f alerts
    → All (λ a. (1 ≤ a.detector_type) × (a.detector_type ≤ 10)) alerts
AllAllowed-types f [] h = tt
AllAllowed-types f (a ∷ alerts) (h, hs) =
    (allowed-lt f (a.detector_type) h, AllAllowed-types f alerts hs)
