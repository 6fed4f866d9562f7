-- ===== src/CanProbe/Delivery.antt =====
-- The callback of apps/can_probe/main.cpp: every alert of a frame becomes a queued security event.
use autosar_idsm.Prelude.{
  ℕ, ◌-◌, ◌≤◌, ◌≡◌, ap, ◌∙◌, ◌++◌, none, List, [], ◌∷◌, All, append_one, append_nothing, arith,
}
use autosar_idsm.Idsm.Types.{Manager, OwnedSev}
use autosar_idsm.Idsm.Reporting.{IsReady, get_elem?_below, report_security_event-IsReady}
use autosar_idsm.Idsm.Api.{own_event}
use autosar_idsm.CanProbe.Frame.{CanFrame}
use autosar_idsm.CanProbe.Alert.{CanAlert}
use autosar_idsm.CanProbe.Pipeline.{Pipeline, feed_frame}
use autosar_idsm.CanProbe.Report.{report_alert, sev_for_detector, serialize_context, report_count}
use autosar_idsm.CanProbe.Context.{report_alert-queue}
use autosar_idsm.CanProbe.Routing.{feed_frame-AllAllowed, AllAllowed-types}

-- The manager after the callback has reported each alert, in order.
unfoldable pub report_all : List CanAlert → Manager → Manager
report_all [] m = m
report_all (a ∷ alerts) m = report_all alerts (report_alert a m)

report_alert-IsReady : (a : CanAlert) (m : Manager) → IsReady m → IsReady (report_alert a m)
unfolding report_alert
report_alert-IsReady a m r = ground (
  arith,
  report_security_event-IsReady (sev_for_detector (a.detector_type)) (serialize_context a) 1
      (report_count a) m r,
)

-- The event that an alert is queued as.
pub queued_as : CanAlert → OwnedSev
queued_as a = own_event (a.detector_type - 1) (serialize_context a) 1 (report_count a) none

-- The events of a list of alerts.
pub all_queued_as : List CanAlert → List OwnedSev
unfolding queued_as
all_queued_as [] = []
all_queued_as (a ∷ alerts) = queued_as a ∷ all_queued_as alerts

report_alert-queued :
    (a : CanAlert) (m : Manager)
    → (1 ≤ a.detector_type) × (a.detector_type ≤ 10)
    → IsReady m
    → (report_alert a m).incoming_queue ≡ m.incoming_queue ++ (queued_as a ∷ [])
unfolding queued_as
report_alert-queued a m (lo, hi) r =
    let (state, found) =
      get_elem?_below (m.sevs) (a.detector_type - 1) (omega (arith, r.configured)) in
    (report_alert-queue a m state lo hi (r.running) found).0

report_all-queued :
    (alerts : List CanAlert) (m : Manager)
    → All (λ a. (1 ≤ a.detector_type) × (a.detector_type ≤ 10)) alerts
    → IsReady m
    → (report_all alerts m).incoming_queue ≡ m.incoming_queue ++ all_queued_as alerts
unfolding report_all all_queued_as
report_all-queued [] m all r = append_nothing (m.incoming_queue)
report_all-queued (a ∷ alerts) m (valid, all) r =
    report_all-queued alerts (report_alert a m) all (report_alert-IsReady a m r)
    ∙ ap (λ q. q ++ all_queued_as alerts) (report_alert-queued a m valid r)
    ∙ append_one (m.incoming_queue) (all_queued_as alerts) (queued_as a)

-- With the manager running and the SEvs of the ten detectors configured, the alerts that a frame gives
-- are queued behind what is there, all of them and in order, each with its 16-byte context, version 1,
-- its count brought into 16 bits and no sensor timestamp, for the SEv with the index below its
-- detector type.
pub report_all-feed_frame :
    (f : CanFrame) (now : ℕ) (p : Pipeline) (m : Manager)
    → IsReady m
    → (report_all (feed_frame f now p).1 m).incoming_queue
      ≡ m.incoming_queue ++ all_queued_as (feed_frame f now p).1
report_all-feed_frame f now p m r =
    report_all-queued (feed_frame f now p).1 m
      (AllAllowed-types f (feed_frame f now p).1 (feed_frame-AllAllowed f now p)) r
