-- ===== src/HostProbe/Delivery.antt =====
-- The callback of apps/host_probe/main.cpp: every alert of an event becomes a queued security event.
use autosar_idsm.Prelude.{
  ℕ, ◌-◌, ◌≤◌, ◌≡◌, ◌∙◌, ap, refl, none, List, [], ◌∷◌, ◌++◌, All, append_one, append_nothing, ◌==◌,
  false, arith,
}
use autosar_idsm.Idsm.Types.{Manager, OwnedSev}
use autosar_idsm.Idsm.Api.{report_security_event, own_event}
use autosar_idsm.Idsm.Reporting.{
  IsReady, get_elem?_below, report_security_event-IsReady, report_security_event-queue,
}
use autosar_idsm.HostProbe.Event.{HostEvent}
use autosar_idsm.HostProbe.Alert.{HostAlert}
use autosar_idsm.HostProbe.Pipeline.{HostPipeline, feed_event}
use autosar_idsm.HostProbe.Report.{
  sev_for_detector, serialize_context, report_count, report_alert, report_all,
}
use autosar_idsm.HostProbe.Routing.{feed_event-Routed, Routed-types, route, route_types}

-- The event that an alert is queued as.
pub queued_as : HostAlert → OwnedSev
queued_as a = own_event (a.detector_type - 1) (serialize_context a) 1 (report_count a) none

-- The events of a list of alerts.
pub all_queued_as : List HostAlert → List OwnedSev
unfolding queued_as
all_queued_as [] = []
all_queued_as (a ∷ alerts) = queued_as a ∷ all_queued_as alerts

sev_for_detector_lem :
    (t : ℕ) → 1 ≤ t → t ≤ 10 → (sev_for_detector t ≡ t - 1) × ((t - 1 == 0xFFFF) ≡ false)
unfolding sev_for_detector
sev_for_detector_lem t lo hi = ground arith

report_alert_lem :
    (a : HostAlert) (m : Manager)
    → 1 ≤ a.detector_type
    → a.detector_type ≤ 10
    → report_alert a m
      ≡ report_security_event (a.detector_type - 1) (serialize_context a) 1 (report_count a) none m
unfolding report_alert
report_alert_lem a m lo hi =
    let (index, valid) = sev_for_detector_lem (a.detector_type) lo hi in rw index (rw valid refl)

report_alert-queued :
    (a : HostAlert) (m : Manager)
    → (1 ≤ a.detector_type) × (a.detector_type ≤ 10)
    → IsReady m
    → IsReady (report_alert a m)
      × ((report_alert a m).incoming_queue ≡ m.incoming_queue ++ (queued_as a ∷ []))
unfolding queued_as
report_alert-queued a m (lo, hi) r =
    let (state, found) =
      get_elem?_below (m.sevs) (a.detector_type - 1) (omega (arith, r.configured)) in
    rw (report_alert_lem a m lo hi) (
      report_security_event-IsReady (a.detector_type - 1) (serialize_context a) 1 (report_count a) m
          r,
      report_security_event-queue (a.detector_type - 1) (serialize_context a) (report_count a) m
          state (r.running) found,
    )

report_all-queued :
    (alerts : List HostAlert) (m : Manager)
    → All (λ a. (1 ≤ a.detector_type) × (a.detector_type ≤ 10)) alerts
    → IsReady m
    → (report_all alerts m).incoming_queue ≡ m.incoming_queue ++ all_queued_as alerts
unfolding report_all all_queued_as
report_all-queued [] m all r = append_nothing (m.incoming_queue)
report_all-queued (a ∷ alerts) m (valid, all) r =
    let (ready, queued) = report_alert-queued a m valid r in
    report_all-queued alerts (report_alert a m) all ready
    ∙ ap (λ q. q ++ all_queued_as alerts) queued
    ∙ append_one (m.incoming_queue) (all_queued_as alerts) (queued_as a)

-- With the manager running and the SEvs of the ten detectors configured, the alerts of an event are
-- queued behind what is there, all of them and in order, each with its 32-byte context, version 1 and
-- no sensor timestamp, for the SEv with the index below its detector type.
pub report_all-queued_events :
    (ev : HostEvent) (p : HostPipeline) (m : Manager)
    → IsReady m
    → (report_all (feed_event ev p).0 m).incoming_queue
      ≡ m.incoming_queue ++ all_queued_as (feed_event ev p).0
report_all-queued_events ev p m r =
    report_all-queued (feed_event ev p).0 m
      (Routed-types (feed_event ev p).0 (route (ev.kind)) (feed_event-Routed ev p)
        (route_types (ev.kind)))
      r
