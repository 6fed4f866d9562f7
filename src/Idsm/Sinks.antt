-- ===== src/Idsm/Sinks.antt =====
-- What reaches the sinks: `dispatchQsev` and the QSEvs that `processEvent` of src/IdsM_Manager.cpp builds.
use mathlib.Core.List.{append-nil, append_assoc}
use autosar_idsm.Prelude.{
  ℕ, ◌≡◌, refl, sym, Bool, true, false, Option, none, some, List, [], ◌∷◌, ◌++◌, get_elem?,
  if◌then◌else◌, arith,
}
use autosar_idsm.Idsm.Types.{
  SevConfig, SevState, OwnedSev, OwnedQsev, Clock, Manager, Delivery, Qsev, violation,
}
use autosar_idsm.Idsm.Filters.{
  Verdict, qualified, judge, build_qsev, make_internal_timestamp, chain_sampling, chain_aggregation,
  chain_threshold, is_brief,
}
use autosar_idsm.Idsm.Manager.{
  to_c, dispatch_qsev, send_to_dem, send_to_idsr, qualify, settle, process_event,
}

-- The calls that a qualified event makes, DEM first.
abbrev pub target : Bool → Option ℕ → Qsev → List Delivery
target false cb event = []
target true none event = []
target true (some cb) event = record { callback = cb; event = event } ∷ []

abbrev pub targets : SevConfig → Manager → Qsev → List Delivery
targets config m event =
    target (config.sink_to_dem) (m.dem_cb) event ++ target (config.sink_to_idsr) (m.idsr_cb) event

send_to_dem-sent :
    (config : SevConfig) (event : Qsev) (m : Manager)
    → (send_to_dem config event m).sent ≡ m.sent ++ target (config.sink_to_dem) (m.dem_cb) event
unfolding send_to_dem
send_to_dem-sent config event m = ground (arith, append-nil (m.sent))

send_to_idsr-sent :
    (config : SevConfig) (event : Qsev) (m : Manager)
    → (send_to_idsr config event m).sent ≡ m.sent ++ target (config.sink_to_idsr) (m.idsr_cb) event
unfolding send_to_idsr
send_to_idsr-sent config event m = ground (arith, append-nil (m.sent))

send_to_dem-idsr_cb :
    (config : SevConfig) (event : Qsev) (m : Manager)
    → (send_to_dem config event m).idsr_cb ≡ m.idsr_cb
unfolding send_to_dem
send_to_dem-idsr_cb config event m = ground arith

pub dispatch_qsev-sent :
    (config : SevConfig) (q : OwnedQsev) (m : Manager)
    → (dispatch_qsev config q m).sent ≡ m.sent ++ targets config m (to_c q)
unfolding dispatch_qsev
dispatch_qsev-sent config q m =
    rw (send_to_idsr-sent, send_to_dem-sent, send_to_dem-idsr_cb)
      (append_assoc (m.sent) (target (config.sink_to_dem) (m.dem_cb) (to_c q))
        (target (config.sink_to_idsr) (m.idsr_cb) (to_c q)))

-- The sink calls of a verdict.
abbrev pub calls : SevConfig → Manager → Verdict → List Delivery
calls config m (qualified q) = targets config m (to_c q)
calls config m _ = []

settle-sent :
    (config : SevConfig) (verdict : Verdict) (m : Manager)
    → (settle config verdict m).sent ≡ m.sent ++ calls config m verdict
unfolding settle
settle-sent config (qualified q) m = unfold qualify in dispatch_qsev-sent config q _
settle-sent config _ m = sym (append-nil (m.sent))

-- Processing an event of a configured SEv calls the sinks exactly as its verdict says: a qualified
-- event goes once to the DEM callback and then once to the IdsR callback, each if the SEv's
-- configuration selects it and the callback is registered, and any other verdict calls nobody.
pub process_event-sent :
    (c : Clock) (sev : OwnedSev) (m : Manager) (state : SevState)
    → get_elem? (m.sevs) (sev.security_event_id) ≡ some state
    → (process_event c sev m).sent
      ≡ m.sent ++ calls (state.config) m (judge c (m.idsm_instance_id) (m.block_state) sev state).1
unfolding process_event
process_event-sent c sev m state e = rw (e, process_event) (settle-sent (state.config) _ _)

-- What a verdict says of the QSEv that it qualifies, if it does.
abbrev Qualifies : OwnedQsev → Verdict → Type 0
Qualifies q (qualified r) = r ≡ q
Qualifies q _ = Unit

chain_sampling-Qualifies :
    (c : Clock) (state : SevState) (q : OwnedQsev) → Qualifies q (chain_sampling c state q).1
unfolding chain_sampling chain_aggregation chain_threshold
chain_sampling-Qualifies c state q = ground arith

judge-Qualifies :
    (c : Clock) (instance_id block_state : ℕ) (sev : OwnedSev) (state : SevState)
    → Qualifies (build_qsev c instance_id state sev) (judge c instance_id block_state sev state).1
unfolding judge
judge-Qualifies c instance_id block_state sev state = ground (
  arith,
  chain_sampling-Qualifies c (record state { detection_status = violation })
      (build_qsev c instance_id state sev),
)

-- An event that `processEvent` qualifies carries the identity and severity of the SEv's
-- configuration, the reported count and context version, the sensor's timestamp where it gave one
-- and the manager's own otherwise, and the reported context data in the detailed modes, none in the
-- brief ones.
pub qualified_content :
    (c : Clock) (instance_id block_state : ℕ) (sev : OwnedSev) (state : SevState) (q : OwnedQsev)
    → (judge c instance_id block_state sev state).1 ≡ qualified q
    → (q.idsm_instance_id ≡ instance_id)
      × (q.external_event_id ≡ state.config.external_event_id)
      × (q.sensor_instance_id ≡ state.config.sensor_instance_id)
      × (q.severity ≡ state.config.severity)
      × (q.count ≡ sev.count)
      × (q.context_data_version ≡ sev.context_data_version)
      × (q.timestamp ≡ (if sev.has_timestamp then sev.timestamp else make_internal_timestamp c))
      × (q.context_data ≡ (if is_brief (state.reporting_mode) then [] else sev.context_data))
unfolding build_qsev
qualified_content c instance_id block_state sev state q e =
    let same : Qualifies (build_qsev c instance_id state sev) (qualified q) =
      rw e at (judge-Qualifies c instance_id block_state sev state) in
    rw same (refl, refl, refl, refl, refl, refl, refl, refl)
