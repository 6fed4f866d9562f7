-- ===== src/Idsm/Pending.antt =====
-- The pending counters that `ReportSecurityEvent` and `worker_loop` of src/IdsM_Manager.cpp keep,
-- over the interleavings of callers and worker.
use autosar_idsm.Prelude.{
  Bool, ◌||◌, ltb, ℕ, ◌+◌, ◌<◌, ◌≡◌, ◌∙◌, sym, subst, refl, ◌⊎◌, true, false, Option, some, List,
  [], ◌∷◌, ◌++◌, get_elem?, set, length, Bool-cases, Option-cases, inl, inr, u32, arith,
}
use autosar_idsm.Idsm.Types.{SevConfig, SevState, Manager, Config, e_ok, Timestamp, ReportingMode}
use autosar_idsm.Idsm.Api.{
  returned, init, fresh_sevs, report_security_event, set_reporting_mode, reset_detection_status,
  flush_events, get_pending_event_count, deinit_join, deinit_finish, own_event, configured,
}
use autosar_idsm.Idsm.Filters.{is_out_of_range}
use autosar_idsm.Idsm.Manager.{process_event, expire_windows}
use autosar_idsm.Idsm.Worker.{
  drain_loop, drain, take_batch, World, Request, serve, Step, Reach, idle_world, report, set_mode,
  state_changed, reset_status, flush, set_dem, set_idsr, set_nvm, clear_stats, stop, call, begin,
  late, join, skip_join, clear, enter, sleep, wake, proceed, process, tick, here, next,
}
use autosar_idsm.Idsm.Frame.{
  fixed, fixed_all, fixed_all-set, get_elem?-fixed_all, length-fixed_all, Frame, frame, frame-set,
  core-frame, process_event-frame, expire_windows-frame, release-fixed, qualify_some-core,
}
use autosar_idsm.Idsm.Tally.{
  queued, Tallied, get_elem?-some_lt, get_elem?-none_ge, Tallied-report, drain_loop-Tallied,
  drain_loop-length, fixed_all-fresh_sevs, no_queue,
}

-- Every pending count is right, and without a worker, and with no DeInit past its join, there is neither
-- a SEv nor an event.
record Inv (past : ℕ) (k : Frame) : Type 0 where
  tallied : Tallied (k.fixed_sevs) (k.queue)
  idle : past ≡ 0 → k.joinable ≡ false → (length (k.fixed_sevs) ≡ 0) × (length (k.queue) ≡ 0)

drain-Inv : (past : ℕ) (m : Manager) → Inv past (frame m) → Inv past (frame (drain m))
unfolding drain frame
drain-Inv past m v = record {
  tallied = drain_loop-Tallied (m.incoming_queue) (m.sevs) (v.tallied);
  idle = λ calm stopped. (
    omega (
      arith,
      (v.idle calm stopped).0,
      length-fixed_all (m.sevs),
      length-fixed_all (drain_loop (m.incoming_queue) (m.sevs)),
      drain_loop-length (m.incoming_queue) (m.sevs),
    ),
    refl,
  );
}

take_batch_cases :
    (w : World)
    → ((take_batch w).manager ≡ w.manager) ⊎ ((take_batch w).manager ≡ drain (w.manager))
unfolding take_batch
take_batch_cases w = ground arith

same_frame :
    (past : ℕ) (m n : Manager) → frame n ≡ frame m → Inv past (frame m) → Inv past (frame n)
same_frame past m n e v = subst (Inv past) (sym e) v

take_batch-Inv :
    (past : ℕ) (w : World)
    → Inv past (frame (w.manager))
    → Inv past (frame ((take_batch w).manager))
take_batch-Inv past w v = elim (take_batch_cases w) [
  | inl same ↦ rw same v
  | inr drained ↦ rw drained (drain-Inv past (w.manager) v)
]

init_started :
    (config : Config) (m n : Manager)
    → init (some config) m ≡ returned e_ok n
    → (m.worker_joinable ≡ false)
      × (n.worker_joinable ≡ true)
      × (n.incoming_queue ≡ m.incoming_queue)
      × (configs : List SevConfig) × (n.sevs ≡ fresh_sevs configs)
unfolding init
init_started config m n e = elim (Option-cases (configured config)) [
  | inl absent ↦ absurd (ground arith)
  | inr (configs, found) ↦ (ground arith, ground arith, ground arith, configs, ground arith)
]

init-Inv :
    (config : Config) (m n : Manager)
    → init (some config) m ≡ returned e_ok n
    → Inv 0 (frame m)
    → Inv 0 (frame n)
unfolding frame
init-Inv config m n e v =
    let (idle, joinable, queue, configs, sevs) = init_started config m n e in
    record {
      tallied = λ i f found.
          fixed_all-fresh_sevs configs i f (rw sevs at found)
          ∙ sym (rw queue (no_queue (m.incoming_queue) i (v.idle refl idle).1));
      idle = λ calm stopped. absurd (ground arith);
    }

-- A report is refused, or it is queued and counted.
pub report_cases :
    (sev_id : ℕ) (context : List ℕ) (version count : ℕ) (timestamp : Option Timestamp) (m : Manager)
    → (report_security_event sev_id context version count timestamp m ≡ m)
      ⊎ ((state : SevState) × (get_elem? (m.sevs) sev_id ≡ some state)
          × (report_security_event sev_id context version count timestamp m ≡ record m {
            sevs =
                set
                  (m.sevs)
                  sev_id
                  (record state { pending_count = u32 (state.pending_count + 1) });
            incoming_queue =
                m.incoming_queue ++ (own_event sev_id context version count timestamp ∷ []);
            stats = record (m.stats) { events_reported = u32 (m.stats.events_reported + 1) };
          }))
report_cases sev_id context version count timestamp m =
    elim (Option-cases (get_elem? (m.sevs) sev_id)) [
      | inl absent ↦ inl (unfold report_security_event in ground arith)
      | inr (state, found) ↦ elim (Bool-cases (m.worker_running)) [
        | inl running ↦ inr (state, found, unfold report_security_event in ground arith)
        | inr off ↦ inl (unfold report_security_event in ground arith)
      ]
    ]

report-Inv :
    (past sev_id : ℕ) (context : List ℕ) (version count : ℕ) (timestamp : Option Timestamp)
    (m : Manager)
    → length (m.incoming_queue) + 1 < 4294967296
    → Inv past (frame m)
    → Inv past (frame (report_security_event sev_id context version count timestamp m))
unfolding frame own_event fixed
report-Inv past sev_id context version count timestamp m room v =
    elim (report_cases sev_id context version count timestamp m) [
      | inl same ↦ rw same v
      | inr (state, found, queued_) ↦
          let event = own_event sev_id context version count timestamp in
          let s : SevState = record state { pending_count = u32 (state.pending_count + 1) } in
          rw (queued_, fixed_all-set (m.sevs) sev_id s)
            (record {
              tallied =
                  Tallied-report (fixed_all (m.sevs)) (m.incoming_queue) event (fixed state) room
                    (get_elem?-fixed_all (m.sevs) sev_id found) (v.tallied);
              idle = λ calm stopped. absurd (
                  omega (
                    arith,
                    (v.idle calm stopped).0,
                    length-fixed_all (m.sevs),
                    get_elem?-some_lt (m.sevs) sev_id found,
                  ));
            })
    ]

set_reporting_mode-frame :
    (sev_id : ℕ) (mode : ReportingMode) (m : Manager)
    → frame (set_reporting_mode sev_id mode m).0 ≡ frame m
unfolding set_reporting_mode
set_reporting_mode-frame sev_id mode m = elim (Bool-cases (is_out_of_range mode)) [
  | inl bad ↦ rw bad refl
  | inr good ↦ elim (Option-cases (get_elem? (m.sevs) sev_id)) [
    | inl absent ↦ rw (good, absent, set_reporting_mode) refl
    | inr (s, found) ↦
        rw (good, found, set_reporting_mode) (frame-set m sev_id s _ found (unfold fixed in refl))
  ]
]

reset_detection_status-frame :
    (sev_id : ℕ) (m : Manager) → frame (reset_detection_status sev_id m).0 ≡ frame m
unfolding reset_detection_status
reset_detection_status-frame sev_id m = elim (Option-cases (get_elem? (m.sevs) sev_id)) [
  | inl absent ↦ rw (absent, reset_detection_status) refl
  | inr (s, found) ↦
      rw (found, reset_detection_status) (frame-set m sev_id s _ found (unfold fixed in refl))
]

flush_events-frame : (sev_id now : ℕ) (m : Manager) → frame (flush_events sev_id now m).0 ≡ frame m
unfolding flush_events
flush_events-frame sev_id now m = elim (Option-cases (get_elem? (m.sevs) sev_id)) [
  | inl absent ↦ rw (absent, flush_events) refl
  | inr (s, found) ↦ elim (Option-cases (s.agg_pending)) [
    | inl empty ↦ rw (found, flush_events) (rw (empty, flush_events) refl)
    | inr (staged, full) ↦
        rw (found, flush_events)
          (simp full (
            core-frame _ _ (qualify_some-core (s.config) _ _)
            ∙ frame-set m sev_id s _ found (release-fixed now s staged)))
  ]
]

serve-Inv :
    (past : ℕ) (r : Request) (m : Manager)
    → length (m.incoming_queue) + 1 < 4294967296
    → Inv past (frame m)
    → Inv past (frame (serve r m))
unfolding serve frame
serve-Inv past (report sev_id context version count timestamp) m room v =
    report-Inv past sev_id context version count timestamp m room v
serve-Inv past (set_mode sev_id mode) m room v =
    same_frame past m (set_reporting_mode sev_id mode m).0 (set_reporting_mode-frame sev_id mode m)
      v
serve-Inv past (state_changed state) m room v = record { tallied = v.tallied; idle = v.idle }
serve-Inv past (reset_status sev_id) m room v =
    same_frame past m (reset_detection_status sev_id m).0 (reset_detection_status-frame sev_id m) v
serve-Inv past (flush sev_id now) m room v =
    same_frame past m (flush_events sev_id now m).0 (flush_events-frame sev_id now m) v
serve-Inv past (set_dem cb) m room v = v
serve-Inv past (set_idsr cb) m room v = v
serve-Inv past (set_nvm cb) m room v = v
serve-Inv past clear_stats m room v = record { tallied = v.tallied; idle = v.idle }
serve-Inv past stop m room v = record { tallied = v.tallied; idle = v.idle }

take_batch_ghosts :
    (w : World)
    → ((take_batch w).past_join ≡ w.past_join) × ((take_batch w).overlapped ≡ w.overlapped)
unfolding take_batch
take_batch_ghosts w = (ground arith, ground arith)

-- The invariant of a run in which no Init overlaps a DeInit that is past its join.
IsTallied : World → Type 0
IsTallied w = w.overlapped ≡ false → Inv (w.past_join) (frame (w.manager))

no_overlap : (raced : Bool) (past : ℕ) → raced || ltb 0 past ≡ false → (raced ≡ false) × (past ≡ 0)
no_overlap raced past h = (ground arith, ground arith)

take_batch-IsTallied : (w : World) → IsTallied w → IsTallied (take_batch w)
unfolding IsTallied
take_batch-IsTallied w v = λ o.
    let (past, raced) = take_batch_ghosts w in
    rw past (take_batch-Inv (w.past_join) w (v (sym raced ∙ o)))

Step-IsTallied : {w u : World} → Step w u → IsTallied w → IsTallied u
unfolding frame deinit_join deinit_finish fixed_all IsTallied
Step-IsTallied (call w r room) v = λ o. serve-Inv (w.past_join) r (w.manager) room (v o)
Step-IsTallied (late w sev_id context version count timestamp room) v = λ o.
    let reported =
      report-Inv (w.past_join) sev_id context version count timestamp
        (record (w.manager) { worker_running = true }) room
        (record { tallied = (v o).tallied; idle = (v o).idle }) in
    record { tallied = reported.tallied; idle = reported.idle }
Step-IsTallied (begin w config m e) v = λ o.
    let (calm, none_past) = no_overlap (w.overlapped) (w.past_join) o in
    subst (λ past. Inv past (frame m)) (sym none_past)
      (init-Inv config (w.manager) m e
        (subst (λ past. Inv past (frame (w.manager))) none_past (v calm)))
Step-IsTallied (join w p) v =
    λ o. record { tallied = (v o).tallied; idle = λ calm j. absurd (omega (arith, calm)) }
Step-IsTallied (skip_join w p) v =
    λ o. record { tallied = (v o).tallied; idle = λ calm j. absurd (omega (arith, calm)) }
Step-IsTallied (clear w others p) v =
    λ o. record { tallied = λ i f e. cc; idle = λ calm j. (refl, refl) }
Step-IsTallied (enter w p) v = v
Step-IsTallied (sleep w now p q) v = λ o.
    same_frame (w.past_join) (w.manager) (expire_windows now (w.manager)).0
      (expire_windows-frame now (w.manager)) (v o)
Step-IsTallied (wake w d p q) v = take_batch-IsTallied w v
Step-IsTallied (proceed w p q) v = take_batch-IsTallied w v
Step-IsTallied (process w c event rest p q) v = λ o.
    same_frame (w.past_join) (w.manager) (process_event c event (w.manager))
      (process_event-frame c event (w.manager)) (v o)
Step-IsTallied (tick w now p q) v = λ o.
    same_frame (w.past_join) (w.manager) (expire_windows now (w.manager)).0
      (expire_windows-frame now (w.manager)) (v o)

Reach-IsTallied : {w : World} → Reach idle_world w → IsTallied w
unfolding frame fixed_all IsTallied
Reach-IsTallied here = λ o. record { tallied = λ i f e. cc; idle = λ calm j. (refl, refl) }
Reach-IsTallied (next r s) = Step-IsTallied s (Reach-IsTallied r)

-- In every state that callers and worker reach from the start, where no Init has started the worker
-- while a DeInit was between its join and the lock after it, the pending count of a configured SEv is
-- the number of its events in the queue.
pub get_pending_event_count-queued :
    (w : World) (i : ℕ)
    → Reach idle_world w
    → w.overlapped ≡ false
    → i < length (w.manager.sevs)
    → get_pending_event_count i (w.manager) ≡ queued i (w.manager.incoming_queue)
unfolding get_pending_event_count
get_pending_event_count-queued w i r o h = elim (Option-cases (get_elem? (w.manager.sevs) i)) [
  | inl absent ↦ absurd (get_elem?-none_ge (w.manager.sevs) i h absent)
  | inr (s, found) ↦
      rw (found, get_pending_event_count)
        (unfold frame fixed IsTallied in
          (Reach-IsTallied r o).tallied i (fixed s) (get_elem?-fixed_all (w.manager.sevs) i found))
]
