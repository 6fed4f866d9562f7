-- ===== src/Idsm/Reporting.antt =====
-- What a report to a running IDS manager does, for the probes that report to it.
use autosar_idsm.Prelude.{
  ℕ, zero, suc, ◌+◌, ◌<◌, ◌≤◌, ◌≡◌, refl, true, none, some, List, [], ◌∷◌, ◌++◌, length, get_elem?,
  length-set, inl, inr, u32, arith,
}
use autosar_idsm.Idsm.Types.{Manager, SevState}
use autosar_idsm.Idsm.Api.{report_security_event, own_event}
use autosar_idsm.Idsm.Pending.{report_cases}

-- The manager runs, with the SEvs of the probe's ten detectors.
pub record IsReady (m : Manager) : Type 0 where
  pub running : m.worker_running ≡ true
  pub configured : 10 ≤ length (m.sevs)

pub get_elem?_below {ℓ} :
    {A : Type ℓ} (xs : List A) (i : ℕ) → i < length xs → (x : A) × (get_elem? xs i ≡ some x)
get_elem?_below [] i h = absurd (omega arith)
get_elem?_below (x ∷ xs) zero h = (x, refl)
get_elem?_below (x ∷ xs) (suc i) h = get_elem?_below xs i (omega arith)

pub report_security_event-IsReady :
    (sev_id : ℕ) (context : List ℕ) (version count : ℕ) (m : Manager)
    → IsReady m
    → IsReady (report_security_event sev_id context version count none m)
report_security_event-IsReady sev_id context version count m r =
    elim (report_cases sev_id context version count none m) [
      | inl same ↦ rw same r
      | inr (state, found, changed) ↦ rw changed (record {
        running = r.running;
        configured = omega (
          arith,
          r.configured,
          length-set (m.sevs) sev_id
              (record state { pending_count = u32 (state.pending_count + 1) }),
        );
      })
    ]

pub report_security_event-queue :
    (sev_id : ℕ) (context : List ℕ) (count : ℕ) (m : Manager) (state : SevState)
    → m.worker_running ≡ true
    → get_elem? (m.sevs) sev_id ≡ some state
    → (report_security_event sev_id context 1 count none m).incoming_queue
      ≡ m.incoming_queue ++ (own_event sev_id context 1 count none ∷ [])
unfolding report_security_event
report_security_event-queue sev_id context count m state running found = ground arith
