-- ===== src/IdsRm/Posting.antt =====
-- The worker and the sink thread of src/IdsRm_Manager.cpp. The HTTP request (`postQsev`, on libcurl)
-- and the socket are parameters: the answers that they give.
use autosar_idsm.Prelude.{ℕ, zero, suc, ◌+◌, Bool, true, false, List, [], ◌∷◌, if◌then◌else◌, u32}
use autosar_idsm.Idsm.Types.{OwnedQsev}
use autosar_idsm.Idsm.Filters.{is_empty}
use autosar_idsm.IdsRm.Types.{RmStats, Reporter}
use autosar_idsm.IdsRm.Reporter.{drop_event}

abbrev pub count_posted : RmStats → RmStats
count_posted s = record s { events_posted = u32 (s.events_posted + 1) }

abbrev pub count_failed : RmStats → RmStats
count_failed s = record s { events_failed = u32 (s.events_failed + 1) }

abbrev pub count_retry : RmStats → RmStats
count_retry s = record s { http_retries = u32 (s.http_retries + 1) }

-- The loop of postWithRetry, with the attempts that are left; `answers` says what `postQsev` returns
-- at each attempt. The waits between attempts are not part of the state.
unfoldable pub post_attempts : (ℕ → Bool) → ℕ → ℕ → RmStats → RmStats × Bool
post_attempts answers attempt zero stats = (count_failed stats, false)
post_attempts answers attempt (suc left) stats =
    let later = post_attempts answers (suc attempt) left (count_retry stats) in
    if answers attempt then (count_posted stats, true) else later

-- postWithRetry: `attempt <= max_retries`.
unfoldable pub post_with_retry : (ℕ → Bool) → Reporter → Reporter
unfolding post_attempts
post_with_retry answers r = record r {
  stats = (post_attempts answers 0 (suc (r.retry_count)) (r.stats)).0;
}

-- The worker's loop body on one event of its batch.
unfoldable pub deliver : (ℕ → Bool) → Reporter → Reporter
deliver answers r =
    if is_empty (r.soc_url)
    then if r.sink_running
      then record r { stats = count_posted (r.stats) }
      else record r { stats = count_failed (r.stats) }
    else post_with_retry answers r

-- The loop over the batch: each event with the answers to its requests.
unfoldable pub deliver_batch : List ((ℕ → Bool) × OwnedQsev) → Reporter → Reporter
deliver_batch [] r = r
deliver_batch ((answers, q) ∷ batch) r = deliver_batch batch (deliver answers r)

-- "Drain entire queue in one lock hold"
unfoldable pub take_all : Reporter → Reporter
take_all r = record r { event_queue = [] }

-- The loop over the events that are left at shutdown: no test of the URL.
unfoldable pub deliver_remaining : List ((ℕ → Bool) × OwnedQsev) → Reporter → Reporter
deliver_remaining [] r = r
deliver_remaining ((answers, q) ∷ remaining) r =
    deliver_remaining remaining (post_with_retry answers r)

-- sink_loop on the event that it took, with what `sink_connect` and the `write` loop return.
unfoldable pub sink_write : Bool → Bool → Reporter → Reporter
sink_write connects writes r =
    if r.sink_connected
    then if writes then r else drop_event (record r { sink_connected = false })
    else if connects
    then if writes then record r { sink_connected = true } else drop_event r
    else drop_event r

-- One round of sink_loop.
unfoldable pub sink_round : Bool → Bool → Reporter → Reporter
sink_round connects writes r = elim (r.sink_queue) [
  | [] ↦ r
  | q ∷ queue ↦ sink_write connects writes (record r { sink_queue = queue })
]
