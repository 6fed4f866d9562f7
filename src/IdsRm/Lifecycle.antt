-- ===== src/IdsRm/Lifecycle.antt =====
-- What holds in every order of calls and thread steps on the reporter of src/IdsRm_Manager.cpp.
use autosar_idsm.Prelude.{
  ℕ, zero, suc, ◌+◌, ◌≤◌, ◌<◌, ◌≡◌, refl, Bool, true, false, Option, List, [], ◌∷◌, length,
  length-append, arith,
}
use autosar_idsm.Idsm.Types.{Qsev, OwnedQsev}
use autosar_idsm.Idsm.Filters.{is_empty}
use autosar_idsm.IdsRm.Types.{RmConfig, RmStats, Reporter, RmReturn, done}
use autosar_idsm.IdsRm.Reporter.{
  answered, aborted, set_config, reset_rm_stats, set_enabled, register_sink, run_worker,
  start_worker, start_sink, set_initialized, join_worker, run_sink, join_sink, sink_close, enable,
  disable, set_soc_url, set_auth_token, set_local_sink, on_qsev, push_event, tee, count_received,
  drop_event, bounded_string, from_c, strnlen,
}
use autosar_idsm.IdsRm.Posting.{
  deliver, post_attempts, post_with_retry, take_all, sink_round, sink_write, count_retry,
}
use autosar_idsm.IdsRm.Steps.{
  RmStep, RmReach, at_start, after, idle_reporter, configure, clear, store_enabled, register,
  store_worker, begin_worker, begin_sink, store_initialized, halt_worker, store_sink, halt_sink,
  close, relocate, turn_on, turn_off, new_url, new_token, receive, refuse, push, tee_event,
  tee_late, count_event, take_batch, post, post_last, write_out,
}

-- The queues and the retry count are within their limits.
record IsBounded (r : Reporter) : Type 0 where
  queue_128 : length (r.event_queue) ≤ 128
  sink_512 : length (r.sink_queue) ≤ 512
  retries_10 : r.retry_count ≤ 10

-- A change of members that the limits do not mention.
same-IsBounded :
    (r s : Reporter)
    → IsBounded r
    → s.event_queue ≡ r.event_queue
    → s.sink_queue ≡ r.sink_queue
    → s.retry_count ≡ r.retry_count
    → IsBounded s
same-IsBounded r s b e q k = record {
  queue_128 = rw e (b.queue_128);
  sink_512 = rw q (b.sink_512);
  retries_10 = rw k (b.retries_10);
}

-- An answer of a call that leaves those members.
answer-IsBounded :
    (r s t : Reporter) (code : RmReturn)
    → IsBounded s
    → answered code s ≡ answered done t
    → IsBounded t
answer-IsBounded r s t code b h = record {
  queue_128 = ground (arith, b.queue_128, h);
  sink_512 = ground (arith, b.sink_512, h);
  retries_10 = ground (arith, b.retries_10, h);
}

module _ (r : Reporter) (b : IsBounded r) where
  set_config-IsBounded : (config : RmConfig) → IsBounded (set_config config r)
  unfolding set_config
  set_config-IsBounded config = record {
    queue_128 = b.queue_128;
    sink_512 = b.sink_512;
    retries_10 = ground arith;
  }

  start_worker-IsBounded : (s : Reporter) → start_worker r ≡ answered done s → IsBounded s
  unfolding start_worker
  start_worker-IsBounded s h =
      same-IsBounded r s b (ground (arith, h)) (ground (arith, h)) (ground (arith, h))

  start_sink-IsBounded : (s : Reporter) → start_sink r ≡ answered done s → IsBounded s
  unfolding start_sink
  start_sink-IsBounded s h =
      same-IsBounded r s b (ground (arith, h)) (ground (arith, h)) (ground (arith, h))

  set_local_sink-IsBounded :
      (path : List ℕ) (s : Reporter) → set_local_sink path r ≡ answered done s → IsBounded s
  unfolding set_local_sink
  set_local_sink-IsBounded path s h =
      same-IsBounded r s b (ground (arith, h)) (ground (arith, h)) (ground (arith, h))

  enable-IsBounded : IsBounded (enable r).0
  unfolding enable
  enable-IsBounded = same-IsBounded r (enable r).0 b (ground arith) (ground arith) (ground arith)

  disable-IsBounded : IsBounded (disable r).0
  unfolding disable
  disable-IsBounded = same-IsBounded r (disable r).0 b (ground arith) (ground arith) (ground arith)

  set_soc_url-IsBounded : (url : Option (List ℕ)) → IsBounded (set_soc_url url r).0
  unfolding set_soc_url
  set_soc_url-IsBounded url =
      same-IsBounded r (set_soc_url url r).0 b (ground arith) (ground arith) (ground arith)

  set_auth_token-IsBounded : (token : Option (List ℕ)) → IsBounded (set_auth_token token r).0
  unfolding set_auth_token
  set_auth_token-IsBounded token =
      same-IsBounded r (set_auth_token token r).0 b (ground arith) (ground arith) (ground arith)

  on_qsev-IsBounded : (q : Qsev) → IsBounded (on_qsev q r)
  unfolding on_qsev tee drop_event
  on_qsev-IsBounded q = record {
    queue_128 = ground (arith, length-append (r.event_queue) (from_c q ∷ []), b.queue_128);
    sink_512 = ground (arith, length-append (r.sink_queue) (from_c q ∷ []), b.sink_512);
    retries_10 = ground (arith, b.retries_10);
  }

  push_event-IsBounded : (q : OwnedQsev) → IsBounded (push_event q r)
  unfolding push_event drop_event
  push_event-IsBounded q = record {
    queue_128 = ground (arith, length-append (r.event_queue) (q ∷ []), b.queue_128);
    sink_512 = ground (arith, b.sink_512);
    retries_10 = ground (arith, b.retries_10);
  }

  tee-IsBounded : (q : OwnedQsev) → IsBounded (tee q r)
  unfolding tee drop_event
  tee-IsBounded q = record {
    queue_128 = ground (arith, b.queue_128);
    sink_512 = ground (arith, length-append (r.sink_queue) (q ∷ []), b.sink_512);
    retries_10 = ground (arith, b.retries_10);
  }

  post_with_retry-IsBounded : (answers : ℕ → Bool) → IsBounded (post_with_retry answers r)
  unfolding post_with_retry
  post_with_retry-IsBounded answers = same-IsBounded r (post_with_retry answers r) b refl refl refl

  deliver-IsBounded : (answers : ℕ → Bool) → IsBounded (deliver answers r)
  unfolding deliver post_with_retry
  deliver-IsBounded answers =
      same-IsBounded r (deliver answers r) b (ground arith) (ground arith) (ground arith)

  sink_round-IsBounded : (connects writes : Bool) → IsBounded (sink_round connects writes r)
  unfolding sink_round sink_write drop_event
  sink_round-IsBounded connects writes = record {
    queue_128 = ground (arith, b.queue_128);
    sink_512 = ground (arith, b.sink_512);
    retries_10 = ground (arith, b.retries_10);
  }

RmStep-IsBounded : (r s : Reporter) → IsBounded r → RmStep r s → IsBounded s
unfolding reset_rm_stats set_enabled register_sink run_worker set_initialized join_worker run_sink
    join_sink sink_close drop_event count_received take_all
RmStep-IsBounded _ _ b (configure r config) = set_config-IsBounded r b config
RmStep-IsBounded _ _ b (clear r) = same-IsBounded r (reset_rm_stats r) b refl refl refl
RmStep-IsBounded _ _ b (store_enabled r on) = same-IsBounded r (set_enabled on r) b refl refl refl
RmStep-IsBounded _ _ b (register r on) = same-IsBounded r (register_sink on r) b refl refl refl
RmStep-IsBounded _ _ b (store_worker r on) = same-IsBounded r (run_worker on r) b refl refl refl
RmStep-IsBounded _ _ b (begin_worker r s h) = start_worker-IsBounded r b s h
RmStep-IsBounded _ _ b (begin_sink r s h) = start_sink-IsBounded r b s h
RmStep-IsBounded _ _ b (store_initialized r on) =
    same-IsBounded r (set_initialized on r) b refl refl refl
RmStep-IsBounded _ _ b (halt_worker r) = same-IsBounded r (join_worker r) b refl refl refl
RmStep-IsBounded _ _ b (store_sink r on) = same-IsBounded r (run_sink on r) b refl refl refl
RmStep-IsBounded _ _ b (halt_sink r) = same-IsBounded r (join_sink r) b refl refl refl
RmStep-IsBounded _ _ b (close r) = same-IsBounded r (sink_close r) b refl refl refl
RmStep-IsBounded _ _ b (relocate r s path h) = set_local_sink-IsBounded r b path s h
RmStep-IsBounded _ _ b (turn_on r) = enable-IsBounded r b
RmStep-IsBounded _ _ b (turn_off r) = disable-IsBounded r b
RmStep-IsBounded _ _ b (new_url r url) = set_soc_url-IsBounded r b url
RmStep-IsBounded _ _ b (new_token r token) = set_auth_token-IsBounded r b token
RmStep-IsBounded _ _ b (receive r q) = on_qsev-IsBounded r b q
RmStep-IsBounded _ _ b (refuse r) = same-IsBounded r (drop_event r) b refl refl refl
RmStep-IsBounded _ _ b (push r q) = push_event-IsBounded r b q
RmStep-IsBounded _ _ b (tee_event r q) = tee-IsBounded r b q
RmStep-IsBounded _ _ b (tee_late r q) =
    let sinking : Reporter = record r { sink_running = true } in
    let teed = tee-IsBounded sinking (same-IsBounded r sinking b refl refl refl) q in
    record { queue_128 = teed.queue_128; sink_512 = teed.sink_512; retries_10 = teed.retries_10 }
RmStep-IsBounded _ _ b (count_event r) = same-IsBounded r (count_received r) b refl refl refl
RmStep-IsBounded _ _ b (take_batch r) = record {
  queue_128 = omega arith;
  sink_512 = b.sink_512;
  retries_10 = b.retries_10;
}
RmStep-IsBounded _ _ b (post r answers) = deliver-IsBounded r b answers
RmStep-IsBounded _ _ b (post_last r answers) = post_with_retry-IsBounded r b answers
RmStep-IsBounded _ _ b (write_out r connects writes) = sink_round-IsBounded r b connects writes

RmReach-IsBounded : (r s : Reporter) → IsBounded r → RmReach r s → IsBounded s
RmReach-IsBounded r s b at_start = b
RmReach-IsBounded r s b (after {t} path step) =
    RmStep-IsBounded _ s (RmReach-IsBounded r _ b path) step

idle-IsBounded : IsBounded idle_reporter
idle-IsBounded = record {
  queue_128 = omega arith;
  sink_512 = omega arith;
  retries_10 = omega arith;
}

-- The attempts that are left read no other answers than theirs.
post_attempts-agree :
    (a b : ℕ → Bool) (attempt left : ℕ) (stats : RmStats)
    → ((j : ℕ) → j < attempt + left → a j ≡ b j)
    → post_attempts a attempt left stats ≡ post_attempts b attempt left stats
unfolding post_attempts
post_attempts-agree a b attempt zero stats h = refl
post_attempts-agree a b attempt (suc left) stats h =
    rw
      (
        h attempt (omega arith),
        post_attempts-agree a b (suc attempt) left (count_retry stats)
            (λ j below. h j (omega arith)),
      )
      refl

-- In every state that calls and threads reach from the start by steps in any order, the two queues
-- hold at most 128 and 512 events, and the outcome of an event that is posted with retries depends on
-- the answers to its first eleven requests alone, whatever a twelfth would be answered.
pub reporter_is_bounded :
    (r : Reporter) (a b : ℕ → Bool)
    → RmReach idle_reporter r
    → ((j : ℕ) → j < 11 → a j ≡ b j)
    → (length (r.event_queue) ≤ 128)
      × (length (r.sink_queue) ≤ 512)
      × (post_with_retry a r ≡ post_with_retry b r)
unfolding post_with_retry
reporter_is_bounded r a b path same =
    let limits = RmReach-IsBounded idle_reporter r idle-IsBounded path in
    (
      limits.queue_128,
      limits.sink_512,
      rw
          (post_attempts-agree a b 0 (suc (r.retry_count)) (r.stats)
            (λ j below. same j (omega (arith, limits.retries_10))))
          refl,
    )

-- On an initialized reporter whose local sink runs, switching the sink off succeeds, and switching
-- it on again with a path that is not empty, while the old thread has not been joined, ends the
-- process.
pub set_local_sink_again :
    (r : Reporter) (path : List ℕ)
    → r.initialized ≡ true
    → r.sink_running ≡ true
    → r.sink_joinable ≡ true
    → is_empty (bounded_string path 107) ≡ false
    → (s : Reporter) × (set_local_sink [] r ≡ answered done s) × (set_local_sink path s ≡ aborted)
unfolding set_local_sink strnlen
set_local_sink_again r path on running joinable some_path =
    (record r { sink_path = []; sink_running = false }, ground arith, ground arith)
