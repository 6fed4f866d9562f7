-- ===== src/IdsRm/Outcomes.antt =====
-- What becomes of an event in src/IdsRm_Manager.cpp: OnQsev, postWithRetry and the worker's batch.
use autosar_idsm.Prelude.{
  ℕ, zero, suc, ◌+◌, ◌<◌, ◌≤◌, ◌≡◌, refl, Bool, not, ◌||◌, true, false, ◌&&◌, Option, none, some,
  List, [], ◌∷◌, ◌++◌, length, ltb, if◌then◌else◌, u32, u16, take, subst, arith,
}
use autosar_idsm.Idsm.Types.{OwnedQsev, Qsev}
use autosar_idsm.Idsm.Filters.{is_empty}
use autosar_idsm.Idsm.Manager.{to_c}
use autosar_idsm.IdsRm.Types.{RmStats, Reporter}
use autosar_idsm.IdsRm.Reporter.{on_qsev, from_c, tee, drop_event}
use autosar_idsm.IdsRm.Posting.{post_attempts, post_with_retry, deliver, deliver_batch, count_retry}

take_whole {ℓ} : {A : Type ℓ} (xs : List A) → take (length xs) xs ≡ xs
take_whole [] = refl
take_whole (x ∷ xs) = rw (take_whole xs) refl

read_back :
    (bytes : List ℕ)
    → length bytes < 65536
    → (let sent : Option (List ℕ) = if is_empty bytes then none else some bytes in
        elim sent as (λ o. List ℕ) [
          | none ↦ []
          | some kept ↦ if ltb 0 (u16 (length bytes)) then take (u16 (length bytes)) kept else []
        ])
      ≡ bytes
read_back [] h = refl
read_back (b ∷ bytes) h =
    let whole : u16 (suc (length bytes)) ≡ suc (length bytes) = omega arith in
    rw whole (ground (arith, take_whole bytes))

-- The copy that the reporter keeps of a QSEv is the manager's own event, where its context data has
-- fewer than 65536 bytes.
pub from_c-to_c : (q : OwnedQsev) → length (q.context_data) < 65536 → from_c (to_c q) ≡ q
unfolding from_c to_c
from_c-to_c q h = rw (read_back (q.context_data) h) refl

-- An enabled reporter with room in its queue puts the event at the end and counts it as received;
-- otherwise the queue and that count stay and the event is counted as dropped. An event that is
-- received is counted as dropped as well where the local sink runs and its queue is full.
pub on_qsev_lem :
    (q : Qsev) (r : Reporter)
    → ((on_qsev q r).event_queue ≡ (
        if r.enabled && ltb (length (r.event_queue)) 128
        then r.event_queue ++ (from_c q ∷ [])
        else r.event_queue))
      × ((on_qsev q r).stats.events_received ≡ (
          if r.enabled && ltb (length (r.event_queue)) 128
          then u32 (r.stats.events_received + 1)
          else r.stats.events_received))
      × ((on_qsev q r).stats.events_dropped ≡ (
          if r.enabled
            && ltb (length (r.event_queue)) 128
            && (not (r.sink_running) || ltb (length (r.sink_queue)) 512)
          then r.stats.events_dropped
          else u32 (r.stats.events_dropped + 1)))
unfolding on_qsev tee drop_event
on_qsev_lem q r = (ground arith, ground arith, ground arith)

-- The first attempt of `left` from `attempt` on that succeeds, as the number of failures before it.
unfoldable pub failures : (ℕ → Bool) → ℕ → ℕ → ℕ
failures answers attempt zero = 0
failures answers attempt (suc left) =
    let later = failures answers (suc attempt) left in if answers attempt then 0 else suc later

post_attempts_lem :
    (answers : ℕ → Bool) (attempt left : ℕ) (s : RmStats)
    → s.http_retries < 4294967296
    → (post_attempts answers attempt left s).0 ≡ record s {
      http_retries = u32 (s.http_retries + failures answers attempt left);
      events_posted =
          if ltb (failures answers attempt left) left
          then u32 (s.events_posted + 1)
          else s.events_posted;
      events_failed =
          if ltb (failures answers attempt left) left
          then s.events_failed
          else u32 (s.events_failed + 1);
    }
unfolding post_attempts failures
post_attempts_lem answers attempt zero s h = ground arith
post_attempts_lem answers attempt (suc left) s h =
    ground (arith, post_attempts_lem answers (suc attempt) left (count_retry s))

failures_first :
    (answers : ℕ → Bool) (attempt left k : ℕ)
    → k < left
    → answers (attempt + k) ≡ true
    → ((j : ℕ) → j < k → answers (attempt + j) ≡ false)
    → failures answers attempt left ≡ k
unfolding failures
failures_first answers attempt zero k h hit miss = absurd (omega arith)
failures_first answers attempt (suc left) zero h hit miss =
    let here : answers attempt ≡ true = subst (λ n. answers n ≡ true) (omega arith) hit in
    rw here refl
failures_first answers attempt (suc left) (suc k) h hit miss =
    let here : answers attempt ≡ false =
      subst (λ n. answers n ≡ false) (omega arith) (miss 0 (omega arith)) in
    let later =
      failures_first answers (suc attempt) left k (omega arith)
        (subst (λ n. answers n ≡ true) (omega arith) hit)
        (λ j below. subst (λ n. answers n ≡ false) (omega arith) (miss (suc j) (omega arith))) in
    rw (here, later) refl

failures_all :
    (answers : ℕ → Bool) (attempt left : ℕ)
    → ((j : ℕ) → j < left → answers (attempt + j) ≡ false)
    → failures answers attempt left ≡ left
unfolding failures
failures_all answers attempt zero miss = refl
failures_all answers attempt (suc left) miss =
    let here : answers attempt ≡ false =
      subst (λ n. answers n ≡ false) (omega arith) (miss 0 (omega arith)) in
    let later =
      failures_all answers (suc attempt) left
        (λ j below. subst (λ n. answers n ≡ false) (omega arith) (miss (suc j) (omega arith))) in
    rw (here, later) refl

-- An event whose first successful request is attempt k (from 0), no later than the retry count, is
-- counted once as posted, and its k failures as retries (where their 32-bit counter does not wrap).
pub post_with_retry_first :
    (answers : ℕ → Bool) (r : Reporter) (k : ℕ)
    → k ≤ r.retry_count
    → answers k ≡ true
    → ((j : ℕ) → j < k → answers j ≡ false)
    → r.stats.http_retries + k < 4294967296
    → (post_with_retry answers r).stats ≡ record (r.stats) {
      http_retries = r.stats.http_retries + k;
      events_posted = u32 (r.stats.events_posted + 1);
    }
unfolding post_with_retry
post_with_retry_first answers r k h hit miss fits =
    let first =
      failures_first answers 0 (suc (r.retry_count)) k (omega arith)
        (subst (λ n. answers n ≡ true) (omega arith) hit)
        (λ j below. subst (λ n. answers n ≡ false) (omega arith) (miss j below)) in
    ground (arith, post_attempts_lem answers 0 (suc (r.retry_count)) (r.stats), first)

-- An event none of whose requests succeeds is tried once more often than the retry count says, each
-- of these attempts is counted as a retry (where the 32-bit counter does not wrap), and the event
-- is counted once as failed.
pub post_with_retry_exhausted :
    (answers : ℕ → Bool) (r : Reporter)
    → ((j : ℕ) → j ≤ r.retry_count → answers j ≡ false)
    → r.stats.http_retries + r.retry_count + 1 < 4294967296
    → (post_with_retry answers r).stats ≡ record (r.stats) {
      http_retries = r.stats.http_retries + r.retry_count + 1;
      events_failed = u32 (r.stats.events_failed + 1);
    }
unfolding post_with_retry
post_with_retry_exhausted answers r miss fits =
    let all =
      failures_all answers 0 (suc (r.retry_count))
        (λ j below. subst (λ n. answers n ≡ false) (omega arith) (miss j (omega arith))) in
    ground (arith, post_attempts_lem answers 0 (suc (r.retry_count)) (r.stats), all)

post_attempts_settles :
    (answers : ℕ → Bool) (attempt left : ℕ) (s : RmStats)
    → let t = (post_attempts answers attempt left s).0 in
      u32 (t.events_posted + t.events_failed) ≡ u32 (s.events_posted + s.events_failed + 1)
unfolding post_attempts
post_attempts_settles answers attempt zero s = omega arith
post_attempts_settles answers attempt (suc left) s =
    ground (arith, post_attempts_settles answers (suc attempt) left (count_retry s))

deliver_settles :
    (answers : ℕ → Bool) (r : Reporter)
    → u32 ((deliver answers r).stats.events_posted + (deliver answers r).stats.events_failed)
      ≡ u32 (r.stats.events_posted + r.stats.events_failed + 1)
unfolding deliver post_with_retry
deliver_settles answers r =
    ground (arith, post_attempts_settles answers 0 (suc (r.retry_count)) (r.stats))

-- Every event of a batch ends once: whatever the requests answer, with or without a URL, posted and
-- failed together grow by the number of events (modulo 2^32).
pub deliver_batch_settles :
    (batch : List ((ℕ → Bool) × OwnedQsev)) (r : Reporter)
    → u32
        ((deliver_batch batch r).stats.events_posted + (deliver_batch batch r).stats.events_failed)
      ≡ u32 (r.stats.events_posted + r.stats.events_failed + length batch)
unfolding deliver_batch
deliver_batch_settles [] r = omega arith
deliver_batch_settles ((answers, q) ∷ batch) r =
    omega (arith, deliver_batch_settles batch (deliver answers r), deliver_settles answers r)
