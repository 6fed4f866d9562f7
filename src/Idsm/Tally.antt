-- ===== src/Idsm/Tally.antt =====
-- The pending counters against the queue: what a report and the drain of `worker_loop` of
-- src/IdsM_Manager.cpp do to both.
use native.Mathlib.Decide.{ℕ_discrete}
use autosar_idsm.Prelude.{
  ℕ, zero, suc, ◌+◌, ◌-◌, ◌<◌, ◌≤◌, ◌≡◌, ◌∙◌, refl, none, some, List, [], ◌∷◌, ◌++◌, get_elem?, set,
  length, ◌==◌, if◌then◌else◌, Option-cases, inl, inr, u32, arith, length-set, get_elem?-set_self,
  get_elem?-set_ne,
}
use autosar_idsm.Idsm.Types.{SevConfig, SevState, OwnedSev}
use autosar_idsm.Idsm.Api.{fresh_sevs, fresh_sev}
use autosar_idsm.Idsm.Worker.{drain_one, drain_loop}
use autosar_idsm.Idsm.Frame.{Fixed, fixed, fixed_all, fixed_all-set, get_elem?-fixed_all}

-- How many queued events belong to a SEv.
unfoldable pub queued : ℕ → List OwnedSev → ℕ
queued i [] = 0
queued i (event ∷ queue) = (if event.security_event_id == i then 1 else 0) + queued i queue

pub queued-append :
    (i : ℕ) (queue : List OwnedSev) (event : OwnedSev)
    → queued i (queue ++ (event ∷ []))
      ≡ queued i queue + (if event.security_event_id == i then 1 else 0)
unfolding queued
queued-append i [] event = omega arith
queued-append i (e ∷ queue) event = omega (arith, queued-append i queue event)

pub queued-le : (i : ℕ) (queue : List OwnedSev) → queued i queue ≤ length queue
unfolding queued
queued-le i [] = omega arith
queued-le i (e ∷ queue) = ground (arith, queued-le i queue)

-- Each SEv's pending count is the number of its events in the queue.
abbrev pub Tallied : List Fixed → List OwnedSev → Type 0
Tallied sevs queue = (i : ℕ) (f : Fixed) → get_elem? sevs i ≡ some f → f.pending ≡ queued i queue

pub get_elem?-some_lt {ℓ} :
    {A : Type ℓ} (xs : List A) (i : ℕ) {v : A} → get_elem? xs i ≡ some v → i < length xs
get_elem?-some_lt [] i e = absurd (ground arith)
get_elem?-some_lt (x ∷ xs) zero e = omega arith
get_elem?-some_lt (x ∷ xs) (suc i) e = omega (arith, get_elem?-some_lt xs i e)

pub get_elem?-none_ge {ℓ} :
    {A : Type ℓ} (xs : List A) (i : ℕ) → i < length xs → get_elem? xs i ≡ none → ⊥
get_elem?-none_ge [] i h e = absurd (omega arith)
get_elem?-none_ge (x ∷ xs) zero h e = cc
get_elem?-none_ge (x ∷ xs) (suc i) h e = get_elem?-none_ge xs i (omega arith) e

pub Tallied-report :
    (sevs : List Fixed) (queue : List OwnedSev) (event : OwnedSev) (f : Fixed)
    → length queue + 1 < 4294967296
    → get_elem? sevs (event.security_event_id) ≡ some f
    → Tallied sevs queue
    → Tallied
        (set sevs (event.security_event_id) (record f { pending = u32 (f.pending + 1) }))
        (queue ++ (event ∷ []))
Tallied-report sevs queue event f room found t i g e =
    let id = event.security_event_id in
    let v : Fixed = record f { pending = u32 (f.pending + 1) } in
    elim (ℕ_discrete id i) [
      | yes same ↦ ground (
        arith,
        get_elem?-set_self sevs id v (get_elem?-some_lt sevs id found),
        t id f found,
        queued-append i queue event,
        queued-le id queue,
      )
      | no other ↦
          ground (arith, get_elem?-set_ne sevs id i v other, t i g, queued-append i queue event)
    ]

pub drain_one-absent :
    (event : OwnedSev) (sevs : List SevState)
    → get_elem? sevs (event.security_event_id) ≡ none
    → drain_one event sevs ≡ sevs
unfolding drain_one
drain_one-absent event sevs absent = ground arith

pub drain_one-found :
    (event : OwnedSev) (sevs : List SevState) (s : SevState)
    → get_elem? sevs (event.security_event_id) ≡ some s
    → 0 < s.pending_count
    → fixed_all (drain_one event sevs)
      ≡ set
          (fixed_all sevs)
          (event.security_event_id)
          (record (fixed s) { pending = s.pending_count - 1 })
unfolding drain_one fixed
drain_one-found event sevs s found pos =
    let e : drain_one event sevs
        ≡ set sevs (event.security_event_id) (record s { pending_count = s.pending_count - 1 }) =
      ground arith in
    rw e (fixed_all-set sevs (event.security_event_id) _)

pub get_elem?-fixed_all-none :
    (sevs : List SevState) (i : ℕ) → get_elem? sevs i ≡ none → get_elem? (fixed_all sevs) i ≡ none
unfolding fixed_all
get_elem?-fixed_all-none [] i e = refl
get_elem?-fixed_all-none (s ∷ sevs) zero e = cc
get_elem?-fixed_all-none (s ∷ sevs) (suc i) e = get_elem?-fixed_all-none sevs i e

pub drain_one-Tallied :
    (event : OwnedSev) (queue : List OwnedSev) (sevs : List SevState)
    → Tallied (fixed_all sevs) (event ∷ queue)
    → Tallied (fixed_all (drain_one event sevs)) queue
unfolding queued fixed
drain_one-Tallied event queue sevs t i g e =
    let id = event.security_event_id in
    elim (Option-cases (get_elem? sevs id)) [
      | inl absent ↦
          let kept : get_elem? (fixed_all sevs) i ≡ some g =
            rw (drain_one-absent event sevs absent) at e in
          ground (arith, get_elem?-fixed_all-none sevs id absent, t i g)
      | inr (state, found) ↦
          let known = get_elem?-fixed_all sevs id found in
          let now_pending = t id (fixed state) known in
          let pos : 0 < state.pending_count = ground arith in
          let written = rw (drain_one-found event sevs state found pos) at e in
          elim (ℕ_discrete id i) [
            | yes same ↦ ground (
              arith,
              get_elem?-set_self (fixed_all sevs) id
                  (record (fixed state) { pending = state.pending_count - 1 })
                  (get_elem?-some_lt (fixed_all sevs) id known),
            )
            | no other ↦ ground (
              arith,
              get_elem?-set_ne (fixed_all sevs) id i
                  (record (fixed state) { pending = state.pending_count - 1 }) other,
              t i g,
            )
          ]
    ]

pub drain_loop-Tallied :
    (queue : List OwnedSev) (sevs : List SevState)
    → Tallied (fixed_all sevs) queue
    → Tallied (fixed_all (drain_loop queue sevs)) []
unfolding drain_loop
drain_loop-Tallied [] sevs t = t
drain_loop-Tallied (event ∷ queue) sevs t =
    drain_loop-Tallied queue (drain_one event sevs) (drain_one-Tallied event queue sevs t)

pub drain_one-length :
    (event : OwnedSev) (sevs : List SevState) → length (drain_one event sevs) ≡ length sevs
unfolding drain_one
drain_one-length event sevs = elim (Option-cases (get_elem? sevs (event.security_event_id))) [
  | inl absent ↦ rw (absent, drain_one)
  | inr (s, found) ↦ ground (
    arith,
    length-set sevs (event.security_event_id) (record s { pending_count = s.pending_count - 1 }),
  )
]

pub drain_loop-length :
    (queue : List OwnedSev) (sevs : List SevState) → length (drain_loop queue sevs) ≡ length sevs
unfolding drain_loop
drain_loop-length [] sevs = refl
drain_loop-length (event ∷ queue) sevs =
    drain_loop-length queue (drain_one event sevs) ∙ drain_one-length event sevs

pub fixed_all-fresh_sevs :
    (configs : List SevConfig) (i : ℕ) (f : Fixed)
    → get_elem? (fixed_all (fresh_sevs configs)) i ≡ some f
    → f.pending ≡ 0
unfolding fixed_all fresh_sev fixed
fixed_all-fresh_sevs [] i f e = cc
fixed_all-fresh_sevs (c ∷ configs) zero f e = ground arith
fixed_all-fresh_sevs (c ∷ configs) (suc i) f e = fixed_all-fresh_sevs configs i f e

pub no_queue : (queue : List OwnedSev) (i : ℕ) → length queue ≡ 0 → queued i queue ≡ 0
unfolding queued
no_queue [] i e = refl
no_queue (event ∷ queue) i e = absurd (omega arith)
