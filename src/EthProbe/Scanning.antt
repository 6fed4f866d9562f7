-- ===== src/EthProbe/Scanning.antt =====
-- What the port scan detector of apps/eth_probe/detectors.cpp counts.
use autosar_idsm.Prelude.{
  ℕ, ◌+◌, ◌<◌, ◌≤◌, ◌≡◌, ◌∙◌, subst, ap, sym, refl, true, false, Option, none, some, List, [], ◌∷◌,
  ◌++◌, length, leb, ◌==◌, if◌then◌else◌, u32, sub64, Bool-cases, inl, inr, nat_key, arith,
}
use autosar_idsm.Prelude.Assoc.{
  lookup, lookup_or, store, erase, distinct, lookup-store, lookup-erase, lookup-erase_gone,
  distinct-store, distinct-erase,
}
use autosar_idsm.EthProbe.Detectors.{
  Scan, ScanConfig, drop_port, expire_events, add_port, scan_step,
}

-- How many of the events have the port.
unfoldable pub events_for : ℕ → List (ℕ × ℕ) → ℕ
events_for port [] = 0
events_for port ((ts, p) ∷ events) = (if p == port then 1 else 0) + events_for port events

-- A count that is not zero.
unfoldable pub positive : ℕ → Option ℕ
positive n = if n == 0 then none else some n

-- The counters of a source say of each port how many of its events are for it, and a port without
-- events has no counter: so their number is that of the ports.
pub record IsTally (events : List (ℕ × ℕ)) (counts : List (ℕ × ℕ)) : Type 0 where
  pub keys : distinct counts ≡ true
  pub tally : (port : ℕ) → lookup port counts ≡ positive (events_for port events)

events_for_most : (port : ℕ) (events : List (ℕ × ℕ)) → events_for port events ≤ length events
unfolding events_for
events_for_most port [] = omega arith
events_for_most port ((ts, p) ∷ events) = ground (arith, events_for_most port events)

positive_more : (n : ℕ) → positive (n + 1) ≡ some (n + 1)
unfolding positive
positive_more n = ground arith

events_for_first :
    (ts port p : ℕ) (events : List (ℕ × ℕ))
    → events_for p ((ts, port) ∷ events) ≡ (if port == p then 1 else 0) + events_for p events
unfolding events_for
events_for_first ts port p events = refl

events_for_last :
    (now port p : ℕ) (events : List (ℕ × ℕ))
    → events_for p (events ++ ((now, port) ∷ []))
      ≡ events_for p events + (if port == p then 1 else 0)
unfolding events_for
events_for_last now port p [] = ground arith
events_for_last now port p ((ts, q) ∷ events) = ground (arith, events_for_last now port p events)

drop_port_lem :
    (port n : ℕ) (counts : List (ℕ × ℕ))
    → lookup port counts ≡ some (n + 1)
    → n < 4294967295
    → drop_port port counts ≡ (if n == 0 then erase port counts else store port n counts)
unfolding drop_port
drop_port_lem port n counts found h =
    let left : u32 (n + 1 + 4294967295) ≡ n = omega arith in rw (drop_port, found, left) refl

-- A port with other events, or none.
positive-zero : (n : ℕ) → n ≡ 0 → positive n ≡ none
unfolding positive
positive-zero n h = rw h refl

stored-positive :
    (port n m : ℕ) (old : Option ℕ)
    → m ≡ n
    → (n == 0) ≡ false
    → (if port == port then some n else old) ≡ positive m
unfolding positive
stored-positive port n m old here more =
    let same : (port == port) ≡ true = ground arith in rw (same, here, more) refl

counted-IsTally :
    (port n : ℕ) (before after counts : List (ℕ × ℕ))
    → distinct counts ≡ true
    → events_for port after ≡ n
    → ((p : ℕ) → (port == p) ≡ false → events_for p after ≡ events_for p before)
    → ((p : ℕ) → lookup p counts ≡ positive (events_for p before))
    → IsTally after (if n == 0 then erase port counts else store port n counts)
counted-IsTally port n before after counts keys here others tally = elim (Bool-cases (n == 0)) [
  | inl zero_ ↦ rw zero_ (record {
    keys = distinct-erase port counts keys;
    tally = λ p. elim (Bool-cases (port == p)) [
      | inl same ↦
          let at : port ≡ p = ground arith in
          subst (λ q. lookup q (erase port counts) ≡ positive (events_for q after)) at
            (lookup-erase_gone port counts keys
              ∙ sym (positive-zero (events_for port after) (ground (arith, here))))
      | inr other ↦ lookup-erase port p counts other ∙ tally p ∙ ap positive (sym (others p other))
    ];
  })
  | inr some_ ↦ rw some_ (record {
    keys = distinct-store port n counts keys;
    tally = λ p. elim (Bool-cases (port == p)) [
      | inl same ↦
          let at : port ≡ p = ground arith in
          subst (λ q. lookup q (store port n counts) ≡ positive (events_for q after)) at
            (lookup-store port port n counts
              ∙ stored-positive port n (events_for port after) (lookup port counts) here some_)
      | inr other ↦
          lookup-store port p n counts ∙ rw other (tally p ∙ ap positive (sym (others p other)))
    ];
  })
]

drop_port-IsTally :
    (ts port : ℕ) (events counts : List (ℕ × ℕ))
    → length events + 1 < 4294967296
    → IsTally ((ts, port) ∷ events) counts
    → IsTally events (drop_port port counts)
drop_port-IsTally ts port events counts h t =
    let n = events_for port events in
    let first : events_for port ((ts, port) ∷ events) ≡ n + 1 =
      ground (arith, events_for_first ts port port events) in
    let found : lookup port counts ≡ some (n + 1) =
      t.tally port ∙ ap positive first ∙ positive_more n in
    rw (drop_port_lem port n counts found (omega (arith, h, events_for_most port events))) (
      counted-IsTally port n ((ts, port) ∷ events) events counts (t.keys) refl
        (λ p other. sym (events_for_first ts port p events ∙ rw other (omega arith))) (t.tally))

add_port_lem :
    (port n : ℕ) (counts : List (ℕ × ℕ))
    → lookup port counts ≡ positive n
    → n < 4294967295
    → add_port port counts ≡ (if n + 1 == 0 then erase port counts else store port (n + 1) counts)
unfolding add_port lookup_or positive
add_port_lem port n counts found h = elim (Bool-cases (n == 0)) [
  | inl none_ ↦
      let nothing : lookup port counts ≡ none = found ∙ rw none_ refl in
      let n_zero : n ≡ 0 = ground arith in rw (lookup_or, nothing, n_zero) refl
  | inr more ↦
      let held : lookup port counts ≡ some n = found ∙ rw more refl in
      let next : u32 (n + 1) ≡ n + 1 = omega arith in
      let nonzero : (n + 1 == 0) ≡ false = ground arith in rw (lookup_or, held, next, nonzero) refl
]

add_port-IsTally :
    (now port : ℕ) (events counts : List (ℕ × ℕ))
    → length events + 1 < 4294967296
    → IsTally events counts
    → IsTally (events ++ ((now, port) ∷ [])) (add_port port counts)
add_port-IsTally now port events counts h t =
    let n = events_for port events in
    rw (add_port_lem port n counts (t.tally port) (omega (arith, h, events_for_most port events))) (
      counted-IsTally port (n + 1) events (events ++ ((now, port) ∷ [])) counts (t.keys)
        (ground (arith, events_for_last now port port events))
        (λ p other. events_for_last now port p events ∙ rw other (omega arith)) (t.tally))

-- Expiry leaves counters that agree with what is left, which is no more than there was.
expire_events-IsTally :
    (now window : ℕ) (events counts : List (ℕ × ℕ))
    → length events < 4294967296
    → IsTally events counts
    → IsTally (expire_events now window events counts).0 (expire_events now window events counts).1
      × (length (expire_events now window events counts).0 ≤ length events)
unfolding expire_events
expire_events-IsTally now window [] counts h t = (t, omega arith)
expire_events-IsTally now window ((ts, port) ∷ events) counts h t =
    elim (Bool-cases (leb window (sub64 now ts))) [
      | inl old ↦
          let rest =
            expire_events-IsTally now window events (drop_port port counts) (omega (arith, h))
              (drop_port-IsTally ts port events counts (omega (arith, h)) t) in
          rw old (rest.0, omega (arith, rest.1))
      | inr kept ↦ rw kept (t, omega arith)
    ]

-- For a source with fewer than 2^32 - 1 events whose port counters agree with its events, they agree
-- after a packet too: each port that an event is for has one counter, with the number of its events,
-- and no other port has one.
pub scan_step-IsTally :
    (cfg : ScanConfig) (port now : ℕ) (s : Scan)
    → length (s.events) + 1 < 4294967296
    → IsTally (s.events) (s.port_counts)
    → IsTally ((scan_step cfg port now s).1.events) ((scan_step cfg port now s).1.port_counts)
unfolding scan_step
scan_step-IsTally cfg port now s h t =
    let left =
      expire_events-IsTally now (cfg.window_ms) (s.events) (s.port_counts) (omega (arith, h)) t in
    let out = expire_events now (cfg.window_ms) (s.events) (s.port_counts) in
    add_port-IsTally now port out.0 out.1 (omega (arith, left.1, h)) (left.0)
