-- ===== src/EthProbe/Expiry.antt =====
-- What expire of apps/eth_probe/ip_defrag.cpp drops, and what it leaves.
use autosar_idsm.Prelude.{
  ℕ, ◌≡◌, ◌∙◌, refl, sym, subst, true, false, Option, none, some, List, [], ◌∷◌, leb, if◌then◌else◌,
  Bool-cases, inl, inr, arith, sub64, ◌~~◌, same_sound, same_refl,
}
use autosar_idsm.Prelude.Assoc.{
  lookup, erase, forget, distinct, absent, lookup-erase, lookup-erase_gone, lookup-absent,
}
use autosar_idsm.EthProbe.Fragment.{FragKey, frag_key_key, Datagram}
use autosar_idsm.EthProbe.Defrag.{Defrag, expire_entries, expire}
use autosar_idsm.EthProbe.Pool.{IsSound, without-IsSound}

-- What expire leaves of an entry.
unfoldable pub fresh_entry : ℕ → ℕ → Option Datagram → Option Datagram
fresh_entry now timeout none = none
fresh_entry now timeout (some dg) =
    if leb timeout (sub64 now (dg.last_seen_ms)) then none else some dg

-- The entries that the loop has still to come to, and those that it has left.
still : ℕ → ℕ → Option Datagram → Option Datagram → Option Datagram
unfolding fresh_entry
still now timeout none inside = inside
still now timeout (some dg) inside = fresh_entry now timeout (some dg)

abbrev Loop : ℕ → List (FragKey × Datagram) → Defrag → FragKey → ℕ × Defrag → Type 0
Loop now entries d key out =
    IsSound (out.1)
    × (lookup key (out.1.table)
        ≡ still now (d.timeout_ms) (lookup key entries) (lookup key (d.table)))

abbrev Held : List (FragKey × Datagram) → Defrag → Type 0
Held entries d =
    (k : FragKey) (dg : Datagram) → lookup k entries ≡ some dg → lookup k (d.table) ≡ some dg

-- The key of the first entry is none of the others'.
first_other :
    (k j : FragKey) (dg : Datagram) (entries : List (FragKey × Datagram))
    → absent k entries ≡ true
    → lookup j entries ≡ some dg
    → (k ~~ j) ≡ false
first_other k j dg entries fresh found = elim (Bool-cases (k ~~ j)) [
  | inl same ↦
      let none_ : lookup j entries ≡ none =
        lookup-absent j entries
          (subst (λ a. absent a entries ≡ true) (same_sound k j same) fresh) in
      absurd (ground (arith, none_, found))
  | inr other ↦ other
]

lookup_first :
    (k : FragKey) (dg : Datagram) (entries : List (FragKey × Datagram))
    → lookup k ((k, dg) ∷ entries) ≡ some dg
unfolding lookup
lookup_first k dg entries = rw (same_refl k) refl

lookup_later :
    (k j : FragKey) (dg : Datagram) (entries : List (FragKey × Datagram))
    → (k ~~ j) ≡ false
    → lookup j ((k, dg) ∷ entries) ≡ lookup j entries
unfolding lookup
lookup_later k j dg entries h = rw h refl

still_first :
    (now timeout : ℕ) (k key : FragKey) (dg : Datagram) (entries : List (FragKey × Datagram))
    (inside : Option Datagram)
    → (k ~~ key) ≡ true
    → still now timeout (lookup key ((k, dg) ∷ entries)) inside ≡ fresh_entry now timeout (some dg)
unfolding lookup still
still_first now timeout k key dg entries inside h = rw h refl

still_later :
    (now timeout : ℕ) (k key : FragKey) (dg : Datagram) (entries : List (FragKey × Datagram))
    (inside : Option Datagram)
    → (k ~~ key) ≡ false
    → still now timeout (lookup key ((k, dg) ∷ entries)) inside
      ≡ still now timeout (lookup key entries) inside
unfolding lookup still
still_later now timeout k key dg entries inside h = rw h refl

module _ (now : ℕ) (k : FragKey) (dg : Datagram) (entries : List (FragKey × Datagram)) (d : Defrag)
    (fresh : absent k entries ≡ true) (key : FragKey) where
  -- An entry that goes, and one that stays.
  still_stale :
      distinct (d.table) ≡ true
      → leb (d.timeout_ms) (sub64 now (dg.last_seen_ms)) ≡ true
      → still now (d.timeout_ms) (lookup key entries) (lookup key (erase k (d.table)))
        ≡ still now (d.timeout_ms) (lookup key ((k, dg) ∷ entries)) (lookup key (d.table))
  unfolding still fresh_entry
  still_stale keys stale = elim (Bool-cases (k ~~ key)) [
    | inl same ↦
        let first = still_first now (d.timeout_ms) k key dg entries (lookup key (d.table)) same in
        let other : lookup key entries ≡ none =
          lookup-absent key entries
            (subst (λ a. absent a entries ≡ true) (same_sound k key same) fresh) in
        let gone : lookup key (erase k (d.table)) ≡ none =
          subst (λ a. lookup key (erase a (d.table)) ≡ none) (sym (same_sound k key same))
            (lookup-erase_gone key (d.table) keys) in
        rw (first, other, gone, stale) refl
    | inr away ↦
        let later = still_later now (d.timeout_ms) k key dg entries (lookup key (d.table)) away in
        rw (later, lookup-erase k key (d.table) away) refl
  ]

  still_kept :
      lookup k (d.table) ≡ some dg
      → leb (d.timeout_ms) (sub64 now (dg.last_seen_ms)) ≡ false
      → still now (d.timeout_ms) (lookup key entries) (lookup key (d.table))
        ≡ still now (d.timeout_ms) (lookup key ((k, dg) ∷ entries)) (lookup key (d.table))
  unfolding still fresh_entry
  still_kept held kept = elim (Bool-cases (k ~~ key)) [
    | inl same ↦
        let first = still_first now (d.timeout_ms) k key dg entries (lookup key (d.table)) same in
        let other : lookup key entries ≡ none =
          lookup-absent key entries
            (subst (λ a. absent a entries ≡ true) (same_sound k key same) fresh) in
        let there : lookup key (d.table) ≡ some dg =
          subst (λ a. lookup a (d.table) ≡ some dg) (same_sound k key same) held in
        rw (first, other, there, kept) refl
    | inr away ↦
        rw (still_later now (d.timeout_ms) k key dg entries (lookup key (d.table)) away) refl
  ]

expire_entries_lem :
    (now : ℕ) (entries : List (FragKey × Datagram)) (d : Defrag) (key : FragKey)
    → IsSound d
    → distinct entries ≡ true
    → Held entries d
    → Loop now entries d key (expire_entries now entries d)
unfolding expire_entries distinct lookup still
expire_entries_lem now [] d key s apart_ found = (s, refl)
expire_entries_lem now ((k, dg) ∷ entries) d key s apart_ found =
    let fresh : absent k entries ≡ true = ground (arith, apart_) in
    let others : distinct entries ≡ true = ground (arith, apart_) in
    let first = found k dg (lookup_first k dg entries) in
    let later : Held entries d = λ j dg' f.
      found j dg' (lookup_later k j dg entries (first_other k j dg' entries fresh f) ∙ f) in
    let gone : Defrag = record d {
      mem_used = sub64 (d.mem_used) (dg.accounted);
      lru = forget k (d.lru);
      table = erase k (d.table);
    } in
    elim (Bool-cases (leb (d.timeout_ms) (sub64 now (dg.last_seen_ms)))) [
      | inl stale ↦
          let less = without-IsSound k dg d first s in
          let rest =
            expire_entries_lem now entries gone key
              (record {
                keys = less.keys;
                entries = less.entries;
                paid = less.paid;
                bounded = less.bounded;
                small = less.small;
              })
              others
              (λ j dg' f.
                lookup-erase k j (d.table) (first_other k j dg' entries fresh f) ∙ later j dg' f) in
          rw stale (rest.0, rest.1 ∙ still_stale now k dg entries d fresh key (s.keys) stale)
      | inr kept ↦
          let rest = expire_entries_lem now entries d key s others later in
          rw kept (rest.0, rest.1 ∙ still_kept now k dg entries d fresh key first kept)
    ]

still_own :
    (now timeout : ℕ) (o : Option Datagram) → still now timeout o o ≡ fresh_entry now timeout o
unfolding still fresh_entry
still_own now timeout none = refl
still_own now timeout (some dg) = refl

-- For a sound table, expire leaves a sound table, in which a datagram is there with the entry it had
-- if and only if its last fragment is younger than the timeout.
pub expire_drops_stale :
    (now : ℕ) (d : Defrag) (key : FragKey)
    → IsSound d
    → IsSound ((expire now d).1)
      × (lookup key ((expire now d).1.table)
          ≡ fresh_entry now (d.timeout_ms) (lookup key (d.table)))
unfolding expire
expire_drops_stale now d key s =
    let out = expire_entries_lem now (d.table) d key s (s.keys) (λ k dg h. h) in
    (out.0, out.1 ∙ still_own now (d.timeout_ms) (lookup key (d.table)))
