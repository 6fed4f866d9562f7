-- ===== src/EthProbe/Pool.antt =====
-- The memory that the entries of apps/eth_probe/ip_defrag.cpp are charged for, and the eviction of
-- entries.
use autosar_idsm.Prelude.{
  ℕ, zero, suc, ◌+◌, ◌-◌, ◌<◌, ◌≤◌, ◌≡◌, ◌∙◌, refl, subst, ◌⊎◌, Bool, true, false, ◌&&◌, none, some,
  List, [], ◌∷◌, All, length, ltb, leb, Bool-cases, Option-cases, inl, inr, arith, sub64, ◌~~◌,
  same_sound,
}
use autosar_idsm.Prelude.Assoc.{
  lookup, store, erase, distinct, lookup-erase, distinct-erase, All-erase,
}
use autosar_idsm.EthProbe.Fragment.{FragKey, frag_key_key, Datagram}
use autosar_idsm.EthProbe.Defrag.{
  Defrag, drop_entry, evict_one, make_room, make_memory, other_in_front,
}
use autosar_idsm.EthProbe.Reassembly.{IsTidy}

-- What the entries of a table are charged for.
unfoldable pub charge : List (FragKey × Datagram) → ℕ
charge [] = 0
charge ((k, dg) ∷ m) = dg.accounted + charge m

pub charge-erase :
    (k : FragKey) (dg : Datagram) (m : List (FragKey × Datagram))
    → lookup k m ≡ some dg
    → charge (erase k m) + dg.accounted ≡ charge m
unfolding charge erase lookup
charge-erase k dg [] found = absurd (ground arith)
charge-erase k dg ((j, held) ∷ m) found = elim (Bool-cases (j ~~ k)) [
  | inl here ↦ let same : held ≡ dg = ground (arith, found, here) in rw (here, same) (omega arith)
  | inr away ↦
      let later : lookup k m ≡ some dg = ground (arith, found, away) in
      rw away (omega (arith, charge-erase k dg m later))
]

pub charge-store_new :
    (k : FragKey) (dg : Datagram) (m : List (FragKey × Datagram))
    → lookup k m ≡ none
    → charge (store k dg m) ≡ charge m + dg.accounted
unfolding charge store lookup
charge-store_new k dg [] fresh = omega arith
charge-store_new k dg ((j, held) ∷ m) fresh = elim (Bool-cases (j ~~ k)) [
  | inl here ↦ absurd (ground (arith, fresh, here))
  | inr away ↦
      let later : lookup k m ≡ none = ground (arith, fresh, away) in
      rw away (omega (arith, charge-store_new k dg m later))
]

pub charge-store_old :
    (k : FragKey) (old dg : Datagram) (m : List (FragKey × Datagram))
    → lookup k m ≡ some old
    → charge (store k dg m) + old.accounted ≡ charge m + dg.accounted
unfolding charge store lookup
charge-store_old k old dg [] found = absurd (ground arith)
charge-store_old k old dg ((j, held) ∷ m) found = elim (Bool-cases (j ~~ k)) [
  | inl here ↦ let same : held ≡ old = ground (arith, found, here) in rw (here, same) (omega arith)
  | inr away ↦
      let later : lookup k m ≡ some old = ground (arith, found, away) in
      rw away (omega (arith, charge-store_old k old dg m later))
]

-- One entry for each key, each entry tidy, and the memory that they are charged for within the bound.
pub record IsSound (d : Defrag) : Type 0 where
  pub keys : distinct (d.table) ≡ true
  pub entries : All (λ e. IsTidy e.1) (d.table)
  pub paid : d.mem_used ≡ charge (d.table)
  pub bounded : d.mem_used ≤ d.max_mem_bytes
  pub small : d.max_mem_bytes < 9223372036854775808

pub sub64_below : (a b : ℕ) → b ≤ a → a < 18446744073709551616 → sub64 a b ≡ a - b
sub64_below a b h p = omega arith

abbrev without : FragKey → Datagram → Defrag → Defrag
without k dg d = record d {
  table = erase k (d.table);
  mem_used = sub64 (d.mem_used) (dg.accounted);
}

drop_entry_cases :
    (k : FragKey) (d : Defrag)
    → ((lookup k (d.table) ≡ none) × (drop_entry k d ≡ d))
      ⊎ ((dg : Datagram) × (lookup k (d.table) ≡ some dg) × (drop_entry k d ≡ without k dg d))
unfolding drop_entry
drop_entry_cases k d = elim (Option-cases (lookup k (d.table))) [
  | inl gone ↦ inl (gone, rw (drop_entry, gone) refl)
  | inr (dg, found) ↦ inr (dg, found, rw (drop_entry, found) refl)
]

-- An entry goes with its charge.
pub without-IsSound :
    (k : FragKey) (dg : Datagram) (d : Defrag)
    → lookup k (d.table) ≡ some dg
    → IsSound d
    → IsSound (without k dg d)
without-IsSound k dg d found s =
    let less : charge (erase k (d.table)) + dg.accounted ≡ charge (d.table) =
      charge-erase k dg (d.table) found in
    let left : sub64 (d.mem_used) (dg.accounted) ≡ d.mem_used - dg.accounted =
      sub64_below (d.mem_used) (dg.accounted) (omega (arith, less, s.paid))
        (omega (arith, s.bounded, s.small)) in
    record {
      keys = distinct-erase k (d.table) (s.keys);
      entries = All-erase IsTidy k (d.table) (s.entries);
      paid = omega (arith, left, less, s.paid);
      bounded = omega (arith, left, s.bounded);
      small = s.small;
    }

-- What eviction keeps: the bound, the entry under the key, and that the table is sound.
pub record IsKept (key : FragKey) (d e : Defrag) : Type 0 where
  pub sound : IsSound e
  pub max_mem : e.max_mem_bytes ≡ d.max_mem_bytes
  pub entry : lookup key (e.table) ≡ lookup key (d.table)

pub IsKept-refl : (key : FragKey) (d : Defrag) → IsSound d → IsKept key d d
IsKept-refl key d s = record { sound = s; max_mem = refl; entry = refl }

IsKept-trans : (key : FragKey) (d e f : Defrag) → IsKept key d e → IsKept key e f → IsKept key d f
IsKept-trans key d e f p q = record {
  sound = q.sound;
  max_mem = q.max_mem ∙ p.max_mem;
  entry = q.entry ∙ p.entry;
}

other_key :
    (key k : FragKey) (dg : Datagram) (m : List (FragKey × Datagram))
    → lookup k m ≡ some dg
    → ((k ~~ key) ≡ false) ⊎ (lookup key m ≡ none)
    → (k ~~ key) ≡ false
other_key key k dg m found (inl other) = other
other_key key k dg m found (inr fresh) = elim (Bool-cases (k ~~ key)) [
  | inl here ↦
      let both : lookup key m ≡ some dg =
        subst (λ a. lookup a m ≡ some dg) (same_sound k key here) found in
      absurd (ground (arith, both, fresh))
  | inr away ↦ away
]

-- The entry that goes is another key's, or the key has no entry.
drop_entry-IsKept :
    (key k : FragKey) (d : Defrag)
    → IsSound d
    → ((k ~~ key) ≡ false) ⊎ (lookup key (d.table) ≡ none)
    → IsKept key d (drop_entry k d)
drop_entry-IsKept key k d s other = elim (drop_entry_cases k d) [
  | inl (gone, same) ↦ rw same (IsKept-refl key d s)
  | inr (dg, found, less) ↦ rw less (record {
    sound = without-IsSound k dg d found s;
    max_mem = refl;
    entry = lookup-erase k key (d.table) (other_key key k dg (d.table) found other);
  })
]

evict_front :
    (key : FragKey) (lru : List FragKey) (d : Defrag)
    → IsSound d
    → (other_in_front key lru ≡ true) ⊎ (lookup key (d.table) ≡ none)
    → IsKept key d (
        (elim lru as (λ _. Bool × Defrag) [
          | [] ↦ (false, d)
          | victim ∷ rest ↦ (true, drop_entry victim (record d { lru = rest }))
        ]).1)
unfolding other_in_front
evict_front key [] d s other = IsKept-refl key d s
evict_front key (victim ∷ rest) d s other =
    let popped : Defrag = record d { lru = rest } in
    let same : IsSound popped = record {
      keys = s.keys;
      entries = s.entries;
      paid = s.paid;
      bounded = s.bounded;
      small = s.small;
    } in
    let kept =
      drop_entry-IsKept key victim popped same
        (elim other [ inl o ↦ inl (ground (arith, o)) | inr fresh ↦ inr fresh ]) in
    record { sound = kept.sound; max_mem = kept.max_mem; entry = kept.entry }

evict_one-IsKept :
    (key : FragKey) (d : Defrag)
    → IsSound d
    → (other_in_front key (d.lru) ≡ true) ⊎ (lookup key (d.table) ≡ none)
    → IsKept key d ((evict_one d).1)
unfolding evict_one
evict_one-IsKept key d s other = evict_front key (d.lru) d s other

pub make_room-IsKept :
    (key : FragKey) (fuel : ℕ) (d : Defrag)
    → IsSound d
    → lookup key (d.table) ≡ none
    → IsKept key d ((make_room fuel d).1)
unfolding make_room
make_room-IsKept key zero d s fresh = IsKept-refl key d s
make_room-IsKept key (suc fuel) d s fresh =
    let first = evict_one-IsKept key d s (inr fresh) in
    let rest = make_room-IsKept key fuel ((evict_one d).1) (first.sound) (first.entry ∙ fresh) in
    elim (Bool-cases (leb (d.max_datagrams) (length (d.table)) && (evict_one d).0)) [
      | inl full ↦ rw full (IsKept-trans key d ((evict_one d).1) _ first rest)
      | inr ends ↦ rw ends (IsKept-refl key d s)
    ]

pub make_memory-IsKept :
    (fuel : ℕ) (key : FragKey) (grow : ℕ) (d : Defrag)
    → IsSound d
    → IsKept key d ((make_memory fuel key grow d).1)
unfolding make_memory
make_memory-IsKept zero key grow d s = IsKept-refl key d s
make_memory-IsKept (suc fuel) key grow d s =
    elim (Bool-cases (ltb (d.max_mem_bytes) (d.mem_used + grow) && other_in_front key (d.lru))) [
      | inl full ↦
          let first = evict_one-IsKept key d s (inl (ground arith)) in
          rw full (
            IsKept-trans key d ((evict_one d).1) _ first
              (make_memory-IsKept fuel key grow ((evict_one d).1) (first.sound)))
      | inr ends ↦ rw ends (IsKept-refl key d s)
    ]
