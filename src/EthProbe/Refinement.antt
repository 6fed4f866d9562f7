-- ===== src/EthProbe/Refinement.antt =====
-- add_fragment and expire of apps/eth_probe/ip_defrag.cpp, against the abstract view of the table: a
-- partial map from the datagrams' positions to bytes, in which the first byte for a position stays.
use autosar_idsm.Prelude.{
  ℕ, ◌+◌, ◌<◌, ◌≤◌, ◌≡◌, ◌∙◌, refl, sym, ap, subst, ◌⊎◌, ◌||◌, Option, none, some, List, length,
  leb, ◌==◌, Bool-cases, Option-cases, inl, inr, arith, u32, same_refl,
}
use autosar_idsm.Prelude.Assoc.{
  lookup, lookup_or, store, lookup-store, distinct-store, All-store, All-lookup,
}
use autosar_idsm.EthProbe.Packet.{ParsedPacket}
use autosar_idsm.EthProbe.Ranges.{covered_at, apart}
use autosar_idsm.EthProbe.Fragment.{FragKey, frag_key_key, Datagram, empty_datagram}
use autosar_idsm.EthProbe.Defrag.{
  Defrag, feed_entry, enter_table, touch, frag_key, fragment_length, add_fragment, max_datagram_len,
}
use autosar_idsm.EthProbe.Reassembly.{IsTidy, seen, within, first_of, brings}
use autosar_idsm.EthProbe.Pool.{
  IsSound, IsKept, IsKept-refl, make_room-IsKept, charge-store_old, charge-store_new,
}
use autosar_idsm.EthProbe.Settling.{held, held-none, held-some, Settled}
use autosar_idsm.EthProbe.Feeding.{Fed, feed_entry-Fed}

enter_table-IsKept : (key : FragKey) (d : Defrag) → IsSound d → IsKept key d ((enter_table key d).1)
unfolding enter_table
enter_table-IsKept key d s = elim (Option-cases (lookup key (d.table))) [
  | inl fresh ↦ rw (enter_table, fresh) (make_room-IsKept key (length (d.lru)) d s fresh)
  | inr (dg, old) ↦ rw (enter_table, old) (IsKept-refl key d s)
]

held_same :
    (key : FragKey) (d e : Defrag) (x : ℕ)
    → lookup key (e.table) ≡ lookup key (d.table)
    → held key e x ≡ held key d x
unfolding held
held_same key d e x same = rw (held, same) refl

-- "creates empty entry when new", with the time of the fragment.
abbrev stamped : FragKey → ℕ → Defrag → Datagram
stamped key now d = record (lookup_or empty_datagram key (d.table)) { last_seen_ms = now }

stamped_cases :
    (key : FragKey) (now : ℕ) (d : Defrag)
    → ((lookup key (d.table) ≡ none)
        × (stamped key now d ≡ record empty_datagram { last_seen_ms = now }))
      ⊎ ((dg : Datagram) × (lookup key (d.table) ≡ some dg)
          × (stamped key now d ≡ record dg { last_seen_ms = now }))
unfolding lookup_or
stamped_cases key now d = elim (Option-cases (lookup key (d.table))) [
  | inl fresh ↦ inl (fresh, rw (lookup_or, fresh) refl)
  | inr (dg, found) ↦ inr (dg, found, rw (lookup_or, found) refl)
]

seen_unmarked : (now x : ℕ) → seen (record empty_datagram { last_seen_ms = now }) x ≡ none
unfolding seen covered_at
seen_unmarked now x = refl

seen_marked :
    (now : ℕ) (dg : Datagram) (x : ℕ) → seen (record dg { last_seen_ms = now }) x ≡ seen dg x
unfolding seen
seen_marked now dg x = refl

seen-stamped :
    (key : FragKey) (now : ℕ) (d : Defrag) (x : ℕ) → seen (stamped key now d) x ≡ held key d x
seen-stamped key now d x = elim (stamped_cases key now d) [
  | inl (fresh, same) ↦
      ap (λ dg. seen dg x) same ∙ seen_unmarked now x ∙ sym (held-none key d x fresh)
  | inr (dg, found, same) ↦
      ap (λ dg. seen dg x) same ∙ seen_marked now dg x ∙ sym (held-some key d x dg found)
]

restamped-IsTidy : (now : ℕ) (dg : Datagram) → IsTidy dg → IsTidy (record dg { last_seen_ms = now })
restamped-IsTidy now dg t = record { ordered = t.ordered; inside = t.inside; charged = t.charged }

empty-IsTidy : (now : ℕ) → IsTidy (record empty_datagram { last_seen_ms = now })
unfolding apart within
empty-IsTidy now = record { ordered = refl; inside = refl; charged = refl }

abbrev entered : FragKey → ℕ → Defrag → Defrag
entered key now d = touch key (record d { table = store key (stamped key now d) (d.table) })

entered-lookup :
    (key : FragKey) (now : ℕ) (d : Defrag)
    → lookup key ((entered key now d).table) ≡ some (stamped key now d)
unfolding touch
entered-lookup key now d =
    lookup-store key key (stamped key now d) (d.table) ∙ rw (same_refl key) refl

entered-IsSound : (key : FragKey) (now : ℕ) (d : Defrag) → IsSound d → IsSound (entered key now d)
unfolding touch
entered-IsSound key now d s = elim (stamped_cases key now d) [
  | inl (fresh, same) ↦
      let made : Datagram = record empty_datagram { last_seen_ms = now } in
      rw same (record {
        keys = distinct-store key made (d.table) (s.keys);
        entries = All-store IsTidy key made (d.table) (empty-IsTidy now) (s.entries);
        paid = omega (arith, charge-store_new key made (d.table) fresh, s.paid);
        bounded = s.bounded;
        small = s.small;
      })
  | inr (dg, found, same) ↦
      let later : Datagram = record dg { last_seen_ms = now } in
      let tidy = restamped-IsTidy now dg (All-lookup IsTidy key (d.table) (s.entries) found) in
      rw same (record {
        keys = distinct-store key later (d.table) (s.keys);
        entries = All-store IsTidy key later (d.table) tidy (s.entries);
        paid = omega (arith, charge-store_old key dg later (d.table) found, s.paid);
        bounded = s.bounded;
        small = s.small;
      })
]

-- Where a fragment ends, by the length of its payload.
pub fragment_end : ParsedPacket → List ℕ → ℕ
unfolding fragment_length
fragment_end pp payload = u32 (pp.frag_offset + fragment_length (pp.frag_offset) (length payload))

-- A fragment is cut off at the largest datagram's length, and ends with its payload below it.
fragment_end_lem :
    (off len : ℕ)
    → off ≤ 65535
    → len < 4294901760
    → (u32 (off + fragment_length off len) ≤ off + len)
      × (off < 65535 → 0 < len → off < u32 (off + fragment_length off len))
      × (len ≡ 0 ⊎ 65535 ≤ off → u32 (off + fragment_length off len) ≡ off)
unfolding fragment_length
fragment_end_lem off len h p = (ground arith, ground arith, ground arith)

brings-none : (off end : ℕ) (payload : List ℕ) (x : ℕ) → end ≤ off → brings off end payload x ≡ none
unfolding brings
brings-none off end payload x h = ground arith

first_of-none : (b : Option ℕ) → b ≡ first_of b none
unfolding first_of
first_of-none none = refl
first_of-none (some b) = refl

pub add_fragment_refines :
    (pp : ParsedPacket) (payload : List ℕ) (now : ℕ) (d : Defrag) (x : ℕ)
    → IsSound d
    → pp.frag_offset ≤ 65535
    → length payload < 4294901760
    → IsSound ((add_fragment pp payload now d).1)
      × Fed
          (frag_key pp)
          (held (frag_key pp) d x)
          (first_of
            (held (frag_key pp) d x)
            (brings (pp.frag_offset) (fragment_end pp payload) payload x))
          (fragment_end pp payload)
          x
          (add_fragment pp payload now d)
unfolding add_fragment fragment_end Fed Settled
add_fragment_refines pp payload now d x s h p =
    let key = frag_key pp in
    let off = pp.frag_offset in
    let end = fragment_end pp payload in
    let bounds = fragment_end_lem off (length payload) h p in
    let room = enter_table-IsKept key d s in
    let e = (enter_table key d).1 in
    let before = held_same key d e x (room.entry) in
    elim (Bool-cases (length payload == 0 || leb max_datagram_len off)) [
      | inl nothing_left ↦
          let nothing = brings-none off end payload x (ground (arith, bounds.2)) in
          let same : held key d x ≡ first_of (held key d x) (brings off end payload x) =
            rw nothing (first_of-none (held key d x)) in
          rw nothing_left (s, inl (inr (refl, same)))
      | inr fragment ↦
          let out =
            feed_entry-Fed key off end payload (pp.frag_more) (stamped key now e)
              ((enter_table key d).0) (entered key now e) x (ground arith) (bounds.0)
              (entered-IsSound key now e (room.sound)) (entered-lookup key now e) in
          let same : seen (stamped key now e) x ≡ held key d x =
            seen-stamped key now e x ∙ before in
          rw fragment (
            out.0,
            subst
                (λ b. Fed key b (first_of b (brings off end payload x)) end x (
                  feed_entry key off end payload (pp.frag_more) (stamped key now e)
                    ((enter_table key d).0) (entered key now e)))
                same (out.1),
          )
    ]
