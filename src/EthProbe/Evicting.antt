-- ===== src/EthProbe/Evicting.antt =====
-- The loops of apps/eth_probe/ip_defrag.cpp that evict entries end where their conditions fail.
use autosar_idsm.Prelude.{
  ℕ, zero, suc, ◌+◌, ◌≤◌, ◌≡◌, refl, Bool, true, false, ◌&&◌, List, [], ◌∷◌, length, ltb, leb,
  Bool-cases, Option-cases, inl, inr, arith,
}
use autosar_idsm.Prelude.Assoc.{lookup}
use autosar_idsm.EthProbe.Fragment.{FragKey, frag_key_key}
use autosar_idsm.EthProbe.Defrag.{
  Defrag, drop_entry, evict_one, make_room, make_memory, other_in_front,
}

drop_entry_lru : (k : FragKey) (d : Defrag) → (drop_entry k d).lru ≡ d.lru
unfolding drop_entry
drop_entry_lru k d = elim (Option-cases (lookup k (d.table))) [
  | inl gone ↦ rw (drop_entry, gone) refl
  | inr (dg, found) ↦ rw (drop_entry, found) refl
]

evict_lru :
    (lru : List FragKey) (fuel : ℕ) (d : Defrag)
    → length lru ≤ suc fuel
    → length (
        (elim lru as (λ _. Bool × Defrag) [
          | [] ↦ (false, record d { lru = lru })
          | victim ∷ rest ↦ (true, drop_entry victim (record d { lru = rest }))
        ]).1.lru)
      ≤ fuel
evict_lru [] fuel d h = omega arith
evict_lru (victim ∷ rest) fuel d h =
    rw (drop_entry_lru victim (record d { lru = rest })) (omega arith)

evict_one_lru :
    (fuel : ℕ) (d : Defrag) → length (d.lru) ≤ suc fuel → length ((evict_one d).1.lru) ≤ fuel
unfolding evict_one
evict_one_lru fuel d h = evict_lru (d.lru) fuel d h

evict_none :
    (lru : List FragKey) (d : Defrag)
    → length lru ≤ 0
    → ((elim lru as (λ _. Bool × Defrag) [
      | [] ↦ (false, record d { lru = lru })
      | victim ∷ rest ↦ (true, drop_entry victim (record d { lru = rest }))
    ]).0)
      ≡ false
evict_none [] d h = refl
evict_none (v ∷ rest) d h = absurd (omega (arith, h))

evict_one_none : (d : Defrag) → length (d.lru) ≤ 0 → (evict_one d).0 ≡ false
unfolding evict_one
evict_one_none d h = evict_none (d.lru) d h

and_false : (b : Bool) → (b && false) ≡ false
and_false true = refl
and_false false = refl

front_none : (key : FragKey) (lru : List FragKey) → length lru ≤ 0 → other_in_front key lru ≡ false
unfolding other_in_front
front_none key [] h = refl
front_none key (v ∷ rest) h = absurd (omega (arith, h))

-- With fuel for each entry of the list, the loop's condition no longer holds where it ends.
make_room_ends :
    (fuel : ℕ) (d : Defrag)
    → length (d.lru) ≤ fuel
    → (leb ((make_room fuel d).1.max_datagrams) (length ((make_room fuel d).1.table))
        && (evict_one ((make_room fuel d).1)).0)
      ≡ false
unfolding make_room
make_room_ends zero d h =
    rw (evict_one_none d h) (and_false (leb (d.max_datagrams) (length (d.table))))
make_room_ends (suc fuel) d h =
    elim (Bool-cases (leb (d.max_datagrams) (length (d.table)) && (evict_one d).0)) [
      | inl full ↦ rw full (make_room_ends fuel ((evict_one d).1) (evict_one_lru fuel d h))
      | inr ends ↦ rw (ends, ends) refl
    ]

make_memory_ends :
    (fuel : ℕ) (key : FragKey) (grow : ℕ) (d : Defrag)
    → length (d.lru) ≤ fuel
    → (ltb
          ((make_memory fuel key grow d).1.max_mem_bytes)
          ((make_memory fuel key grow d).1.mem_used + grow)
        && other_in_front key ((make_memory fuel key grow d).1.lru))
      ≡ false
unfolding make_memory
make_memory_ends zero key grow d h =
    rw (front_none key (d.lru) h) (and_false (ltb (d.max_mem_bytes) (d.mem_used + grow)))
make_memory_ends (suc fuel) key grow d h =
    elim (Bool-cases (ltb (d.max_mem_bytes) (d.mem_used + grow) && other_in_front key (d.lru))) [
      | inl full ↦
          rw full (make_memory_ends fuel key grow ((evict_one d).1) (evict_one_lru fuel d h))
      | inr ends ↦ rw (ends, ends) refl
    ]

-- The loop that evicts for a new entry ends with the table below its bound or with nothing left to
-- evict, and the loop that evicts for memory ends with the memory within its bound or with the
-- fragment's own key in front or no key: with as much fuel as keys, neither stops for want of it.
pub evictions_end :
    (key : FragKey) (grow : ℕ) (d : Defrag)
    → ((leb
            ((make_room (length (d.lru)) d).1.max_datagrams)
            (length ((make_room (length (d.lru)) d).1.table))
          && (evict_one ((make_room (length (d.lru)) d).1)).0)
        ≡ false)
      × ((ltb
              ((make_memory (length (d.lru)) key grow d).1.max_mem_bytes)
              ((make_memory (length (d.lru)) key grow d).1.mem_used + grow)
            && other_in_front key ((make_memory (length (d.lru)) key grow d).1.lru))
          ≡ false)
evictions_end key grow d = (
  make_room_ends (length (d.lru)) d (omega arith),
  make_memory_ends (length (d.lru)) key grow d (omega arith),
)
