-- ===== src/EthProbe/Settling.antt =====
-- The end of add_fragment in apps/eth_probe/ip_defrag.cpp: the entry's update or its delivery.
use autosar_idsm.Prelude.{
  ℕ, zero, suc, ◌+◌, ◌-◌, ◌<◌, ◌≤◌, ◌≡◌, ◌∙◌, refl, ◌⊎◌, Bool, true, false, ◌&&◌, Option, none,
  some, List, [], ◌∷◌, All, length, take, get_or, leb, ◌==◌, Bool-cases, inl, inr, arith, sub64,
  same_refl,
}
use autosar_idsm.Prelude.Assoc.{
  lookup, store, erase, forget, distinct, lookup-store, lookup-erase_gone, distinct-erase,
  distinct-store, All-erase, All-store,
}
use autosar_idsm.EthProbe.Coverage.{Range}
use autosar_idsm.EthProbe.Ranges.{covered_at}
use autosar_idsm.EthProbe.Copying.{get_or-take}
use autosar_idsm.EthProbe.Fragment.{FragKey, frag_key_key, Datagram}
use autosar_idsm.EthProbe.Defrag.{Defrag, DefragResult, is_whole, settle_entry}
use autosar_idsm.EthProbe.Reassembly.{IsTidy, seen}
use autosar_idsm.EthProbe.Pool.{IsSound, charge, charge-erase, charge-store_old, sub64_below}

-- The byte that the table holds for position x of a datagram.
unfoldable pub held : FragKey → Defrag → ℕ → Option ℕ
unfolding lookup seen
held key d x = elim (lookup key (d.table)) [ none ↦ none | some dg ↦ seen dg x ]

pub held-none :
    (key : FragKey) (d : Defrag) (x : ℕ) → lookup key (d.table) ≡ none → held key d x ≡ none
unfolding held
held-none key d x h = rw (held, h) refl

pub held-some :
    (key : FragKey) (d : Defrag) (x : ℕ) (dg : Datagram)
    → lookup key (d.table) ≡ some dg
    → held key d x ≡ seen dg x
unfolding held
held-some key d x dg h = rw (held, h) refl

length-take_below : (n : ℕ) (xs : List ℕ) (x : ℕ) → x < length (take n xs) → x < n
length-take_below zero xs x h = omega (arith, h)
length-take_below (suc n) [] x h = absurd (omega (arith, h))
length-take_below (suc n) (y ∷ xs) zero h = omega arith
length-take_below (suc n) (y ∷ xs) (suc x) h =
    omega (arith, length-take_below n xs x (omega (arith, h)))

-- A whole datagram holds each position below its length.
whole-covered_at :
    (cov : List Range) (total x : ℕ) (last : Bool)
    → (elim cov as (λ _. Bool) [
      | [] ↦ false
      | first ∷ rest ↦ elim rest as (λ _. Bool) [
        | [] ↦ last && first.0 == 0 && leb total first.1
        | second ∷ others ↦ false
      ]
    ])
      ≡ true
    → x < total
    → covered_at x cov ≡ true
unfolding covered_at
whole-covered_at [] total x last w h = absurd (ground (arith, w))
whole-covered_at ((lo, hi) ∷ []) total x last w h = ground arith
whole-covered_at ((lo, hi) ∷ r ∷ rest) total x last w h = absurd (ground (arith, w))

seen-is_whole :
    (dg : Datagram) (x : ℕ)
    → is_whole dg ≡ true
    → x < length (take (dg.total_len) (dg.buf))
    → some (get_or (take (dg.total_len) (dg.buf)) x 0) ≡ seen dg x
unfolding is_whole seen
seen-is_whole dg x w h =
    let below : x < dg.total_len = length-take_below (dg.total_len) (dg.buf) x h in
    rw
      (
        whole-covered_at (dg.covered) (dg.total_len) x (dg.have_last) w below,
        get_or-take (dg.total_len) (dg.buf) x below,
      )
      refl

-- The entry's charge is not in the table yet: `old` is what the table holds.
pub record IsOpen (key : FragKey) (old dg : Datagram) (d : Defrag) : Type 0 where
  pub keys : distinct (d.table) ≡ true
  pub entries : All (λ e. IsTidy e.1) (d.table)
  pub held_old : lookup key (d.table) ≡ some old
  pub tidy : IsTidy dg
  pub paid : d.mem_used + old.accounted ≡ charge (d.table) + dg.accounted
  pub bounded : d.mem_used ≤ d.max_mem_bytes
  pub small : d.max_mem_bytes < 9223372036854775808

pub settle_entry-IsSound :
    (key : FragKey) (old dg : Datagram) (evicted : Bool) (d : Defrag)
    → IsOpen key old dg d
    → IsSound ((settle_entry key dg evicted d).1)
unfolding settle_entry
settle_entry-IsSound key old dg evicted d o =
    let less = charge-erase key old (d.table) (o.held_old) in
    let left : sub64 (d.mem_used) (dg.accounted) ≡ d.mem_used - dg.accounted =
      sub64_below (d.mem_used) (dg.accounted) (omega (arith, less, o.paid))
        (omega (arith, o.bounded, o.small)) in
    elim (Bool-cases (is_whole dg)) [
      | inl whole ↦ rw whole (record {
        keys = distinct-erase key (d.table) (o.keys);
        entries = All-erase IsTidy key (d.table) (o.entries);
        paid = omega (arith, left, less, o.paid);
        bounded = omega (arith, left, o.bounded);
        small = o.small;
      })
      | inr part ↦ rw part (record {
        keys = distinct-store key dg (d.table) (o.keys);
        entries = All-store IsTidy key dg (d.table) (o.tidy) (o.entries);
        paid = omega (arith, charge-store_old key old dg (d.table) (o.held_old), o.paid);
        bounded = o.bounded;
        small = o.small;
      })
    ]

-- The datagram is delivered with the bytes that the entry holds, and its entry goes, or it is kept.
unfoldable pub Settled : FragKey → Option ℕ → ℕ → DefragResult × Defrag → Type 0
Settled key byte x out =
    (out.0.complete ≡ true)
      × (x < length (out.0.datagram) → some (get_or (out.0.datagram) x 0) ≡ byte)
      × (held key (out.1) x ≡ none)
    ⊎ (out.0.complete ≡ false) × (held key (out.1) x ≡ byte)

pub settle_entry-Settled :
    (key : FragKey) (dg : Datagram) (evicted : Bool) (d : Defrag) (x : ℕ)
    → distinct (d.table) ≡ true
    → Settled key (seen dg x) x (settle_entry key dg evicted d)
unfolding Settled settle_entry
settle_entry-Settled key dg evicted d x s = elim (Bool-cases (is_whole dg)) [
  | inl whole ↦
      let gone : held key
            (record d {
              mem_used = sub64 (d.mem_used) (dg.accounted);
              table = erase key (d.table);
              lru = forget key (d.lru);
            })
            x
          ≡ none =
        held-none key _ x (lookup-erase_gone key (d.table) s) in
      rw whole (inl (refl, seen-is_whole dg x whole, gone))
  | inr part ↦
      let found : lookup key (store key dg (d.table)) ≡ some dg =
        lookup-store key key dg (d.table) ∙ rw (same_refl key) refl in
      let kept : held key (record d { table = store key dg (d.table) }) x ≡ seen dg x =
        held-some key _ x dg found in
      rw part (inr (refl, kept))
]
