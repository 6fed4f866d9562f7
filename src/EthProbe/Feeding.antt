-- ===== src/EthProbe/Feeding.antt =====
-- The part of add_fragment in apps/eth_probe/ip_defrag.cpp that feeds an entry of the table.
use autosar_idsm.Prelude.{
  ℕ, ◌+◌, ◌<◌, ◌≤◌, ◌≡◌, ◌∙◌, refl, sym, subst, ◌⊎◌, Bool, true, false, ◌||◌, Option, none, some,
  List, [], ◌∷◌, length, ltb, ◌==◌, Bool-cases, inl, inr, arith,
}
use autosar_idsm.Prelude.Assoc.{
  lookup, erase, forget, lookup-erase_gone, distinct-erase, All-erase, All-lookup,
}
use autosar_idsm.EthProbe.Ranges.{covered_at}
use autosar_idsm.EthProbe.Fragment.{FragKey, frag_key_key, Datagram}
use autosar_idsm.EthProbe.Defrag.{
  Defrag, DefragResult, make_memory, grown, grow_by, put_fragment, settle_entry, skip_fragment,
  feed_entry,
}
use autosar_idsm.EthProbe.Reassembly.{
  IsTidy, seen, within, first_of, brings, seen-grown, seen-put_fragment, grown-IsTidy,
  put_fragment-IsTidy, length-grown,
}
use autosar_idsm.EthProbe.Pool.{IsSound, make_memory-IsKept, charge-erase}
use autosar_idsm.EthProbe.Settling.{
  held, held-none, held-some, IsOpen, settle_entry-IsSound, Settled, settle_entry-Settled,
}

-- An entry with an empty buffer holds nothing.
covered_at-within : (n x : ℕ) (l : List (ℕ × ℕ)) → within n l ≡ true → covered_at x l ≡ true → x < n
unfolding within covered_at
covered_at-within n x [] w h = absurd (ground (arith, h))
covered_at-within n x ((lo, hi) ∷ rest) w h = ground (arith, covered_at-within n x rest)

seen_empty : (dg : Datagram) (x : ℕ) → IsTidy dg → dg.accounted ≡ 0 → seen dg x ≡ none
unfolding seen
seen_empty dg x t h = elim (Bool-cases (covered_at x (dg.covered))) [
  | inl old ↦ absurd (
      omega
        (arith, covered_at-within (length (dg.buf)) x (dg.covered) (t.inside) old, t.charged, h))
  | inr new ↦ rw new refl
]

-- The fragment's datagram is delivered or kept with its bytes added, or memory is short and the
-- entry stays as it was.
unfoldable pub Fed : FragKey → Option ℕ → Option ℕ → ℕ → ℕ → DefragResult × Defrag → Type 0
Fed key old byte end x out =
    Settled key byte x out
    ⊎ (out.0.complete ≡ false)
      × (held key (out.1) x ≡ old)
      × (out.1.max_mem_bytes < out.1.mem_used + end)

skip_fragment-held :
    (key : FragKey) (dg : Datagram) (d : Defrag) (x : ℕ)
    → IsSound d
    → IsTidy dg
    → lookup key (d.table) ≡ some dg
    → held key (skip_fragment key dg d) x ≡ seen dg x
unfolding skip_fragment
skip_fragment-held key dg d x s t found = elim (Bool-cases (dg.accounted == 0)) [
  | inl fresh ↦
      let gone : held key (record d { table = erase key (d.table); lru = forget key (d.lru) }) x
          ≡ none =
        held-none key _ x (lookup-erase_gone key (d.table) (s.keys)) in
      rw fresh (gone ∙ sym (seen_empty dg x t (ground (arith, fresh))))
  | inr used ↦ rw used (held-some key d x dg found)
]

skip_fragment-IsSound :
    (key : FragKey) (dg : Datagram) (d : Defrag)
    → IsSound d
    → lookup key (d.table) ≡ some dg
    → IsSound (skip_fragment key dg d)
unfolding skip_fragment
skip_fragment-IsSound key dg d s found = elim (Bool-cases (dg.accounted == 0)) [
  | inl fresh ↦ rw fresh (record {
    keys = distinct-erase key (d.table) (s.keys);
    entries = All-erase IsTidy key (d.table) (s.entries);
    paid = ground (arith, charge-erase key dg (d.table) found, s.paid, fresh);
    bounded = s.bounded;
    small = s.small;
  })
  | inr used ↦ rw used s
]

skip_fragment_mem :
    (key : FragKey) (dg : Datagram) (d : Defrag)
    → ((skip_fragment key dg d).mem_used ≡ d.mem_used)
      × ((skip_fragment key dg d).max_mem_bytes ≡ d.max_mem_bytes)
unfolding skip_fragment
skip_fragment_mem key dg d = elim (Bool-cases (dg.accounted == 0)) [
  | inl fresh ↦ rw fresh (refl, refl)
  | inr used ↦ rw used (refl, refl)
]

-- A fragment that the buffer has room for.
IsOpen-put :
    (key : FragKey) (off end : ℕ) (payload : List ℕ) (more : Bool) (old dg : Datagram) (d : Defrag)
    → off < end
    → end ≤ length (dg.buf)
    → IsOpen key old dg d
    → IsOpen key old (put_fragment off end payload more dg) d
unfolding put_fragment
IsOpen-put key off end payload more old dg d h p o = record {
  keys = o.keys;
  entries = o.entries;
  held_old = o.held_old;
  tidy = put_fragment-IsTidy off end payload more dg h p (o.tidy);
  paid = o.paid;
  bounded = o.bounded;
  small = o.small;
}

IsOpen-same :
    (key : FragKey) (dg : Datagram) (d : Defrag)
    → IsSound d
    → lookup key (d.table) ≡ some dg
    → IsOpen key dg dg d
IsOpen-same key dg d s found = record {
  keys = s.keys;
  entries = s.entries;
  held_old = found;
  tidy = All-lookup IsTidy key (d.table) (s.entries) found;
  paid = omega (arith, s.paid);
  bounded = s.bounded;
  small = s.small;
}

IsOpen-grown :
    (key : FragKey) (end : ℕ) (dg : Datagram) (d : Defrag)
    → IsSound d
    → lookup key (d.table) ≡ some dg
    → d.mem_used + grow_by end dg ≤ d.max_mem_bytes
    → IsOpen key dg (grown end dg) (record d { mem_used = d.mem_used + grow_by end dg })
unfolding grown
IsOpen-grown key end dg d s found fits = record {
  keys = s.keys;
  entries = s.entries;
  held_old = found;
  tidy = grown-IsTidy end dg (All-lookup IsTidy key (d.table) (s.entries) found);
  paid = omega (arith, s.paid);
  bounded = fits;
  small = s.small;
}

settle_entry-Fed :
    (key : FragKey) (off end : ℕ) (payload : List ℕ) (more : Bool) (old dg : Datagram)
    (evicted : Bool) (d : Defrag) (x : ℕ)
    → off < end
    → end ≤ off + length payload
    → end ≤ length (dg.buf)
    → IsOpen key old dg d
    → IsSound ((settle_entry key (put_fragment off end payload more dg) evicted d).1)
      × Settled key
          (first_of (seen dg x) (brings off end payload x))
          x
          (settle_entry key (put_fragment off end payload more dg) evicted d)
settle_entry-Fed key off end payload more old dg evicted d x h p q o = (
  settle_entry-IsSound key old (put_fragment off end payload more dg) evicted d
      (IsOpen-put key off end payload more old dg d h q o),
  subst (λ b. Settled key b x (settle_entry key (put_fragment off end payload more dg) evicted d))
      (seen-put_fragment off end payload more dg x h p q (o.tidy))
      (settle_entry-Settled key (put_fragment off end payload more dg) evicted d x (o.keys)),
)

-- What a fragment leaves: a sound table, and its bytes at the positions that are new.
pub feed_entry-Fed :
    (key : FragKey) (off end : ℕ) (payload : List ℕ) (more : Bool) (dg : Datagram) (evicted : Bool)
    (d : Defrag) (x : ℕ)
    → off < end
    → end ≤ off + length payload
    → IsSound d
    → lookup key (d.table) ≡ some dg
    → IsSound ((feed_entry key off end payload more dg evicted d).1)
      × Fed key
          (seen dg x)
          (first_of (seen dg x) (brings off end payload x))
          end
          x
          (feed_entry key off end payload more dg evicted d)
unfolding Fed feed_entry
feed_entry-Fed key off end payload more dg evicted d x h p s found =
    let grow = grow_by end dg in
    let room = make_memory (length (d.lru)) key grow d in
    let kept = make_memory-IsKept (length (d.lru)) key grow d s in
    let there : lookup key (room.1.table) ≡ some dg = kept.entry ∙ found in
    let tidy = All-lookup IsTidy key (d.table) (s.entries) found in
    elim (Bool-cases (ltb (length (dg.buf)) end)) [
      | inl short ↦ elim (Bool-cases (ltb (room.1.max_mem_bytes) (room.1.mem_used + grow))) [
        | inl full ↦
            let full_room : room.1.max_mem_bytes < room.1.mem_used + end = ground arith in
            rw (short, full)
              (
                skip_fragment-IsSound key dg (room.1) (kept.sound) there,
                inr (
                  refl,
                  skip_fragment-held key dg (room.1) x (kept.sound) tidy there,
                  omega (arith, skip_fragment_mem key dg (room.1), full_room),
                ),
              )
        | inr fits ↦
            let open_ = IsOpen-grown key end dg (room.1) (kept.sound) there (ground arith) in
            let out =
              settle_entry-Fed key off end payload more dg (grown end dg) (evicted || room.0)
                (record (room.1) { mem_used = room.1.mem_used + grow }) x h p
                (omega (arith, length-grown end dg)) open_ in
            let same = seen-grown end dg x in
            rw (short, fits)
              (
                out.0,
                inl (
                    subst
                      (λ b. Settled key (first_of b (brings off end payload x)) x (
                        settle_entry key (put_fragment off end payload more (grown end dg))
                          (evicted || room.0)
                          (record (room.1) { mem_used = room.1.mem_used + grow })))
                      same (out.1)),
              )
      ]
      | inr long ↦
          let out =
            settle_entry-Fed key off end payload more dg dg evicted d x h p (ground arith)
              (IsOpen-same key dg d s found) in
          rw long (out.0, inl (out.1))
    ]
