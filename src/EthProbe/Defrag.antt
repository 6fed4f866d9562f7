-- ===== src/EthProbe/Defrag.antt =====
-- The fragment reassembly of apps/eth_probe/ip_defrag.h and ip_defrag.cpp: IpDefrag. `lru` and
-- `lru_pos` are one list, the least recently touched key first.
use autosar_idsm.Prelude.{
  ℕ, zero, suc, ◌+◌, ◌-◌, Bool, true, false, not, ◌&&◌, ◌||◌, none, some, List, [], ◌∷◌, ◌++◌,
  length, replicate, take, ltb, leb, ◌==◌, if◌then◌else◌, u32, sub64, ◌~~◌, bytes_key, ◌*◌,
}
use autosar_idsm.Prelude.Assoc.{lookup, lookup_or, store, erase, forget}
use autosar_idsm.EthProbe.Packet.{ParsedPacket}
use autosar_idsm.EthProbe.Coverage.{start_at, copy_gaps, merge_range}
use autosar_idsm.EthProbe.Fragment.{FragKey, frag_key_key, Datagram, empty_datagram}

abbrev pub max_datagram_len : ℕ
max_datagram_len = 65535

-- IpDefrag::Impl with its Config.
pub record Defrag : Type 0 where
  pub max_datagrams : ℕ
  pub max_mem_bytes : ℕ
  pub timeout_ms : ℕ
  pub table : List (FragKey × Datagram)
  pub lru : List FragKey
  pub mem_used : ℕ

-- `IpDefrag()`
abbrev pub default_defrag : Defrag
default_defrag = record {
  max_datagrams = 256;
  max_mem_bytes = 2 * 1024 * 1024;
  timeout_ms = 10000;
  table = [];
  lru = [];
  mem_used = 0;
}

pub record DefragResult : Type 0 where
  pub complete : Bool
  pub evicted : Bool
  pub datagram : List ℕ

abbrev pub no_result : DefragResult
no_result = record { complete = false; evicted = false; datagram = [] }

-- Where a fragment's entry ends with its memory: `mem_used -= accounted` and the erasure of it.
unfoldable pub drop_entry : FragKey → Defrag → Defrag
drop_entry k d = elim (lookup k (d.table)) [
  | none ↦ d
  | some dg ↦ record d { table = erase k (d.table); mem_used = sub64 (d.mem_used) (dg.accounted) }
]

unfoldable pub touch : FragKey → Defrag → Defrag
touch k d = record d { lru = forget k (d.lru) ++ k ∷ [] }

-- `evict_one`, which says whether there was an entry to evict.
unfoldable pub evict_one : Defrag → Bool × Defrag
unfolding drop_entry
evict_one d = elim (d.lru) [
  | [] ↦ (false, d)
  | victim ∷ rest ↦ (true, drop_entry victim (record d { lru = rest }))
]

-- The loops that evict, on fuel: each round takes an entry from `lru`.
unfoldable pub make_room : ℕ → Defrag → Bool × Defrag
unfolding evict_one
make_room zero d = (false, d)
make_room (suc fuel) d =
    let rest = make_room fuel (evict_one d).1 in
    if leb (d.max_datagrams) (length (d.table)) && (evict_one d).0
    then (true, rest.1)
    else (false, d)

-- `!lru.empty() && !(lru.front() == key)`
unfoldable pub other_in_front : FragKey → List FragKey → Bool
other_in_front key [] = false
other_in_front key (front ∷ rest) = not (front ~~ key)

unfoldable pub make_memory : ℕ → FragKey → ℕ → Defrag → Bool × Defrag
unfolding evict_one other_in_front
make_memory zero key grow d = (false, d)
make_memory (suc fuel) key grow d =
    let rest = make_memory fuel key grow (evict_one d).1 in
    if ltb (d.max_mem_bytes) (d.mem_used + grow) && other_in_front key (d.lru)
    then (true, rest.1)
    else (false, d)

-- "need" and the growth of the buffer to it.
abbrev pub grow_by : ℕ → Datagram → ℕ
grow_by need dg = need - length (dg.buf)

unfoldable pub grown : ℕ → Datagram → Datagram
grown need dg = record dg {
  buf = dg.buf ++ replicate (grow_by need dg) 0;
  accounted = dg.accounted + grow_by need dg;
}

-- The copy and the merge of [off, end), and the length that the last fragment tells.
unfoldable pub put_fragment : ℕ → ℕ → List ℕ → Bool → Datagram → Datagram
unfolding start_at copy_gaps merge_range
put_fragment off end payload more dg = record dg {
  buf = copy_gaps off payload end off (start_at off (dg.covered)) (dg.buf);
  covered = merge_range off end (dg.covered);
  have_last = dg.have_last || not more;
  total_len = if more then dg.total_len else end;
}

-- "Complete? single covered range [0,total)"
unfoldable pub is_whole : Datagram → Bool
is_whole dg = elim (dg.covered) [
  | [] ↦ false
  | first ∷ rest ↦ elim rest [
    | [] ↦ dg.have_last && first.0 == 0 && leb (dg.total_len) first.1
    | second ∷ others ↦ false
  ]
]

-- The entry's last state, where it is complete and where it is not.
unfoldable pub settle_entry : FragKey → Datagram → Bool → Defrag → DefragResult × Defrag
unfolding is_whole
settle_entry key dg evicted d =
    if is_whole dg
    then (
      record { complete = true; evicted = evicted; datagram = take (dg.total_len) (dg.buf) },
      record d {
        mem_used = sub64 (d.mem_used) (dg.accounted);
        table = erase key (d.table);
        lru = forget key (d.lru);
      },
    )
    else (record no_result { evicted = evicted }, record d { table = store key dg (d.table) })

-- "Still cannot fit: drop the (fresh) entry and skip this fragment"
unfoldable pub skip_fragment : FragKey → Datagram → Defrag → Defrag
skip_fragment key dg d =
    if dg.accounted == 0
    then record d { table = erase key (d.table); lru = forget key (d.lru) }
    else d

-- From "Grow buffer to cover this fragment" on; the table holds dg under the key.
unfoldable pub feed_entry :
    FragKey → ℕ → ℕ → List ℕ → Bool → Datagram → Bool → Defrag → DefragResult × Defrag
unfolding make_memory grown put_fragment settle_entry skip_fragment
feed_entry key off end payload more dg evicted d =
    let grow = grow_by end dg in
    let room = make_memory (length (d.lru)) key grow d in
    let wider = grown end dg in
    if ltb (length (dg.buf)) end
    then if ltb (room.1.max_mem_bytes) (room.1.mem_used + grow)
      then (record no_result { evicted = evicted || room.0 }, skip_fragment key dg (room.1))
      else settle_entry key (put_fragment off end payload more wider) (evicted || room.0)
          (record (room.1) { mem_used = room.1.mem_used + grow })
    else settle_entry key (put_fragment off end payload more dg) evicted d

unfoldable pub frag_key : ParsedPacket → FragKey
frag_key pp = record {
  src = pp.src_ip;
  dst = pp.dst_ip;
  id = pp.frag_id;
  proto = pp.l4_proto;
  is_v6 = pp.is_ipv6;
}

-- `flen`, in uint32_t.
unfoldable pub fragment_length : ℕ → ℕ → ℕ
fragment_length off len =
    if ltb max_datagram_len (u32 (off + u32 len)) then max_datagram_len - off else u32 len

-- "Capacity: make room before inserting a new entry"
unfoldable pub enter_table : FragKey → Defrag → Bool × Defrag
unfolding lookup make_room
enter_table key d = elim (lookup key (d.table)) [
  | none ↦ make_room (length (d.lru)) d
  | some dg ↦ (false, d)
]

-- An empty payload stands for a null pointer too.
unfoldable pub add_fragment : ParsedPacket → List ℕ → ℕ → Defrag → DefragResult × Defrag
unfolding enter_table lookup_or touch feed_entry frag_key fragment_length
add_fragment pp payload now d =
    let key = frag_key pp in
    let off = pp.frag_offset in
    let end = u32 (off + fragment_length off (length payload)) in
    let room = enter_table key d in
    let dg = record (lookup_or empty_datagram key (room.1.table)) { last_seen_ms = now } in
    let entered = touch key (record (room.1) { table = store key dg (room.1.table) }) in
    if length payload == 0 || leb max_datagram_len off
    then (no_result, d)
    else feed_entry key off end payload (pp.frag_more) dg (room.0) entered

-- `expire`: its loop over the entries, with the number dropped.
unfoldable pub expire_entries : ℕ → List (FragKey × Datagram) → Defrag → ℕ × Defrag
expire_entries now [] d = (0, d)
expire_entries now ((k, dg) ∷ entries) d =
    let gone = record d {
      mem_used = sub64 (d.mem_used) (dg.accounted);
      lru = forget k (d.lru);
      table = erase k (d.table);
    } in
    let rest = expire_entries now entries gone in
    let kept = expire_entries now entries d in
    if leb (d.timeout_ms) (sub64 now (dg.last_seen_ms)) then (rest.0 + 1, rest.1) else kept

unfoldable pub expire : ℕ → Defrag → ℕ × Defrag
unfolding expire_entries
expire now d = expire_entries now (d.table) d
