-- ===== src/EthProbe/Bounds.antt =====
-- Memory safety of the parser of apps/eth_probe/packet.cpp: no read leaves the frame, and the views
-- that it hands out lie in it.
use autosar_idsm.Prelude.{
  ℕ, zero, suc, ◌+◌, ◌-◌, ◌*◌, ◌%◌, ◌≤◌, ◌≡◌, Bool, true, false, ◌&&◌, Option, none, some, List,
  length, take, drop, get_or, ltb, leb, if◌then◌else◌, Bool-cases, Option-cases, inl, inr, arith,
}
use autosar_idsm.EthProbe.Memory.{◌>>=◌, word16, byte_in, rd16_in, rd32_in, copy_in}
use autosar_idsm.EthProbe.Packet.{
  View, ParsedPacket, empty_packet, parse_arp, parse_tcp, parse_udp, parse_icmp, parse_l4,
  parse_ipv4, parse_first, ipv4_fields, ipv6_fields, ipv6_payload, Walk, stopped, arrived,
  walk_fragment, skip_header, walk, finish_ipv6, parse_ipv6, Parsed, skip_tags, decoded, dispatch,
  parse_packet,
}

abbrev pub view_ok : ℕ → Option View → Bool
view_ok n none = true
view_ok n (some v) = leb (v.start + v.size) n

-- Both views of a packet lie in a frame of n bytes.
abbrev pub packet_ok : ℕ → ParsedPacket → Bool
packet_ok n out = view_ok n (out.payload) && view_ok n (out.l4_data)

-- A parser succeeds with such a packet.
abbrev safe : ℕ → Option ParsedPacket → Bool
safe n none = false
safe n (some out) = packet_ok n out

module _ (d : List ℕ) where
  safe-parse_arp :
      (at len : ℕ) (out : ParsedPacket)
      → at + len ≤ length d
      → packet_ok (length d) out ≡ true
      → safe (length d) (parse_arp d at len out) ≡ true
  unfolding parse_arp
  safe-parse_arp at len out fits ok_ = ground (
    arith,
    rd16_in d at,
    rd16_in d (at + 2),
    byte_in d (at + 4),
    byte_in d (at + 5),
    rd16_in d (at + 6),
    copy_in d (at + 8) 6,
    copy_in d (at + 14) 4,
    copy_in d (at + 18) 6,
    copy_in d (at + 24) 4,
  )

  safe-parse_tcp :
      (at len : ℕ) (out : ParsedPacket)
      → at + len ≤ length d
      → packet_ok (length d) out ≡ true
      → safe (length d) (parse_tcp d at len out) ≡ true
  unfolding parse_tcp
  safe-parse_tcp at len out fits ok_ = ground (
    arith,
    rd16_in d at,
    rd16_in d (at + 2),
    rd32_in d (at + 4),
    rd32_in d (at + 8),
    byte_in d (at + 12),
    byte_in d (at + 13),
  )

  safe-parse_udp :
      (at len : ℕ) (out : ParsedPacket)
      → at + len ≤ length d
      → packet_ok (length d) out ≡ true
      → safe (length d) (parse_udp d at len out) ≡ true
  unfolding parse_udp
  safe-parse_udp at len out fits ok_ =
      ground (arith, rd16_in d at, rd16_in d (at + 2), rd16_in d (at + 4))

  safe-parse_icmp :
      (at len : ℕ) (out : ParsedPacket)
      → at + len ≤ length d
      → packet_ok (length d) out ≡ true
      → safe (length d) (parse_icmp d at len out) ≡ true
  unfolding parse_icmp
  safe-parse_icmp at len out fits ok_ = ground (arith, byte_in d at, byte_in d (at + 1))

  safe-parse_l4 :
      (at len proto : ℕ) (out : ParsedPacket)
      → at + len ≤ length d
      → packet_ok (length d) out ≡ true
      → safe (length d) (parse_l4 d at len proto out) ≡ true
  unfolding parse_l4
  safe-parse_l4 at len proto out fits ok_ = ground (
    arith,
    safe-parse_tcp at len out fits ok_,
    safe-parse_udp at len out fits ok_,
    safe-parse_icmp at len out fits ok_,
  )

  safe-parse_first :
      (at len : ℕ) (out : ParsedPacket)
      → at + len ≤ length d
      → packet_ok (length d) out ≡ true
      → safe (length d) (parse_first d at len out) ≡ true
  unfolding parse_first
  safe-parse_first at len out fits ok_ =
      ground (arith, safe-parse_l4 at len (out.l4_proto) out fits ok_)

  -- What IPv4 leaves to parse: a header of `ihl` bytes, and a total length that covers it.
  safe-parse_ipv4_rest :
      (at ihl total len ident flags proto : ℕ) (source target : List ℕ) (out : ParsedPacket)
      → at + len ≤ length d
      → ihl ≤ len
      → ihl ≤ total
      → packet_ok (length d) out ≡ true
      → let size : ℕ = (if leb total len then total else len) - ihl in
        safe (length d) (
          parse_first d (at + ihl) size (
            ipv4_fields ident flags proto source target
              (record { start = at + ihl; size = size })
              out))
        ≡ true
  safe-parse_ipv4_rest at ihl total len ident flags proto source target out fits h t ok_ =
      let size : ℕ = (if leb total len then total else len) - ihl in
      safe-parse_first (at + ihl) size
        (ipv4_fields ident flags proto source target (record { start = at + ihl; size = size }) out)
        (ground arith) (ground arith)

  safe-parse_ipv4 :
      (at len : ℕ) (out : ParsedPacket)
      → at + len ≤ length d
      → packet_ok (length d) out ≡ true
      → safe (length d) (parse_ipv4 d at len out) ≡ true
  unfolding parse_ipv4
  safe-parse_ipv4 at len out fits ok_ = elim (Bool-cases (ltb len 20)) [
    | inl short ↦ rw (short, parse_ipv4) ok_
    | inr long ↦
        let enough : 20 ≤ len = ground arith in
        rw (long, parse_ipv4)
          (rw
            (
              byte_in d at (omega arith),
              rd16_in d (at + 2) (omega arith),
              rd16_in d (at + 4) (omega arith),
              rd16_in d (at + 6) (omega arith),
              byte_in d (at + 9) (omega arith),
              copy_in d (at + 12) 4 (omega arith),
              copy_in d (at + 16) 4 (omega arith),
            )
            (ground (
              arith,
              safe-parse_ipv4_rest at (get_or d at 0 % 16 * 4) (word16 d (at + 2)) len
                  (word16 d (at + 4)) (word16 d (at + 6)) (get_or d (at + 9) 0)
                  (take 4 (drop (at + 12) d)) (take 4 (drop (at + 16) d)) out fits,
            )))
  ]

  -- A walk that is right so far: its offset is in the packet.
  abbrev safe_walk : ℕ → Option Walk → Bool
  safe_walk len none = false
  safe_walk len (some (stopped out)) = packet_ok (length d) out
  safe_walk len (some (arrived next off out)) = leb off len && packet_ok (length d) out

  safe_walk-skip_header :
      (at len next off : ℕ) (out : ParsedPacket)
      → at + len ≤ length d
      → packet_ok (length d) out ≡ true
      → safe_walk len (skip_header d at len next off out) ≡ true
  unfolding skip_header
  safe_walk-skip_header at len next off out fits ok_ =
      ground (arith, byte_in d (at + off), byte_in d (at + off + 1))

  safe_walk-walk_fragment :
      (at len off : ℕ) (out : ParsedPacket)
      → at + len ≤ length d
      → packet_ok (length d) out ≡ true
      → safe_walk len (walk_fragment d at len off out) ≡ true
  unfolding walk_fragment
  safe_walk-walk_fragment at len off out fits ok_ =
      ground (arith, byte_in d (at + off), rd16_in d (at + off + 2), rd32_in d (at + off + 4))

  safe_walk-bind :
      (hops at len : ℕ) (w : Option Walk)
      → at + len ≤ length d
      → ((v : Walk) → safe_walk len (some v) ≡ true → safe_walk len (walk hops d at len v) ≡ true)
      → safe_walk len w ≡ true
      → safe_walk len (w >>= walk hops d at len) ≡ true
  safe_walk-bind hops at len none fits later ok_ = ok_
  safe_walk-bind hops at len (some v) fits later ok_ = later v ok_

  safe_walk-walk :
      (hops at len : ℕ) (v : Walk)
      → at + len ≤ length d
      → safe_walk len (some v) ≡ true
      → safe_walk len (walk hops d at len v) ≡ true
  unfolding walk
  safe_walk-walk zero at len v fits ok_ = ok_
  safe_walk-walk (suc hops) at len (stopped out) fits ok_ = ok_
  safe_walk-walk (suc hops) at len (arrived next off out) fits ok_ =
      let good : packet_ok (length d) out ≡ true = ground arith in
      let skipped =
        safe_walk-bind hops at len (skip_header d at len next off out) fits
          (λ v h. safe_walk-walk hops at len v fits h)
          (safe_walk-skip_header at len next off out fits good) in
      ground (arith, skipped, safe_walk-walk_fragment at len off out fits good)

  safe-finish_ipv6 :
      (at len : ℕ) (w : Option Walk)
      → at + len ≤ length d
      → safe_walk len w ≡ true
      → safe (length d) (w >>= finish_ipv6 d at len) ≡ true
  unfolding finish_ipv6
  safe-finish_ipv6 at len none fits ok_ = ok_
  safe-finish_ipv6 at len (some (stopped out)) fits ok_ = ok_
  safe-finish_ipv6 at len (some (arrived next off out)) fits ok_ =
      safe-parse_first (at + off) (len - off) _ (ground arith) (ground arith)

  safe-ipv6_payload :
      (at len next : ℕ) (out : ParsedPacket)
      → at + len ≤ length d
      → 40 ≤ len
      → packet_ok (length d) out ≡ true
      → safe (length d) (ipv6_payload d at len next out) ≡ true
  unfolding ipv6_payload
  safe-ipv6_payload at len next out fits h ok_ =
      safe-finish_ipv6 at len (walk 8 d at len (arrived next 40 out)) fits
        (safe_walk-walk 8 at len (arrived next 40 out) fits (ground arith))

  safe-parse_ipv6 :
      (at len : ℕ) (out : ParsedPacket)
      → at + len ≤ length d
      → packet_ok (length d) out ≡ true
      → safe (length d) (parse_ipv6 d at len out) ≡ true
  unfolding parse_ipv6
  safe-parse_ipv6 at len out fits ok_ = ground (
    arith,
    byte_in d at,
    byte_in d (at + 6),
    copy_in d (at + 8) 16,
    copy_in d (at + 24) 16,
    safe-ipv6_payload at len (get_or d (at + 6) 0)
        (ipv6_fields (take 16 (drop (at + 8) d)) (take 16 (drop (at + 24) d)) out) fits,
  )

  abbrev safe_tags : Option (Option (ℕ × ℕ) × ParsedPacket) → Bool
  safe_tags none = false
  safe_tags (some (none, out)) = packet_ok (length d) out
  safe_tags (some (some (ethertype, off), out)) = leb off (length d) && packet_ok (length d) out

  safe_tags-skip_tags :
      (n ethertype off : ℕ) (out : ParsedPacket)
      → off ≤ length d
      → packet_ok (length d) out ≡ true
      → safe_tags (skip_tags n d ethertype off out) ≡ true
  unfolding skip_tags
  safe_tags-skip_tags zero ethertype off out fits ok_ = ground arith
  safe_tags-skip_tags (suc n) ethertype off out fits ok_ = ground (
    arith,
    rd16_in d (off + 2),
    safe_tags-skip_tags n (word16 d (off + 2)) (off + 4)
        (record out { vlan_tags = out.vlan_tags + 1 }),
  )

  abbrev safe_parsed : Option Parsed → Bool
  safe_parsed none = false
  safe_parsed (some r) = packet_ok (length d) (r.packet)

  safe_parsed-decoded :
      (out : Option ParsedPacket) → safe (length d) out ≡ true → safe_parsed (decoded out) ≡ true
  safe_parsed-decoded none ok_ = ok_
  safe_parsed-decoded (some out) ok_ = ok_

  safe_parsed-dispatch :
      (t : Option (ℕ × ℕ)) (out : ParsedPacket)
      → safe_tags (some (t, out)) ≡ true
      → safe_parsed (dispatch d t out) ≡ true
  unfolding dispatch
  safe_parsed-dispatch none out ok_ = ok_
  safe_parsed-dispatch (some (ethertype, off)) out ok_ =
      let out1 : ParsedPacket = record out { ethertype = ethertype } in
      let size = length d - off in
      ground (
        arith,
        safe_parsed-decoded (parse_ipv4 d off size out1)
            (safe-parse_ipv4 off size out1 (ground arith) (ground arith)),
        safe_parsed-decoded (parse_ipv6 d off size out1)
            (safe-parse_ipv6 off size out1 (ground arith) (ground arith)),
        safe_parsed-decoded (parse_arp d off size (record out1 { is_arp = true }))
            (safe-parse_arp off size (record out1 { is_arp = true }) (ground arith) (ground arith)),
      )

  safe_parsed-bind :
      (t : Option (Option (ℕ × ℕ) × ParsedPacket))
      → safe_tags t ≡ true
      → safe_parsed (t >>= λ p. dispatch d p.0 p.1) ≡ true
  safe_parsed-bind none ok_ = ok_
  safe_parsed-bind (some (t, out)) ok_ = safe_parsed-dispatch t out ok_

  safe_parsed-parse_packet : safe_parsed (parse_packet (some d)) ≡ true
  unfolding parse_packet
  safe_parsed-parse_packet = ground (
    arith,
    copy_in d 0 6,
    copy_in d 6 6,
    rd16_in d 12,
    safe_parsed-bind (
        skip_tags 2 d (word16 d 12) 14
          (record empty_packet { dst_mac = take 6 (drop 0 d); src_mac = take 6 (drop 6 d) })),
    safe_tags-skip_tags 2 (word16 d 12) 14
        (record empty_packet { dst_mac = take 6 (drop 0 d); src_mac = take 6 (drop 6 d) }),
  )

-- Whatever the bytes of a frame, parsing it reads nothing outside the frame and gives a packet whose
-- payload and L4 views lie inside it.
pub parse_packet_in_bounds :
    (d : List ℕ)
    → (r : Parsed) × (parse_packet (some d) ≡ some r) × (packet_ok (length d) (r.packet) ≡ true)
parse_packet_in_bounds d = elim (Option-cases (parse_packet (some d))) [
  | inl out ↦ absurd (ground (arith, safe_parsed-parse_packet d))
  | inr (r, found) ↦ (r, found, ground (arith, safe_parsed-parse_packet d))
]
