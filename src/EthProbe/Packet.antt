-- ===== src/EthProbe/Packet.antt =====
-- The packet parser of apps/eth_probe/packet.h and packet.cpp. A parser gives `none` where the source
-- would read outside the frame; `at` and `len` are the pointer and the size that it is called with.
use autosar_idsm.Prelude.{
  ℕ, zero, suc, ◌+◌, ◌-◌, ◌*◌, ◌/◌, ◌%◌, Bool, true, false, not, ◌&&◌, ◌||◌, Option, none, some,
  List, replicate, length, ltb, leb, ◌==◌, if◌then◌else◌,
}
use autosar_idsm.EthProbe.Memory.{◌>>=◌, byte, rd16, rd32, copy, over_front}

-- A view into the frame: `payload` and `payload_len`, or `l4_data` and `l4_len`.
pub record View : Type 0 where
  pub start : ℕ
  pub size : ℕ

-- ParsedPacket; a null pointer is `none`.
pub record ParsedPacket : Type 0 where
  pub src_mac : List ℕ
  pub dst_mac : List ℕ
  pub ethertype : ℕ
  pub vlan_tags : ℕ
  pub is_arp : Bool
  pub arp_opcode : ℕ
  pub is_ipv4 : Bool
  pub is_ipv6 : Bool
  pub src_ip : List ℕ
  pub dst_ip : List ℕ
  pub l4_proto : ℕ
  pub is_fragment : Bool
  pub first_fragment : Bool
  pub frag_id : ℕ
  pub frag_offset : ℕ
  pub frag_more : Bool
  pub src_port : ℕ
  pub dst_port : ℕ
  pub is_tcp : Bool
  pub tcp_seq : ℕ
  pub tcp_ack : ℕ
  pub tcp_flags : ℕ
  pub is_udp : Bool
  pub payload : Option View
  pub l4_data : Option View
  pub truncated : Bool

-- `ParsedPacket{}`
abbrev pub empty_packet : ParsedPacket
empty_packet = record {
  src_mac = replicate 6 0;
  dst_mac = replicate 6 0;
  ethertype = 0;
  vlan_tags = 0;
  is_arp = false;
  arp_opcode = 0;
  is_ipv4 = false;
  is_ipv6 = false;
  src_ip = replicate 16 0;
  dst_ip = replicate 16 0;
  l4_proto = 0;
  is_fragment = false;
  first_fragment = false;
  frag_id = 0;
  frag_offset = 0;
  frag_more = false;
  src_port = 0;
  dst_port = 0;
  is_tcp = false;
  tcp_seq = 0;
  tcp_ack = 0;
  tcp_flags = 0;
  is_udp = false;
  payload = none;
  l4_data = none;
  truncated = false;
}

-- `{ out.truncated = true; return; }`
abbrev pub cut_short : ParsedPacket → Option ParsedPacket
cut_short out = some (record out { truncated = true })

-- parse_arp
unfoldable pub parse_arp : List ℕ → ℕ → ℕ → ParsedPacket → Option ParsedPacket
parse_arp d at len out = if ltb len 8 then cut_short out else do
  htype ← rd16 d at
  ptype ← rd16 d (at + 2)
  hlen ← byte d (at + 4)
  plen ← byte d (at + 5)
  opcode ← rd16 d (at + 6)
  let out1 : ParsedPacket = record out { arp_opcode = opcode }
  if not (htype == 1) || not (ptype == 0x0800) || not (hlen == 6) || not (plen == 4)
      then cut_short out1
      else if ltb len 28
      then cut_short out1
      else do
        sha ← copy d (at + 8) 6
        spa ← copy d (at + 14) 4
        tha ← copy d (at + 18) 6
        tpa ← copy d (at + 24) 4
        some (record out1 {
          src_mac = sha;
          src_ip = over_front spa (out1.src_ip);
          dst_mac = tha;
          dst_ip = over_front tpa (out1.dst_ip);
        })

-- The three protocols of parse_l4.
unfoldable pub parse_tcp : List ℕ → ℕ → ℕ → ParsedPacket → Option ParsedPacket
parse_tcp d at len out = if ltb len 20 then cut_short out else do
  source ← rd16 d at
  target ← rd16 d (at + 2)
  seq ← rd32 d (at + 4)
  ack ← rd32 d (at + 8)
  offset ← byte d (at + 12)
  flags ← byte d (at + 13)
  let hdr_len = offset / 16 % 16 * 4
  let out1 : ParsedPacket = record out {
    is_tcp = true;
    src_port = source;
    dst_port = target;
    tcp_seq = seq;
    tcp_ack = ack;
    tcp_flags = flags % 64;
  }
  if ltb hdr_len 20 || ltb len hdr_len
      then cut_short out1
      else some
          (record out1 { payload = some (record { start = at + hdr_len; size = len - hdr_len }) })

unfoldable pub parse_udp : List ℕ → ℕ → ℕ → ParsedPacket → Option ParsedPacket
parse_udp d at len out = if ltb len 8 then cut_short out else do
  source ← rd16 d at
  target ← rd16 d (at + 2)
  udp_len ← rd16 d (at + 4)
  some (record out {
    is_udp = true;
    src_port = source;
    dst_port = target;
    payload = some (record {
      start = at + 8;
      size = if leb 8 udp_len && leb udp_len len then udp_len - 8 else len - 8;
    });
  })

unfoldable pub parse_icmp : List ℕ → ℕ → ℕ → ParsedPacket → Option ParsedPacket
parse_icmp d at len out = if ltb len 4 then cut_short out else do
  type ← byte d at
  code ← byte d (at + 1)
  some (record out {
    src_port = type;
    dst_port = code;
    payload = some (record { start = at + 4; size = len - 4 });
  })

-- parse_l4 and parse_l4_only
unfoldable pub parse_l4 : List ℕ → ℕ → ℕ → ℕ → ParsedPacket → Option ParsedPacket
parse_l4 d at len proto out =
    if proto == 6
    then parse_tcp d at len out
    else if proto == 17
    then parse_udp d at len out
    else if (proto == 1) || (proto == 58)
    then parse_icmp d at len out
    else some (record out { payload = some (record { start = at; size = len }) })

-- The fields that parse_ipv4 fills, from what it reads.
abbrev pub ipv4_fields : ℕ → ℕ → ℕ → List ℕ → List ℕ → View → ParsedPacket → ParsedPacket
ipv4_fields ident flags_off proto source target l4 out =
    let more = flags_off / 8192 % 2 == 1 in
    let offset = flags_off % 8192 * 8 in
    record out {
      is_ipv4 = true;
      frag_id = ident;
      frag_more = more;
      frag_offset = offset;
      is_fragment = more || ltb 0 offset;
      first_fragment = offset == 0;
      l4_proto = proto;
      src_ip = over_front source (out.src_ip);
      dst_ip = over_front target (out.dst_ip);
      l4_data = some l4;
    }

-- The end of parse_ipv4 and parse_ipv6: a fragment that is not the first has no L4 header.
unfoldable pub parse_first : List ℕ → ℕ → ℕ → ParsedPacket → Option ParsedPacket
parse_first d at len out =
    if out.is_fragment && not (out.first_fragment)
    then some out
    else parse_l4 d at len (out.l4_proto) out

-- parse_ipv4
unfoldable pub parse_ipv4 : List ℕ → ℕ → ℕ → ParsedPacket → Option ParsedPacket
parse_ipv4 d at len out = if ltb len 20 then cut_short out else do
  ver_ihl ← byte d at
  total_len ← rd16 d (at + 2)
  ident ← rd16 d (at + 4)
  flags_off ← rd16 d (at + 6)
  proto ← byte d (at + 9)
  source ← copy d (at + 12) 4
  target ← copy d (at + 16) 4
  let ihl = ver_ihl % 16 * 4
  let size : ℕ = (if leb total_len len then total_len else len) - ihl
  let l4 : View = record { start = at + ihl; size = size }
  if not (ver_ihl / 16 == 4)
      then cut_short out
      else if ltb ihl 20 || ltb len ihl
      then cut_short out
      else if ltb total_len ihl
      then cut_short out
      else parse_first d (at + ihl) size (ipv4_fields ident flags_off proto source target l4 out)

-- Where the walk over the extension headers of parse_ipv6 ends: cut short, or at the next protocol
-- and its offset.
pub data Walk : Type 0 where
  stopped : ParsedPacket → Walk
  arrived : ℕ → ℕ → ParsedPacket → Walk

-- Hop-by-hop, routing and destination options.
abbrev pub is_option_header : ℕ → Bool
is_option_header next = (next == 0) || (next == 43) || (next == 60)

-- The fragment header, the last one that is walked.
unfoldable pub walk_fragment : List ℕ → ℕ → ℕ → ℕ → ParsedPacket → Option Walk
walk_fragment d at len off out =
    if ltb len (off + 8) then some (stopped (record out { truncated = true })) else do
      following ← byte d (at + off)
      off_m ← rd16 d (at + off + 2)
      ident ← rd32 d (at + off + 4)
      some (
          arrived following (off + 8) (record out {
            frag_offset = off_m / 8 * 8;
            frag_more = off_m % 2 == 1;
            frag_id = ident;
            is_fragment = true;
            first_fragment = off_m / 8 * 8 == 0;
          }))

-- The length of an extension header, the authentication header's in other units.
abbrev pub header_length : ℕ → ℕ → ℕ
header_length next units = if next == 51 then (units + 2) * 4 else (units + 1) * 8

-- Over one extension header.
unfoldable pub skip_header : List ℕ → ℕ → ℕ → ℕ → ℕ → ParsedPacket → Option Walk
skip_header d at len next off out =
    if ltb len (off + 2) then some (stopped (record out { truncated = true })) else do
      following ← byte d (at + off)
      units ← byte d (at + off + 1)
      if ltb len (off + header_length next units)
          then some (stopped (record out { truncated = true }))
          else some (arrived following (off + header_length next units) out)

-- `for (hops = 0; hops < 8; ++hops)`, with the rounds that are left.
unfoldable pub walk : ℕ → List ℕ → ℕ → ℕ → Walk → Option Walk
walk zero d at len w = some w
walk (suc hops) d at len (stopped out) = some (stopped out)
walk (suc hops) d at len (arrived next off out) =
    let skipped : Option Walk = skip_header d at len next off out >>= walk hops d at len in
    if is_option_header next || (next == 51)
    then skipped
    else if next == 44
    then walk_fragment d at len off out
    else some (arrived next off out)

-- The end of parse_ipv6.
unfoldable pub finish_ipv6 : List ℕ → ℕ → ℕ → Walk → Option ParsedPacket
finish_ipv6 d at len (stopped out) = some out
finish_ipv6 d at len (arrived next off out) =
    let out1 : ParsedPacket = record out {
      l4_proto = next;
      l4_data = if leb off len then some (record { start = at + off; size = len - off }) else none;
    } in
    parse_first d (at + off) (len - off) out1

abbrev pub ipv6_fields : List ℕ → List ℕ → ParsedPacket → ParsedPacket
ipv6_fields source target out = record out { is_ipv6 = true; src_ip = source; dst_ip = target }

-- parse_ipv6 after its header: at most eight extension headers, then L4.
unfoldable pub ipv6_payload : List ℕ → ℕ → ℕ → ℕ → ParsedPacket → Option ParsedPacket
ipv6_payload d at len next out = walk 8 d at len (arrived next 40 out) >>= finish_ipv6 d at len

-- parse_ipv6
unfoldable pub parse_ipv6 : List ℕ → ℕ → ℕ → ParsedPacket → Option ParsedPacket
parse_ipv6 d at len out = if ltb len 40 then cut_short out else do
  version ← byte d at
  next ← byte d (at + 6)
  source ← copy d (at + 8) 16
  target ← copy d (at + 24) 16
  if not (version / 16 == 6)
      then cut_short out
      else ipv6_payload d at len next (ipv6_fields source target out)

-- What `parse_packet` leaves in `out`, and whether it returns true.
pub record Parsed : Type 0 where
  pub packet : ParsedPacket
  pub usable : Bool

-- The loop over the VLAN tags, with the tags that may still follow: the ethertype and the offset, or
-- `none` for a tag that is cut off.
unfoldable pub skip_tags :
    ℕ → List ℕ → ℕ → ℕ → ParsedPacket → Option (Option (ℕ × ℕ) × ParsedPacket)
skip_tags zero d ethertype off out = some (some (ethertype, off), out)
skip_tags (suc n) d ethertype off out =
    if not (ethertype == 0x8100) && not (ethertype == 0x88A8)
    then some (some (ethertype, off), out)
    else if ltb (length d) (off + 4)
    then some (none, record out { truncated = true })
    else do
      inner ← rd16 d (off + 2)
      skip_tags n d inner (off + 4) (record out { vlan_tags = out.vlan_tags + 1 })

abbrev pub decoded : Option ParsedPacket → Option Parsed
decoded none = none
decoded (some out) = some (record { packet = out; usable = true })

-- The switch on the ethertype.
unfoldable pub dispatch : List ℕ → Option (ℕ × ℕ) → ParsedPacket → Option Parsed
dispatch d none out = some (record { packet = out; usable = false })
dispatch d (some (ethertype, off)) out =
    let out1 : ParsedPacket = record out { ethertype = ethertype } in
    if ethertype == 0x0800
    then decoded (parse_ipv4 d off (length d - off) out1)
    else if ethertype == 0x86DD
    then decoded (parse_ipv6 d off (length d - off) out1)
    else if ethertype == 0x0806
    then decoded (parse_arp d off (length d - off) (record out1 { is_arp = true }))
    else some (record { packet = out1; usable = false })

-- parse_packet, with `data` NULL or not.
unfoldable pub parse_packet : Option (List ℕ) → Option Parsed
parse_packet none = some (record { packet = empty_packet; usable = false })
parse_packet (some d) =
    if ltb (length d) 14 then some (record { packet = empty_packet; usable = false }) else do
      target ← copy d 0 6
      source ← copy d 6 6
      ethertype ← rd16 d 12
      (tags, out) ←
          skip_tags 2 d ethertype 14 (record empty_packet { dst_mac = target; src_mac = source })
      dispatch d tags out
