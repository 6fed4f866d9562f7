-- ===== src/CanProbe/Frame.antt =====
-- apps/can_probe/frame.h and frame.cpp: SocketCAN records and diagnostic addressing. A buffer is a
-- list of bytes that is as long as the size argument says, or NULL.
use autosar_idsm.Prelude.{
  ℕ, ◌+◌, ◌*◌, ◌/◌, ◌%◌, Bool, true, false, ◌&&◌, ◌||◌, Option, none, some, List, ◌++◌, take, drop,
  get_or, replicate, leb, ◌==◌, if◌then◌else◌,
}

-- CanFrame; `payload` is the array of 64 bytes.
pub record CanFrame : Type 0 where
  pub can_id : ℕ
  pub eff : Bool
  pub rtr : Bool
  pub err : Bool
  pub fd : Bool
  pub dlc : ℕ
  pub len : ℕ
  pub payload : List ℕ

-- `CanFrame f;`
abbrev pub empty_frame : CanFrame
empty_frame = record {
  can_id = 0;
  eff = false;
  rtr = false;
  err = false;
  fd = false;
  dlc = 0;
  len = 0;
  payload = replicate 64 0;
}

-- The first four bytes as a little-endian number (`memcpy` into a uint32_t).
unfoldable pub little_endian : List ℕ → ℕ
little_endian p = get_or p 0 0 + get_or p 1 0 * 256 + get_or p 2 0 * 65536 + get_or p 3 0 * 16777216

-- `raw_id & flag` for a single bit, and `raw_id & mask` for a mask of low bits.
abbrev pub has_bit : ℕ → ℕ → Bool
has_bit raw flag = raw / flag % 2 == 1

abbrev pub can_eff_flag : ℕ
can_eff_flag = 0x80000000

abbrev pub can_rtr_flag : ℕ
can_rtr_flag = 0x40000000

abbrev pub can_err_flag : ℕ
can_err_flag = 0x20000000

-- parse_can_frame: a frame, or `none` where the source returns false and leaves `out` alone.
unfoldable pub parse_can_frame : Option (List ℕ) → ℕ → Option CanFrame
parse_can_frame none n = none
parse_can_frame (some p) n =
    let raw = little_endian p in
    let eff = has_bit raw can_eff_flag in
    let dlc = get_or p 4 0 in
    let classic : CanFrame = record {
      can_id = raw % (if eff then 0x20000000 else 0x800);
      eff = eff;
      rtr = has_bit raw can_rtr_flag;
      err = has_bit raw can_err_flag;
      fd = false;
      dlc = dlc;
      len = if leb dlc 8 then dlc else 8;
      payload = take 8 (drop 8 p) ++ replicate 56 0;
    } in
    if n == 16
    then some classic
    else if n == 72
    then some (record classic {
      fd = true;
      len = if leb dlc 64 then dlc else 64;
      payload = take 64 (drop 8 p);
    })
    else none

unfoldable pub is_diag_request_id : ℕ → Bool
is_diag_request_id id = (id == 0x7DF) || (leb 0x7E0 id && leb id 0x7E7)

unfoldable pub is_diag_response_id : ℕ → Bool
is_diag_response_id id = leb 0x7E8 id && leb id 0x7EF
