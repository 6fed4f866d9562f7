-- ===== src/CanProbe/Parsing.antt =====
-- What `parse_can_frame` of apps/can_probe/frame.cpp returns.
use autosar_idsm.Prelude.{
  ℕ, ◌+◌, ◌/◌, ◌%◌, ◌<◌, ◌≤◌, ◌≡◌, subst, ap, refl, Bool, true, false, some, List, [], ◌∷◌, ◌++◌,
  length, take, replicate, leb, if◌then◌else◌, ◌⊎◌, arith,
}
use autosar_idsm.CanProbe.Frame.{
  CanFrame, parse_can_frame, little_endian, has_bit, can_eff_flag, can_rtr_flag, can_err_flag,
}

take_all {ℓ} : {A : Type ℓ} (xs : List A) → take (length xs) xs ≡ xs
take_all [] = refl
take_all (x ∷ xs) = ap (◌∷◌ x) (take_all xs)

take_whole {ℓ} : {A : Type ℓ} (n : ℕ) (xs : List A) → length xs ≡ n → take n xs ≡ xs
take_whole n xs e = subst (λ k. take k xs ≡ xs) e (take_all xs)

-- A raw identifier with its flag bits, and its four bytes.
abbrev pub flag : Bool → ℕ → ℕ
flag b bit = if b then bit else 0

abbrev pub raw_id : ℕ → Bool → Bool → Bool → ℕ
raw_id id eff rtr err = id + flag err can_err_flag + flag rtr can_rtr_flag + flag eff can_eff_flag

-- A SocketCAN record, from the layout of linux/can.h: the identifier in little-endian order, the
-- length byte, three bytes that the parser skips, and the payload.
abbrev pub encode : ℕ → Bool → Bool → Bool → ℕ → List ℕ → List ℕ
encode id eff rtr err dlc payload =
    let raw = raw_id id eff rtr err in
    (raw % 256)
    ∷ (raw / 256 % 256)
    ∷ (raw / 65536 % 256)
    ∷ (raw / 16777216)
    ∷ dlc
    ∷ 0
    ∷ 0
    ∷ 0
    ∷ payload

little_endian_lem :
    (raw : ℕ) (rest : List ℕ)
    → little_endian
        ((raw % 256) ∷ (raw / 256 % 256) ∷ (raw / 65536 % 256) ∷ (raw / 16777216) ∷ rest)
      ≡ raw
unfolding little_endian
little_endian_lem raw rest = omega arith

raw_bits :
    (id : ℕ) (eff rtr err : Bool)
    → id < 0x20000000
    → (has_bit (raw_id id eff rtr err) can_eff_flag ≡ eff)
      × (has_bit (raw_id id eff rtr err) can_rtr_flag ≡ rtr)
      × (has_bit (raw_id id eff rtr err) can_err_flag ≡ err)
      × (raw_id id eff rtr err % 0x20000000 ≡ id)
raw_bits id true true true h = ground arith
raw_bits id true true false h = ground arith
raw_bits id true false true h = ground arith
raw_bits id true false false h = ground arith
raw_bits id false true true h = ground arith
raw_bits id false true false h = ground arith
raw_bits id false false true h = ground arith
raw_bits id false false false h = ground arith

short_bits : (id : ℕ) (eff rtr err : Bool) → id < 0x800 → raw_id id eff rtr err % 0x800 ≡ id
short_bits id eff rtr err h = ground arith

parsed_id :
    (id : ℕ) (eff rtr err : Bool)
    → id < (if eff then 0x20000000 else 0x800)
    → raw_id id eff rtr err % (if eff then 0x20000000 else 0x800) ≡ id
parsed_id id true rtr err h = (raw_bits id true rtr err h).3
parsed_id id false rtr err h = short_bits id false rtr err h

id_below : (id : ℕ) (eff : Bool) → id < (if eff then 0x20000000 else 0x800) → id < 0x20000000
id_below id eff h = ground arith

-- A classic record of 16 bytes, for an identifier within its width (29 or 11 bits), parses to its
-- identifier, flags and DLC as they were; the payload length is the DLC, at most 8.
pub parse_can_frame-classic :
    (id : ℕ) (eff rtr err : Bool) (dlc : ℕ) (payload : List ℕ)
    → id < (if eff then 0x20000000 else 0x800)
    → length payload ≡ 8
    → parse_can_frame (some (encode id eff rtr err dlc payload)) 16
      ≡ some (record {
        can_id = id;
        eff = eff;
        rtr = rtr;
        err = err;
        fd = false;
        dlc = dlc;
        len = if leb dlc 8 then dlc else 8;
        payload = payload ++ replicate 56 0;
      })
unfolding parse_can_frame
parse_can_frame-classic id eff rtr err dlc payload h k =
    let (e, r, x, _) = raw_bits id eff rtr err (id_below id eff h) in
    rw
      (
        little_endian_lem (raw_id id eff rtr err),
        e,
        r,
        x,
        parsed_id id eff rtr err h,
        take_whole 8 payload k,
      )
      refl

-- A CAN-FD record of 72 bytes likewise, with its 64 payload bytes and a payload length of at most 64.
pub parse_can_frame-fd :
    (id : ℕ) (eff rtr err : Bool) (dlc : ℕ) (payload : List ℕ)
    → id < (if eff then 0x20000000 else 0x800)
    → length payload ≡ 64
    → parse_can_frame (some (encode id eff rtr err dlc payload)) 72
      ≡ some (record {
        can_id = id;
        eff = eff;
        rtr = rtr;
        err = err;
        fd = true;
        dlc = dlc;
        len = if leb dlc 64 then dlc else 64;
        payload = payload;
      })
unfolding parse_can_frame
parse_can_frame-fd id eff rtr err dlc payload h k =
    let (e, r, x, _) = raw_bits id eff rtr err (id_below id eff h) in
    rw
      (
        little_endian_lem (raw_id id eff rtr err),
        e,
        r,
        x,
        parsed_id id eff rtr err h,
        take_whole 64 payload k,
      )
      refl

-- Whatever the bytes, a parsed frame comes from 16 or 72 bytes, has an identifier of 29 bits, of 11
-- bits if the frame is a standard one, and a payload length of at most 8, at most 64 if it is CAN-FD.
pub parse_can_frame_bounds :
    (p : List ℕ) (n : ℕ) (f : CanFrame)
    → parse_can_frame (some p) n ≡ some f
    → ((n ≡ 16) ⊎ (n ≡ 72))
      × (f.can_id < (if f.eff then 0x20000000 else 0x800))
      × (f.len ≤ (if f.fd then 64 else 8))
      × (f.len ≤ f.dlc)
unfolding parse_can_frame
parse_can_frame_bounds p n f e = ground arith
