-- ===== src/CanProbe/Context.antt =====
-- The 16-byte context of apps/can_probe/main.cpp, and what reaches the IDS manager.
use Prim.Native.Nat.{bit_or}
use autosar_idsm.Prelude.{
  ℕ, ◌+◌, ◌-◌, ◌*◌, ◌/◌, ◌%◌, ◌<◌, ◌≤◌, ◌≡◌, refl, Bool, true, false, Option, none, some, List, [],
  ◌∷◌, ◌++◌, length, get_elem?, ◌==◌, if◌then◌else◌, u8, arith,
}
use autosar_idsm.Idsm.Types.{Manager, SevState}
use autosar_idsm.Idsm.Reporting.{report_security_event-queue}
use autosar_idsm.Idsm.Api.{own_event}
use autosar_idsm.CanProbe.Alert.{CanAlert}
use autosar_idsm.CanProbe.Report.{sev_for_detector, serialize_context, report_count, report_alert}

-- A reader of the context layout that the comment in main.cpp gives.
unfoldable pub read_context : List ℕ → Option CanAlert
read_context (t ∷ fl ∷ i3 ∷ i2 ∷ i1 ∷ i0 ∷ _ ∷ _ ∷ c3 ∷ c2 ∷ c1 ∷ c0 ∷ x3 ∷ x2 ∷ x1 ∷ x0 ∷ []) =
    some (record {
      detector_type = t;
      can_id = i3 * 16777216 + i2 * 65536 + i1 * 256 + i0;
      eff = fl % 2 == 1;
      rtr = fl / 2 % 2 == 1;
      fd = fl / 4 % 2 == 1;
      err = fl / 8 % 2 == 1;
      count = c3 * 16777216 + c2 * 65536 + c1 * 256 + c0;
      aux = x3 * 16777216 + x2 * 65536 + x1 * 256 + x0;
    })
read_context _ = none

word_bytes :
    (x : ℕ)
    → x < 4294967296
    → u8 (x / 16777216) * 16777216 + u8 (x / 65536) * 65536 + u8 (x / 256) * 256 + u8 x ≡ x
word_bytes x h = omega arith

flag_bits :
    (eff rtr fd err : Bool)
    → let b : ℕ = u8 (
        bit_or
          (bit_or
            (bit_or (if eff then 0x01 else 0) (if rtr then 0x02 else 0))
            (if fd then 0x04 else 0))
          (if err then 0x08 else 0)) in
      ((b % 2 == 1) ≡ eff)
      × ((b / 2 % 2 == 1) ≡ rtr)
      × ((b / 4 % 2 == 1) ≡ fd)
      × ((b / 8 % 2 == 1) ≡ err)
flag_bits true true true true = (refl, refl, refl, refl)
flag_bits true true true false = (refl, refl, refl, refl)
flag_bits true true false true = (refl, refl, refl, refl)
flag_bits true true false false = (refl, refl, refl, refl)
flag_bits true false true true = (refl, refl, refl, refl)
flag_bits true false true false = (refl, refl, refl, refl)
flag_bits true false false true = (refl, refl, refl, refl)
flag_bits true false false false = (refl, refl, refl, refl)
flag_bits false true true true = (refl, refl, refl, refl)
flag_bits false true true false = (refl, refl, refl, refl)
flag_bits false true false true = (refl, refl, refl, refl)
flag_bits false true false false = (refl, refl, refl, refl)
flag_bits false false true true = (refl, refl, refl, refl)
flag_bits false false true false = (refl, refl, refl, refl)
flag_bits false false false true = (refl, refl, refl, refl)
flag_bits false false false false = (refl, refl, refl, refl)

-- The context of an alert whose identifier, count and auxiliary value are 32-bit reads back as the
-- alert: type, identifier, all four flags, count and auxiliary value.
pub read_context-serialize_context :
    (a : CanAlert)
    → a.can_id < 4294967296
    → a.count < 4294967296
    → a.aux < 4294967296
    → read_context (serialize_context a) ≡ some a
unfolding read_context serialize_context
read_context-serialize_context a hi hc hx =
    let (e, r, d, x) = flag_bits (a.eff) (a.rtr) (a.fd) (a.err) in
    rw (word_bytes (a.can_id) hi, word_bytes (a.count) hc, word_bytes (a.aux) hx, e, r, d, x) refl

sev_for_detector_lem :
    (t : ℕ) → 1 ≤ t → t ≤ 10 → (sev_for_detector t ≡ t - 1) × ((t - 1 == 0xFFFF) ≡ false)
unfolding sev_for_detector
sev_for_detector_lem t lo hi = ground arith

report_count_bounds : (a : CanAlert) → (1 ≤ report_count a) × (report_count a ≤ 65535)
unfolding report_count
report_count_bounds a = ground arith

-- An alert of detector type 1 to 10, reported to a running manager that has the SEv with the index
-- below it, is queued behind what is there, with its 16-byte context, version 1, no sensor timestamp,
-- and its count brought between 1 and 65535.
pub report_alert-queue :
    (a : CanAlert) (m : Manager) (state : SevState)
    → 1 ≤ a.detector_type
    → a.detector_type ≤ 10
    → m.worker_running ≡ true
    → get_elem? (m.sevs) (a.detector_type - 1) ≡ some state
    → ((report_alert a m).incoming_queue
        ≡ m.incoming_queue
          ++ (own_event (a.detector_type - 1) (serialize_context a) 1 (report_count a) none ∷ []))
      × (1 ≤ report_count a)
      × (report_count a ≤ 65535)
      × (length (serialize_context a) ≡ 16)
unfolding report_alert serialize_context
report_alert-queue a m state lo hi running found =
    let (index, valid) = sev_for_detector_lem (a.detector_type) lo hi in
    let (least, most) = report_count_bounds a in
    (
      rw index (rw valid (report_security_event-queue _ _ _ m state running found)),
      least,
      most,
      refl,
    )
