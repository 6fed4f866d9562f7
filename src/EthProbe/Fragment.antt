-- ===== src/EthProbe/Fragment.antt =====
-- The keys and the entries of apps/eth_probe/ip_defrag.cpp: FragKey and Datagram.
use mathlib.Core.Logic.{◌↔◌}
use autosar_idsm.Prelude.{
  ℕ, ◌≡◌, Bool, true, false, not, ◌&&◌, List, [], ◌==◌, sym, refl, Key, ◌~~◌, bytes_key, same_refl,
  same_sound, arith,
}
use autosar_idsm.EthProbe.Coverage.{Range}

pub record FragKey : Type 0 where
  pub src : List ℕ
  pub dst : List ℕ
  pub id : ℕ
  pub proto : ℕ
  pub is_v6 : Bool

-- What a datagram holds; `covered` is in order.
pub record Datagram : Type 0 where
  pub buf : List ℕ
  pub covered : List Range
  pub total_len : ℕ
  pub have_last : Bool
  pub last_seen_ms : ℕ
  pub accounted : ℕ

abbrev pub empty_datagram : Datagram
empty_datagram = record {
  buf = [];
  covered = [];
  total_len = 0;
  have_last = false;
  last_seen_ms = 0;
  accounted = 0;
}

-- `operator==`
abbrev pub bool_eq : Bool → Bool → Bool
bool_eq true b = b
bool_eq false b = not b

abbrev pub same_key : FragKey → FragKey → Bool
same_key a b =
    (a.src ~~ b.src)
    && (a.dst ~~ b.dst)
    && (a.id == b.id)
    && (a.proto == b.proto)
    && bool_eq (a.is_v6) (b.is_v6)

bool_eq_sound : (a b : Bool) → bool_eq a b ≡ true → a ≡ b
bool_eq_sound true b h = sym h
bool_eq_sound false true h = absurd (ground arith)
bool_eq_sound false false h = refl

bool_eq_refl : (b : Bool) → bool_eq b b ≡ true
bool_eq_refl true = refl
bool_eq_refl false = refl

same_key_refl : (a : FragKey) → same_key a a ≡ true
same_key_refl a = ground (arith, same_refl (a.src), same_refl (a.dst), bool_eq_refl (a.is_v6))

same_key_sound : (a b : FragKey) → same_key a b ≡ true → a ≡ b
same_key_sound a b h =
    let src : a.src ≡ b.src = same_sound (a.src) (b.src) (ground arith) in
    let dst : a.dst ≡ b.dst = same_sound (a.dst) (b.dst) (ground arith) in
    let id : a.id ≡ b.id = ground arith in
    let proto : a.proto ≡ b.proto = ground arith in
    let v6 : a.is_v6 ≡ b.is_v6 = bool_eq_sound (a.is_v6) (b.is_v6) (ground arith) in
    λ i. record { src = src i; dst = dst i; id = id i; proto = proto i; is_v6 = v6 i }

pub same_key_iff : (a b : FragKey) → (same_key a b ≡ true) ↔ (a ≡ b)
same_key_iff a b = (same_key_sound a b, λ p. rw p (same_key_refl b))

instance abbrev pub frag_key_key : Key FragKey
frag_key_key = record { same = same_key; same_iff = same_key_iff }
