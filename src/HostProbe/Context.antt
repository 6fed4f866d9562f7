-- ===== src/HostProbe/Context.antt =====
-- The 32-byte context of apps/host_probe/main.cpp.
use autosar_idsm.Prelude.{
  ℕ, zero, suc, ◌+◌, ◌*◌, ◌-◌, ◌/◌, ◌<◌, ◌≤◌, ◌≡◌, refl, Option, some, none, List, [], ◌∷◌, ◌++◌,
  length, take, take-append_left, length-append, replicate, ◌==◌, if◌then◌else◌, u8, arith, subst,
}
use autosar_idsm.HostProbe.Event.{base_name}
use autosar_idsm.HostProbe.Alert.{HostAlert, fill_name}
use autosar_idsm.HostProbe.Report.{serialize_context}

-- A number of four bytes, the first the highest.
abbrev word_of : ℕ → ℕ → ℕ → ℕ → ℕ
word_of b3 b2 b1 b0 = b3 * 16777216 + b2 * 65536 + b1 * 256 + b0

-- A reader of the context layout that the comments in alert.h and main.cpp give.
unfoldable pub read_context : List ℕ → Option HostAlert
read_context
      (t ∷ fl ∷ p3 ∷ p2 ∷ p1 ∷ p0 ∷ u3 ∷ u2 ∷ u1 ∷ u0 ∷ c3 ∷ c2 ∷ c1 ∷ c0 ∷ x3 ∷ x2 ∷ x1 ∷ x0
        ∷ rest) =
    if length rest == 14
    then some (record {
      detector_type = t;
      flags = fl;
      pid = word_of p3 p2 p1 p0;
      uid = word_of u3 u2 u1 u0;
      count = word_of c3 c2 c1 c0;
      aux = word_of x3 x2 x1 x0;
      name = take 12 rest;
    })
    else none
read_context _ = none

word_bytes :
    (x : ℕ)
    → x < 4294967296
    → word_of (u8 (x / 16777216)) (u8 (x / 65536)) (u8 (x / 256)) (u8 x) ≡ x
word_bytes x h = omega arith

take_name : (n : ℕ) (name rest : List ℕ) → length name ≡ n → take n (name ++ rest) ≡ name
take_name n name rest h = subst (λ k. take k (name ++ rest) ≡ name) h (take-append_left name rest)

-- The context of an alert whose numbers are 32-bit and whose name has 12 bytes is 32 bytes long and
-- reads back as the alert.
pub read_host_context :
    (a : HostAlert)
    → a.pid < 4294967296
    → a.uid < 4294967296
    → a.count < 4294967296
    → a.aux < 4294967296
    → length (a.name) ≡ 12
    → (read_context (serialize_context a) ≡ some a) × (length (serialize_context a) ≡ 32)
unfolding read_context serialize_context
read_host_context a hp hu hc hx hn =
    let size : length (a.name ++ (0 ∷ 0 ∷ [])) ≡ 14 =
      omega (arith, length-append (a.name) (0 ∷ 0 ∷ []), hn) in
    (
      rw
          (
            size,
            word_bytes (a.pid) hp,
            word_bytes (a.uid) hu,
            word_bytes (a.count) hc,
            word_bytes (a.aux) hx,
            take_name 12 (a.name) (0 ∷ 0 ∷ []) hn,
          )
          refl,
      rw size refl,
    )

length-take_most : (n : ℕ) (xs : List ℕ) → length (take n xs) ≤ n
length-take_most zero xs = omega arith
length-take_most (suc n) [] = omega arith
length-take_most (suc n) (x ∷ xs) = omega (arith, length-take_most n xs)

length-replicate_zeros : (n : ℕ) → length (replicate {A = ℕ} n 0) ≡ n
length-replicate_zeros zero = refl
length-replicate_zeros (suc n) = omega (arith, length-replicate_zeros n)

-- Every name that the alerts are made with has 12 bytes.
pub length-fill_name : (s : List ℕ) → length (fill_name s) ≡ 12
unfolding fill_name
length-fill_name s =
    let short : List ℕ = take 11 (base_name s) in
    omega (
      arith,
      length-append short (replicate (12 - length short) 0),
      length-replicate_zeros (12 - length short),
      length-take_most 11 (base_name s),
    )
