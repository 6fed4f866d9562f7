-- ===== src/EthProbe/Copying.antt =====
-- What the copies of a fragment leave in the buffer of apps/eth_probe/ip_defrag.cpp.
use Prim.Native.Nat.{max}
use autosar_idsm.Prelude.{
  ℕ, zero, suc, ◌+◌, ◌-◌, ◌<◌, ◌≤◌, ◌≡◌, ◌∙◌, refl, Bool, true, false, not, ◌&&◌, ◌||◌, List, [],
  ◌∷◌, take, drop, set, get_or, length, length-set, length-drop, ltb, leb, ◌==◌, if◌then◌else◌,
  Bool-cases, inl, inr, arith,
}
use autosar_idsm.EthProbe.Coverage.{Range, put_bytes, copy_range, copy_gaps}
use autosar_idsm.EthProbe.Ranges.{covered_at, apart, covered_at-apart}

get_or-set :
    (xs : List ℕ) (i x v : ℕ)
    → get_or (set xs i v) x 0 ≡ (if (i == x) && ltb x (length xs) then v else get_or xs x 0)
get_or-set [] i x v = ground arith
get_or-set (y ∷ xs) zero zero v = ground arith
get_or-set (y ∷ xs) zero (suc x) v = ground arith
get_or-set (y ∷ xs) (suc i) zero v = ground arith
get_or-set (y ∷ xs) (suc i) (suc x) v = ground (arith, get_or-set xs i x v)

length-put_bytes :
    (bytes : List ℕ) (pos : ℕ) (buf : List ℕ) → length (put_bytes bytes pos buf) ≡ length buf
unfolding put_bytes
length-put_bytes [] pos buf = refl
length-put_bytes (b ∷ bytes) pos buf =
    length-put_bytes bytes (pos + 1) (set buf pos b) ∙ length-set buf pos b

get_or_first : (b : ℕ) (bytes : List ℕ) (i : ℕ) → i ≡ 0 → get_or (b ∷ bytes) i 0 ≡ b
get_or_first b bytes i h = rw h refl

get_or_later :
    (b : ℕ) (bytes : List ℕ) (i j : ℕ) → i ≡ suc j → get_or (b ∷ bytes) i 0 ≡ get_or bytes j 0
get_or_later b bytes i j h = rw h refl

get_or-put_bytes :
    (bytes : List ℕ) (pos : ℕ) (buf : List ℕ) (x : ℕ)
    → get_or (put_bytes bytes pos buf) x 0 ≡ (
        if leb pos x && ltb x (pos + length bytes) && ltb x (length buf)
        then get_or bytes (x - pos) 0
        else get_or buf x 0)
unfolding put_bytes
get_or-put_bytes [] pos buf x = ground arith
get_or-put_bytes (b ∷ bytes) pos buf x = ground (
  arith,
  get_or-put_bytes bytes (pos + 1) (set buf pos b) x,
  get_or-set buf pos x b,
  length-set buf pos b,
  get_or_first b bytes (x - pos),
  get_or_later b bytes (x - pos) (x - (pos + 1)),
)

pub get_or-take : (n : ℕ) (xs : List ℕ) (i : ℕ) → i < n → get_or (take n xs) i 0 ≡ get_or xs i 0
get_or-take zero xs i h = absurd (omega arith)
get_or-take (suc n) [] i h = refl
get_or-take (suc n) (x ∷ xs) zero h = refl
get_or-take (suc n) (x ∷ xs) (suc i) h = get_or-take n xs i (omega arith)

get_or-drop : (k : ℕ) (xs : List ℕ) (i : ℕ) → get_or (drop k xs) i 0 ≡ get_or xs (k + i) 0
get_or-drop zero xs i = let same : 0 + i ≡ i = omega arith in rw same refl
get_or-drop (suc k) [] i = refl
get_or-drop (suc k) (x ∷ xs) i =
    let same : suc k + i ≡ suc (k + i) = omega arith in rw same (get_or-drop k xs i)

length-take_min : (n : ℕ) (xs : List ℕ) → n ≤ length xs → length (take n xs) ≡ n
length-take_min zero xs h = refl
length-take_min (suc n) [] h = absurd (omega arith)
length-take_min (suc n) (x ∷ xs) h = omega (arith, length-take_min n xs)

length-copy_range :
    (off : ℕ) (payload : List ℕ) (from to : ℕ) (buf : List ℕ)
    → length (copy_range off payload from to buf) ≡ length buf
unfolding copy_range
length-copy_range off payload from to buf =
    length-put_bytes (take (to - from) (drop (from - off) payload)) from buf

-- A copy of the positions from `from` up to `to`, where the payload and the buffer have them.
get_or-copy_range :
    (off : ℕ) (payload : List ℕ) (from to : ℕ) (buf : List ℕ) (x : ℕ)
    → off ≤ from
    → from < to
    → to ≤ off + length payload
    → to ≤ length buf
    → get_or (copy_range off payload from to buf) x 0
      ≡ (if leb from x && ltb x to then get_or payload (x - off) 0 else get_or buf x 0)
unfolding copy_range
get_or-copy_range off payload from to buf x h p q r = elim (Bool-cases (leb from x && ltb x to)) [
  | inl inside ↦
      let at : from - off + (x - from) ≡ x - off = ground arith in
      let value : get_or (take (to - from) (drop (from - off) payload)) (x - from) 0
          ≡ get_or payload (x - off) 0 =
        get_or-take (to - from) (drop (from - off) payload) (x - from) (ground arith)
        ∙ get_or-drop (from - off) payload (x - from)
        ∙ rw at refl in
      ground (
        arith,
        value,
        get_or-put_bytes (take (to - from) (drop (from - off) payload)) from buf x,
        length-take_min (to - from) (drop (from - off) payload),
        length-drop (from - off) payload,
      )
  | inr outside ↦ ground (
    arith,
    get_or-put_bytes (take (to - from) (drop (from - off) payload)) from buf x,
    length-take_min (to - from) (drop (from - off) payload),
    length-drop (from - off) payload,
  )
]

pub length-copy_gaps :
    (off : ℕ) (payload : List ℕ) (end cursor : ℕ) (l : List Range) (buf : List ℕ)
    → length (copy_gaps off payload end cursor l buf) ≡ length buf
unfolding copy_gaps
length-copy_gaps off payload end cursor [] buf =
    ground (arith, length-copy_range off payload cursor end buf)
length-copy_gaps off payload end cursor ((lo, hi) ∷ rest) buf = ground (
  arith,
  length-copy_range off payload cursor end buf,
  length-copy_range off payload cursor lo buf,
  length-copy_gaps off payload end (max cursor hi) rest buf,
  length-copy_gaps off payload end (max cursor hi) rest (copy_range off payload cursor lo buf),
)

-- A copy that is made only if the cursor lies behind the positions.
get_or-copy_behind :
    (off : ℕ) (payload : List ℕ) (from to : ℕ) (buf : List ℕ) (x : ℕ)
    → off ≤ from
    → to ≤ off + length payload
    → to ≤ length buf
    → get_or (if ltb from to then copy_range off payload from to buf else buf) x 0
      ≡ (if leb from x && ltb x to then get_or payload (x - off) 0 else get_or buf x 0)
get_or-copy_behind off payload from to buf x h p q =
    ground (arith, get_or-copy_range off payload from to buf x)

length-copy_behind :
    (off : ℕ) (payload : List ℕ) (from to : ℕ) (buf : List ℕ)
    → length (if ltb from to then copy_range off payload from to buf else buf) ≡ length buf
length-copy_behind off payload from to buf =
    ground (arith, length-copy_range off payload from to buf)

get_or-copy_none :
    (off : ℕ) (payload : List ℕ) (end cursor : ℕ) (buf : List ℕ) (x : ℕ)
    → off ≤ cursor
    → end ≤ off + length payload
    → end ≤ length buf
    → get_or (copy_gaps off payload end cursor [] buf) x 0 ≡ (
        if leb cursor x && ltb x end && not false
        then get_or payload (x - off) 0
        else get_or buf x 0)
unfolding copy_gaps
get_or-copy_none off payload end cursor buf x h p q =
    ground (arith, get_or-copy_behind off payload cursor end buf x h p q)

-- Which byte a position before the next range, or behind it, ends with: c for `covered_at x rest`.
picked_before :
    (cursor lo hi end x p b : ℕ) (c : Bool)
    → lo < end
    → lo < hi
    → (x < suc hi → c ≡ false)
    → (if leb (max cursor hi) x && ltb x end && not c
        then p
        else if leb cursor x && ltb x lo
        then p
        else b)
      ≡ (if leb cursor x && ltb x end && not ((leb lo x && ltb x hi) || c) then p else b)
picked_before cursor lo hi end x p b c h q r = ground (arith, r)

picked_behind :
    (cursor lo hi end x p b : ℕ) (c : Bool)
    → end ≤ lo
    → lo < hi
    → (x < suc hi → c ≡ false)
    → (if leb cursor x && ltb x end then p else b)
      ≡ (if leb cursor x && ltb x end && not ((leb lo x && ltb x hi) || c) then p else b)
picked_behind cursor lo hi end x p b c h q r = ground (arith, r)

copy_gaps_before :
    (off : ℕ) (payload : List ℕ) (end cursor lo hi : ℕ) (rest : List Range) (buf : List ℕ)
    → ltb lo end ≡ true
    → copy_gaps off payload end cursor ((lo, hi) ∷ rest) buf
      ≡ copy_gaps off payload end
          (max cursor hi)
          rest
          (if ltb cursor lo then copy_range off payload cursor lo buf else buf)
unfolding copy_gaps
copy_gaps_before off payload end cursor lo hi rest buf h = rw h refl

copy_gaps_behind :
    (off : ℕ) (payload : List ℕ) (end cursor lo hi : ℕ) (rest : List Range) (buf : List ℕ)
    → ltb lo end ≡ false
    → copy_gaps off payload end cursor ((lo, hi) ∷ rest) buf
      ≡ (if ltb cursor end then copy_range off payload cursor end buf else buf)
unfolding copy_gaps
copy_gaps_behind off payload end cursor lo hi rest buf h = rw h refl

apart_first :
    (m lo hi : ℕ) (rest : List Range)
    → apart m ((lo, hi) ∷ rest) ≡ true
    → (lo < hi) × (apart (suc hi) rest ≡ true)
unfolding apart
apart_first m lo hi rest a = (ground arith, ground arith)

-- Of the positions from the cursor on, those that no range covers get the fragment's bytes.
pub get_or-copy_gaps :
    (off : ℕ) (payload : List ℕ) (end cursor m : ℕ) (l : List Range) (buf : List ℕ) (x : ℕ)
    → off ≤ cursor
    → end ≤ off + length payload
    → end ≤ length buf
    → apart m l ≡ true
    → get_or (copy_gaps off payload end cursor l buf) x 0 ≡ (
        if leb cursor x && ltb x end && not (covered_at x l)
        then get_or payload (x - off) 0
        else get_or buf x 0)
unfolding covered_at
get_or-copy_gaps off payload end cursor m [] buf x h p q a =
    get_or-copy_none off payload end cursor buf x h p q
get_or-copy_gaps off payload end cursor m ((lo, hi) ∷ rest) buf x h p q a =
    let ends : (lo < hi) × (apart (suc hi) rest ≡ true) = apart_first m lo hi rest a in
    let free : x < suc hi → covered_at x rest ≡ false =
      λ (near : x < suc hi). covered_at-apart x (suc hi) rest (ends.1) near in
    elim (Bool-cases (ltb lo end)) [
      | inl before ↦
          let gap : List ℕ = if ltb cursor lo then copy_range off payload cursor lo buf else buf in
          let kept : length gap ≡ length buf = length-copy_behind off payload cursor lo buf in
          let inner =
            get_or-copy_behind off payload cursor lo buf x h (ground arith) (ground arith) in
          let outer =
            get_or-copy_gaps off payload end (max cursor hi) (suc hi) rest gap x (omega arith) p
              (omega arith) (ends.1) in
          rw (copy_gaps_before off payload end cursor lo hi rest buf before, outer, inner)
            (picked_before cursor lo hi end x (get_or payload (x - off) 0) (get_or buf x 0)
              (covered_at x rest) (ground arith) (ends.0) free)
      | inr behind ↦
          rw
            (
              copy_gaps_behind off payload end cursor lo hi rest buf behind,
              get_or-copy_behind off payload cursor end buf x h p q,
            )
            (picked_behind cursor lo hi end x (get_or payload (x - off) 0) (get_or buf x 0)
              (covered_at x rest) (ground arith) (ends.0) free)
    ]
