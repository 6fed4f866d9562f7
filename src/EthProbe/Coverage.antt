-- ===== src/EthProbe/Coverage.antt =====
-- The bytes of a datagram that have been received (add_fragment of apps/eth_probe/ip_defrag.cpp): a
-- std::set of ranges [begin, end), in order, and the buffer that they are copied into.
use Prim.Native.Nat.{max, min}
use autosar_idsm.Prelude.{
  ℕ, ◌+◌, ◌-◌, Bool, false, List, [], ◌∷◌, take, drop, set, ltb, leb, if◌then◌else◌,
}

abbrev pub Range : Type 0
Range = ℕ × ℕ

-- Whether the next range begins below b, so that the lower bound of b lies behind it.
abbrev pub begins_below : ℕ → List Range → Bool
begins_below b [] = false
begins_below b ((lo, hi) ∷ rest) = ltb lo b

-- The ranges from `it` on: the lower bound of {begin, 0}, or the range before it if that reaches
-- `begin`.
unfoldable pub start_at : ℕ → List Range → List Range
start_at b [] = []
start_at b ((lo, hi) ∷ rest) =
    let later = start_at b rest in
    if ltb lo b
    then if begins_below b rest then later else if leb b hi then (lo, hi) ∷ rest else rest
    else (lo, hi) ∷ rest

-- `memcpy(buf + pos, bytes, n)`
unfoldable pub put_bytes : List ℕ → ℕ → List ℕ → List ℕ
put_bytes [] pos buf = buf
put_bytes (b ∷ bytes) pos buf = put_bytes bytes (pos + 1) (set buf pos b)

-- The payload of a fragment at `off`, copied to the positions from `from` up to `to`.
unfoldable pub copy_range : ℕ → List ℕ → ℕ → ℕ → List ℕ → List ℕ
copy_range off payload from to buf =
    put_bytes (take (to - from) (drop (from - off) payload)) from buf

-- The copy loop and the copy after it.
unfoldable pub copy_gaps : ℕ → List ℕ → ℕ → ℕ → List Range → List ℕ → List ℕ
copy_gaps off payload end cursor [] buf =
    if ltb cursor end then copy_range off payload cursor end buf else buf
copy_gaps off payload end cursor ((lo, hi) ∷ rest) buf =
    let gap : List ℕ = if ltb cursor lo then copy_range off payload cursor lo buf else buf in
    let later = copy_gaps off payload end (max cursor hi) rest gap in
    if ltb lo end
    then later
    else if ltb cursor end
    then copy_range off payload cursor end buf
    else buf

-- `while (it != end && it->first <= me)`: the ranges that touch are taken in.
unfoldable pub take_in : ℕ → ℕ → List Range → List Range
take_in mb me [] = (mb, me) ∷ []
take_in mb me ((lo, hi) ∷ rest) =
    let wider = take_in mb (max me hi) rest in
    if leb lo me then wider else (mb, me) ∷ (lo, hi) ∷ rest

-- "Merge [begin,end) into the covered interval set"
unfoldable pub merge_range : ℕ → ℕ → List Range → List Range
unfolding take_in
merge_range begin end [] = take_in begin end []
merge_range begin end ((lo, hi) ∷ rest) =
    let later = merge_range begin end rest in
    if ltb lo begin
    then if begins_below begin rest
      then (lo, hi) ∷ later
      else if leb begin hi
      then take_in (min begin lo) (max end hi) rest
      else (lo, hi) ∷ take_in begin end rest
    else take_in begin end ((lo, hi) ∷ rest)
