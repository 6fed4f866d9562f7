-- ===== src/EthProbe/Reassembly.antt =====
-- What an entry of apps/eth_probe/ip_defrag.cpp holds: the abstract view of a datagram is a partial
-- map from positions to bytes, and a fragment adds the positions that are new.
use Prim.Native.Nat.{max, min}
use autosar_idsm.Prelude.{
  ℕ, zero, suc, ◌+◌, ◌-◌, ◌<◌, ◌≤◌, ◌≡◌, refl, Bool, true, ◌&&◌, Option, none, some, List, [], ◌∷◌,
  ◌++◌, length, replicate, get_or, ltb, leb, if◌then◌else◌, length-append, arith,
}
use autosar_idsm.EthProbe.Coverage.{Range, start_at, copy_gaps, take_in, merge_range}
use autosar_idsm.EthProbe.Ranges.{
  covered_at, apart, apart_below, apart-merge_range, covered_at-merge_range, covered_at-start_at,
}
use autosar_idsm.EthProbe.Copying.{get_or-copy_gaps, length-copy_gaps}
use autosar_idsm.EthProbe.Fragment.{Datagram}
use autosar_idsm.EthProbe.Defrag.{grown, grow_by, put_fragment}

-- The byte that the entry holds for position x.
unfoldable pub seen : Datagram → ℕ → Option ℕ
unfolding covered_at
seen dg x = if covered_at x (dg.covered) then some (get_or (dg.buf) x 0) else none

-- The byte that a fragment brings for position x.
unfoldable pub brings : ℕ → ℕ → List ℕ → ℕ → Option ℕ
brings off end payload x =
    if leb off x && ltb x end then some (get_or payload (x - off) 0) else none

-- "first-seen wins"
unfoldable pub first_of : Option ℕ → Option ℕ → Option ℕ
first_of none later = later
first_of (some b) later = some b

-- Every range ends in the buffer.
unfoldable pub within : ℕ → List Range → Bool
within n [] = true
within n ((lo, hi) ∷ rest) = leb hi n && within n rest

pub record IsTidy (dg : Datagram) : Type 0 where
  pub ordered : apart 0 (dg.covered) ≡ true
  pub inside : within (length (dg.buf)) (dg.covered) ≡ true
  pub charged : dg.accounted ≡ length (dg.buf)

within_more : (n m : ℕ) (l : List Range) → n ≤ m → within n l ≡ true → within m l ≡ true
unfolding within
within_more n m [] h w = refl
within_more n m ((lo, hi) ∷ rest) h w = ground (arith, within_more n m rest)

within-take_in :
    (n mb me : ℕ) (l : List Range) → me ≤ n → within n l ≡ true → within n (take_in mb me l) ≡ true
unfolding within take_in
within-take_in n mb me [] h w = ground arith
within-take_in n mb me ((lo, hi) ∷ rest) h w = ground (arith, within-take_in n mb (max me hi) rest)

within-merge_range :
    (n begin end : ℕ) (l : List Range)
    → end ≤ n
    → within n l ≡ true
    → within n (merge_range begin end l) ≡ true
unfolding within merge_range
within-merge_range n begin end [] h w = within-take_in n begin end [] h refl
within-merge_range n begin end ((lo, hi) ∷ rest) h w = ground (
  arith,
  within-merge_range n begin end rest,
  within-take_in n (min begin lo) (max end hi) rest,
  within-take_in n begin end rest,
  within-take_in n begin (max end hi) rest,
)

apart-start_at : (b m : ℕ) (l : List Range) → apart m l ≡ true → apart m (start_at b l) ≡ true
unfolding apart start_at
apart-start_at b m [] a = refl
apart-start_at b m ((lo, hi) ∷ rest) a = ground (
  arith,
  apart-start_at b (suc hi) rest,
  apart_below m (suc hi) rest,
  apart_below m (suc hi) (start_at b rest),
)

get_or_zeros : (n i : ℕ) → get_or {A = ℕ} (replicate n 0) i 0 ≡ zero
get_or_zeros zero i = refl
get_or_zeros (suc n) zero = refl
get_or_zeros (suc n) (suc i) = get_or_zeros n i

get_or_padded : (xs : List ℕ) (n i : ℕ) → get_or (xs ++ replicate n 0) i 0 ≡ get_or xs i 0
get_or_padded [] n i = get_or_zeros n i
get_or_padded (x ∷ xs) n zero = refl
get_or_padded (x ∷ xs) n (suc i) = get_or_padded xs n i

length-replicate : (n v : ℕ) → length (replicate n v) ≡ n
length-replicate zero v = refl
length-replicate (suc n) v = omega (arith, length-replicate n v)

pub length-grown :
    (need : ℕ) (dg : Datagram) → length ((grown need dg).buf) ≡ max need (length (dg.buf))
unfolding grown
length-grown need dg = ground (
  arith,
  length-append (dg.buf) (replicate (grow_by need dg) 0),
  length-replicate (grow_by need dg) 0,
)

pub seen-grown : (need : ℕ) (dg : Datagram) (x : ℕ) → seen (grown need dg) x ≡ seen dg x
unfolding grown seen
seen-grown need dg x = rw (get_or_padded (dg.buf) (grow_by need dg) x) refl

pub grown-IsTidy : (need : ℕ) (dg : Datagram) → IsTidy dg → IsTidy (grown need dg)
unfolding grown
grown-IsTidy need dg t =
    let more : length (dg.buf ++ replicate (grow_by need dg) 0)
        ≡ length (dg.buf) + grow_by need dg =
      ground (
        arith,
        length-append (dg.buf) (replicate (grow_by need dg) 0),
        length-replicate (grow_by need dg) 0,
      ) in
    record {
      ordered = t.ordered;
      inside =
          within_more (length (dg.buf)) (length (dg.buf ++ replicate (grow_by need dg) 0))
            (dg.covered) (omega (arith, more)) (t.inside);
      charged = omega (arith, more, t.charged);
    }

pub length-put_fragment :
    (off end : ℕ) (payload : List ℕ) (more : Bool) (dg : Datagram)
    → length ((put_fragment off end payload more dg).buf) ≡ length (dg.buf)
unfolding put_fragment
length-put_fragment off end payload more dg =
    length-copy_gaps off payload end off (start_at off (dg.covered)) (dg.buf)

pub put_fragment-IsTidy :
    (off end : ℕ) (payload : List ℕ) (more : Bool) (dg : Datagram)
    → off < end
    → end ≤ length (dg.buf)
    → IsTidy dg
    → IsTidy (put_fragment off end payload more dg)
unfolding put_fragment
put_fragment-IsTidy off end payload more dg h p t =
    let same : length (copy_gaps off payload end off (start_at off (dg.covered)) (dg.buf))
        ≡ length (dg.buf) =
      length-copy_gaps off payload end off (start_at off (dg.covered)) (dg.buf) in
    record {
      ordered = apart-merge_range 0 off end (dg.covered) (omega arith) h (t.ordered);
      inside = rw same (within-merge_range (length (dg.buf)) off end (dg.covered) p (t.inside));
      charged = omega (arith, same, t.charged);
    }

-- A fragment adds the bytes at the positions that the entry does not hold yet, and no others.
pub seen-put_fragment :
    (off end : ℕ) (payload : List ℕ) (more : Bool) (dg : Datagram) (x : ℕ)
    → off < end
    → end ≤ off + length payload
    → end ≤ length (dg.buf)
    → IsTidy dg
    → seen (put_fragment off end payload more dg) x
      ≡ first_of (seen dg x) (brings off end payload x)
unfolding put_fragment seen first_of brings
seen-put_fragment off end payload more dg x h p q t =
    let copied =
      get_or-copy_gaps off payload end off 0 (start_at off (dg.covered)) (dg.buf) x (omega arith) p
        q (apart-start_at off 0 (dg.covered) (t.ordered)) in
    let merged = covered_at-merge_range x 0 off end (dg.covered) (omega arith) h (t.ordered) in
    rw (copied, merged) (ground (arith, covered_at-start_at x off 0 (dg.covered), t.ordered))
