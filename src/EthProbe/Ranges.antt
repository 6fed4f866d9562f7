-- ===== src/EthProbe/Ranges.antt =====
-- What the range set of apps/eth_probe/ip_defrag.cpp holds after a merge.
use Prim.Native.Nat.{max, min}
use autosar_idsm.Prelude.{
  ℕ, suc, ◌<◌, ◌≤◌, ◌≡◌, refl, Bool, true, false, ◌&&◌, ◌||◌, List, [], ◌∷◌, ltb, leb, arith,
}
use autosar_idsm.EthProbe.Coverage.{Range, begins_below, start_at, take_in, merge_range}

-- Position x is in one of the ranges.
unfoldable pub covered_at : ℕ → List Range → Bool
covered_at x [] = false
covered_at x ((lo, hi) ∷ rest) = (leb lo x && ltb x hi) || covered_at x rest

-- The ranges begin at m or above, are not empty, in order, and do not touch.
unfoldable pub apart : ℕ → List Range → Bool
apart m [] = true
apart m ((lo, hi) ∷ rest) = leb m lo && ltb lo hi && apart (suc hi) rest

pub apart_below : (k m : ℕ) (l : List Range) → k ≤ m → apart m l ≡ true → apart k l ≡ true
unfolding apart
apart_below k m [] h a = refl
apart_below k m ((lo, hi) ∷ rest) h a = ground arith

pub apart_above :
    (b m : ℕ) (l : List Range) → begins_below b l ≡ false → apart m l ≡ true → apart b l ≡ true
unfolding apart
apart_above b m [] h a = refl
apart_above b m ((lo, hi) ∷ rest) h a = ground arith

begins_below-apart : (b m : ℕ) (l : List Range) → begins_below b l ≡ true → apart m l ≡ true → m < b
unfolding apart
begins_below-apart b m ((lo, hi) ∷ rest) h a = ground arith
begins_below-apart b m [] h a = absurd (ground arith)

pub covered_at-apart :
    (x m : ℕ) (l : List Range) → apart m l ≡ true → x < m → covered_at x l ≡ false
unfolding apart covered_at
covered_at-apart x m [] a h = refl
covered_at-apart x m ((lo, hi) ∷ rest) a h =
    ground (arith, λ (p : apart (suc hi) rest ≡ true). covered_at-apart x (suc hi) rest p)

covered_at-take_in :
    (x mb me : ℕ) (l : List Range)
    → mb < me
    → apart mb l ≡ true
    → covered_at x (take_in mb me l) ≡ ((leb mb x && ltb x me) || covered_at x l)
unfolding take_in covered_at apart
covered_at-take_in x mb me [] h a = refl
covered_at-take_in x mb me ((lo, hi) ∷ rest) h a =
    ground (arith, covered_at-take_in x mb (max me hi) rest, apart_below mb (suc hi) rest)

apart-take_in :
    (k mb me : ℕ) (l : List Range)
    → k ≤ mb
    → mb < me
    → apart mb l ≡ true
    → apart k (take_in mb me l) ≡ true
unfolding take_in apart
apart-take_in k mb me [] h p a = ground arith
apart-take_in k mb me ((lo, hi) ∷ rest) h p a =
    ground (arith, apart-take_in k mb (max me hi) rest, apart_below mb (suc hi) rest)

pub apart-merge_range :
    (k begin end : ℕ) (l : List Range)
    → k ≤ begin
    → begin < end
    → apart k l ≡ true
    → apart k (merge_range begin end l) ≡ true
unfolding merge_range apart
apart-merge_range k begin end [] h p a = apart-take_in k begin end [] h p refl
apart-merge_range k begin end ((lo, hi) ∷ rest) h p a = ground (
  arith,
  begins_below-apart begin (suc hi) rest,
  apart_above begin (suc hi) rest,
  apart-merge_range (suc hi) begin end rest,
  apart-take_in k (min begin lo) (max end hi) rest,
  apart-take_in (suc hi) begin end rest,
  apart-take_in k begin (max end hi) rest,
  apart_below (min begin lo) (suc hi) rest,
  apart_below begin (suc hi) rest,
)

pub covered_at-merge_range :
    (x k begin end : ℕ) (l : List Range)
    → k ≤ begin
    → begin < end
    → apart k l ≡ true
    → covered_at x (merge_range begin end l) ≡ ((leb begin x && ltb x end) || covered_at x l)
unfolding merge_range covered_at apart
covered_at-merge_range x k begin end [] h p a = covered_at-take_in x begin end [] p refl
covered_at-merge_range x k begin end ((lo, hi) ∷ rest) h p a = ground (
  arith,
  begins_below-apart begin (suc hi) rest,
  apart_above begin (suc hi) rest,
  covered_at-merge_range x (suc hi) begin end rest,
  covered_at-take_in x (min begin lo) (max end hi) rest,
  covered_at-take_in x begin end rest,
  covered_at-take_in x begin (max end hi) rest,
  apart_below (min begin lo) (suc hi) rest,
  apart_below begin (suc hi) rest,
)

pub covered_at-start_at :
    (x b m : ℕ) (l : List Range)
    → b ≤ x
    → apart m l ≡ true
    → covered_at x (start_at b l) ≡ covered_at x l
unfolding start_at covered_at apart
covered_at-start_at x b m [] h a = refl
covered_at-start_at x b m ((lo, hi) ∷ rest) h a = ground (
  arith,
  begins_below-apart b (suc hi) rest,
  apart_above b (suc hi) rest,
  covered_at-start_at x b (suc hi) rest,
)
