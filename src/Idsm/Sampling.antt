-- ===== src/Idsm/Sampling.antt =====
-- What the forward-every-nth filter forwards (passForwardEveryNth of src/IdsM_Manager.cpp).
use native.Mathlib.Nat.{add-mod_left, mod_self, mod-eq_of_lt}
use autosar_idsm.Prelude.{
  ℕ, zero, suc, ◌+◌, ◌*◌, ◌%◌, ◌<◌, ◌≤◌, ◌≡◌, Bool, true, false, List, [], ◌∷◌, leb, ◌==◌,
  if◌then◌else◌, All, replicate, get_elem?, some, arith,
}
use autosar_idsm.Idsm.Types.{SevConfig, SevState}
use autosar_idsm.Idsm.Filters.{pass_forward_every_nth}
use autosar_idsm.Idsm.Api.{fresh_sev}

-- The answers of the filter to a sequence of events with the given counts.
unfoldable pub sampled : SevState → List ℕ → List Bool
sampled sev [] = []
sampled sev (count ∷ counts) =
    let (next, passes) = pass_forward_every_nth sev count in passes ∷ sampled next counts

-- The filter on one event whose sum does not reach n, and on one whose sum does.
pass_forward_every_nth_lem :
    (sev : SevState) (count : ℕ)
    → 0 < sev.config.forward_every_nth
    → sev.config.forward_every_nth < 65536
    → sev.nth_counter < 65536
    → count < 65536
    → pass_forward_every_nth sev count ≡ (
        if leb (sev.config.forward_every_nth) (sev.nth_counter + count)
        then (record sev { nth_counter = 0 }, true)
        else (record sev { nth_counter = sev.nth_counter + count }, false))
unfolding pass_forward_every_nth
pass_forward_every_nth_lem sev count n0 n1 c k = ground arith

last_of_round : (c n : ℕ) → c < n → ((c + 1) % n == 0) ≡ leb n (c + 1)
last_of_round c n h = ground (arith, mod_self n, mod-eq_of_lt {n = c + 1} {m = n})

next_round : (c i n : ℕ) → n ≡ c + 1 → (c + suc i + 1) % n ≡ (0 + i + 1) % n
next_round c i n e =
    let regrouped : c + suc i + 1 ≡ n + (0 + i + 1) = omega arith in
    rw regrouped (add-mod_left n (0 + i + 1))

-- In the steady state, event i passes exactly when the occurrences reach a multiple of n with it.
sampled_steady :
    (n : ℕ) (sev : SevState) (k i : ℕ)
    → sev.config.forward_every_nth ≡ n
    → 0 < n
    → n < 65536
    → sev.nth_counter < n
    → i < k
    → get_elem? (sampled sev (replicate k 1)) i ≡ some ((sev.nth_counter + i + 1) % n == 0)
unfolding sampled
sampled_steady n sev zero i e n0 n1 c h = absurd (omega arith)
sampled_steady n sev (suc k) zero e n0 n1 c h =
    ground (arith, pass_forward_every_nth_lem sev 1, last_of_round (sev.nth_counter) n)
sampled_steady n sev (suc k) (suc i) e n0 n1 c h = ground (
  arith,
  pass_forward_every_nth_lem sev 1,
  next_round (sev.nth_counter) i n,
  sampled_steady n (record sev { nth_counter = 0 }) k i,
  sampled_steady n (record sev { nth_counter = sev.nth_counter + 1 }) k i,
)

-- After Init, with n between 1 and 65535 configured, the i-th of any number of single events (counted
-- from 0) is forwarded exactly when i is a multiple of n: the first one, and then every n-th.
pub sampled-fresh_sev :
    (sc : SevConfig) (k i : ℕ)
    → 0 < sc.forward_every_nth
    → sc.forward_every_nth < 65536
    → i < k
    → get_elem? (sampled (fresh_sev sc) (replicate k 1)) i ≡ some (i % sc.forward_every_nth == 0)
unfolding sampled fresh_sev
sampled-fresh_sev sc zero i n0 n1 h = absurd (omega arith)
sampled-fresh_sev sc (suc k) zero n0 n1 h =
    ground (arith, pass_forward_every_nth_lem (fresh_sev sc) 1, mod-eq_of_lt n0)
sampled-fresh_sev sc (suc k) (suc i) n0 n1 h = ground (
  arith,
  pass_forward_every_nth_lem (fresh_sev sc) 1,
  sampled_steady (sc.forward_every_nth) (record (fresh_sev sc) { nth_counter = 0 }) k i,
)

-- How many events of a sequence pass, and how many occurrences they stand for.
unfoldable pub passes : List Bool → ℕ
passes [] = 0
passes (b ∷ bs) = (if b then 1 else 0) + passes bs

unfoldable pub total : List ℕ → ℕ
total [] = 0
total (count ∷ counts) = count + total counts

sampled_rate_from :
    (sev : SevState) (counts : List ℕ)
    → 0 < sev.config.forward_every_nth
    → sev.config.forward_every_nth < 65536
    → sev.nth_counter < 65536
    → All (λ c. c < 65536) counts
    → passes (sampled sev counts) * sev.config.forward_every_nth ≤ sev.nth_counter + total counts
unfolding sampled passes total
sampled_rate_from sev [] n0 n1 c all = omega arith
sampled_rate_from sev (count ∷ counts) n0 n1 c (hc, all) = ground (
  arith,
  pass_forward_every_nth_lem sev count,
  sampled_rate_from (record sev { nth_counter = 0 }) counts,
  sampled_rate_from (record sev { nth_counter = sev.nth_counter + count }) counts,
)

-- After Init, with n between 1 and 65535 configured and whatever counts (16 bits each) the events
-- carry, the forwarded events times n are at most n plus the occurrences that were reported.
pub sampled_rate :
    (sc : SevConfig) (counts : List ℕ)
    → 0 < sc.forward_every_nth
    → sc.forward_every_nth < 65536
    → All (λ c. c < 65536) counts
    → passes (sampled (fresh_sev sc) counts) * sc.forward_every_nth
      ≤ sc.forward_every_nth + total counts
unfolding fresh_sev
sampled_rate sc counts n0 n1 all = sampled_rate_from (fresh_sev sc) counts n0 n1 n1 all
