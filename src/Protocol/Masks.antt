-- ===== src/Protocol/Masks.antt =====
-- The disjunctions of src/IdsM_Protocol.c as sums, each checked over all its values.
use Prim.Native.Nat.{bit_or}
use autosar_idsm.Prelude.{
  ℕ, zero, suc, ◌+◌, ◌*◌, ◌/◌, ◌%◌, ◌<◌, ◌≡◌, refl, Bool, true, false, if◌then◌else◌, ◌==◌, ==_iff,
  arith,
}

unfoldable every : (ℕ → Bool) → ℕ → Bool
every p zero = true
every p (suc n) = if p n then every p n else false

every-apply : (p : ℕ → Bool) (n x : ℕ) → x < n → every p n ≡ true → p x ≡ true
unfolding every
every-apply p zero x below h = absurd (omega arith)
every-apply p (suc n) x below h = grind (arith, every-apply p n x)

pair_table : every (λ x. bit_or (x / 64 * 64) (x % 64) == x) 256 ≡ true
unfolding every
pair_table = refl

top_table : every (λ x. bit_or 0x80 x == x + 128) 128 ≡ true
unfolding every
top_table = refl

bottom_table : every (λ x. bit_or 0 x == x) 128 ≡ true
unfolding every
bottom_table = refl

join : (a b : ℕ) → b < 64 → ((a * 64 + b) / 64 ≡ a) × ((a * 64 + b) % 64 ≡ b)
join a b h = omega arith

pub bit_or_pair : (a b : ℕ) → a < 4 → b < 64 → bit_or (a * 64) b ≡ a * 64 + b
bit_or_pair a b ha hb =
    let (hi, lo) = join a b hb in
    let row = (==_iff _ (a * 64 + b)).0 (every-apply _ 256 (a * 64 + b) (omega arith) pair_table) in
    rw (hi, lo) at row

pub bit_or_top : (x : ℕ) → x < 128 → bit_or 0x80 x ≡ x + 128
bit_or_top x h = (==_iff _ (x + 128)).0 (every-apply _ 128 x h top_table)

pub bit_or_none : (x : ℕ) → x < 128 → bit_or 0 x ≡ x
bit_or_none x h = (==_iff _ x).0 (every-apply _ 128 x h bottom_table)
