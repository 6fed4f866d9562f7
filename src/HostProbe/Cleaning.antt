-- ===== src/HostProbe/Cleaning.antt =====
-- The loader of file baselines of apps/host_probe/baseline.cpp on the lines that sha256sum prints.
use autosar_idsm.Prelude.{
  ℕ, ◌/◌, ◌%◌, ◌<◌, ◌≡◌, refl, not, Bool, true, false, some, List, [], ◌∷◌, ◌++◌, length, All, ◌==◌,
  bytes_key, arith,
}
use autosar_idsm.Prelude.Assoc.{store}
use autosar_idsm.HostProbe.Hex.{sha256_hex, hex_digit}
use autosar_idsm.HostProbe.Baseline.{
  before_hash, is_blank, is_space, skip_blanks, trim_end, clean_line, parse_baseline,
  baseline_entry, load_file_baseline_lines, parse_baseline_lem,
}

before_hash_lem : (s : List ℕ) → All (λ b. (b == 35) ≡ false) s → before_hash s ≡ s
unfolding before_hash
before_hash_lem [] h = refl
before_hash_lem (c ∷ s) (other, h) = rw (other, before_hash_lem s h) refl

-- The last character is not blank.
abbrev pub ends_dark : List ℕ → Bool
ends_dark [] = false
ends_dark (c ∷ []) = not (is_blank c)
ends_dark (c ∷ x ∷ s) = ends_dark (x ∷ s)

trim_end_lem : (s : List ℕ) → ends_dark s ≡ true → trim_end s ≡ s
unfolding trim_end
trim_end_lem [] h = absurd (ground arith)
trim_end_lem (c ∷ []) h = ground arith
trim_end_lem (c ∷ x ∷ s) h = rw (trim_end_lem (x ∷ s) h) refl

ends_dark-append :
    (xs : List ℕ) (c : ℕ) (s : List ℕ) → ends_dark (c ∷ s) ≡ true → ends_dark (xs ++ (c ∷ s)) ≡ true
ends_dark-append [] c s h = h
ends_dark-append (x ∷ []) c s h = h
ends_dark-append (x ∷ y ∷ xs) c s h = ends_dark-append (y ∷ xs) c s h

hex_digit_lem : (n : ℕ) → n < 16 → ((hex_digit n == 35) ≡ false) × (is_blank (hex_digit n) ≡ false)
unfolding hex_digit
hex_digit_lem n h = (ground arith, ground arith)

no_hash :
    (digest s : List ℕ)
    → All (λ b. b < 256) digest
    → All (λ b. (b == 35) ≡ false) s
    → All (λ b. (b == 35) ≡ false) (sha256_hex digest ++ s)
unfolding sha256_hex
no_hash [] s small h = h
no_hash (b ∷ digest) s (lo, small) h = (
  (hex_digit_lem (b / 16) (omega (arith, lo))).0,
  ((hex_digit_lem (b % 16) (omega arith)).0, no_hash digest s small h),
)

skip_blanks_lem :
    (digest s : List ℕ)
    → length digest ≡ 32
    → All (λ b. b < 256) digest
    → skip_blanks (sha256_hex digest ++ s) ≡ sha256_hex digest ++ s
unfolding skip_blanks sha256_hex
skip_blanks_lem [] s size small = absurd (omega (arith, size))
skip_blanks_lem (b ∷ digest) s size (lo, small) =
    rw ((hex_digit_lem (b / 16) (omega (arith, lo))).1) refl

clean_line_lem :
    (digest : List ℕ) (c : ℕ) (s : List ℕ)
    → length digest ≡ 32
    → All (λ b. b < 256) digest
    → All (λ b. (b == 35) ≡ false) (c ∷ s)
    → ends_dark (c ∷ s) ≡ true
    → clean_line (sha256_hex digest ++ (32 ∷ 32 ∷ c ∷ s)) ≡ sha256_hex digest ++ (32 ∷ 32 ∷ c ∷ s)
unfolding clean_line
clean_line_lem digest c s size small plain dark =
    rw
      (
        before_hash_lem (sha256_hex digest ++ (32 ∷ 32 ∷ c ∷ s))
            (no_hash digest (32 ∷ 32 ∷ c ∷ s) small (refl, (refl, plain))),
        skip_blanks_lem digest (32 ∷ 32 ∷ c ∷ s) size small,
      )
      (trim_end_lem (sha256_hex digest ++ (32 ∷ 32 ∷ c ∷ s))
        (ends_dark-append (sha256_hex digest) 32 (32 ∷ c ∷ s) dark))

baseline_entry_lem :
    (entry path digest : List ℕ) (out : List (List ℕ × List ℕ)) (skipped : ℕ)
    → parse_baseline entry ≡ some (path, digest)
    → baseline_entry entry (out, skipped) ≡ (store path digest out, skipped)
unfolding baseline_entry
baseline_entry_lem [] path digest out skipped h = absurd (unfold parse_baseline in ground arith)
baseline_entry_lem (c ∷ s) path digest out skipped h = rw (baseline_entry, h) refl

-- The loader on a line as sha256sum prints it, the digest's 64 digits, two spaces and the path: it
-- stores the digest under the path, skips nothing, and goes on with the lines that follow. So for every
-- digest of 32 bytes and every path that is not empty, does not begin with a space or a tab, has no
-- '#', and does not end in a space, a tab or a carriage return; it may have spaces in between.
pub load_file_baseline_lines-sha256_hex :
    (digest : List ℕ) (c : ℕ) (s : List ℕ) (lines : List (List ℕ)) (out : List (List ℕ × List ℕ))
    (skipped : ℕ)
    → length digest ≡ 32
    → All (λ b. b < 256) digest
    → is_space c ≡ false
    → All (λ b. (b == 35) ≡ false) (c ∷ s)
    → ends_dark (c ∷ s) ≡ true
    → load_file_baseline_lines ((sha256_hex digest ++ (32 ∷ 32 ∷ c ∷ s)) ∷ lines) (out, skipped)
      ≡ load_file_baseline_lines lines (store (c ∷ s) digest out, skipped)
unfolding load_file_baseline_lines
load_file_baseline_lines-sha256_hex digest c s lines out skipped size small lit plain dark =
    rw
      (
        clean_line_lem digest c s size small plain dark,
        baseline_entry_lem (sha256_hex digest ++ (32 ∷ 32 ∷ c ∷ s)) (c ∷ s) digest out skipped
            (parse_baseline_lem digest c s size small lit),
      )
      refl
