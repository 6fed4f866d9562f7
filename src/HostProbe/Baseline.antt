-- ===== src/HostProbe/Baseline.antt =====
-- The loaders of apps/host_probe/baseline.cpp, on the lines of a file.
use autosar_idsm.Prelude.{
  ℕ, ◌+◌, ◌<◌, ◌≡◌, refl, Bool, false, ◌||◌, Option, none, some, List, [], ◌∷◌, ◌++◌, take, drop,
  length, length-append, take-append_left, drop-append_left, All, subst, ltb, ◌==◌, if◌then◌else◌,
  bytes_key, arith,
}
use autosar_idsm.Prelude.Assoc.{store}
use autosar_idsm.HostProbe.Hex.{
  sha256_from_hex, sha256_hex, length-sha256_hex, sha256_from_hex-sha256_hex,
}
use autosar_idsm.HostProbe.Event.{has_slash}
use autosar_idsm.HostProbe.Detectors.{insert_name}

-- `line.erase(line.find('#'))`
unfoldable pub before_hash : List ℕ → List ℕ
before_hash [] = []
before_hash (c ∷ s) = let rest = before_hash s in if c == 35 then [] else c ∷ rest

-- " \t\r"
abbrev pub is_blank : ℕ → Bool
is_blank c = (c == 32) || (c == 9) || (c == 13)

-- " \t"
abbrev pub is_space : ℕ → Bool
is_space c = (c == 32) || (c == 9)

unfoldable pub skip_blanks : List ℕ → List ℕ
skip_blanks [] = []
skip_blanks (c ∷ s) = let rest = skip_blanks s in if is_blank c then rest else c ∷ s

-- The string up to its last character that is not blank.
unfoldable pub trim_end : List ℕ → List ℕ
trim_end [] = []
trim_end (c ∷ s) = elim (trim_end s) [
  | [] ↦ if is_blank c then [] else c ∷ []
  | x ∷ rest ↦ c ∷ x ∷ rest
]

unfoldable pub clean_line : List ℕ → List ℕ
unfolding before_hash skip_blanks trim_end
clean_line line = trim_end (skip_blanks (before_hash line))

-- `entry.find_first_of(" \t") != npos` and `entry.find(' ') != npos`
unfoldable pub has_space : List ℕ → Bool
has_space [] = false
has_space (c ∷ s) = is_space c || has_space s

unfoldable pub has_blank : List ℕ → Bool
has_blank [] = false
has_blank (c ∷ s) = (c == 32) || has_blank s

-- What a list of lines gives: the exact paths, the base names, and the lines that were skipped.
pub record Allowlist : Type 0 where
  pub exact : List (List ℕ)
  pub base : List (List ℕ)
  pub skipped : ℕ

unfoldable pub allow_entry : List ℕ → Allowlist → Allowlist
unfolding has_space has_slash insert_name
allow_entry [] a = a
allow_entry (c ∷ s) a =
    if has_space (c ∷ s)
    then record a { skipped = a.skipped + 1 }
    else if has_slash (c ∷ s)
    then record a { exact = insert_name (c ∷ s) (a.exact) }
    else record a { base = insert_name (c ∷ s) (a.base) }

unfoldable pub load_exec_allowlist_lines : List (List ℕ) → Allowlist → Allowlist
unfolding allow_entry clean_line
load_exec_allowlist_lines [] a = a
load_exec_allowlist_lines (line ∷ lines) a =
    load_exec_allowlist_lines lines (allow_entry (clean_line line) a)

-- load_name_set, with the lines skipped.
unfoldable pub name_entry : List ℕ → List (List ℕ) × ℕ → List (List ℕ) × ℕ
unfolding has_blank insert_name
name_entry [] (out, skipped) = (out, skipped)
name_entry (c ∷ s) (out, skipped) =
    if has_blank (c ∷ s) then (out, skipped + 1) else (insert_name (c ∷ s) out, skipped)

unfoldable pub load_name_lines : List (List ℕ) → List (List ℕ) × ℕ → List (List ℕ) × ℕ
unfolding name_entry clean_line
load_name_lines [] out = out
load_name_lines (line ∷ lines) out = load_name_lines lines (name_entry (clean_line line) out)

-- What stands behind the first space, and behind the spaces that follow it.
unfoldable pub from_space : List ℕ → List ℕ
from_space [] = []
from_space (c ∷ s) = let rest = from_space s in if is_space c then c ∷ s else rest

unfoldable pub skip_spaces : List ℕ → List ℕ
skip_spaces [] = []
skip_spaces (c ∷ s) = let rest = skip_spaces s in if is_space c then rest else c ∷ s

-- The digest and the path of a line, if it has both.
unfoldable pub digest_and_path : Option (List ℕ) → List ℕ → Option (List ℕ × List ℕ)
digest_and_path none path = none
digest_and_path (some digest) [] = none
digest_and_path (some digest) (c ∷ s) = some (c ∷ s, digest)

-- A line of a file baseline: 64 hexadecimal digits, a space and a path.
unfoldable pub parse_baseline : List ℕ → Option (List ℕ × List ℕ)
unfolding from_space skip_spaces sha256_from_hex digest_and_path
parse_baseline entry =
    if ltb (length entry) 66
    then none
    else digest_and_path (sha256_from_hex (take 64 entry))
        (skip_spaces (from_space (drop 64 entry)))

unfoldable pub baseline_entry : List ℕ → List (List ℕ × List ℕ) × ℕ → List (List ℕ × List ℕ) × ℕ
unfolding parse_baseline store
baseline_entry [] (out, skipped) = (out, skipped)
baseline_entry (c ∷ s) (out, skipped) = elim (parse_baseline (c ∷ s)) [
  | none ↦ (out, skipped + 1)
  | some (path, digest) ↦ (store path digest out, skipped)
]

unfoldable pub load_file_baseline_lines :
    List (List ℕ) → List (List ℕ × List ℕ) × ℕ → List (List ℕ × List ℕ) × ℕ
unfolding baseline_entry clean_line
load_file_baseline_lines [] out = out
load_file_baseline_lines (line ∷ lines) out =
    load_file_baseline_lines lines (baseline_entry (clean_line line) out)

take_exact : (n : ℕ) (xs ys : List ℕ) → length xs ≡ n → take n (xs ++ ys) ≡ xs
take_exact n xs ys h = subst (λ k. take k (xs ++ ys) ≡ xs) h (take-append_left xs ys)

drop_exact : (n : ℕ) (xs ys : List ℕ) → length xs ≡ n → drop n (xs ++ ys) ≡ ys
drop_exact n xs ys h = subst (λ k. drop k (xs ++ ys) ≡ ys) h (drop-append_left xs ys)

path_lem :
    (c : ℕ) (s : List ℕ) → is_space c ≡ false → skip_spaces (from_space (32 ∷ 32 ∷ c ∷ s)) ≡ c ∷ s
unfolding skip_spaces from_space
path_lem c s h = rw h refl

-- The digest and the path come back from an entry with the digest's digits, two spaces and the path.
pub parse_baseline_lem :
    (digest : List ℕ) (c : ℕ) (s : List ℕ)
    → length digest ≡ 32
    → All (λ b. b < 256) digest
    → is_space c ≡ false
    → parse_baseline (sha256_hex digest ++ (32 ∷ 32 ∷ c ∷ s)) ≡ some (c ∷ s, digest)
unfolding parse_baseline digest_and_path
parse_baseline_lem digest c s size small dark =
    let hex : length (sha256_hex digest) ≡ 64 = omega (arith, length-sha256_hex digest, size) in
    let long : ltb (length (sha256_hex digest ++ (32 ∷ 32 ∷ c ∷ s))) 66 ≡ false =
      ground (arith, length-append (sha256_hex digest) (32 ∷ 32 ∷ c ∷ s), hex) in
    rw
      (
        long,
        take_exact 64 (sha256_hex digest) (32 ∷ 32 ∷ c ∷ s) hex,
        drop_exact 64 (sha256_hex digest) (32 ∷ 32 ∷ c ∷ s) hex,
        sha256_from_hex-sha256_hex digest size small,
        path_lem c s dark,
      )
      refl
