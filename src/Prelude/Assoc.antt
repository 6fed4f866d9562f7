-- ===== src/Prelude/Assoc.antt =====
-- A std::map as an association list, and a std::set as a list of its members.
use mathlib.Core.Path.{sym, subst, ◌≡◌, refl}
use mathlib.Core.Logic.{inl, inr}
use mathlib.Core.Bool.{true, not, ◌&&◌, Bool, false, ◌||◌}
use mathlib.Core.Option.{Option, none, some}
use mathlib.Core.List.{List, [], ◌∷◌}
use native.Mathlib.Omega.{arith}
use autosar_idsm.Prelude.Tests.{if◌then◌else◌, Bool-cases}
use autosar_idsm.Prelude.Lists.{All}
use autosar_idsm.Prelude.Keys.{Key, ◌~~◌, same_left, same_sound, same_flip, same_join}

module _ {ℓ κ} {K : Type κ} {V : Type ℓ} ⦃key : Key K⦄ where
  unfoldable pub lookup : K → List (K × V) → Option V
  lookup k [] = none
  lookup k ((j, v) ∷ m) = if j ~~ k then some v else lookup k m

  unfoldable pub store : K → V → List (K × V) → List (K × V)
  store k v [] = (k, v) ∷ []
  store k v ((j, w) ∷ m) = if j ~~ k then (k, v) ∷ m else (j, w) ∷ store k v m

  unfoldable pub erase : K → List (K × V) → List (K × V)
  erase k [] = []
  erase k ((j, v) ∷ m) = if j ~~ k then m else (j, v) ∷ erase k m

  -- `m[k]` makes a default entry where there is none.
  unfoldable pub lookup_or : V → K → List (K × V) → V
  unfolding lookup
  lookup_or d k m = elim (lookup k m) [ none ↦ d | some v ↦ v ]

  pub lookup-store :
      (k j : K) (v : V) (m : List (K × V))
      → lookup j (store k v m) ≡ (if k ~~ j then some v else lookup j m)
  unfolding lookup store
  lookup-store k j v [] = refl
  lookup-store k j v ((i, w) ∷ m) = elim (Bool-cases (i ~~ k)) [
    | inl here ↦ elim (Bool-cases (k ~~ j)) [
      | inl found ↦ rw (here, found) refl
      | inr other ↦ rw (here, same_left i k j here, other) refl
    ]
    | inr away ↦ let rest = lookup-store k j v m in ground (arith, same_join i k j, away, rest)
  ]

  -- Another key keeps its entry.
  pub lookup-erase :
      (k j : K) (m : List (K × V)) → (k ~~ j) ≡ false → lookup j (erase k m) ≡ lookup j m
  unfolding lookup erase
  lookup-erase k j [] h = refl
  lookup-erase k j ((i, w) ∷ m) h = elim (Bool-cases (i ~~ k)) [
    | inl here ↦ rw (here, same_left i k j here, h) refl
    | inr away ↦ rw (away, lookup-erase k j m h) refl
  ]

  -- No entry has the key, and no key has two entries.
  unfoldable pub absent : K → List (K × V) → Bool
  absent k [] = true
  absent k ((j, v) ∷ m) = not (j ~~ k) && absent k m

  unfoldable pub distinct : List (K × V) → Bool
  unfolding absent
  distinct [] = true
  distinct ((k, v) ∷ m) = absent k m && distinct m

  pub lookup-absent : (k : K) (m : List (K × V)) → absent k m ≡ true → lookup k m ≡ none
  unfolding lookup absent
  lookup-absent k [] h = refl
  lookup-absent k ((j, v) ∷ m) h = ground (arith, lookup-absent k m)

  absent-erase : (j k : K) (m : List (K × V)) → absent j m ≡ true → absent j (erase k m) ≡ true
  unfolding absent erase
  absent-erase j k [] h = refl
  absent-erase j k ((i, v) ∷ m) h = ground (arith, absent-erase j k m)

  absent-store :
      (j k : K) (v : V) (m : List (K × V))
      → (k ~~ j) ≡ false
      → absent j m ≡ true
      → absent j (store k v m) ≡ true
  unfolding absent store
  absent-store j k v [] h a = ground arith
  absent-store j k v ((i, w) ∷ m) h a = ground (arith, absent-store j k v m)

  pub distinct-erase : (k : K) (m : List (K × V)) → distinct m ≡ true → distinct (erase k m) ≡ true
  unfolding distinct erase
  distinct-erase k [] h = refl
  distinct-erase k ((i, v) ∷ m) h = ground (arith, distinct-erase k m, absent-erase i k m)

  pub distinct-store :
      (k : K) (v : V) (m : List (K × V)) → distinct m ≡ true → distinct (store k v m) ≡ true
  unfolding distinct store absent
  distinct-store k v [] h = refl
  distinct-store k v ((i, w) ∷ m) h = elim (Bool-cases (i ~~ k)) [
    | inl here ↦ rw (here, sym (same_sound i k here)) h
    | inr away ↦ ground (arith, away, distinct-store k v m, absent-store i k v m, same_flip i k)
  ]

  pub lookup-erase_gone :
      (k : K) (m : List (K × V)) → distinct m ≡ true → lookup k (erase k m) ≡ none
  unfolding lookup erase distinct
  lookup-erase_gone k [] h = refl
  lookup-erase_gone k ((i, v) ∷ m) h = elim (Bool-cases (i ~~ k)) [
    | inl here ↦
        let fresh : absent i m ≡ true = ground arith in
        rw here (lookup-absent k m (subst (λ a. absent a m ≡ true) (same_sound i k here) fresh))
    | inr away ↦ rw (away, away) (lookup-erase_gone k m (ground arith))
  ]

  module _ {μ} (P : V → Type μ) where
    pub All-erase : (k : K) (m : List (K × V)) → All (λ e. P e.1) m → All (λ e. P e.1) (erase k m)
    unfolding erase
    All-erase k [] h = h
    All-erase k ((i, v) ∷ m) (p, h) = elim (Bool-cases (i ~~ k)) [
      | inl here ↦ rw here h
      | inr away ↦ rw away (p, All-erase k m h)
    ]

    pub All-store :
        (k : K) (v : V) (m : List (K × V))
        → P v
        → All (λ e. P e.1) m
        → All (λ e. P e.1) (store k v m)
    unfolding store
    All-store k v [] p h = (p, h)
    All-store k v ((i, w) ∷ m) p (q, h) = elim (Bool-cases (i ~~ k)) [
      | inl here ↦ rw here (p, h)
      | inr away ↦ rw away (q, All-store k v m p h)
    ]

    pub All-lookup :
        (k : K) (m : List (K × V)) {v : V} → All (λ e. P e.1) m → lookup k m ≡ some v → P v
    unfolding lookup
    All-lookup k [] h found = absurd (ground arith)
    All-lookup k ((i, w) ∷ m) {v} (p, h) found = elim (Bool-cases (i ~~ k)) [
      | inl here ↦ let same : w ≡ v = ground (arith, found, here) in subst P same p
      | inr away ↦ All-lookup k m h (ground (arith, found, away))
    ]

module _ {κ} {K : Type κ} ⦃key : Key K⦄ where
  -- `s.count(k)`
  unfoldable pub member : K → List K → Bool
  member k [] = false
  member k (j ∷ s) = (j ~~ k) || member k s

  unfoldable pub forget : K → List K → List K
  forget k [] = []
  forget k (j ∷ s) = if j ~~ k then s else j ∷ forget k s
