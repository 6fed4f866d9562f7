-- ===== src/Prelude/Keys.antt =====
-- The keys of a std::map or a std::set: a type with the equality that the container finds them by.
use mathlib.Core.Path.{◌≡◌, refl}
use mathlib.Core.Logic.{◌↔◌, inl, inr}
use mathlib.Core.Bool.{Bool, true, false, ◌&&◌}
use mathlib.Core.List.{List, [], ◌∷◌}
use Prim.Native.Nat.{ℕ}
use native.Mathlib.Omega.{arith}
use autosar_idsm.Prelude.Tests.{◌==◌, ==_iff, Bool-cases}

pub record Key {ℓ} (K : Type ℓ) : Type ℓ where
  pub same : K → K → Bool
  pub same_iff : (a b : K) → (same a b ≡ true) ↔ (a ≡ b)

infix 50 ◌~~◌
abbrev pub ◌~~◌ {ℓ} : {K : Type ℓ} ⦃key : Key K⦄ → K → K → Bool
◌~~◌ ⦃key⦄ = key.same

instance abbrev pub nat_key : Key ℕ
nat_key = record { same = ◌==◌; same_iff = ==_iff }

-- Strings and byte arrays are lists of bytes.
abbrev pub bytes_eq : List ℕ → List ℕ → Bool
bytes_eq [] [] = true
bytes_eq [] (b ∷ bs) = false
bytes_eq (a ∷ as_) [] = false
bytes_eq (a ∷ as_) (b ∷ bs) = a == b && bytes_eq as_ bs

bytes_eq_refl : (a : List ℕ) → bytes_eq a a ≡ true
bytes_eq_refl [] = refl
bytes_eq_refl (a ∷ rest) = ground (arith, bytes_eq_refl rest)

bytes_eq_sound : (a b : List ℕ) → bytes_eq a b ≡ true → a ≡ b
bytes_eq_sound [] [] h = refl
bytes_eq_sound [] (b ∷ bs) h = absurd (ground arith)
bytes_eq_sound (a ∷ rest) [] h = absurd (ground arith)
bytes_eq_sound (a ∷ rest) (b ∷ bs) h = ground (arith, bytes_eq_sound rest bs)

pub bytes_eq_iff : (a b : List ℕ) → (bytes_eq a b ≡ true) ↔ (a ≡ b)
bytes_eq_iff a b = (bytes_eq_sound a b, λ p. rw p (bytes_eq_refl b))

instance abbrev pub bytes_key : Key (List ℕ)
bytes_key = record { same = bytes_eq; same_iff = bytes_eq_iff }

pub same_refl {ℓ} : {K : Type ℓ} ⦃key : Key K⦄ (a : K) → (a ~~ a) ≡ true
same_refl ⦃key⦄ a = (key.same_iff a a).1 refl

pub same_sound {ℓ} : {K : Type ℓ} ⦃key : Key K⦄ (a b : K) → (a ~~ b) ≡ true → a ≡ b
same_sound ⦃key⦄ a b = (key.same_iff a b).0

pub same_left {ℓ} : {K : Type ℓ} ⦃key : Key K⦄ (a b c : K) → (a ~~ b) ≡ true → (a ~~ c) ≡ (b ~~ c)
same_left a b c h = rw (same_sound a b h) refl

-- A key that is found is found under no other name.
pub same_join {ℓ} :
    {K : Type ℓ} ⦃key : Key K⦄ (a b c : K) → (a ~~ c) ≡ true → (b ~~ c) ≡ true → (a ~~ b) ≡ true
same_join a b c h p = rw (same_sound a c h, same_sound b c p) (same_refl c)

pub same_flip {ℓ} : {K : Type ℓ} ⦃key : Key K⦄ (a b : K) → (a ~~ b) ≡ false → (b ~~ a) ≡ false
same_flip a b h = elim (Bool-cases (b ~~ a)) [
  | inl turned ↦ absurd (ground (arith, same_join a b a (same_refl a) turned))
  | inr away ↦ away
]
