-- ===== src/HostProbe/Keyed.antt =====
-- What the detectors of apps/host_probe/detectors.cpp with per-key muting have in common, and the
-- distance between the alerts of a key.
use autosar_idsm.Prelude.{
  ℕ, ◌+◌, ◌<◌, ◌≤◌, ◌≡◌, ◌∙◌, ◌⊎◌, inl, inr, refl, sym, ap, subst, Bool, true, false, not, ◌&&◌,
  ◌||◌, Option, none, some, List, [], ◌∷◌, All, ltb, leb, u64, ◌~~◌, bytes_key, same_refl,
  same_sound, Bool-cases, arith,
}
use autosar_idsm.Prelude.Assoc.{lookup, lookup-store}
use autosar_idsm.HostProbe.Alert.{HostAlert}
use autosar_idsm.HostProbe.Detectors.{Muted, muted_until, mute}

-- A feed with the key that it mutes: it alerts only where the key is not muted, mutes it where it
-- does, and else keeps the muted keys.
pub record KeyedDetector : Type 1 where
  pub Event : Type 0
  pub State : Type 0
  pub feed : Event → ℕ → State → Option HostAlert × State
  pub key : Event → List ℕ
  pub muted : State → Muted
  pub cooldown : State → ℕ
  pub feed_keeps : (e : Event) (now : ℕ) (s : State) → cooldown (feed e now s).1 ≡ cooldown s
  pub feed_mutes :
      (e : Event) (now : ℕ) (s : State)
      → (((feed e now s).0 ≡ none) × (muted (feed e now s).1 ≡ muted s))
        ⊎ ((a : HostAlert) × ((feed e now s).0 ≡ some a)
            × (muted_until (muted s) (key e) now ≡ false)
            × (muted (feed e now s).1 ≡ mute (muted s) (key e) now (cooldown s)))

-- No alert of key k before the limit, in a list of keys and times.
unfoldable pub not_before : List ℕ → ℕ → List (List ℕ × ℕ) → Bool
not_before k limit [] = true
not_before k limit ((j, t) ∷ alerts) = (not (j ~~ k) || leb limit t) && not_before k limit alerts

-- Two alerts of one key are at least the cooldown apart.
unfoldable pub spaced : ℕ → List (List ℕ × ℕ) → Bool
unfolding not_before
spaced cooldown [] = true
spaced cooldown ((k, t) ∷ alerts) = not_before k (t + cooldown) alerts && spaced cooldown alerts

-- The key is muted until the limit or later.
IsMuted : List ℕ → ℕ → Muted → Type 0
IsMuted k limit m = (until : ℕ) × (lookup k m ≡ some until) × (limit ≤ until)

muted_found :
    (k : List ℕ) (t until : ℕ) (m : Muted)
    → lookup k m ≡ some until
    → muted_until m k t ≡ ltb t until
unfolding muted_until
muted_found k t until m found = rw (muted_until, found) refl

awake_until :
    (k : List ℕ) (t until : ℕ) (m : Muted)
    → lookup k m ≡ some until
    → muted_until m k t ≡ false
    → until ≤ t
awake_until k t until m found awake =
    let test : ltb t until ≡ false = sym (muted_found k t until m found) ∙ awake in ground arith

awake_after :
    (k j : List ℕ) (limit t : ℕ) (m : Muted)
    → IsMuted k limit m
    → muted_until m j t ≡ false
    → (j ~~ k) ≡ true
    → limit ≤ t
unfolding IsMuted
awake_after k j limit t m (until, found, h) awake same =
    let there : lookup j m ≡ some until =
      subst (λ a. lookup a m ≡ some until) (sym (same_sound j k same)) found in
    ground (arith, awake_until j t until m there awake, h)

mute-own :
    (k : List ℕ) (t c : ℕ) (m : Muted)
    → t + c < 18446744073709551616
    → IsMuted k (t + c) (mute m k t c)
unfolding IsMuted mute
mute-own k t c m h =
    (u64 (t + c), lookup-store k k (u64 (t + c)) m ∙ rw (same_refl k) refl, omega arith)

mute-IsMuted :
    (k j : List ℕ) (limit t c : ℕ) (m : Muted)
    → t + c < 18446744073709551616
    → IsMuted k limit m
    → muted_until m j t ≡ false
    → IsMuted k limit (mute m j t c)
unfolding IsMuted mute
mute-IsMuted k j limit t c m h (until, found, low) awake = elim (Bool-cases (j ~~ k)) [
  | inl same ↦ (
    u64 (t + c),
    lookup-store j k (u64 (t + c)) m ∙ rw same refl,
    omega (arith, awake_after k j limit t m (until, found, low) awake same),
  )
  | inr other ↦ (until, lookup-store j k (u64 (t + c)) m ∙ rw other found, low)
]

module _ (d : KeyedDetector) where
  open d use {Event, State, feed, key, muted, cooldown, feed_keeps, feed_mutes}

  -- The keys and the times of the alerts of a run.
  unfoldable pub alerts_of : List (Event × ℕ) → State → List (List ℕ × ℕ)
  alerts_of [] s = []
  alerts_of ((e, t) ∷ events) s =
      let rest = alerts_of events (feed e t s).1 in
      elim (feed e t s).0 [ none ↦ rest | some a ↦ (key e, t) ∷ rest ]

  alerts_of_silent :
      (e : Event) (t : ℕ) (events : List (Event × ℕ)) (s : State)
      → (feed e t s).0 ≡ none
      → alerts_of ((e, t) ∷ events) s ≡ alerts_of events (feed e t s).1
  unfolding alerts_of
  alerts_of_silent e t events s silent = rw (alerts_of, silent) refl

  alerts_of_alert :
      (e : Event) (t : ℕ) (events : List (Event × ℕ)) (s : State) (a : HostAlert)
      → (feed e t s).0 ≡ some a
      → alerts_of ((e, t) ∷ events) s ≡ (key e, t) ∷ alerts_of events (feed e t s).1
  unfolding alerts_of
  alerts_of_alert e t events s a alert = rw (alerts_of, alert) refl

  module _ (c : ℕ) where
    abbrev InTime : List (Event × ℕ) → Type 0
    InTime events = All (λ e. e.1 + c < 18446744073709551616) events

    alerts_of-not_before :
        (events : List (Event × ℕ)) (k : List ℕ) (limit : ℕ) (s : State)
        → InTime events
        → cooldown s ≡ c
        → IsMuted k limit (muted s)
        → not_before k limit (alerts_of events s) ≡ true
    unfolding alerts_of not_before
    alerts_of-not_before [] k limit s h same_c m = refl
    alerts_of-not_before ((e, t) ∷ events) k limit s (h, hs) same_c m = elim (feed_mutes e t s) [
      | inl (silent, same) ↦ rw (alerts_of_silent e t events s silent) (
          alerts_of-not_before events k limit (feed e t s).1 hs (feed_keeps e t s ∙ same_c)
            (subst (IsMuted k limit) (sym same) m))
      | inr (a, alert, awake, muted_) ↦
          let later : muted (feed e t s).1 ≡ mute (muted s) (key e) t c =
            muted_ ∙ ap (mute (muted s) (key e) t) same_c in
          let rest =
            alerts_of-not_before events k limit (feed e t s).1 hs (feed_keeps e t s ∙ same_c) (
              subst (IsMuted k limit) (sym later)
                (mute-IsMuted k (key e) limit t c (muted s) h m awake)) in
          rw (alerts_of_alert e t events s a alert)
            (ground (arith, rest, awake_after k (key e) limit t (muted s) m awake))
    ]

    -- The alerts of a run, for any order of events.
    pub alerts_of-spaced :
        (events : List (Event × ℕ)) (s : State)
        → InTime events
        → cooldown s ≡ c
        → spaced c (alerts_of events s) ≡ true
    unfolding alerts_of spaced
    alerts_of-spaced [] s h same_c = refl
    alerts_of-spaced ((e, t) ∷ events) s (h, hs) same_c =
        let rest = alerts_of-spaced events (feed e t s).1 hs (feed_keeps e t s ∙ same_c) in
        elim (feed_mutes e t s) [
          | inl (silent, same) ↦ rw (alerts_of_silent e t events s silent) rest
          | inr (a, alert, awake, muted_) ↦
              let later : muted (feed e t s).1 ≡ mute (muted s) (key e) t c =
                muted_ ∙ ap (mute (muted s) (key e) t) same_c in
              let first =
                alerts_of-not_before events (key e) (t + c) (feed e t s).1 hs
                  (feed_keeps e t s ∙ same_c)
                  (subst (IsMuted (key e) (t + c)) (sym later)
                    (mute-own (key e) t c (muted s) h)) in
              rw (alerts_of_alert e t events s a alert) (ground (arith, rest, first))
        ]
