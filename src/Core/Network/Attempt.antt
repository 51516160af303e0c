-- ===== src/Core/Network/Attempt.antt =====
-- A lost connection, by observeDisconnected of aquaOneCore/src/Network/NetworkService.cpp.
use aqua_one.Base.{
  ℕ, ◌+◌, ◌^◌, ◌≤◌, ◌<◌, ◌≡◌, inl, inr, subst, Bool, true, false, not, ◌||◌, ◌==◌, ltb, leb,
  if◌then◌else◌, List, [], ◌∷◌, length, Bool-cases, arith,
}
use aqua_one.Core.Network.{Service, Config, Observation, StaState, observe_disconnected, since}

-- The times of some attempts, the last one first, are at least `m` apart.
abbrev pub AreSpaced : ℕ → List ℕ → Type 0
AreSpaced m [] = Unit
AreSpaced m (t ∷ []) = Unit
AreSpaced m (t ∷ u ∷ ts) = (u + m ≤ t) × AreSpaced m (u ∷ ts)

abbrev pub IsAfter : ℕ → List ℕ → ℕ → Type 0
IsAfter m [] n = Unit
IsAfter m (t ∷ ts) n = t + m ≤ n

-- The shortest interval that a configuration asks for.
pub record IsInterval (c : Config) (m : ℕ) : Type 0 where
  pub plain : m ≤ c.reconnect_interval_ms
  pub fast :
      (not c.fast_retry_enabled
        || c.fast_reconnect_interval_ms == 0
        || leb m c.fast_reconnect_interval_ms)
      ≡ true

-- Whether an update has asked for a new connection.
abbrev pub attempted : Service → Service → Bool
attempted s s' = not (length s'.requests == length s.requests)

pub record IsPaced (m last : ℕ) (ts : List ℕ) (s : Service) : Type 0 where
  pub spaced : AreSpaced m ts
  pub after : IsAfter 0 ts (if s.has_reconnect_anchor then s.reconnect_anchor_ms else last)
  pub past : s.has_reconnect_anchor ≡ true → s.reconnect_anchor_ms ≤ last
  pub paced : s.has_reconnect_anchor ≡ true → m ≤ s.active_interval_ms
  pub interval : IsInterval s.config m

waiting : Observation → Service → Bool
waiting o s =
    not s.config.auto_reconnect || ltb (since o.now s.reconnect_anchor_ms) s.active_interval_ms

module _ (o : Observation) (sta : StaState) (s : Service) where
  lost_first :
      (m : ℕ)
      → s.has_reconnect_anchor ≡ false
      → IsInterval s.config m
      → (attempted s (observe_disconnected o sta s) ≡ false)
        × ((observe_disconnected o sta s).has_reconnect_anchor ≡ true)
        × ((observe_disconnected o sta s).reconnect_anchor_ms ≡ o.now)
        × (m ≤ (observe_disconnected o sta s).active_interval_ms)
        × ((observe_disconnected o sta s).config ≡ s.config)
  unfolding observe_disconnected
  lost_first m h i = ground arith

  lost_waits :
      s.has_reconnect_anchor ≡ true
      → waiting o s ≡ true
      → (attempted s (observe_disconnected o sta s) ≡ false)
        × ((observe_disconnected o sta s).has_reconnect_anchor ≡ true)
        × ((observe_disconnected o sta s).reconnect_anchor_ms ≡ s.reconnect_anchor_ms)
        × ((observe_disconnected o sta s).active_interval_ms ≡ s.active_interval_ms)
        × ((observe_disconnected o sta s).config ≡ s.config)
  unfolding observe_disconnected waiting
  lost_waits h w = ground arith

  lost_tries :
      s.has_reconnect_anchor ≡ true
      → waiting o s ≡ false
      → (attempted s (observe_disconnected o sta s) ≡ true)
        × ((observe_disconnected o sta s).has_reconnect_anchor ≡ false)
        × ((observe_disconnected o sta s).config ≡ s.config)
  unfolding observe_disconnected waiting
  lost_tries h w = ground arith

tries_late :
    (o : Observation) (s : Service) (m : ℕ)
    → waiting o s ≡ false
    → o.now < 2 ^ 64
    → s.reconnect_anchor_ms ≤ o.now
    → m ≤ s.active_interval_ms
    → s.reconnect_anchor_ms + m ≤ o.now
unfolding waiting
tries_late o s m w b a i = ground arith

pub after_le : (ts : List ℕ) (m a b : ℕ) → IsAfter 0 ts a → a + m ≤ b → IsAfter m ts b
after_le [] m a b h k = tt
after_le (t ∷ ts) m a b h k = omega arith

cons-AreSpaced :
    (m : ℕ) (ts : List ℕ) (n : ℕ) → AreSpaced m ts → IsAfter m ts n → AreSpaced m (n ∷ ts)
cons-AreSpaced m [] n h k = tt
cons-AreSpaced m (t ∷ ts) n h k = (k, h)

abbrev pub noted : Bool → ℕ → List ℕ → List ℕ
noted true now ts = now ∷ ts
noted false now ts = ts

pub anchor_after :
    {m last : ℕ} {ts : List ℕ} {s : Service} (b : Bool)
    → IsPaced m last ts s
    → s.has_reconnect_anchor ≡ b
    → IsAfter 0 ts (if b then s.reconnect_anchor_ms else last)
anchor_after {m} {last} {ts} {s} b p h =
    subst (λ c. IsAfter 0 ts (if c then s.reconnect_anchor_ms else last)) h p.after

module _ (o : Observation) (sta : StaState) (m last : ℕ) (ts : List ℕ) (s : Service)
    (p : IsPaced m last ts s) (later : last ≤ o.now) (small : o.now < 2 ^ 64) where
  abbrev lost : Service
  lost = observe_disconnected o sta s

  first-IsPaced :
      s.has_reconnect_anchor ≡ false → IsPaced m o.now (noted (attempted s lost) o.now ts) lost
  first-IsPaced h =
      let r = lost_first o sta s m h p.interval in
      rw r.0 (record {
        spaced = p.spaced;
        after = rw (r.1, r.2) (after_le ts 0 last o.now (anchor_after false p h) (omega arith));
        past = λ e. rw r.2 (omega arith);
        paced = λ e. r.3;
        interval = rw r.4 p.interval;
      })

  waits-IsPaced :
      s.has_reconnect_anchor ≡ true
      → waiting o s ≡ true
      → IsPaced m o.now (noted (attempted s lost) o.now ts) lost
  waits-IsPaced h w =
      let r = lost_waits o sta s h w in
      let old = p.past h in
      rw r.0 (record {
        spaced = p.spaced;
        after = rw (r.1, r.2) (anchor_after true p h);
        past = λ e. rw r.2 (omega arith);
        paced = λ e. rw r.3 (p.paced h);
        interval = rw r.4 p.interval;
      })

  tries-IsPaced :
      s.has_reconnect_anchor ≡ true
      → waiting o s ≡ false
      → IsPaced m o.now (noted (attempted s lost) o.now ts) lost
  tries-IsPaced h w =
      let r = lost_tries o sta s h w in
      let old = p.past h in
      let late = tries_late o s m w small (omega arith) (p.paced h) in
      let far = after_le ts m s.reconnect_anchor_ms o.now (anchor_after true p h) late in
      rw r.0 (record {
        spaced = cons-AreSpaced m ts o.now p.spaced far;
        after = rw r.1 (omega arith);
        past = λ e. absurd (ground (arith, r.1));
        paced = λ e. absurd (ground (arith, r.1));
        interval = rw r.2 p.interval;
      })

  pub lost-IsPaced : IsPaced m o.now (noted (attempted s lost) o.now ts) lost
  lost-IsPaced = elim (Bool-cases s.has_reconnect_anchor) [
    | inl h ↦ elim (Bool-cases (waiting o s)) [
      | inl w ↦ waits-IsPaced h w
      | inr w ↦ tries-IsPaced h w
    ]
    | inr h ↦ first-IsPaced h
  ]
