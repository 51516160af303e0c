-- ===== src/Core/Network/Retry.antt =====
-- How often aquaOneCore/src/Network/NetworkService.cpp tries to connect again.
use aqua_one.Base.{
  ℕ, ◌^◌, ◌≤◌, ◌<◌, ◌≡◌, inl, inr, refl, Bool, true, false, not, ◌&&◌, ◌||◌, ltb, leb,
  if◌then◌else◌, List, [], ◌∷◌, length, Bool-cases, arith,
}
use aqua_one.Core.Network.{
  Service, Config, Observation, StaState, sta_disconnected, sta_connecting, sta_connected,
  sta_error, update, observe_connected, observe_connecting, since, clear_sta_runtime,
}
use aqua_one.Core.Network.{BeginAnswers, begin, begin_station, observe, connecting}
use aqua_one.Core.Network.Attempt.{
  AreSpaced, IsAfter, IsInterval, IsPaced, attempted, noted, lost-IsPaced, after_le, anchor_after,
}

same_requests : (s s' : Service) → length s'.requests ≡ length s.requests → attempted s s' ≡ false
same_requests s s' h = ground arith

module _ (o : Observation) (m last : ℕ) (ts : List ℕ) (s : Service) (p : IsPaced m last ts s)
    (later : last ≤ o.now) (small : o.now < 2 ^ 64) where
  -- A service with the requests and the timing of `s`.
  kept-IsPaced :
      (s' : Service)
      → length s'.requests ≡ length s.requests
      → s'.has_reconnect_anchor ≡ s.has_reconnect_anchor
      → s'.reconnect_anchor_ms ≡ s.reconnect_anchor_ms
      → s'.active_interval_ms ≡ s.active_interval_ms
      → s'.config ≡ s.config
      → IsPaced m o.now (noted (attempted s s') o.now ts) s'
  kept-IsPaced s' l h a i c = elim (Bool-cases s.has_reconnect_anchor) [
    | inl e ↦ rw (same_requests s s' l) (record {
      spaced = p.spaced;
      after = let old = anchor_after true p e in rw (h, e, a) old;
      past = λ k. (let old = p.past e in rw a (omega arith));
      paced = λ k. rw i (p.paced e);
      interval = rw c p.interval;
    })
    | inr e ↦ rw (same_requests s s' l) (record {
      spaced = p.spaced;
      after =
          let old = anchor_after false p e in
          rw (h, e) (after_le ts 0 last o.now old (omega arith));
      past = λ k. absurd (ground arith);
      paced = λ k. absurd (ground arith);
      interval = rw c p.interval;
    })
  ]

  now_after : IsAfter 0 ts o.now
  now_after = elim (Bool-cases s.has_reconnect_anchor) [
    | inl e ↦
        (let old = p.past e in
          after_le ts 0 s.reconnect_anchor_ms o.now (anchor_after true p e) (omega arith))
    | inr e ↦ after_le ts 0 last o.now (anchor_after false p e) (omega arith)
  ]

  connected-IsPaced :
      IsPaced m o.now (noted (attempted s (observe_connected o s)) o.now ts) (observe_connected o s)
  unfolding observe_connected
  connected-IsPaced = rw (same_requests s (observe_connected o s) refl) (record {
    spaced = p.spaced;
    after = now_after;
    past = λ k. cc;
    paced = λ k. cc;
    interval = p.interval;
  })

  abbrev GoesOn : Service → Type 0
  GoesOn s' = IsPaced m o.now (noted (attempted s s') o.now ts) s'

  choose-IsPaced :
      (test : Bool) (a b : Service) → GoesOn a → GoesOn b → GoesOn (if test then a else b)
  choose-IsPaced true a b h k = h
  choose-IsPaced false a b h k = k

  connecting-IsPaced : GoesOn (observe_connecting o s)
  unfolding observe_connecting clear_sta_runtime
  connecting-IsPaced =
      let waits = record (clear_sta_runtime s) { state = connecting } in
      let starts = record waits { connecting_started_ms = o.now; has_connecting_started = true } in
      let q : IsPaced m last ts waits = record {
        spaced = p.spaced;
        after = p.after;
        past = p.past;
        paced = p.paced;
        interval = p.interval;
      } in
      choose-IsPaced (not s.has_connecting_started) starts _
        (kept-IsPaced starts refl refl refl refl refl)
        (choose-IsPaced
          (ltb 0 s.config.connect_timeout_ms
            && leb s.config.connect_timeout_ms (since o.now s.connecting_started_ms))
          _ waits (lost-IsPaced o sta_disconnected m last ts waits q later small)
          (kept-IsPaced waits refl refl refl refl refl))

  observe-IsPaced : (sta : StaState) → GoesOn (observe sta o s)
  observe-IsPaced sta_connected = connected-IsPaced
  observe-IsPaced sta_connecting = connecting-IsPaced
  observe-IsPaced sta_disconnected = lost-IsPaced o sta_disconnected m last ts s p later small
  observe-IsPaced sta_error = lost-IsPaced o sta_error m last ts s p later small

  update-IsPaced : GoesOn (update o s)
  unfolding update
  update-IsPaced =
      choose-IsPaced (not s.initialized || s.initialization_failed || not s.config.sta_enabled) s _
        (kept-IsPaced s refl refl refl refl refl) (observe-IsPaced o.sta)

-- The updates of a service, with the times at which it has asked for a new connection.
abbrev pub updates : List Observation → Service → List ℕ → Service × List ℕ
updates [] s ts = (s, ts)
updates (o ∷ os) s ts = (let s' = update o s in updates os s' (noted (attempted s s') o.now ts))

-- The times of the updates do not go back, and fit the clock.
abbrev pub AreInOrder : ℕ → List Observation → Type 0
AreInOrder last [] = Unit
AreInOrder last (o ∷ os) = (last ≤ o.now) × (o.now < 2 ^ 64) × AreInOrder o.now os

updates_paced :
    (m last : ℕ) (os : List Observation) (s : Service) (ts : List ℕ)
    → AreInOrder last os
    → IsPaced m last ts s
    → AreSpaced m (updates os s ts).1
updates_paced m last [] s ts h p = p.spaced
updates_paced m last (o ∷ os) s ts h p =
    updates_paced m o.now os (update o s) (noted (attempted s (update o s)) o.now ts) h.2
      (update-IsPaced o m last ts s p h.0 h.1)

begin_kept :
    (a : BeginAnswers) (c : Config) (s : Service)
    → (begin a c s).1 ≡ true
    → ((begin a c s).0.has_reconnect_anchor ≡ false) × ((begin a c s).0.config ≡ c)
unfolding begin begin_station
begin_kept a c s h = ground arith

-- After a begin that succeeds, and through any answers of the backend, two attempts of update to connect
-- again are at least as far apart as the shorter of the intervals that the configuration asks for.
pub attempts-AreSpaced :
    (a : BeginAnswers) (c : Config) (s : Service) (m last : ℕ) (os : List Observation)
    → (begin a c s).1 ≡ true
    → IsInterval c m
    → AreInOrder last os
    → AreSpaced m (updates os (begin a c s).0 []).1
attempts-AreSpaced a c s m last os h i r =
    let k = begin_kept a c s h in
    updates_paced m last os (begin a c s).0 [] r (record {
      spaced = tt;
      after = tt;
      past = λ e. absurd (ground (arith, k.0));
      paced = λ e. absurd (ground (arith, k.0));
      interval = rw k.1 i;
    })
