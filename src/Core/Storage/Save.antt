-- ===== src/Core/Storage/Save.antt =====
-- What save() leaves in the two slots, whatever the write does.
use aqua_one.Base.{
  ℕ, ◌<◌, Bool, true, false, not, ◌==◌, ◌&&◌, ◌≡◌, refl, ◌∙◌, ◌⊎◌, Option, none, some, List, arith,
  add32, word, Bool-cases, Option-cases, inl, inr, length,
}
use aqua_one.Core.Storage.Record.{Info, encode, bytes_eq, bytes_eq_sound}
use aqua_one.Core.Storage.{
  Slot, slot_a, slot_b, other_slot, Backend, IsIsolated, Reads, Service, latest, read_slot,
  select_latest, refreshed, refresh_status, write_record, is_verified, is_unchanged, base_of,
  target_of,
}
use aqua_one.Core.Storage.Load.{latest_next, held, latest_held, held-read_slot}

abbrev pub info : ℕ → List ℕ → Info
info generation payload = record { generation = generation; payload = payload }

is_verified_sound :
    (o : Option Info) (g : ℕ) (p : List ℕ) → is_verified o g p ≡ true → o ≡ some (info g p)
is_verified_sound none g p h = cc
is_verified_sound (some j) g p h = ground (arith, bytes_eq_sound j.payload p)

same_payload :
    (i j : Info) (p : List ℕ)
    → j ≡ i
    → (j.generation == i.generation && bytes_eq j.payload p) ≡ true
    → i ≡ info i.generation p
same_payload i j p e h = ground (arith, bytes_eq_sound j.payload p)

module _ {Flash : Type 0} (k : Backend Flash) where
  -- A state that reads records like another.
  abbrev pub IsAlike : Service → Service → Type 0
  IsAlike s t = (t.opened ≡ s.opened) × (t.format ≡ s.format)

  held-IsAlike :
      (s t : Service) (f : Flash) (slot : Slot) → IsAlike s t → held k t f slot ≡ held k s f slot
  unfolding read_slot
  held-IsAlike s t f slot h = cc

  pub latest_held-IsAlike :
      (s t : Service) (f : Flash) → IsAlike s t → latest_held k t f ≡ latest_held k s f
  unfolding select_latest
  latest_held-IsAlike s t f h = cc (held-IsAlike s t f slot_a h, held-IsAlike s t f slot_b h)

  refresh_status-IsAlike :
      (s : Service) (f : Flash) (a b : Bool) → IsAlike s (refresh_status k s f a b)
  unfolding refresh_status
  refresh_status-IsAlike s f a b = elim (Option-cases (select_latest k s f a b)) [
    | inl e ↦ rw (e, refreshed) (refl, refl)
    | inr (x, e) ↦ rw (e, refreshed) (refl, refl)
  ]

  -- What a write leaves: whichever way it ends, the other slot is untouched; and if it reports success,
  -- the target holds the payload under its generation.
  pub record Written (s : Service) (f : Flash) (t : Slot) (g : ℕ) (p : List ℕ)
      (x : Service × Flash × Bool) : Type 0 where
    pub alike : IsAlike s x.0
    pub apart : k.content x.1 (other_slot t) ≡ k.content f (other_slot t)
    pub stored : x.2 ≡ true → held k s x.1 t ≡ some (info g p)

  module _ (isolated : IsIsolated k) where
    pub write_record-Written :
        (s : Service) (f : Flash) (r : Reads) (t : Slot) (g : ℕ) (p : List ℕ)
        → Written s f t g p (write_record k s f r t g p)
    unfolding write_record
    write_record-Written s f r t g p =
        let bytes = encode s.format p g in
        let h = (k.write_blob f t bytes).0 in
        elim (Bool-cases (not ((k.write_blob f t bytes).1 == length bytes))) [
          | inl short ↦ rw short (record {
            alike = refresh_status-IsAlike s h (r 4) (r 5);
            apart = isolated.apart f t bytes;
            stored = λ e. cc;
          })
          | inr full ↦ elim (Bool-cases (is_verified (read_slot k s h (r 3) t) g p)) [
            | inl good ↦
                rw (full, good)
                  (record {
                    alike = (refl, refl);
                    apart = isolated.apart f t bytes;
                    stored =
                        λ e. held-read_slot k s h (r 3) t (info g p) (is_verified_sound _ g p good);
                  })
            | inr bad ↦
                rw (full, bad)
                  (record {
                    alike = refresh_status-IsAlike s h (r 4) (r 5);
                    apart = isolated.apart f t bytes;
                    stored = λ e. cc;
                  })
          ]
        ]

  pub held-eq :
      (s : Service) (f g : Flash) (slot : Slot)
      → k.content g slot ≡ k.content f slot
      → held k s g slot ≡ held k s f slot
  unfolding read_slot
  held-eq s f g slot e = cc

  -- What the slot that is not written holds: nothing, or the record of the generation before.
  abbrev pub IsBefore : ℕ → Option Info → Type 0
  IsBefore g o =
      (o ≡ none) ⊎ ((i : Info) × (o ≡ some i) × (i.generation < word) × (g ≡ add32 i.generation 1))

  latest-IsBefore :
      (g : ℕ) (p : List ℕ) (o : Option Info)
      → IsBefore g o
      → (latest (some (info g p)) o ≡ some (slot_a, info g p))
        × (latest o (some (info g p)) ≡ some (slot_b, info g p))
  latest-IsBefore g p o (inl e) = rw e (unfold latest in (refl, refl))
  latest-IsBefore g p o (inr (i, e, lt, next)) =
      let (b, a) = latest_next i (info g p) lt next in rw e (a, b)

  pub latest_held-Written :
      (s : Service) (f : Flash) (t : Slot) (g : ℕ) (p : List ℕ) (x : Service × Flash × Bool)
      → Written s f t g p x
      → IsBefore g (held k s f (other_slot t))
      → x.2 ≡ true
      → latest_held k x.0 x.1 ≡ some (t, info g p)
  latest_held-Written s f slot_a g p x w b done =
      latest_held-IsAlike s x.0 x.1 w.alike
      ∙ (unfold select_latest in
          rw (w.stored done, held-eq s f x.1 slot_b w.apart) (latest-IsBefore g p _ b).0)
  latest_held-Written s f slot_b g p x w b done =
      latest_held-IsAlike s x.0 x.1 w.alike
      ∙ (unfold select_latest in
          rw (w.stored done, held-eq s f x.1 slot_a w.apart) (latest-IsBefore g p _ b).1)

  pub base_of-none : (s : Service) → s.raw_base_for_save ≡ false → base_of s none ≡ none
  unfolding base_of
  base_of-none s h = rw h

  pub base_of-some :
      (s : Service) (slot : Slot) (i : Info)
      → s.raw_base_for_save ≡ false
      → base_of s (some (slot, i)) ≡ some (some slot, i.generation)
  unfolding base_of
  base_of-some s slot i h = rw h

  pub target_of-some : (slot : Slot) (g : ℕ) → target_of (some (some slot, g)) ≡ other_slot slot
  unfolding target_of
  target_of-some slot_a g = refl
  target_of-some slot_b g = refl

  pub other_other : (slot : Slot) → other_slot (other_slot slot) ≡ slot
  other_other slot_a = refl
  other_other slot_b = refl

  -- A record that was read and is left as it is.
  pub unchanged_payload :
      (s : Service) (f : Flash) (whole : Bool) (slot : Slot) (i : Info) (p : List ℕ)
      → held k s f slot ≡ some i
      → is_unchanged (read_slot k s f whole slot) i p ≡ true
      → i ≡ info i.generation p
  unchanged_payload s f whole slot i p e h = elim (Option-cases (read_slot k s f whole slot)) [
    | inl n ↦ absurd (cc (rw n at h))
    | inr (j, m) ↦ same_payload i j p (cc (held-read_slot k s f whole slot j m, e)) (rw m at h)
  ]
