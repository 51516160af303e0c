-- ===== src/Core/Storage/Load.antt =====
-- What load() returns, from what the two slots hold.
use aqua_one.Base.{
  ℕ, ◌<◌, Bool, true, false, ◌≡◌, Option, none, some, arith, add32, word, Bool-cases, inl, inr,
}
use aqua_one.Core.Storage.Record.{Info, decode-lt-word}
use aqua_one.Core.Storage.{
  Slot, slot_a, slot_b, Backend, Reads, Service, is_generation_newer, latest, read_slot,
  select_latest, loaded, load,
}

-- A generation is newer than the one before it, also across the wrap, and never the other way round.
pub is_generation_newer_next :
    (g : ℕ)
    → g < word
    → (is_generation_newer (add32 g 1) g ≡ true) × (is_generation_newer g (add32 g 1) ≡ false)
unfolding is_generation_newer
is_generation_newer_next g h = ground arith

-- Of two records with consecutive generations the later one is taken, in whichever slot it is.
pub latest_next :
    (i n : Info)
    → i.generation < word
    → n.generation ≡ add32 i.generation 1
    → (latest (some i) (some n) ≡ some (slot_b, n)) × (latest (some n) (some i) ≡ some (slot_a, n))
unfolding latest
latest_next i n h e = ground (arith, is_generation_newer_next i.generation h)

abbrev pub at_slot : Slot → Option Info → Option Info → Option Info
at_slot slot_a x y = x
at_slot slot_b x y = y

pub at_slot-latest :
    (x y : Option Info) (slot : Slot) (i : Info)
    → latest x y ≡ some (slot, i)
    → at_slot slot x y ≡ some i
unfolding latest
at_slot-latest x y slot i h = ground arith

pub latest-none : (x y : Option Info) → latest x y ≡ none → (x ≡ none) × (y ≡ none)
unfolding latest
latest-none x y h = ground arith

module _ {Flash : Type 0} (k : Backend Flash) where
  -- What the slots hold, by reads that are whole.
  abbrev pub held : Service → Flash → Slot → Option Info
  held s f slot = read_slot k s f true slot

  abbrev pub latest_held : Service → Flash → Option (Slot × Info)
  latest_held s f = select_latest k s f true true

  -- A record that some read returns is the one that the slot holds.
  pub held-read_slot :
      (s : Service) (f : Flash) (whole : Bool) (slot : Slot) (i : Info)
      → read_slot k s f whole slot ≡ some i
      → held s f slot ≡ some i
  unfolding read_slot
  held-read_slot s f true slot i h = h
  held-read_slot s f false slot i h = elim (Bool-cases s.opened) [
    | inl e ↦ absurd (cc (rw e at h))
    | inr e ↦ absurd (cc (rw e at h))
  ]

  pub held-latest_held :
      (s : Service) (f : Flash) (slot : Slot) (i : Info)
      → latest_held s f ≡ some (slot, i)
      → held s f slot ≡ some i
  unfolding select_latest
  held-latest_held s f slot_a i h = at_slot-latest _ _ slot_a i h
  held-latest_held s f slot_b i h = at_slot-latest _ _ slot_b i h

  pub held-lt-word :
      (s : Service) (f : Flash) (slot : Slot) (i : Info)
      → held s f slot ≡ some i
      → (s.opened ≡ true) × (i.generation < word)
  unfolding read_slot
  held-lt-word s f slot i h = elim (Bool-cases s.opened) [
    | inl e ↦ (e, decode-lt-word s.format (k.content f slot) (rw e at h))
    | inr e ↦ absurd (cc (rw e at h))
  ]

  -- The reads by which load() gets at a record are whole.
  pub record AreWhole (r : Reads) : Type 0 where
    pub first : r 0 ≡ true
    pub second : r 1 ≡ true
    pub again : r 2 ≡ true

  -- load() returns the payload of the record that is selected, when its reads are whole.
  pub load-latest_held :
      (s : Service) (f : Flash) (r : Reads) (slot : Slot) (i : Info)
      → AreWhole r
      → latest_held s f ≡ some (slot, i)
      → (load k s f r).1 ≡ some i.payload
  unfolding load
  load-latest_held s f r slot i w h =
      let e = held-latest_held s f slot i h in
      rw (w.first, w.second, h, loaded, w.again, e, (held-lt-word s f slot i e).0)

  pub latest_held-none :
      (s : Service) (f : Flash)
      → latest_held s f ≡ none
      → (held s f slot_a ≡ none) × (held s f slot_b ≡ none)
  unfolding select_latest
  latest_held-none s f h = latest-none _ _ h
