-- ===== src/Core/Storage/Durable.antt =====
-- A payload that was saved is what is loaded, and a save that fails loses nothing.
use aqua_one.Base.{
  ℕ, Bool, true, false, not, ◌&&◌, ◌||◌, ◌≡◌, refl, sym, subst, ap, ◌∙◌, Option, none, some, List,
  arith, add32, Bool-cases, Option-cases, inl, inr,
}
use aqua_one.Core.Storage.Record.{Info}
use aqua_one.Core.Storage.{
  Slot, slot_a, slot_b, other_slot, Backend, IsIsolated, Reads, Service, read_slot, select_latest,
  latest, load, is_unchanged, saved, save, covers, target_of, next_generation,
}
use aqua_one.Core.Storage.Load.{
  latest_held-none, held-latest_held, held-lt-word, load-latest_held, held, latest_held, AreWhole,
}
use aqua_one.Core.Storage.Save.{
  latest_held-IsAlike, write_record-Written, latest_held-Written, info, base_of-none, base_of-some,
  target_of-some, other_other, unchanged_payload, held-eq,
}

slot_injective :
    {s t : Slot} {i j : Info} → ◌≡◌ {A = Option (Slot × Info)} (some (s, i)) (some (t, j)) → s ≡ t
slot_injective h = cc

module _ {Flash : Type 0} (k : Backend Flash) (isolated : IsIsolated k) where
  -- What a save leaves, from the record that is current before it.
  record Kept (s : Service) (f : Flash) (p : List ℕ) (x : Service × Flash × Bool) : Type 0 where
    holds :
        x.2 ≡ true
        → (slot : Slot) × (i : Info) × (latest_held k x.0 x.1 ≡ some (slot, i)) × (i.payload ≡ p)
    keeps :
        (slot : Slot) (i : Info)
        → latest_held k s f ≡ some (slot, i)
        → k.content x.1 slot ≡ k.content f slot

  saved_first :
      (s : Service) (f : Flash) (r : Reads) (p : List ℕ)
      → s.raw_base_for_save ≡ false
      → latest_held k s f ≡ none
      → Kept s f p (saved k s f r none p)
  unfolding saved target_of next_generation
  saved_first s f r p raw e =
      let w = write_record-Written k isolated s f r slot_a 1 p in
      rw (base_of-none k s raw) (record {
        holds = λ d. (
          slot_a,
          info 1 p,
          latest_held-Written k s f slot_a 1 p _ w (inl (latest_held-none k s f e).1) d,
          refl,
        );
        keeps = λ slot i h. cc;
      })

  saved_next :
      (s : Service) (f : Flash) (r : Reads) (p : List ℕ) (slot : Slot) (i : Info)
      → s.raw_base_for_save ≡ false
      → latest_held k s f ≡ some (slot, i)
      → Kept s f p (saved k s f r (some (slot, i)) p)
  unfolding saved next_generation
  saved_next s f r p slot i raw e =
      let here = held-latest_held k s f slot i e in
      let lt = (held-lt-word k s f slot i here).1 in
      let w = write_record-Written k isolated s f r (other_slot slot) (add32 i.generation 1) p in
      elim (Bool-cases
        (covers s (some (slot, i)) && is_unchanged (read_slot k s f (r 2) slot) i p)) [
          | inl same ↦ rw same (record {
            holds = λ d. (
              slot,
              i,
              latest_held-IsAlike k s _ f (refl, refl) ∙ e,
              ap (λ (x : Info). x.payload)
                  (unchanged_payload k s f (r 2) slot i p here (ground arith)),
            );
            keeps = λ t j h. refl;
          })
          | inr new ↦
              rw (new, base_of-some k s slot i raw, target_of-some k slot i.generation)
                (record {
                  holds = λ d. (
                    other_slot slot,
                    info (add32 i.generation 1) p,
                    latest_held-Written k s f (other_slot slot) _ p _ w
                        (inr (i, rw (other_other k slot) here, lt, refl)) d,
                    refl,
                  );
                  keeps = λ t j h.
                      let q : t ≡ slot = slot_injective (sym h ∙ e) in
                      rw q (rw (other_other k slot) at w.apart);
                })
        ]

  saved-Kept :
      (s : Service) (f : Flash) (r : Reads) (p : List ℕ)
      → s.raw_base_for_save ≡ false
      → Kept s f p (saved k s f r (latest_held k s f) p)
  saved-Kept s f r p raw = elim (Option-cases (latest_held k s f)) [
    | inl e ↦ subst (λ c. Kept s f p (saved k s f r c p)) (sym e) (saved_first s f r p raw e)
    | inr ((slot, i), e) ↦
        subst (λ c. Kept s f p (saved k s f r c p)) (sym e) (saved_next s f r p slot i raw e)
  ]

  -- The two reads by which save() selects the current record are whole.
  pub record Selects (r : Reads) : Type 0 where
    pub first : r 0 ≡ true
    pub second : r 1 ≡ true

  refused-Kept : (s t : Service) (f : Flash) (p : List ℕ) → Kept s f p (t, f, false)
  refused-Kept s t f p = record { holds = λ d. cc; keeps = λ slot i h. refl }

  save-Kept :
      (s : Service) (f : Flash) (r : Reads) (overlaps : Bool) (p : List ℕ)
      → s.raw_base_for_save ≡ false
      → Selects r
      → Kept s f p (save k s f r overlaps p)
  unfolding save
  save-Kept s f r overlaps p raw w = elim (Bool-cases (not s.opened || overlaps)) [
    | inl bad ↦ rw bad (refused-Kept s _ f p)
    | inr fine ↦ elim (Bool-cases (not (s.format.validator p))) [
      | inl bad ↦ rw (fine, bad) (refused-Kept s _ f p)
      | inr good ↦ rw (fine, good, w.first, w.second) (saved-Kept s f r p raw)
    ]
  ]

  -- A payload that save() has reported as saved is the one that load() returns, by any backend that keeps
  -- its two keys apart, when the reads of save() that select the current record and those of load() are
  -- whole: a write that is short or garbled is never reported as saved, and neither is one that can not be
  -- read back. save() was not called by saveCurrentRaw.
  pub load-save :
      (s : Service) (f : Flash) (r q : Reads) (overlaps : Bool) (p : List ℕ)
      → s.raw_base_for_save ≡ false
      → Selects r
      → AreWhole k q
      → (save k s f r overlaps p).2 ≡ true
      → (load k (save k s f r overlaps p).0 (save k s f r overlaps p).1 q).1 ≡ some p
  load-save s f r q overlaps p raw w whole done =
      let (slot, i, e, same) = (save-Kept s f r overlaps p raw w).holds done in
      load-latest_held k _ _ q slot i whole e ∙ ap (λ x. some x) same

  -- However a save ends, also when the power fails in the write or the read that verifies fails, the slot of
  -- the current record is not touched, when the two reads that select it are whole; and where the other slot
  -- is left without a valid record, a load with whole reads still returns the payload that was current.
  -- save() was not called by saveCurrentRaw.
  pub save_keeps :
      (s : Service) (f : Flash) (r q : Reads) (overlaps : Bool) (p : List ℕ) (slot : Slot)
      (i : Info)
      → s.raw_base_for_save ≡ false
      → Selects r
      → AreWhole k q
      → latest_held k s f ≡ some (slot, i)
      → let g = (save k s f r overlaps p).1 in
        (k.content g slot ≡ k.content f slot)
        × (held k s g (other_slot slot) ≡ none → (load k s g q).1 ≡ some i.payload)
  save_keeps s f r q overlaps p slot i raw w whole e =
      let kept = (save-Kept s f r overlaps p raw w).keeps slot i e in
      (
        kept,
        λ torn.
            load-latest_held k s _ q slot i whole
              (alone s _ slot i (held-eq k s f _ slot kept ∙ held-latest_held k s f slot i e) torn),
      )
    where
      alone :
          (s : Service) (g : Flash) (slot : Slot) (i : Info)
          → held k s g slot ≡ some i
          → held k s g (other_slot slot) ≡ none
          → latest_held k s g ≡ some (slot, i)
      alone s g slot_a i here gone = unfold select_latest latest in rw (here, gone)
      alone s g slot_b i here gone = unfold select_latest latest in rw (here, gone)
