-- ===== src/Core/Storage/Total.antt =====
-- A save on a backend that stores what it is given succeeds.
use aqua_one.Base.{
  ℕ, ◌<◌, true, false, not, ◌&&◌, ◌==◌, ◌≡◌, sym, subst, Option, none, some, List, length, arith,
  word, Bool-cases, inl, inr,
}
use aqua_one.Core.Storage.Record.{Format, Info, encode, decode-encode, bytes_eq_refl}
use aqua_one.Core.Storage.{
  Slot, Backend, Reads, Service, read_slot, select_latest, write_record, is_unchanged, is_verified,
  saved, save, covers, next_generation,
}
use aqua_one.Core.Storage.Save.{info}

-- A write stores the whole blob and says so.
pub record IsComplete {Flash : Type 0} (k : Backend Flash) : Type 0 where
  pub stored :
      (f : Flash) (s : Slot) (bytes : List ℕ) → k.content (k.write_blob f s bytes).0 s ≡ bytes
  pub counted : (f : Flash) (s : Slot) (bytes : List ℕ) → (k.write_blob f s bytes).1 ≡ length bytes

-- What begin() has checked of the format, and a payload of its size.
pub record IsFit (c : Format) (p : List ℕ) : Type 0 where
  pub sized : length p ≡ c.payload_size
  pub small : c.payload_size < word
  pub schema : c.schema_version < 65536
  pub accepted : c.validator p ≡ true

verified_self : (g : ℕ) (p : List ℕ) → is_verified (some (info g p)) g p ≡ true
verified_self g p = ground (arith, bytes_eq_refl p)

next_generation-lt-word : (b : Option (Option Slot × ℕ)) → next_generation b < word
unfolding next_generation
next_generation-lt-word none = omega arith
next_generation-lt-word (some (s, g)) = omega arith

module _ {Flash : Type 0} (k : Backend Flash) (complete : IsComplete k) where
  held_again :
      (s : Service) (h : Flash) (t : Slot) (g : ℕ) (p : List ℕ)
      → s.opened ≡ true
      → g < word
      → IsFit s.format p
      → k.content h t ≡ encode s.format p g
      → read_slot k s h true t ≡ some (info g p)
  unfolding read_slot
  held_again s h t g p o lt fit e =
      rw e (cc (decode-encode s.format p g fit.sized fit.small fit.schema lt fit.accepted))

  write_record_total :
      (s : Service) (f : Flash) (r : Reads) (t : Slot) (g : ℕ) (p : List ℕ)
      → s.opened ≡ true
      → r 3 ≡ true
      → g < word
      → IsFit s.format p
      → (write_record k s f r t g p).2 ≡ true
  unfolding write_record
  write_record_total s f r t g p o whole lt fit =
      let bytes = encode s.format p g in
      let h = (k.write_blob f t bytes).0 in
      let full : not ((k.write_blob f t bytes).1 == length bytes) ≡ false =
        ground (arith, complete.counted f t bytes) in
      let good : is_verified (read_slot k s h true t) g p ≡ true =
        subst (λ o. is_verified o g p ≡ true)
          (sym (held_again s h t g p o lt fit (complete.stored f t bytes))) (verified_self g p) in
      rw (full, whole, good)

  saved_total :
      (s : Service) (f : Flash) (r : Reads) (c : Option (Slot × Info)) (p : List ℕ)
      → s.opened ≡ true
      → r 3 ≡ true
      → IsFit s.format p
      → (saved k s f r c p).2 ≡ true
  unfolding saved
  saved_total s f r none p o whole fit =
      write_record_total s f r _ _ p o whole (next_generation-lt-word _) fit
  saved_total s f r (some (slot, i)) p o whole fit =
      elim (Bool-cases
        (covers s (some (slot, i)) && is_unchanged (read_slot k s f (r 2) slot) i p)) [
          | inl same ↦ rw same
          | inr new ↦
              rw new (write_record_total s f r _ _ p o whole (next_generation-lt-word _) fit)
        ]

  -- On a backend that stores whole blobs, an open service saves every payload of its size that the
  -- validator accepts and that does not overlap the work buffer, when the read that verifies is whole:
  -- whatever the slots held, whatever raw base there is and whether the other reads fail.
  pub save_total :
      (s : Service) (f : Flash) (r : Reads) (p : List ℕ)
      → s.opened ≡ true
      → r 3 ≡ true
      → IsFit s.format p
      → (save k s f r false p).2 ≡ true
  unfolding save
  save_total s f r p o whole fit =
      let open_ : not s.opened ≡ false = ground arith in
      let fine : not (s.format.validator p) ≡ false = ground (arith, fit.accepted) in
      simp (open_, fine) (saved_total s f r (select_latest k s f (r 0) (r 1)) p o whole fit)
