-- ===== src/Core/Storage/Raw.antt =====
-- begin(), loadLatestRaw and saveCurrentRaw of aquaOneCore/src/Config/StorageService.cpp, by which a
-- payload of an older schema is migrated.
use aqua_one.Base.{
  ℕ, ◌+◌, ◌-◌, Bool, true, false, not, ◌&&◌, ◌||◌, ◌==◌, ltb, if◌then◌else◌, List, length, Option,
  none, some, word,
}
use aqua_one.Core.Storage.Record.{Format, RawInfo, header_size, decode_raw}
use aqua_one.Core.Storage.{
  Slot, slot_a, slot_b, Backend, Reads, Service, is_generation_newer, refresh_status, clear_status,
  save, invalid_argument,
}

pub data RawResult : Type 0 where
  raw_success raw_invalid_argument raw_empty raw_no_valid_record raw_insufficient_capacity :
      RawResult

-- What configure() checks: the keys and the namespace, the validator and the buffer.
configurable : Bool → ℕ → Format → Bool
configurable names_given capacity c =
    not (c.payload_size == 0)
    && not (ltb (word - 1 - header_size) c.payload_size)
    && names_given
    && not (ltb capacity (header_size + c.payload_size))

module _ {Flash : Type 0} (k : Backend Flash) where
  -- begin(); `opens` is what the backend's begin() returns.
  unfoldable pub begin : Service → Flash → Reads → Bool → ℕ → Format → Bool → Service × Bool
  unfolding configurable clear_status
  begin s f r names_given capacity c opens =
      if not (configurable names_given capacity c)
      then (clear_status s, false)
      else (let t = record s { format = c } in
          if not t.opened && not opens
          then (clear_status t, false)
          else (refresh_status k (record t { opened = true }) f (r 0) (r 1), true))

  -- readRawSlot, with whether its read is whole.
  abbrev raw_at : ℕ → Flash → Bool → Slot → Option RawInfo
  raw_at capacity f whole slot = if whole then decode_raw capacity (k.content f slot) else none

  latest_raw : Option RawInfo → Option RawInfo → Option (Slot × RawInfo)
  latest_raw none none = none
  latest_raw none (some b) = some (slot_b, b)
  latest_raw (some a) none = some (slot_a, a)
  latest_raw (some a) (some b) =
      if is_generation_newer b.raw_generation a.raw_generation
      then some (slot_b, b)
      else some (slot_a, a)

  abbrev no_base : Service → Service
  no_base s = record s { raw_base_valid = false; raw_base_slot = none; raw_base_generation = 0 }

  -- The record that is read again is the one that is given.
  verified_raw : Service → Slot → Option RawInfo → Service × RawResult × Option RawInfo
  verified_raw s slot none = (s, raw_no_valid_record, none)
  verified_raw s slot (some v) = (
    record s {
      raw_base_valid = true;
      raw_base_slot = some slot;
      raw_base_generation = v.raw_generation;
    },
    raw_success,
    some v,
  )

  found_raw :
      Service
      → Flash
      → Reads
      → ℕ
      → Option (Slot × RawInfo)
      → Bool
      → ℕ
      → Service × RawResult × Option RawInfo
  unfolding verified_raw
  found_raw s f r capacity none any_present room =
      (s, if any_present then raw_no_valid_record else raw_empty, none)
  found_raw s f r capacity (some (slot, i)) any_present room =
      if ltb room i.raw_size
      then (s, raw_insufficient_capacity, none)
      else verified_raw s slot (raw_at capacity f (r 2) slot)

  -- loadLatestRaw into a buffer of `room` bytes; `capacity` is the work buffer's.
  unfoldable pub load_latest_raw :
      Service → Flash → Reads → ℕ → ℕ → Service × RawResult × Option RawInfo
  unfolding latest_raw found_raw
  load_latest_raw s f r capacity room =
      if not s.opened
      then (no_base s, raw_invalid_argument, none)
      else found_raw (no_base s) f r capacity
          (latest_raw (raw_at capacity f (r 0) slot_a) (raw_at capacity f (r 1) slot_b))
          (not (length (k.content f slot_a) == 0) || not (length (k.content f slot_b) == 0)) room

  -- saveCurrentRaw(schemaVersion, payload, payloadSize).
  unfoldable pub save_current_raw :
      Service → Flash → Reads → Bool → ℕ → List ℕ → Service × Flash × Bool
  save_current_raw s f r overlaps schema payload =
      let (t, g, done) =
        save k (record s { raw_base_for_save = s.raw_base_valid }) f r overlaps payload in
      if not (schema == s.format.schema_version) || not (length payload == s.format.payload_size)
      then (record s { last_save_result = invalid_argument }, f, false)
      else (record t { raw_base_for_save = false }, g, done)
