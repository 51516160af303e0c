-- ===== src/Core/Storage.antt =====
-- aquaOneCore/src/Config/StorageService.cpp: a payload kept in two slots, of which each save overwrites
-- the older. The backend is a parameter (`Backend`). A payload is the list of its bytes, and the work
-- buffer, which only ever holds the record that is read or written, is left out.
pub mod Record
pub mod Load
pub mod Save
pub mod Durable
pub mod Total
pub mod Raw
mod Examples
use aqua_one.Base.{
  ℕ, ◌+◌, ◌≤◌, ◌<◌, Bool, true, false, not, ◌&&◌, ◌||◌, ◌≡◌, ltb, leb, ◌==◌, if◌then◌else◌, List,
  [], ◌∷◌, length, Option, none, some, add32, elapsed,
}
use Record.{Format, Info, encode, decode, RawInfo, decode_raw, bytes_eq}

pub data Slot : Type 0 where
  slot_a slot_b : Slot

abbrev pub same_slot : Option Slot → Option Slot → Bool
same_slot none none = true
same_slot (some slot_a) (some slot_a) = true
same_slot (some slot_b) (some slot_b) = true
same_slot _ _ = false

abbrev pub other_slot : Slot → Slot
other_slot slot_a = slot_b
other_slot slot_b = slot_a

-- The StorageBackend after begin(): what a slot's key holds (nothing is an absent key, of blobLength 0), and
-- what a write leaves, with the count that it returns. Whether a read returns the whole blob is in `Reads`.
pub record Backend (Flash : Type 0) : Type 0 where
  pub content : Flash → Slot → List ℕ
  pub write_blob : Flash → Slot → List ℕ → Flash × ℕ

-- Whether the reads of a call return as many bytes as are asked of them, by their place in its code: a read
-- that does leaves the blob in the buffer, and any other one is refused.
abbrev pub Reads : Type 0
Reads = ℕ → Bool

-- A write, complete or torn, does not touch the other key.
pub record IsIsolated {Flash : Type 0} (k : Backend Flash) : Type 0 where
  pub apart :
      (f : Flash) (s : Slot) (bytes : List ℕ)
      → k.content (k.write_blob f s bytes).0 (other_slot s) ≡ k.content f (other_slot s)

pub data OperationResult : Type 0 where
  not_attempted success no_change failure invalid_argument validation_failure backend_failure
        verify_failure :
      OperationResult

pub record Service : Type 0 where
  pub format : Format
  pub opened : Bool
  pub has_valid_payload : Bool
  pub active_slot : Option Slot
  pub active_generation : ℕ
  pub last_load_result : OperationResult
  pub last_save_result : OperationResult
  pub raw_base_valid : Bool
  pub raw_base_slot : Option Slot
  pub raw_base_generation : ℕ
  pub raw_base_for_save : Bool

-- isGenerationNewer, on the wrapping difference.
unfoldable pub is_generation_newer : ℕ → ℕ → Bool
is_generation_newer candidate reference =
    let d = elapsed candidate reference in not (d == 0) && ltb d 2147483648

-- selectLatest's choice between what the slots hold.
unfoldable pub latest : Option Info → Option Info → Option (Slot × Info)
latest none none = none
latest none (some b) = some (slot_b, b)
latest (some a) none = some (slot_a, a)
latest (some a) (some b) =
    if is_generation_newer b.generation a.generation then some (slot_b, b) else some (slot_a, a)

clear_status : Service → Service
clear_status s = record s { has_valid_payload = false; active_slot = none; active_generation = 0 }

set_status : Service → Slot → ℕ → Service
set_status s slot generation = record s {
  has_valid_payload = true;
  active_slot = some slot;
  active_generation = generation;
}

set_raw_base : Service → Slot → ℕ → Service
set_raw_base s slot generation = record s {
  raw_base_valid = true;
  raw_base_slot = some slot;
  raw_base_generation = generation;
}

abbrev gen_of : Option (Slot × Info) → ℕ
gen_of none = 0
gen_of (some (slot, i)) = i.generation

abbrev slot_of : Option (Slot × Info) → Option Slot
slot_of none = none
slot_of (some (slot, i)) = some slot

abbrev exists : Option (Slot × Info) → Bool
exists none = false
exists (some _) = true

-- currentCoversRawBase.
unfoldable pub covers : Service → Option (Slot × Info) → Bool
unfolding is_generation_newer
covers s current =
    not s.raw_base_for_save
    || (same_slot (slot_of current) s.raw_base_slot && gen_of current == s.raw_base_generation)
    || is_generation_newer (gen_of current) s.raw_base_generation

-- What save() builds on: the current record or else the raw base, if there is either.
unfoldable pub base_of : Service → Option (Slot × Info) → Option (Option Slot × ℕ)
unfolding covers
base_of s current =
    if exists current && covers s current
    then some (slot_of current, gen_of current)
    else if s.raw_base_for_save && s.raw_base_valid
    then some (s.raw_base_slot, s.raw_base_generation)
    else none

unfoldable pub target_of : Option (Option Slot × ℕ) → Slot
target_of none = slot_a
target_of (some (slot, _)) = if same_slot slot (some slot_b) then slot_a else slot_b

unfoldable pub next_generation : Option (Option Slot × ℕ) → ℕ
next_generation none = 1
next_generation (some (_, generation)) = add32 generation 1

abbrev is_unchanged : Option Info → Info → List ℕ → Bool
is_unchanged none i payload = false
is_unchanged (some j) i payload = j.generation == i.generation && bytes_eq j.payload payload

abbrev is_verified : Option Info → ℕ → List ℕ → Bool
is_verified none generation payload = false
is_verified (some j) generation payload = j.generation == generation && bytes_eq j.payload payload

module _ {Flash : Type 0} (k : Backend Flash) where
  -- readSlot, with whether its read is whole.
  unfoldable pub read_slot : Service → Flash → Bool → Slot → Option Info
  read_slot s f whole slot = if s.opened && whole then decode s.format (k.content f slot) else none

  -- selectLatest, with its reads of the two slots.
  unfoldable pub select_latest : Service → Flash → Bool → Bool → Option (Slot × Info)
  select_latest s f a b = latest (read_slot s f a slot_a) (read_slot s f b slot_b)

  unfoldable pub refreshed : Service → Option (Slot × Info) → Service
  unfolding clear_status set_status
  refreshed s none = clear_status s
  refreshed s (some (slot, i)) = set_status s slot i.generation

  unfoldable pub refresh_status : Service → Flash → Bool → Bool → Service
  unfolding refreshed
  refresh_status s f a b = refreshed s (select_latest s f a b)

  unfoldable pub loaded : Service → Option (Slot × Info) → Flash → Reads → Service × Option (List ℕ)
  unfolding clear_status set_status
  loaded s none f r = (record (clear_status s) { last_load_result = failure }, none)
  loaded s (some (slot, i)) f r = elim (read_slot s f (r 2) slot) [
    | none ↦ (record (refresh_status s f (r 3) (r 4)) { last_load_result = failure }, none)
    | some v ↦
        (record (set_status s slot v.generation) { last_load_result = success }, some v.payload)
  ]

  -- load(payload) with room for the payload: reads 0 and 1 select the slot, read 2 is of the slot that was
  -- selected, and reads 3 and 4 are those of refreshStatus.
  unfoldable pub load : Service → Flash → Reads → Service × Option (List ℕ)
  unfolding loaded
  load s f r =
      if s.opened
      then loaded s (select_latest s f (r 0) (r 1)) f r
      else (record s { last_load_result = failure }, none)

  -- The part of save() from the write on: read 3 verifies, and reads 4 and 5 are those of refreshStatus.
  unfoldable pub write_record : Service → Flash → Reads → Slot → ℕ → List ℕ → Service × Flash × Bool
  unfolding set_status set_raw_base
  write_record s f r target generation payload =
      let bytes = encode s.format payload generation in
      let (g, written) = k.write_blob f target bytes in
      if not (written == length bytes)
      then (
        record (refresh_status s g (r 4) (r 5)) { last_save_result = backend_failure },
        g,
        false,
      )
      else if is_verified (read_slot s g (r 3) target) generation payload
      then (
        record (set_raw_base (set_status s target generation) target generation) {
          last_save_result = success;
        },
        g,
        true,
      )
      else (record (refresh_status s g (r 4) (r 5)) { last_save_result = verify_failure }, g, false)

  unfoldable pub saved :
      Service → Flash → Reads → Option (Slot × Info) → List ℕ → Service × Flash × Bool
  unfolding set_status set_raw_base base_of
  saved s f r none payload =
      let base = base_of s none in
      write_record s f r (target_of base) (next_generation base) payload
  saved s f r (some (slot, i)) payload =
      let base = base_of s (some (slot, i)) in
      if covers s (some (slot, i)) && is_unchanged (read_slot s f (r 2) slot) i payload
      then (
        record (set_raw_base (set_status s slot i.generation) slot i.generation) {
          last_save_result = no_change;
        },
        f,
        true,
      )
      else write_record s f r (target_of base) (next_generation base) payload

  -- save(payload); `overlaps` is payloadOverlapsWorkspace, on the addresses. Reads 0 and 1 select the
  -- current record, and read 2 is of it.
  unfoldable pub save : Service → Flash → Reads → Bool → List ℕ → Service × Flash × Bool
  unfolding saved
  save s f r overlaps payload =
      if not s.opened || overlaps
      then (record s { last_save_result = invalid_argument }, f, false)
      else if not (s.format.validator payload)
      then (record s { last_save_result = validation_failure }, f, false)
      else saved s f r (select_latest s f (r 0) (r 1)) payload
