-- ===== src/Core/Storage/Examples.antt =====
-- Saves and loads on two keys in memory, with payloads of two bytes.
use aqua_one.Base.{ℕ, true, false, ◌≡◌, refl, List, [], ◌∷◌, ◌==◌, ltb, length, none, some, arith}
use aqua_one.Core.Storage.Record.{Format, encode, decode, crc32}
use aqua_one.Core.Storage.{
  Slot, slot_a, slot_b, Backend, IsIsolated, Reads, Service, not_attempted, select_latest,
  read_slot, latest, load, save, saved, write_record, covers, base_of, target_of, other_slot,
}
use aqua_one.Core.Storage.Durable.{load-save, save_keeps}
use aqua_one.Core.Storage.Total.{IsComplete, IsFit, save_total}

pub record Memory : Type 0 where
  pub a : List ℕ
  pub b : List ℕ

abbrev content : Memory → Slot → List ℕ
content m slot_a = m.a
content m slot_b = m.b

abbrev write_blob : Memory → Slot → List ℕ → Memory × ℕ
write_blob m slot_a bytes = (record m { a = bytes }, length bytes)
write_blob m slot_b bytes = (record m { b = bytes }, length bytes)

abbrev memory : Backend Memory
memory = record { content = content; write_blob = write_blob }

memory-IsIsolated : IsIsolated memory
memory-IsIsolated = record { apart = apart }
  where
    apart :
        (m : Memory) (s : Slot) (bytes : List ℕ)
        → content (write_blob m s bytes).0 (other_slot s) ≡ content m (other_slot s)
    apart m slot_a bytes = refl
    apart m slot_b bytes = refl

memory-IsComplete : IsComplete memory
memory-IsComplete = record { stored = stored; counted = counted }
  where
    stored : (m : Memory) (s : Slot) (bytes : List ℕ) → content (write_blob m s bytes).0 s ≡ bytes
    stored m slot_a bytes = refl
    stored m slot_b bytes = refl

    counted : (m : Memory) (s : Slot) (bytes : List ℕ) → (write_blob m s bytes).1 ≡ length bytes
    counted m slot_a bytes = refl
    counted m slot_b bytes = refl

abbrev format : Format
format = record { payload_size = 2; schema_version = 3; validator = λ p. true }

abbrev service : Service
service = record {
  format = format;
  opened = true;
  has_valid_payload = false;
  active_slot = none;
  active_generation = 0;
  last_load_result = not_attempted;
  last_save_result = not_attempted;
  raw_base_valid = false;
  raw_base_slot = none;
  raw_base_generation = 0;
  raw_base_for_save = false;
}

abbrev fresh : Memory
fresh = record { a = []; b = [] }

abbrev payload : List ℕ
payload = 7 ∷ 9 ∷ []

payload-IsFit : IsFit format payload
payload-IsFit = record { sized = refl; small = omega arith; schema = omega arith; accepted = refl }

-- The check value of CRC-32, of the text "123456789".
crc32_check : crc32 (49 ∷ 50 ∷ 51 ∷ 52 ∷ 53 ∷ 54 ∷ 55 ∷ 56 ∷ 57 ∷ []) ≡ 0xCBF43926
unfolding crc32
crc32_check = refl

-- Reads that are all whole, and those of which only the one that verifies is.
abbrev whole : Reads
whole = λ n. true

abbrev only_verifies : Reads
only_verifies = λ n. n == 3

save_total_example : (save memory service fresh only_verifies false payload).2 ≡ true
save_total_example =
    save_total memory memory-IsComplete service fresh only_verifies payload refl refl payload-IsFit

saved_fresh : (save memory service fresh whole false payload).2 ≡ true
saved_fresh =
    save_total memory memory-IsComplete service fresh whole payload refl refl payload-IsFit

load-save_example :
    (load memory
      (save memory service fresh whole false payload).0
      (save memory service fresh whole false payload).1
      whole).1
    ≡ some payload
load-save_example =
    load-save memory memory-IsIsolated service fresh whole whole false payload refl
      (record { first = refl; second = refl })
      (record { first = refl; second = refl; again = refl }) saved_fresh

-- The keys after a first save.
abbrev used : Memory
used = record { a = encode format payload 1; b = [] }

used_latest :
    select_latest memory service used true true
    ≡ some (slot_a, record { generation = 1; payload = payload })
unfolding select_latest read_slot latest encode decode crc32
used_latest = refl

-- A record that can not be read back is not reported as saved.
not_read_back : (save memory service used (λ n. ltb n 2) false (1 ∷ 2 ∷ [])).2 ≡ false
unfolding save saved write_record covers base_of target_of select_latest read_slot latest encode
    decode crc32
not_read_back = refl

save_keeps_example :
    let g = (save memory service used whole false (1 ∷ 2 ∷ [])).1 in
    (content g slot_a ≡ content used slot_a)
    × (read_slot memory service g true slot_b ≡ none
        → (load memory service g whole).1 ≡ some payload)
save_keeps_example =
    save_keeps memory memory-IsIsolated service used whole whole false (1 ∷ 2 ∷ []) slot_a
      (record { generation = 1; payload = payload }) refl (record { first = refl; second = refl })
      (record { first = refl; second = refl; again = refl }) used_latest
