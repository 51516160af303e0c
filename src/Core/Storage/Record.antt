-- ===== src/Core/Storage/Record.antt =====
-- aquaOneCore/src/Config/Crc32.cpp, aquaOneCore/include/AquaCore/Config/StorageRecord.h and the coding of a
-- record in aquaOneCore/src/Config/StorageService.cpp. A byte is a number below 256; the buffer is written
-- field by field in the order of its offsets, so it is the fields' bytes one after the other.
use Prim.Native.Nat.{bit_xor}
use aqua_one.Base.{
  ℕ, zero, suc, ◌+◌, ◌-◌, ◌*◌, ◌/◌, ◌%◌, ◌<◌, Bool, true, false, ◌&&◌, ◌≡◌, refl, ◌==◌, leb,
  if◌then◌else◌, List, [], ◌∷◌, ◌++◌, length, get_or, take, drop, Option, none, some, arith, word,
}

-- One step of the inner loop: the mask 0U - (crc & 1U) is all ones or zero.
crc_bit : ℕ → ℕ
crc_bit crc = bit_xor (crc / 2) (if crc % 2 == 1 then 0xEDB88320 else 0)

crc_bits : ℕ → ℕ → ℕ
crc_bits zero crc = crc
crc_bits (suc n) crc = crc_bits n (crc_bit crc)

crc_loop : List ℕ → ℕ → ℕ
crc_loop [] crc = crc
crc_loop (byte ∷ bytes) crc = crc_loop bytes (crc_bits 8 (bit_xor crc byte))

-- crc32 of bytes that are there; the result is a uint32_t.
unfoldable pub crc32 : List ℕ → ℕ
unfolding crc_loop crc_bits crc_bit
crc32 bytes = bit_xor (crc_loop bytes 0xFFFFFFFF) 0xFFFFFFFF % word

pub crc32-lt-word : (bytes : List ℕ) → crc32 bytes < word
unfolding crc32
crc32-lt-word bytes = omega arith

abbrev magic : ℕ
magic = 0x4C534346

abbrev format_version : ℕ
format_version = 1

abbrev pub header_size : ℕ
header_size = 24

-- readUint16 and readUint32, little-endian.
read_u16 : List ℕ → ℕ → ℕ
read_u16 bytes at = (get_or bytes at 0 + get_or bytes (at + 1) 0 * 256) % 65536

read_u32 : List ℕ → ℕ → ℕ
read_u32 bytes at =
    (get_or bytes at 0
      + get_or bytes (at + 1) 0 * 256
      + get_or bytes (at + 2) 0 * 65536
      + get_or bytes (at + 3) 0 * 16777216)
    % word

write_u16 : ℕ → List ℕ
write_u16 v = v % 256 ∷ v / 256 % 256 ∷ []

write_u32 : ℕ → List ℕ
write_u32 v = v % 256 ∷ v / 256 % 256 ∷ v / 65536 % 256 ∷ v / 16777216 % 256 ∷ []

-- What begin() configures of the records.
pub record Format : Type 0 where
  pub payload_size : ℕ
  pub schema_version : ℕ
  pub validator : List ℕ → Bool

pub record Info : Type 0 where
  pub generation : ℕ
  pub payload : List ℕ

head_bytes : Format → List ℕ → ℕ → List ℕ
unfolding write_u16 write_u32
head_bytes c payload generation =
    write_u32 magic
    ++ write_u16 format_version
    ++ write_u16 c.schema_version
    ++ write_u32 c.payload_size
    ++ write_u32 generation
    ++ write_u32 (crc32 payload)

-- The record that save() writes.
unfoldable pub encode : Format → List ℕ → ℕ → List ℕ
unfolding head_bytes write_u32
encode c payload generation =
    let head = head_bytes c payload generation in head ++ write_u32 (crc32 head) ++ payload

-- The tests of readSlot on the bytes that a slot holds.
is_record : Format → List ℕ → Bool
unfolding read_u16 read_u32
is_record c bytes =
    length bytes == header_size + c.payload_size
    && read_u32 bytes 0 == magic
    && read_u16 bytes 4 == format_version
    && read_u16 bytes 6 == c.schema_version
    && read_u32 bytes 8 == c.payload_size
    && crc32 (take 20 bytes) == read_u32 bytes 20
    && crc32 (drop header_size bytes) == read_u32 bytes 16
    && c.validator (drop header_size bytes)

unfoldable pub decode : Format → List ℕ → Option Info
unfolding is_record
decode c bytes =
    if is_record c bytes
    then some (record { generation = read_u32 bytes 12; payload = drop header_size bytes })
    else none

pub record RawInfo : Type 0 where
  pub schema_version : ℕ
  pub raw_size : ℕ
  pub raw_generation : ℕ
  pub raw_payload : List ℕ

-- readRawSlot: a record of any schema and size that fits the buffer, not validated.
is_raw_record : ℕ → List ℕ → Bool
unfolding read_u16 read_u32
is_raw_record capacity bytes =
    leb header_size (length bytes)
    && leb (length bytes) capacity
    && read_u32 bytes 0 == magic
    && read_u16 bytes 4 == format_version
    && crc32 (take 20 bytes) == read_u32 bytes 20
    && leb (read_u32 bytes 8) (word - 1 - header_size)
    && header_size + read_u32 bytes 8 == length bytes
    && crc32 (drop header_size bytes) == read_u32 bytes 16

unfoldable pub decode_raw : ℕ → List ℕ → Option RawInfo
unfolding is_raw_record
decode_raw capacity bytes =
    if is_raw_record capacity bytes
    then some (record {
      schema_version = read_u16 bytes 6;
      raw_size = read_u32 bytes 8;
      raw_generation = read_u32 bytes 12;
      raw_payload = drop header_size bytes;
    })
    else none

-- memcmp(...) == 0 on blocks of one size.
unfoldable pub bytes_eq : List ℕ → List ℕ → Bool
bytes_eq [] [] = true
bytes_eq [] (y ∷ ys) = false
bytes_eq (x ∷ xs) [] = false
bytes_eq (x ∷ xs) (y ∷ ys) = x == y && bytes_eq xs ys

pub bytes_eq_sound : (xs ys : List ℕ) → bytes_eq xs ys ≡ true → xs ≡ ys
unfolding bytes_eq
bytes_eq_sound [] [] h = refl
bytes_eq_sound [] (y ∷ ys) h = cc
bytes_eq_sound (x ∷ xs) [] h = cc
bytes_eq_sound (x ∷ xs) (y ∷ ys) h = ground (arith, bytes_eq_sound xs ys)

pub bytes_eq_refl : (xs : List ℕ) → bytes_eq xs xs ≡ true
unfolding bytes_eq
bytes_eq_refl [] = refl
bytes_eq_refl (x ∷ xs) = ground (arith, bytes_eq_refl xs)

-- A record that is written is read back: any payload that the validator accepts, with its generation.
pub decode-encode :
    (c : Format) (payload : List ℕ) (generation : ℕ)
    → length payload ≡ c.payload_size
    → c.payload_size < word
    → c.schema_version < 65536
    → generation < word
    → c.validator payload ≡ true
    → decode c (encode c payload generation)
      ≡ some (record { generation = generation; payload = payload })
unfolding decode encode
decode-encode c payload generation l w s g v =
    ground (arith, crc32-lt-word payload, crc32-lt-word (head_bytes c payload generation))

-- A generation that is read is a uint32_t.
pub decode-lt-word :
    (c : Format) (bytes : List ℕ) {i : Info} → decode c bytes ≡ some i → i.generation < word
unfolding decode
decode-lt-word c bytes h = ground arith
