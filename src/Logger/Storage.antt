-- ===== src/Logger/Storage.antt =====
-- lib/Logger: the ring of octets in external memory that holds the records. `size_t` and `uint32_t` are
-- the same 32 bits on this processor. Memory that was not granted is the `none` of the logger's `storage`.
use bally_os.Base.{
  ℕ, ◌+◌, ◌-◌, ◌*◌, ◌/◌, ◌%◌, ◌^◌, Bool, false, ◌&&◌, List, [], ◌∷◌, ◌++◌, ltb, leb, ◌==◌,
  if◌then◌else◌, length, get_or, take, drop, u8, u32,
}
use bally_os.CommandProcessor.Codec.{read_u32, read_u64, write_u32, write_u64}

-- `StoredLogHeader`: 16 octets, least significant first.
pub record StoredLogHeader : Type 0 where
  pub timestamp_us : ℕ
  pub sequence : ℕ
  pub payload_length : ℕ
  pub log_type : ℕ
  pub reserved : ℕ

abbrev pub header_size : ℕ
header_size = 16

abbrev pub no_header : StoredLogHeader
no_header = record {
  timestamp_us = 0;
  sequence = 0;
  payload_length = 0;
  log_type = 0;
  reserved = 0;
}

-- The octets of a header in memory, and the header that 16 octets are.
unfoldable pub header_octets : StoredLogHeader → List ℕ
header_octets h =
    write_u64 h.timestamp_us
    ++ (write_u32 h.sequence
        ++ (u8 h.payload_length
            ∷ u8 (h.payload_length / 2 ^ 8)
            ∷ u8 h.log_type
            ∷ u8 h.reserved
            ∷ []))

unfoldable pub header_of : List ℕ → StoredLogHeader
header_of octets = record {
  timestamp_us = read_u64 octets 0;
  sequence = read_u32 octets 8;
  payload_length = get_or octets 12 0 + get_or octets 13 0 * 2 ^ 8;
  log_type = get_or octets 14 0;
  reserved = get_or octets 15 0;
}

pub record Ring : Type 0 where
  pub storage : List ℕ
  pub capacity : ℕ
  pub write_offset : ℕ
  pub read_offset : ℕ
  pub used_bytes : ℕ

-- `memcpy` of a text to an address of the storage.
unfoldable pub copy_to : List ℕ → ℕ → List ℕ → List ℕ
copy_to storage at source = take at storage ++ (source ++ drop (at + length source) storage)

unfoldable pub write_to_ring : Ring → List ℕ → Ring
write_to_ring r source =
    let len = length source in
    let contiguous = r.capacity - r.write_offset in
    let first = if ltb len contiguous then len else contiguous in
    let head = copy_to r.storage r.write_offset (take first source) in
    if len == 0 then r else record r {
      storage = if ltb first len then copy_to head 0 (drop first source) else head;
      write_offset = u32 (r.write_offset + len) % r.capacity;
    }

unfoldable pub read_from_ring : Ring → ℕ → ℕ → List ℕ
read_from_ring r offset len =
    let contiguous = r.capacity - offset in
    let first = if ltb len contiguous then len else contiguous in
    if len == 0
    then []
    else take first (drop offset r.storage)
      ++ (if ltb first len then take (len - first) r.storage else [])

-- Whether a whole record can be at an offset, among the octets that are available; `header` is what the
-- variable holds before, and is written as soon as there is room for a header.
unfoldable pub read_header_at : Ring → ℕ → ℕ → StoredLogHeader → Bool × StoredLogHeader
read_header_at r offset available header =
    let found = header_of (read_from_ring r offset header_size) in
    let record_size = header_size + found.payload_length in
    if ltb available header_size then (false, header) else (
      ltb 0 found.payload_length && leb record_size available && leb record_size r.capacity,
      found,
    )
