-- ===== src/Logger/Records.antt =====
-- lib/Logger: a record of the ring, and its octets.
use bally_os.Base.{
  ℕ, ◌+◌, ◌*◌, ◌/◌, ◌^◌, ◌<◌, ◌≡◌, refl, sym, ap, ◌∙◌, List, [], ◌∷◌, ◌++◌, append_assoc, arith, u8,
  length, length-append,
}
use bally_os.CommandProcessor.Codec.{
  read_u32, read_u64, write_u32, write_u64, read_octets, write_octets, u32_lem, u64_lem,
}
use bally_os.Logger.Storage.{StoredLogHeader, header_octets, header_of, header_size}

pub record LogRecord : Type 0 where
  pub header : StoredLogHeader
  pub payload : List ℕ

pub record IsRecord (r : LogRecord) : Type 0 where
  pub filled : length r.payload ≡ r.header.payload_length
  pub not_empty : 0 < r.header.payload_length
  pub length_fits : r.header.payload_length < 2 ^ 16
  pub time_fits : r.header.timestamp_us < 2 ^ 64
  pub sequence_fits : r.header.sequence < 2 ^ 32
  pub type_fits : r.header.log_type < 2 ^ 8
  pub reserved_fits : r.header.reserved < 2 ^ 8

abbrev pub record_octets : LogRecord → List ℕ
record_octets r = header_octets r.header ++ r.payload

abbrev pub all_octets : List LogRecord → List ℕ
all_octets [] = []
all_octets (r ∷ rs) = record_octets r ++ all_octets rs

abbrev pub record_size : LogRecord → ℕ
record_size r = header_size + r.header.payload_length

pub length-header_octets : (h : StoredLogHeader) → length (header_octets h) ≡ header_size
unfolding header_octets write_u64 write_u32 write_octets
length-header_octets h = refl

pub length-record_octets : (r : LogRecord) → IsRecord r → length (record_octets r) ≡ record_size r
length-record_octets r ok =
    omega (arith, length-append (header_octets r.header) r.payload, length-header_octets r.header)

pub all_octets-append :
    (rs ss : List LogRecord) → all_octets (rs ++ ss) ≡ all_octets rs ++ all_octets ss
all_octets-append [] ss = refl
all_octets-append (r ∷ rs) ss =
    ap (λ z. record_octets r ++ z) (all_octets-append rs ss)
    ∙ sym (append_assoc (record_octets r) (all_octets rs) (all_octets ss))

pub length-all_octets-append :
    (rs ss : List LogRecord)
    → length (all_octets (rs ++ ss)) ≡ length (all_octets rs) + length (all_octets ss)
length-all_octets-append rs ss =
    ap (length {A = ℕ}) (all_octets-append rs ss) ∙ length-append (all_octets rs) (all_octets ss)

pub length-all_octets-cons :
    (r : LogRecord) (rs : List LogRecord)
    → IsRecord r
    → length (all_octets (r ∷ rs)) ≡ record_size r + length (all_octets rs)
length-all_octets-cons r rs ok =
    omega (arith, length-append (record_octets r) (all_octets rs), length-record_octets r ok)

u16_lem : (n : ℕ) → n < 2 ^ 16 → u8 n + u8 (n / 2 ^ 8) * 2 ^ 8 ≡ n
u16_lem n lt = omega arith

pub header_of-header_octets :
    (h : StoredLogHeader)
    → h.payload_length < 2 ^ 16
    → h.timestamp_us < 2 ^ 64
    → h.sequence < 2 ^ 32
    → h.log_type < 2 ^ 8
    → h.reserved < 2 ^ 8
    → header_of (header_octets h) ≡ h
unfolding header_of header_octets read_u64 read_u32 write_u64 write_u32 read_octets write_octets
header_of-header_octets h len time seq kind zeros = λ i. record {
  timestamp_us = u64_lem h.timestamp_us time i;
  sequence = u32_lem h.sequence seq i;
  payload_length = u16_lem h.payload_length len i;
  log_type = (let e : u8 h.log_type ≡ h.log_type = omega arith in e) i;
  reserved = (let e : u8 h.reserved ≡ h.reserved = omega arith in e) i;
}
