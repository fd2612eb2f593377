-- ===== src/Logger/Storing.antt =====
-- lib/Logger: `flush_logs_to`, which stores the records through a callback and releases them.
use bally_os.Base.{
  ℕ, zero, suc, ◌+◌, ◌-◌, ◌*◌, ◌/◌, ◌%◌, Bool, true, false, not, Option, none, some, List, ltb,
  ◌==◌, if◌then◌else◌, u8, u16, u32, sub_u32,
}
use bally_os.Btp.{Btp}
use bally_os.Logger.Storage.{
  StoredLogHeader, no_header, header_size, read_header_at, read_from_ring,
}
use bally_os.Logger.{Logger, Port, Fragment, forever, begin_consumer, end_consumer}

-- The fragments of a record in its file.
abbrev pub fragment_count : Btp → ℕ → ℕ
fragment_count btp len = u8 ((len + btp.espnow_max_payload_size - 1) / btp.espnow_max_payload_size)

-- A fragment of the record at an offset.
unfoldable pub stored_fragment : Btp → Logger → ℕ → StoredLogHeader → ℕ → Fragment
stored_fragment btp l record_offset header packet =
    let payload_offset = packet * btp.espnow_max_payload_size in
    let remaining = sub_u32 header.payload_length payload_offset in
    let fragment_length = u16 (
      if ltb remaining btp.espnow_max_payload_size
      then remaining
      else btp.espnow_max_payload_size) in
    record {
      log_type = header.log_type;
      sequence = header.sequence;
      timestamp_us = header.timestamp_us;
      payload =
          read_from_ring l.ring
            (u32 (record_offset + header_size + payload_offset) % l.ring.capacity) fragment_length;
      fragment_index = packet;
      fragment_count = fragment_count btp header.payload_length;
      seal = none;
    }

-- What is done with the mutex held when a record has been stored. A record that is still to go to the
-- radio leaves both ranges.
unfoldable pub release_record : Logger → StoredLogHeader → Logger
release_record l header =
    let record_size = header_size + header.payload_length in
    let both = l.pending_send_bytes == l.ring.used_bytes in
    record l {
      send_offset =
          if both then u32 (l.send_offset + record_size) % l.ring.capacity else l.send_offset;
      pending_send_bytes =
          if both then sub_u32 l.pending_send_bytes record_size else l.pending_send_bytes;
      ring = record (l.ring) {
        read_offset = u32 (l.ring.read_offset + record_size) % l.ring.capacity;
        used_bytes = sub_u32 l.ring.used_bytes record_size;
      };
    }

module _ {W : Type 0} (p : Port W) (callback : List ℕ → W → Bool × W) where
  -- A frame for the callback; without an endpoint, or if it cannot be encoded, nothing is stored.
  unfoldable pub store_fragment : Logger → Fragment → W → Bool × W
  store_fragment l f w = elim (if l.endpoint_set then p.encode_fragment f w else none) [
    | none ↦ (false, w)
    | some frame ↦ callback frame w
  ]

module _ (btp : Btp) {W : Type 0} (p : Port W) (callback : List ℕ → W → Bool × W) where
  -- The loop over the fragments of a record, from `packet` on, for `left` of them.
  unfoldable pub store_fragments : Logger → ℕ → StoredLogHeader → ℕ → ℕ → W → Bool × W
  store_fragments l record_offset header packet zero w = (true, w)
  store_fragments l record_offset header packet (suc left) w =
      let (taken, w1) = p.take_mutex forever w in
      let (stored, w2) =
        store_fragment p callback l (stored_fragment btp l record_offset header packet) w1 in
      elim taken [
        | false ↦ (false, w1)
        | true ↦ elim stored [
          | false ↦ (false, w2)
          | true ↦ store_fragments l record_offset header (packet + 1) left w2
        ]
      ]

  -- A round of the loop over the records that the flush began with: whether it succeeded, and the octets
  -- that remain.
  unfoldable pub store_record : Logger → ℕ → W → Bool × Logger × ℕ × W
  store_record l remaining w =
      let (taken, w1) = p.take_mutex forever w in
      let (whole, header) = read_header_at l.ring l.ring.read_offset remaining no_header in
      let count = fragment_count btp header.payload_length in
      let (stored, w2) = store_fragments l l.ring.read_offset header 0 count w1 in
      let (again, w3) = p.take_mutex forever w2 in
      if not taken
      then (false, l, remaining, w1)
      else if not whole
      then (false, l, remaining, w1)
      else if not stored
      then (false, l, remaining, w2)
      else if not again
      then (false, l, remaining, w3)
      else (
        true,
        release_record l header,
        sub_u32 remaining (header_size + header.payload_length),
        w3,
      )

  -- The loop. The first argument bounds its rounds; each one releases a header and at least one octet.
  unfoldable pub store_records : ℕ → Logger → ℕ → W → Bool × Logger × W
  store_records zero l remaining w = (remaining == 0, l, w)
  store_records (suc n) l remaining w =
      let (success, l', remaining', w') = store_record l remaining w in
      elim (remaining == 0) [
        | true ↦ (true, l, w)
        | false ↦ elim success [ true ↦ store_records n l' remaining' w' | false ↦ (false, l', w') ]
      ]

  unfoldable pub flush_snapshot : Logger → W → Bool × Logger × W
  flush_snapshot l w =
      let (taken, w1) = p.take_mutex forever w in
      let (success, l2, w2) = store_records l.ring.used_bytes l l.ring.used_bytes w1 in
      let (l3, w3) = end_consumer p l2 w2 in
      let (l4, w4) = end_consumer p l w1 in if taken then (success, l3, w3) else (false, l4, w4)

-- A null callback stores nothing.
unfoldable pub flush_logs_to :
    {W : Type 0} → Btp → Port W → Logger → Option (List ℕ → W → Bool × W) → W → Bool × Logger × W
flush_logs_to btp p l none w = (false, l, w)
flush_logs_to btp p l (some callback) w =
    let (begun, l1, w1) = begin_consumer p l w in
    if begun then flush_snapshot btp p callback l1 w1 else (false, l1, w1)
