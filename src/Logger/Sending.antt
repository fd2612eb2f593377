-- ===== src/Logger/Sending.antt =====
-- lib/Logger: `flush_logs` and `send_log_direct`, which put LOG frames on the radio. The mutex is released
-- while a frame is sent, so what is done before and after are two steps.
use bally_os.Base.{
  ℕ, zero, suc, ◌+◌, ◌-◌, ◌*◌, ◌%◌, Bool, true, false, not, ◌||◌, Option, none, some, List, ltb,
  leb, ◌==◌, if◌then◌else◌, length, take, drop, u16, u32, sub_u32,
}
use bally_os.Btp.{Btp}
use bally_os.Logger.Storage.{
  StoredLogHeader, no_header, header_size, read_header_at, read_from_ring,
}
use bally_os.Logger.{
  Logger, Port, Fragment, two_milliseconds, forever, wait_for_mutex, begin_consumer, end_consumer,
  capture_text,
}

-- The most octets of text in a frame: a sealed one has to leave room for the tag, of `kBtpAeadTagSize`
-- octets.
abbrev pub chunk_stride : Btp → ℕ → Option ℕ → ℕ
chunk_stride btp tag_size none = btp.espnow_max_payload_size
chunk_stride btp tag_size (some s) = btp.espnow_max_payload_size - tag_size

-- A piece of a record on its way to the radio.
pub record Chunk : Type 0 where
  pub header : StoredLogHeader
  pub octets : List ℕ
  pub first_chunk : Bool
  pub seal : Option ℕ

-- The next record becomes the one that is sent, if none is.
unfoldable pub activate : Logger → Bool × Logger
activate l =
    let (whole, header) = read_header_at l.ring l.send_offset l.pending_send_bytes l.send_header in
    if l.send_record_active
    then (true, l)
    else if whole
    then (
      true,
      record l { send_record_active = true; send_header = header; send_record_bytes_done = 0 },
    )
    else (false, record l { send_header = header })

-- The next piece of the record that is sent.
unfoldable pub chunk_of : Btp → ℕ → Logger → Chunk
chunk_of btp tag_size l =
    let stride = chunk_stride btp tag_size l.seal in
    let done = l.send_record_bytes_done in
    let remaining = sub_u32 l.send_header.payload_length done in
    let chunk_length = u16 (if ltb remaining stride then remaining else stride) in
    record {
      header = l.send_header;
      octets =
          read_from_ring l.ring (u32 (l.send_offset + header_size + done) % l.ring.capacity)
            chunk_length;
      first_chunk = done == 0;
      seal = l.seal;
    }

-- What `flush_logs` does with the mutex held before a frame.
unfoldable pub next_chunk : Btp → ℕ → Logger → Logger × Option Chunk
next_chunk btp tag_size l =
    let (ready, l') = activate l in
    if not l.storage_granted || l.pending_send_bytes == 0 || not l.endpoint_set
    then (l, none)
    else if ready
    then (l', some (chunk_of btp tag_size l'))
    else (l', none)

-- What it does with the mutex held after a frame of `chunk_length` octets has gone.
unfoldable pub finish_chunk : Logger → ℕ → Bool × Logger
finish_chunk l chunk_length =
    let done = u32 (l.send_record_bytes_done + chunk_length) in
    let record_size = header_size + l.send_header.payload_length in
    if not l.send_record_active
    then (false, l)
    else if leb l.send_header.payload_length done
    then (
      true,
      record l {
        send_offset = u32 (l.send_offset + record_size) % l.ring.capacity;
        pending_send_bytes = sub_u32 l.pending_send_bytes record_size;
        send_record_active = false;
        send_header = no_header;
        send_record_bytes_done = 0;
      },
    )
    else (true, record l { send_record_bytes_done = done })

abbrev pub fragment_of : Chunk → ℕ → Fragment
fragment_of c sequence = record {
  log_type = c.header.log_type;
  sequence = sequence;
  timestamp_us = c.header.timestamp_us;
  payload = c.octets;
  fragment_index = 0;
  fragment_count = 1;
  seal = c.seal;
}

module _ {W : Type 0} (p : Port W) where
  -- The sequence number of a piece: the record's own for the first one.
  abbrev pub sequence_for : Chunk → W → Option ℕ × W
  sequence_for c w = if c.first_chunk then (some c.header.sequence, w) else p.reserve_sequence w

  unfoldable pub send_chunk : Logger → Chunk → W → Bool × Logger × W
  send_chunk l c w =
      let (reserved, w1) = sequence_for c w in
      elim reserved [
        | none ↦ (false, l, w1)
        | some sequence ↦
            let (sent, w2) = p.send_fragment (fragment_of c sequence) w1 in
            let (taken, w3) = p.take_mutex forever w2 in
            let (more, l') = finish_chunk l (length c.octets) in
            if not sent then (false, l, w2) else if taken then (more, l', w3) else (false, l, w3)
      ]

module _ (btp : Btp) (tag_size : ℕ) {W : Type 0} (p : Port W) where
  -- A round of the loop of `flush_logs`: whether it goes on.
  unfoldable pub send_round : Logger → W → Bool × Logger × W
  send_round l w =
      let (taken, w1) = wait_for_mutex p l two_milliseconds w in
      let (l1, chunk) = next_chunk btp tag_size l in
      if not taken
      then (false, l, w1)
      else elim chunk [ none ↦ (false, l1, w1) | some c ↦ send_chunk p l1 c w1 ]

  unfoldable pub send_rounds : ℕ → Logger → W → Logger × W
  send_rounds zero l w = (l, w)
  send_rounds (suc n) l w =
      let (more, l', w') = send_round l w in
      elim more [ true ↦ send_rounds n l' w' | false ↦ (l', w') ]

  unfoldable pub flush_logs : Logger → W → Logger × W
  flush_logs l w =
      let (begun, l1, w1) = begin_consumer p l w in
      let (l2, w2) = send_rounds (u32 (l1.max_chunks_per_flush * l1.block_size)) l1 w1 in
      if begun then end_consumer p l2 w2 else (l1, w1)

  -- The loop of `send_log_direct` over what is left of the text; a round takes at least one octet, so that
  -- there are at most as many rounds as octets.
  unfoldable pub send_pieces : ℕ → List ℕ → ℕ → ℕ → Option ℕ → W → Bool × W
  send_pieces zero text log_type timestamp_us seal w = (length text == 0, w)
  send_pieces (suc n) text log_type timestamp_us seal w =
      let stride = chunk_stride btp tag_size seal in
      let (reserved, w1) = p.reserve_sequence w in
      elim (length text == 0) [
        | true ↦ (true, w)
        | false ↦ elim reserved [
          | none ↦ (false, w1)
          | some sequence ↦
              let (sent, w2) =
                p.send_fragment
                  (record {
                    log_type = log_type;
                    sequence = sequence;
                    timestamp_us = timestamp_us;
                    payload = take stride text;
                    fragment_index = 0;
                    fragment_count = 1;
                    seal = seal;
                  })
                  w1 in
              elim sent [
                | true ↦ send_pieces n (drop stride text) log_type timestamp_us seal w2
                | false ↦ (false, w2)
              ]
        ]
      ]

  unfoldable pub send_log_direct : Logger → ℕ → Option (List ℕ) → W → Bool × Logger × W
  send_log_direct l log_type none w = (false, l, w)
  send_log_direct l log_type (some text) w =
      let (taken, w1) = wait_for_mutex p l two_milliseconds w in
      let l' = capture_text p l text w1 in
      let (sent, w2) = send_pieces (length text) text log_type (p.now_us w1) l'.seal w1 in
      if length text == 0
      then (false, l, w)
      else if not taken
      then (false, l, w1)
      else if l'.endpoint_set
      then (sent, l', w2)
      else (false, l', w1)
