-- ===== src/Logger/Inserting.antt =====
-- lib/Logger: `insert_log`, `insert_logf` and what they call. A text is a C string without its closing 0.
use bally_os.Base.{
  ℕ, ◌+◌, not, ◌||◌, Option, none, some, List, ltb, ◌==◌, if◌then◌else◌, length, take, u16, sub_u32,
}
use bally_os.Btp.{Btp}
use bally_os.Logger.Storage.{StoredLogHeader, header_size}
use bally_os.Logger.{Logger, Port, append_record, capture_text, with_mutex, max_logical_log_size}

-- The header that a record of a text gets.
abbrev pub header_for : Btp → ℕ → ℕ → ℕ → ℕ → StoredLogHeader
header_for btp len log_type timestamp_us sequence = record {
  timestamp_us = timestamp_us;
  sequence = sequence;
  payload_length =
      u16 (if ltb (max_logical_log_size btp) len then max_logical_log_size btp else len);
  log_type = log_type;
  reserved = 0;
}

module _ (btp : Btp) {W : Type 0} (p : Port W) where
  unfoldable pub insert_log_impl : Logger → List ℕ → ℕ → ℕ → W → Logger × W
  insert_log_impl l text log_type timestamp_us w =
      let len = length text in
      let header = header_for btp len log_type timestamp_us in
      let required = header_size + (header 0).payload_length in
      let (sequence, w') = p.reserve_sequence w in
      if len == 0 || not l.storage_granted || not l.endpoint_set
      then (l, w)
      else if ltb l.ring.capacity required
          || ltb (sub_u32 l.ring.capacity l.ring.used_bytes) required
      then (l, w)
      else elim sequence [ none ↦ (l, w') | some s ↦ (append_record l (header s) text, w') ]

  -- What both do with the mutex held.
  unfoldable pub insert_text : List ℕ → ℕ → Logger → W → Logger × W
  insert_text text log_type l w =
      let (l', w') = insert_log_impl l text log_type (p.now_us w) w in
      (capture_text p l' text w', w')

  -- A null pointer is no text.
  unfoldable pub insert_log : Logger → ℕ → Option (List ℕ) → W → Logger × W
  insert_log l log_type none w = (l, w)
  insert_log l log_type (some text) w = with_mutex p l (insert_text text log_type) w

  -- `formatted` is the whole text of the format; `vsnprintf` leaves at most 255 octets of it, or reports an
  -- error.
  unfoldable pub insert_logf : Logger → ℕ → Option (List ℕ) → W → Logger × W
  insert_logf l log_type formatted w =
      with_mutex p l
        (λ m w'. elim formatted [
          | none ↦ (m, w')
          | some text ↦
              if length text == 0 then (m, w') else insert_text (take 255 text) log_type m w'
        ])
        w
