-- ===== src/Logger.antt =====
-- lib/Logger: the log that is kept in external memory. A record of text waits there for the card, and a
-- second cursor over the same records says what is still to go to the radio. The mutex, the clock, the tasks
-- and the endpoint are the record `Port` over a world `W`.
pub mod Storage
pub mod Turning
pub mod Copying
pub mod Records
pub mod Inserting
pub mod Sending
pub mod Storing
pub mod Holding
pub mod Retained
pub mod Pending
pub mod Inserted
pub mod Sent
pub mod Steps
pub mod Releasing
pub mod Stored
pub mod Histories
pub mod Cutting
pub mod Rounds
pub mod Flushed
pub mod Files
pub mod Naming
mod Examples
pub mod Stale
use bally_os.Base.{
  ℕ, ◌+◌, ◌-◌, ◌*◌, Bool, true, false, not, ◌||◌, Option, none, some, List, [], ◌∷◌, ◌++◌, ltb, leb,
  ◌==◌, if◌then◌else◌, length, take, u16, u32, sub_u32,
}
use bally_os.Btp.{Btp}
use Storage.{Ring, StoredLogHeader, no_header, header_size, header_octets, write_to_ring}

-- How long a task waits for the mutex.
pub data Wait : Type 0 where
  two_milliseconds forever : Wait

-- A LOG fragment for the endpoint. A sealer and its context are known by a number.
pub record Fragment : Type 0 where
  pub log_type : ℕ
  pub sequence : ℕ
  pub timestamp_us : ℕ
  pub payload : List ℕ
  pub fragment_index : ℕ
  pub fragment_count : ℕ
  pub seal : Option ℕ

-- The kernel and the BTP endpoint.
pub record Port (W : Type 0) : Type 0 where
  pub take_mutex : Wait → W → Bool × W
  pub now_us : W → ℕ
  pub current_task : W → ℕ
  pub reserve_sequence : W → Option ℕ × W
  pub send_fragment : Fragment → W → Bool × W
  pub encode_fragment : Fragment → W → Option (List ℕ)

pub record Capture : Type 0 where
  pub active : Bool
  pub task : ℕ
  pub buffer : List ℕ

abbrev pub no_capture : Capture
no_capture = record { active = false; task = 0; buffer = [] }

pub record Logger : Type 0 where
  pub storage_granted : Bool
  pub ring : Ring
  pub max_chunks_per_flush : ℕ
  pub block_size : ℕ
  pub send_offset : ℕ
  pub pending_send_bytes : ℕ
  pub send_record_active : Bool
  pub send_header : StoredLogHeader
  pub send_record_bytes_done : ℕ
  pub consumer_busy : Bool
  pub capture : Capture
  pub mutex_created : Bool
  pub endpoint_set : Bool
  pub seal : Option ℕ
  pub initialized : Bool
  pub log_counter : ℕ
  pub last_log_file : List ℕ

-- `LOGGER_PSRAM_CAPACITY_BYTES` and `kCaptureCapacity`.
abbrev pub psram_capacity : ℕ
psram_capacity = 7440000

abbrev pub capture_capacity : ℕ
capture_capacity = 4096

-- The constructor, with the memory that the allocator gives.
unfoldable pub init : Option (List ℕ) → Logger
init memory = record {
  storage_granted = elim memory [ none ↦ false | some octets ↦ true ];
  ring = record {
    storage = elim memory [ none ↦ [] | some octets ↦ octets ];
    capacity = psram_capacity;
    write_offset = 0;
    read_offset = 0;
    used_bytes = 0;
  };
  max_chunks_per_flush = 10;
  block_size = 16;
  send_offset = 0;
  pending_send_bytes = 0;
  send_record_active = false;
  send_header = no_header;
  send_record_bytes_done = 0;
  consumer_busy = false;
  capture = no_capture;
  mutex_created = false;
  endpoint_set = false;
  seal = none;
  initialized = false;
  log_counter = 0;
  last_log_file = [];
}

-- `created`: whether the kernel has memory for the mutex.
unfoldable pub begin : Logger → Bool → Logger
begin l created =
    if l.initialized
    then l
    else record l { initialized = true; mutex_created = l.mutex_created || created }

unfoldable pub clear_ring : Logger → Logger
clear_ring l = record l {
  ring = record (l.ring) { write_offset = 0; read_offset = 0; used_bytes = 0 };
  send_offset = 0;
  pending_send_bytes = 0;
  send_record_active = false;
  send_header = no_header;
  send_record_bytes_done = 0;
  consumer_busy = false;
}

-- `kMaxLogicalLogSize`.
abbrev pub max_logical_log_size : Btp → ℕ
max_logical_log_size btp = btp.espnow_max_payload_size * 255

-- The end of `insert_log_impl`: the record goes to the ring.
unfoldable pub append_record : Logger → StoredLogHeader → List ℕ → Logger
append_record l header data_octets =
    let ring =
      write_to_ring (write_to_ring l.ring (header_octets header))
        (take header.payload_length data_octets) in
    let required = header_size + header.payload_length in
    record l {
      ring = record ring { used_bytes = u32 (ring.used_bytes + required) };
      pending_send_bytes = u32 (l.pending_send_bytes + required);
    }

module _ {W : Type 0} (p : Port W) where
  -- A take of a mutex that may not be there yet.
  abbrev pub wait_for_mutex : Logger → Wait → W → Bool × W
  wait_for_mutex l wait w = if l.mutex_created then p.take_mutex wait w else (false, w)

  -- A change that is made if the mutex is had within two milliseconds.
  abbrev pub with_mutex : Logger → (Logger → W → Logger × W) → W → Logger × W
  with_mutex l change w =
      let (taken, w') = wait_for_mutex l two_milliseconds w in
      if taken then change l w' else (l, w')

  unfoldable pub configure_btp : Logger → Option ℕ → W → Logger × W
  configure_btp l seal = with_mutex l (λ m w. (record m { endpoint_set = true; seal = seal }, w))

  unfoldable pub set_flush_limits : Logger → ℕ → ℕ → W → Logger × W
  set_flush_limits l max_chunks_per_flush block_size = with_mutex l (λ m w.
      (record m { max_chunks_per_flush = max_chunks_per_flush; block_size = block_size }, w))

  unfoldable pub reset_loop_counter : Logger → W → Logger × W
  reset_loop_counter l = with_mutex l (λ m w. (clear_ring m, w))

  unfoldable pub begin_consumer : Logger → W → Bool × Logger × W
  begin_consumer l w =
      let (taken, w') = wait_for_mutex l two_milliseconds w in
      if not taken || l.consumer_busy
      then (false, l, w')
      else (true, record l { consumer_busy = true }, w')

  unfoldable pub end_consumer : Logger → W → Logger × W
  end_consumer l w =
      let (taken, w') = wait_for_mutex l forever w in
      if taken then (record l { consumer_busy = false }, w') else (l, w')

  -- With the mutex held, by the task that runs.
  unfoldable pub capture_text : Logger → List ℕ → W → Logger
  capture_text l text w =
      let c = l.capture in
      let room = capture_capacity - length c.buffer in
      if not c.active
        || length text == 0
        || not (p.current_task w == c.task)
        || leb capture_capacity (length c.buffer)
      then l
      else record l {
        capture = record c {
          buffer =
              c.buffer
              ++ take (if ltb room (length text) then room else length text) text
              ++ (10 ∷ []);
        };
      }

  unfoldable pub begin_capture : Logger → ℕ → W → Logger × W
  begin_capture l task =
      with_mutex l
        (λ m w. (record m { capture = record { active = true; task = task; buffer = [] } }, w))

  unfoldable pub end_capture : Logger → W → Logger × List ℕ × W
  end_capture l w =
      let (taken, w') = wait_for_mutex l two_milliseconds w in
      if taken then (record l { capture = no_capture }, l.capture.buffer, w') else (l, [], w')
