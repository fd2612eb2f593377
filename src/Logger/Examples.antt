-- ===== src/Logger/Examples.antt =====
-- Runs of lib/Logger with a small ring, and its theorems at concrete inputs.
use bally_os.Base.{
  ap, ℕ, ◌+◌, ◌≤◌, ◌≡◌, refl, Bool, true, false, none, some, List, [], ◌∷◌, ◌++◌, append-nil, arith,
  codes, replicate, length, sub_u32,
}
use bally_os.Btp.{Btp}
use bally_os.Logger.Storage.{
  StoredLogHeader, no_header, header_octets, header_of, read_header_at, read_from_ring,
}
use bally_os.CommandProcessor.Codec.{write_u64, write_u32, write_octets}
use bally_os.Logger.Records.{LogRecord, IsRecord, all_octets}
use bally_os.Logger.Retained.{Retains}
use bally_os.Logger.{Logger, Port}
use bally_os.Logger.Inserting.{insert_log}
use bally_os.Logger.Pending.{Pending, Sizes}
use bally_os.Logger.Inserted.{PortOk, insert_log-Pending}
use bally_os.Logger.Sending.{Chunk, next_chunk, finish_chunk, activate}
use bally_os.Logger.Sent.{IsNext}
use bally_os.Logger.Steps.{current_lem, Sends, next_chunk-Sends, finish_chunk-Sends}
use bally_os.Logger.Storing.{release_record, store_records}
use bally_os.Logger.Histories.{
  Reaches, stays, then_step, takes, finishes, inserts, IsIntact, reaches-IsIntact,
}
use bally_os.Logger.Stale.{release_record-stale}
use bally_os.Logger.Rounds.{store_list}
use bally_os.Logger.Cutting.{cut}
use bally_os.Logger.Flushed.{store_records-store_list, Leaves, store_records-Leaves}

abbrev espnow : Btp
espnow = record {
  command = 2;
  control = 1;
  terminal = 5;
  log = 3;
  telemetry = 4;
  v1_minimum_frame_size = 36;
  espnow_max_frame_size = 250;
  espnow_max_payload_size = 4;
  decode = λ frame. none;
}

espnow-Sizes : Sizes espnow
espnow-Sizes = record { some_room = omega arith; length_fits = omega arith }

-- The world counts the frames that are stored.
abbrev port : Port ℕ
port = record {
  take_mutex = λ wait w. (true, w);
  now_us = λ w. 1000;
  current_task = λ w. 1;
  reserve_sequence = λ w. (some 7, w);
  send_fragment = λ f w. (true, w);
  encode_fragment = λ f w. some f.payload;
}

abbrev keep_frame : List ℕ → ℕ → Bool × ℕ
keep_frame frame w = (true, w + 1)

port-PortOk : PortOk port
port-PortOk = record { time_fits = λ w. omega arith; sequence_fits = λ w s e. ground (arith, e) }

-- A ring of 64 octets that goes round its end with the second record.
abbrev empty_logger : Logger
empty_logger = record {
  storage_granted = true;
  ring = record {
    storage = replicate 64 0;
    capacity = 64;
    write_offset = 40;
    read_offset = 40;
    used_bytes = 0;
  };
  max_chunks_per_flush = 10;
  block_size = 16;
  send_offset = 40;
  pending_send_bytes = 0;
  send_record_active = false;
  send_header = no_header;
  send_record_bytes_done = 0;
  consumer_busy = false;
  capture = record { active = false; task = 0; buffer = [] };
  mutex_created = true;
  endpoint_set = true;
  seal = none;
  initialized = true;
  log_counter = 0;
  last_log_file = [];
}

empty-Pending : Pending empty_logger [] []
empty-Pending = record {
  retains = record {
    holds = record {
      free = replicate 64 0;
      turned = refl;
      sized = refl;
      small = omega arith;
      inside = omega arith;
      written = refl;
    };
    used = refl;
    sound = tt;
  };
  pending = refl;
  offset = refl;
  current = tt;
}

abbrev kept : List ℕ → ℕ → LogRecord
kept text len = record {
  header = record {
    timestamp_us = 1000;
    sequence = 7;
    payload_length = len;
    log_type = 1;
    reserved = 0;
  };
  payload = text;
}

abbrev first : LogRecord
first = kept (codes "first") 5

abbrev next : LogRecord
next = kept (codes "next") 4

insert_log-Pending_example :
    Pending (insert_log espnow port empty_logger 1 (some (codes "first")) 0).0 [] (first ∷ [])
insert_log-Pending_example =
    insert_log-Pending espnow espnow-Sizes port port-PortOk (codes "first") 1 0 (omega arith)
      empty-Pending

-- Both texts in the ring.
abbrev two_texts : Logger
two_texts = record empty_logger {
  ring = record {
    storage = all_octets (first ∷ next ∷ []) ++ replicate 23 0;
    capacity = 64;
    write_offset = 41;
    read_offset = 0;
    used_bytes = 41;
  };
  send_offset = 0;
  pending_send_bytes = 41;
}

first-IsRecord : IsRecord first
first-IsRecord = omega arith

next-IsRecord : IsRecord next
next-IsRecord = omega arith

two_texts-Retains : Retains two_texts.ring (first ∷ next ∷ [])
unfolding header_octets write_u64 write_u32 write_octets
two_texts-Retains = record {
  holds = record {
    free = replicate 23 0;
    turned = append-nil _;
    sized = refl;
    small = omega arith;
    inside = omega arith;
    written = refl;
  };
  used = refl;
  sound = (first-IsRecord, (next-IsRecord, tt));
}

two_texts-Pending : Pending two_texts [] (first ∷ next ∷ [])
unfolding header_octets write_u64 write_u32 write_octets
two_texts-Pending = record {
  retains = two_texts-Retains;
  pending = refl;
  offset = refl;
  current = tt;
}

-- The first frame of four octets of the first record.
begun : Logger
begun = (next_chunk espnow 16 two_texts).0

next_chunk-Sends_example :
    (c : Chunk) × ((next_chunk espnow 16 two_texts).1 ≡ some c)
    × IsNext espnow 16 none first 0 c
    × Sends begun [] first (next ∷ []) 0
unfolding begun
next_chunk-Sends_example =
    next_chunk-Sends espnow 16 two_texts [] first (next ∷ []) espnow-Sizes two_texts-Pending refl
      refl

begun-Sends : Sends begun [] first (next ∷ []) 0
unfolding begun
begun-Sends =
    (next_chunk-Sends espnow 16 two_texts [] first (next ∷ []) espnow-Sizes two_texts-Pending refl
      refl).3

begun_facts : (begun.storage_granted ≡ true) × (begun.endpoint_set ≡ true)
unfolding begun next_chunk activate read_header_at header_of read_from_ring header_octets write_u64
    write_u32
begun_facts = (refl, refl)

length-first : length (all_octets (first ∷ [])) ≤ 41
unfolding header_octets write_u64 write_u32 write_octets
length-first = omega arith

length-both : length (all_octets (first ∷ next ∷ [])) ≤ 41
unfolding header_octets write_u64 write_u32 write_octets
length-both = omega arith

-- Four of five octets are gone, so that the logger goes on with the record.
finish_chunk-Sends_example :
    ((finish_chunk begun 4).0 ≡ true) × Sends (finish_chunk begun 4).1 [] first (next ∷ []) 4
finish_chunk-Sends_example =
    finish_chunk-Sends begun [] first (next ∷ []) 0 4 begun-Sends (omega arith)

-- The card takes the first record between its two frames.
release_record-stale_example :
    Retains (release_record begun first.header).ring (next ∷ [])
    × ((c : Chunk) × ((next_chunk espnow 16 (release_record begun first.header)).1 ≡ some c)
        × (c.header ≡ first.header))
    × ((finish_chunk (release_record begun first.header) 5).1.pending_send_bytes
        ≡ sub_u32 (length (all_octets (next ∷ []))) 21)
release_record-stale_example =
    release_record-stale espnow 16 begun first next [] 0 begun-Sends begun_facts.0 begun_facts.1

store_records-store_list_example :
    store_records espnow port keep_frame 41 two_texts (length (all_octets (first ∷ next ∷ []))) 0
    ≡ store_list port keep_frame (cut espnow) two_texts (first ∷ next ∷ []) 0
store_records-store_list_example =
    store_records-store_list espnow port keep_frame espnow-Sizes 41 two_texts (first ∷ next ∷ []) []
      0 two_texts-Retains (omega arith, (omega arith, tt)) length-both

store_records-Leaves_example :
    Leaves
      (store_records espnow port keep_frame 41 two_texts (length (all_octets (first ∷ []))) 0).0
      (store_records espnow port keep_frame 41 two_texts (length (all_octets (first ∷ []))) 0).1
      (first ∷ [])
      (next ∷ [])
store_records-Leaves_example =
    store_records-Leaves espnow port keep_frame 41 two_texts (first ∷ []) (next ∷ []) 0 espnow-Sizes
      two_texts-Retains length-first

begun_left : begun.send_record_bytes_done + 4 ≤ begun.send_header.payload_length
begun_left =
    omega (arith, begun-Sends.at, ap StoredLogHeader.payload_length ((current_lem begun-Sends).0))

-- A piece of the first record is taken and goes, then a third text comes in.
abbrev ended : Logger
ended = (insert_log espnow port (finish_chunk begun 4).1 1 (some (codes "last")) 0).0

ended-Reaches : Reaches espnow port 16 two_texts ended
unfolding begun
ended-Reaches =
    then_step (then_step (then_step stays takes) (finishes 4 begun_left))
      (inserts (codes "last") 1 0 (omega arith))

reaches-IsIntact_example : IsIntact ended
reaches-IsIntact_example =
    reaches-IsIntact espnow espnow-Sizes port port-PortOk 16 ended-Reaches
      (record { sent = []; todo = first ∷ next ∷ []; pending = two_texts-Pending })
