-- ===== src/TxScheduler/Examples.antt =====
-- Runs of lib/TxScheduler, and its theorems at concrete inputs.
use bally_os.Base.{
  ℕ, ◌≡◌, refl, inl, false, not, Option, none, some, List, [], ◌∷◌, ◌++◌, ◌==◌, get_or, u32,
}
use bally_os.Btp.{Btp, Header}
use bally_os.TxScheduler.Queue.{telemetry, capacity, push, pop_queue}
use bally_os.TxScheduler.Fifo.{contents}
use bally_os.TxScheduler.Enqueue.{TxOk, Enqueues, enqueue-Enqueues}
use bally_os.TxScheduler.Radio.{
  pop, pop_first, on_delivery, settle_early, transmit, resolve, start_next, pump, drain,
  pump_telemetry,
}
use bally_os.TxScheduler.Pump.{Starts, pump-Starts}
use bally_os.TxScheduler.History.{
  Call, configures, configures_telemetry, enqueues, pumps, step, run, offered, run-TxOk, run-total,
}
use bally_os.TxScheduler.Account.{total}
use bally_os.TxScheduler.Telemetry.{burst, Drains, pump_telemetry-Drains}
use bally_os.TxScheduler.{
  Tx, RadioSend, init, configure, configure_telemetry, classify, enqueue, enqueue_in, store,
  drop_in_class, drop_one,
}

-- A wire format with a type, an object and a sequence octet.
abbrev header_of : List ℕ → Option Header
header_of (t ∷ o ∷ n ∷ []) = some (record {
  message_type = t;
  object_id = o;
  source_id = 1;
  boot_id = 1;
  sequence = n;
  flags = 0;
  fragment_index = 0;
  fragment_count = 1;
})
header_of other = none

abbrev wire : Btp
wire = record {
  command = 1;
  control = 2;
  terminal = 3;
  log = 4;
  telemetry = 5;
  v1_minimum_frame_size = 2;
  espnow_max_frame_size = 4;
  espnow_max_payload_size = 4;
  decode = header_of;
}

-- A radio that writes down what it is given, and takes all but the octet 13.
abbrev radio : RadioSend (List (List ℕ))
radio w bytes size = record {
  took = not (get_or bytes 2 0 == 13);
  early = none;
  world = w ++ (bytes ∷ []);
}

abbrev result_frame : List ℕ
result_frame = 1 ∷ 2 ∷ 7 ∷ []

abbrev debug_frame : List ℕ
debug_frame = 9 ∷ 9 ∷ 8 ∷ []

abbrev bad_sample : List ℕ
bad_sample = 5 ∷ 1 ∷ 13 ∷ []

abbrev calls : List (Call (List (List ℕ)))
calls =
    configures (some radio) 0
    ∷ configures_telemetry (some radio)
    ∷ enqueues (some debug_frame)
    ∷ enqueues (some result_frame)
    ∷ enqueues none
    ∷ enqueues (some (5 ∷ 1 ∷ 1 ∷ []))
    ∷ enqueues (some bad_sample)
    ∷ enqueues (some (5 ∷ 1 ∷ 2 ∷ []))
    ∷ []

-- One frame for the radio of three classes.
loaded : Tx (List (List ℕ))
unfolding run step configure configure_telemetry enqueue enqueue_in store drop_in_class drop_one
    classify init push pop pop_first pop_queue pump resolve start_next transmit settle_early
    on_delivery drain pump_telemetry total burst
loaded = (run wire (init, []) calls).0

loaded-TxOk : TxOk loaded
unfolding loaded
loaded-TxOk = run-TxOk wire [] calls

most_urgent_first : (pump loaded 5 []).2 ≡ result_frame ∷ []
unfolding loaded
most_urgent_first = refl

telemetry_left : (pump_telemetry loaded []).2 ≡ (5 ∷ 1 ∷ 1 ∷ []) ∷ bad_sample ∷ []
unfolding loaded
telemetry_left = refl

result_header : Header
unfolding loaded
result_header = record {
  message_type = 1;
  object_id = 2;
  source_id = 1;
  boot_id = 1;
  sequence = 7;
  flags = 0;
  fragment_index = 0;
  fragment_count = 1;
}

enqueue-Enqueues_example :
    Enqueues wire loaded (some result_frame) (enqueue wire loaded (some result_frame))
enqueue-Enqueues_example = enqueue-Enqueues wire loaded (some result_frame) loaded-TxOk

pump-Starts_example : Starts (resolve loaded 5).0 radio 5 [] (pump loaded 5 [])
unfolding loaded
pump-Starts_example = pump-Starts loaded radio 5 [] loaded-TxOk refl (inl refl)

waiting : Tx (List (List ℕ))
unfolding loaded
waiting = (pump loaded 5 []).0

run-total_example :
    u32 (total (run wire (init, []) (calls ++ (pumps 5 ∷ []))).0)
    ≡ u32 (offered wire (calls ++ (pumps 5 ∷ [])))
run-total_example = run-total wire [] (calls ++ (pumps 5 ∷ []))

pump_telemetry-Drains_example :
    Drains radio loaded false
      (contents (capacity telemetry) (loaded.queues telemetry))
      []
      (pump_telemetry loaded [])
unfolding loaded
pump_telemetry-Drains_example = pump_telemetry-Drains loaded radio [] loaded-TxOk refl refl
