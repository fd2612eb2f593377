-- ===== src/CommandProcessor/Examples.antt =====
-- Runs of lib/CommandProcessor, and its theorems at concrete inputs.
use bally_os.Base.{
  ℕ, ◌+◌, ◌≡◌, ◌≢◌, ◌<◌, ◌&&◌, ◌==◌, ap, subst, Bool, Option, List, refl, inr, true, false, some,
  none, [], ◌∷◌, codes, take, length-take, arith, u32, ltb, if◌then◌else◌,
}
use bally_os.Btp.{Header}
use bally_os.Channels.{b_endpoint, c_link}
use bally_os.CommandProcessor.Codec.{ResultView}
use bally_os.CommandProcessor.Sending.{Sends, send_result-Sends}
use bally_os.CommandProcessor.Intakes.{Runs, intake-Runs}
use bally_os.CommandProcessor.Replay.{IsOutside}
use bally_os.CommandProcessor.Retries.{Remembers, retries, same_result, complete-Replays}
use bally_os.CommandProcessor.Taking.{intake}
use bally_os.CommandProcessor.Reply.{complete, send_result, send_result_by}
use bally_os.CommandProcessor.{
  Outside, Processor, fresh, exhausted, DedupKey, DedupVerdict, duplicate_in_flight,
  duplicate_complete,
}

-- A cache that counts its requests, an endpoint that counts its frames, and numbers for seals.
abbrev toy : Outside ℕ ℕ ℕ
toy = record {
  command = 1;
  max_logical_request_size = 532;
  espnow_max_payload_size = 200;
  classify = λ d key payload. (if ltb d 16 then fresh d else exhausted, d + 1);
  record_result = λ d slot bytes. (true, d);
  reserve_sequence = λ e. (some (u32 (e + 1)), e + 1);
  encode_result = λ about status error message capacity. some (take capacity (7 ∷ message));
  parse_request = λ e h payload. none;
  copy_shell_command = λ payload. inr payload;
  send_fragment = λ e v seal. (true, e + 1);
}

toy-IsOutside : IsOutside toy
toy-IsOutside = record {
  sequence_lt = λ e n h. ground (arith, h);
  result_le = λ about status error message capacity payload h.
      ground (arith, h, length-take capacity (7 ∷ message));
}

abbrev processor : Processor ℕ ℕ
processor = record {
  bound = true;
  seal_link = some 5;
  seal_endpoint = none;
  cache_lock = false;
  dedup = 3;
  slot_meta = λ i. record {
    key = record { source_id = 0; boot_id = 0; sequence = 0 };
    action_id = 0;
    action_version = 0;
    channel = c_link;
  };
  accepted = 0;
  executed = 0;
  duplicates = 0;
  replayed = 0;
  rejections = 0;
  dropped = 0;
  unauthorized = 0;
}

abbrev request : Header
request = record {
  message_type = 1;
  object_id = 1;
  source_id = 9;
  boot_id = 8;
  sequence = 7;
  flags = 0;
  fragment_index = 0;
  fragment_count = 1;
}

abbrev unsent : ResultView
unsent = record { sequence = 4; timestamp_us = 70; payload = some (7 ∷ []); channel = b_endpoint }

-- The key of the robot is missing: nothing is sent.
send_result-Sends_example :
    Sends toy processor 0 true unsent (send_result toy processor 0 unsent)
    × Sends toy processor 0 true unsent (send_result_by toy processor 0 unsent)
send_result-Sends_example = send_result-Sends toy processor 0 unsent (λ e. cc)

intake-Runs_example :
    Runs toy processor 0 request
      (codes "led on")
      c_link
      (intake toy processor 0 request (some (codes "led on")) 5 c_link).2
unfolding intake
intake-Runs_example = intake-Runs toy processor 0 request (codes "led on") 5 c_link refl

-- A cache for one request, whose result it keeps.
abbrev OneRequest : Type 0
OneRequest = Option (DedupKey × Option (List ℕ))

abbrev same_key : DedupKey → DedupKey → Bool
same_key a b = a.source_id == b.source_id && a.boot_id == b.boot_id && a.sequence == b.sequence

abbrev verdict_of : Bool → Option (List ℕ) → DedupVerdict
verdict_of false stored = exhausted
verdict_of true none = duplicate_in_flight
verdict_of true (some stored) = duplicate_complete (some stored)

abbrev classify_one : OneRequest → DedupKey → List ℕ → DedupVerdict × OneRequest
classify_one none key payload = (fresh 0, some (key, none))
classify_one (some (k, stored)) key payload = (verdict_of (same_key k key) stored, some (k, stored))

abbrev record_one : OneRequest → ℕ → List ℕ → Bool × OneRequest
record_one none slot bytes = (false, none)
record_one (some (k, stored)) slot bytes = (true, some (k, some bytes))

abbrev remembering : Outside OneRequest ℕ ℕ
remembering = record {
  command = 1;
  max_logical_request_size = 532;
  espnow_max_payload_size = 200;
  classify = classify_one;
  record_result = record_one;
  reserve_sequence = λ e. (some (u32 (e + 1)), e + 1);
  encode_result = λ about status error message capacity. some (take capacity (7 ∷ message));
  parse_request = λ e h payload. none;
  copy_shell_command = λ payload. inr payload;
  send_fragment = λ e v seal. (true, e + 1);
}

remembering-IsOutside : IsOutside remembering
remembering-IsOutside = record {
  sequence_lt = λ e n h. ground (arith, h);
  result_le = λ about status error message capacity payload h.
      ground (arith, h, length-take capacity (7 ∷ message));
}

verdict_of-fresh :
    (same : Bool) (stored : Option (List ℕ)) (n : ℕ) → verdict_of same stored ≢ fresh n
verdict_of-fresh false stored n h = cc
verdict_of-fresh true none n h = cc
verdict_of-fresh true (some stored) n h = cc

same_key_self : (k : DedupKey) → same_key k k ≡ true
same_key_self k = ground arith

remembering-Remembers : Remembers remembering
remembering-Remembers = record { slot_lt = slot_lt; stores = stores; again = again }
  where
    slot_lt :
        (d : OneRequest) (key : DedupKey) (payload : List ℕ) (slot : ℕ)
        → (classify_one d key payload).0 ≡ fresh slot
        → slot < 16
    slot_lt none key payload slot h = let zero_slot : 0 ≡ slot = cc h in omega (arith, zero_slot)
    slot_lt (some (k, r)) key payload slot h = absurd (verdict_of-fresh (same_key k key) r slot h)

    stores :
        (d : OneRequest) (key : DedupKey) (payload : List ℕ) (slot : ℕ) (stored : List ℕ)
        (d' : OneRequest)
        → (classify_one d key payload).0 ≡ fresh slot
        → record_one (classify_one d key payload).1 slot stored ≡ (true, d')
        → (classify_one d' key payload).0 ≡ duplicate_complete (some stored)
    stores none key payload slot stored d' h r =
        subst
          (λ (z : Bool × OneRequest).
            (classify_one z.1 key payload).0 ≡ duplicate_complete (some stored))
          r (ap (λ b. verdict_of b (some stored)) (same_key_self key))
    stores (some (k, o)) key payload slot stored d' h r =
        absurd (verdict_of-fresh (same_key k key) o slot h)

    again :
        (d : OneRequest) (key : DedupKey) (payload : List ℕ) (stored : Option (List ℕ))
        → (classify_one d key payload).0 ≡ duplicate_complete stored
        → (classify_one (classify_one d key payload).1 key payload).0 ≡ duplicate_complete stored
    again none key payload stored h = cc
    again (some (k, o)) key payload stored h = h

abbrev fresh_processor : Processor OneRequest ℕ
fresh_processor = record {
  bound = true;
  seal_link = some 5;
  seal_endpoint = none;
  cache_lock = false;
  dedup = none;
  slot_meta = λ i. record {
    key = record { source_id = 0; boot_id = 0; sequence = 0 };
    action_id = 0;
    action_version = 0;
    channel = c_link;
  };
  accepted = 0;
  executed = 0;
  duplicates = 0;
  replayed = 0;
  rejections = 0;
  dropped = 0;
  unauthorized = 0;
}

abbrev shown : ResultView
shown = record { sequence = 1; timestamp_us = 70; payload = some (7 ∷ []); channel = c_link }

-- "led on" is run, and comes again by the link and by the other channel.
abbrev done : Processor OneRequest ℕ
done =
    let (taken, _, i) =
      intake remembering fresh_processor 0 request (some (codes "led on")) 5 c_link in
    (complete remembering taken 0 i.cache_slot 0 70 none).0

complete-Replays_example :
    ((retries remembering done 1 request (codes "led on") ((80, c_link) ∷ (90, b_endpoint) ∷ [])).1
      ≡ 1)
    × ((retries remembering done 1 request
          (codes "led on")
          ((80, c_link) ∷ (90, b_endpoint) ∷ [])).2
        ≡ same_result remembering shown ((80, c_link) ∷ (90, b_endpoint) ∷ []))
unfolding complete intake
complete-Replays_example =
    complete-Replays remembering remembering-IsOutside remembering-Remembers fresh_processor 0 0 1
      request (codes "led on") 5 c_link 0 70 none shown ((80, c_link) ∷ (90, b_endpoint) ∷ [])
      (omega arith) refl refl
