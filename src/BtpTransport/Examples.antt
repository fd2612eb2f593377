-- ===== src/BtpTransport/Examples.antt =====
-- Runs of lib/BtpTransport, and its theorems at concrete inputs.
use bally_os.Base.{
  ℕ, ◌+◌, ◌≡◌, ◌⊎◌, ◌↔◌, inl, inr, refl, true, false, none, some, List, [], ◌∷◌, ◌++◌, codes,
  length, replicate, leb, ltb, ◌==◌, if◌then◌else◌, u32, take,
}
use bally_os.Btp.{Header}
use bally_os.Channels.{c_link}
use bally_os.CommandProcessor.{Outside, Processor, fresh, exhausted}
use bally_os.CommandProcessor.Taking.{intake}
use bally_os.CommandProcessor.Intakes.{key_of}
use bally_os.BtpTransport.{
  MessageError, RequestView, too_short, parse_request, copy_shell_command, is_forbidden,
  has_forbidden, is_envelope, check_request,
}
use bally_os.BtpTransport.Requests.{IsCommand, IsForUs, parse_request_iff}
use bally_os.BtpTransport.Intake.{over_transport, ShellCommand, intake-ShellCommand}
use bally_os.BtpTransport.Busy.{
  Library, feed, first_answer, answer_frame, reject, frame_reply, framed, busy_payload,
}
use bally_os.BtpTransport.Rejection.{Rejects, feed-Rejects}

-- A decoder for a layout of two ids and a text.
abbrev decode : List ℕ → MessageError ⊎ RequestView
decode [] = inl too_short
decode (s ∷ []) = inl too_short
decode (s ∷ b ∷ text) = inr (record {
  target_source_id = s;
  target_boot_id = b;
  action_id = 1;
  action_version = 1;
  parameters = text;
})

abbrev request : Header
request = record {
  message_type = 1;
  object_id = 1;
  source_id = 9;
  boot_id = 8;
  sequence = 7;
  flags = 0;
  fragment_index = 0;
  fragment_count = 1;
}

abbrev led_on : RequestView
led_on = record {
  target_source_id = 3;
  target_boot_id = 4;
  action_id = 1;
  action_version = 1;
  parameters = codes "led on";
}

parse_request_iff_example :
    (parse_request 1 decode request (some (3 ∷ 4 ∷ codes "led on")) 3 4 ≡ inr led_on)
    ↔ (IsCommand 1 request × (decode (3 ∷ 4 ∷ codes "led on") ≡ inr led_on) × IsForUs 3 4 led_on)
parse_request_iff_example = parse_request_iff 1 decode request (3 ∷ 4 ∷ codes "led on") 3 4 led_on

-- A cache that counts its requests, an endpoint that counts its frames, and numbers for seals.
abbrev toy : Outside ℕ ℕ ℕ
toy = record {
  command = 1;
  max_logical_request_size = 532;
  espnow_max_payload_size = 200;
  classify = λ d key payload. (if ltb d 16 then fresh d else exhausted, d + 1);
  record_result = λ d slot bytes. (true, d);
  reserve_sequence = λ e. (some (u32 (e + 1)), e + 1);
  encode_result = λ about status error message capacity. some (take capacity (7 ∷ message));
  parse_request = λ e h payload. none;
  copy_shell_command = λ payload. inr payload;
  send_fragment = λ e v seal. (true, e + 1);
}

abbrev processor : Processor ℕ ℕ
processor = record {
  bound = true;
  seal_link = some 5;
  seal_endpoint = none;
  cache_lock = false;
  dedup = 3;
  slot_meta = λ i. record {
    key = record { source_id = 0; boot_id = 0; sequence = 0 };
    action_id = 0;
    action_version = 0;
    channel = c_link;
  };
  accepted = 0;
  executed = 0;
  duplicates = 0;
  replayed = 0;
  rejections = 0;
  dropped = 0;
  unauthorized = 0;
}

abbrev us : ℕ → ℕ × ℕ
us e = (3, 4)

intake-ShellCommand_example :
    ((slot : ℕ) × ((toy.classify processor.dedup (key_of toy request) (3 ∷ 4 ∷ codes "led on")).0
        ≡ fresh slot))
    × ShellCommand decode
        (us 0)
        1
        request
        (3 ∷ 4 ∷ codes "led on")
        (intake
          (over_transport decode us toy)
          processor
          0
          request
          (some (3 ∷ 4 ∷ codes "led on"))
          5
          c_link).2.text
unfolding intake parse_request copy_shell_command has_forbidden is_envelope check_request
    is_forbidden
intake-ShellCommand_example =
    intake-ShellCommand decode us toy processor 0 request (3 ∷ 4 ∷ codes "led on") 5 c_link refl

-- A stream whose octet 1 completes a HELLO, a session that accepts each, and encoders that copy.
abbrev library : Library ℕ ℕ ℕ
library = record {
  push = λ d byte. (if byte == 1 then some d else none, d + 1);
  negotiate = λ local f now. some (replicate 52 7);
  encode_control = λ source boot time payload capacity. some payload;
  cobs_encode = λ frame capacity. if leb (length frame) capacity then some frame else none;
  busy = 6;
  capacity_exhausted = 5;
}

abbrev refusal : List ℕ
refusal = 0 ∷ replicate 12 7 ++ 6 ∷ 7 ∷ 5 ∷ replicate 17 0 ++ replicate 20 7 ++ 0 ∷ []

feed-Rejects_example : Rejects library 0 0 3 4 100 (9 ∷ 1 ∷ 1 ∷ []) refusal
unfolding feed first_answer answer_frame reject frame_reply framed busy_payload
feed-Rejects_example = feed-Rejects library 0 0 3 4 100 (9 ∷ 1 ∷ 1 ∷ []) refusal refl
