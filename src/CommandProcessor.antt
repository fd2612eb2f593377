-- ===== src/CommandProcessor.antt =====
-- lib/CommandProcessor: a command is executed once, and its result kept for whoever asks again. The cache of
-- duplicates and the encoding of results belong to the BTP library, the endpoint and the parser of
-- requests to lib/BtpTransport: they are the record `Outside`, over a cache state `D` and an endpoint
-- state `E`. A seal is one of a type `S`.
pub mod Codec
pub mod Taking
pub mod Reply
pub mod Sending
pub mod Intakes
pub mod Replay
pub mod Retries
mod Examples
use bally_os.Base.{
  ℕ, ◌+◌, ◌*◌, ◌^◌, Bool, true, false, not, ◌&&◌, ◌||◌, Option, none, some, inl, inr, List, [], ◌∷◌,
  ◌++◌, codes, length, leb, ltb, ◌==◌, if◌then◌else◌, u32, u8,
}
use mathlib.Core.Logic.{◌⊎◌}
use bally_os.Btp.{Header}
use bally_os.Channels.{Channel, b_endpoint, c_link, a_console}
use Codec.{ResultView, no_view, replay_view, pack, read_u16, max_result_payload_size}

abbrev pub cache_capacity : ℕ
cache_capacity = 16

abbrev pub command_request_object_id : ℕ
command_request_object_id = 1

abbrev pub ping_action_id : ℕ
ping_action_id = 2

pub data IntakeKind : Type 0 where
  ready duplicate_in_progress result_ready ignored : IntakeKind

pub data Status : Type 0 where
  success rejected failed timeout cancelled unsupported busy : Status

pub data ErrorCode : Type 0 where
  no_error malformed_payload unknown_object invalid_argument not_authorized capacity_exhausted :
      ErrorCode
  execution_timeout internal_error unsupported_version stale_target_boot request_conflict :
      ErrorCode

-- `btp_command::ParseError`, other than `Ok`.
pub data ParseError : Type 0 where
  wrong_type wrong_object invalid_envelope payload_too_short wrong_target invalid_action :
      ParseError
  invalid_flags size_mismatch parameters_too_large unsupported_action invalid_shell_text :
      ParseError
  output_too_small : ParseError

unfoldable pub parse_message : ParseError → List ℕ
parse_message wrong_target = codes "stale command target"
parse_message unsupported_action = codes "unsupported action"
parse_message invalid_action = codes "invalid action"
parse_message parameters_too_large = codes "parameters too large"
parse_message invalid_shell_text = codes "invalid shell command"
parse_message e = codes "malformed command request"

unfoldable pub parse_status : ParseError → Status
parse_status unsupported_action = unsupported
parse_status e = rejected

unfoldable pub parse_error_code : ParseError → ErrorCode
parse_error_code wrong_target = stale_target_boot
parse_error_code unsupported_action = unsupported_version
parse_error_code invalid_action = invalid_argument
parse_error_code parameters_too_large = invalid_argument
parse_error_code invalid_shell_text = invalid_argument
parse_error_code output_too_small = invalid_argument
parse_error_code e = malformed_payload

pub record DedupKey : Type 0 where
  pub source_id : ℕ
  pub boot_id : ℕ
  pub sequence : ℕ

-- `btp::DedupVerdict`, with what `classify` gives besides.
pub data DedupVerdict : Type 0 where
  duplicate_complete : Option (List ℕ) → DedupVerdict
  duplicate_in_flight conflict evicted exhausted invalid_key : DedupVerdict
  fresh : ℕ → DedupVerdict

pub record SlotMeta : Type 0 where
  pub key : DedupKey
  pub action_id : ℕ
  pub action_version : ℕ
  pub channel : Channel

-- The parts that are called. A refused sequence number is `none`, and so is a result that does not fit; the
-- text of a shell command is what `parse_request` and `copy_shell_command` give.
pub record Outside (D E S : Type 0) : Type 0 where
  pub command : ℕ
  pub max_logical_request_size : ℕ
  pub espnow_max_payload_size : ℕ
  pub classify : D → DedupKey → List ℕ → DedupVerdict × D
  pub record_result : D → ℕ → List ℕ → Bool × D
  pub reserve_sequence : E → Option ℕ × E
  pub encode_result : SlotMeta → Status → ErrorCode → List ℕ → ℕ → Option (List ℕ)
  pub parse_request : E → Header → List ℕ → Option ParseError
  pub copy_shell_command : List ℕ → ParseError ⊎ List ℕ
  pub send_fragment : E → ResultView → Option S → Bool × E

pub record Processor (D S : Type 0) : Type 0 where
  pub bound : Bool
  pub seal_link : Option S
  pub seal_endpoint : Option S
  pub cache_lock : Bool
  pub dedup : D
  pub slot_meta : ℕ → SlotMeta
  pub accepted : ℕ
  pub executed : ℕ
  pub duplicates : ℕ
  pub replayed : ℕ
  pub rejections : ℕ
  pub dropped : ℕ
  pub unauthorized : ℕ

pub record Intake : Type 0 where
  pub kind : IntakeKind
  pub cache_slot : ℕ
  pub text : List ℕ
  pub result : ResultView

abbrev pub no_intake : Intake
no_intake = record { kind = ignored; cache_slot = 0; text = []; result = no_view }

abbrev pub answered : Option ResultView → Intake
answered none = no_intake
answered (some view) = record no_intake { kind = result_ready; result = view }

abbrev pub is_some : {S : Type 0} → Option S → Bool
is_some none = false
is_some (some s) = true

module _ {D S : Type 0} where
  unfoldable pub configure : Processor D S → Option S → Option S → Processor D S
  configure p link endpoint = record p { bound = true; seal_link = link; seal_endpoint = endpoint }

  unfoldable pub note_drop : Processor D S → Processor D S
  note_drop p = record p { dropped = u32 (p.dropped + 1) }

  unfoldable pub note_unauthorized : Processor D S → Processor D S
  note_unauthorized p = record p { unauthorized = u32 (p.unauthorized + 1) }

  abbrev pub count_duplicate : Processor D S → Processor D S
  count_duplicate p = record p { duplicates = u32 (p.duplicates + 1) }

  abbrev pub count_rejected : Processor D S → Processor D S
  count_rejected p = record p { rejections = u32 (p.rejections + 1) }

  abbrev pub count_accepted : Processor D S → Processor D S
  count_accepted p = record p { accepted = u32 (p.accepted + 1) }

  -- The seal that goes with a channel.
  abbrev pub seal_of : Processor D S → Channel → Option S
  seal_of p b_endpoint = p.seal_endpoint
  seal_of p c_link = p.seal_link
  seal_of p a_console = p.seal_link

-- What is known of a request before it is parsed.
abbrev pub meta_of : Header → List ℕ → Channel → SlotMeta
meta_of h payload channel = record {
  key = record { source_id = h.source_id; boot_id = h.boot_id; sequence = h.sequence };
  action_id = if leb 12 (length payload) then read_u16 payload 8 else 0;
  action_version = if leb 12 (length payload) then read_u16 payload 10 else 0;
  channel = channel;
}

abbrev pub answer :
    {D E S : Type 0} → Processor D S × E × Option ResultView → Processor D S × E × Intake
answer (p, e, view) = (p, e, answered view)

module _ {D E S : Type 0} (x : Outside D E S) where
  -- `finish`, for a bound processor and a slot of the cache: encode, store, and show the result.
  unfoldable pub store_result :
      Processor D S → E → ℕ → Option ℕ → Option (List ℕ) → ℕ → Processor D S × E × Option ResultView
  unfolding note_drop
  store_result p e slot none payload now = (note_drop p, e, none)
  store_result p e slot (some sequence) none now = (note_drop p, e, none)
  store_result p e slot (some sequence) (some payload) now =
      let (stored, d) = x.record_result p.dedup slot (pack sequence now payload) in
      let p' = record p { dedup = d } in
      if stored
      then (
        p',
        e,
        some (record {
          sequence = sequence;
          timestamp_us = now;
          payload = some payload;
          channel = (p.slot_meta slot).channel;
        }),
      )
      else (note_drop p', e, none)

  unfoldable pub finish :
      Processor D S
      → E
      → ℕ
      → Status
      → ErrorCode
      → List ℕ
      → ℕ
      → Processor D S × E × Option ResultView
  unfolding store_result
  finish p e slot status error message now =
      if not p.bound || leb cache_capacity slot
      then (p, e, none)
      else let (sequence, e') = x.reserve_sequence e in
        store_result p e' slot sequence
          (x.encode_result (p.slot_meta slot) status error message max_result_payload_size) now

  -- A result that is not kept.
  unfoldable pub make_transient :
      Processor D S
      → E
      → SlotMeta
      → Status
      → ErrorCode
      → List ℕ
      → ℕ
      → Processor D S × E × Option ResultView
  unfolding note_drop
  make_transient p e about status error message now =
      if not p.bound
      then (p, e, none)
      else let (reserved, e') = x.reserve_sequence e in
        elim reserved [
          | none ↦ (note_drop p, e', none)
          | some sequence ↦
              elim (x.encode_result about status error message max_result_payload_size) [
                | none ↦ (note_drop p, e', none)
                | some payload ↦ (
                  p,
                  e',
                  some (record {
                    sequence = sequence;
                    timestamp_us = now;
                    payload = some payload;
                    channel = about.channel;
                  }),
                )
              ]
        ]
