-- ===== src/BtpTransport.antt =====
-- lib/BtpTransport: the parser of command requests, the identity of the robot, the framing of a byte
-- stream, and the answer to a second TCP session. The codec, the stream decoder and the session are
-- the BTP library's, and parameters.
pub mod Requests
pub mod Intake
pub mod Identity
pub mod Busy
pub mod Rejection
mod Examples
use bally_os.Base.{
  ℕ, zero, suc, ◌+◌, ◌*◌, ◌^◌, ◌/◌, Bool, true, false, not, ◌&&◌, ◌||◌, Option, none, some, inl,
  inr, ◌⊎◌, List, [], ◌∷◌, ◌++◌, length, get_or, set, take, drop, replicate, leb, ltb, ◌==◌,
  if◌then◌else◌, u32, u8, u64,
}
use bally_os.Btp.{Header}
use bally_os.CommandProcessor.{
  ParseError, wrong_type, wrong_object, invalid_envelope, payload_too_short, wrong_target,
  invalid_flags, size_mismatch, parameters_too_large, unsupported_action, invalid_shell_text,
  output_too_small,
}

abbrev pub command_request_object_id : ℕ
command_request_object_id = 1

abbrev pub shell_action_id : ℕ
shell_action_id = 1

abbrev pub shell_action_version : ℕ
shell_action_version = 1

abbrev pub max_shell_command_size : ℕ
max_shell_command_size = 512

-- `btp::MessageError`, as far as the switch tells its values apart.
pub data MessageError : Type 0 where
  too_short reserved_not_zero trailing_bytes length_overflow count_too_large other_error :
      MessageError

-- `RequestView`, which has the fields of `btp::CommandRequest`.
pub record RequestView : Type 0 where
  pub target_source_id : ℕ
  pub target_boot_id : ℕ
  pub action_id : ℕ
  pub action_version : ℕ
  pub parameters : List ℕ

unfoldable pub parse_error_of : MessageError → ParseError
parse_error_of too_short = payload_too_short
parse_error_of reserved_not_zero = invalid_flags
parse_error_of trailing_bytes = size_mismatch
parse_error_of length_overflow = size_mismatch
parse_error_of count_too_large = parameters_too_large
parse_error_of other_error = invalid_envelope

-- Whether the header is that of a whole message in the clear, from somebody.
unfoldable pub is_envelope : Header → Bool
is_envelope h =
    h.flags == 0
    && h.fragment_index == 0
    && h.fragment_count == 1
    && not (h.source_id == 0)
    && not (h.boot_id == 0)

-- The checks after the decoder.
unfoldable pub check_request : ℕ → ℕ → MessageError ⊎ RequestView → ParseError ⊎ RequestView
check_request source boot (inl e) = inl (parse_error_of e)
check_request source boot (inr r) =
    if not (r.target_source_id == source && r.target_boot_id == boot)
    then inl wrong_target
    else if ltb max_shell_command_size (length r.parameters)
    then inl parameters_too_large
    else inr r

-- `command` is the value of `MessageType::Command`, `decode` is `btp::decode_command_request`.
module _ (command : ℕ) (decode : List ℕ → MessageError ⊎ RequestView) where
  -- The payload is null with a size, or some octets.
  unfoldable pub parse_request : Header → Option (List ℕ) → ℕ → ℕ → ParseError ⊎ RequestView
  parse_request h none source boot = inl invalid_envelope
  parse_request h (some payload) source boot =
      if not (h.message_type == command)
      then inl wrong_type
      else if not (h.object_id == command_request_object_id)
      then inl wrong_object
      else if not (is_envelope h)
      then inl invalid_envelope
      else check_request source boot (decode payload)

-- An octet that a shell command may not have.
unfoldable pub is_forbidden : ℕ → Bool
is_forbidden byte =
    byte == 0 || byte == 13 || byte == 10 || byte == 0x7f || (ltb byte 0x20 && not (byte == 9))

unfoldable pub has_forbidden : List ℕ → Bool
has_forbidden [] = false
has_forbidden (byte ∷ rest) = is_forbidden byte || has_forbidden rest

-- The text that is copied, without its closing 0; `capacity` is the size of the output.
unfoldable pub copy_shell_command : RequestView → ℕ → ParseError ⊎ List ℕ
copy_shell_command r capacity =
    if not (r.action_id == shell_action_id) || not (r.action_version == shell_action_version)
    then inl unsupported_action
    else if length r.parameters == 0 || ltb max_shell_command_size (length r.parameters)
    then inl invalid_shell_text
    else if leb capacity (length r.parameters)
    then inl output_too_small
    else if has_forbidden r.parameters
    then inl invalid_shell_text
    else inr r.parameters

-- The six octets of a MAC, or a null pointer; the shifts do not overlap.
unfoldable pub source_id_from_mac : Option (List ℕ) → ℕ
source_id_from_mac none = 0
source_id_from_mac (some mac) =
    let id =
      u8 (get_or mac 2 0) * 2 ^ 24
      + u8 (get_or mac 3 0) * 2 ^ 16
      + u8 (get_or mac 4 0) * 2 ^ 8
      + u8 (get_or mac 5 0) in
    if id == 0 then 1 else id

-- `memcmp` of the first octets: whether they are the same.
unfoldable pub same_octets : ℕ → List ℕ → List ℕ → Bool
same_octets zero a b = true
same_octets (suc i) a b = get_or a i 0 == get_or b i 0 && same_octets i a b

unfoldable pub authorized_source : Option (List ℕ) → Option (List ℕ) → Bool
unfolding same_octets
authorized_source none received = false
authorized_source (some expected) none = false
authorized_source (some expected) (some received) = same_octets 6 expected received
