-- ===== src/Btp.antt =====
-- What the firmware uses of the BTP library, which is not part of the repository: the wire values of
-- the message types, the size limits of the ESP-NOW transport, and `btp::decode` on that transport.
-- Nothing is assumed of `decode`; what is assumed of the constants is `IsBtp`.
use bally_os.Base.{ℕ, ◌≢◌, ◌<◌, ◌^◌, Option, List}

-- The fields of `btp::Header` that the modelled code reads.
pub record Header : Type 0 where
  pub message_type : ℕ
  pub object_id : ℕ
  pub source_id : ℕ
  pub boot_id : ℕ
  pub sequence : ℕ
  pub flags : ℕ
  pub fragment_index : ℕ
  pub fragment_count : ℕ

pub record Btp : Type 0 where
  pub command : ℕ
  pub control : ℕ
  pub terminal : ℕ
  pub log : ℕ
  pub telemetry : ℕ
  pub v1_minimum_frame_size : ℕ
  pub espnow_max_frame_size : ℕ
  pub espnow_max_payload_size : ℕ
  pub decode : List ℕ → Option Header

-- The enumerators differ, and a frame's size fits the 16 bits that hold it.
pub record IsBtp (b : Btp) : Type 0 where
  pub command_control : b.command ≢ b.control
  pub command_terminal : b.command ≢ b.terminal
  pub command_log : b.command ≢ b.log
  pub command_telemetry : b.command ≢ b.telemetry
  pub control_terminal : b.control ≢ b.terminal
  pub control_log : b.control ≢ b.log
  pub control_telemetry : b.control ≢ b.telemetry
  pub terminal_log : b.terminal ≢ b.log
  pub terminal_telemetry : b.terminal ≢ b.telemetry
  pub log_telemetry : b.log ≢ b.telemetry
  pub frame_fits : b.espnow_max_frame_size < 2 ^ 16
