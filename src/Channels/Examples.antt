-- ===== src/Channels/Examples.antt =====
-- The channel contract and the admission of frames at concrete inputs.
use bally_os.Base.{ℕ, none, arith}
use bally_os.Btp.{Btp, IsBtp}

abbrev wire : Btp
wire = record {
  command = 1;
  control = 2;
  terminal = 3;
  log = 4;
  telemetry = 5;
  v1_minimum_frame_size = 2;
  espnow_max_frame_size = 250;
  espnow_max_payload_size = 200;
  decode = λ bytes. none;
}

wire-IsBtp : IsBtp wire
wire-IsBtp = record {
  command_control = λ e. omega arith;
  command_terminal = λ e. omega arith;
  command_log = λ e. omega arith;
  command_telemetry = λ e. omega arith;
  control_terminal = λ e. omega arith;
  control_log = λ e. omega arith;
  control_telemetry = λ e. omega arith;
  terminal_log = λ e. omega arith;
  terminal_telemetry = λ e. omega arith;
  log_telemetry = λ e. omega arith;
  frame_fits = omega arith;
}

abbrev self_id : ℕ
self_id = 7

abbrev peer_id : ℕ
peer_id = 3
