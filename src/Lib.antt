-- ===== src/Lib.antt =====
-- bally_OS: the firmware of a robot on an ESP32-S3. This library models the parts of it that
-- decide things (what runs, what is sent, what is kept, which state the robot is in) and proves what they promise.
--
-- The parts and how they meet. The state machine (lib/StateMachine) holds the state of the robot; its states
-- and the policy of its transitions are in src/robot. Commands arrive over BTP, a wire protocol whose
-- library is not part of the repository, and pass through lib/CommandProcessor; jobs that repeat commands are kept by lib/JobScheduler, which
-- polls the state as well. Frames leave by lib/TxScheduler towards the radio, or by the queue of a TCP
-- session (lib/BtpTransport/TcpSendAdmission.h). The keys that seal them come from lib/KeyStore. include/bally_channels.h says which key a frame is
-- sealed with. What the parts log goes to lib/Logger, and from there to the radio and to the card.
--
-- Files:
--   Base, Base/*: the shared vocabulary: tests, lists, machine words, texts.
--   Btp: what is used of the BTP library: constants, sizes and the decoder, all parameters.
--   JobScheduler, JobScheduler/*: lib/JobScheduler. `schedule_interval`, `schedule_once`,
--     `schedule_on_state`, `cancel`, `cancel_all`, `list`, `active_count`, `poll` are the methods of those
--     names on a record `Scheduler`; the executor is a function over a world. Command is the test for
--     the scheduler's own commands, Slots the table, Admission the schedule calls, Poll the pass.
--   BtpTransport, BtpTransport/*: lib/BtpTransport. `parse_request`, `copy_shell_command`,
--     `source_id_from_mac`, `authorized_source`, `cobs_stream_encode` and `feed` of `TcpBusyResponder` are the
--     functions of those names. Intake puts the parser under CommandProcessor.
--   CommandProcessor, CommandProcessor/*: lib/CommandProcessor. `intake`, `complete`, `reject_busy`,
--     `send_result`, `send_result_via` are the methods of those names on a record `Processor`, and
--     `send_result_by` is the `send_result` that is given an endpoint; `Outside` is what it calls:
--     the BTP library's cache of duplicates and encoder, and the endpoint and the parser of requests of
--     lib/BtpTransport. Codec is the octets of numbers and of a stored result, Taking is `intake`, Reply
--     what leaves, Replay and Retries what becomes of a result that is stored.
--   TxScheduler, TxScheduler/*: lib/TxScheduler. `enqueue`, `pump`, `pump_telemetry`, `on_delivery`,
--     `idle`, `queued_count` are the methods of those names on a record `Tx`. Queue is the ring of a class,
--     Fifo its reading as a list, Radio what leaves, Account the sum of the counters.
--   StateMachine, StateMachine/*: lib/StateMachine. `run`, `next`, `verify_callbacks`, `request_state`,
--     `take_request`, `set_locked` act on a record `Machine`; History is the ring of transitions
--     (`recordTransition`, `history`), Names is `stateToString` and `stateFromString`.
--   StatesManager, StatesManager/*: src/robot. `process_transition` and the action of each state, as
--     callbacks of the state machine; Machine puts both together. Shell is `register_shell_commands`,
--     Asking what a request by name leads to.
--   Logger, Logger/*: lib/Logger. Storage is the ring of octets (`write_to_ring`, `read_from_ring`,
--     `read_header_at`), Inserting is `insert_log` and `insert_logf`, Sending is `flush_logs` and
--     `send_log_direct`, Storing is `flush_logs_to`. The ring is read as a list of records: Turning and
--     Copying are the octets in the order in which they are read, Holding the ring as a text, Records and
--     Retained the text as records, Pending those to send. Inserted, Sent, Steps, Releasing, Stored,
--     Cutting, Rounds, Flushed and Stale say what the operations do to the lists, Histories what any order of them keeps. Files is
--     `flush_to_sd`, `make_log_filename`, `find_latest_log_file` and `set_datetime`, Naming the names of new
--     files; the rounds of that loop are an argument. The loop of `flush_logs_to` has as many rounds as
--     octets in use, of which each round releases some.
--   KeyStore, KeyStore/*: lib/KeyStore. Sha256 and Hmac are the hash functions of KeyStore.cpp, `parse`,
--     `load`, `unload`, `load_from_card` the methods of those names on a record `KeyStore`; Image is the
--     layout of the file that KeyStore.h documents.
--   RobotSettings, RobotSettings/*: lib/RobotSettings. Table is `SettingsData` and `kTable`, a field's
--     offset being its number; Entries is `get`, `set`, `list` and the resets, Numbers the conversions of
--     the C library, File `save`, `load`, `parse_file` and `diff`, Appliers `register_applier`, `apply` and
--     `apply_all`, Shell the commands; `set_setting` is `set`.
--   Channels: include/bally_channels.h and lib/BtpTransport/TcpSendAdmission.h.
--   TerminalResponder, TerminalResponder/*: lib/TerminalResponder. `on_terminal_in`, `deliver_command_output`,
--     `push_async_output`, `pump` are the methods of those names on a record `Responder`; `bind_target` and
--     `unbind_target` stand for the three of each; Rendering is the text of an output, Pumping the pass.
--   */Examples: runs, and each result at a concrete input.
--
-- Integers are natural numbers with the wrap-around of their width written out. A method is one atomic step;
-- interleavings are lists of calls in any order. A lock that another task holds is a flag of the state. Loops
-- that run on fuel: that of the telemetry queue, 17 rounds, one more
-- than a queue can hold; that of the padding of SHA-256, 64 rounds, the size of a block; those of the chunks of the terminal and of `send_log_direct`, a round for each octet;
-- that of `flush_logs_to`, a round for each octet in use;
-- and that of the digits of a number, ten, enough for 32 bits. The loop over the lines that the line editor has
-- finished ends when that library has no more of them; it is cut off after a number of rounds that is a
-- parameter, and nothing is claimed of where it ends.
--
-- Not modelled: drivers and their glue (Bluetooth, USB, SD card, Wi-Fi, PWM, sockets), the composition root
-- utils/BallyRobot with its own shell commands, floating point (lib/ArraySensor), and the other
-- parts of lib: songs, telemetry, manifest, radio seal.
pub mod Base
pub mod Btp
pub mod JobScheduler
pub mod KeyStore
pub mod RobotSettings
pub mod StateMachine
pub mod StatesManager
pub mod Channels
pub mod BtpTransport
pub mod CommandProcessor
pub mod TerminalResponder
pub mod TxScheduler
pub mod Logger
