-- ===== src/TxScheduler.antt =====
-- lib/TxScheduler: one bounded FIFO for each class of frame, one frame at a time awaiting delivery,
-- and a lane of its own for telemetry. Each method is one atomic step. A lock that another task holds
-- is a queue whose `lock` is set when the method starts. What runs inside the radio driver is a
-- function over a world `W`.
pub mod Queue
pub mod Fifo
pub mod Enqueue
pub mod Radio
pub mod Pump
pub mod Account
pub mod Invariant
pub mod History
pub mod Telemetry
mod Examples
use bally_os.Base.{
  ℕ, suc, ◌+◌, Bool, true, false, ◌&&◌, ◌||◌, Option, none, some, List, [], ◌∷◌, length, ltb, leb,
  ◌==◌, if◌then◌else◌, u16, u32, zero, sub_u64,
}
use bally_os.Btp.{Btp, Header}
use Queue.{
  Priority, command_result, status, terminal, critical_log, telemetry, debug, index, priorities,
  capacity, update, EncodedFrame, empty_frame, FrameQueue, empty_queue, push, pop_queue,
}

-- What the driver answers: whether it took the frame, the delivery callback if that already ran
-- before the call returned, and the world after it.
pub record Sent (W : Type 0) : Type 0 where
  pub took : Bool
  pub early : Option Bool
  pub world : W

abbrev pub RadioSend : Type 0 → Type 0
RadioSend W = W → List ℕ → ℕ → Sent W

pub record Tx (W : Type 0) : Type 0 where
  pub queues : Priority → FrameQueue
  pub radio_send : Option (RadioSend W)
  pub delivery_timeout_ms : ℕ
  pub telemetry_radio_send : Option (RadioSend W)
  pub telemetry_sent : ℕ
  pub telemetry_dropped : ℕ
  pub pending : EncodedFrame
  pub pending_since_ms : ℕ
  pub awaiting_delivery : Bool
  pub delivery_event : ℕ
  pub accepted : ℕ
  pub delivered : ℕ
  pub timeouts : ℕ
  pub dropped : ℕ
  pub delivery_failed : ℕ
  pub queued_by_priority : Priority → ℕ
  pub dropped_by_priority : Priority → ℕ

abbrev pub default_delivery_timeout_ms : ℕ
default_delivery_timeout_ms = 250

unfoldable pub init : {W : Type 0} → Tx W
init = record {
  queues = λ p. empty_queue;
  radio_send = none;
  delivery_timeout_ms = default_delivery_timeout_ms;
  telemetry_radio_send = none;
  telemetry_sent = 0;
  telemetry_dropped = 0;
  pending = empty_frame;
  pending_since_ms = 0;
  awaiting_delivery = false;
  delivery_event = 0;
  accepted = 0;
  delivered = 0;
  timeouts = 0;
  dropped = 0;
  delivery_failed = 0;
  queued_by_priority = λ p. 0;
  dropped_by_priority = λ p. 0;
}

module _ {W : Type 0} where
  unfoldable pub configure : Tx W → Option (RadioSend W) → ℕ → Tx W
  configure s callback timeout = record s {
    radio_send = callback;
    delivery_timeout_ms = if timeout == 0 then default_delivery_timeout_ms else timeout;
  }

  unfoldable pub configure_telemetry : Tx W → Option (RadioSend W) → Tx W
  configure_telemetry s callback = record s { telemetry_radio_send = callback }

  -- `dropped_.fetch_add(1)`.
  unfoldable pub drop_one : Tx W → Tx W
  drop_one s = record s { dropped = u32 (s.dropped + 1) }

  unfoldable pub drop_in_class : Tx W → Priority → Tx W
  unfolding drop_one
  drop_in_class s p = record (drop_one s) {
    dropped_by_priority = update s.dropped_by_priority p (u32 (s.dropped_by_priority p + 1));
  }

module _ (btp : Btp) where
  unfoldable pub classify : Header → Priority
  classify h =
      if h.message_type == btp.command && h.object_id == 2
      then command_result
      else if h.message_type == btp.control
      then status
      else if h.message_type == btp.terminal
      then terminal
      else if h.message_type == btp.log && (h.object_id == 2 || h.object_id == 3)
      then critical_log
      else if h.message_type == btp.telemetry
      then telemetry
      else debug

module _ {W : Type 0} where
  -- The copy into the queue of the class, and the counters.
  unfoldable pub store : Tx W → Priority → List ℕ → Tx W
  unfolding push
  store s p bytes = record s {
    queues =
        update s.queues p
          (push (capacity p) (s.queues p) (record { size = u16 (length bytes); bytes = bytes }));
    accepted = u32 (s.accepted + 1);
    queued_by_priority = update s.queued_by_priority p (u32 (s.queued_by_priority p + 1));
  }

  -- From the lock of the class's queue on.
  unfoldable pub enqueue_in : Tx W → Priority → List ℕ → Tx W × Bool
  unfolding drop_in_class
  enqueue_in s p bytes =
      if (s.queues p).lock
      then (drop_in_class s p, false)
      else if leb (capacity p) (s.queues p).count
      then (drop_in_class s p, false)
      else (store s p bytes, true)

  -- `data` is null, or points to `size` octets.
  unfoldable pub enqueue : Btp → Tx W → Option (List ℕ) → Tx W × Bool
  unfolding enqueue_in classify
  enqueue btp s none = (drop_one s, false)
  enqueue btp s (some bytes) =
      if ltb (length bytes) btp.v1_minimum_frame_size
        || ltb btp.espnow_max_frame_size (length bytes)
      then (drop_one s, false)
      else elim (btp.decode bytes) [
        | none ↦ (drop_one s, false)
        | some header ↦ enqueue_in s (classify btp header) bytes
      ]
