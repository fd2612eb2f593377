-- ===== src/TxScheduler/Radio.antt =====
-- lib/TxScheduler/TxScheduler.cpp: what leaves the queues. `pump` sends the confirmed classes one frame at a
-- time, `pump_telemetry` empties the telemetry queue, `on_delivery` is the driver's callback.
use bally_os.Base.{
  ℕ, zero, suc, ◌+◌, Bool, true, false, not, ◌&&◌, Option, none, some, List, [], ◌∷◌, leb, ◌==◌,
  if◌then◌else◌, u32, sub_u64, ◌≡◌, arith,
}
use bally_os.TxScheduler.Queue.{
  Priority, telemetry, index, priorities, capacity, max_capacity, update, EncodedFrame, pop_queue,
}
use bally_os.TxScheduler.{Tx, RadioSend, drop_one}

module _ {W : Type 0} where
  unfoldable pub pop : Tx W → Priority → Option (EncodedFrame × Tx W)
  unfolding pop_queue
  pop s p = elim (pop_queue (capacity p) (s.queues p)) [
    | none ↦ none
    | some (frame, q) ↦ some (frame, record s { queues = update s.queues p q })
  ]

  -- The loop of `pump` over the classes; telemetry is passed over.
  unfoldable pub pop_first : Tx W → List Priority → Option (EncodedFrame × Tx W)
  unfolding pop
  pop_first s [] = none
  pop_first s (p ∷ ps) =
      let rest = pop_first s ps in
      if index p == index telemetry then rest else elim (pop s p) [ none ↦ rest | some r ↦ some r ]

  unfoldable pub on_delivery : Tx W → Bool → Tx W
  on_delivery s ok =
      if s.awaiting_delivery then record s { delivery_event = if ok then 1 else 2 } else s

  unfoldable pub settle_early : Tx W → Option Bool → Tx W
  unfolding on_delivery
  settle_early s none = s
  settle_early s (some ok) = on_delivery s ok

  -- The frame is marked as pending before the driver is entered.
  unfoldable pub transmit : RadioSend W → Tx W → EncodedFrame → ℕ → W → Tx W × Bool × W
  unfolding settle_early drop_one
  transmit send s frame now w =
      let sent = send w frame.bytes frame.size in
      let s' =
        settle_early
          (record s {
            pending = frame;
            awaiting_delivery = true;
            pending_since_ms = now;
            delivery_event = 0;
          })
          sent.early in
      if sent.took
      then (s', true, sent.world)
      else (drop_one (record s' { awaiting_delivery = false }), false, sent.world)

  -- The head of `pump`: what became of the frame that awaits delivery. `false`: it still does.
  unfoldable pub resolve : Tx W → ℕ → Tx W × Bool
  unfolding drop_one
  resolve s now =
      let t = record s { awaiting_delivery = false; delivery_event = 0 } in
      if s.awaiting_delivery
      then (if s.delivery_event == 1
          then (record t { delivered = u32 (t.delivered + 1) }, true)
          else if s.delivery_event == 2
          then (drop_one (record t { delivery_failed = u32 (t.delivery_failed + 1) }), true)
          else if leb s.delivery_timeout_ms (sub_u64 now s.pending_since_ms)
          then (drop_one (record t { timeouts = u32 (t.timeouts + 1) }), true)
          else (record s { delivery_event = 0 }, false))
      else (s, true)

  -- The rest of `pump`.
  unfoldable pub start_next : Tx W → ℕ → W → Tx W × Bool × W
  unfolding pop_first transmit
  start_next s now w = elim s.radio_send [
    | none ↦ (s, false, w)
    | some send ↦ elim (pop_first s priorities) [
      | none ↦ (s, false, w)
      | some (frame, s') ↦ transmit send s' frame now w
    ]
  ]

  unfoldable pub pump : Tx W → ℕ → W → Tx W × Bool × W
  unfolding resolve start_next
  pump s now w =
      let (s', free) = resolve s now in if free then start_next s' now w else (s', false, w)

  -- The loop of `pump_telemetry`, with fuel for its rounds.
  unfoldable pub drain : ℕ → RadioSend W → Tx W → Bool → W → Tx W × Bool × W
  unfolding pop
  drain zero send s any w = (s, any, w)
  drain (suc fuel) send s any w = elim (pop s telemetry) [
    | none ↦ (s, any, w)
    | some (frame, s') ↦
        let sent = send w frame.bytes frame.size in
        let stopped = record s' { telemetry_dropped = u32 (s'.telemetry_dropped + 1) } in
        let more =
          drain fuel send (record s' { telemetry_sent = u32 (s'.telemetry_sent + 1) }) true
            sent.world in
        if sent.took then more else (stopped, any, sent.world)
  ]

  -- A queue holds 16 frames at most, so 17 rounds see it empty.
  unfoldable pub pump_telemetry : Tx W → W → Tx W × Bool × W
  unfolding drain
  pump_telemetry s w = elim s.telemetry_radio_send [
    | none ↦ (s, false, w)
    | some send ↦ drain (suc max_capacity) send s false w
  ]

  unfoldable pub queued_count : Tx W → Priority → ℕ
  queued_count s p = if (s.queues p).lock then 0 else (s.queues p).count

  unfoldable pub all_empty : Tx W → List Priority → Bool
  unfolding queued_count
  all_empty s [] = true
  all_empty s (p ∷ ps) = queued_count s p == 0 && all_empty s ps

  unfoldable pub idle : Tx W → Bool
  unfolding all_empty
  idle s = not s.awaiting_delivery && all_empty s priorities

  pub start_next_unbound :
      (s : Tx W) (now : ℕ) (w : W) → s.radio_send ≡ none → start_next s now w ≡ (s, false, w)
  unfolding start_next
  start_next_unbound s now w e = ground arith
