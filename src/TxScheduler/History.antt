-- ===== src/TxScheduler/History.antt =====
-- The frames of lib/TxScheduler over any history of calls.
use bally_os.Base.{
  ℕ, ◌+◌, ◌≡◌, ap, ◌∙◌, inl, inr, Bool, ◌||◌, Option, none, some, List, [], ◌∷◌, arith, length, ltb,
  u32, Bool-cases, Option-cases,
}
use bally_os.Btp.{Btp}
use bally_os.TxScheduler.{
  Tx, RadioSend, init, configure, configure_telemetry, classify, enqueue, drop_one,
}
use bally_os.TxScheduler.Enqueue.{TxOk, enqueue-Enqueues}
use bally_os.TxScheduler.Invariant.{init-TxOk, on_delivery-TxOk, pump-TxOk, pump_telemetry-TxOk}
use bally_os.TxScheduler.Radio.{on_delivery, pump, pump_telemetry}
use bally_os.TxScheduler.Account.{
  total, enqueue_in-total, on_delivery-total, pump-total, pump_telemetry-total,
}

-- One call of the interface.
pub data Call (W : Type 0) : Type 0 where
  configures : Option (RadioSend W) → ℕ → Call W
  configures_telemetry : Option (RadioSend W) → Call W
  enqueues : Option (List ℕ) → Call W
  pumps : ℕ → Call W
  pumps_telemetry : Call W
  delivers : Bool → Call W

module _ {W : Type 0} (btp : Btp) where
  unfoldable pub step : Tx W × W → Call W → Tx W × W
  step (s, w) (configures callback timeout) = (configure s callback timeout, w)
  step (s, w) (configures_telemetry callback) = (configure_telemetry s callback, w)
  step (s, w) (enqueues input) = ((enqueue btp s input).0, w)
  step (s, w) (pumps now) = let (s', sent, w') = pump s now w in (s', w')
  step (s, w) pumps_telemetry = let (s', sent, w') = pump_telemetry s w in (s', w')
  step (s, w) (delivers ok) = (on_delivery s ok, w)

  unfoldable pub run : Tx W × W → List (Call W) → Tx W × W
  unfolding step
  run sw [] = sw
  run sw (c ∷ cs) = run (step sw c) cs

  abbrev pub offers : Call W → ℕ
  offers (enqueues input) = 1
  offers c = 0

  -- How many frames the calls offer to `enqueue`.
  abbrev pub offered : List (Call W) → ℕ
  offered [] = 0
  offered (c ∷ cs) = offers c + offered cs

  enqueue-total :
      (s : Tx W) (input : Option (List ℕ)) → u32 (total (enqueue btp s input).0) ≡ u32 (total s + 1)
  unfolding enqueue drop_one
  enqueue-total s none = omega arith
  enqueue-total s (some bytes) =
      elim (Bool-cases (
        ltb (length bytes) btp.v1_minimum_frame_size
        || ltb btp.espnow_max_frame_size (length bytes))) [
          | inl bad ↦ rw (bad, enqueue) (omega arith)
          | inr fits ↦ elim (Option-cases (btp.decode bytes)) [
            | inl e ↦ rw (fits, enqueue) (rw (e, enqueue) (omega arith))
            | inr (h, e) ↦
                rw (fits, enqueue) (rw (e, enqueue) (enqueue_in-total s (classify btp h) bytes))
          ]
        ]

  step-total :
      (s : Tx W) (w : W) (c : Call W) → u32 (total (step (s, w) c).0) ≡ u32 (total s + offers c)
  unfolding step configure configure_telemetry
  step-total s w (configures callback timeout) = omega arith
  step-total s w (configures_telemetry callback) = omega arith
  step-total s w (enqueues input) = enqueue-total s input
  step-total s w (pumps now) = omega (arith, pump-total s now w)
  step-total s w pumps_telemetry = omega (arith, pump_telemetry-total s w)
  step-total s w (delivers ok) = omega (arith, on_delivery-total s ok)

  run_from-total :
      (s : Tx W) (w : W) (cs : List (Call W))
      → u32 (total (run (s, w) cs).0) ≡ u32 (total s + offered cs)
  unfolding run
  run_from-total s w [] = omega arith
  run_from-total s w (c ∷ cs) =
      let (s', w') = step (s, w) c in omega (arith, step-total s w c, run_from-total s' w' cs)

  step-TxOk : (s : Tx W) (w : W) (c : Call W) → TxOk s → TxOk (step (s, w) c).0
  unfolding step configure configure_telemetry on_delivery
  step-TxOk s w (configures callback timeout) o = o
  step-TxOk s w (configures_telemetry callback) o = o
  step-TxOk s w (enqueues input) o = (enqueue-Enqueues btp s input o).0
  step-TxOk s w (pumps now) o = pump-TxOk s now w o
  step-TxOk s w pumps_telemetry o = pump_telemetry-TxOk s w o
  step-TxOk s w (delivers ok) o = on_delivery-TxOk s ok o

  run_from-TxOk : (s : Tx W) (w : W) (cs : List (Call W)) → TxOk s → TxOk (run (s, w) cs).0
  unfolding run
  run_from-TxOk s w [] o = o
  run_from-TxOk s w (c ∷ cs) o =
      run_from-TxOk (step (s, w) c).0 (step (s, w) c).1 cs (step-TxOk s w c o)

  -- After any calls, every queue is in order: its indices are in range, its count is at most its
  -- capacity, and the write index is the read index plus the count, around the ring.
  pub run-TxOk : (w : W) (cs : List (Call W)) → TxOk (run (init, w) cs).0
  unfolding init
  run-TxOk w cs = run_from-TxOk init w cs (init-TxOk W)

  -- Whatever calls are made, of enqueueing, sending and delivery reports in any order, the number of
  -- frames offered so far is the number of those delivered, dropped, sent or dropped as telemetry, queued
  -- and awaiting delivery, modulo 2^32.
  pub run-total : (w : W) (cs : List (Call W)) → u32 (total (run (init, w) cs).0) ≡ u32 (offered cs)
  unfolding init
  run-total w cs =
      run_from-total init w cs ∙ ap u32 {x = total (init {W = W}) + offered cs} (omega arith)
