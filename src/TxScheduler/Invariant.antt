-- ===== src/TxScheduler/Invariant.antt =====
-- What leaves the queues of lib/TxScheduler leaves them in order.
use bally_os.Base.{
  ℕ, zero, suc, ◌+◌, inl, inr, Bool, true, false, Option, none, some, arith, if◌then◌else◌, u32,
  Bool-cases, Option-cases,
}
use bally_os.TxScheduler.Queue.{telemetry, EncodedFrame}
use bally_os.TxScheduler.Enqueue.{TxOk}
use bally_os.TxScheduler.Pump.{PopsTx, pop-PopsTx, Starts, start_next-Starts, resolve-queues}
use bally_os.TxScheduler.{Tx, RadioSend, init}
use bally_os.TxScheduler.Radio.{
  pop, on_delivery, resolve, start_next, start_next_unbound, pump, drain, pump_telemetry,
}

pub init-TxOk : (W : Type 0) → TxOk (init {W = W})
unfolding init
init-TxOk W p = ground arith

module _ {W : Type 0} where
  pub on_delivery-TxOk : (s : Tx W) (ok : Bool) → TxOk s → TxOk (on_delivery s ok)
  unfolding on_delivery
  on_delivery-TxOk s ok o p = elim (Bool-cases s.awaiting_delivery) [
    | inl e ↦ rw (e, on_delivery) (o p)
    | inr e ↦ rw (e, on_delivery) (o p)
  ]

  start_next-TxOk : (s : Tx W) (now : ℕ) (w : W) → TxOk s → TxOk (start_next s now w).0
  start_next-TxOk s now w o = elim (Option-cases s.radio_send) [
    | inl e ↦ rw (start_next_unbound s now w e) o
    | inr (send, e) ↦ go send (start_next s now w) (start_next-Starts s send now w o e)
  ]
    where
      go : (send : RadioSend W) (r : Tx W × Bool × W) → Starts s send now w r → TxOk r.0
      go send (t, done, w') (inl (same, _, _, _)) p = rw same (o p)
      go send (t, done, w')
            (inr (f, s', (_, _, _, _, _, _, (_, _, _, _, good)), queues, _, _, _, _, _)) p =
          rw queues (good p)

  pub pump-TxOk : (s : Tx W) (now : ℕ) (w : W) → TxOk s → TxOk (pump s now w).0
  unfolding pump
  pump-TxOk s now w o =
      go (resolve s now).1 (resolve s now).0 (λ p. rw (resolve-queues s now).0 (o p))
    where
      go :
          (free : Bool) (t : Tx W)
          → TxOk t
          → TxOk
              (let r : Tx W × Bool × W = if free then start_next t now w else (t, false, w) in r.0)
      go true t good = start_next-TxOk t now w good
      go false t good = good

  drain-TxOk :
      (fuel : ℕ) (send : RadioSend W) (s : Tx W) (any : Bool) (w : W)
      → TxOk s
      → TxOk (drain fuel send s any w).0
  unfolding drain
  drain-TxOk zero send s any w o = o
  drain-TxOk (suc fuel) send s any w o =
      go (pop s telemetry) (pop-PopsTx s telemetry o)
        λ t w' good. drain-TxOk fuel send t true w' good
    where
      go :
          (r : Option (EncodedFrame × Tx W))
          → PopsTx s telemetry r
          → ((t : Tx W) (w' : W) → TxOk t → TxOk (drain fuel send t true w').0)
          → TxOk (
              let x : Tx W × Bool × W = elim r [
                | none ↦ (s, any, w)
                | some (frame, s') ↦
                    let sent = send w frame.bytes frame.size in
                    let stopped = record s' {
                      telemetry_dropped = u32 (s'.telemetry_dropped + 1);
                    } in
                    let more =
                      drain fuel send
                        (record s' { telemetry_sent = u32 (s'.telemetry_sent + 1) })
                        true
                        sent.world in
                    if sent.took then more else (stopped, any, sent.world)
              ] in
              x.0)
      go none blocked rest = o
      go (some (f, s')) (_, _, _, _, good) rest = elim (Bool-cases (send w f.bytes f.size).took) [
        | inl took ↦ rw took (rest _ _ good)
        | inr refused ↦ rw refused good
      ]

  pub pump_telemetry-TxOk : (s : Tx W) (w : W) → TxOk s → TxOk (pump_telemetry s w).0
  unfolding pump_telemetry
  pump_telemetry-TxOk s w o = go s.telemetry_radio_send
    where
      go :
          (x : Option (RadioSend W))
          → TxOk (
              let r : Tx W × Bool × W = elim x [
                | none ↦ (s, false, w)
                | some g ↦ drain 17 g s false w
              ] in
              r.0)
      go none = o
      go (some g) = drain-TxOk 17 g s false w o
