-- ===== src/TxScheduler/Telemetry.antt =====
-- lib/TxScheduler, `pump_telemetry`: the telemetry queue against a plain list of frames.
use bally_os.Base.{
  ℕ, zero, suc, ◌+◌, ◌<◌, ◌≡◌, refl, ap, sym, subst, ◌∙◌, ◌≢◌, ◌==◌, length, inl, inr, Bool, true,
  false, Option, none, some, List, [], ◌∷◌, arith, if◌then◌else◌, u32, Bool-cases,
}
use bally_os.TxScheduler.Queue.{Priority, telemetry, capacity, EncodedFrame}
use bally_os.TxScheduler.Fifo.{contents, length-entries}
use bally_os.TxScheduler.Enqueue.{TxOk}
use bally_os.TxScheduler.Pump.{PopsTx, pop-PopsTx}
use bally_os.TxScheduler.{Tx, RadioSend}
use bally_os.TxScheduler.Radio.{pop, drain, pump_telemetry}

-- Frames handed to the driver one after the other, up to the first that it refuses: how many it
-- took, whether it refused one, what is left behind that one, and its world.
pub record Burst (W : Type 0) : Type 0 where
  pub taken : ℕ
  pub refused : Bool
  pub left : List EncodedFrame
  pub world : W

any_lem :
    (n : ℕ) (any : Bool) → (if n == 0 then true else true) ≡ (if suc n == 0 then any else true)
any_lem n any = ground arith

module _ {W : Type 0} (send : RadioSend W) where
  unfoldable pub burst : List EncodedFrame → W → Burst W
  burst [] w = record { taken = 0; refused = false; left = []; world = w }
  burst (f ∷ fs) w =
      let sent = send w f.bytes f.size in
      let rest = burst fs sent.world in
      if sent.took
      then record rest { taken = suc rest.taken }
      else record { taken = 0; refused = true; left = fs; world = sent.world }

  -- What the loop of `pump_telemetry` makes of the frames `fs` in the queue.
  abbrev pub Drains : Tx W → Bool → List EncodedFrame → W → Tx W × Bool × W → Type 0
  Drains s any fs w (t, any', w') =
      let b = burst fs w in
      (contents (capacity telemetry) (t.queues telemetry) ≡ b.left)
      × (w' ≡ b.world)
      × (any' ≡ (if b.taken == 0 then any else true))
      × (u32 t.telemetry_sent ≡ u32 (s.telemetry_sent + b.taken))
      × (u32 t.telemetry_dropped ≡ u32 (s.telemetry_dropped + (if b.refused then 1 else 0)))
      × ((p : Priority) → p ≢ telemetry → t.queues p ≡ s.queues p)
      × TxOk t

  drain-Drains :
      (fuel : ℕ) (s : Tx W) (any : Bool) (fs : List EncodedFrame) (w : W)
      → length fs < fuel
      → TxOk s
      → (s.queues telemetry).lock ≡ false
      → contents (capacity telemetry) (s.queues telemetry) ≡ fs
      → Drains s any fs w (drain fuel send s any w)
  unfolding drain burst
  drain-Drains zero s any fs w lt o free e = absurd (omega arith)
  drain-Drains (suc fuel) s any fs w lt o free e =
      go (pop s telemetry) (pop-PopsTx s telemetry o) fs lt e
        λ s' gs w'. drain-Drains fuel s' true gs w'
    where
      step : Option (EncodedFrame × Tx W) → Tx W × Bool × W
      step r = elim r [
        | none ↦ (s, any, w)
        | some (frame, s') ↦
            let sent = send w frame.bytes frame.size in
            let stopped = record s' { telemetry_dropped = u32 (s'.telemetry_dropped + 1) } in
            let more =
              drain fuel send (record s' { telemetry_sent = u32 (s'.telemetry_sent + 1) }) true
                sent.world in
            if sent.took then more else (stopped, any, sent.world)
      ]

      go :
          (r : Option (EncodedFrame × Tx W))
          → PopsTx s telemetry r
          → (gs : List EncodedFrame) → length gs < suc fuel
          → contents (capacity telemetry) (s.queues telemetry) ≡ gs
          → ((s' : Tx W) (hs : List EncodedFrame) (w' : W)
              → length hs < fuel
              → TxOk s'
              → (s'.queues telemetry).lock ≡ false
              → contents (capacity telemetry) (s'.queues telemetry) ≡ hs
              → Drains s' true hs w' (drain fuel send s' true w'))
          → Drains s any gs w (step r)
      go none (inl locked) gs lt' e' ih = cc
      go none (inr empty) [] lt' e' ih =
          (e', refl, refl, omega arith, omega arith, (λ p ne. refl), o)
      go none (inr empty) (g ∷ gs) lt' e' ih = cc
      go (some (f, s')) taken [] lt' e' ih = cc
      go (some (f, s')) (order, others, same, locks, good) (g ∷ gs) lt' e' ih =
          let head : g ≡ f = cc in
          let tail : contents (capacity telemetry) (s'.queues telemetry) ≡ gs = cc in
          let sent = send w f.bytes f.size in
          let s'' : Tx W = record s' { telemetry_sent = u32 (s'.telemetry_sent + 1) } in
          let sum = ap (λ (x : Tx W). x.telemetry_sent) same in
          let lost = ap (λ (x : Tx W). x.telemetry_dropped) same in
          rw head (elim (Bool-cases sent.took) [
            | inl took ↦
                let (kept, world, any', count, drops, rest, fine) =
                  ih s'' gs sent.world (omega arith) good (locks telemetry ∙ free) tail in
                rw took (
                  kept,
                  world,
                  any' ∙ any_lem (burst gs sent.world).taken any,
                  omega (arith, sum),
                  omega (arith, lost),
                  (λ p ne. rest p ne ∙ others p ne),
                  fine,
                )
            | inr refused ↦
                rw refused (tail, refl, refl, omega (arith, sum), omega (arith, lost), others, good)
          ])

module _ {W : Type 0} where
  -- `pump_telemetry` hands the queued telemetry to the driver in order, up to the first frame that the
  -- driver refuses. The frames behind that one stay in the queue in their order; the refused one is
  -- lost and counted, and so is each frame sent. It returns whether any was sent; no other queue changes.
  pub pump_telemetry-Drains :
      (s : Tx W) (send : RadioSend W) (w : W)
      → TxOk s
      → (s.queues telemetry).lock ≡ false
      → s.telemetry_radio_send ≡ some send
      → Drains send s false
          (contents (capacity telemetry) (s.queues telemetry))
          w
          (pump_telemetry s w)
  unfolding pump_telemetry
  pump_telemetry-Drains s send w o free e =
      subst (Drains send s false (contents (capacity telemetry) (s.queues telemetry)) w)
        (ap branch (sym e))
        (drain-Drains send 17 s false _ w
          (omega (
            arith,
            length-entries 16 (s.queues telemetry).frames (s.queues telemetry).read
                (s.queues telemetry).count,
            (o telemetry).count_le,
          ))
          o free refl)
    where
      branch : Option (RadioSend W) → Tx W × Bool × W
      branch x = elim x [ none ↦ (s, false, w) | some g ↦ drain 17 g s false w ]
