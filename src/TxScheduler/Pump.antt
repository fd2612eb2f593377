-- ===== src/TxScheduler/Pump.antt =====
-- lib/TxScheduler, `pump`: which frame it sends, and when it sends none.
use bally_os.Base.{
  ℕ, ◌≤◌, ◌≡◌, refl, ap, sym, subst, ◌∙◌, ◌≢◌, ◌⊎◌, ◌↔◌, inl, inr, Bool, true, false, Option, none,
  some, List, [], ◌∷◌, ◌++◌, arith, All, ◌==◌, if◌then◌else◌, sub_u64, Bool-cases,
}
use bally_os.TxScheduler.Queue.{
  Priority, telemetry, index, priorities, capacity, update, EncodedFrame, FrameQueue, pop_queue,
  index-injective, update_self, update_ne, update_all,
}
use bally_os.TxScheduler.Fifo.{QueueOk, contents, Pops, pop_queue-Pops}
use bally_os.TxScheduler.Enqueue.{TxOk}
use bally_os.TxScheduler.{Tx, RadioSend}
use bally_os.TxScheduler.Radio.{pop, pop_first, transmit, resolve, start_next, pump}

not_telemetry : (p : Priority) → p ≡ telemetry → (index p == index telemetry) ≡ false → ⊥
not_telemetry p e h = ground arith

module _ {W : Type 0} where
  -- A class from which no frame can be taken now.
  abbrev pub Blocked : Tx W → Priority → Type 0
  Blocked s p = ((s.queues p).lock ≡ true) ⊎ (contents (capacity p) (s.queues p) ≡ [])

  -- A class that `pump` passes over: telemetry, or a blocked one.
  abbrev pub Skipped : Tx W → Priority → Type 0
  Skipped s p = (p ≡ telemetry) ⊎ Blocked s p

  -- The oldest frame of class `p` has left its queue, and nothing else changed.
  abbrev pub Popped : Tx W → Priority → EncodedFrame → Tx W → Type 0
  Popped s p f s' =
      (contents (capacity p) (s.queues p) ≡ f ∷ contents (capacity p) (s'.queues p))
      × ((p' : Priority) → p' ≢ p → s'.queues p' ≡ s.queues p')
      × (s' ≡ record s { queues = s'.queues })
      × ((p' : Priority) → (s'.queues p').lock ≡ (s.queues p').lock)
      × TxOk s'

  -- The first class of the list with a frame to take.
  abbrev pub Chosen : Tx W → List Priority → EncodedFrame → Tx W → Type 0
  Chosen s ps f s' =
      (before : List Priority) × (p : Priority) × (after : List Priority) × (ps
        ≡ before ++ (p ∷ after))
      × All (Skipped s) before
      × (p ≢ telemetry)
      × Popped s p f s'

  abbrev pub PopsTx : Tx W → Priority → Option (EncodedFrame × Tx W) → Type 0
  PopsTx s p none = Blocked s p
  PopsTx s p (some (f, s')) = Popped s p f s'

  pub pop-PopsTx : (s : Tx W) (p : Priority) → TxOk s → PopsTx s p (pop s p)
  unfolding pop
  pop-PopsTx s p o = go (pop_queue (capacity p) (s.queues p)) (pop_queue-Pops _ (s.queues p) (o p))
    where
      go :
          (r : Option (EncodedFrame × FrameQueue))
          → Pops (capacity p) (s.queues p) r
          → PopsTx s p (elim r [
            | none ↦ none
            | some (frame, q) ↦ some (frame, record s { queues = update s.queues p q })
          ])
      go none (inl locked) = inl locked
      go none (inr (_, empty)) = inr empty
      go (some (f, q)) (good, order, fewer, free) = (
        order ∙ ap (λ x. f ∷ contents (capacity p) x) (sym (update_self s.queues p q)),
        update_ne s.queues p q,
        refl,
        update_all (λ x y. y.lock ≡ (s.queues x).lock) s.queues p q (λ x. refl) free,
        update_all (λ x y. QueueOk (capacity x) y) s.queues p q o good,
      )

  abbrev First : Tx W → List Priority → Option (EncodedFrame × Tx W) → Type 0
  First s ps none = All (Skipped s) ps
  First s ps (some (f, s')) = Chosen s ps f s'

  First-cons :
      (s : Tx W) (p : Priority) (ps : List Priority) (r : Option (EncodedFrame × Tx W))
      → Skipped s p
      → First s ps r
      → First s (p ∷ ps) r
  First-cons s p ps none skip rest = (skip, rest)
  First-cons s p ps (some (f, s')) skip (before, q, after, e, skips, ne, taken) =
      (p ∷ before, q, after, ap (◌∷◌ p) e, (skip, skips), ne, taken)

  pop_first-First : (s : Tx W) (ps : List Priority) → TxOk s → First s ps (pop_first s ps)
  unfolding pop_first
  pop_first-First s [] o = tt
  pop_first-First s (p ∷ ps) o = elim (Bool-cases (index p == index telemetry)) [
    | inl e ↦
        rw (e, pop_first)
          (First-cons s p ps _ (inl (index-injective p telemetry e)) (pop_first-First s ps o))
    | inr e ↦
        rw (e, pop_first)
          (go (λ q. not_telemetry p q e) (pop s p) (pop-PopsTx s p o) (pop_first-First s ps o))
  ]
    where
      go :
          p ≢ telemetry
          → (r : Option (EncodedFrame × Tx W)) → PopsTx s p r
          → First s ps (pop_first s ps)
          → First s (p ∷ ps) (elim r [ none ↦ pop_first s ps | some x ↦ some x ])
      go ne none blocked rest = First-cons s p ps (pop_first s ps) (inr blocked) rest
      go ne (some (f, s')) taken rest = ([], p, ps, refl, tt, ne, taken)

  -- What `pump` does once no frame awaits delivery, with the driver's callback bound. Either every
  -- class is passed over, and nothing is sent; or the driver got the oldest frame of the first class
  -- that is not passed over, and the frame is pending from now on if the driver took it.
  abbrev pub Starts : Tx W → RadioSend W → ℕ → W → Tx W × Bool × W → Type 0
  Starts s send now w (t, done, w') =
      ((t ≡ s) × (done ≡ false) × (w' ≡ w) × All (Skipped s) priorities)
      ⊎ ((f : EncodedFrame) × (s' : Tx W) × Chosen s priorities f s'
          × (t.queues ≡ s'.queues)
          × (t.pending ≡ f)
          × (t.pending_since_ms ≡ now)
          × (w' ≡ (send w f.bytes f.size).world)
          × (done ≡ (send w f.bytes f.size).took)
          × (t.awaiting_delivery ≡ (send w f.bytes f.size).took))

  transmit_lem :
      (send : RadioSend W) (s : Tx W) (f : EncodedFrame) (now : ℕ) (w : W)
      → let (t, done, w') = transmit send s f now w in
        (t.queues ≡ s.queues)
        × (t.pending ≡ f)
        × (t.pending_since_ms ≡ now)
        × (w' ≡ (send w f.bytes f.size).world)
        × (done ≡ (send w f.bytes f.size).took)
        × (t.awaiting_delivery ≡ (send w f.bytes f.size).took)
  unfolding transmit
  transmit_lem send s f now w = ground arith

  pub start_next-Starts :
      (s : Tx W) (send : RadioSend W) (now : ℕ) (w : W)
      → TxOk s
      → s.radio_send ≡ some send
      → Starts s send now w (start_next s now w)
  unfolding start_next
  start_next-Starts s send now w o e =
      subst (Starts s send now w) (ap (λ x. branch x) (sym e))
        (go (pop_first s priorities) (pop_first-First s priorities o))
    where
      onward : RadioSend W → Option (EncodedFrame × Tx W) → Tx W × Bool × W
      onward g r = elim r [ none ↦ (s, false, w) | some (frame, s') ↦ transmit g s' frame now w ]

      branch : Option (RadioSend W) → Tx W × Bool × W
      branch x = elim x [ none ↦ (s, false, w) | some g ↦ onward g (pop_first s priorities) ]

      go :
          (r : Option (EncodedFrame × Tx W))
          → First s priorities r
          → Starts s send now w (onward send r)
      go none skips = inl (refl, refl, refl, skips)
      go (some (f, s')) chosen =
          let (queues, frame, since, world, done, waits) = transmit_lem send s' f now w in
          inr (f, s', chosen, queues, frame, since, world, done, waits)

  -- No frame awaits delivery any more: none did, its callback has come, or its time is over.
  abbrev pub IsFree : Tx W → ℕ → Type 0
  IsFree s now =
      (s.awaiting_delivery ≡ false)
      ⊎ (s.delivery_event ≡ 1)
      ⊎ (s.delivery_event ≡ 2)
      ⊎ (s.delivery_timeout_ms ≤ sub_u64 now s.pending_since_ms)

  resolve-IsFree : (s : Tx W) (now : ℕ) → ((resolve s now).1 ≡ true) ↔ IsFree s now
  unfolding resolve
  resolve-IsFree s now = ground arith

  resolve_busy :
      (s : Tx W) (now : ℕ)
      → ¬ IsFree s now
      → resolve s now ≡ (record s { delivery_event = 0 }, false)
  unfolding resolve
  resolve_busy s now busy = ground arith

  pub resolve-queues :
      (s : Tx W) (now : ℕ)
      → ((resolve s now).0.queues ≡ s.queues) × ((resolve s now).0.radio_send ≡ s.radio_send)
  unfolding resolve
  resolve-queues s now = ground arith

  -- When no frame awaits delivery any more, `pump` goes through the classes in the order of priority: it
  -- sends the oldest frame of the first class that has one to give, never telemetry, and takes
  -- that frame from its queue, whether or not the driver accepts it; or it sends nothing, because
  -- every class but telemetry is empty or locked.
  pub pump-Starts :
      (s : Tx W) (send : RadioSend W) (now : ℕ) (w : W)
      → TxOk s
      → s.radio_send ≡ some send
      → IsFree s now
      → Starts (resolve s now).0 send now w (pump s now w)
  unfolding pump
  pump-Starts s send now w o e free =
      let (queues, radio) = resolve-queues s now in
      rw ((resolve-IsFree s now).1 free)
        (start_next-Starts (resolve s now).0 send now w (λ p. rw queues (o p)) (radio ∙ e))

  -- While a frame awaits delivery, no callback has come and its time is not over, `pump` sends nothing:
  -- the state stays (up to an event that means nothing), and the driver is not entered.
  pub pump_waits :
      (s : Tx W) (now : ℕ) (w : W)
      → ¬ IsFree s now
      → pump s now w ≡ (record s { delivery_event = 0 }, false, w)
  unfolding pump
  pump_waits s now w busy =
      ap (λ (r : Tx W × Bool). if r.1 then start_next r.0 now w else (r.0, false, w))
        (resolve_busy s now busy)
