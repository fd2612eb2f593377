-- ===== src/TxScheduler/Account.antt =====
-- lib/TxScheduler: no frame is lost from the count. Every frame that was offered to `enqueue` is in
-- one place: delivered, dropped, sent or dropped as telemetry, queued, or awaiting delivery.
use bally_os.Base.{
  ℕ, zero, suc, ◌+◌, ◌≡◌, refl, ap, ◌∙◌, inl, inr, Bool, true, false, Option, none, some, List, [],
  ◌∷◌, arith, length, get_or, ◌-◌, ◌%◌, ◌==◌, if◌then◌else◌, u16, u32, Bool-cases, Option-cases,
}
use bally_os.TxScheduler.Queue.{
  Priority, command_result, status, terminal, critical_log, telemetry, debug, index, priorities,
  capacity, update, EncodedFrame, FrameQueue, pop_queue, push, empty_frame,
}
use bally_os.TxScheduler.{Tx, RadioSend, store, enqueue_in}
use bally_os.TxScheduler.Radio.{
  pop, pop_first, on_delivery, transmit, resolve, start_next, pump, drain, pump_telemetry,
}

abbrev pub queued_total : (Priority → FrameQueue) → ℕ
queued_total qs =
    (qs command_result).count
    + (qs status).count
    + (qs terminal).count
    + (qs critical_log).count
    + (qs telemetry).count
    + (qs debug).count

abbrev outstanding : Bool → ℕ
outstanding true = 1
outstanding false = 0

-- Where the offered frames are.
abbrev pub total : {W : Type 0} → Tx W → ℕ
total s =
    s.delivered
    + s.dropped
    + s.telemetry_sent
    + s.telemetry_dropped
    + queued_total s.queues
    + outstanding s.awaiting_delivery

queued_total-update :
    (qs : Priority → FrameQueue) (p : Priority) (q : FrameQueue)
    → queued_total (update qs p q) + (qs p).count ≡ queued_total qs + q.count
queued_total-update qs p q = ground arith

abbrev LessOne : FrameQueue → Option (EncodedFrame × FrameQueue) → Type 0
LessOne q none = Unit
LessOne q (some (f, q')) = q.count ≡ suc q'.count

pop_queue-LessOne : (cap : ℕ) (q : FrameQueue) → LessOne q (pop_queue cap q)
unfolding pop_queue
pop_queue-LessOne cap q = go q.lock (q.count == 0) refl
  where
    go :
        (locked empty : Bool)
        → (q.count == 0) ≡ empty
        → LessOne q (
            if locked
            then none
            else if empty
            then none
            else some (
              get_or q.frames q.read empty_frame,
              record q { read = (q.read + 1) % cap; count = q.count - 1 },
            ))
    go true empty e = tt
    go false true e = tt
    go false false e = ground arith

module _ {W : Type 0} where
  store-total :
      (s : Tx W) (p : Priority) (bytes : List ℕ) → u32 (total (store s p bytes)) ≡ u32 (total s + 1)
  unfolding store
  store-total s p bytes = omega (
    arith,
    queued_total-update s.queues p
        (push (capacity p) (s.queues p) (record { size = u16 (length bytes); bytes = bytes })),
  )

  pub enqueue_in-total :
      (s : Tx W) (p : Priority) (bytes : List ℕ)
      → u32 (total (enqueue_in s p bytes).0) ≡ u32 (total s + 1)
  unfolding enqueue_in
  enqueue_in-total s p bytes = ground (arith, store-total s p bytes)

  -- A frame has left one queue, and nothing else changed.
  abbrev Taken : Tx W → Option (EncodedFrame × Tx W) → Type 0
  Taken s none = Unit
  Taken s (some (f, s')) =
      (suc (queued_total s'.queues) ≡ queued_total s.queues)
      × (s' ≡ record s { queues = s'.queues })

  pop-Taken : (s : Tx W) (p : Priority) → Taken s (pop s p)
  unfolding pop
  pop-Taken s p =
      go (pop_queue (capacity p) (s.queues p)) (pop_queue-LessOne (capacity p) (s.queues p))
    where
      go :
          (r : Option (EncodedFrame × FrameQueue))
          → LessOne (s.queues p) r
          → Taken s (elim r [
            | none ↦ none
            | some (frame, q) ↦ some (frame, record s { queues = update s.queues p q })
          ])
      go none less = tt
      go (some (f, q)) less = (omega (arith, queued_total-update s.queues p q), refl)

  pop_first-Taken : (s : Tx W) (ps : List Priority) → Taken s (pop_first s ps)
  unfolding pop_first
  pop_first-Taken s [] = tt
  pop_first-Taken s (p ∷ ps) = elim (Bool-cases (index p == index telemetry)) [
    | inl e ↦ rw (e, pop_first) (pop_first-Taken s ps)
    | inr e ↦ rw (e, pop_first) (go (pop s p) (pop-Taken s p) (pop_first-Taken s ps))
  ]
    where
      go :
          (r : Option (EncodedFrame × Tx W))
          → Taken s r
          → Taken s (pop_first s ps)
          → Taken s (elim r [ none ↦ pop_first s ps | some x ↦ some x ])
      go none taken rest = rest
      go (some x) taken rest = taken

  transmit-total :
      (send : RadioSend W) (s : Tx W) (f : EncodedFrame) (now : ℕ) (w : W)
      → s.awaiting_delivery ≡ false
      → u32 (total (transmit send s f now w).0) ≡ u32 (suc (total s))
  unfolding transmit
  transmit-total send s f now w idle = ground arith

  pub resolve-total :
      (s : Tx W) (now : ℕ)
      → (u32 (total (resolve s now).0) ≡ u32 (total s))
        × ((resolve s now).1 ≡ true → (resolve s now).0.awaiting_delivery ≡ false)
  unfolding resolve
  resolve-total s now = ground arith

  pub on_delivery-total : (s : Tx W) (ok : Bool) → total (on_delivery s ok) ≡ total s
  unfolding on_delivery
  on_delivery-total s ok = ground arith

  start_next-total :
      (s : Tx W) (now : ℕ) (w : W)
      → s.awaiting_delivery ≡ false
      → u32 (total (start_next s now w).0) ≡ u32 (total s)
  unfolding start_next
  start_next-total s now w idle =
      go s.radio_send (pop_first s priorities) (pop_first-Taken s priorities)
    where
      go :
          (o : Option (RadioSend W)) (r : Option (EncodedFrame × Tx W))
          → Taken s r
          → u32 (
              total (
                let t : Tx W × Bool × W = elim o [
                  | none ↦ (s, false, w)
                  | some send ↦ elim r [
                    | none ↦ (s, false, w)
                    | some (frame, s') ↦ transmit send s' frame now w
                  ]
                ] in
                t.0))
            ≡ u32 (total s)
      go none r taken = refl
      go (some send) none taken = refl
      go (some send) (some (f, s')) (less, same) =
          let idle' : s'.awaiting_delivery ≡ false = rw same idle in
          omega (arith, transmit-total send s' f now w idle', ap total same)

  pub pump-total : (s : Tx W) (now : ℕ) (w : W) → u32 (total (pump s now w).0) ≡ u32 (total s)
  unfolding pump
  pump-total s now w = go (resolve s now) (resolve-total s now)
    where
      go :
          (r : Tx W × Bool)
          → (u32 (total r.0) ≡ u32 (total s)) × (r.1 ≡ true → r.0.awaiting_delivery ≡ false)
          → u32 (
              total (
                let t : Tx W × Bool × W = if r.1 then start_next r.0 now w else (r.0, false, w) in
                t.0))
            ≡ u32 (total s)
      go (s', false) (same, idle) = same
      go (s', true) (same, idle) = start_next-total s' now w (idle refl) ∙ same

  drain-total :
      (fuel : ℕ) (send : RadioSend W) (s : Tx W) (any : Bool) (w : W)
      → u32 (total (drain fuel send s any w).0) ≡ u32 (total s)
  unfolding drain
  drain-total zero send s any w = refl
  drain-total (suc fuel) send s any w =
      go (pop s telemetry) (pop-Taken s telemetry) λ s' w'. drain-total fuel send s' true w'
    where
      go :
          (r : Option (EncodedFrame × Tx W))
          → Taken s r
          → ((s' : Tx W) (w' : W) → u32 (total (drain fuel send s' true w').0) ≡ u32 (total s'))
          → u32 (
              total (
                let t : Tx W × Bool × W = elim r [
                  | none ↦ (s, any, w)
                  | some (frame, s') ↦
                      let sent = send w frame.bytes frame.size in
                      let stopped = record s' {
                        telemetry_dropped = u32 (s'.telemetry_dropped + 1);
                      } in
                      let more =
                        drain fuel send
                          (record s' { telemetry_sent = u32 (s'.telemetry_sent + 1) })
                          true
                          sent.world in
                      if sent.took then more else (stopped, any, sent.world)
                ] in
                t.0))
            ≡ u32 (total s)
      go none taken rest = refl
      go (some (f, s')) (less, same) rest =
          let sent = send w f.bytes f.size in
          let s'' : Tx W = record s' { telemetry_sent = u32 (s'.telemetry_sent + 1) } in
          ground (arith, ap total same, rest s'' sent.world)

  pub pump_telemetry-total : (s : Tx W) (w : W) → u32 (total (pump_telemetry s w).0) ≡ u32 (total s)
  unfolding pump_telemetry
  pump_telemetry-total s w = elim (Option-cases s.telemetry_radio_send) [
    | inl e ↦ ground arith
    | inr (send, e) ↦ ground (arith, drain-total 17 send s false w)
  ]
