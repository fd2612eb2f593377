-- ===== src/TxScheduler/Enqueue.antt =====
-- lib/TxScheduler, `enqueue`: which frames are taken, and where they go.
use bally_os.Base.{
  ℕ, ◌+◌, ◌≤◌, ◌<◌, ◌≡◌, refl, ap, ◌∙◌, ◌≢◌, ◌⊎◌, inl, inr, Bool, true, false, ◌||◌, Option, none,
  some, List, [], ◌∷◌, ◌++◌, arith, length, ltb, leb, u16, u32, Bool-cases,
}
use bally_os.Btp.{Btp, Header}
use bally_os.TxScheduler.Queue.{
  Priority, capacity, max_capacity, EncodedFrame, update_self, update_ne, update_all,
}
use bally_os.TxScheduler.Fifo.{QueueOk, contents, contents-push}
use bally_os.TxScheduler.{Tx, store, classify, enqueue_in, enqueue, drop_one}

-- Every queue is in order.
abbrev pub TxOk : {W : Type 0} → Tx W → Type 0
TxOk s = (p : Priority) → QueueOk (capacity p) (s.queues p)

pub capacity-le : (p : Priority) → (0 < capacity p) × (capacity p ≤ max_capacity)
capacity-le p = ground arith

abbrev pub frame_of : List ℕ → EncodedFrame
frame_of bytes = record { size = u16 (length bytes); bytes = bytes }

-- A frame of a permitted size that decodes, and its header.
abbrev pub IsFrame : Btp → List ℕ → Header → Type 0
IsFrame btp bytes h =
    (btp.v1_minimum_frame_size ≤ length bytes)
    × (length bytes ≤ btp.espnow_max_frame_size)
    × (btp.decode bytes ≡ some h)

module _ {W : Type 0} where
  -- Room in class `p`, and what taking the frame there changes.
  abbrev pub Queued : Tx W → Priority → List ℕ → Tx W → Type 0
  Queued s p bytes s' =
      ((s.queues p).lock ≡ false)
      × ((s.queues p).count < capacity p)
      × (contents (capacity p) (s'.queues p)
          ≡ contents (capacity p) (s.queues p) ++ (frame_of bytes ∷ []))
      × ((p' : Priority) → p' ≢ p → s'.queues p' ≡ s.queues p')
      × (s'.accepted ≡ u32 (s.accepted + 1))
      × (s'.dropped ≡ s.dropped)

  -- A refusal: the queues stay, and the frame is counted as dropped.
  abbrev pub Refused : Tx W → Tx W → Type 0
  Refused s s' =
      (s'.queues ≡ s.queues) × (s'.accepted ≡ s.accepted) × (s'.dropped ≡ u32 (s.dropped + 1))

  store-Queued :
      (s : Tx W) (p : Priority) (bytes : List ℕ)
      → TxOk s
      → (s.queues p).lock ≡ false
      → (s.queues p).count < capacity p
      → TxOk (store s p bytes) × Queued s p bytes (store s p bytes)
  unfolding store
  store-Queued s p bytes o free space =
      let (good, order) =
        contents-push (capacity p) (s.queues p) (frame_of bytes) (capacity-le p).1 (o p) space in
      (
        update_all (λ x q. QueueOk (capacity x) q) s.queues p _ o good,
        (
          free,
          space,
          ap (contents (capacity p)) (update_self s.queues p _) ∙ order,
          update_ne s.queues p _,
          refl,
          refl,
        ),
      )

  abbrev InClass : Tx W → Priority → List ℕ → Tx W × Bool → Type 0
  InClass s p bytes (s', done) =
      TxOk s'
      × (((done ≡ true) × Queued s p bytes s')
          ⊎ ((done ≡ false)
              × Refused s s'
              × (((s.queues p).lock ≡ true) ⊎ (capacity p ≤ (s.queues p).count))))

  enqueue_in-InClass :
      (s : Tx W) (p : Priority) (bytes : List ℕ) → TxOk s → InClass s p bytes (enqueue_in s p bytes)
  unfolding enqueue_in
  enqueue_in-InClass s p bytes o = elim (Bool-cases (s.queues p).lock) [
    | inl e ↦ rw (e, enqueue_in) (o, inr (refl, (refl, refl, refl), inl refl))
    | inr e ↦ elim (Bool-cases (leb (capacity p) (s.queues p).count)) [
      | inl full ↦
          rw (e, enqueue_in)
            (rw (full, enqueue_in) (o, inr (refl, (refl, refl, refl), inr (ground arith))))
      | inr room ↦
          let (good, (_, space, order, others, count, drops)) =
            store-Queued s p bytes o e (ground arith) in
          rw (e, enqueue_in)
            (rw (room, enqueue_in) (good, inl (refl, (refl, space, order, others, count, drops))))
    ]
  ]

  -- What `enqueue` does with some bytes, or with a null pointer.
  abbrev pub Enqueues : Btp → Tx W → Option (List ℕ) → Tx W × Bool → Type 0
  Enqueues btp s input (s', done) =
      TxOk s'
      × (((bytes : List ℕ) × (h : Header) × (done ≡ true)
            × (input ≡ some bytes)
            × IsFrame btp bytes h
            × Queued s (classify btp h) bytes s')
          ⊎ ((done ≡ false) × Refused s s'))

  -- `enqueue` keeps every queue in order, and either takes a frame (its size is permitted and it decodes,
  -- the queue of its class is unlocked and not full): then the frame stands at the end of that queue
  -- only, and one more is counted as accepted; or it refuses: then all queues stay and one more is
  -- counted as dropped. Frames of telemetry are counted like the others.
  pub enqueue-Enqueues :
      (btp : Btp) (s : Tx W) (input : Option (List ℕ))
      → TxOk s
      → Enqueues btp s input (enqueue btp s input)
  unfolding enqueue drop_one
  enqueue-Enqueues btp s none o = (o, inr (refl, (refl, refl, refl)))
  enqueue-Enqueues btp s (some bytes) o =
      elim (Bool-cases (
        ltb (length bytes) btp.v1_minimum_frame_size
        || ltb btp.espnow_max_frame_size (length bytes))) [
          | inl bad ↦ rw (bad, enqueue) (o, inr (refl, (refl, refl, refl)))
          | inr fits ↦ rw (fits, enqueue) (go (btp.decode bytes) refl (ground arith))
        ]
    where
      decided :
          (h : Header)
          → (btp.v1_minimum_frame_size ≤ length bytes) × (length bytes ≤ btp.espnow_max_frame_size)
          → btp.decode bytes ≡ some h
          → (r : Tx W × Bool) → InClass s (classify btp h) bytes r
          → Enqueues btp s (some bytes) r
      decided h (low, high) e r (good, inl (done, q)) =
          (good, inl (bytes, h, done, refl, (low, high, e), q))
      decided h size e r (good, inr (done, q, _)) = (good, inr (done, q))

      go :
          (d : Option Header)
          → btp.decode bytes ≡ d
          → (btp.v1_minimum_frame_size ≤ length bytes) × (length bytes ≤ btp.espnow_max_frame_size)
          → Enqueues btp s
              (some bytes)
              (elim d [ none ↦ (drop_one s, false) | some h ↦ enqueue_in s (classify btp h) bytes ])
      go none e size = (o, inr (refl, (refl, refl, refl)))
      go (some h) e size =
          decided h size e (enqueue_in s (classify btp h) bytes)
            (enqueue_in-InClass s (classify btp h) bytes o)

  -- A frame of a permitted size that decodes is taken whenever the queue of its class is unlocked and has
  -- room.
  pub enqueue_total :
      (btp : Btp) (s : Tx W) (bytes : List ℕ) (h : Header)
      → TxOk s
      → IsFrame btp bytes h
      → (s.queues (classify btp h)).lock ≡ false
      → (s.queues (classify btp h)).count < capacity (classify btp h)
      → (enqueue btp s (some bytes)).1 ≡ true
  unfolding enqueue enqueue_in
  enqueue_total btp s bytes h o (low, high, e) free room =
      let fits : (ltb (length bytes) btp.v1_minimum_frame_size
            || ltb btp.espnow_max_frame_size (length bytes))
          ≡ false =
        ground arith in
      let p = classify btp h in
      let space : leb (capacity p) (s.queues p).count ≡ false = ground arith in
      rw (fits, enqueue) (rw (e, enqueue) (rw (free, enqueue_in) (rw (space, enqueue_in))))
