-- ===== src/Logger/Inserted.antt =====
-- lib/Logger: what `insert_log` leaves for the card and for the radio.
use bally_os.Base.{
  ℕ, ◌^◌, ◌<◌, ◌≡◌, sym, subst, Bool, true, false, not, ◌||◌, Option, none, some, List, [], ◌∷◌,
  ◌++◌, append-nil, arith, leb, ◌==◌, if◌then◌else◌, length,
}
use bally_os.Btp.{Btp}
use bally_os.Logger.Records.{LogRecord}
use bally_os.Logger.{
  Logger, Port, Capture, capture_capacity, two_milliseconds, capture_text, wait_for_mutex,
}
use bally_os.Logger.Inserting.{insert_log_impl, insert_text, insert_log}
use bally_os.Logger.Pending.{Pending, Sizes, Inserts, record_of, admitted, insert_log_impl-Inserts}

-- The clock and the counter of sequence numbers give numbers of 64 and 32 bits.
pub record PortOk {W : Type 0} (p : Port W) : Type 0 where
  pub time_fits : (w : W) → p.now_us w < 2 ^ 64
  pub sequence_fits : (w : W) (s : ℕ) → (p.reserve_sequence w).0 ≡ some s → s < 2 ^ 32

abbrev pub listed : Option LogRecord → List LogRecord
listed none = []
listed (some s) = s ∷ []

capture-Pending :
    {l : Logger} {sent todo : List LogRecord} (c : Capture)
    → Pending l sent todo
    → Pending (record l { capture = c }) sent todo
capture-Pending c v = record {
  retains = v.retains;
  pending = v.pending;
  offset = v.offset;
  current = v.current;
}

-- Capturing a text for a terminal changes nothing of the records.
capture_text-Pending :
    {W : Type 0} (p : Port W) {l : Logger} {sent todo : List LogRecord} (text : List ℕ) (w : W)
    → Pending l sent todo
    → Pending (capture_text p l text w) sent todo
unfolding capture_text
capture_text-Pending p {l} {sent} {todo} text w v = go _ (
    not l.capture.active
    || length text == 0
    || not (p.current_task w == l.capture.task)
    || leb capture_capacity (length l.capture.buffer))
  where
    go : (c : Capture) (b : Bool) → Pending (if b then l else record l { capture = c }) sent todo
    go c true = v
    go c false = capture-Pending c v

Inserts-listed :
    (l l' : Logger) (sent todo : List LogRecord) (made : Option LogRecord)
    → Pending l sent todo
    → Inserts l l' sent todo made
    → Pending l' sent (todo ++ listed made)
Inserts-listed l l' sent todo none v e =
    subst (λ z. Pending z sent (todo ++ [])) (sym e)
      (subst (Pending l sent) (sym (append-nil todo)) v)
Inserts-listed l l' sent todo (some s) v e = e

module _ (btp : Btp) (sizes : Sizes btp) {W : Type 0} (p : Port W) (ok : PortOk p) where
  -- The record that a text becomes, if it is kept.
  abbrev pub kept_of : Logger → List LogRecord → List ℕ → ℕ → W → Option LogRecord
  kept_of l kept text log_type w =
      admitted btp l kept text (record_of btp text log_type (p.now_us w)) (p.reserve_sequence w).0

  insert_log_impl-Pending :
      {l : Logger} {sent todo : List LogRecord} (text : List ℕ) (log_type : ℕ) (w : W)
      → log_type < 2 ^ 8
      → Pending l sent todo
      → Pending
          (insert_log_impl btp p l text log_type (p.now_us w) w).0
          sent
          (todo ++ listed (kept_of l (sent ++ todo) text log_type w))
  unfolding insert_log_impl
  insert_log_impl-Pending {l} {sent} {todo} [] log_type w fits v =
      subst (Pending l sent) (sym (append-nil todo)) v
  insert_log_impl-Pending {l} {sent} {todo} (c ∷ cs) log_type w fits v =
      Inserts-listed l _ sent todo (kept_of l (sent ++ todo) (c ∷ cs) log_type w) v (
        insert_log_impl-Inserts btp sizes v (c ∷ cs) log_type (p.now_us w) (omega arith) fits
          (ok.time_fits w) p w (ok.sequence_fits w))

  -- When the mutex is had, `insert_log` adds one record at the end of those to send, if the text is not empty,
  -- there are memory, an endpoint and a sequence number, and a header and the text, cut at the limit of
  -- a record, fit beside all records kept: its header has the cut length, the type, the time and the
  -- sequence number, and its payload is the cut text. Else it adds none. The records kept before stay as they are
  -- in either case, sent or not, and so does what is known of the record that is being sent.
  pub insert_log-Pending :
      {l : Logger} {sent todo : List LogRecord} (text : List ℕ) (log_type : ℕ) (w : W)
      → log_type < 2 ^ 8
      → Pending l sent todo
      → Pending (insert_log btp p l log_type (some text) w).0 sent (
          todo
          ++ (if (wait_for_mutex p l two_milliseconds w).0
              then listed
                  (kept_of l (sent ++ todo) text log_type (wait_for_mutex p l two_milliseconds w).1)
              else []))
  unfolding insert_log insert_text
  insert_log-Pending {l} {sent} {todo} text log_type w fits v =
      go (wait_for_mutex p l two_milliseconds w)
    where
      go :
          (m : Bool × W)
          → Pending
              (if m.0 then insert_text btp p text log_type l m.1 else (l, m.1)).0
              sent
              (todo ++ (if m.0 then listed (kept_of l (sent ++ todo) text log_type m.1) else []))
      go (false, w1) = subst (Pending l sent) (sym (append-nil todo)) v
      go (true, w1) =
          capture_text-Pending p text (insert_log_impl btp p l text log_type (p.now_us w1) w1).1
            (insert_log_impl-Pending text log_type w1 fits v)
