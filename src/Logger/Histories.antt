-- ===== src/Logger/Histories.antt =====
-- lib/Logger: the calls as steps that the mutex puts in an order, and what any sequence of them keeps.
use bally_os.Base.{
  ℕ, ◌+◌, ◌%◌, ◌^◌, ◌≤◌, ◌<◌, ◌≡◌, refl, sym, ap, subst, ◌∙◌, Bool, true, false, some, List, [],
  ◌∷◌, ◌++◌, arith, ◌==◌, if◌then◌else◌, inl, inr, Bool-cases, ◌⊎◌, ◌&&◌,
}
use bally_os.Btp.{Btp}
use native.Mathlib.Nat.{mod-eq_of_lt}
use bally_os.Logger.Storage.{Ring, StoredLogHeader, no_header, read_header_at}
use bally_os.Logger.Records.{LogRecord, all_octets, length-all_octets-cons}
use bally_os.Logger.Retained.{Retains, read_header_at-Holds}
use bally_os.Logger.{Logger, Port}
use bally_os.Logger.Inserting.{insert_log}
use bally_os.Logger.Pending.{Pending, Current, Sizes}
use bally_os.Logger.Inserted.{PortOk, insert_log-Pending}
use bally_os.Logger.Sending.{next_chunk, finish_chunk}
use bally_os.Logger.Steps.{Sends, current_lem, next_chunk-Sends, finish_chunk-Sends}
use bally_os.Logger.Storing.{release_record}
use bally_os.Logger.Releasing.{release_record-Pending, release_record_unsent-Pending}

-- What the mutex is held for once: a text that is offered, a piece that `flush_logs` takes, a piece of `n`
-- octets that has gone, and the release of the record whose header `flush_logs_to` has read with `remaining`
-- octets before it. The last one is not made while that record is the one being sent.
pub data Step (btp : Btp) {W : Type 0} (p : Port W) (tag_size : ℕ) : Logger → Logger → Type 0 where
  inserts :
      {l : Logger} (text : List ℕ) (log_type : ℕ) (w : W)
      → log_type < 2 ^ 8
      → Step btp p tag_size l (insert_log btp p l log_type (some text) w).0
  takes : {l : Logger} → Step btp p tag_size l (next_chunk btp tag_size l).0
  finishes :
      {l : Logger} (n : ℕ)
      → l.send_record_bytes_done + n ≤ l.send_header.payload_length
      → Step btp p tag_size l (finish_chunk l n).1
  releases :
      {l : Logger} (header : StoredLogHeader) (remaining : ℕ)
      → read_header_at l.ring l.ring.read_offset remaining no_header ≡ (true, header)
      → remaining ≤ l.ring.used_bytes
      → (l.send_record_active && l.pending_send_bytes == l.ring.used_bytes) ≡ false
      → Step btp p tag_size l (release_record l header)

pub data Reaches (btp : Btp) {W : Type 0} (p : Port W) (tag_size : ℕ)
    : Logger → Logger → Type 0 where
  stays : {l : Logger} → Reaches btp p tag_size l l
  then_step :
      {l m n : Logger}
      → Reaches btp p tag_size l m
      → Step btp p tag_size m n
      → Reaches btp p tag_size l n

-- The ring holds whole records, oldest first, and both cursors of the radio stand between two of them.
pub record IsIntact (l : Logger) : Type 0 where
  pub sent : List LogRecord
  pub todo : List LogRecord
  pub pending : Pending l sent todo

next_chunk-nothing :
    (btp : Btp) (tag_size : ℕ) (l : Logger)
    → l.pending_send_bytes ≡ 0
    → (next_chunk btp tag_size l).0 ≡ l
unfolding next_chunk
next_chunk-nothing btp tag_size l e = ground (arith, e)

next_chunk-refused :
    (btp : Btp) (tag_size : ℕ) (l : Logger)
    → (l.storage_granted && l.endpoint_set) ≡ false
    → (next_chunk btp tag_size l).0 ≡ l
unfolding next_chunk
next_chunk-refused btp tag_size l e = ground (arith, e)

next_chunk-IsIntact :
    (btp : Btp) (tag_size : ℕ) (l : Logger)
    → Sizes btp
    → IsIntact l
    → IsIntact (next_chunk btp tag_size l).0
next_chunk-IsIntact btp tag_size l sizes v =
    go v.sent v.todo v.pending (Bool-cases (l.storage_granted && l.endpoint_set))
  where
    go :
        (sent todo : List LogRecord)
        → Pending l sent todo
        → (((l.storage_granted && l.endpoint_set) ≡ true)
            ⊎ ((l.storage_granted && l.endpoint_set) ≡ false))
        → IsIntact (next_chunk btp tag_size l).0
    go sent [] w ready = subst IsIntact (sym (next_chunk-nothing btp tag_size l w.pending)) v
    go sent (s ∷ rest) w (inr refused) =
        subst IsIntact (sym (next_chunk-refused btp tag_size l refused)) v
    go sent (s ∷ rest) w (inl ready) =
        let (c, e, is_next, sends) =
          next_chunk-Sends btp tag_size l sent s rest sizes w (ground (arith, ready))
            (ground (arith, ready)) in
        record { sent = sent; todo = s ∷ rest; pending = sends.pending }

finish_chunk-idle : (l : Logger) (n : ℕ) → l.send_record_active ≡ false → (finish_chunk l n).1 ≡ l
unfolding finish_chunk
finish_chunk-idle l n e = ground (arith, e)

finished-IsIntact :
    (l : Logger) (n : ℕ) (s : LogRecord) (sent rest : List LogRecord)
    → Sends l sent s rest l.send_record_bytes_done
    → l.send_record_bytes_done + n ≤ s.header.payload_length
    → IsIntact (finish_chunk l n).1
finished-IsIntact l n s sent rest sends fits =
    go (l.send_record_bytes_done + n == s.header.payload_length)
      (finish_chunk-Sends l sent s rest l.send_record_bytes_done n sends fits).1
  where
    go :
        (b : Bool)
        → (if b
            then Pending (finish_chunk l n).1 (sent ++ (s ∷ [])) rest
              × ((finish_chunk l n).1.send_record_active ≡ false)
            else Sends (finish_chunk l n).1 sent s rest (l.send_record_bytes_done + n))
        → IsIntact (finish_chunk l n).1
    go true (w, idle) = record { sent = sent ++ (s ∷ []); todo = rest; pending = w }
    go false w = record { sent = sent; todo = s ∷ rest; pending = w.pending }

finish_chunk-IsIntact :
    (l : Logger) (n : ℕ)
    → l.send_record_bytes_done + n ≤ l.send_header.payload_length
    → IsIntact l
    → IsIntact (finish_chunk l n).1
finish_chunk-IsIntact l n fits v = go v.sent v.todo v.pending (Bool-cases l.send_record_active)
  where
    go :
        (sent todo : List LogRecord)
        → Pending l sent todo
        → ((l.send_record_active ≡ true) ⊎ (l.send_record_active ≡ false))
        → IsIntact (finish_chunk l n).1
    go sent todo w (inr idle) = subst IsIntact (sym (finish_chunk-idle l n idle)) v
    go sent [] w (inl active) =
        absurd (subst (λ b. Current b l.send_header l.send_record_bytes_done []) active w.current)
    go sent (s ∷ rest) w (inl active) =
        let sends : Sends l sent s rest l.send_record_bytes_done = record {
          pending = w;
          active = active;
          at = refl;
        } in
        finished-IsIntact l n s sent rest sends (
          subst (λ (h : StoredLogHeader). l.send_record_bytes_done + n ≤ h.payload_length)
            ((current_lem sends).0) fits)

-- More octets available change nothing of a header that is read.
read_header_at-more :
    (r : Ring) (offset n m : ℕ) (header : StoredLogHeader)
    → read_header_at r offset n no_header ≡ (true, header)
    → n ≤ m
    → read_header_at r offset m no_header ≡ (true, header)
unfolding read_header_at
read_header_at-more r offset n m header found le =
    let whole = ap (λ (z : Bool × StoredLogHeader). z.0) found in
    let read = ap (λ (z : Bool × StoredLogHeader). z.1) found in ground (arith, whole, read)

read_header_at-none :
    (l : Logger) (n : ℕ) (header : StoredLogHeader)
    → read_header_at l.ring l.ring.read_offset n no_header ≡ (true, header)
    → ¬ (n ≡ 0)
unfolding read_header_at
read_header_at-none l n header found none_left =
    let whole = ap (λ (z : Bool × StoredLogHeader). z.0) found in ground (arith, whole)

header-oldest :
    (l : Logger) (s : LogRecord) (rs : List LogRecord) (header : StoredLogHeader) (remaining : ℕ)
    → Retains l.ring (s ∷ rs)
    → read_header_at l.ring l.ring.read_offset remaining no_header ≡ (true, header)
    → remaining ≤ l.ring.used_bytes
    → header ≡ s.header
header-oldest l s rs header remaining w found le =
    let whole =
      read_header_at-more l.ring l.ring.read_offset remaining l.ring.used_bytes header found le in
    let at : (l.ring.read_offset + 0) % l.ring.capacity ≡ l.ring.read_offset =
      mod-eq_of_lt (omega (arith, w.holds.inside)) ∙ omega arith in
    let oldest =
      read_header_at-Holds [] s (all_octets rs) l.ring.used_bytes no_header w.holds w.sound.0
        (omega (arith, w.used, length-all_octets-cons s rs w.sound.0)) in
    ap (λ (z : Bool × StoredLogHeader). z.1)
      (sym whole ∙ ap (λ o. read_header_at l.ring o l.ring.used_bytes no_header) (sym at) ∙ oldest)

release_record-IsIntact :
    (l : Logger) (header : StoredLogHeader) (remaining : ℕ)
    → read_header_at l.ring l.ring.read_offset remaining no_header ≡ (true, header)
    → remaining ≤ l.ring.used_bytes
    → (l.send_record_active && l.pending_send_bytes == l.ring.used_bytes) ≡ false
    → IsIntact l
    → IsIntact (release_record l header)
release_record-IsIntact l header remaining found le free v = go v.sent v.todo v.pending
  where
    go : (sent todo : List LogRecord) → Pending l sent todo → IsIntact (release_record l header)
    go [] [] w =
        absurd (read_header_at-none l remaining header found (omega (arith, w.retains.used)))
    go [] (s ∷ todo) w =
        let same = header-oldest l s todo header remaining w.retains found le in
        subst (λ h. IsIntact (release_record l h)) (sym same)
          (record {
            sent = [];
            todo = todo;
            pending =
                release_record_unsent-Pending l s todo w
                  (ground (arith, free, w.pending, w.retains.used));
          })
    go (s ∷ sent) todo w =
        let same = header-oldest l s (sent ++ todo) header remaining w.retains found le in
        subst (λ h. IsIntact (release_record l h)) (sym same)
          (record { sent = sent; todo = todo; pending = release_record-Pending l s sent todo w })

module _ (btp : Btp) (sizes : Sizes btp) {W : Type 0} (p : Port W) (ok : PortOk p)
    (tag_size : ℕ) where
  step-IsIntact : {l m : Logger} → Step btp p tag_size l m → IsIntact l → IsIntact m
  step-IsIntact (inserts text log_type w fits) v = record {
    sent = v.sent;
    todo = _;
    pending = insert_log-Pending btp sizes p ok text log_type w fits v.pending;
  }
  step-IsIntact {l} takes v = next_chunk-IsIntact btp tag_size l sizes v
  step-IsIntact {l} (finishes n fits) v = finish_chunk-IsIntact l n fits v
  step-IsIntact {l} (releases header remaining found le free) v =
      release_record-IsIntact l header remaining found le free v

  -- For frames with room for an octet, records whose length fits in 16 bits, and a clock and a counter of 64 and 32
  -- bits: whatever texts of types of 8 bits come in, pieces go to the radio, none longer than what is left of its
  -- record, and records are released to the card, in any order, as long as the record being sent is not released
  -- before its end, if the ring held whole records only at first, it does so afterwards; the send cursor stands at the
  -- end of some of them, from the oldest on, the octets to send are those of the others, and the header of a record
  -- being sent is that of the first of these, with octets of it left.
  pub reaches-IsIntact : {l m : Logger} → Reaches btp p tag_size l m → IsIntact l → IsIntact m
  reaches-IsIntact stays v = v
  reaches-IsIntact (then_step r s) v = step-IsIntact s (reaches-IsIntact r v)
