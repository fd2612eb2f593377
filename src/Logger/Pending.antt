-- ===== src/Logger/Pending.antt =====
-- lib/Logger: the records that are still to go to the radio, as the end of the list of those kept, and
-- what inserting a record does to both.
use bally_os.Base.{
  ℕ, ◌+◌, ◌%◌, ◌^◌, ◌≤◌, ◌<◌, min, ◌≡◌, refl, sym, ap, subst, ◌∙◌, Bool, true, false, not, ◌&&◌,
  Option, none, some, List, [], ◌∷◌, ◌++◌, append_assoc, arith, leb, ◌==◌, if◌then◌else◌, length,
  take, length-take,
}
use bally_os.Btp.{Btp}
use bally_os.Logger.Storage.{StoredLogHeader, header_size}
use bally_os.Logger.Records.{
  LogRecord, IsRecord, all_octets, length-all_octets-append, length-all_octets-cons,
}
use bally_os.Logger.Holding.{length-text}
use bally_os.Logger.Retained.{Retains, append_record-Retains, kept-append_record}
use bally_os.Logger.{Logger, Port, append_record, max_logical_log_size}
use bally_os.Logger.Inserting.{header_for, insert_log_impl}

-- What is said of the record that is being sent.
abbrev pub Current : Bool → StoredLogHeader → ℕ → List LogRecord → Type 0
Current false header done todo = Unit
Current true header done [] = ⊥
Current true header done (s ∷ rest) = (header ≡ s.header) × (done < s.header.payload_length)

pub record Pending (l : Logger) (sent todo : List LogRecord) : Type 0 where
  pub retains : Retains l.ring (sent ++ todo)
  pub pending : l.pending_send_bytes ≡ length (all_octets todo)
  pub offset : l.send_offset ≡ (l.ring.read_offset + length (all_octets sent)) % l.ring.capacity
  pub current : Current l.send_record_active l.send_header l.send_record_bytes_done todo

Current-append :
    (active : Bool) (header : StoredLogHeader) (done : ℕ) (todo more : List LogRecord)
    → Current active header done todo
    → Current active header done (todo ++ more)
Current-append false header done todo more c = tt
Current-append true header done [] more c = elim c [ ]
Current-append true header done (s ∷ rest) more c = c

-- The sizes of the frames of the link.
pub record Sizes (btp : Btp) : Type 0 where
  pub some_room : 0 < btp.espnow_max_payload_size
  pub length_fits : max_logical_log_size btp < 2 ^ 16

-- The record that a text becomes.
abbrev pub record_of : Btp → List ℕ → ℕ → ℕ → ℕ → LogRecord
record_of btp text log_type timestamp_us sequence = record {
  header = header_for btp (length text) log_type timestamp_us sequence;
  payload = take (min (max_logical_log_size btp) (length text)) text;
}

-- What there is to say of a text that is offered: the record that it becomes if it is kept.
abbrev pub admitted :
    Btp → Logger → List LogRecord → List ℕ → (ℕ → LogRecord) → Option ℕ → Option LogRecord
admitted btp l kept text made sequence =
    if not (length text == 0)
      && l.storage_granted
      && l.endpoint_set
      && leb (length (all_octets kept) + header_size + min (max_logical_log_size btp) (length text))
          l.ring.capacity
    then elim sequence [ none ↦ none | some s ↦ some (made s) ]
    else none

abbrev pub Inserts : Logger → Logger → List LogRecord → List LogRecord → Option LogRecord → Type 0
Inserts l l' sent todo none = l' ≡ l
Inserts l l' sent todo (some s) = Pending l' sent (todo ++ (s ∷ []))

module _ (btp : Btp) (sizes : Sizes btp) {l : Logger} {sent todo : List LogRecord}
    (v : Pending l sent todo) (text : List ℕ) (log_type timestamp_us : ℕ)
    (some_text : 0 < length text) (type_fits : log_type < 2 ^ 8)
    (time_fits : timestamp_us < 2 ^ 64) where
  made : ℕ → LogRecord
  made = record_of btp text log_type timestamp_us

  payload_length-made :
      (s : ℕ) → (made s).header.payload_length ≡ min (max_logical_log_size btp) (length text)
  unfolding made
  payload_length-made s = ground (arith, sizes.length_fits)

  made-IsRecord : (s : ℕ) → s < 2 ^ 32 → IsRecord (made s)
  unfolding made
  made-IsRecord s lt =
      let len = payload_length-made s in
      record {
        filled =
            omega (arith, len, length-take (min (max_logical_log_size btp) (length text)) text);
        not_empty = omega (arith, len, sizes.some_room);
        length_fits = omega (arith, len, sizes.length_fits);
        time_fits = time_fits;
        sequence_fits = lt;
        type_fits = type_fits;
        reserved_fits = omega arith;
      }

  made-header :
      (s : ℕ)
      → record { header = (made s).header; payload = take (made s).header.payload_length text }
        ≡ made s
  unfolding made
  made-header s =
      ap (λ n. record { header = (made s).header; payload = take n text }) (payload_length-made s)

  append_record-Pending :
      (s : ℕ)
      → s < 2 ^ 32
      → length (all_octets (sent ++ todo))
          + header_size
          + min (max_logical_log_size btp) (length text)
        ≤ l.ring.capacity
      → Pending (append_record l (made s).header text) sent (todo ++ (made s ∷ []))
  unfolding append_record
  append_record-Pending s lt fits =
      let len = payload_length-made s in
      let ok = made-IsRecord s lt in
      let (same_read, same_capacity) = kept-append_record l (made s).header text in
      let kept =
        append_record-Retains l (sent ++ todo) (made s).header text v.retains
          (subst IsRecord (sym (made-header s)) ok) (omega (arith, len, fits, v.retains.used)) in
      record {
        retains = subst (Retains _) (append_assoc sent todo (made s ∷ [])) (
            subst
              (λ z.
                Retains ((append_record l (made s).header text).ring) ((sent ++ todo) ++ (z ∷ [])))
              (made-header s) kept);
        pending = omega (
          arith,
          len,
          v.pending,
          fits,
          v.retains.holds.small,
          length-all_octets-append sent todo,
          length-all_octets-append todo (made s ∷ []),
          length-all_octets-cons (made s) [] ok,
        );
        offset =
            v.offset
            ∙ ap (λ k. (k + length (all_octets sent)) % l.ring.capacity) (sym same_read)
            ∙ ap
                (λ k.
                  ((append_record l (made s).header text).ring.read_offset
                    + length (all_octets sent))
                  % k)
                (sym same_capacity);
        current = Current-append _ _ _ todo (made s ∷ []) v.current;
      }

  -- Whether a record of the text is kept, but for a sequence number.
  fits_in : Bool
  fits_in =
      not (length text == 0)
      && l.storage_granted
      && l.endpoint_set
      && leb
          (length (all_octets (sent ++ todo))
            + header_size
            + min (max_logical_log_size btp) (length text))
          l.ring.capacity

  chosen : Option ℕ → Logger
  chosen none = l
  chosen (some s) = append_record l (made s).header text

  insert_log_impl-chosen :
      {W : Type 0} (p : Port W) (w : W)
      → (insert_log_impl btp p l text log_type timestamp_us w).0
        ≡ (if fits_in then chosen (p.reserve_sequence w).0 else l)
  unfolding insert_log_impl fits_in chosen made
  insert_log_impl-chosen p w =
      ground (
        arith,
        sizes.length_fits,
        v.retains.used,
        v.retains.holds.small,
        length-text v.retains.holds,
      )

  fits_in-le :
      fits_in ≡ true
      → length (all_octets (sent ++ todo))
          + header_size
          + min (max_logical_log_size btp) (length text)
        ≤ l.ring.capacity
  unfolding fits_in
  fits_in-le e = ground arith

  -- A text of some octets becomes the last record of those to send, when the logger has memory and an endpoint,
  -- a sequence number is had and the whole record fits; else nothing of the logger changes.
  pub insert_log_impl-Inserts :
      {W : Type 0} (p : Port W) (w : W)
      → ((s : ℕ) → (p.reserve_sequence w).0 ≡ some s → s < 2 ^ 32)
      → Inserts l (insert_log_impl btp p l text log_type timestamp_us w).0 sent todo (
          admitted btp l
            (sent ++ todo)
            text
            (record_of btp text log_type timestamp_us)
            (p.reserve_sequence w).0)
  unfolding chosen fits_in made
  insert_log_impl-Inserts p w good =
      subst
        (λ l'.
          Inserts l l' sent todo (admitted btp l (sent ++ todo) text made (p.reserve_sequence w).0))
        (sym (insert_log_impl-chosen p w)) (go fits_in refl (p.reserve_sequence w).0 good)
    where
      go :
          (b : Bool)
          → fits_in ≡ b
          → (seq : Option ℕ) → ((s : ℕ) → seq ≡ some s → s < 2 ^ 32)
          → Inserts l
              (if b then chosen seq else l)
              sent
              todo
              (if b then (elim seq [ none ↦ none | some s ↦ some (made s) ]) else none)
      go false e seq lt = refl
      go true e none lt = refl
      go true e (some s) lt = append_record-Pending s (lt s refl) (fits_in-le e)
