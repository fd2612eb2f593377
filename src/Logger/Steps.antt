-- ===== src/Logger/Steps.antt =====
-- lib/Logger: the two steps of `flush_logs` around a frame, on the list of records.
use bally_os.Base.{
  ℕ, ◌+◌, ◌%◌, ◌≤◌, ◌<◌, ◌≡◌, refl, sym, ap, subst, ◌∙◌, Bool, true, false, Option, some, List, [],
  ◌∷◌, ◌++◌, append_assoc, arith, ◌==◌, if◌then◌else◌, length, u32, sub_u32,
}
use native.Mathlib.Nat.{mod-add-mod}
use bally_os.Btp.{Btp}
use bally_os.Logger.Storage.{StoredLogHeader, no_header}
use bally_os.Logger.Records.{
  LogRecord, all_octets, record_size, length-all_octets-append, length-all_octets-cons,
}
use bally_os.Logger.Holding.{length-text}
use bally_os.Logger.Retained.{Retains}
use bally_os.Logger.{Logger}
use bally_os.Logger.Pending.{Pending, Sizes, Current}
use bally_os.Logger.Sending.{Chunk, activate, chunk_of, next_chunk, finish_chunk}
use bally_os.Logger.Sent.{
  IsNext, done_of, started, activate-eq, activate-Pending, next-IsRecord, record_fits, send_lt,
  chunk_of-IsNext,
}

-- A logger that has begun to send a record, of which `done` octets have gone.
pub record Sends (l : Logger) (sent : List LogRecord) (s : LogRecord) (rest : List LogRecord)
    (done : ℕ) : Type 0 where
  pub pending : Pending l sent (s ∷ rest)
  pub active : l.send_record_active ≡ true
  pub at : l.send_record_bytes_done ≡ done

-- What is known of the record that is sent.
pub current_lem :
    {l : Logger} {sent : List LogRecord} {s : LogRecord} {rest : List LogRecord} {done : ℕ}
    → Sends l sent s rest done
    → (l.send_header ≡ s.header) × (l.send_record_bytes_done < s.header.payload_length)
current_lem {l} {sent} {s} {rest} v = go l.send_record_active v.active v.pending.current
  where
    go :
        (b : Bool)
        → b ≡ true
        → Current b l.send_header l.send_record_bytes_done (s ∷ rest)
        → (l.send_header ≡ s.header) × (l.send_record_bytes_done < s.header.payload_length)
    go true e c = c
    go false e c = cc

seal-activate :
    (l : Logger) (sent : List LogRecord) (s : LogRecord) (rest : List LogRecord)
    → Pending l sent (s ∷ rest)
    → (activate l).1.seal ≡ l.seal
seal-activate l sent s rest v =
    ap (λ (z : Bool × Logger). z.1.seal) (activate-eq v) ∙ go l.send_record_active
  where
    go : (b : Bool) → (if b then l else started v).seal ≡ l.seal
    go true = refl
    go false = refl

next_chunk-activate :
    (btp : Btp) (tag_size : ℕ) (l : Logger) (sent : List LogRecord) (s : LogRecord)
    (rest : List LogRecord)
    → Pending l sent (s ∷ rest)
    → l.storage_granted ≡ true
    → l.endpoint_set ≡ true
    → next_chunk btp tag_size l ≡ ((activate l).1, some (chunk_of btp tag_size (activate l).1))
unfolding next_chunk
next_chunk-activate btp tag_size l sent s rest v granted endpoint =
    let (ready, _, _, _) = activate-Pending v in
    let some_bytes : 0 < l.pending_send_bytes =
      omega (arith, v.pending, length-all_octets-cons s rest (next-IsRecord v)) in
    ground (arith, ready, granted, endpoint, some_bytes)

-- With records to send, memory and an endpoint, `flush_logs` takes the piece of the oldest of them that comes after the
-- octets that have gone, as much of it as a frame holds, with the header of the record. It is the first piece if none has
-- gone. The records that are kept and those to send stay the same.
pub next_chunk-Sends :
    (btp : Btp) (tag_size : ℕ) (l : Logger) (sent : List LogRecord) (s : LogRecord)
    (rest : List LogRecord)
    → Sizes btp
    → Pending l sent (s ∷ rest)
    → l.storage_granted ≡ true
    → l.endpoint_set ≡ true
    → (c : Chunk) × ((next_chunk btp tag_size l).1 ≡ some c)
      × IsNext btp tag_size l.seal s (done_of l) c
      × Sends (next_chunk btp tag_size l).0 sent s rest (done_of l)
next_chunk-Sends btp tag_size l sent s rest sizes v granted endpoint =
    let l1 = (activate l).1 in
    let (ready, active, at, v1) = activate-Pending v in
    let e = next_chunk-activate btp tag_size l sent s rest v granted endpoint in
    let sends : Sends l1 sent s rest (done_of l) = record {
      pending = v1;
      active = active;
      at = at;
    } in
    let (same, lt) = current_lem sends in
    (
      chunk_of btp tag_size l1,
      ap (λ (z : Logger × Option Chunk). z.1) e,
      subst (λ d. IsNext btp tag_size l.seal s d (chunk_of btp tag_size l1)) at
          (subst (λ x. IsNext btp tag_size x s l1.send_record_bytes_done (chunk_of btp tag_size l1))
            (seal-activate l sent s rest v) (chunk_of-IsNext btp tag_size sizes v1 same lt)),
      subst (λ (z : Logger × Option Chunk). Sends z.0 sent s rest (done_of l)) (sym e) sends,
    )

module _ (l : Logger) (sent : List LogRecord) (s : LogRecord) (rest : List LogRecord) (done n : ℕ)
    (v : Sends l sent s rest done) (fits : done + n ≤ s.header.payload_length) where
  finished : Logger
  finished = record l {
    send_offset = u32 (l.send_offset + record_size s) % l.ring.capacity;
    pending_send_bytes = sub_u32 l.pending_send_bytes (record_size s);
    send_record_active = false;
    send_header = no_header;
    send_record_bytes_done = 0;
  }

  goes_on : Logger
  goes_on = record l { send_record_bytes_done = done + n }

  finish_chunk-eq :
      finish_chunk l n ≡ (true, if done + n == s.header.payload_length then finished else goes_on)
  unfolding finish_chunk finished goes_on
  finish_chunk-eq =
      let (same, lt) = current_lem v in
      ground (
        arith,
        v.active,
        v.at,
        ap StoredLogHeader.payload_length same,
        (next-IsRecord v.pending).length_fits,
      )

  pending_le : l.pending_send_bytes ≤ l.ring.capacity
  pending_le = omega (
    arith,
    v.pending.pending,
    length-all_octets-append sent (s ∷ rest),
    length-text v.pending.retains.holds,
  )

  finished-Pending : Pending finished (sent ++ (s ∷ [])) rest
  unfolding finished
  finished-Pending =
      let ok = next-IsRecord v.pending in
      record {
        retains = subst (Retains l.ring) (sym (append_assoc sent (s ∷ []) rest)) v.pending.retains;
        pending = omega (
          arith,
          v.pending.pending,
          length-all_octets-cons s rest ok,
          record_fits v.pending,
          ok.length_fits,
          v.pending.retains.holds.small,
          pending_le,
        );
        offset =
            ap (λ k. k % l.ring.capacity) {y = l.send_offset + record_size s}
              (omega
                (arith, send_lt v.pending, record_fits v.pending, v.pending.retains.holds.small))
            ∙ ap (λ k. (k + record_size s) % l.ring.capacity) v.pending.offset
            ∙ mod-add-mod (l.ring.read_offset + length (all_octets sent)) l.ring.capacity
                (record_size s)
            ∙ ap (λ k. k % l.ring.capacity)
                (omega
                  (arith, length-all_octets-append sent (s ∷ []), length-all_octets-cons s [] ok));
        current = tt;
      }

  goes_on-Sends : done + n < s.header.payload_length → Sends goes_on sent s rest (done + n)
  unfolding goes_on
  goes_on-Sends lt =
      let (same, _) = current_lem v in
      record {
        pending = record {
          retains = v.pending.retains;
          pending = v.pending.pending;
          offset = v.pending.offset;
          current =
              subst (λ b. Current b l.send_header (done + n) (s ∷ rest)) (sym v.active) (same, lt);
        };
        active = v.active;
        at = refl;
      }

-- Once a piece of `n` octets has gone, a record of which none is left is no longer to send, and the next one is not yet begun;
-- else the logger goes on with it after those octets. Records that came in meanwhile are kept in both cases.
pub finish_chunk-Sends :
    (l : Logger) (sent : List LogRecord) (s : LogRecord) (rest : List LogRecord) (done n : ℕ)
    → Sends l sent s rest done
    → done + n ≤ s.header.payload_length
    → ((finish_chunk l n).0 ≡ true)
      × (if done + n == s.header.payload_length
          then Pending (finish_chunk l n).1 (sent ++ (s ∷ [])) rest
            × ((finish_chunk l n).1.send_record_active ≡ false)
          else Sends (finish_chunk l n).1 sent s rest (done + n))
unfolding finished
finish_chunk-Sends l sent s rest done n v fits =
    let e = finish_chunk-eq l sent s rest done n v fits in
    let all_gone = done + n == s.header.payload_length in
    subst
      (λ (z : Bool × Logger).
        (z.0 ≡ true)
        × (if all_gone
            then Pending z.1 (sent ++ (s ∷ [])) rest × (z.1.send_record_active ≡ false)
            else Sends z.1 sent s rest (done + n)))
      (sym e) (refl, go all_gone refl)
  where
    go :
        (b : Bool)
        → (done + n == s.header.payload_length) ≡ b
        → (let z =
              if b
              then finished l sent s rest done n v fits
              else goes_on l sent s rest done n v fits in
            if b
            then Pending z (sent ++ (s ∷ [])) rest × (z.send_record_active ≡ false)
            else Sends z sent s rest (done + n))
    go true all = (finished-Pending l sent s rest done n v fits, refl)
    go false part = goes_on-Sends l sent s rest done n v fits (ground arith)
