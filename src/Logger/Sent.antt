-- ===== src/Logger/Sent.antt =====
-- lib/Logger: which octets `flush_logs` puts in a frame, and what it does once the frame has gone.
use bally_os.Base.{
  ℕ, zero, suc, ◌+◌, ◌%◌, ◌≤◌, ◌<◌, min, ◌≡◌, refl, sym, ap, subst, ◌∙◌, Bool, true, false, Option,
  none, some, List, [], ◌∷◌, ◌++◌, arith, ltb, ◌==◌, if◌then◌else◌, length, take, drop, u16, u32,
  sub_u32, All, length-drop,
}
use native.Mathlib.Nat.{mod-add-mod, mod-lt}
use bally_os.Btp.{Btp}
use bally_os.Logger.Storage.{StoredLogHeader, header_size, read_header_at, read_from_ring}
use bally_os.Logger.Records.{
  LogRecord, IsRecord, record_octets, all_octets, record_size, all_octets-append,
  length-all_octets-append, length-all_octets-cons,
}
use bally_os.Logger.Holding.{Holds, length-text}
use bally_os.Logger.Retained.{read_header_at-Holds, read_piece-Holds}
use bally_os.Logger.{Logger}
use bally_os.Logger.Pending.{Pending, Sizes}
use bally_os.Logger.Sending.{Chunk, chunk_stride, activate, chunk_of}

-- The record that is next, among those that are kept.
All-split :
    (sent : List LogRecord) (s : LogRecord) (rest : List LogRecord)
    → All IsRecord (sent ++ (s ∷ rest))
    → IsRecord s
All-split [] s rest all = all.0
All-split (r ∷ rs) s rest all = All-split rs s rest all.1

-- Where the record being sent has got to.
abbrev pub done_of : Logger → ℕ
done_of m = if m.send_record_active then m.send_record_bytes_done else 0

module _ {l : Logger} {sent : List LogRecord} {s : LogRecord} {rest : List LogRecord}
    (v : Pending l sent (s ∷ rest)) where
  pub next-IsRecord : IsRecord s
  next-IsRecord = All-split sent s rest v.retains.sound

  next-Holds : Holds l.ring (all_octets sent ++ (record_octets s ++ all_octets rest))
  next-Holds = subst (Holds l.ring) (all_octets-append sent (s ∷ rest)) v.retains.holds

  header_found :
      (header : StoredLogHeader)
      → read_header_at l.ring l.send_offset l.pending_send_bytes header ≡ (true, s.header)
  header_found header =
      ap (λ o. read_header_at l.ring o l.pending_send_bytes header) v.offset
      ∙ read_header_at-Holds (all_octets sent) s (all_octets rest) l.pending_send_bytes header
          next-Holds next-IsRecord
          (omega (arith, v.pending, length-all_octets-cons s rest next-IsRecord))

  abbrev pub started : Logger
  started = record l {
    send_record_active = true;
    send_header = s.header;
    send_record_bytes_done = 0;
  }

  pub activate-eq : activate l ≡ (true, if l.send_record_active then l else started)
  unfolding activate
  activate-eq = ground (arith, header_found l.send_header)

  started-Pending : Pending started sent (s ∷ rest)
  started-Pending = record {
    retains = v.retains;
    pending = v.pending;
    offset = v.offset;
    current = (refl, next-IsRecord.not_empty);
  }

  -- `flush_logs` takes up the record, or goes on with it.
  pub activate-Pending :
      ((activate l).0 ≡ true)
      × ((activate l).1.send_record_active ≡ true)
      × ((activate l).1.send_record_bytes_done ≡ done_of l)
      × Pending (activate l).1 sent (s ∷ rest)
  activate-Pending =
      subst
        (λ (z : Bool × Logger).
          (z.0 ≡ true)
          × (z.1.send_record_active ≡ true)
          × (z.1.send_record_bytes_done ≡ done_of l)
          × Pending z.1 sent (s ∷ rest))
        (sym activate-eq) (go l.send_record_active refl)
    where
      go :
          (b : Bool)
          → l.send_record_active ≡ b
          → (true ≡ true)
            × ((if b then l else started).send_record_active ≡ true)
            × ((if b then l else started).send_record_bytes_done
                ≡ (if b then l.send_record_bytes_done else 0))
            × Pending (if b then l else started) sent (s ∷ rest)
      go true e = (refl, e, refl, v)
      go false e = (refl, refl, refl, started-Pending)

  pub send_lt : l.send_offset < l.ring.capacity
  send_lt =
      subst (λ k. k < l.ring.capacity) (sym v.offset)
        (mod-lt _ (omega (arith, v.retains.holds.inside)))

  pub record_fits : record_size s ≤ l.ring.capacity
  record_fits = omega (
    arith,
    length-text v.retains.holds,
    length-all_octets-append sent (s ∷ rest),
    length-all_octets-cons s rest next-IsRecord,
  )

  -- Reading a piece of the record.
  read_piece :
      (d n : ℕ)
      → d + n ≤ s.header.payload_length
      → read_from_ring l.ring (u32 (l.send_offset + header_size + d) % l.ring.capacity) n
        ≡ take n (drop d s.payload)
  read_piece d n fits =
      let front = length (all_octets sent) in
      let at : u32 (l.send_offset + header_size + d) % l.ring.capacity
          ≡ (l.ring.read_offset + (front + header_size + d)) % l.ring.capacity =
        ap (λ k. k % l.ring.capacity) {y = l.send_offset + (header_size + d)}
          (omega (arith, send_lt, record_fits, fits, v.retains.holds.small))
        ∙ ap (λ k. (k + (header_size + d)) % l.ring.capacity) v.offset
        ∙ mod-add-mod (l.ring.read_offset + front) l.ring.capacity (header_size + d)
        ∙ ap (λ k. k % l.ring.capacity) (omega arith) in
      ap (λ o. read_from_ring l.ring o n) at
      ∙ read_piece-Holds (all_octets sent) s (all_octets rest) d n next-Holds next-IsRecord fits

-- The piece that goes next: of the record `s`, of which `done` octets have gone.
pub record IsNext (btp : Btp) (tag_size : ℕ) (sealer : Option ℕ) (s : LogRecord) (done : ℕ)
    (c : Chunk) : Type 0 where
  pub header : c.header ≡ s.header
  pub octets : c.octets ≡ take (chunk_stride btp tag_size sealer) (drop done s.payload)
  pub first_chunk : c.first_chunk ≡ (done == 0)
  pub seal : c.seal ≡ sealer

pub take-min : (n : ℕ) (xs : List ℕ) → take (min n (length xs)) xs ≡ take n xs
take-min zero xs = ap (λ k. take k xs) {x = min 0 (length xs)} {y = 0} (omega arith)
take-min (suc n) [] = ap (λ k. take {A = ℕ} k []) {x = min (suc n) 0} {y = 0} (omega arith)
take-min (suc n) (x ∷ xs) =
    ap (λ k. take k (x ∷ xs)) {x = min (suc n) (suc (length xs))} {y = suc (min n (length xs))}
      (omega arith)
    ∙ ap (λ zs. x ∷ zs) (take-min n xs)

chunk_stride-le :
    (btp : Btp) (tag_size : ℕ) (sealer : Option ℕ)
    → chunk_stride btp tag_size sealer ≤ btp.espnow_max_payload_size
chunk_stride-le btp tag_size none = omega arith
chunk_stride-le btp tag_size (some x) = omega arith

module _ (btp : Btp) (tag_size : ℕ) (sizes : Sizes btp) {l : Logger} {sent : List LogRecord}
    {s : LogRecord} {rest : List LogRecord} (v : Pending l sent (s ∷ rest)) where
  pub chunk_of-IsNext :
      l.send_header ≡ s.header
      → l.send_record_bytes_done < s.header.payload_length
      → IsNext btp tag_size l.seal s l.send_record_bytes_done (chunk_of btp tag_size l)
  unfolding chunk_of
  chunk_of-IsNext same lt =
      let stride = chunk_stride btp tag_size l.seal in
      let d = l.send_record_bytes_done in
      let ok = next-IsRecord v in
      let left = min stride (length (drop d s.payload)) in
      let size : u16 (
            if ltb (sub_u32 l.send_header.payload_length d) stride
            then sub_u32 l.send_header.payload_length d
            else stride)
          ≡ left =
        ground (
          arith,
          ap StoredLogHeader.payload_length same,
          length-drop d s.payload,
          ok.filled,
          ok.length_fits,
          chunk_stride-le btp tag_size l.seal,
          sizes.length_fits,
        ) in
      record {
        header = same;
        octets =
            ap (read_from_ring l.ring (u32 (l.send_offset + header_size + d) % l.ring.capacity))
              size
            ∙ read_piece v d left (omega (arith, length-drop d s.payload, ok.filled, lt))
            ∙ take-min stride (drop d s.payload);
        first_chunk = refl;
        seal = refl;
      }
