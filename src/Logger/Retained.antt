-- ===== src/Logger/Retained.antt =====
-- lib/Logger: the ring as a list of records, the oldest first.
use bally_os.Base.{
  ℕ, ◌+◌, ◌-◌, ◌%◌, ◌≤◌, ◌≡◌, sym, ap, subst, ◌∙◌, true, List, [], ◌∷◌, ◌++◌, append_assoc,
  append-nil, arith, length, take, drop, All, length-append, length-take, length-drop,
}
use bally_os.Logger.Storage.{
  Ring, StoredLogHeader, header_size, header_of, header_octets, write_to_ring, read_header_at,
  read_from_ring,
}
use bally_os.Logger.Turning.{take-drop}
use bally_os.Logger.Records.{
  LogRecord, IsRecord, record_octets, all_octets, record_size, length-header_octets,
  all_octets-append, header_of-header_octets,
}
use bally_os.Logger.Holding.{
  Holds, length-text, write_to_ring-Holds, kept-write_to_ring, read_from_ring-text,
}
use bally_os.Logger.{Logger, append_record}

pub record Retains (r : Ring) (rs : List LogRecord) : Type 0 where
  pub holds : Holds r (all_octets rs)
  pub used : r.used_bytes ≡ length (all_octets rs)
  pub sound : All IsRecord rs

All-append :
    (rs : List LogRecord) (s : LogRecord)
    → All IsRecord rs
    → IsRecord s
    → All IsRecord (rs ++ (s ∷ []))
All-append [] s ok one = (one, tt)
All-append (r ∷ rs) s ok one = (ok.0, All-append rs s ok.1 one)

used-Holds :
    {r : Ring} {text : List ℕ} (used : ℕ)
    → Holds r text
    → Holds (record r { used_bytes = used }) text
used-Holds used h = record {
  free = h.free;
  turned = h.turned;
  sized = h.sized;
  small = h.small;
  inside = h.inside;
  written = h.written;
}

-- A record that fits goes to the end.
pub append_record-Retains :
    (l : Logger) (rs : List LogRecord) (header : StoredLogHeader) (text : List ℕ)
    → Retains l.ring rs
    → IsRecord (record { header = header; payload = take header.payload_length text })
    → header_size + header.payload_length ≤ l.ring.capacity - l.ring.used_bytes
    → Retains
        (append_record l header text).ring
        (rs ++ (record { header = header; payload = take header.payload_length text } ∷ []))
unfolding append_record
append_record-Retains l rs header text kept ok fits =
    let payload = take header.payload_length text in
    let s : LogRecord = record { header = header; payload = payload } in
    let total = length-text kept.holds in
    let size = length-header_octets header in
    let room : length (header_octets header) ≤ length kept.holds.free =
      omega (arith, total, size, kept.used, fits) in
    let once = write_to_ring-Holds kept.holds (header_octets header) (omega (arith, size)) room in
    let total' = length-text once in
    let (_, same_capacity, same_used) = kept-write_to_ring l.ring (header_octets header) in
    let room' : length payload ≤ length once.free = omega (
      arith,
      total',
      total,
      size,
      kept.used,
      fits,
      same_capacity,
      ok.filled,
      length-append (all_octets rs) (header_octets header),
    ) in
    let twice = write_to_ring-Holds once payload (omega (arith, ok.filled, ok.not_empty)) room' in
    let (_, _, same_used') =
      kept-write_to_ring (write_to_ring l.ring (header_octets header)) payload in
    let text_lem : (all_octets rs ++ header_octets header) ++ payload
        ≡ all_octets (rs ++ (s ∷ [])) =
      append_assoc (all_octets rs) (header_octets header) payload
      ∙ ap (λ z. all_octets rs ++ z) (sym (append-nil (record_octets s)))
      ∙ sym (all_octets-append rs (s ∷ [])) in
    record {
      holds = used-Holds _ (subst (Holds _) text_lem twice);
      used = omega (
        arith,
        same_used,
        same_used',
        kept.used,
        total,
        kept.holds.small,
        fits,
        ok.filled,
        size,
        ap (length {A = ℕ}) (sym text_lem),
        length-append (all_octets rs ++ header_octets header) payload,
        length-append (all_octets rs) (header_octets header),
      );
      sound = All-append rs s kept.sound ok;
    }

-- The fields that a new record leaves alone.
pub kept-append_record :
    (l : Logger) (header : StoredLogHeader) (text : List ℕ)
    → ((append_record l header text).ring.read_offset ≡ l.ring.read_offset)
      × ((append_record l header text).ring.capacity ≡ l.ring.capacity)
unfolding append_record
kept-append_record l header text =
    let r = write_to_ring l.ring (header_octets header) in
    let (same_read, same_capacity, _) = kept-write_to_ring l.ring (header_octets header) in
    let (same_read', same_capacity', _) = kept-write_to_ring r (take header.payload_length text) in
    (same_read' ∙ same_read, same_capacity' ∙ same_capacity)

-- A record somewhere in the text is found there.
pub read_header_at-Holds :
    {r : Ring} (a : List ℕ) (s : LogRecord) (c : List ℕ) (available : ℕ) (header : StoredLogHeader)
    → Holds r (a ++ (record_octets s ++ c))
    → IsRecord s
    → record_size s ≤ available
    → read_header_at r ((r.read_offset + length a) % r.capacity) available header ≡ (true, s.header)
unfolding read_header_at
read_header_at-Holds {r} a s c available header h ok le =
    let h' : Holds r (a ++ (header_octets s.header ++ (s.payload ++ c))) =
      subst (λ z. Holds r (a ++ z)) (append_assoc (header_octets s.header) s.payload c) h in
    let octets =
      ap (read_from_ring r ((r.read_offset + length a) % r.capacity))
        (sym (length-header_octets s.header))
      ∙ read_from_ring-text a (header_octets s.header) (s.payload ++ c) h' in
    let found =
      ap header_of octets
      ∙ header_of-header_octets s.header ok.length_fits ok.time_fits ok.sequence_fits ok.type_fits
          ok.reserved_fits in
    let fits : record_size s ≤ r.capacity = omega (
      arith,
      length-text h',
      length-append a (header_octets s.header ++ (s.payload ++ c)),
      length-append (header_octets s.header) (s.payload ++ c),
      length-append s.payload c,
      length-header_octets s.header,
      ok.filled,
    ) in
    rw found (ground arith)

-- A piece of the text of a record somewhere in the ring.
pub read_piece-Holds :
    {r : Ring} (front : List ℕ) (s : LogRecord) (tail : List ℕ) (d n : ℕ)
    → Holds r (front ++ (record_octets s ++ tail))
    → IsRecord s
    → d + n ≤ s.header.payload_length
    → read_from_ring r ((r.read_offset + (length front + header_size + d)) % r.capacity) n
      ≡ take n (drop d s.payload)
read_piece-Holds {r} front s tail d n h ok fits =
    let header = header_octets s.header in
    let a = front ++ (header ++ take d s.payload) in
    let b = take n (drop d s.payload) in
    let c = drop n (drop d s.payload) ++ tail in
    let text_lem : front ++ (record_octets s ++ tail) ≡ a ++ (b ++ c) =
      ap (λ z. front ++ ((header ++ z) ++ tail))
        (sym (take-drop d s.payload)
          ∙ ap (λ z. take d s.payload ++ z) (sym (take-drop n (drop d s.payload))))
      ∙ simp append_assoc in
    let size_a : length a ≡ length front + header_size + d = omega (
      arith,
      length-append front (header ++ take d s.payload),
      length-append header (take d s.payload),
      length-header_octets s.header,
      length-take d s.payload,
      ok.filled,
      fits,
    ) in
    let size_b : length b ≡ n =
      omega (arith, length-take n (drop d s.payload), length-drop d s.payload, ok.filled, fits) in
    ap (λ k. read_from_ring r ((r.read_offset + k) % r.capacity) n) (sym size_a)
    ∙ ap (read_from_ring r ((r.read_offset + length a) % r.capacity)) (sym size_b)
    ∙ read_from_ring-text a b c (subst (Holds r) text_lem h)
