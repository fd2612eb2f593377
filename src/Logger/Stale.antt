-- ===== src/Logger/Stale.antt =====
-- lib/Logger: a record that `flush_logs` has begun and that `flush_logs_to` then stores and releases.
use bally_os.Base.{
  ℕ, ◌-◌, ◌^◌, ◌<◌, ◌≡◌, ap, subst, ◌∙◌, true, some, List, [], ◌∷◌, arith, length, sub_u32,
}
use bally_os.Btp.{Btp}
use bally_os.Logger.Storage.{StoredLogHeader}
use bally_os.Logger.Records.{LogRecord, all_octets, record_size, length-all_octets-cons}
use bally_os.Logger.Holding.{length-text}
use bally_os.Logger.Retained.{Retains}
use bally_os.Logger.{Logger}
use bally_os.Logger.Sending.{Chunk, activate, chunk_of, next_chunk, finish_chunk}
use bally_os.Logger.Storing.{release_record}
use bally_os.Logger.Releasing.{release_record-Retains}
use bally_os.Logger.Steps.{Sends, current_lem}

finish_chunk-last :
    (m : Logger) (s : LogRecord) (done : ℕ)
    → m.send_record_active ≡ true
    → m.send_header ≡ s.header
    → m.send_record_bytes_done ≡ done
    → done < s.header.payload_length
    → s.header.payload_length < 2 ^ 16
    → (finish_chunk m (s.header.payload_length - done)).1.pending_send_bytes
      ≡ sub_u32 m.pending_send_bytes (record_size s)
unfolding finish_chunk
finish_chunk-last m s done active same at low high =
    ground (arith, ap StoredLogHeader.payload_length same)

module _ (btp : Btp) (tag_size : ℕ) (l : Logger) (s t : LogRecord) (rest : List LogRecord)
    (done : ℕ) (v : Sends l [] s (t ∷ rest) done) (granted : l.storage_granted ≡ true)
    (endpoint : l.endpoint_set ≡ true) where
  l' : Logger
  l' = release_record l s.header

  facts :
      (l'.send_record_active ≡ true)
      × (l'.send_header ≡ s.header)
      × (l'.send_record_bytes_done ≡ done)
      × (l'.pending_send_bytes ≡ length (all_octets (t ∷ rest)))
      × (l'.storage_granted ≡ true)
      × (l'.endpoint_set ≡ true)
  unfolding l' release_record
  facts =
      let (same, _) = current_lem v in
      let ok = v.pending.retains.sound in
      (
        v.active,
        same,
        v.at,
        ground (
          arith,
          v.pending.pending,
          v.pending.retains.used,
          length-all_octets-cons s (t ∷ rest) ok.0,
          length-text v.pending.retains.holds,
          v.pending.retains.holds.small,
        ),
        granted,
        endpoint,
      )

  next_chunk-stale : (next_chunk btp tag_size l').1 ≡ some (chunk_of btp tag_size l')
  unfolding next_chunk activate
  next_chunk-stale =
      let (active, same, at, pending, granted', endpoint') = facts in
      let some_bytes : 0 < l'.pending_send_bytes =
        omega (arith, pending, length-all_octets-cons t rest v.pending.retains.sound.1.0) in
      ground (arith, active, granted', endpoint', some_bytes)

  -- When the record that `flush_logs` has begun is the oldest one kept and `flush_logs_to` releases it, the ring
  -- goes on to the next record, but the logger does not: its next frame carries the header of the record that is gone, and at the
  -- end of it the size of that record is taken from the octets to send, modulo 2^32, which are those of the others.
  pub release_record-stale :
      Retains (release_record l s.header).ring (t ∷ rest)
      × ((c : Chunk) × ((next_chunk btp tag_size (release_record l s.header)).1 ≡ some c)
          × (c.header ≡ s.header))
      × ((finish_chunk
            (release_record l s.header)
            (s.header.payload_length - done)).1.pending_send_bytes
          ≡ sub_u32 (length (all_octets (t ∷ rest))) (record_size s))
  unfolding l' chunk_of
  release_record-stale =
      let (active, same, at, pending, _, _) = facts in
      (
        release_record-Retains l s (t ∷ rest) v.pending.retains,
        (chunk_of btp tag_size l', next_chunk-stale, same),
        finish_chunk-last l' s done active same at
              (subst (λ d. d < s.header.payload_length) v.at ((current_lem v).1))
              v.pending.retains.sound.0.length_fits
            ∙ ap (λ n. sub_u32 n (record_size s)) pending,
      )
