-- ===== src/Logger/Rounds.antt =====
-- lib/Logger: the rounds of the loop of `flush_logs_to`, one for each record that it began with.
use bally_os.Base.{
  ℕ, zero, suc, ◌+◌, ◌%◌, ◌≤◌, ◌<◌, ◌≡◌, refl, sym, ap, ◌∙◌, Bool, true, false, not, List, [], ◌∷◌,
  ◌++◌, arith, if◌then◌else◌, length, sub_u32,
}
use mathlib.Core.Path.{fun_ext}
use native.Mathlib.Nat.{mod-eq_of_lt}
use bally_os.Btp.{Btp}
use bally_os.Logger.Storage.{StoredLogHeader, header_size, read_header_at, no_header}
use bally_os.Logger.Records.{
  LogRecord, all_octets, record_size, length-all_octets-append, length-all_octets-cons,
}
use bally_os.Logger.Holding.{length-text}
use bally_os.Logger.Retained.{Retains, read_header_at-Holds}
use bally_os.Logger.{Logger, Fragment, Port, forever}
use bally_os.Logger.Pending.{Sizes}
use bally_os.Logger.Storing.{
  fragment_count, release_record, store_fragments, store_record, store_records,
}
use bally_os.Logger.Stored.{fragments_of, store_each, store_fragments-store_each}
use bally_os.Logger.Releasing.{release_record-Retains}

module _ {W : Type 0} (p : Port W) where
  -- A round, given what is found in the ring and how a record's fragments are stored.
  abbrev round :
      Logger
      → ℕ
      → Bool × StoredLogHeader
      → (StoredLogHeader → W → Bool × W)
      → W
      → Bool × Logger × ℕ × W
  round l remaining found store w =
      let (taken, w1) = p.take_mutex forever w in
      let (whole, header) = found in
      let (stored, w2) = store header w1 in
      let (again, w3) = p.take_mutex forever w2 in
      if not taken
      then (false, l, remaining, w1)
      else if not whole
      then (false, l, remaining, w1)
      else if not stored
      then (false, l, remaining, w2)
      else if not again
      then (false, l, remaining, w3)
      else (
        true,
        release_record l header,
        sub_u32 remaining (header_size + header.payload_length),
        w3,
      )

module _ {W : Type 0} (p : Port W) (callback : List ℕ → W → Bool × W)
    (fragments : LogRecord → List Fragment) where
  -- What the flush is to do with a list of records that are stored in those fragments: the fragments of each one are
  -- stored, and it is released, until something fails.
  unfoldable pub store_list : Logger → List LogRecord → W → Bool × Logger × W
  store_list l [] w = (true, l, w)
  store_list l (s ∷ rs) w =
      let (taken, w1) = p.take_mutex forever w in
      let (stored, w2) = store_each p callback l (fragments s) w1 in
      let (again, w3) = p.take_mutex forever w2 in
      elim taken [
        | false ↦ (false, l, w1)
        | true ↦ elim stored [
          | false ↦ (false, l, w2)
          | true ↦ elim again [
            | false ↦ (false, l, w3)
            | true ↦ store_list (release_record l s.header) rs w3
          ]
        ]
      ]

module _ (btp : Btp) {W : Type 0} (p : Port W) (callback : List ℕ → W → Bool × W)
    (sizes : Sizes btp) where
  store_record-round :
      (l : Logger) (s : LogRecord) (rest : List LogRecord) (remaining : ℕ) (w : W)
      → Retains l.ring (s ∷ rest)
      → record_size s ≤ remaining
      → store_record btp p callback l remaining w
        ≡ round p l remaining (true, s.header) (λ h. store_each p callback l (fragments_of btp s)) w
  unfolding store_record
  store_record-round l s rest remaining w v le =
      let at : l.ring.read_offset ≡ (l.ring.read_offset + 0) % l.ring.capacity = sym (
        mod-eq_of_lt {n = l.ring.read_offset + 0} (omega (arith, v.holds.inside))
        ∙ (omega arith)) in
      let found =
        ap (λ o. read_header_at l.ring o remaining no_header) at
        ∙ read_header_at-Holds [] s (all_octets rest) remaining no_header v.holds v.sound.0 le in
      ap
        (λ f.
          round p l remaining f
            (λ h.
              store_fragments btp p callback l l.ring.read_offset h 0
                (fragment_count btp h.payload_length))
            w)
        found
      ∙ ap (λ g. round p l remaining (true, s.header) (λ h. g) w)
          (fun_ext (λ w'.
            store_fragments-store_each btp sizes l s rest v p callback 0
              (fragment_count btp s.header.payload_length) w' (omega arith)))

  -- Enough rounds store the records that the flush began with, whatever other records follow them.
  pub store_records-fragments_of :
      (n : ℕ) (l : Logger) (rs more : List LogRecord) (w : W)
      → Retains l.ring (rs ++ more)
      → length (all_octets rs) ≤ n
      → store_records btp p callback n l (length (all_octets rs)) w
        ≡ store_list p callback (fragments_of btp) l rs w
  unfolding store_records store_list
  store_records-fragments_of zero l [] more w v le = refl
  store_records-fragments_of zero l (s ∷ rs) more w v le =
      absurd (omega (arith, length-all_octets-cons s rs v.sound.0))
  store_records-fragments_of (suc n) l [] more w v le = refl
  store_records-fragments_of (suc n) l (s ∷ rs) more w v le =
      let ok = v.sound.0 in
      let len = length (all_octets (s ∷ rs)) in
      let size = length-all_octets-cons s rs ok in
      let w1 = (p.take_mutex forever w).1 in
      let w2 = (store_each p callback l (fragments_of btp s) w1).1 in
      let w3 = (p.take_mutex forever w2).1 in
      let rest : sub_u32 len (record_size s) ≡ length (all_octets rs) =
        omega (
          arith,
          size,
          length-text v.holds,
          v.holds.small,
          length-all_octets-append (s ∷ rs) more,
        ) in
      let ih =
        store_records-fragments_of n (release_record l s.header) rs more w3
          (release_record-Retains l s (rs ++ more) v) (omega (arith, size, le)) in
      let some_bytes : 0 < len = omega (arith, size) in
      ground (
        arith,
        store_record-round l s (rs ++ more) len w v (omega (arith, size)),
        ih,
        rest,
        some_bytes,
      )
