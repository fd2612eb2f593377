-- ===== src/Logger/Stored.antt =====
-- lib/Logger: which frames `flush_logs_to` gives to its callback.
use bally_os.Base.{
  ℕ, zero, suc, ◌+◌, ◌-◌, ◌*◌, ◌/◌, ◌%◌, ◌^◌, ◌≤◌, ◌<◌, min, ◌≡◌, refl, ap, ◌∙◌, Bool, true, false,
  none, List, [], ◌∷◌, arith, ltb, if◌then◌else◌, length, take, drop, u16, u32, sub_u32,
  length-drop,
}
use native.Mathlib.Nat.{le-div_iff_mul-le}
use mathlib.Core.Path.{fun_ext}
use bally_os.Btp.{Btp}
use bally_os.Logger.Storage.{header_size, read_from_ring}
use bally_os.Logger.Records.{LogRecord, all_octets, record_size, length-all_octets-cons}
use bally_os.Logger.Holding.{length-text}
use bally_os.Logger.Retained.{Retains, read_piece-Holds}
use bally_os.Logger.{Logger, Port, Fragment, forever}
use bally_os.Logger.Pending.{Sizes}
use bally_os.Logger.Sent.{take-min}
use bally_os.Logger.Storing.{fragment_count, stored_fragment, store_fragment, store_fragments}

-- The fragments of a record: its text in pieces of the size of a frame, the last one shorter.
abbrev pub fragment_at : Btp → LogRecord → ℕ → Fragment
fragment_at btp s i = record {
  log_type = s.header.log_type;
  sequence = s.header.sequence;
  timestamp_us = s.header.timestamp_us;
  payload = take btp.espnow_max_payload_size (drop (i * btp.espnow_max_payload_size) s.payload);
  fragment_index = i;
  fragment_count = fragment_count btp s.header.payload_length;
  seal = none;
}

abbrev pub fragments_from : Btp → LogRecord → ℕ → ℕ → List Fragment
fragments_from btp s i zero = []
fragments_from btp s i (suc left) = fragment_at btp s i ∷ fragments_from btp s (i + 1) left

abbrev pub fragments_of : Btp → LogRecord → List Fragment
fragments_of btp s = fragments_from btp s 0 (fragment_count btp s.header.payload_length)

-- A fragment that is counted begins inside the text.
fragment-lt :
    (btp : Btp) (len i : ℕ)
    → 0 < btp.espnow_max_payload_size
    → 0 < len
    → i < fragment_count btp len
    → i * btp.espnow_max_payload_size < len
fragment-lt btp len i room some_text lt =
    let m = btp.espnow_max_payload_size in
    let le : i + 1 ≤ (len + m - 1) / m = omega arith in
    let product = (le-div_iff_mul-le {k = m} {x = i + 1} {y = len + m - 1} room).0 le in
    let shape : (i + 1) * m ≡ i * m + m = grind arith in omega (arith, product, shape)

-- The octets of a fragment.
abbrev piece_size : ℕ → ℕ → ℕ → ℕ
piece_size len d m = u16 (if ltb (sub_u32 len d) m then sub_u32 len d else m)

piece_size_lem :
    (len d m : ℕ) → d < len → len < 2 ^ 16 → m < 2 ^ 16 → piece_size len d m ≡ min m (len - d)
piece_size_lem len d m inside high low = ground arith

-- Storing fragments one after the other, each with the mutex had once; the first that fails ends it.
unfoldable pub store_each :
    {W : Type 0} → Port W → (List ℕ → W → Bool × W) → Logger → List Fragment → W → Bool × W
store_each p callback l [] w = (true, w)
store_each p callback l (f ∷ fs) w =
    let (taken, w1) = p.take_mutex forever w in
    let (stored, w2) = store_fragment p callback l f w1 in
    elim taken [
      | false ↦ (false, w1)
      | true ↦ elim stored [ false ↦ (false, w2) | true ↦ store_each p callback l fs w2 ]
    ]

module _ (btp : Btp) (sizes : Sizes btp) (l : Logger) (s : LogRecord) (rest : List LogRecord)
    (v : Retains l.ring (s ∷ rest)) where
  stored_fragment-at :
      (i : ℕ)
      → i < fragment_count btp s.header.payload_length
      → stored_fragment btp l l.ring.read_offset s.header i ≡ fragment_at btp s i
  unfolding stored_fragment
  stored_fragment-at i lt =
      let m = btp.espnow_max_payload_size in
      let d = i * m in
      let ok = v.sound.0 in
      let inside = fragment-lt btp s.header.payload_length i sizes.some_room ok.not_empty lt in
      let len = s.header.payload_length in
      let size_lem : piece_size len d m ≡ min m (length (drop d s.payload)) =
        piece_size_lem len d m inside ok.length_fits (omega (arith, sizes.length_fits))
        ∙ ap (min m) (omega (arith, length-drop d s.payload, ok.filled)) in
      let fits : record_size s ≤ l.ring.capacity =
        omega (arith, length-text v.holds, length-all_octets-cons s rest ok) in
      let at : u32 (l.ring.read_offset + header_size + d) % l.ring.capacity
          ≡ (l.ring.read_offset + (0 + header_size + d)) % l.ring.capacity =
        ap (λ k. k % l.ring.capacity)
          (omega (arith, v.holds.inside, v.holds.small, inside, fits)) in
      ap
        (λ octets. record {
          log_type = s.header.log_type;
          sequence = s.header.sequence;
          timestamp_us = s.header.timestamp_us;
          payload = octets;
          fragment_index = i;
          fragment_count = fragment_count btp len;
          seal = none;
        })
        (ap (λ o. read_from_ring l.ring o (piece_size len d m)) at
          ∙ ap
              (read_from_ring l.ring
                ((l.ring.read_offset + (0 + header_size + d)) % l.ring.capacity))
              size_lem
          ∙ read_piece-Holds [] s (all_octets rest) d (min m (length (drop d s.payload))) v.holds ok
              (omega (arith, length-drop d s.payload, ok.filled, inside))
          ∙ take-min m (drop d s.payload))

  module _ {W : Type 0} (p : Port W) (callback : List ℕ → W → Bool × W) where
    -- Storing one fragment, and what comes next.
    abbrev one : Fragment → (W → Bool × W) → W → Bool × W
    one f next w =
        let (taken, w1) = p.take_mutex forever w in
        let (stored, w2) = store_fragment p callback l f w1 in
        elim taken [
          | false ↦ (false, w1)
          | true ↦ elim stored [ false ↦ (false, w2) | true ↦ next w2 ]
        ]

    -- The loop over the fragments stores those of the list.
    pub store_fragments-store_each :
        (i left : ℕ) (w : W)
        → i + left ≤ fragment_count btp s.header.payload_length
        → store_fragments btp p callback l l.ring.read_offset s.header i left w
          ≡ store_each p callback l (fragments_from btp s i left) w
    unfolding store_fragments store_each
    store_fragments-store_each i zero w le = refl
    store_fragments-store_each i (suc left) w le =
        ap
          (λ f. one f (store_fragments btp p callback l l.ring.read_offset s.header (i + 1) left) w)
          (stored_fragment-at i (omega arith))
        ∙ ap (λ next. one (fragment_at btp s i) next w)
            (fun_ext (λ w'. store_fragments-store_each (i + 1) left w' (omega arith)))
