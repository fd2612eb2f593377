-- ===== src/Logger/Cutting.antt =====
-- lib/Logger: a record cut into fragments, as a list of pieces of its text, and the count that
-- `flush_logs_to` makes of them.
use bally_os.Base.{
  pieces_within, pieces, nothing_cut, ℕ, zero, suc, ◌+◌, ◌-◌, ◌*◌, ◌/◌, ◌≤◌, ◌<◌, ◌≡◌, refl, sym,
  ap, subst, ◌∙◌, none, List, [], ◌∷◌, arith, length, take, drop, length-drop,
}
use native.Mathlib.Nat.{le-div_iff_mul-le}
use bally_os.Btp.{Btp}
use bally_os.Logger.Records.{LogRecord, IsRecord}
use bally_os.Logger.{Fragment, max_logical_log_size}
use bally_os.Logger.Pending.{Sizes}
use bally_os.Logger.Storing.{fragment_count}
use bally_os.Logger.Stored.{fragment_at, fragments_from, fragments_of}

-- Each piece with its number and how many there are.
abbrev pub numbered_from : LogRecord → ℕ → ℕ → List (List ℕ) → List Fragment
numbered_from s count i [] = []
numbered_from s count i (piece ∷ rest) =
    record {
      log_type = s.header.log_type;
      sequence = s.header.sequence;
      timestamp_us = s.header.timestamp_us;
      payload = piece;
      fragment_index = i;
      fragment_count = count;
      seal = none;
    }
    ∷ numbered_from s count (i + 1) rest

-- The fragments that a record is to be stored in: the pieces of its text that fit in a frame.
abbrev pub cut : Btp → LogRecord → List Fragment
cut btp s =
    let texts = pieces btp.espnow_max_payload_size s.payload in
    numbered_from s (length texts) 0 texts

drop-nil : (n : ℕ) → drop {A = ℕ} n [] ≡ []
drop-nil zero = refl
drop-nil (suc n) = refl

grown : (k m : ℕ) → suc k * m ≡ k * m + m
grown k m = grind arith

drop-drop : (a b : ℕ) (xs : List ℕ) → drop b (drop a xs) ≡ drop (a + b) xs
drop-drop zero b xs = ap (λ k. drop k xs) {x = b} {y = 0 + b} (omega arith)
drop-drop (suc a) b [] = drop-nil b ∙ sym (drop-nil (suc a + b))
drop-drop (suc a) b (x ∷ xs) =
    drop-drop a b xs ∙ ap (λ k. drop k (x ∷ xs)) {x = suc (a + b)} {y = suc a + b} (omega arith)

module _ (btp : Btp) (s : LogRecord) (room : 0 < btp.espnow_max_payload_size) where
  abbrev m : ℕ
  m = btp.espnow_max_payload_size

  -- `k` frames are as many as the text takes.
  abbrev Enough : ℕ → List ℕ → Type 0
  Enough k text = (length text ≤ k * m) × (k * m < length text + m)

  fragments_from-pieces :
      (k i n : ℕ) (rest : List ℕ)
      → drop (i * m) s.payload ≡ rest
      → length rest ≤ n
      → Enough k rest
      → fragments_from btp s i k
        ≡ numbered_from s (fragment_count btp s.header.payload_length) i (pieces_within m n rest)
  fragments_from-pieces zero i n [] at le enough =
      ap (numbered_from s _ i) {x = []} {y = pieces_within m n []} (sym (nothing_cut m n))
  fragments_from-pieces zero i n (c ∷ cs) at le (few, many) = absurd (omega (arith, few))
  fragments_from-pieces (suc k) i n [] at le (few, many) = absurd (omega (arith, many, grown k m))
  fragments_from-pieces (suc k) i zero (c ∷ cs) at le enough = absurd (omega (arith, le))
  fragments_from-pieces (suc k) i (suc n) (c ∷ cs) at le (few, many) =
      let tail : drop ((i + 1) * m) s.payload ≡ drop m (c ∷ cs) =
        ap (λ d. drop d s.payload) {x = (i + 1) * m} {y = i * m + m}
          (ap (λ j. j * m) {x = i + 1} {y = suc i} (omega arith) ∙ grown i m)
        ∙ sym (drop-drop (i * m) m s.payload)
        ∙ ap (drop m) at in
      let shorter = length-drop m (c ∷ cs) in
      let later =
        fragments_from-pieces k (i + 1) n (drop m (c ∷ cs)) tail (omega (arith, shorter, le))
          (omega (arith, shorter, few, grown k m), omega (arith, shorter, many, grown k m)) in
      ap (λ (z : List Fragment). fragment_at btp s i ∷ z) later
      ∙ ap
          (λ piece.
            numbered_from s (fragment_count btp s.header.payload_length) i
              (piece ∷ pieces_within m n (drop m (c ∷ cs))))
          (ap (take m) at)

counted :
    (len m : ℕ) → 0 < m → (len ≤ ((len + m - 1) / m) * m) × (((len + m - 1) / m) * m < len + m)
counted len m room =
    let k = (len + m - 1) / m in
    let low = (le-div_iff_mul-le {k = m} {x = k} {y = len + m - 1} room).0 (omega arith) in
    let high : ¬ (suc k * m ≤ len + m - 1) =
      λ h. omega (arith, (le-div_iff_mul-le {k = m} {x = suc k} {y = len + m - 1} room).1 h) in
    (omega (arith, high, grown k m, room), omega (arith, low, room))

length-numbered_from :
    (s : LogRecord) (count i : ℕ) (texts : List (List ℕ))
    → length (numbered_from s count i texts) ≡ length texts
length-numbered_from s count i [] = refl
length-numbered_from s count i (piece ∷ rest) = ap suc (length-numbered_from s count (i + 1) rest)

length-fragments_from :
    (btp : Btp) (s : LogRecord) (i k : ℕ) → length (fragments_from btp s i k) ≡ k
length-fragments_from btp s i zero = refl
length-fragments_from btp s i (suc k) = ap suc (length-fragments_from btp s (i + 1) k)

-- The fragments that the program counts are those that the record is to be stored in, none missing and none too
-- many, for a record no longer than `insert_log` makes one.
pub fragments_of-cut :
    (btp : Btp) (s : LogRecord)
    → Sizes btp
    → IsRecord s
    → s.header.payload_length ≤ max_logical_log_size btp
    → fragments_of btp s ≡ cut btp s
fragments_of-cut btp s sizes ok bounded =
    let m = btp.espnow_max_payload_size in
    let len = s.header.payload_length in
    let n = length s.payload in
    let (few, many) = counted len m sizes.some_room in
    let many_frames : ¬ (256 ≤ (len + m - 1) / m) = λ h. omega (
      arith,
      (le-div_iff_mul-le {k = m} {x = 256} {y = len + m - 1} sizes.some_room).0 h,
      bounded,
      sizes.some_room,
    ) in
    let small : fragment_count btp len ≡ (len + m - 1) / m = omega (arith, many_frames) in
    let same =
      fragments_from-pieces btp s sizes.some_room (fragment_count btp len) 0 n s.payload
        (ap (λ d. drop d s.payload) {x = 0 * m} {y = 0} (omega arith)) (omega arith)
        (
          subst (λ c. n ≤ c * m) (sym small) (omega (arith, few, ok.filled)),
          subst (λ c. c * m < n + m) (sym small) (omega (arith, many, ok.filled)),
        ) in
    let count : fragment_count btp len ≡ length (pieces m s.payload) =
      sym (length-fragments_from btp s 0 (fragment_count btp len))
      ∙ ap (length {A = Fragment}) same
      ∙ length-numbered_from s (fragment_count btp len) 0 (pieces m s.payload) in
    same ∙ ap (λ c. numbered_from s c 0 (pieces m s.payload)) count
