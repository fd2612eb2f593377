-- ===== src/Logger/Flushed.antt =====
-- lib/Logger: the loop of `flush_logs_to` over the records that it began with, on the list of records.
use bally_os.Base.{
  All, ℕ, ◌≤◌, ◌≡◌, refl, sym, ap, subst, ◌∙◌, Bool, true, false, List, [], ◌∷◌, ◌++◌, ◌⊎◌, inl,
  inr, length,
}
use mathlib.Core.Path.{fun_ext}
use bally_os.Btp.{Btp}
use bally_os.Logger.Records.{LogRecord, IsRecord, all_octets}
use bally_os.Logger.Retained.{Retains}
use bally_os.Logger.{Logger, Fragment, max_logical_log_size, Port, forever}
use bally_os.Logger.Pending.{Sizes}
use bally_os.Logger.Storing.{release_record, store_records}
use bally_os.Logger.Stored.{fragments_of, store_each}
use bally_os.Logger.Rounds.{store_list, store_records-fragments_of}
use bally_os.Logger.Cutting.{cut, fragments_of-cut}
use bally_os.Logger.Releasing.{release_record-Retains}

module _ {W : Type 0} (p : Port W) (callback : List ℕ → W → Bool × W)
    (fragments others : LogRecord → List Fragment) where
  -- The list of records is stored in the same way in the same fragments.
  store_list-same :
      (l : Logger) (rs : List LogRecord) (w : W)
      → All (λ s. fragments s ≡ others s) rs
      → store_list p callback fragments l rs w ≡ store_list p callback others l rs w
  unfolding store_list
  store_list-same l [] w same = refl
  store_list-same l (s ∷ rs) w (here, same) =
      ap (λ fs. one fs (store_list p callback fragments (release_record l s.header) rs)) here
      ∙ ap (one (others s)) (fun_ext (λ w'. store_list-same (release_record l s.header) rs w' same))
    where
      -- Storing a record, and what comes next.
      one : List Fragment → (W → Bool × Logger × W) → Bool × Logger × W
      one fs next =
          let (taken, w1) = p.take_mutex forever w in
          let (stored, w2) = store_each p callback l fs w1 in
          let (again, w3) = p.take_mutex forever w2 in
          elim taken [
            | false ↦ (false, l, w1)
            | true ↦ elim stored [
              | false ↦ (false, l, w2)
              | true ↦ elim again [ false ↦ (false, l, w3) | true ↦ next w3 ]
            ]
          ]

module _ (btp : Btp) {W : Type 0} (p : Port W) (callback : List ℕ → W → Bool × W)
    (sizes : Sizes btp) where
  cut-All :
      (rs more : List LogRecord)
      → All IsRecord (rs ++ more)
      → All (λ s. s.header.payload_length ≤ max_logical_log_size btp) rs
      → All (λ s. fragments_of btp s ≡ cut btp s) rs
  cut-All [] more sound bounded = tt
  cut-All (s ∷ rs) more (ok, sound) (here, bounded) =
      (fragments_of-cut btp s sizes ok here, cut-All rs more sound bounded)

  -- For frames with room for an octet and lengths that fit in 16 bits, with as many rounds as octets, for records no longer than `insert_log` makes them and whatever other records
  -- follow: the loop stores each record in turn, its text cut into pieces of the size of a frame, the last one shorter, each with its
  -- number, the count of them and the type, time and sequence number of the record. It releases each one that is stored,
  -- and ends with the first failure.
  pub store_records-store_list :
      (n : ℕ) (l : Logger) (rs more : List LogRecord) (w : W)
      → Retains l.ring (rs ++ more)
      → All (λ s. s.header.payload_length ≤ max_logical_log_size btp) rs
      → length (all_octets rs) ≤ n
      → store_records btp p callback n l (length (all_octets rs)) w
        ≡ store_list p callback (cut btp) l rs w
  store_records-store_list n l rs more w v bounded le =
      store_records-fragments_of btp p callback sizes n l rs more w v le
      ∙ store_list-same p callback (fragments_of btp) (cut btp) l rs w
          (cut-All rs more v.sound bounded)

-- Some of the records from the oldest on are gone from the ring, the others and those that follow are kept; after a
-- success none of the others is left.
pub record Leaves (success : Bool) (l : Logger) (rs more : List LogRecord) : Type 0 where
  pub gone : List LogRecord
  pub kept : List LogRecord
  pub split : rs ≡ gone ++ kept
  pub retains : Retains l.ring (kept ++ more)
  pub ended : (kept ≡ []) ⊎ (success ≡ false)

module _ (btp : Btp) {W : Type 0} (p : Port W) (callback : List ℕ → W → Bool × W) where
  failed :
      (l : Logger) (rs more : List LogRecord) → Retains l.ring (rs ++ more) → Leaves false l rs more
  failed l rs more v = record { gone = []; kept = rs; split = refl; retains = v; ended = inr refl }

  store_list-Leaves :
      (l : Logger) (rs more : List LogRecord) (w : W)
      → Retains l.ring (rs ++ more)
      → Leaves
          (store_list p callback (fragments_of btp) l rs w).0
          (store_list p callback (fragments_of btp) l rs w).1
          rs
          more
  unfolding store_list
  store_list-Leaves l [] more w v = record {
    gone = [];
    kept = [];
    split = refl;
    retains = v;
    ended = inl refl;
  }
  store_list-Leaves l (s ∷ rs) more w v =
      let w1 = (p.take_mutex forever w).1 in
      let w2 = (store_each p callback l (fragments_of btp s) w1).1 in
      let w3 = (p.take_mutex forever w2).1 in
      let rest =
        store_list-Leaves (release_record l s.header) rs more w3
          (release_record-Retains l s (rs ++ more) v) in
      go (p.take_mutex forever w).0 (store_each p callback l (fragments_of btp s) w1).0
        (p.take_mutex forever w2).0 w1 w2 w3
        (store_list p callback (fragments_of btp) (release_record l s.header) rs w3) rest
    where
      go :
          (taken stored again : Bool) (w1 w2 w3 : W) (next : Bool × Logger × W)
          → Leaves next.0 next.1 rs more
          → (let result : Bool × Logger × W = elim taken [
            | false ↦ (false, l, w1)
            | true ↦ elim stored [
              | false ↦ (false, l, w2)
              | true ↦ elim again [ false ↦ (false, l, w3) | true ↦ next ]
            ]
          ] in
              Leaves result.0 result.1 (s ∷ rs) more)
      go false stored again w1 w2 w3 next r = failed l (s ∷ rs) more v
      go true false again w1 w2 w3 next r = failed l (s ∷ rs) more v
      go true true false w1 w2 w3 next r = failed l (s ∷ rs) more v
      go true true true w1 w2 w3 next r = record {
        gone = s ∷ r.gone;
        kept = r.kept;
        split = ap (λ z. s ∷ z) r.split;
        retains = r.retains;
        ended = r.ended;
      }

  -- Whatever fails, the flush has released only records from the oldest on, and the ring keeps all the others and those
  -- that follow; when it succeeds it has released all that it began with.
  pub store_records-Leaves :
      (n : ℕ) (l : Logger) (rs more : List LogRecord) (w : W)
      → Sizes btp
      → Retains l.ring (rs ++ more)
      → length (all_octets rs) ≤ n
      → Leaves
          (store_records btp p callback n l (length (all_octets rs)) w).0
          (store_records btp p callback n l (length (all_octets rs)) w).1
          rs
          more
  store_records-Leaves n l rs more w sizes v le =
      subst (λ (z : Bool × Logger × W). Leaves z.0 z.1 rs more)
        (sym (store_records-fragments_of btp p callback sizes n l rs more w v le))
        (store_list-Leaves l rs more w v)
