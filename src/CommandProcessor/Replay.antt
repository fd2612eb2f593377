-- ===== src/CommandProcessor/Replay.antt =====
-- lib/CommandProcessor, `complete`: the result that is kept is the result that was sent.
use bally_os.Base.{
  ℕ, ◌+◌, ◌^◌, ◌<◌, ◌≤◌, ◌≡◌, refl, ap, ◌∙◌, Bool, true, false, not, ◌||◌, Option, none, some, List,
  [], codes, length, if◌then◌else◌, leb, ◌==◌, u32,
}
use bally_os.Channels.{Channel}
use bally_os.CommandProcessor.Codec.{
  ResultView, replay_view, pack, max_result_payload_size, replay_view-pack,
}
use bally_os.CommandProcessor.Reply.{complete}
use bally_os.CommandProcessor.{
  Outside, Processor, SlotMeta, finish, store_result, cache_capacity, Status, ErrorCode, success,
  failed, no_error, internal_error, note_drop,
}

-- What is relied on of the other parts: sequence numbers have 32 bits, and an encoded result keeps to the
-- capacity that it is given.
pub record IsOutside {D E S : Type 0} (x : Outside D E S) : Type 0 where
  pub sequence_lt : (e : E) (n : ℕ) → (x.reserve_sequence e).0 ≡ some n → n < 2 ^ 32
  pub result_le :
      (about : SlotMeta) (status : Status) (error : ErrorCode) (message : List ℕ) (capacity : ℕ)
      (payload : List ℕ)
      → x.encode_result about status error message capacity ≡ some payload
      → length payload ≤ capacity

module _ {D E S : Type 0} (x : Outside D E S) where
  -- The cache was given a copy that replays as the view, on any channel.
  abbrev pub Keeps : Processor D S → ℕ → Processor D S → ResultView → Type 0
  Keeps p slot p' v =
      (stored : List ℕ) × (x.record_result p.dedup slot stored ≡ (true, p'.dedup))
      × ((channel : Channel) → replay_view (some stored) channel ≡ record v { channel = channel })

  store_result-Keeps :
      (p : Processor D S) (e : E) (slot : ℕ) (sequence : Option ℕ) (payload : Option (List ℕ))
      (now : ℕ)
      → ((n : ℕ) → sequence ≡ some n → n < 2 ^ 32)
      → ((bytes : List ℕ) → payload ≡ some bytes → length bytes ≤ max_result_payload_size)
      → now < 2 ^ 64
      → (v : ResultView) → (store_result x p e slot sequence payload now).2 ≡ some v
      → Keeps p slot (store_result x p e slot sequence payload now).0 v
  unfolding store_result
  store_result-Keeps p e slot none payload now s l t v h = cc
  store_result-Keeps p e slot (some n) none now s l t v h = cc
  store_result-Keeps p e slot (some n) (some bytes) now s l t v h =
      go (x.record_result p.dedup slot (pack n now bytes)) refl h
    where
      shown : ResultView
      shown = record {
        sequence = n;
        timestamp_us = now;
        payload = some bytes;
        channel = (p.slot_meta slot).channel;
      }

      moved : Channel → ResultView → ResultView
      moved channel w = record w { channel = channel }

      branch : Bool × D → Processor D S × E × Option ResultView
      branch (stored, d) =
          let p' = record p { dedup = d } in
          if stored then (p', e, some shown) else (note_drop p', e, none)

      go :
          (r : Bool × D)
          → x.record_result p.dedup slot (pack n now bytes) ≡ r
          → (branch r).2 ≡ some v
          → Keeps p slot (branch r).0 v
      go (false, d) eq k = cc
      go (true, d) eq k =
          let same : shown ≡ v = cc in
          (
            pack n now bytes,
            eq,
            λ channel.
                replay_view-pack n now bytes channel (s n refl) t (l bytes refl)
                ∙ ap (moved channel) same,
          )

  finish-Keeps :
      (ok : IsOutside x) (p : Processor D S) (e : E) (slot : ℕ) (status : Status)
      (error : ErrorCode) (message : List ℕ) (now : ℕ)
      → now < 2 ^ 64
      → (v : ResultView) → (finish x p e slot status error message now).2 ≡ some v
      → Keeps p slot (finish x p e slot status error message now).0 v
  unfolding finish
  finish-Keeps ok p e slot status error message now t v =
      go (not p.bound || leb cache_capacity slot)
    where
      go :
          (b : Bool)
          → let r : Processor D S × E × Option ResultView =
              if b
              then (p, e, none)
              else let (sequence, e') = x.reserve_sequence e in
                store_result x p e' slot sequence
                  (x.encode_result (p.slot_meta slot) status error message max_result_payload_size)
                  now in
            r.2 ≡ some v → Keeps p slot r.0 v
      go true h = cc
      go false h =
          store_result-Keeps p (x.reserve_sequence e).1 slot (x.reserve_sequence e).0
            (x.encode_result (p.slot_meta slot) status error message max_result_payload_size) now
            (ok.sequence_lt e)
            (ok.result_le (p.slot_meta slot) status error message max_result_payload_size) t v h

  -- When `complete` shows a result to be sent, the cache was given a copy for that slot that is read back as the same
  -- sequence number, time and payload, on any channel.
  pub complete-Keeps :
      (ok : IsOutside x) (p : Processor D S) (e : E) (slot shell_status now : ℕ)
      (message : Option (List ℕ)) (v : ResultView)
      → now < 2 ^ 64
      → (complete x p e slot shell_status now message).2 ≡ some v
      → Keeps p slot (complete x p e slot shell_status now message).0 v
  unfolding complete
  complete-Keeps ok p e slot shell_status now message v t =
      go (finish x p e slot status error text now)
        (finish-Keeps ok p e slot status error text now t)
    where
      text : List ℕ
      text =
          if shell_status == 0
          then elim message [ none ↦ [] | some m ↦ m ]
          else codes "shell command failed"

      status : Status
      status = if shell_status == 0 then success else failed

      error : ErrorCode
      error = if shell_status == 0 then no_error else internal_error

      counted : Processor D S × E × Option ResultView → Processor D S × E × Option ResultView
      counted (p', e', view) = elim view [
        | none ↦ (p', e', none)
        | some w ↦ (record p' { executed = u32 (p'.executed + 1) }, e', some w)
      ]

      go :
          (r : Processor D S × E × Option ResultView)
          → ((w : ResultView) → r.2 ≡ some w → Keeps p slot r.0 w)
          → (counted r).2 ≡ some v
          → Keeps p slot (counted r).0 v
      go (p', e', none) keeps h = cc
      go (p', e', some w) keeps h = keeps v h
