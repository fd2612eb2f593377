-- ===== src/CommandProcessor/Taking.antt =====
-- lib/CommandProcessor, `intake`: a request on its way in.
use bally_os.Base.{
  ℕ, ◌+◌, Bool, not, ◌&&◌, ◌||◌, Option, none, some, inl, inr, List, [], codes, length, leb, ◌==◌,
  if◌then◌else◌, u32, u8,
}
use bally_os.Btp.{Header}
use bally_os.Channels.{Channel}
use bally_os.CommandProcessor.Codec.{replay_view}
use bally_os.CommandProcessor.{
  parse_message, parse_status, parse_error_code, success, rejected, busy, no_error,
  request_conflict, capacity_exhausted, ready, duplicate_in_progress, ParseError, DedupVerdict,
  duplicate_complete, duplicate_in_flight, conflict, evicted, exhausted, invalid_key, fresh,
  SlotMeta, Outside, Processor, Intake, no_intake, answered, answer, note_drop, count_duplicate,
  count_rejected, count_accepted, meta_of, finish, make_transient, command_request_object_id,
  ping_action_id,
}

module _ {D E S : Type 0} (x : Outside D E S) where
  -- A request that cannot be run: its slot is finished at once.
  unfoldable pub refuse : Processor D S → E → ℕ → ParseError → ℕ → Processor D S × E × Intake
  unfolding finish parse_status parse_error_code parse_message
  refuse q e slot error now = answer (
      finish x (count_rejected q) e slot (parse_status error) (parse_error_code error)
        (parse_message error) now)

  -- A request that the cache has not seen, in the slot that it was given.
  unfoldable pub take_fresh :
      Processor D S → E → ℕ → SlotMeta → Header → List ℕ → ℕ → Processor D S × E × Intake
  unfolding finish refuse
  take_fresh p e slot about header payload now =
      let q = record p { slot_meta = λ i. if i == slot then about else p.slot_meta i } in
      elim (x.parse_request e header payload) [
        | some error ↦ refuse q e slot error now
        | none ↦
            if about.action_id == ping_action_id
            then answer (finish x (count_accepted q) e slot success no_error [] now)
            else elim (x.copy_shell_command payload) [
              | inl error ↦ refuse q e slot error now
              | inr text ↦ (
                count_accepted q,
                e,
                record no_intake { kind = ready; cache_slot = u8 slot; text = text },
              )
            ]
      ]

  -- The switch over the verdict of the cache.
  unfoldable pub on_verdict :
      DedupVerdict → Processor D S → E → SlotMeta → Header → List ℕ → ℕ → Processor D S × E × Intake
  unfolding take_fresh make_transient note_drop
  on_verdict (duplicate_complete stored) p e about header payload now = (
    record (count_duplicate p) { replayed = u32 (p.replayed + 1) },
    e,
    answered (some (replay_view stored about.channel)),
  )
  on_verdict duplicate_in_flight p e about header payload now =
      (count_duplicate p, e, record no_intake { kind = duplicate_in_progress })
  on_verdict conflict p e about header payload now = answer (
      make_transient x (count_rejected (count_duplicate p)) e about rejected request_conflict
        (codes "request identity conflict") now)
  on_verdict evicted p e about header payload now = answer (
      make_transient x (count_rejected p) e about busy capacity_exhausted
        (codes "command cache exhausted") now)
  on_verdict exhausted p e about header payload now = answer (
      make_transient x (count_rejected p) e about busy capacity_exhausted
        (codes "command cache exhausted") now)
  on_verdict invalid_key p e about header payload now = (note_drop p, e, no_intake)
  on_verdict (fresh slot) p e about header payload now =
      take_fresh p e slot about header payload now

  unfoldable pub acceptable : Processor D S → Header → List ℕ → Bool
  acceptable p h payload =
      p.bound
      && h.message_type == x.command
      && h.object_id == command_request_object_id
      && not (h.source_id == 0)
      && not (h.boot_id == 0)
      && not (h.sequence == 0)
      && leb (length payload) x.max_logical_request_size

  -- The payload is null or some octets.
  unfoldable pub intake :
      Processor D S → E → Header → Option (List ℕ) → ℕ → Channel → Processor D S × E × Intake
  unfolding on_verdict acceptable
  intake p e h none now channel = (note_drop p, e, no_intake)
  intake p e h (some payload) now channel =
      if p.cache_lock || not (acceptable p h payload)
      then (note_drop p, e, no_intake)
      else let about = meta_of h payload channel in
        let (verdict, d) = x.classify p.dedup about.key payload in
        on_verdict verdict (record p { dedup = d }) e about h payload now
