-- ===== src/CommandProcessor/Reply.antt =====
-- lib/CommandProcessor: results on their way out.
use bally_os.Base.{
  ℕ, ◌+◌, Bool, true, false, not, ◌&&◌, ◌||◌, Option, none, some, List, [], codes, length, leb,
  ◌==◌, if◌then◌else◌, u32,
}
use bally_os.CommandProcessor.Codec.{ResultView}
use bally_os.CommandProcessor.{
  success, failed, busy, no_error, internal_error, capacity_exhausted, Outside, Processor, is_some,
  note_drop, count_rejected, seal_of, finish, cache_capacity,
}

module _ {D E S : Type 0} (x : Outside D E S) where
  unfoldable pub complete :
      Processor D S → E → ℕ → ℕ → ℕ → Option (List ℕ) → Processor D S × E × Option ResultView
  unfolding finish
  complete p e slot shell_status now message =
      let text =
        if shell_status == 0
        then elim message [ none ↦ [] | some m ↦ m ]
        else codes "shell command failed" in
      let (p', e', view) =
        finish x p e slot (if shell_status == 0 then success else failed)
          (if shell_status == 0 then no_error else internal_error) text now in
      elim view [
        | none ↦ (p', e', none)
        | some v ↦ (record p' { executed = u32 (p'.executed + 1) }, e', some v)
      ]

  unfoldable pub reject_busy : Processor D S → E → ℕ → ℕ → Processor D S × E × Option ResultView
  unfolding finish
  reject_busy p e slot now =
      if leb cache_capacity slot
      then (p, e, none)
      else finish x (count_rejected p) e slot busy capacity_exhausted
          (codes "command execution queue full") now

  -- What a result has to have to be sent, and whether an endpoint is given at all.
  unfoldable pub sendable : Bool → ResultView → Bool
  sendable endpoint_given v = endpoint_given && elim v.payload [
    | none ↦ false
    | some bytes ↦
        not (v.sequence == 0)
        && not (length bytes == 0)
        && leb (length bytes) x.espnow_max_payload_size
  ]

  unfoldable pub transmit : Processor D S → E → ResultView → Option S → Processor D S × E × Bool
  unfolding note_drop
  transmit p e v seal =
      let (sent, e') = x.send_fragment e v seal in (if sent then p else note_drop p, e', sent)

  -- `endpoint_given` is false for a null endpoint; `e` is the state of the one that is given.
  unfoldable pub send_result_via :
      Processor D S → E → Bool → ResultView → Bool → Processor D S × E × Bool
  unfolding transmit sendable
  send_result_via p e endpoint_given v cleartext =
      if not (sendable endpoint_given v)
      then (note_drop p, e, false)
      else if cleartext
      then transmit p e v none
      else if not (is_some (seal_of p v.channel))
          && (is_some p.seal_link || is_some p.seal_endpoint)
      then (note_drop p, e, false)
      else transmit p e v (seal_of p v.channel)

  -- By the endpoint of `configure`, which is null before it.
  unfoldable pub send_result : Processor D S → E → ResultView → Processor D S × E × Bool
  send_result p e v = send_result_via p e p.bound v false

  -- By another endpoint.
  unfoldable pub send_result_by : Processor D S → E → ResultView → Processor D S × E × Bool
  send_result_by p e v = send_result_via p e true v false

  unfoldable pub send_result_cleartext : Processor D S → E → ResultView → Processor D S × E × Bool
  send_result_cleartext p e v = send_result_via p e true v true
