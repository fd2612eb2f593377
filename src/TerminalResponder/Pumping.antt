-- ===== src/TerminalResponder/Pumping.antt =====
-- lib/TerminalResponder, `pump`: one pass over the origins.
use bally_os.Base.{
  ℕ, zero, suc, ◌+◌, ◌-◌, Bool, true, false, not, ◌&&◌, ◌||◌, Option, none, some, List, [], ◌∷◌,
  ◌++◌, length, take, drop, leb, if◌then◌else◌, u32, sub_u64, codes,
}
use bally_os.TerminalResponder.{LinkTarget, Slot, Stats, Responder}

-- `ShellLineEditor`: a call gives the new state and what it appends to the output. `poll` gives a
-- finished line, if there is one. `max_rounds` is no part of the editor: it is where the model cuts off the
-- loop over its lines, a parameter of which nothing is assumed.
pub record Editor (Ed : Type 0) : Type 0 where
  pub reset : Ed → Ed
  pub set_prompt : Ed → Ed × List ℕ
  pub write_response : List ℕ → Ed → Ed × List ℕ
  pub feed : List ℕ → Ed → Ed
  pub poll : Ed → Option (List ℕ) × List ℕ × Ed
  pub write_async_output : List ℕ → Ed → Ed × List ℕ
  pub refresh_line : Ed → Ed × List ℕ
  pub max_rounds : Ed → ℕ

-- The shell's queue, which may refuse a line; a link, which may refuse a frame; and the sizes of
-- their payloads.
pub record Host (W : Type 0) : Type 0 where
  pub submit : W → ℕ → ℕ → List ℕ → Bool × W
  pub send : W → LinkTarget → List ℕ → Bool × W
  pub sealed : LinkTarget → Bool
  pub max_payload_size : LinkTarget → ℕ
  pub aead_tag_size : ℕ

-- A slot in the middle of a pass, what it has to write, and the rest.
pub record Turn (Ed W : Type 0) : Type 0 where
  pub slot : Slot Ed
  pub out : List ℕ
  pub stats : Stats
  pub world : W

abbrev pub busy_note : List ℕ
busy_note = codes "! busy, command dropped"

module _ {Ed W : Type 0} (ed : Editor Ed) (host : Host W) where
  -- A call of the editor that writes.
  unfoldable pub edit : (Ed → Ed × List ℕ) → Turn Ed W → Turn Ed W
  edit f t =
      let (e, more) = f t.slot.editor in
      record t { slot = record t.slot { editor = e }; out = t.out ++ more }

  unfoldable pub refuse_line : Turn Ed W → Turn Ed W
  refuse_line t = edit (ed.write_response busy_note) (record t {
    stats = record t.stats { lines_dropped_busy = u32 (t.stats.lines_dropped_busy + 1) };
  })

  unfoldable pub submitted : Turn Ed W → Bool × W → Turn Ed W
  submitted t (true, w) = record t {
    slot = record t.slot { awaiting_result = true };
    stats = record t.stats { lines_submitted = u32 (t.stats.lines_submitted + 1) };
    world = w;
  }
  submitted t (false, w) = refuse_line (record t { world = w })

  unfoldable pub submit_line : Turn Ed W → List ℕ → Turn Ed W
  submit_line t line = submitted t (host.submit t.world t.slot.source_id t.slot.boot_id line)

  -- A line while a command is in flight: one is held, a second is dropped.
  unfoldable pub hold_line : Turn Ed W → List ℕ → List ℕ → Turn Ed W
  hold_line t line [] = record t { slot = record t.slot { pending_line = line } }
  hold_line t line (c ∷ held) = refuse_line t

  unfoldable pub on_line : Turn Ed W → List ℕ → Turn Ed W
  on_line t line =
      if t.slot.awaiting_result then hold_line t line t.slot.pending_line else submit_line t line

  -- What a poll appended and left.
  unfoldable pub polled : Turn Ed W → Turn Ed W
  polled t =
      let (line, more, e) = ed.poll t.slot.editor in
      record t { slot = record t.slot { editor = e }; out = t.out ++ more }

  -- `while (s.editor.poll (out, &line))`, at most `fuel` times.
  unfoldable pub poll_lines : ℕ → Turn Ed W → Turn Ed W
  poll_lines zero t = t
  poll_lines (suc fuel) t = elim (ed.poll t.slot.editor).0 [
    | none ↦ polled t
    | some line ↦ poll_lines fuel (on_line (polled t) line)
  ]

  unfoldable pub reset_slot : Turn Ed W → Turn Ed W
  reset_slot t = record t {
    slot = record t.slot {
      editor = ed.reset t.slot.editor;
      prompt_painted = false;
      awaiting_result = false;
      pending_line = [];
      async_prompt_dirty = false;
      last_async_output_us = 0;
    };
  }

  unfoldable pub paint_prompt : Turn Ed W → Turn Ed W
  paint_prompt t =
      if t.slot.prompt_painted
      then t
      else edit ed.set_prompt (record t { slot = record t.slot { prompt_painted = true } })

  unfoldable pub write_result : Option (List ℕ) → Turn Ed W → Turn Ed W
  write_result none t = t
  write_result (some result) t =
      edit (ed.write_response result)
        (record t { slot = record t.slot { awaiting_result = false } })

  unfoldable pub feed_input : List ℕ → Turn Ed W → Turn Ed W
  feed_input [] t = t
  feed_input (c ∷ input) t = record t {
    slot = record t.slot { editor = ed.feed (c ∷ input) t.slot.editor };
  }

  unfoldable pub submit_held : Turn Ed W → List ℕ → Turn Ed W
  submit_held t [] = t
  submit_held t (c ∷ line) =
      if t.slot.awaiting_result
      then t
      else submit_line (record t { slot = record t.slot { pending_line = [] } }) (c ∷ line)

  unfoldable pub write_async : ℕ → List ℕ → Turn Ed W → Turn Ed W
  write_async now [] t =
      if t.slot.async_prompt_dirty && leb 250000 (sub_u64 now t.slot.last_async_output_us)
      then edit ed.refresh_line (record t { slot = record t.slot { async_prompt_dirty = false } })
      else t
  write_async now (c ∷ lines) t =
      edit (ed.write_async_output (c ∷ lines)) (record t {
        slot = record t.slot { async_prompt_dirty = true; last_async_output_us = now };
      })

  unfoldable pub terminal_out_stride : LinkTarget → ℕ
  terminal_out_stride target =
      if host.sealed target
      then host.max_payload_size target - host.aead_tag_size
      else host.max_payload_size target

  unfoldable pub count_frame : Bool → Stats → Stats
  count_frame true st = record st { frames_out = u32 (st.frames_out + 1) }
  count_frame false st = st

  -- The chunks from an offset on; an octet leaves in each round, so their number is enough fuel.
  unfoldable pub emit_chunks : ℕ → LinkTarget → List ℕ → Stats → W → Stats × W
  emit_chunks zero target bytes st w = (st, w)
  emit_chunks (suc fuel) target [] st w = (st, w)
  emit_chunks (suc fuel) target (c ∷ bytes) st w =
      let stride = terminal_out_stride target in
      let (sent, w1) = host.send w target (take stride (c ∷ bytes)) in
      emit_chunks fuel target (drop stride (c ∷ bytes)) (count_frame sent st) w1

  unfoldable pub emit_terminal_out : (LinkTarget → Bool) → LinkTarget → Turn Ed W → Stats × W
  emit_terminal_out bound target t =
      if bound target
      then emit_chunks (length t.out) target t.out t.stats t.world
      else (t.stats, t.world)

  -- What is taken out of a used slot under the lock.
  unfoldable pub snapshot : ℕ → Slot Ed → Slot Ed
  snapshot now s = record s {
    last_used_us = now;
    needs_editor_reset = false;
    pending_out = if s.result_ready then [] else s.pending_out;
    result_ready = false;
    input = [];
    async_out = [];
  }

  unfoldable pub result_of : Slot Ed → Option (List ℕ)
  result_of s = if s.result_ready then some s.pending_out else none

  -- The pass over a used slot up to the lines of the editor.
  unfoldable pub begin_turn : ℕ → Slot Ed → Stats → W → Turn Ed W
  begin_turn now s st w =
      let start : Turn Ed W = record { slot = snapshot now s; out = []; stats = st; world = w } in
      write_result (result_of s)
        (paint_prompt (if s.needs_editor_reset then reset_slot start else start))

  unfoldable pub run_lines : Turn Ed W → Turn Ed W
  run_lines t =
      let u = submit_held t t.slot.pending_line in poll_lines (suc (ed.max_rounds u.slot.editor)) u

  unfoldable pub take_turn : ℕ → Slot Ed → Stats → W → Turn Ed W
  take_turn now s st w =
      write_async now s.async_out (run_lines (feed_input s.input (begin_turn now s st w)))

  unfoldable pub pump_slot :
      (LinkTarget → Bool) → ℕ → Bool → Slot Ed → Stats → W → Slot Ed × Stats × W
  pump_slot bound now busy s st w =
      if busy || not s.used then (s, st, w) else finish (take_turn now s st w)
    where
      finish : Turn Ed W → Slot Ed × Stats × W
      finish t = let (st1, w1) = emit_terminal_out bound s.target t in (t.slot, st1, w1)

  -- The slots in turn; `locks` tells for each whether the lock is not had.
  unfoldable pub pump_slots :
      (LinkTarget → Bool) → ℕ → List Bool → List (Slot Ed) → Stats → W → List (Slot Ed) × Stats × W
  pump_slots bound now locks [] st w = ([], st, w)
  pump_slots bound now [] (s ∷ slots) st w = (s ∷ slots, st, w)
  pump_slots bound now (busy ∷ locks) (s ∷ slots) st w =
      let (s1, st1, w1) = pump_slot bound now busy s st w in
      let (rest, st2, w2) = pump_slots bound now locks slots st1 w1 in (s1 ∷ rest, st2, w2)

  unfoldable pub pump : Responder Ed → ℕ → List Bool → W → Responder Ed × W
  pump r now locks w =
      let (slots, st, w1) = pump_slots r.bound now locks r.slots r.stats w in
      (record r { slots = slots; stats = st }, w1)
