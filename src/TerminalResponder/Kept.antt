-- ===== src/TerminalResponder/Kept.antt =====
-- lib/TerminalResponder, `pump`: a turn leaves the origin of its slot and what other tasks put there.
use bally_os.Base.{
  ℕ, zero, suc, ◌≡◌, refl, ◌∙◌, Bool, true, false, ◌&&◌, Option, none, some, List, [], ◌∷◌,
  if◌then◌else◌, leb, sub_u64, arith,
}
use bally_os.TerminalResponder.{Slot, Stats}
use bally_os.TerminalResponder.Pumping.{
  Editor, Host, Turn, edit, refuse_line, submitted, submit_line, hold_line, on_line, polled,
  poll_lines, reset_slot, paint_prompt, write_result, feed_input, submit_held, write_async,
  snapshot, result_of, begin_turn, run_lines, take_turn,
}

module _ {Ed : Type 0} where
  -- The same origin, and the same buffers between tasks.
  abbrev pub SameShared : Slot Ed → Slot Ed → Type 0
  SameShared s t =
      (t.used ≡ s.used)
      × (t.source_id ≡ s.source_id)
      × (t.boot_id ≡ s.boot_id)
      × (t.input ≡ s.input)
      × (t.pending_out ≡ s.pending_out)
      × (t.async_out ≡ s.async_out)

  same : (s : Slot Ed) → SameShared s s
  same s = (refl, refl, refl, refl, refl, refl)

  pub then_same : (s t u : Slot Ed) → SameShared s t → SameShared t u → SameShared s u
  then_same s t u (a, b, c, d, e, f) (g, h, i, j, k, l) = (g ∙ a, h ∙ b, i ∙ c, j ∙ d, k ∙ e, l ∙ f)

module _ {Ed W : Type 0} (ed : Editor Ed) (host : Host W) where
  refuse_line-SameShared : (t : Turn Ed W) → SameShared t.slot (refuse_line ed host t).slot
  unfolding refuse_line edit
  refuse_line-SameShared t = same t.slot

  submitted-SameShared :
      (t : Turn Ed W) (r : Bool × W) → SameShared t.slot (submitted ed host t r).slot
  unfolding submitted
  submitted-SameShared t (true, w) = same t.slot
  submitted-SameShared t (false, w) = refuse_line-SameShared (record t { world = w })

  hold_line-SameShared :
      (t : Turn Ed W) (line held : List ℕ) → SameShared t.slot (hold_line ed host t line held).slot
  unfolding hold_line
  hold_line-SameShared t line [] = same t.slot
  hold_line-SameShared t line (c ∷ held) = refuse_line-SameShared t

  on_line-SameShared :
      (t : Turn Ed W) (line : List ℕ) → SameShared t.slot (on_line ed host t line).slot
  unfolding on_line submit_line
  on_line-SameShared t line = go t.slot.awaiting_result
    where
      go :
          (b : Bool)
          → SameShared t.slot
              (if b
                then hold_line ed host t line t.slot.pending_line
                else submitted ed host t
                    (host.submit t.world t.slot.source_id t.slot.boot_id line)).slot
      go true = hold_line-SameShared t line t.slot.pending_line
      go false = submitted-SameShared t (host.submit t.world t.slot.source_id t.slot.boot_id line)

  polled-SameShared : (t : Turn Ed W) → SameShared t.slot (polled ed host t).slot
  unfolding polled
  polled-SameShared t = same t.slot

  poll_lines-SameShared :
      (fuel : ℕ) (t : Turn Ed W) → SameShared t.slot (poll_lines ed host fuel t).slot
  unfolding poll_lines
  poll_lines-SameShared zero t = same t.slot
  poll_lines-SameShared (suc fuel) t =
      go (ed.poll t.slot.editor).0
        (λ line. poll_lines-SameShared fuel (on_line ed host (polled ed host t) line))
    where
      go :
          (o : Option (List ℕ))
          → ((line : List ℕ)
              → SameShared
                  (on_line ed host (polled ed host t) line).slot
                  (poll_lines ed host fuel (on_line ed host (polled ed host t) line)).slot)
          → SameShared t.slot
              (elim o as (λ x. Turn Ed W) [
                | none ↦ polled ed host t
                | some line ↦ poll_lines ed host fuel (on_line ed host (polled ed host t) line)
              ]).slot
      go none later = polled-SameShared t
      go (some line) later =
          then_same t.slot (on_line ed host (polled ed host t) line).slot
            (poll_lines ed host fuel (on_line ed host (polled ed host t) line)).slot
            (then_same t.slot (polled ed host t).slot (on_line ed host (polled ed host t) line).slot
              (polled-SameShared t) (on_line-SameShared (polled ed host t) line))
            (later line)

  submit_held-SameShared :
      (t : Turn Ed W) (line : List ℕ) → SameShared t.slot (submit_held ed host t line).slot
  unfolding submit_held submit_line
  submit_held-SameShared t [] = same t.slot
  submit_held-SameShared t (c ∷ line) = go t.slot.awaiting_result
    where
      emptied : Turn Ed W
      emptied = record t { slot = record t.slot { pending_line = [] } }

      go :
          (b : Bool)
          → SameShared t.slot
              (if b
                then t
                else submitted ed host emptied
                    (host.submit t.world t.slot.source_id t.slot.boot_id (c ∷ line))).slot
      go true = same t.slot
      go false =
          submitted-SameShared emptied
            (host.submit t.world t.slot.source_id t.slot.boot_id (c ∷ line))

  run_lines-SameShared : (t : Turn Ed W) → SameShared t.slot (run_lines ed host t).slot
  unfolding run_lines
  run_lines-SameShared t =
      let u : Turn Ed W = submit_held ed host t t.slot.pending_line in
      then_same t.slot u.slot (poll_lines ed host (suc (ed.max_rounds u.slot.editor)) u).slot
        (submit_held-SameShared t t.slot.pending_line)
        (poll_lines-SameShared (suc (ed.max_rounds u.slot.editor)) u)

  feed_input-SameShared :
      (input : List ℕ) (t : Turn Ed W) → SameShared t.slot (feed_input ed host input t).slot
  unfolding feed_input
  feed_input-SameShared [] t = same t.slot
  feed_input-SameShared (c ∷ input) t = same t.slot

  write_async-SameShared :
      (now : ℕ) (lines : List ℕ) (t : Turn Ed W)
      → SameShared t.slot (write_async ed host now lines t).slot
  unfolding write_async edit
  write_async-SameShared now [] t =
      go (t.slot.async_prompt_dirty && leb 250000 (sub_u64 now t.slot.last_async_output_us))
    where
      go :
          (b : Bool)
          → SameShared t.slot
              (if b
                then edit ed host ed.refresh_line
                    (record t { slot = record t.slot { async_prompt_dirty = false } })
                else t).slot
      go true = same t.slot
      go false = same t.slot
  write_async-SameShared now (c ∷ lines) t = same t.slot

  begin_turn-SameShared :
      (now : ℕ) (s : Slot Ed) (st : Stats) (w : W)
      → SameShared (snapshot ed host now s) (begin_turn ed host now s st w).slot
  unfolding begin_turn result_of paint_prompt write_result reset_slot edit
  begin_turn-SameShared now s st w = ground arith

  -- After a turn the slot is that of the snapshot, in what it shares.
  pub take_turn-SameShared :
      (now : ℕ) (s : Slot Ed) (st : Stats) (w : W)
      → SameShared (snapshot ed host now s) (take_turn ed host now s st w).slot
  unfolding take_turn
  take_turn-SameShared now s st w =
      let t0 : Turn Ed W = begin_turn ed host now s st w in
      let t1 : Turn Ed W = feed_input ed host s.input t0 in
      let t2 : Turn Ed W = run_lines ed host t1 in
      let t3 : Turn Ed W = write_async ed host now s.async_out t2 in
      then_same (snapshot ed host now s) t0.slot t3.slot (begin_turn-SameShared now s st w) (
        then_same t0.slot t1.slot t3.slot (feed_input-SameShared s.input t0) (
          then_same t1.slot t2.slot t3.slot (run_lines-SameShared t1)
            (write_async-SameShared now s.async_out t2)))
