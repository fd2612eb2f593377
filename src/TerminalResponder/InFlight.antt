-- ===== src/TerminalResponder/InFlight.antt =====
-- lib/TerminalResponder, `pump`: one command of an origin at a time.
use bally_os.Base.{
  ℕ, zero, suc, ◌+◌, ◌≡◌, ◌≢◌, ◌⊎◌, inl, inr, refl, ap, sym, ◌∙◌, Bool, true, false, not, ◌&&◌,
  ◌||◌, Option, none, some, List, [], ◌∷◌, length, take, drop, if◌then◌else◌, u32, leb, sub_u64,
  arith,
}
use bally_os.TerminalResponder.{LinkTarget, Slot, Stats}
use bally_os.TerminalResponder.Pumping.{
  Editor, Host, Turn, edit, refuse_line, submitted, submit_line, hold_line, on_line, polled,
  poll_lines, reset_slot, paint_prompt, write_result, feed_input, submit_held, write_async,
  count_frame, terminal_out_stride, emit_chunks, emit_terminal_out, snapshot, result_of, begin_turn,
  run_lines, take_turn, pump_slot,
}

-- What a pass over a slot makes of the commands in flight.
abbrev pub OneAtATime : {Ed : Type 0} → Slot Ed → Stats → Slot Ed → Stats → Type 0
OneAtATime s st after st1 =
    ((st1.lines_submitted ≡ st.lines_submitted)
      ⊎ ((st1.lines_submitted ≡ u32 (st.lines_submitted + 1)) × (after.awaiting_result ≡ true)))
    × (s.awaiting_result ≡ true
        → s.needs_editor_reset ≡ false
        → s.result_ready ≡ false
        → (st1.lines_submitted ≡ st.lines_submitted) × (after.awaiting_result ≡ true))

module _ {Ed W : Type 0} (ed : Editor Ed) (host : Host W) where
  -- Nothing is submitted, or one line while none is in flight, which is in flight then.
  abbrev pub AtMostOne : Turn Ed W → Turn Ed W → Type 0
  AtMostOne t u =
      ((u.stats.lines_submitted ≡ t.stats.lines_submitted)
        × (u.slot.awaiting_result ≡ t.slot.awaiting_result))
      ⊎ ((t.slot.awaiting_result ≡ false)
          × (u.stats.lines_submitted ≡ u32 (t.stats.lines_submitted + 1))
          × (u.slot.awaiting_result ≡ true))

  and_then : (t u v : Turn Ed W) → AtMostOne t u → AtMostOne u v → AtMostOne t v
  and_then t u v (inl (a, b)) (inl (c, d)) = inl (c ∙ a, d ∙ b)
  and_then t u v (inl (a, b)) (inr (c, d, e)) = inr (sym b ∙ c, d ∙ ap (λ n. u32 (n + 1)) a, e)
  and_then t u v (inr (a, b, c)) (inl (d, e)) = inr (a, d ∙ b, e ∙ c)
  and_then t u v (inr (a, b, c)) (inr (d, e, f)) = absurd cc

  edit-AtMostOne : (f : Ed → Ed × List ℕ) (t : Turn Ed W) → AtMostOne t (edit ed host f t)
  unfolding edit
  edit-AtMostOne f t = inl (refl, refl)

  refuse_line-AtMostOne : (t : Turn Ed W) → AtMostOne t (refuse_line ed host t)
  unfolding refuse_line edit
  refuse_line-AtMostOne t = inl (refl, refl)

  submitted-AtMostOne :
      (t : Turn Ed W) (r : Bool × W)
      → t.slot.awaiting_result ≡ false
      → AtMostOne t (submitted ed host t r)
  unfolding submitted refuse_line edit
  submitted-AtMostOne t (true, w) free = inr (free, refl, refl)
  submitted-AtMostOne t (false, w) free = inl (refl, refl)

  hold_line-AtMostOne :
      (t : Turn Ed W) (line held : List ℕ) → AtMostOne t (hold_line ed host t line held)
  unfolding hold_line refuse_line edit
  hold_line-AtMostOne t line [] = inl (refl, refl)
  hold_line-AtMostOne t line (c ∷ held) = inl (refl, refl)

  on_line-AtMostOne : (t : Turn Ed W) (line : List ℕ) → AtMostOne t (on_line ed host t line)
  unfolding on_line submit_line
  on_line-AtMostOne t line = go t.slot.awaiting_result refl
    where
      go :
          (b : Bool)
          → t.slot.awaiting_result ≡ b
          → AtMostOne t (
              if b
              then hold_line ed host t line t.slot.pending_line
              else submitted ed host t (host.submit t.world t.slot.source_id t.slot.boot_id line))
      go true e = hold_line-AtMostOne t line t.slot.pending_line
      go false e =
          submitted-AtMostOne t (host.submit t.world t.slot.source_id t.slot.boot_id line) e

  polled-AtMostOne : (t : Turn Ed W) → AtMostOne t (polled ed host t)
  unfolding polled
  polled-AtMostOne t = inl (refl, refl)

  poll_lines-AtMostOne : (fuel : ℕ) (t : Turn Ed W) → AtMostOne t (poll_lines ed host fuel t)
  unfolding poll_lines
  poll_lines-AtMostOne zero t = inl (refl, refl)
  poll_lines-AtMostOne (suc fuel) t =
      go (ed.poll t.slot.editor).0
        (λ line. poll_lines-AtMostOne fuel (on_line ed host (polled ed host t) line))
    where
      go :
          (o : Option (List ℕ))
          → ((line : List ℕ)
              → AtMostOne
                  (on_line ed host (polled ed host t) line)
                  (poll_lines ed host fuel (on_line ed host (polled ed host t) line)))
          → AtMostOne t (elim o as (λ x. Turn Ed W) [
            | none ↦ polled ed host t
            | some line ↦ poll_lines ed host fuel (on_line ed host (polled ed host t) line)
          ])
      go none later = polled-AtMostOne t
      go (some line) later =
          and_then t (on_line ed host (polled ed host t) line)
            (poll_lines ed host fuel (on_line ed host (polled ed host t) line))
            (and_then t (polled ed host t) (on_line ed host (polled ed host t) line)
              (polled-AtMostOne t) (on_line-AtMostOne (polled ed host t) line))
            (later line)

  submit_held-AtMostOne : (t : Turn Ed W) (line : List ℕ) → AtMostOne t (submit_held ed host t line)
  unfolding submit_held submit_line
  submit_held-AtMostOne t [] = inl (refl, refl)
  submit_held-AtMostOne t (c ∷ line) = go t.slot.awaiting_result refl
    where
      emptied : Turn Ed W
      emptied = record t { slot = record t.slot { pending_line = [] } }

      go :
          (b : Bool)
          → t.slot.awaiting_result ≡ b
          → AtMostOne t (
              if b
              then t
              else submitted ed host emptied
                  (host.submit t.world t.slot.source_id t.slot.boot_id (c ∷ line)))
      go true e = inl (refl, refl)
      go false e =
          submitted-AtMostOne emptied
            (host.submit t.world t.slot.source_id t.slot.boot_id (c ∷ line)) e

  run_lines-AtMostOne : (t : Turn Ed W) → AtMostOne t (run_lines ed host t)
  unfolding run_lines
  run_lines-AtMostOne t =
      let u : Turn Ed W = submit_held ed host t t.slot.pending_line in
      and_then t u (poll_lines ed host (suc (ed.max_rounds u.slot.editor)) u)
        (submit_held-AtMostOne t t.slot.pending_line)
        (poll_lines-AtMostOne (suc (ed.max_rounds u.slot.editor)) u)

  feed_input-AtMostOne : (input : List ℕ) (t : Turn Ed W) → AtMostOne t (feed_input ed host input t)
  unfolding feed_input
  feed_input-AtMostOne [] t = inl (refl, refl)
  feed_input-AtMostOne (c ∷ input) t = inl (refl, refl)

  write_async-AtMostOne :
      (now : ℕ) (lines : List ℕ) (t : Turn Ed W) → AtMostOne t (write_async ed host now lines t)
  unfolding write_async edit
  write_async-AtMostOne now [] t =
      go (t.slot.async_prompt_dirty && leb 250000 (sub_u64 now t.slot.last_async_output_us))
    where
      go :
          (b : Bool)
          → AtMostOne t (
              if b
              then edit ed host ed.refresh_line
                  (record t { slot = record t.slot { async_prompt_dirty = false } })
              else t)
      go true = inl (refl, refl)
      go false = inl (refl, refl)
  write_async-AtMostOne now (c ∷ lines) t = inl (refl, refl)

  -- The start of a turn submits nothing, and lets go of the command in flight only for its result or a
  -- new origin.
  abbrev Starts : Slot Ed → Stats → Turn Ed W → Type 0
  Starts s st t =
      (t.stats.lines_submitted ≡ st.lines_submitted)
      × (s.needs_editor_reset ≡ false
          → s.result_ready ≡ false
          → t.slot.awaiting_result ≡ s.awaiting_result)

  begin_turn-Starts :
      (now : ℕ) (s : Slot Ed) (st : Stats) (w : W) → Starts s st (begin_turn ed host now s st w)
  unfolding begin_turn result_of paint_prompt write_result reset_slot edit snapshot
  begin_turn-Starts now s st w = ground arith

  count_frame-lines :
      (b : Bool) (st : Stats) → (count_frame ed host b st).lines_submitted ≡ st.lines_submitted
  unfolding count_frame
  count_frame-lines true st = refl
  count_frame-lines false st = refl

  emit_chunks-lines :
      (fuel : ℕ) (target : LinkTarget) (bytes : List ℕ) (st : Stats) (w : W)
      → (emit_chunks ed host fuel target bytes st w).0.lines_submitted ≡ st.lines_submitted
  unfolding emit_chunks
  emit_chunks-lines zero target bytes st w = refl
  emit_chunks-lines (suc fuel) target [] st w = refl
  emit_chunks-lines (suc fuel) target (c ∷ bytes) st w =
      let stride : ℕ = terminal_out_stride ed host target in
      let sent : Bool × W = host.send w target (take stride (c ∷ bytes)) in
      emit_chunks-lines fuel target (drop stride (c ∷ bytes)) (count_frame ed host sent.0 st) sent.1
      ∙ count_frame-lines sent.0 st

  emit_terminal_out-lines :
      (bound : LinkTarget → Bool) (target : LinkTarget) (t : Turn Ed W)
      → (emit_terminal_out ed host bound target t).0.lines_submitted ≡ t.stats.lines_submitted
  unfolding emit_terminal_out
  emit_terminal_out-lines bound target t = go (bound target)
    where
      go :
          (b : Bool)
          → (if b
              then emit_chunks ed host (length t.out) target t.out t.stats t.world
              else (t.stats, t.world)).0.lines_submitted
            ≡ t.stats.lines_submitted
      go true = emit_chunks-lines (length t.out) target t.out t.stats t.world
      go false = refl

  take_turn-AtMostOne :
      (now : ℕ) (s : Slot Ed) (st : Stats) (w : W)
      → AtMostOne (begin_turn ed host now s st w) (take_turn ed host now s st w)
  unfolding take_turn
  take_turn-AtMostOne now s st w =
      let t0 : Turn Ed W = begin_turn ed host now s st w in
      let t1 : Turn Ed W = feed_input ed host s.input t0 in
      let t2 : Turn Ed W = run_lines ed host t1 in
      and_then t0 t2 (write_async ed host now s.async_out t2)
        (and_then t0 t1 t2 (feed_input-AtMostOne s.input t0) (run_lines-AtMostOne t1))
        (write_async-AtMostOne now s.async_out t2)

  turn-OneAtATime :
      (s : Slot Ed) (st : Stats) (t0 t : Turn Ed W) (n : ℕ)
      → Starts s st t0
      → AtMostOne t0 t
      → n ≡ t.stats.lines_submitted
      → ((n ≡ st.lines_submitted)
          ⊎ ((n ≡ u32 (st.lines_submitted + 1)) × (t.slot.awaiting_result ≡ true)))
        × (s.awaiting_result ≡ true
            → s.needs_editor_reset ≡ false
            → s.result_ready ≡ false
            → (n ≡ st.lines_submitted) × (t.slot.awaiting_result ≡ true))
  turn-OneAtATime s st t0 t n (lines, waits) (inl (same, kept)) e =
      (inl (e ∙ same ∙ lines), λ a b c. (e ∙ same ∙ lines, kept ∙ waits b c ∙ a))
  turn-OneAtATime s st t0 t n (lines, waits) (inr (free, more, taken)) e = (
    inr (e ∙ more ∙ ap (λ k. u32 (k + 1)) lines, taken),
    λ a b c. absurd (clash (sym free ∙ waits b c ∙ a)),
  )
    where
      clash : false ≢ true
      clash h = cc

  -- In one pass over a slot at most one line goes to the shell, and the slot waits for its result then; while a
  -- slot waits, and neither the result nor a new origin has come, no line of it goes to the shell and it
  -- goes on waiting; the editor, the shell and the links may do anything.
  pub pump_slot-OneAtATime :
      (bound : LinkTarget → Bool) (now : ℕ) (busy : Bool) (s : Slot Ed) (st : Stats) (w : W)
      → OneAtATime s st
          (pump_slot ed host bound now busy s st w).0
          (pump_slot ed host bound now busy s st w).1
  unfolding pump_slot
  pump_slot-OneAtATime bound now busy s st w = go (busy || not s.used)
    where
      t : Turn Ed W
      t = take_turn ed host now s st w

      branch : Bool → Slot Ed × Stats × W
      branch b = if b then (s, st, w) else (
        t.slot,
        (emit_terminal_out ed host bound s.target t).0,
        (emit_terminal_out ed host bound s.target t).1,
      )

      go : (b : Bool) → OneAtATime s st (branch b).0 (branch b).1
      go true = (inl refl, λ a b c. (refl, a))
      go false =
          turn-OneAtATime s st (begin_turn ed host now s st w) t
            ((emit_terminal_out ed host bound s.target t).0.lines_submitted)
            (begin_turn-Starts now s st w) (take_turn-AtMostOne now s st w)
            (emit_terminal_out-lines bound s.target t)
