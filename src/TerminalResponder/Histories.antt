-- ===== src/TerminalResponder/Histories.antt =====
-- lib/TerminalResponder: the invariant over any calls from its tasks.
use bally_os.Base.{
  ℕ, zero, suc, ◌+◌, ◌-◌, ◌≤◌, ◌≡◌, refl, sym, ◌∙◌, subst, Bool, true, false, not, ◌&&◌, ◌||◌,
  Option, none, some, List, [], ◌∷◌, length, length-append, length-take, length-modify, take,
  modify, map, All, if◌then◌else◌, leb, ltb, arith,
}
use bally_os.TerminalResponder.Rendering.{command_output, length-command_output, async_line}
use bally_os.TerminalResponder.{
  LinkTarget, same_target, Slot, Stats, Responder, max_pending_in, max_async_out, find,
  find_or_alloc, accept_input, put_input, input_length, on_terminal_in, at_slot, take_result,
  deliver_command_output, async_length, add_async, put_async, push_async_output, bind_target,
  configure, evict, unbind_target, drop_async, drop_input,
}
use bally_os.TerminalResponder.Pumping.{
  Editor, Host, Turn, snapshot, take_turn, emit_terminal_out, pump_slot, pump_slots, pump,
}
use bally_os.TerminalResponder.Kept.{SameShared, take_turn-SameShared}
use bally_os.TerminalResponder.Each.{Each, Each-same, Each-IsValid}
use bally_os.TerminalResponder.Invariant.{
  Fits, IsValid, Stays, find_or_alloc-IsValid, modify-IsValid, Distinct-modify,
}

-- A call from a task; where the task only tries the lock, whether it fails.
pub data Call : Type 0 where
  terminal_in : LinkTarget → ℕ → ℕ → ℕ → Option (List ℕ) → Bool → Call
  command_done : ℕ → ℕ → Option (List ℕ) → ℕ → Call
  async_output : ℕ → ℕ → Option (List ℕ) → Bool → Call
  configure_call : Call
  bind_call : LinkTarget → Call
  unbind_call : LinkTarget → Bool → Call
  pump_call : ℕ → List Bool → Call

module _ {Ed W : Type 0} (ed : Editor Ed) (host : Host W) where
  unfoldable pub perform : Responder Ed × W → Call → Responder Ed × W
  perform (r, w) (terminal_in target source boot now bytes busy) =
      (on_terminal_in r target source boot now bytes busy, w)
  perform (r, w) (command_done source boot text status) =
      (deliver_command_output r source boot text status, w)
  perform (r, w) (async_output source boot text busy) =
      (push_async_output r source boot text busy, w)
  perform (r, w) configure_call = (configure r, w)
  perform (r, w) (bind_call t) = (bind_target r t, w)
  perform (r, w) (unbind_call t busy) = (unbind_target r t busy, w)
  perform (r, w) (pump_call now locks) = pump ed host r now locks w

  unfoldable pub perform_all : Responder Ed × W → List Call → Responder Ed × W
  perform_all x [] = x
  perform_all x (call ∷ calls) = perform_all (perform x call) calls

module _ {Ed : Type 0} where
  put_input-IsValid :
      (target : LinkTarget) (bytes : List ℕ) (r : Responder Ed) (o : Option ℕ)
      → IsValid r
      → IsValid (put_input target bytes (r, o))
  unfolding put_input accept_input
  put_input-IsValid target bytes r none valid = valid
  put_input-IsValid target bytes r (some i) valid =
      modify-IsValid r
        (let room : ℕ = max_pending_in - input_length r.slots i in
          if ltb room (length bytes) then drop_input (length bytes - room) r.stats else r.stats)
        i (accept_input target bytes) (λ s u. (u, refl, refl))
        (λ s (a, b, c). (
          omega (
            arith,
            a,
            length-append s.input (take (max_pending_in - length s.input) bytes),
            length-take (max_pending_in - length s.input) bytes,
          ),
          b,
          c,
        ))
        valid

  on_terminal_in-IsValid :
      (r : Responder Ed) (target : LinkTarget) (source boot now : ℕ) (bytes : Option (List ℕ))
      (busy : Bool)
      → IsValid r
      → IsValid (on_terminal_in r target source boot now bytes busy)
  unfolding on_terminal_in
  on_terminal_in-IsValid r target source boot now none busy valid = valid
  on_terminal_in-IsValid r target source boot now (some []) busy valid = valid
  on_terminal_in-IsValid r target source boot now (some (c ∷ bytes)) true valid = valid
  on_terminal_in-IsValid r target source boot now (some (c ∷ bytes)) false valid =
      put_input-IsValid target (c ∷ bytes) (find_or_alloc r source boot now).0
        (find_or_alloc r source boot now).1 (find_or_alloc-IsValid r source boot now valid)

  deliver-IsValid :
      (r : Responder Ed) (text : Option (List ℕ)) (status : ℕ) (o : Option ℕ)
      → IsValid r
      → IsValid (at_slot r o (take_result (command_output text status)))
  unfolding at_slot take_result
  deliver-IsValid r text status none valid = valid
  deliver-IsValid r text status (some i) valid =
      modify-IsValid r r.stats i (take_result (command_output text status)) (λ s u. (u, refl, refl))
        (λ s (a, b, c). (a, b, length-command_output text status)) valid

  add_async-Fits :
      (slots : List (Slot Ed)) (i : ℕ) (line : List ℕ)
      → async_length slots i + length line ≤ 1024
      → All Fits slots
      → All Fits (modify slots i (add_async line))
  unfolding async_length add_async
  add_async-Fits [] i line h fits = tt
  add_async-Fits (s ∷ rest) zero line h ((a, b, c), fits) =
      ((a, omega (arith, h, length-append s.async_out line), c), fits)
  add_async-Fits (s ∷ rest) (suc i) line h (fit, fits) = (fit, add_async-Fits rest i line h fits)

  add_async-Stays : (line : List ℕ) (s : Slot Ed) → Stays s (add_async line s)
  unfolding add_async
  add_async-Stays line s u = (u, refl, refl)

  evict-Stays : (t : LinkTarget) (s : Slot Ed) → Stays s (evict t s)
  unfolding evict
  evict-Stays t s = go (s.used && same_target s.target t)
    where
      go : (b : Bool) → Stays s (if b then record s { used = false } else s)
      go true u = absurd cc
      go false u = (u, refl, refl)

  evict-Fits : (t : LinkTarget) (s : Slot Ed) → Fits s → Fits (evict t s)
  unfolding evict
  evict-Fits t s fits = go (s.used && same_target s.target t)
    where
      go : (b : Bool) → Fits (if b then record s { used = false } else s)
      go true = fits
      go false = fits

  put_async-IsValid :
      (r : Responder Ed) (line : List ℕ) (o : Option ℕ) → IsValid r → IsValid (put_async r line o)
  unfolding put_async
  put_async-IsValid r line none valid = valid
  put_async-IsValid r line (some i) (l, fits, d) =
      go (leb (async_length r.slots i + length line) max_async_out) refl
    where
      go :
          (b : Bool)
          → leb (async_length r.slots i + length line) max_async_out ≡ b
          → IsValid (
              if b
              then record r { slots = modify r.slots i (add_async line) }
              else record r { stats = drop_async r.stats })
      go true e = (
        length-modify r.slots i (add_async line) ∙ l,
        add_async-Fits r.slots i line (ground (arith, e)) fits,
        Distinct-modify r.slots i (add_async line) (add_async-Stays line) d,
      )
      go false e = (l, fits, d)

  push_async_output-IsValid :
      (r : Responder Ed) (source boot : ℕ) (text : Option (List ℕ)) (busy : Bool)
      → IsValid r
      → IsValid (push_async_output r source boot text busy)
  unfolding push_async_output
  push_async_output-IsValid r source boot none busy valid = valid
  push_async_output-IsValid r source boot (some []) busy valid = valid
  push_async_output-IsValid r source boot (some (c ∷ text)) busy valid = go (not r.configured) busy
    where
      go :
          (silent held : Bool)
          → IsValid (
              if silent
              then r
              else if held
              then record r { stats = drop_async r.stats }
              else put_async r (async_line (c ∷ text)) (find r.slots source boot))
      go true held = valid
      go false true = valid
      go false false = put_async-IsValid r (async_line (c ∷ text)) (find r.slots source boot) valid

  evict-Each : (t : LinkTarget) (slots : List (Slot Ed)) → Each slots (map (evict t) slots)
  evict-Each t [] = tt
  evict-Each t (s ∷ slots) = (evict-Stays t s, evict-Fits t s, evict-Each t slots)

  unbind_target-IsValid :
      (r : Responder Ed) (t : LinkTarget) (busy : Bool)
      → IsValid r
      → IsValid (unbind_target r t busy)
  unfolding unbind_target
  unbind_target-IsValid r t true valid = valid
  unbind_target-IsValid r t false valid =
      Each-IsValid r (unbind_target r t false) (evict-Each t r.slots) valid

module _ {Ed W : Type 0} (ed : Editor Ed) (host : Host W) where
  bounded_pending :
      (ready : Bool) (before after : List ℕ)
      → after ≡ (if ready then [] else before)
      → length before ≤ 2072
      → length after ≤ 2072
  bounded_pending true before after e h = subst (λ l. length l ≤ 2072) (sym e) (omega arith)
  bounded_pending false before after e h = subst (λ l. length l ≤ 2072) (sym e) h

  pump_slot-Stays :
      (bound : LinkTarget → Bool) (now : ℕ) (busy : Bool) (s : Slot Ed) (st : Stats) (w : W)
      → Stays s (pump_slot ed host bound now busy s st w).0
        × (Fits s → Fits (pump_slot ed host bound now busy s st w).0)
  unfolding pump_slot snapshot
  pump_slot-Stays bound now busy s st w = go (busy || not s.used)
    where
      t : Turn Ed W
      t = take_turn ed host now s st w

      shared : SameShared (snapshot ed host now s) t.slot
      shared = take_turn-SameShared ed host now s st w

      rest : Stats × W
      rest = emit_terminal_out ed host bound s.target t

      branch : Bool → Slot Ed × Stats × W
      branch b = if b then (s, st, w) else (t.slot, rest.0, rest.1)

      go : (b : Bool) → Stays s (branch b).0 × (Fits s → Fits (branch b).0)
      go true = (λ u. (u, refl, refl), λ f. f)
      go false =
          let (used, source, boot, input, pending, async) = shared in
          (
            λ u. (sym used ∙ u, source, boot),
            λ (a, b, c). (
              ground (arith, input),
              ground (arith, async),
              bounded_pending s.result_ready s.pending_out t.slot.pending_out pending c,
            ),
          )

  pump_slots-Each :
      (bound : LinkTarget → Bool) (now : ℕ) (locks : List Bool) (slots : List (Slot Ed))
      (st : Stats) (w : W)
      → Each slots (pump_slots ed host bound now locks slots st w).0
  unfolding pump_slots
  pump_slots-Each bound now locks [] st w = tt
  pump_slots-Each bound now [] (s ∷ slots) st w = Each-same (s ∷ slots)
  pump_slots-Each bound now (busy ∷ locks) (s ∷ slots) st w =
      let (s1, st1, w1) = pump_slot ed host bound now busy s st w in
      let (stays, fits) = pump_slot-Stays bound now busy s st w in
      (stays, fits, pump_slots-Each bound now locks slots st1 w1)

  perform-IsValid :
      (r : Responder Ed) (w : W) (call : Call) → IsValid r → IsValid (perform ed host (r, w) call).0
  unfolding perform pump deliver_command_output bind_target configure
  perform-IsValid r w (terminal_in target source boot now bytes busy) valid =
      on_terminal_in-IsValid r target source boot now bytes busy valid
  perform-IsValid r w (command_done source boot text status) valid =
      deliver-IsValid r text status (find r.slots source boot) valid
  perform-IsValid r w (async_output source boot text busy) valid =
      push_async_output-IsValid r source boot text busy valid
  perform-IsValid r w configure_call valid = valid
  perform-IsValid r w (bind_call t) valid = valid
  perform-IsValid r w (unbind_call t busy) valid = unbind_target-IsValid r t busy valid
  perform-IsValid r w (pump_call now locks) valid =
      Each-IsValid r (pump ed host r now locks w).0
        (pump_slots-Each r.bound now locks r.slots r.stats w) valid

  -- After any calls of the tasks, whether or not they get the lock, there are three slots, no origin is in two of
  -- them, and input, unsolicited output and command output stay within 1024, 1024 and 2072 octets.
  pub perform_all-IsValid :
      (r : Responder Ed) (w : W) (calls : List Call)
      → IsValid r
      → IsValid (perform_all ed host (r, w) calls).0
  unfolding perform_all
  perform_all-IsValid r w [] valid = valid
  perform_all-IsValid r w (call ∷ calls) valid =
      let (r1, w1) = perform ed host (r, w) call in
      perform_all-IsValid r1 w1 calls (perform-IsValid r w call valid)
