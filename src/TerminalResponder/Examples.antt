-- ===== src/TerminalResponder/Examples.antt =====
-- Runs of lib/TerminalResponder, and its theorems at concrete inputs.
use bally_os.Base.{
  ℕ, ◌+◌, ◌≡◌, pieces, joined, replicate, true, false, Option, none, some, List, [], ◌∷◌, ◌++◌,
  codes, arith,
}
use bally_os.TerminalResponder.{espnow, tcp, Slot, Stats, Responder}
use bally_os.TerminalResponder.Pumping.{Editor, Host, pump_slot, emit_chunks, terminal_out_stride}
use bally_os.TerminalResponder.InFlight.{OneAtATime, pump_slot-OneAtATime}
use bally_os.TerminalResponder.Invariant.{IsValid}
use bally_os.TerminalResponder.Histories.{
  Call, terminal_in, command_done, async_output, unbind_call, pump_call, perform_all,
  perform_all-IsValid,
}
use bally_os.TerminalResponder.Termination.{send_all, emit_chunks_enough}

abbrev take_line : List ℕ → Option (List ℕ) × List ℕ × List ℕ
take_line [] = (none, [], [])
take_line (c ∷ typed) = (some (c ∷ typed), 13 ∷ 10 ∷ [], [])

abbrev has_line : List ℕ → ℕ
has_line [] = 0
has_line (c ∷ typed) = 1

-- An editor for which all that was typed is one line.
abbrev toy : Editor (List ℕ)
toy = record {
  reset = λ e. [];
  set_prompt = λ e. (e, codes "> ");
  write_response = λ text e. (e, text);
  feed = λ typed e. e ++ typed;
  poll = take_line;
  write_async_output = λ text e. (e, text);
  refresh_line = λ e. (e, []);
  max_rounds = has_line;
}

-- A shell that counts the lines it takes.
abbrev host : Host ℕ
host = record {
  submit = λ w source boot line. (true, w + 1);
  send = λ w target bytes. (true, w);
  sealed = λ target. true;
  max_payload_size = λ target. 200;
  aead_tag_size = 16;
}

abbrev free_slot : Slot (List ℕ)
free_slot = record {
  used = false;
  source_id = 0;
  boot_id = 0;
  last_used_us = 0;
  target = espnow;
  editor = [];
  prompt_painted = false;
  awaiting_result = false;
  pending_line = [];
  input = [];
  pending_out = [];
  async_out = [];
  result_ready = false;
  needs_editor_reset = false;
  async_prompt_dirty = false;
  last_async_output_us = 0;
}

abbrev no_stats : Stats
no_stats = record {
  origins_seen = 0;
  origins_evicted = 0;
  lines_submitted = 0;
  lines_dropped_busy = 0;
  frames_out = 0;
  in_bytes_dropped = 0;
  async_lines_dropped = 0;
}

abbrev fresh_responder : Responder (List ℕ)
fresh_responder = record {
  slots = free_slot ∷ free_slot ∷ free_slot ∷ [];
  stats = no_stats;
  configured = true;
  bound = λ target. true;
}

fresh_responder-IsValid : IsValid fresh_responder
fresh_responder-IsValid = ground arith

-- Four origins speak, so that the first is evicted; one runs a command and gets its result.
abbrev some_calls : List Call
some_calls =
    terminal_in espnow 1 1 10 (some (codes "led on")) false
    ∷ terminal_in tcp 2 1 20 (some (codes "get")) false
    ∷ terminal_in tcp 3 1 30 (some (codes "list")) false
    ∷ pump_call 40 (false ∷ true ∷ false ∷ [])
    ∷ command_done 1 1 (some (codes "done")) 0
    ∷ async_output 3 1 (some (codes "state RUN")) false
    ∷ terminal_in espnow 4 1 50 (some (codes "help")) false
    ∷ unbind_call tcp false
    ∷ pump_call 60 (false ∷ false ∷ false ∷ [])
    ∷ []

perform_all-IsValid_example : IsValid (perform_all toy host (fresh_responder, 0) some_calls).0
perform_all-IsValid_example =
    perform_all-IsValid toy host fresh_responder 0 some_calls fresh_responder-IsValid

-- A slot that waits for a result while a line is typed.
abbrev waiting_slot : Slot (List ℕ)
waiting_slot = record free_slot { used = true; awaiting_result = true; input = codes "next" }

pump_slot-OneAtATime_example :
    OneAtATime waiting_slot no_stats
      (pump_slot toy host (λ target. true) 70 false waiting_slot no_stats 5).0
      (pump_slot toy host (λ target. true) 70 false waiting_slot no_stats 5).1
pump_slot-OneAtATime_example =
    pump_slot-OneAtATime toy host (λ target. true) 70 false waiting_slot no_stats 5

-- 184 octets fit beside the tag, so that 200 make two frames.
emit_chunks_enough_example :
    (emit_chunks toy host 200 tcp (replicate 200 65) no_stats 5
      ≡ send_all toy host tcp (pieces 184 (replicate 200 65)) no_stats 5)
    × (joined (pieces 184 (replicate 200 65)) ≡ replicate 200 65)
unfolding terminal_out_stride
emit_chunks_enough_example =
    emit_chunks_enough toy host 200 tcp (replicate 200 65) no_stats 5 (omega arith) (omega arith)
