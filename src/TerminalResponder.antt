-- ===== src/TerminalResponder.antt =====
-- lib/TerminalResponder: remote terminals, one line editor for each of the last three origins. The
-- editor is another library's, and a parameter; so are the shell's queue and the links.
pub mod Rendering
pub mod Pumping
pub mod InFlight
pub mod Kept
pub mod Invariant
pub mod Each
pub mod Histories
pub mod Termination
mod Examples
use bally_os.Base.{
  ℕ, zero, suc, ◌+◌, ◌-◌, ◌≤◌, ◌<◌, Bool, true, false, not, ◌&&◌, ◌||◌, Option, none, some, List,
  [], ◌∷◌, ◌++◌, length, take, modify, get_or, leb, ltb, ◌==◌, if◌then◌else◌, u32, min, codes,
  replicate, map,
}
use Rendering.{render_command_output, command_output, async_line}

abbrev pub max_origins : ℕ
max_origins = 3

abbrev pub max_pending_in : ℕ
max_pending_in = 1024

abbrev pub max_async_out : ℕ
max_async_out = 1024

pub data LinkTarget : Type 0 where
  espnow tcp ble serial : LinkTarget

unfoldable pub same_target : LinkTarget → LinkTarget → Bool
same_target espnow espnow = true
same_target tcp tcp = true
same_target ble ble = true
same_target serial serial = true
same_target a b = false

-- `Slot`, over the state of an editor.
pub record Slot (Ed : Type 0) : Type 0 where
  pub used : Bool
  pub source_id : ℕ
  pub boot_id : ℕ
  pub last_used_us : ℕ
  pub target : LinkTarget
  pub editor : Ed
  pub prompt_painted : Bool
  pub awaiting_result : Bool
  pub pending_line : List ℕ
  pub input : List ℕ
  pub pending_out : List ℕ
  pub async_out : List ℕ
  pub result_ready : Bool
  pub needs_editor_reset : Bool
  pub async_prompt_dirty : Bool
  pub last_async_output_us : ℕ

-- `Stats`: the counters.
pub record Stats : Type 0 where
  pub origins_seen : ℕ
  pub origins_evicted : ℕ
  pub lines_submitted : ℕ
  pub lines_dropped_busy : ℕ
  pub frames_out : ℕ
  pub in_bytes_dropped : ℕ
  pub async_lines_dropped : ℕ

-- The links that are bound: the endpoint of each but ESP-NOW comes and goes.
pub record Responder (Ed : Type 0) : Type 0 where
  pub slots : List (Slot Ed)
  pub stats : Stats
  pub configured : Bool
  pub bound : LinkTarget → Bool

-- `victim == nullptr || s.last_used_us < victim->last_used_us`
unfoldable pub older : Option (ℕ × ℕ) → ℕ → ℕ → Option (ℕ × ℕ)
older none i time = some (i, time)
older (some (j, best)) i time = if ltb time best then some (i, time) else some (j, best)

unfoldable pub count_origin : Bool → Stats → Stats
count_origin evicted st = record st {
  origins_seen = u32 (st.origins_seen + 1);
  origins_evicted = if evicted then u32 (st.origins_evicted + 1) else st.origins_evicted;
}

unfoldable pub drop_input : ℕ → Stats → Stats
drop_input n st = record st { in_bytes_dropped = u32 (st.in_bytes_dropped + u32 n) }

unfoldable pub drop_async : Stats → Stats
drop_async st = record st { async_lines_dropped = u32 (st.async_lines_dropped + 1) }

module _ {Ed : Type 0} where
  -- The first slot of an origin, by its number.
  unfoldable pub find : List (Slot Ed) → ℕ → ℕ → Option ℕ
  find [] source boot = none
  find (s ∷ rest) source boot =
      let later = find rest source boot in
      if s.used && s.source_id == source && s.boot_id == boot
      then some 0
      else elim later [ none ↦ none | some i ↦ some (suc i) ]

  -- The loop for the victim from slot `i` on, with the oldest slot so far and its time.
  unfoldable pub choose : ℕ → Option (ℕ × ℕ) → List (Slot Ed) → Option ℕ
  choose i none [] = none
  choose i (some (j, best)) [] = some j
  choose i oldest (s ∷ rest) =
      let later = choose (i + 1) (older oldest i s.last_used_us) rest in
      if s.used then later else some i

  -- What is written of a slot that is given to an origin.
  unfoldable pub claim : ℕ → ℕ → ℕ → Slot Ed → Slot Ed
  claim source boot now s = record s {
    used = true;
    source_id = source;
    boot_id = boot;
    last_used_us = now;
    needs_editor_reset = true;
    input = [];
    pending_out = [];
    async_out = [];
    result_ready = false;
  }

  unfoldable pub is_used : List (Slot Ed) → ℕ → Bool
  is_used [] i = false
  is_used (s ∷ rest) zero = s.used
  is_used (s ∷ rest) (suc i) = is_used rest i

  unfoldable pub allocate : Responder Ed → ℕ → ℕ → ℕ → Option ℕ → Responder Ed × Option ℕ
  allocate r source boot now none = (r, none)
  allocate r source boot now (some i) = (
    record r {
      slots = modify r.slots i (claim source boot now);
      stats = count_origin (is_used r.slots i) r.stats;
    },
    some i,
  )

  unfoldable pub found_or : Responder Ed → ℕ → ℕ → ℕ → Option ℕ → Responder Ed × Option ℕ
  found_or r source boot now (some i) = (r, some i)
  found_or r source boot now none = allocate r source boot now (choose 0 none r.slots)

  unfoldable pub find_or_alloc : Responder Ed → ℕ → ℕ → ℕ → Responder Ed × Option ℕ
  find_or_alloc r source boot now = found_or r source boot now (find r.slots source boot)

  -- The octets that fit are appended.
  unfoldable pub accept_input : LinkTarget → List ℕ → Slot Ed → Slot Ed
  accept_input target bytes s = record s {
    target = target;
    input = s.input ++ take (max_pending_in - length s.input) bytes;
  }

  unfoldable pub input_length : List (Slot Ed) → ℕ → ℕ
  input_length [] i = 0
  input_length (s ∷ rest) zero = length s.input
  input_length (s ∷ rest) (suc i) = input_length rest i

  unfoldable pub put_input : LinkTarget → List ℕ → Responder Ed × Option ℕ → Responder Ed
  put_input target bytes (r, none) = r
  put_input target bytes (r, some i) =
      let room = max_pending_in - input_length r.slots i in
      record r {
        slots = modify r.slots i (accept_input target bytes);
        stats =
            if ltb room (length bytes) then drop_input (length bytes - room) r.stats else r.stats;
      }

  -- The plaintext is null or some octets; `busy` is that the lock is not had.
  unfoldable pub on_terminal_in :
      Responder Ed → LinkTarget → ℕ → ℕ → ℕ → Option (List ℕ) → Bool → Responder Ed
  on_terminal_in r target source boot now none busy = r
  on_terminal_in r target source boot now (some []) busy = r
  on_terminal_in r target source boot now (some (c ∷ bytes)) busy =
      if busy
      then record r { stats = drop_input (length (c ∷ bytes)) r.stats }
      else put_input target (c ∷ bytes) (find_or_alloc r source boot now)

  unfoldable pub at_slot : Responder Ed → Option ℕ → (Slot Ed → Slot Ed) → Responder Ed
  at_slot r none f = r
  at_slot r (some i) f = record r { slots = modify r.slots i f }

  unfoldable pub take_result : List ℕ → Slot Ed → Slot Ed
  take_result rendered s = record s { pending_out = rendered; result_ready = true }

  -- The lock is waited for.
  unfoldable pub deliver_command_output : Responder Ed → ℕ → ℕ → Option (List ℕ) → ℕ → Responder Ed
  deliver_command_output r source boot text status =
      at_slot r (find r.slots source boot) (take_result (command_output text status))

  unfoldable pub async_length : List (Slot Ed) → ℕ → ℕ
  async_length [] i = 0
  async_length (s ∷ rest) zero = length s.async_out
  async_length (s ∷ rest) (suc i) = async_length rest i

  unfoldable pub add_async : List ℕ → Slot Ed → Slot Ed
  add_async line s = record s { async_out = s.async_out ++ line }

  unfoldable pub put_async : Responder Ed → List ℕ → Option ℕ → Responder Ed
  put_async r line none = r
  put_async r line (some i) =
      if leb (async_length r.slots i + length line) max_async_out
      then record r { slots = modify r.slots i (add_async line) }
      else record r { stats = drop_async r.stats }

  unfoldable pub push_async_output : Responder Ed → ℕ → ℕ → Option (List ℕ) → Bool → Responder Ed
  push_async_output r source boot none busy = r
  push_async_output r source boot (some []) busy = r
  push_async_output r source boot (some (c ∷ text)) busy =
      if not r.configured
      then r
      else if busy
      then record r { stats = drop_async r.stats }
      else put_async r (async_line (c ∷ text)) (find r.slots source boot)

  -- The ESP-NOW endpoint is bound; the editor, the queue and the seals are parameters.
  unfoldable pub configure : Responder Ed → Responder Ed
  configure r = record r { configured = true; bound = λ u. same_target espnow u || r.bound u }

  unfoldable pub bind_target : Responder Ed → LinkTarget → Responder Ed
  bind_target r t = record r { bound = λ u. same_target t u || r.bound u }

  unfoldable pub evict : LinkTarget → Slot Ed → Slot Ed
  evict t s = if s.used && same_target s.target t then record s { used = false } else s

  -- `unbind_tcp_target`, `unbind_ble_target` and `unbind_serial_target`
  unfoldable pub unbind_target : Responder Ed → LinkTarget → Bool → Responder Ed
  unbind_target r t busy =
      let unbound = record r { bound = λ u. not (same_target t u) && r.bound u } in
      if busy then unbound else record unbound { slots = map (evict t) r.slots }
