-- ===== src/CommandProcessor/Intakes.antt =====
-- lib/CommandProcessor, `intake` and `complete`: what is executed, and how often.
use bally_os.Base.{
  length, ◌≤◌, ℕ, ◌≡◌, refl, ◌≢◌, ◌⊎◌, inl, inr, Bool, true, false, not, ◌||◌, Option, none, some,
  List, [], codes, if◌then◌else◌, arith, ◌==◌, u8,
}
use bally_os.Btp.{Header}
use bally_os.Channels.{Channel}
use bally_os.CommandProcessor.Codec.{ResultView}
use bally_os.CommandProcessor.Taking.{intake, on_verdict, take_fresh, refuse, acceptable}
use bally_os.CommandProcessor.{
  DedupKey, Outside, Processor, SlotMeta, Intake, IntakeKind, ready, DedupVerdict,
  duplicate_complete, duplicate_in_flight, conflict, evicted, exhausted, invalid_key, fresh,
  ping_action_id, ParseError, answer, answered, no_intake, meta_of, finish, count_accepted,
  count_rejected, count_duplicate, success, no_error, parse_status, parse_error_code, parse_message,
  make_transient, rejected, busy, request_conflict, capacity_exhausted, note_drop,
}

module _ {D E S : Type 0} (x : Outside D E S) where
  -- Whether the command goes to the shell.
  abbrev pub is_ready : IntakeKind → Bool
  is_ready ready = true
  is_ready k = false

  answered-kind : (v : Option ResultView) → is_ready (answered v).kind ≡ false
  answered-kind none = refl
  answered-kind (some v) = refl

  -- The identity of a request.
  abbrev pub key_of : Header → DedupKey
  key_of h = record { source_id = h.source_id; boot_id = h.boot_id; sequence = h.sequence }

  -- A command request with a whole identity and of a permitted size, for a configured processor.
  abbrev pub IsRequest : Processor D S → Header → List ℕ → Type 0
  IsRequest p h payload =
      (p.bound ≡ true)
      × (h.message_type ≡ x.command)
      × (h.object_id ≡ 1)
      × (h.source_id ≢ 0)
      × (h.boot_id ≢ 0)
      × (h.sequence ≢ 0)
      × (length payload ≤ x.max_logical_request_size)

  acceptable-IsRequest :
      (p : Processor D S) (h : Header) (payload : List ℕ)
      → acceptable x p h payload ≡ true
      → IsRequest p h payload
  unfolding acceptable
  acceptable-IsRequest p h payload e = ground arith

  -- All that has to be so for a command to be run: nobody holds the cache, the request is one, the cache
  -- has not seen it and gave it a slot, it parses, is no ping, and its text is the one to run.
  abbrev pub Runs : Processor D S → E → Header → List ℕ → Channel → Intake → Type 0
  Runs p e h payload channel i =
      (slot : ℕ) × (p.cache_lock ≡ false)
      × IsRequest p h payload
      × ((x.classify p.dedup (key_of h) payload).0 ≡ fresh slot)
      × (x.parse_request e h payload ≡ none)
      × ((meta_of h payload channel).action_id ≢ ping_action_id)
      × (x.copy_shell_command payload ≡ inr i.text)
      × (i.cache_slot ≡ u8 slot)

  abbrev FreshRuns : E → ℕ → SlotMeta → Header → List ℕ → Intake → Type 0
  FreshRuns e slot about h payload i =
      (x.parse_request e h payload ≡ none)
      × (about.action_id ≢ ping_action_id)
      × (x.copy_shell_command payload ≡ inr i.text)
      × (i.cache_slot ≡ u8 slot)

  take_fresh-FreshRuns :
      (p : Processor D S) (e : E) (slot : ℕ) (about : SlotMeta) (h : Header) (payload : List ℕ)
      (now : ℕ)
      → is_ready (take_fresh x p e slot about h payload now).2.kind ≡ true
      → FreshRuns e slot about h payload (take_fresh x p e slot about h payload now).2
  unfolding take_fresh refuse
  take_fresh-FreshRuns p e slot about h payload now =
      go (x.parse_request e h payload) refl (about.action_id == ping_action_id) refl
        (x.copy_shell_command payload) refl
    where
      q : Processor D S
      q = record p { slot_meta = λ i. if i == slot then about else p.slot_meta i }

      branch : Option ParseError → Bool → ParseError ⊎ List ℕ → Processor D S × E × Intake
      branch parsed ping text = elim parsed [
        | some error ↦ refuse x q e slot error now
        | none ↦
            if ping
            then answer (finish x (count_accepted q) e slot success no_error [] now)
            else elim text [
              | inl error ↦ refuse x q e slot error now
              | inr t ↦ (
                count_accepted q,
                e,
                record no_intake { kind = ready; cache_slot = u8 slot; text = t },
              )
            ]
      ]

      go :
          (parsed : Option ParseError)
          → x.parse_request e h payload ≡ parsed
          → (ping : Bool) → (about.action_id == ping_action_id) ≡ ping
          → (text : ParseError ⊎ List ℕ) → x.copy_shell_command payload ≡ text
          → is_ready (branch parsed ping text).2.kind ≡ true
          → FreshRuns e slot about h payload (branch parsed ping text).2
      go (some error) a ping b text c r = cc (
          answered-kind
            (finish x (count_rejected q) e slot (parse_status error) (parse_error_code error)
              (parse_message error) now).2)
      go none a true b text c r =
          cc (answered-kind (finish x (count_accepted q) e slot success no_error [] now).2)
      go none a false b (inl error) c r = cc (
          answered-kind
            (finish x (count_rejected q) e slot (parse_status error) (parse_error_code error)
              (parse_message error) now).2)
      go none a false b (inr t) c r = (a, ground (arith, b), c, refl)

  on_verdict-fresh :
      (verdict : DedupVerdict) (p : Processor D S) (e : E) (about : SlotMeta) (h : Header)
      (payload : List ℕ) (now : ℕ)
      → is_ready (on_verdict x verdict p e about h payload now).2.kind ≡ true
      → (slot : ℕ) × (verdict ≡ fresh slot)
        × FreshRuns e slot about h payload (on_verdict x verdict p e about h payload now).2
  unfolding on_verdict
  on_verdict-fresh (duplicate_complete stored) p e about h payload now r = cc
  on_verdict-fresh duplicate_in_flight p e about h payload now r = cc
  on_verdict-fresh conflict p e about h payload now r = cc (
      answered-kind
        (make_transient x (count_rejected (count_duplicate p)) e about rejected request_conflict
          (codes "request identity conflict") now).2)
  on_verdict-fresh evicted p e about h payload now r = cc (
      answered-kind
        (make_transient x (count_rejected p) e about busy capacity_exhausted
          (codes "command cache exhausted") now).2)
  on_verdict-fresh exhausted p e about h payload now r = cc (
      answered-kind
        (make_transient x (count_rejected p) e about busy capacity_exhausted
          (codes "command cache exhausted") now).2)
  on_verdict-fresh invalid_key p e about h payload now r = cc
  on_verdict-fresh (fresh slot) p e about h payload now r =
      (slot, refl, take_fresh-FreshRuns p e slot about h payload now r)

  -- `intake` gives a command to the shell only when the cache is free and answers that the request, with its
  -- source, boot and number, is new and has a slot; when the request is a command of a whole identity and a
  -- permitted size, parses, and is not a ping; and then with the text of the request and
  -- that slot.
  pub intake-Runs :
      (p : Processor D S) (e : E) (h : Header) (payload : List ℕ) (now : ℕ) (channel : Channel)
      → is_ready (intake x p e h (some payload) now channel).2.kind ≡ true
      → Runs p e h payload channel (intake x p e h (some payload) now channel).2
  unfolding intake
  intake-Runs p e h payload now channel = go p.cache_lock refl (acceptable x p h payload) refl
    where
      about : SlotMeta
      about = meta_of h payload channel

      branch : Bool → Bool → Processor D S × E × Intake
      branch lock fine =
          if lock || not fine
          then (note_drop p, e, no_intake)
          else let (verdict, d) = x.classify p.dedup about.key payload in
            on_verdict x verdict (record p { dedup = d }) e about h payload now

      go :
          (lock : Bool)
          → p.cache_lock ≡ lock
          → (fine : Bool) → acceptable x p h payload ≡ fine
          → is_ready (branch lock fine).2.kind ≡ true
          → Runs p e h payload channel (branch lock fine).2
      go true a fine b r = cc
      go false a false b r = cc
      go false a true b r =
          let (verdict, d) = x.classify p.dedup about.key payload in
          let (slot, new, (parses, other, text, numbered)) =
            on_verdict-fresh verdict (record p { dedup = d }) e about h payload now r in
          (slot, a, acceptable-IsRequest p h payload b, new, parses, other, text, numbered)
