-- ===== src/CommandProcessor/Retries.antt =====
-- lib/CommandProcessor, `intake` after `complete`: a request that is sent again is answered with the result
-- that it has already had.
use bally_os.Base.{
  ℕ, ◌+◌, ◌^◌, ◌<◌, ◌≡◌, refl, ap, sym, subst, ◌∙◌, true, false, Option, none, some, inr, List, [],
  ◌∷◌, if◌then◌else◌, ◌==◌, u32, arith, codes,
}
use bally_os.Btp.{Header}
use bally_os.Channels.{Channel}
use bally_os.CommandProcessor.Codec.{ResultView, replay_view, max_result_payload_size}
use bally_os.CommandProcessor.Taking.{intake, on_verdict, take_fresh, acceptable}
use bally_os.CommandProcessor.Reply.{complete}
use bally_os.CommandProcessor.Intakes.{is_ready, key_of, IsRequest, Runs, intake-Runs}
use bally_os.CommandProcessor.Replay.{IsOutside, complete-Keeps}
use bally_os.CommandProcessor.{
  Outside, Processor, DedupKey, SlotMeta, fresh, duplicate_complete, Intake, answered,
  count_duplicate, finish, store_result, Status, ErrorCode, success, failed, no_error,
  internal_error, note_drop, meta_of, ping_action_id,
}

-- What is relied on of the cache of duplicates: a slot that it gives is one of its sixteen; the
-- octets that are recorded for the slot of a new request are what it then answers for that request, and it
-- goes on doing so when it is asked again.
pub record Remembers {D E S : Type 0} (x : Outside D E S) : Type 0 where
  pub slot_lt :
      (d : D) (key : DedupKey) (payload : List ℕ) (slot : ℕ)
      → (x.classify d key payload).0 ≡ fresh slot
      → slot < 16
  pub stores :
      (d : D) (key : DedupKey) (payload : List ℕ) (slot : ℕ) (stored : List ℕ) (d' : D)
      → (x.classify d key payload).0 ≡ fresh slot
      → x.record_result (x.classify d key payload).1 slot stored ≡ (true, d')
      → (x.classify d' key payload).0 ≡ duplicate_complete (some stored)
  pub again :
      (d : D) (key : DedupKey) (payload : List ℕ) (stored : Option (List ℕ))
      → (x.classify d key payload).0 ≡ duplicate_complete stored
      → (x.classify (x.classify d key payload).1 key payload).0 ≡ duplicate_complete stored

module _ {D E S : Type 0} (x : Outside D E S) where
  -- The same request again, at these times and on these channels, and what `intake` says each time.
  abbrev pub retries :
      Processor D S → E → Header → List ℕ → List (ℕ × Channel) → Processor D S × E × List Intake
  retries p e h payload [] = (p, e, [])
  retries p e h payload ((now, channel) ∷ rest) =
      let (p1, e1, first) = intake x p e h (some payload) now channel in
      let (p2, e2, others) = retries p1 e1 h payload rest in (p2, e2, first ∷ others)

  -- The same result for each of them, on its own channel.
  abbrev pub same_result : ResultView → List (ℕ × Channel) → List Intake
  same_result v [] = []
  same_result v ((now, channel) ∷ rest) =
      answered (some (record v { channel = channel })) ∷ same_result v rest

  IsRequest-acceptable :
      (p : Processor D S) (h : Header) (payload : List ℕ)
      → IsRequest x p h payload
      → acceptable x p h payload ≡ true
  unfolding acceptable
  IsRequest-acceptable p h payload r = ground arith

  -- A processor that answers the request with these octets.
  record Replays (p : Processor D S) (h : Header) (payload stored : List ℕ) : Type 0 where
    pub request : IsRequest x p h payload
    pub unlocked : p.cache_lock ≡ false
    pub known : (x.classify p.dedup (key_of x h) payload).0 ≡ duplicate_complete (some stored)

  abbrev counted : Processor D S → Header → List ℕ → Processor D S
  counted p h payload =
      record (count_duplicate (record p { dedup = (x.classify p.dedup (key_of x h) payload).1 })) {
        replayed = u32 (p.replayed + 1);
      }

  intake-duplicate :
      (p : Processor D S) (e : E) (h : Header) (payload stored : List ℕ) (now : ℕ)
      (channel : Channel)
      → Replays p h payload stored
      → intake x p e h (some payload) now channel
        ≡ (counted p h payload, e, answered (some (replay_view (some stored) channel)))
  unfolding intake on_verdict
  intake-duplicate p e h payload stored now channel r =
      let fine = IsRequest-acceptable p h payload r.request in
      rw r.unlocked (rw fine (rw r.known refl))

  counted-Replays :
      (cache : Remembers x) (p : Processor D S) (h : Header) (payload stored : List ℕ)
      → Replays p h payload stored
      → Replays (counted p h payload) h payload stored
  counted-Replays cache p h payload stored r = record {
    request = r.request;
    unlocked = r.unlocked;
    known = cache.again p.dedup (key_of x h) payload (some stored) r.known;
  }

  retries-Replays :
      (cache : Remembers x) (h : Header) (payload stored : List ℕ) (v : ResultView)
      → ((channel : Channel) → replay_view (some stored) channel ≡ record v { channel = channel })
      → (p : Processor D S) (e : E) (tries : List (ℕ × Channel)) → Replays p h payload stored
      → ((retries p e h payload tries).1 ≡ e)
        × ((retries p e h payload tries).2 ≡ same_result v tries)
  retries-Replays cache h payload stored v shows p e [] r = (refl, refl)
  retries-Replays cache h payload stored v shows p e ((now, channel) ∷ rest) r =
      let q = counted p h payload in
      let (kept, later) =
        retries-Replays cache h payload stored v shows q e rest
          (counted-Replays cache p h payload stored r) in
      let step =
        intake-duplicate p e h payload stored now channel r
        ∙ ap (λ (view : ResultView). (q, e, answered (some view))) (shows channel) in
      subst
        (λ (z : Processor D S × E × Intake).
          ((retries z.0 z.1 h payload rest).1 ≡ e)
          × (z.2 ∷ (retries z.0 z.1 h payload rest).2
              ≡ answered (some (record v { channel = channel })) ∷ same_result v rest))
        (sym step) (kept, ap (λ is. answered (some (record v { channel = channel })) ∷ is) later)

  -- A request that is taken leaves the cache as its own look-up left it.
  abbrev Taken : Processor D S → Header → List ℕ → Processor D S → Type 0
  Taken p h payload q =
      (q.dedup ≡ (x.classify p.dedup (key_of x h) payload).1)
      × (q.bound ≡ p.bound)
      × (q.cache_lock ≡ p.cache_lock)

  take_fresh-text :
      (p : Processor D S) (e : E) (slot : ℕ) (about : SlotMeta) (h : Header) (payload : List ℕ)
      (now : ℕ) (text : List ℕ)
      → x.parse_request e h payload ≡ none
      → (about.action_id == ping_action_id) ≡ false
      → x.copy_shell_command payload ≡ inr text
      → let q : Processor D S = (take_fresh x p e slot about h payload now).0 in
        (q.dedup ≡ p.dedup) × (q.bound ≡ p.bound) × (q.cache_lock ≡ p.cache_lock)
  unfolding take_fresh
  take_fresh-text p e slot about h payload now text parses no_ping copied =
      rw (parses, take_fresh)
        (rw (no_ping, take_fresh) (rw (copied, take_fresh) (refl, refl, refl)))

  looked_up :
      (p : Processor D S) (e : E) (h : Header) (payload : List ℕ) (now : ℕ) (channel : Channel)
      → p.cache_lock ≡ false
      → acceptable x p h payload ≡ true
      → intake x p e h (some payload) now channel
        ≡ on_verdict x
            (x.classify p.dedup (key_of x h) payload).0
            (record p { dedup = (x.classify p.dedup (key_of x h) payload).1 })
            e
            (meta_of h payload channel)
            h
            payload
            now
  unfolding intake
  looked_up p e h payload now channel unlocked fine = rw unlocked (rw fine refl)

  text-Taken :
      (p : Processor D S) (e : E) (h : Header) (payload : List ℕ) (now : ℕ) (channel : Channel)
      (slot : ℕ) (text : List ℕ)
      → p.cache_lock ≡ false
      → IsRequest x p h payload
      → (x.classify p.dedup (key_of x h) payload).0 ≡ fresh slot
      → x.parse_request e h payload ≡ none
      → ((meta_of h payload channel).action_id == ping_action_id) ≡ false
      → x.copy_shell_command payload ≡ inr text
      → Taken p h payload (intake x p e h (some payload) now channel).0
  unfolding on_verdict
  text-Taken p e h payload now channel slot text unlocked request new parses no_ping copied =
      let q : Processor D S = record p { dedup = (x.classify p.dedup (key_of x h) payload).1 } in
      let about = meta_of h payload channel in
      subst (λ (z : Processor D S × E × Intake). Taken p h payload z.0)
        (sym (
          looked_up p e h payload now channel unlocked (IsRequest-acceptable p h payload request)
          ∙ ap (λ verdict. on_verdict x verdict q e about h payload now) new))
        (take_fresh-text q e slot about h payload now text parses no_ping copied)

  intake-Taken :
      (p : Processor D S) (e : E) (h : Header) (payload : List ℕ) (now : ℕ) (channel : Channel)
      → Runs x p e h payload channel (intake x p e h (some payload) now channel).2
      → Taken p h payload (intake x p e h (some payload) now channel).0
  intake-Taken p e h payload now channel
        (slot, unlocked, request, new, parses, no_ping, text, numbered) =
      text-Taken p e h payload now channel slot _ unlocked request new parses
        (ground (arith, no_ping)) text

  -- What `complete` leaves as it is.
  abbrev Stays : Processor D S → Processor D S → Type 0
  Stays p q = (q.bound ≡ p.bound) × (q.cache_lock ≡ p.cache_lock)

  store_result-Stays :
      (p : Processor D S) (e : E) (slot : ℕ) (sequence : Option ℕ) (payload : Option (List ℕ))
      (now : ℕ)
      → Stays p (store_result x p e slot sequence payload now).0
  unfolding store_result note_drop
  store_result-Stays p e slot none payload now = (refl, refl)
  store_result-Stays p e slot (some n) none now = (refl, refl)
  store_result-Stays p e slot (some n) (some bytes) now = ground arith

  finish-Stays :
      (p : Processor D S) (e : E) (slot : ℕ) (status : Status) (error : ErrorCode)
      (message : List ℕ) (now : ℕ)
      → Stays p (finish x p e slot status error message now).0
  unfolding finish
  finish-Stays p e slot status error message now =
      let (sequence, e') = x.reserve_sequence e in
      ground (
        arith,
        store_result-Stays p e' slot sequence
            (x.encode_result (p.slot_meta slot) status error message max_result_payload_size) now,
      )

  complete-Stays :
      (p : Processor D S) (e : E) (slot shell_status now : ℕ) (message : Option (List ℕ))
      → Stays p (complete x p e slot shell_status now message).0
  unfolding complete
  complete-Stays p e slot shell_status now message =
      let text =
        if shell_status == 0
        then elim message [ none ↦ [] | some m ↦ m ]
        else codes "shell command failed" in
      ground (
        arith,
        finish-Stays p e slot (if shell_status == 0 then success else failed)
            (if shell_status == 0 then no_error else internal_error) text now,
      )

  -- A request that `intake` gives to the shell, and whose result `complete` then shows: if it comes again, however often,
  -- at whatever times and on whatever channels, with no other request between, `intake` answers each time with that sequence number, time and
  -- payload, on the channel of that time, and nothing is asked of the endpoint. The octets that the result is stored
  -- as come from the cache, of which `Remembers` is assumed;
  -- the time has 64 bits, and `IsOutside` gives that sequence numbers have 32 and that an encoded result fits.
  pub complete-Replays :
      (ok : IsOutside x) (cache : Remembers x) (p : Processor D S) (e e1 e2 : E) (h : Header)
      (payload : List ℕ) (first : ℕ) (channel : Channel) (shell_status now : ℕ)
      (message : Option (List ℕ)) (v : ResultView) (tries : List (ℕ × Channel))
      → now < 2 ^ 64
      → is_ready x (intake x p e h (some payload) first channel).2.kind ≡ true
      → (let (taken, _, i) = intake x p e h (some payload) first channel in
          (complete x taken e1 i.cache_slot shell_status now message).2 ≡ some v)
      → (let (taken, _, i) = intake x p e h (some payload) first channel in
          let (done, _, _) = complete x taken e1 i.cache_slot shell_status now message in
          ((retries done e2 h payload tries).1 ≡ e2)
          × ((retries done e2 h payload tries).2 ≡ same_result v tries))
  complete-Replays ok cache p e e1 e2 h payload first channel shell_status now message v tries fits
        taken shown =
      let q : Processor D S = (intake x p e h (some payload) first channel).0 in
      let i : Intake = (intake x p e h (some payload) first channel).2 in
      let done : Processor D S = (complete x q e1 i.cache_slot shell_status now message).0 in
      let runs = intake-Runs x p e h payload first channel taken in
      let (slot, unlocked, request, new, _, _, _, numbered) = runs in
      let (dedup, bound, lock) = intake-Taken p e h payload first channel runs in
      let (stored, recorded, shows) =
        complete-Keeps x ok q e1 i.cache_slot shell_status now message v fits shown in
      let (bound1, lock1) = complete-Stays q e1 i.cache_slot shell_status now message in
      let in_range = cache.slot_lt p.dedup (key_of x h) payload slot new in
      let same_slot : i.cache_slot ≡ slot = numbered ∙ omega (arith, in_range) in
      let recorded_here : x.record_result (x.classify p.dedup (key_of x h) payload).1 slot stored
          ≡ (true, done.dedup) =
        ap (λ d. x.record_result d slot stored) (sym dedup)
        ∙ ap (λ k. x.record_result q.dedup k stored) (sym same_slot)
        ∙ recorded in
      retries-Replays cache h payload stored v shows done e2 tries (record {
        request = (
          bound1 ∙ bound ∙ request.0,
          request.1,
          request.2,
          request.3,
          request.4,
          request.5,
          request.6,
        );
        unlocked = lock1 ∙ lock ∙ unlocked;
        known = cache.stores p.dedup (key_of x h) payload slot stored done.dedup new recorded_here;
      })
