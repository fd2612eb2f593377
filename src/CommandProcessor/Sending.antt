-- ===== src/CommandProcessor/Sending.antt =====
-- lib/CommandProcessor, `send_result`: under which key a result leaves.
use bally_os.Base.{
  ℕ, List, length, ◌<◌, ◌≤◌, leb, ◌==◌, ◌≢◌, ◌+◌, ◌≡◌, refl, ap, ◌∙◌, ◌⊎◌, inl, inr, Bool, true,
  false, not, ◌&&◌, ◌||◌, Option, none, some, if◌then◌else◌, arith, u32,
}
use bally_os.Channels.{
  Channel, a_console, b_endpoint, c_link, KeyKind, no_key, endpoint_key, link_key, key_of_channel,
}
use bally_os.CommandProcessor.Codec.{ResultView}
use bally_os.CommandProcessor.Reply.{
  send_result_via, send_result, send_result_by, transmit, sendable,
}
use bally_os.CommandProcessor.{Outside, Processor, seal_of, is_some, note_drop}

module _ {D E S : Type 0} (x : Outside D E S) where
  -- The endpoint was handed the result with this seal, and its answer is the result of the call.
  abbrev pub SentWith :
      Processor D S → E → ResultView → Option S → Processor D S × E × Bool → Type 0
  SentWith p e v seal (p', e', done) =
      ((done, e') ≡ x.send_fragment e v seal)
      × (p'.dropped ≡ (if done then p.dropped else u32 (p.dropped + 1)))

  -- Nothing left, and a drop was counted.
  abbrev pub Withheld : Processor D S → E → Processor D S × E × Bool → Type 0
  Withheld p e (p', e', done) = (done ≡ false) × (e' ≡ e) × (p'.dropped ≡ u32 (p.dropped + 1))

  -- The seal of a key.
  abbrev pub own_key : Processor D S → KeyKind → Option S
  own_key p no_key = none
  own_key p endpoint_key = p.seal_endpoint
  own_key p link_key = p.seal_link

  own_key-seal_of :
      (p : Processor D S) (c : Channel) → c ≢ a_console → own_key p (key_of_channel c) ≡ seal_of p c
  unfolding key_of_channel
  own_key-seal_of p a_console h = absurd (h refl)
  own_key-seal_of p b_endpoint h = refl
  own_key-seal_of p c_link h = refl

  -- An endpoint is given, and the result has a number and a payload that is not empty and fits in a frame.
  abbrev pub IsSendable : Bool → ResultView → Type 0
  IsSendable endpoint_given v =
      (bytes : List ℕ) × (endpoint_given ≡ true)
      × (v.payload ≡ some bytes)
      × (v.sequence ≢ 0)
      × (0 < length bytes)
      × (length bytes ≤ x.espnow_max_payload_size)

  sendable-IsSendable :
      (endpoint_given : Bool) (v : ResultView)
      → sendable x endpoint_given v ≡ true
      → IsSendable endpoint_given v
  unfolding sendable
  sendable-IsSendable false v h = cc
  sendable-IsSendable true v h = go v.payload refl h
    where
      fine : Option (List ℕ) → Bool
      fine o = elim o [
        | none ↦ false
        | some bytes ↦
            not (v.sequence == 0)
            && not (length bytes == 0)
            && leb (length bytes) x.espnow_max_payload_size
      ]

      go : (o : Option (List ℕ)) → v.payload ≡ o → fine o ≡ true → IsSendable true v
      go none e f = cc
      go (some bytes) e f =
          (bytes, refl, e, λ z. ground (arith, f, z), ground (arith, f), ground (arith, f))

  IsSendable-sendable :
      (endpoint_given : Bool) (v : ResultView)
      → IsSendable endpoint_given v
      → sendable x endpoint_given v ≡ true
  unfolding sendable
  IsSendable-sendable endpoint_given v (bytes, given, payload, numbered, some_octets, fits) =
      rw (given, sendable) (rw (payload, sendable) (ground (arith, numbered, some_octets, fits)))

  not-IsSendable :
      (endpoint_given : Bool) (v : ResultView)
      → sendable x endpoint_given v ≡ false
      → ¬ IsSendable endpoint_given v
  not-IsSendable endpoint_given v bad s = let good = IsSendable-sendable endpoint_given v s in cc

  -- The ways `send_result` ends, by what is configured.
  abbrev pub Sends : Processor D S → E → Bool → ResultView → Processor D S × E × Bool → Type 0
  Sends p e endpoint_given v r =
      ((¬ IsSendable endpoint_given v) × Withheld p e r)
      ⊎ ((s : S) × IsSendable endpoint_given v
          × (own_key p (key_of_channel v.channel) ≡ some s)
          × SentWith p e v (some s) r)
      ⊎ ((own_key p (key_of_channel v.channel) ≡ none)
          × ((is_some p.seal_link || is_some p.seal_endpoint) ≡ true)
          × Withheld p e r)
      ⊎ (IsSendable endpoint_given v
          × (p.seal_link ≡ none)
          × (p.seal_endpoint ≡ none)
          × SentWith p e v none r)

  transmit-SentWith :
      (p : Processor D S) (e : E) (v : ResultView) (seal : Option S)
      → SentWith p e v seal (transmit x p e v seal)
  unfolding transmit note_drop
  transmit-SentWith p e v seal = (refl, ground arith)

  send_result_via-Sends :
      (p : Processor D S) (e : E) (endpoint_given : Bool) (v : ResultView)
      → v.channel ≢ a_console
      → Sends p e endpoint_given v (send_result_via x p e endpoint_given v false)
  unfolding send_result_via note_drop
  send_result_via-Sends p e endpoint_given v robot =
      go (sendable x endpoint_given v) refl (seal_of p v.channel) refl p.seal_link refl
        p.seal_endpoint refl
    where
      own : own_key p (key_of_channel v.channel) ≡ seal_of p v.channel
      own = own_key-seal_of p v.channel robot

      branch : Bool → Option S → Option S → Option S → Processor D S × E × Bool
      branch fine seal link endpoint =
          if not fine
          then (note_drop p, e, false)
          else if not (is_some seal) && (is_some link || is_some endpoint)
          then (note_drop p, e, false)
          else transmit x p e v seal

      held :
          (l r : Option S)
          → p.seal_link ≡ l
          → p.seal_endpoint ≡ r
          → (is_some l || is_some r) ≡ true
          → (is_some p.seal_link || is_some p.seal_endpoint) ≡ true
      held l r a b h =
          ap (λ y. is_some y || is_some p.seal_endpoint) a ∙ ap (λ y. is_some l || is_some y) b ∙ h

      go :
          (fine : Bool)
          → sendable x endpoint_given v ≡ fine
          → (seal : Option S) → seal_of p v.channel ≡ seal
          → (link : Option S) → p.seal_link ≡ link
          → (endpoint : Option S) → p.seal_endpoint ≡ endpoint
          → Sends p e endpoint_given v (branch fine seal link endpoint)
      go false bad seal a link b endpoint c =
          inl (not-IsSendable endpoint_given v bad, (refl, refl, refl))
      go true ok none a (some l) b endpoint c =
          inr (inr (inl (own ∙ a, held (some l) endpoint b c refl, (refl, refl, refl))))
      go true ok none a none b (some k) c =
          inr (inr (inl (own ∙ a, held none (some k) b c refl, (refl, refl, refl))))
      go true ok none a none b none c =
          inr (
            inr (inr (sendable-IsSendable endpoint_given v ok, b, c, transmit-SentWith p e v none)))
      go true ok (some k) a link b endpoint c = inr (
          inl
            (k, sendable-IsSendable endpoint_given v ok, own ∙ a, transmit-SentWith p e v (some k)))

  -- For a request that did not come by the channel in the clear, which a robot never sees, both forms of `send_result`
  -- send the result under the key of that channel, and in the clear only if no key at all is configured; a result whose
  -- own key is missing while the other is there is not sent, and neither is one that is empty, too long or has no
  -- number. The form that uses the endpoint of `configure` sends nothing before `configure`. What is not sent is counted.
  pub send_result-Sends :
      (p : Processor D S) (e : E) (v : ResultView)
      → v.channel ≢ a_console
      → Sends p e p.bound v (send_result x p e v) × Sends p e true v (send_result_by x p e v)
  unfolding send_result send_result_by
  send_result-Sends p e v robot =
      (send_result_via-Sends p e p.bound v robot, send_result_via-Sends p e true v robot)
