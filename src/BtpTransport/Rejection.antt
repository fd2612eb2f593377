-- ===== src/BtpTransport/Rejection.antt =====
-- lib/BtpTransport, `TcpBusyResponder`: who is answered, and with what.
use bally_os.Base.{
  ℕ, zero, suc, ◌+◌, ◌<◌, ◌≤◌, ◌*◌, ◌/◌, ◌^◌, ◌≡◌, ◌≢◌, refl, sym, ap, ◌∙◌, ◌&&◌, Option, none,
  some, List, [], ◌∷◌, ◌++◌, length, get_or, set, length-set, leb, ltb, ◌==◌, if◌then◌else◌, arith,
  u8, u64,
}
use bally_os.BtpTransport.Busy.{
  Library, clear, framed, busy_payload, frame_reply, reject, answer_frame, feed, first_answer,
}

get_or-set :
    (s : List ℕ) (i j v : ℕ)
    → i < length s
    → get_or (set s i v) j 0 ≡ (if i == j then v else get_or s j 0)
get_or-set [] i j v h = absurd (omega arith)
get_or-set (x ∷ s) zero zero v h = refl
get_or-set (x ∷ s) zero (suc j) v h = ground arith
get_or-set (x ∷ s) (suc i) zero v h = ground arith
get_or-set (x ∷ s) (suc i) (suc j) v h = ground (arith, get_or-set s i j v (omega arith))

get_or-clear :
    (n offset j : ℕ) (s : List ℕ)
    → offset + n ≤ length s
    → get_or (clear n offset s) j 0
      ≡ (if leb offset j && ltb j (offset + n) then 0 else get_or s j 0)
unfolding clear
get_or-clear zero offset j s h = ground arith
get_or-clear (suc n) offset j s h = ground (
  arith,
  get_or-clear n (offset + 1) j (set s offset 0) (omega (arith, length-set s offset 0)),
  get_or-set s offset j 0 (omega arith),
)

module _ {D F H : Type 0} (x : Library D F H) where
  -- The octets of an answer that refuses: the status, the two octets of the error, and sixteen
  -- zeros for the limits, in place of those of the answer that accepts; the rest is unchanged.
  abbrev pub Refuses : List ℕ → List ℕ → Type 0
  Refuses success payload =
      (j : ℕ)
      → get_or payload j 0 ≡ (
          if j == 12
          then u8 x.busy
          else if j == 14
          then u8 x.capacity_exhausted
          else if j == 15
          then u8 (x.capacity_exhausted / 256)
          else if leb 16 j && ltb j 32
          then 0
          else get_or success j 0)

  busy_payload-Refuses : (s : List ℕ) → length s ≡ 52 → Refuses s (busy_payload x s)
  unfolding busy_payload
  busy_payload-Refuses s l j =
      let s1 : List ℕ = set s 12 (u8 x.busy) in
      let s2 : List ℕ = set s1 14 (u8 x.capacity_exhausted) in
      let s3 : List ℕ = set s2 15 (u8 (x.capacity_exhausted / 2 ^ 8)) in
      let l1 : length s1 ≡ 52 = length-set s 12 (u8 x.busy) ∙ l in
      let l2 : length s2 ≡ 52 = length-set s1 14 (u8 x.capacity_exhausted) ∙ l1 in
      let l3 : length s3 ≡ 52 = length-set s2 15 (u8 (x.capacity_exhausted / 2 ^ 8)) ∙ l2 in
      ground (
        arith,
        get_or-clear 16 16 j s3 (omega (arith, l3)),
        get_or-set s2 15 j (u8 (x.capacity_exhausted / 2 ^ 8)) (omega (arith, l2)),
        get_or-set s1 14 j (u8 x.capacity_exhausted) (omega (arith, l1)),
        get_or-set s 12 j (u8 x.busy) (omega (arith, l)),
      )

  -- The decoder after some octets, one after the other.
  abbrev pub pushed : D → List ℕ → D
  pushed d [] = d
  pushed d (byte ∷ rest) = pushed (x.push d byte).1 rest

  -- What a decoded frame is refused with, if it is a HELLO that would have been accepted: the answer of the
  -- library with the refusal in it, encoded and framed.
  abbrev pub RefusesHello : H → ℕ → ℕ → ℕ → F → List ℕ → Type 0
  RefusesHello local source boot now f frame =
      (success : List ℕ) × (payload : List ℕ) × (encoded : List ℕ) × (body : List ℕ) × (x.negotiate
          local f now
        ≡ some success)
      × Refuses success payload
      × (x.encode_control source boot (u64 (now * 1000)) payload 92 ≡ some encoded)
      × (x.cobs_encode encoded 126 ≡ some body)
      × (frame ≡ 0 ∷ body ++ 0 ∷ [])

  -- Of the octets received, those up to `byte` complete a HELLO that is refused with the frame; none before it is
  -- answered, and the decoder is left as it stands then.
  abbrev pub Rejects : D → H → ℕ → ℕ → ℕ → List ℕ → List ℕ → Type 0
  Rejects d local source boot now bytes frame =
      (before : List ℕ) × (byte : ℕ) × (rest : List ℕ) × (f : F) × (bytes ≡ before ++ byte ∷ rest)
      × ((x.push (pushed d before) byte).0 ≡ some f)
      × RefusesHello local source boot now f frame
      × ((feed x d local source boot now before).0 ≡ none)
      × ((feed x d local source boot now bytes).1 ≡ pushed d (before ++ byte ∷ []))

  frame_reply-some :
      (o : Option (List ℕ)) (frame : List ℕ)
      → frame_reply x o ≡ some frame
      → (encoded : List ℕ) × (body : List ℕ) × (o ≡ some encoded)
        × (x.cobs_encode encoded 126 ≡ some body)
        × (frame ≡ 0 ∷ body ++ 0 ∷ [])
  unfolding frame_reply framed
  frame_reply-some none frame h = absurd cc
  frame_reply-some (some encoded) frame h = go (x.cobs_encode encoded 126) refl h
    where
      go :
          (o : Option (List ℕ))
          → x.cobs_encode encoded 126 ≡ o
          → framed o ≡ some frame
          → (code : List ℕ) × (body : List ℕ) × (some encoded ≡ some code)
            × (x.cobs_encode code 126 ≡ some body)
            × (frame ≡ 0 ∷ body ++ 0 ∷ [])
      go none e f = absurd cc
      go (some body) e f = (encoded, body, refl, e, ground (arith, f))

  reject-some :
      (source boot now : ℕ) (success frame : List ℕ)
      → reject x source boot now (some success) ≡ some frame
      → (length success ≡ 52)
        × (frame_reply x
              (x.encode_control source boot (u64 (now * 1000)) (busy_payload x success) 92)
            ≡ some frame)
  unfolding reject
  reject-some source boot now success frame h = ground (arith, h)

  nothing_rejected :
      (source boot now : ℕ) (frame : List ℕ) → reject x source boot now none ≢ some frame
  unfolding reject
  nothing_rejected source boot now frame h = cc

  answer_frame-RefusesHello :
      (local : H) (source boot now : ℕ) (event : Option F) (frame : List ℕ)
      → answer_frame x local source boot now event ≡ some frame
      → (f : F) × (event ≡ some f) × RefusesHello local source boot now f frame
  unfolding answer_frame
  answer_frame-RefusesHello local source boot now none frame h = absurd cc
  answer_frame-RefusesHello local source boot now (some f) frame h =
      (f, refl, go (x.negotiate local f now) refl h)
    where
      go :
          (o : Option (List ℕ))
          → x.negotiate local f now ≡ o
          → reject x source boot now o ≡ some frame
          → RefusesHello local source boot now f frame
      go none e r = absurd (nothing_rejected source boot now frame r)
      go (some success) e r =
          let (l, framed_reply) = reject-some source boot now success frame r in
          let (encoded, body, is_encoded, is_body, is_frame) =
            frame_reply-some
              (x.encode_control source boot (u64 (now * 1000)) (busy_payload x success) 92) frame
              framed_reply in
          (
            success,
            busy_payload x success,
            encoded,
            body,
            e,
            busy_payload-Refuses success l,
            is_encoded,
            is_body,
            is_frame,
          )

  -- An octet that is not answered leaves the answer to those after it.
  feed-skips :
      (d : D) (local : H) (source boot now byte : ℕ) (rest : List ℕ)
      → answer_frame x local source boot now (x.push d byte).0 ≡ none
      → feed x d local source boot now (byte ∷ rest)
        ≡ feed x (x.push d byte).1 local source boot now rest
  unfolding feed first_answer
  feed-skips d local source boot now byte rest e = rw e refl

  feed-answers :
      (d : D) (local : H) (source boot now byte : ℕ) (rest frame : List ℕ)
      → answer_frame x local source boot now (x.push d byte).0 ≡ some frame
      → feed x d local source boot now (byte ∷ rest) ≡ (some frame, (x.push d byte).1)
  unfolding feed first_answer
  feed-answers d local source boot now byte rest frame e = rw e refl

  feed-nothing :
      (d : D) (local : H) (source boot now : ℕ) → (feed x d local source boot now []).0 ≡ none
  unfolding feed
  feed-nothing d local source boot now = refl

  nothing_fed : {frame : List ℕ} → none ≢ some frame
  nothing_fed h = cc

  -- Whatever octets arrive on the second connection, if `feed` gives an answer then some of them, from the first on,
  -- complete a frame that the library's session accepts as a HELLO, and no answer is given before; the answer is that session's own
  -- with the busy status and error, every limit 0 and all else unchanged, encoded and between two 0 octets.
  -- The octets after the frame are not read.
  pub feed-Rejects :
      (d : D) (local : H) (source boot now : ℕ) (bytes frame : List ℕ)
      → (feed x d local source boot now bytes).0 ≡ some frame
      → Rejects d local source boot now bytes frame
  feed-Rejects d local source boot now [] frame h =
      absurd (nothing_fed (sym (feed-nothing d local source boot now) ∙ h))
  feed-Rejects d local source boot now (byte ∷ rest) frame h =
      go (answer_frame x local source boot now (x.push d byte).0) refl
        (feed-Rejects (x.push d byte).1 local source boot now rest frame)
    where
      go :
          (o : Option (List ℕ))
          → answer_frame x local source boot now (x.push d byte).0 ≡ o
          → ((feed x (x.push d byte).1 local source boot now rest).0 ≡ some frame
              → Rejects (x.push d byte).1 local source boot now rest frame)
          → Rejects d local source boot now (byte ∷ rest) frame
      go none e later =
          let skipped = feed-skips d local source boot now byte rest e in
          let (before, last, after, f, is_bytes, completes, refused, quiet, left) =
            later (sym (ap (λ r. r.0) skipped) ∙ h) in
          (
            byte ∷ before,
            last,
            after,
            f,
            ap (λ z. byte ∷ z) is_bytes,
            completes,
            refused,
            ap (λ r. r.0) (feed-skips d local source boot now byte before e) ∙ quiet,
            ap (λ r. r.1) skipped ∙ left,
          )
      go (some reply) e later =
          let answered = feed-answers d local source boot now byte rest reply e in
          let same : some reply ≡ some frame = sym (ap (λ r. r.0) answered) ∙ h in
          let (f, completes, refused) =
            answer_frame-RefusesHello local source boot now (x.push d byte).0 frame (e ∙ same) in
          (
            [],
            byte,
            rest,
            f,
            refl,
            completes,
            refused,
            feed-nothing d local source boot now,
            ap (λ r. r.1) answered,
          )
