-- ===== src/BtpTransport/Busy.antt =====
-- lib/BtpTransport, `TcpBusyResponder` and `cobs_stream_encode`: the answer to a second TCP session.
use bally_os.Base.{
  ℕ, zero, suc, ◌+◌, ◌-◌, ◌*◌, ◌/◌, ◌^◌, Option, none, some, List, [], ◌∷◌, ◌++◌, length, set, ltb,
  ◌==◌, if◌then◌else◌, u8, u64,
}

-- The BTP library: the decoder of a stream, a state and what an octet completes; the session that
-- negotiates a HELLO, as the answer to one it accepts; the encoders; and two values on the wire.
pub record Library (D F H : Type 0) : Type 0 where
  pub push : D → ℕ → Option F × D
  pub negotiate : H → F → ℕ → Option (List ℕ)
  pub encode_control : ℕ → ℕ → ℕ → List ℕ → ℕ → Option (List ℕ)
  pub cobs_encode : List ℕ → ℕ → Option (List ℕ)
  pub busy : ℕ
  pub capacity_exhausted : ℕ

-- `kSessionMaxReplySize`, which a `static_assert` fixes.
abbrev pub reply_size : ℕ
reply_size = 52

abbrev pub reply_frame_capacity : ℕ
reply_frame_capacity = 128

-- `memset (data + offset, 0, n)`
unfoldable pub clear : ℕ → ℕ → List ℕ → List ℕ
clear zero offset s = s
clear (suc n) offset s = clear n (offset + 1) (set s offset 0)

-- 0, the encoded frame, 0.
unfoldable pub framed : Option (List ℕ) → Option (List ℕ)
framed none = none
framed (some body) = some (0 ∷ body ++ 0 ∷ [])

-- The loop ends with an answer, and goes on without one.
unfoldable pub first_answer :
    {D : Type 0} → Option (List ℕ) → Option (List ℕ) × D → D → Option (List ℕ) × D
first_answer none later after = later
first_answer (some frame) later after = (some frame, after)

module _ {D F H : Type 0} (x : Library D F H) where
  -- The answer of the library with the status, the error and the limits of a refusal.
  unfoldable pub busy_payload : List ℕ → List ℕ
  unfolding clear
  busy_payload success = clear 16 16 (
      set (set (set success 12 (u8 x.busy)) 14 (u8 x.capacity_exhausted)) 15
        (u8 (x.capacity_exhausted / 2 ^ 8)))

  unfoldable pub cobs_stream_encode : Option (List ℕ) → ℕ → Option (List ℕ)
  cobs_stream_encode none capacity = none
  cobs_stream_encode (some frame) capacity =
      if ltb capacity 2 then none else framed (x.cobs_encode frame (capacity - 2))

  unfoldable pub frame_reply : Option (List ℕ) → Option (List ℕ)
  frame_reply none = none
  frame_reply (some encoded) = framed (x.cobs_encode encoded (reply_frame_capacity - 2))

  -- What a decoded frame is answered with, if it is a HELLO that would have been accepted.
  unfoldable pub reject : ℕ → ℕ → ℕ → Option (List ℕ) → Option (List ℕ)
  reject source boot now none = none
  reject source boot now (some success) =
      if length success == reply_size
      then frame_reply
          (x.encode_control source boot (u64 (now * 1000)) (busy_payload success) (reply_size + 40))
      else none

  unfoldable pub answer_frame : H → ℕ → ℕ → ℕ → Option F → Option (List ℕ)
  answer_frame local source boot now none = none
  answer_frame local source boot now (some f) = reject source boot now (x.negotiate local f now)

  -- The octets of a chunk in turn, up to the first answer.
  unfoldable pub feed : D → H → ℕ → ℕ → ℕ → List ℕ → Option (List ℕ) × D
  feed d local source boot now [] = (none, d)
  feed d local source boot now (byte ∷ rest) =
      let (event, after) = x.push d byte in
      let later = feed after local source boot now rest in
      first_answer (answer_frame local source boot now event) later after
