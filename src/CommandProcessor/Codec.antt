-- ===== src/CommandProcessor/Codec.antt =====
-- lib/CommandProcessor: the octets of numbers, and the stored copy of a result.
use bally_os.Base.{
  ℕ, zero, suc, ◌+◌, ◌*◌, ◌/◌, ◌^◌, ◌<◌, ◌≤◌, ◌≡◌, ap, ◌∙◌, List, [], ◌∷◌, ◌++◌, Option, none, some,
  length, get_or, take, drop, take_all, u8, ltb, if◌then◌else◌, arith, false,
}
use bally_os.Channels.{Channel}

abbrev octet : List ℕ → ℕ → ℕ
octet bytes i = get_or bytes i 0

unfoldable pub read_u16 : List ℕ → ℕ → ℕ
read_u16 bytes at = octet bytes at + octet bytes (at + 1) * 2 ^ 8

unfoldable pub read_u32 : List ℕ → ℕ → ℕ
read_u32 bytes at =
    octet bytes at
    + octet bytes (at + 1) * 2 ^ 8
    + octet bytes (at + 2) * 2 ^ 16
    + octet bytes (at + 3) * 2 ^ 24

-- The loop of `read_u64`, for `left` octets from number `i` on.
unfoldable pub read_octets : List ℕ → ℕ → ℕ → ℕ → ℕ
read_octets bytes at i zero = 0
read_octets bytes at i (suc left) =
    octet bytes (at + i) * 2 ^ (i * 8) + read_octets bytes at (i + 1) left

unfoldable pub read_u64 : List ℕ → ℕ → ℕ
unfolding read_octets
read_u64 bytes at = read_octets bytes at 0 8

unfoldable pub write_u32 : ℕ → List ℕ
write_u32 value = u8 value ∷ u8 (value / 2 ^ 8) ∷ u8 (value / 2 ^ 16) ∷ u8 (value / 2 ^ 24) ∷ []

-- The loop of `write_u64`.
unfoldable pub write_octets : ℕ → ℕ → ℕ → List ℕ
write_octets value i zero = []
write_octets value i (suc left) = u8 (value / 2 ^ (i * 8)) ∷ write_octets value (i + 1) left

unfoldable pub write_u64 : ℕ → List ℕ
unfolding write_octets
write_u64 value = write_octets value 0 8

abbrev pub replay_prefix : ℕ
replay_prefix = 12

abbrev pub max_result_payload_size : ℕ
max_result_payload_size = 128

-- A result on its way out. No payload is a null pointer.
pub record ResultView : Type 0 where
  pub sequence : ℕ
  pub timestamp_us : ℕ
  pub payload : Option (List ℕ)
  pub channel : Channel

-- What `finish` stores.
unfoldable pub pack : ℕ → ℕ → List ℕ → List ℕ
unfolding write_u32 write_u64
pack sequence now_us payload = write_u32 sequence ++ (write_u64 now_us ++ payload)

abbrev pub no_view : ResultView
no_view = record { sequence = 0; timestamp_us = 0; payload = none; channel = Channel.c_link }

unfoldable pub replay_view : Option (List ℕ) → Channel → ResultView
unfolding read_u32 read_u64
replay_view none channel = no_view
replay_view (some stored) channel = if ltb (length stored) replay_prefix then no_view else record {
  sequence = read_u32 stored 0;
  timestamp_us = read_u64 stored 4;
  payload = some (take max_result_payload_size (drop replay_prefix stored));
  channel = channel;
}

pub u32_lem :
    (n : ℕ)
    → n < 2 ^ 32
    → u8 n + u8 (n / 2 ^ 8) * 2 ^ 8 + u8 (n / 2 ^ 16) * 2 ^ 16 + u8 (n / 2 ^ 24) * 2 ^ 24 ≡ n
u32_lem n lt = omega arith

pub u64_lem : (n : ℕ) → n < 2 ^ 64 → read_octets (write_u64 n) 0 0 8 ≡ n
unfolding read_octets write_u64
u64_lem n lt = omega arith

-- A stored result is replayed as it was first sent: the same sequence number, time and payload, on the
-- channel of whoever asks again.
pub replay_view-pack :
    (sequence now_us : ℕ) (payload : List ℕ) (channel : Channel)
    → sequence < 2 ^ 32
    → now_us < 2 ^ 64
    → length payload ≤ max_result_payload_size
    → replay_view (some (pack sequence now_us payload)) channel ≡ record {
      sequence = sequence;
      timestamp_us = now_us;
      payload = some payload;
      channel = channel;
    }
unfolding replay_view pack
replay_view-pack sequence now_us payload channel s n l =
    let enough : ltb (length (pack sequence now_us payload)) 12 ≡ false = ground arith in
    ap (λ b. if b then no_view else view (read_u32 stored 0) (read_u64 stored 4) (take 128 payload))
      enough
    ∙ ap (λ x. view x (read_u64 stored 4) (take 128 payload)) (u32_lem sequence s)
    ∙ ap (λ x. view sequence x (take 128 payload)) (u64_lem now_us n)
    ∙ ap (view sequence now_us) (take_all 128 payload l)
  where
    stored : List ℕ
    stored = pack sequence now_us payload

    view : ℕ → ℕ → List ℕ → ResultView
    view a t p = record { sequence = a; timestamp_us = t; payload = some p; channel = channel }
