-- ===== src/Channels.antt =====
-- include/bally_channels.h: whose message a frame is, and which key opens it; and
-- lib/BtpTransport/TcpSendAdmission.h: which frames the queue of a TCP session takes.
mod Examples
use bally_os.Base.{
  ℕ, ◌+◌, ◌≤◌, ◌<◌, ◌≡◌, refl, ◌≢◌, ◌↔◌, ◌⊎◌, Bool, true, false, not, ◌&&◌, ◌||◌, arith, ltb, leb,
  ◌==◌, if◌then◌else◌, inl, inr,
}
use bally_os.Btp.{Btp, IsBtp}

pub data Channel : Type 0 where
  a_console b_endpoint c_link : Channel

pub data KeyKind : Type 0 where
  no_key endpoint_key link_key : KeyKind

unfoldable pub key_of_channel : Channel → KeyKind
key_of_channel a_console = no_key
key_of_channel b_endpoint = endpoint_key
key_of_channel c_link = link_key

pub data Vantage : Type 0 where
  console_vantage robot_vantage : Vantage

abbrev pub of_dongle : Vantage → Channel
of_dongle robot_vantage = c_link
of_dongle console_vantage = a_console

unfoldable pub channel_of_peer : Vantage → ℕ → ℕ → Channel
channel_of_peer self peer_source_id dongle_source_id =
    if peer_source_id == dongle_source_id then of_dongle self else b_endpoint

pub data Side : Type 0 where
  cable radio : Side

unfoldable pub dongle_channel_of : Side → Bool → Channel
dongle_channel_of cable consumed = a_console
dongle_channel_of radio consumed = if consumed then c_link else b_endpoint

abbrev pub command_request_object_id : ℕ
command_request_object_id = 1

abbrev pub command_result_object_id : ℕ
command_result_object_id = 2

abbrev pub manifest_data_object_id : ℕ
manifest_data_object_id = 4

abbrev pub status_object_id : ℕ
status_object_id = 9

module _ (btp : Btp) where
  abbrev pub is_status : ℕ → ℕ → Bool
  is_status message_type object_id = message_type == btp.control && object_id == status_object_id

  abbrev pub is_command : ℕ → ℕ → Bool
  is_command message_type object_id =
      message_type == btp.command
      && (object_id == command_request_object_id || object_id == command_result_object_id)

  abbrev pub is_manifest : ℕ → ℕ → Bool
  is_manifest message_type object_id =
      message_type == btp.control && object_id == manifest_data_object_id

  unfoldable pub dongle_may_consume : ℕ → ℕ → Bool
  dongle_may_consume message_type object_id =
      is_status message_type object_id
      || is_command message_type object_id
      || is_manifest message_type object_id

  unfoldable pub dongle_consumes : ℕ → ℕ → ℕ → ℕ → Bool
  dongle_consumes message_type object_id reference_source_id self_source_id =
      is_status message_type object_id
      || ((is_command message_type object_id || is_manifest message_type object_id)
          && (reference_source_id == self_source_id && not (self_source_id == 0)))

  -- The dongle owns a message only if the prefilter kept it; a message that the prefilter keeps is its own
  -- exactly when it is a STATUS or names the dongle, whose identity is not 0.
  pub dongle_consumes_iff :
      (message_type object_id reference self : ℕ)
      → IsBtp btp
      → (dongle_consumes message_type object_id reference self ≡ true) ↔ (
          (dongle_may_consume message_type object_id ≡ true)
          × (((message_type ≡ btp.control) × (object_id ≡ status_object_id))
              ⊎ ((reference ≡ self) × (self ≢ 0))))
  unfolding dongle_consumes dongle_may_consume
  dongle_consumes_iff message_type object_id reference self ok = ground arith

-- Two ends that meet over a channel expect the same key on it: a robot and the console use the key of the
-- robot, a robot and the dongle the key of the link, on each side, and the console and the dongle none.
pub channels_agree :
    (robot dongle console : ℕ)
    → robot ≢ dongle
    → console ≢ dongle
    → (channel_of_peer robot_vantage console dongle ≡ channel_of_peer console_vantage robot dongle)
      × (channel_of_peer robot_vantage dongle dongle ≡ dongle_channel_of radio true)
      × (channel_of_peer console_vantage dongle dongle ≡ dongle_channel_of cable false)
      × (channel_of_peer robot_vantage console dongle ≡ dongle_channel_of radio false)
unfolding channel_of_peer dongle_channel_of
channels_agree robot dongle console r c = ground arith

-- From a robot's place every frame is sealed, with the link's key exactly when the peer is the dongle.
pub robot_sealed :
    (peer dongle : ℕ)
    → (key_of_channel (channel_of_peer robot_vantage peer dongle) ≢ no_key)
      × ((key_of_channel (channel_of_peer robot_vantage peer dongle) ≡ link_key) ↔ (peer ≡ dongle))
unfolding channel_of_peer key_of_channel
robot_sealed peer dongle = ground arith

pub data FramePriority : Type 0 where
  normal_priority telemetry_priority : FramePriority

abbrev pub is_telemetry : FramePriority → Bool
is_telemetry normal_priority = false
is_telemetry telemetry_priority = true

unfoldable pub admit : FramePriority → ℕ → ℕ → ℕ → Bool
admit priority queue_count queue_depth telemetry_ceiling =
    if leb queue_depth queue_count
    then false
    else if is_telemetry priority && leb telemetry_ceiling queue_count
    then false
    else true

-- A frame is taken exactly when the queue has room and, if it is telemetry, when the queue is below the
-- ceiling as well. So with a ceiling at most the depth, a frame of telemetry is taken only where any
-- other would be, and the places above the ceiling stay for the others.
pub admit_iff :
    (priority : FramePriority) (count depth ceiling : ℕ)
    → ceiling ≤ depth
    → ((admit priority count depth ceiling ≡ true)
        ↔ ((count < depth) × ((priority ≡ normal_priority) ⊎ (count < ceiling))))
      × ((admit telemetry_priority count depth ceiling ≡ true) ↔ (count < ceiling))
unfolding admit
admit_iff normal_priority count depth ceiling le = ground arith
admit_iff telemetry_priority count depth ceiling le = ground arith
