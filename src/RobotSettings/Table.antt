-- ===== src/RobotSettings/Table.antt =====
-- lib/RobotSettings: the settings, their table and their compiled-in values.
use bally_os.Base.{ℕ, List, [], ◌∷◌, codes}

-- `enum class SettingType`: U32, U8, FLOAT, PIN and STRING
pub data SettingType : Type 0 where
  whole32 whole8 real pin string : SettingType

-- One row: `offset` is the number of the field in `SettingsData`, and `size` its octets.
pub record SettingEntry : Type 0 where
  pub module_name : List ℕ
  pub key : List ℕ
  pub type : SettingType
  pub offset : ℕ
  pub size : ℕ

-- What a field holds: the pattern of bits of a number, or the text of a buffer up to its 0.
pub data Value : Type 0 where
  number : ℕ → Value
  text : List ℕ → Value

-- The fields of `SettingsData` in order.
abbrev pub SettingsData : Type 0
SettingsData = List Value

-- `SettingsData {}`. A `float` is its pattern in IEEE 754.
unfoldable pub default_settings : SettingsData
default_settings =
    text (codes "")
    ∷ text (codes "")
    ∷ number 1000
    ∷ number 250
    ∷ text (codes "BRT3")
    ∷ number 8
    ∷ number 30
    ∷ number 100
    ∷ number 0x3dcccccd
    ∷ number 0x3dcccccd
    ∷ number 0x38d1b717
    ∷ number 0x3dcccccd
    ∷ number 0x3f000000
    ∷ number 0x3f000000
    ∷ number 0x3a83126f
    ∷ number 0x428c0000
    ∷ number 0x3d051eb8
    ∷ number 100
    ∷ number 10
    ∷ number 16
    ∷ number 45
    ∷ number 46
    ∷ number 43
    ∷ number 44
    ∷ number 21
    ∷ number 47
    ∷ number 3
    ∷ number 9
    ∷ number 14
    ∷ number 8
    ∷ number 41
    ∷ number 42
    ∷ number 39
    ∷ number 40
    ∷ number 0
    ∷ number 4
    ∷ number 5
    ∷ number 1
    ∷ number 48
    ∷ number 38
    ∷ number 12
    ∷ number 11
    ∷ number 10
    ∷ number 13
    ∷ number 18
    ∷ number 17
    ∷ number 150
    ∷ number 200
    ∷ number 800
    ∷ number 10000
    ∷ number 5000
    ∷ number 11
    ∷ text (codes "ballyrobot")
    ∷ text (codes "BallyRobot OTA")
    ∷ text (codes "657585")
    ∷ number 0
    ∷ number 250
    ∷ []

abbrev pub entry : List ℕ → List ℕ → SettingType → ℕ → ℕ → SettingEntry
entry m k t o s = record { module_name = m; key = k; type = t; offset = o; size = s }

-- `kTable`
unfoldable pub table : List SettingEntry
table =
    entry (codes "identity") (codes "name") string 0 32
    ∷ entry (codes "identity") (codes "description") string 1 64
    ∷ entry (codes "timers") (codes "sample_micros") whole32 2 4
    ∷ entry (codes "timers") (codes "delay_flags") whole32 3 4
    ∷ entry (codes "timers") (codes "timezone") string 4 16
    ∷ entry (codes "sensor") (codes "len_sensor") whole8 5 1
    ∷ entry (codes "sensor") (codes "samples") whole8 6 1
    ∷ entry (codes "sensor") (codes "delay_sample") whole8 7 1
    ∷ entry (codes "ekf_noise") (codes "v_noise") real 8 4
    ∷ entry (codes "ekf_noise") (codes "w_noise") real 9 4
    ∷ entry (codes "ekf_noise") (codes "b_noise") real 10 4
    ∷ entry (codes "ekf_noise") (codes "initial_p") real 11 4
    ∷ entry (codes "ekf_noise") (codes "enc_noise") real 12 4
    ∷ entry (codes "ekf_noise") (codes "accel_noise") real 13 4
    ∷ entry (codes "ekf_noise") (codes "gyro_noise") real 14 4
    ∷ entry (codes "kinematics") (codes "encoder_ppr") real 15 4
    ∷ entry (codes "kinematics") (codes "wheel_radius") real 16 4
    ∷ entry (codes "logger") (codes "logger_mutex_timeout_ms") whole32 17 4
    ∷ entry (codes "logger") (codes "max_chunks_per_flush") whole32 18 4
    ∷ entry (codes "logger") (codes "block_size") whole32 19 4
    ∷ entry (codes "pins_led") (codes "led0") pin 20 4
    ∷ entry (codes "pins_led") (codes "led1") pin 21 4
    ∷ entry (codes "pins_led") (codes "led2") pin 22 4
    ∷ entry (codes "pins_led") (codes "led3") pin 23 4
    ∷ entry (codes "pins_hbridge") (codes "ain1") pin 24 4
    ∷ entry (codes "pins_hbridge") (codes "ain2") pin 25 4
    ∷ entry (codes "pins_hbridge") (codes "bin1") pin 26 4
    ∷ entry (codes "pins_hbridge") (codes "bin2") pin 27 4
    ∷ entry (codes "pins_hbridge") (codes "current_a") pin 28 4
    ∷ entry (codes "pins_hbridge") (codes "current_b") pin 29 4
    ∷ entry (codes "pins_encoder") (codes "enc_a0") pin 30 4
    ∷ entry (codes "pins_encoder") (codes "enc_a1") pin 31 4
    ∷ entry (codes "pins_encoder") (codes "enc_b0") pin 32 4
    ∷ entry (codes "pins_encoder") (codes "enc_b1") pin 33 4
    ∷ entry (codes "pins_button") (codes "btn0") pin 34 4
    ∷ entry (codes "pins_button") (codes "btn1") pin 35 4
    ∷ entry (codes "pins_button") (codes "btn2") pin 36 4
    ∷ entry (codes "pins_side_sensor") (codes "left") pin 37 4
    ∷ entry (codes "pins_side_sensor") (codes "right") pin 38 4
    ∷ entry (codes "pins_buzzer") (codes "bzr") pin 39 4
    ∷ entry (codes "pins_mux") (codes "s0") pin 40 4
    ∷ entry (codes "pins_mux") (codes "s1") pin 41 4
    ∷ entry (codes "pins_mux") (codes "s2") pin 42 4
    ∷ entry (codes "pins_mux") (codes "sig") pin 43 4
    ∷ entry (codes "pins_i2c") (codes "sda_pin") pin 44 4
    ∷ entry (codes "pins_i2c") (codes "scl_pin") pin 45 4
    ∷ entry (codes "ota") (codes "ota_led_step_ms") whole32 46 4
    ∷ entry (codes "ota") (codes "ota_led_hold_ms") whole32 47 4
    ∷ entry (codes "ota") (codes "ota_led_fail_hold_ms") whole32 48 4
    ∷ entry (codes "ota") (codes "ota_connect_timeout_ms") whole32 49 4
    ∷ entry (codes "ota") (codes "ota_retry_scan_ms") whole32 50 4
    ∷ entry (codes "ota") (codes "espnow_channel") whole8 51 1
    ∷ entry (codes "ota") (codes "ota_hostname") string 52 33
    ∷ entry (codes "ota") (codes "ota_instance_name") string 53 33
    ∷ entry (codes "ota") (codes "ota_password") string 54 33
    ∷ entry (codes "comm") (codes "comm_mode") whole8 55 1
    ∷ entry (codes "error") (codes "error_blink_ms") whole32 56 4
    ∷ []
