-- ===== src/KeyStore.antt =====
-- lib/KeyStore: the two keys of the robot, read from a file of 96 octets that is checked field by field.
-- CRC-32 is the BTP library's, a parameter; the SD card is a function that reads the file.
pub mod Sha256
pub mod Streaming
pub mod Hmac
pub mod Verdict
pub mod Loading
pub mod Image
mod Examples
use bally_os.Base.{
  ℕ, ◌+◌, ◌*◌, ◌^◌, Bool, true, false, not, Option, none, some, List, [], ◌∷◌, codes, length, take,
  drop, replicate, ◌==◌, if◌then◌else◌,
}
use Sha256.{octet}
use Hmac.{equal_bytes, verify_tag_matches}

abbrev pub file_size : ℕ
file_size = 96

abbrev pub key_length : ℕ
key_length = 16

abbrev pub salt_length : ℕ
salt_length = 16

abbrev pub verify_length : ℕ
verify_length = 8

abbrev pub magic : List ℕ
magic = 66 ∷ 84 ∷ 80 ∷ 75 ∷ 69 ∷ 89 ∷ 0 ∷ 0 ∷ []

pub data Error : Type 0 where
  ok size magic_error format cipher kdf crc verify_e verify_l file : Error

pub record Contents : Type 0 where
  pub iterations : ℕ
  pub salt : List ℕ
  pub key_e : List ℕ
  pub key_l : List ℕ
  pub tag_e : List ℕ
  pub tag_l : List ℕ

abbrev pub empty_contents : Contents
empty_contents = record {
  iterations = 0;
  salt = replicate salt_length 0;
  key_e = replicate key_length 0;
  key_l = replicate key_length 0;
  tag_e = replicate verify_length 0;
  tag_l = replicate verify_length 0;
}

unfoldable pub read_u32_le : List ℕ → ℕ → ℕ
read_u32_le bytes at =
    octet bytes at
    + octet bytes (at + 1) * 2 ^ 8
    + octet bytes (at + 2) * 2 ^ 16
    + octet bytes (at + 3) * 2 ^ 24

-- Some octets from an offset on.
abbrev pub field : List ℕ → ℕ → ℕ → List ℕ
field bytes offset count = take count (drop offset bytes)

abbrev pub label_e : List ℕ
label_e = codes "bally-canal-b"

abbrev pub label_l : List ℕ
label_l = codes "bally-canal-c"

-- The loop over the magic octets.
unfoldable pub same_prefix : List ℕ → List ℕ → Bool
same_prefix (d ∷ bytes) (m ∷ ms) = if d == m then same_prefix bytes ms else false
same_prefix bytes [] = true
same_prefix [] (m ∷ ms) = false

unfoldable pub tag_matches_e : List ℕ → Bool
tag_matches_e bytes =
    verify_tag_matches (field bytes 32 key_length) label_e (field bytes 64 verify_length)
      verify_length

unfoldable pub tag_matches_l : List ℕ → Bool
tag_matches_l bytes =
    verify_tag_matches (field bytes 48 key_length) label_l (field bytes 72 verify_length)
      verify_length

-- What a good file holds.
unfoldable pub contents_of : List ℕ → Contents
unfolding read_u32_le
contents_of bytes = record {
  iterations = read_u32_le bytes 12;
  salt = field bytes 16 salt_length;
  key_e = field bytes 32 key_length;
  key_l = field bytes 48 key_length;
  tag_e = field bytes 64 verify_length;
  tag_l = field bytes 72 verify_length;
}

abbrev pub is_ok : Error → Bool
is_ok ok = true
is_ok e = false

module _ (crc32 : List ℕ → ℕ) where
  -- The checks of `parse`, in their order.
  unfoldable pub check : List ℕ → Error
  unfolding same_prefix tag_matches_e tag_matches_l read_u32_le
  check bytes =
      if not (length bytes == file_size)
      then size
      else if not (same_prefix bytes magic)
      then magic_error
      else if not (octet bytes 8 == 2)
      then format
      else if not (octet bytes 9 == 0)
      then cipher
      else if not (octet bytes 10 == 1)
      then kdf
      else if not (crc32 (take 92 bytes) == read_u32_le bytes 92)
      then crc
      else if not (tag_matches_e bytes)
      then verify_e
      else if not (tag_matches_l bytes)
      then verify_l
      else ok

  -- The bytes may be null. What `out` points to is written only on success.
  unfoldable pub parse : Option (List ℕ) → Contents → Error × Contents
  unfolding check contents_of
  parse none out = (size, out)
  parse (some bytes) out = (check bytes, if is_ok (check bytes) then contents_of bytes else out)

pub record KeyStore : Type 0 where
  pub contents : Contents
  pub loaded : Bool
  pub last_error : Error

abbrev pub empty_store : KeyStore
empty_store = record { contents = empty_contents; loaded = false; last_error = ok }

unfoldable pub unload : KeyStore → KeyStore
unload k = record k { contents = empty_contents; loaded = false }

unfoldable pub key_e_of : KeyStore → Option (List ℕ)
key_e_of k = if k.loaded then some k.contents.key_e else none

unfoldable pub key_l_of : KeyStore → Option (List ℕ)
key_l_of k = if k.loaded then some k.contents.key_l else none

unfoldable pub tag_e_of : KeyStore → Option (List ℕ)
tag_e_of k = if k.loaded then some k.contents.tag_e else none

unfoldable pub tag_l_of : KeyStore → Option (List ℕ)
tag_l_of k = if k.loaded then some k.contents.tag_l else none

module _ (crc32 : List ℕ → ℕ) where
  unfoldable pub load : KeyStore → Option (List ℕ) → KeyStore × Bool
  unfolding parse unload
  load k bytes =
      let (error, parsed) = parse crc32 bytes empty_contents in
      if is_ok error
      then (record k { contents = parsed; loaded = true; last_error = ok }, true)
      else (record (unload k) { last_error = error }, false)

  -- The card is mounted or not; a read of up to 97 octets gives the file's first ones, or fails.
  unfoldable pub load_from_card : KeyStore → Bool → Option (List ℕ) → KeyStore × Bool
  unfolding load
  load_from_card k mounted contents =
      if mounted
      then elim contents [
        | none ↦ (record (unload k) { last_error = file }, false)
        | some bytes ↦ load k (some (take (file_size + 1) bytes))
      ]
      else (record (unload k) { last_error = file }, false)
