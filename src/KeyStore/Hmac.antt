-- ===== src/KeyStore/Hmac.antt =====
-- lib/KeyStore/KeyStore.cpp: HMAC-SHA256, and the tags of the keys.
use Prim.Native.Nat.{bit_or, bit_xor}
use bally_os.Base.{
  ℕ, zero, suc, ◌+◌, ◌-◌, Bool, List, ◌++◌, length, replicate, ltb, ◌==◌, if◌then◌else◌, map,
}
use bally_os.KeyStore.Sha256.{sha256, sha256_update, sha256_finish, digest_size, block_size, octet}

-- `diff` after the loop of `equal_bytes`, for `left` octets from number `i` on.
unfoldable pub difference : List ℕ → List ℕ → ℕ → ℕ → ℕ → ℕ
difference xs ys i diff zero = diff
difference xs ys i diff (suc left) =
    difference xs ys (i + 1) (bit_or diff (bit_xor (octet xs i) (octet ys i))) left

unfoldable pub equal_bytes : List ℕ → List ℕ → ℕ → Bool
unfolding difference
equal_bytes xs ys size = difference xs ys 0 0 size == 0

-- The key in a block of its own, filled up with zeros.
unfoldable pub padded_key : List ℕ → List ℕ
padded_key key =
    if ltb block_size (length key)
    then sha256_finish (sha256_update sha256 key) ++ replicate (block_size - digest_size) 0
    else key ++ replicate (block_size - length key) 0

abbrev pub pad_with : ℕ → List ℕ → List ℕ
pad_with octet key = map (λ x. bit_xor x octet) key

-- The buffers are wiped at the end, which no caller sees.
unfoldable pub hmac_sha256 : List ℕ → List ℕ → List ℕ
unfolding padded_key
hmac_sha256 key message =
    let inner =
      sha256_finish (sha256_update (sha256_update sha256 (pad_with 54 (padded_key key))) message) in
    sha256_finish (sha256_update (sha256_update sha256 (pad_with 92 (padded_key key))) inner)

unfoldable pub verify_tag_matches : List ℕ → List ℕ → List ℕ → ℕ → Bool
unfolding hmac_sha256 equal_bytes
verify_tag_matches key label expected expected_size =
    equal_bytes (hmac_sha256 key label) expected expected_size
