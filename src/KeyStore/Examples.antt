-- ===== src/KeyStore/Examples.antt =====
-- Runs of lib/KeyStore, and its theorems at concrete inputs.
use bally_os.Base.{
  ℕ, ◌+◌, ◌*◌, ◌^◌, ◌≡◌, refl, true, some, List, [], ◌∷◌, codes, replicate, arith, take,
}
use bally_os.KeyStore.Sha256.{
  Sha256, sha256, sha256_update, sha256_finish, sha256_compress, pad_zeros, put, put_all,
}
use bally_os.KeyStore.Hmac.{difference, equal_bytes, padded_key, hmac_sha256, verify_tag_matches}
use bally_os.KeyStore.Verdict.{Verdict, check-Verdict}
use bally_os.KeyStore.Loading.{CardLoads, load_from_card-CardLoads}
use bally_os.KeyStore.Image.{IsComplete, image, parse-image}
use bally_os.KeyStore.{Contents, ok, empty_store, empty_contents, check, parse, load_from_card}

abc_digest : take 4 (sha256_finish (sha256_update sha256 (codes "abc"))) ≡ 186 ∷ 120 ∷ 22 ∷ 191 ∷ []
unfolding sha256 sha256_update sha256_finish sha256_compress pad_zeros put put_all padded_key
    hmac_sha256 difference equal_bytes verify_tag_matches
abc_digest = refl

abbrev two_keys : Contents
two_keys = record {
  iterations = 600000;
  salt = replicate 16 7;
  key_e = 0 ∷ 1 ∷ 2 ∷ 3 ∷ 4 ∷ 5 ∷ 6 ∷ 7 ∷ 8 ∷ 9 ∷ 10 ∷ 11 ∷ 12 ∷ 13 ∷ 14 ∷ 15 ∷ [];
  key_l = 16 ∷ 17 ∷ 18 ∷ 19 ∷ 20 ∷ 21 ∷ 22 ∷ 23 ∷ 24 ∷ 25 ∷ 26 ∷ 27 ∷ 28 ∷ 29 ∷ 30 ∷ 31 ∷ [];
  tag_e = 110 ∷ 73 ∷ 211 ∷ 212 ∷ 202 ∷ 170 ∷ 125 ∷ 250 ∷ [];
  tag_l = 41 ∷ 70 ∷ 52 ∷ 168 ∷ 130 ∷ 106 ∷ 119 ∷ 12 ∷ [];
}

two_keys-IsComplete : IsComplete two_keys
unfolding abc_digest
two_keys-IsComplete = record {
  iterations_lt = omega arith;
  salt_size = refl;
  key_e_size = refl;
  key_l_size = refl;
  tag_e_size = refl;
  tag_l_size = refl;
  matches_e = refl;
  matches_l = refl;
}

-- A sum of a sort: the length and the first octet.
abbrev toy_sum : List ℕ → ℕ
toy_sum [] = 5
toy_sum (x ∷ xs) = x * 2 ^ 8 + 92

abbrev key_file : List ℕ
key_file = image two_keys toy_sum

parse-image_example : parse toy_sum (some key_file) empty_contents ≡ (ok, two_keys)
parse-image_example = parse-image two_keys two_keys-IsComplete toy_sum (omega arith) empty_contents

check-Verdict_example : Verdict toy_sum (3 ∷ key_file) (check toy_sum (3 ∷ key_file))
check-Verdict_example = check-Verdict toy_sum (3 ∷ key_file)

load_from_card-CardLoads_example :
    CardLoads toy_sum true (some key_file) (load_from_card toy_sum empty_store true (some key_file))
load_from_card-CardLoads_example = load_from_card-CardLoads toy_sum empty_store true (some key_file)

abbrev one_octet : Sha256
one_octet = sha256_update sha256 (128 ∷ [])
