-- ===== src/KeyStore/Sha256.antt =====
-- lib/KeyStore/KeyStore.cpp: SHA-256. Words are 32 bits wide, octets 8.
use Prim.Native.Nat.{bit_and, bit_or, bit_xor}
use bally_os.Base.{
  ℕ, zero, suc, ◌+◌, ◌-◌, ◌*◌, ◌/◌, ◌^◌, List, [], ◌∷◌, ◌++◌, length, get_or, set, replicate, u8,
  u32, u64, ◌==◌, if◌then◌else◌,
}

abbrev pub digest_size : ℕ
digest_size = 32

abbrev pub block_size : ℕ
block_size = 64

abbrev round_constants : List ℕ
round_constants =
    1116352408 ∷ 1899447441 ∷ 3049323471 ∷ 3921009573 ∷ 961987163 ∷ 1508970993 ∷ 2453635748
    ∷ 2870763221 ∷ 3624381080 ∷ 310598401 ∷ 607225278 ∷ 1426881987 ∷ 1925078388 ∷ 2162078206
    ∷ 2614888103 ∷ 3248222580 ∷ 3835390401 ∷ 4022224774 ∷ 264347078 ∷ 604807628 ∷ 770255983
    ∷ 1249150122 ∷ 1555081692 ∷ 1996064986 ∷ 2554220882 ∷ 2821834349 ∷ 2952996808 ∷ 3210313671
    ∷ 3336571891 ∷ 3584528711 ∷ 113926993 ∷ 338241895 ∷ 666307205 ∷ 773529912 ∷ 1294757372
    ∷ 1396182291 ∷ 1695183700 ∷ 1986661051 ∷ 2177026350 ∷ 2456956037 ∷ 2730485921 ∷ 2820302411
    ∷ 3259730800 ∷ 3345764771 ∷ 3516065817 ∷ 3600352804 ∷ 4094571909 ∷ 275423344 ∷ 430227734
    ∷ 506948616 ∷ 659060556 ∷ 883997877 ∷ 958139571 ∷ 1322822218 ∷ 1537002063 ∷ 1747873779
    ∷ 1955562222 ∷ 2024104815 ∷ 2227730452 ∷ 2361852424 ∷ 2428436474 ∷ 2756734187 ∷ 3204031479
    ∷ 3329325298 ∷ []

abbrev initial_state : List ℕ
initial_state =
    1779033703 ∷ 3144134277 ∷ 1013904242 ∷ 2773480762 ∷ 1359893119 ∷ 2600822924 ∷ 528734635
    ∷ 1541459225 ∷ []

unfoldable rotate_right : ℕ → ℕ → ℕ
rotate_right value bits = bit_or (value / 2 ^ bits) (u32 (value * 2 ^ (32 - bits)))

pub record Sha256 : Type 0 where
  pub state : List ℕ
  pub block : List ℕ
  pub pending : ℕ
  pub total : ℕ

unfoldable pub sha256 : Sha256
sha256 = record { state = initial_state; block = replicate block_size 0; pending = 0; total = 0 }

abbrev pub octet : List ℕ → ℕ → ℕ
octet bytes i = get_or bytes i 0

-- The first 16 words of the schedule: `left` words of the block from word `i` on.
unfoldable block_words : List ℕ → ℕ → ℕ → List ℕ
block_words block i zero = []
block_words block i (suc left) =
    (octet block (i * 4) * 2 ^ 24
      + octet block (i * 4 + 1) * 2 ^ 16
      + octet block (i * 4 + 2) * 2 ^ 8
      + octet block (i * 4 + 3))
    ∷ block_words block (i + 1) left

-- The other words: `left` more from word `i` on.
unfoldable extend_words : List ℕ → ℕ → ℕ → List ℕ
unfolding rotate_right
extend_words w i zero = w
extend_words w i (suc left) =
    let x = octet w (i - 15) in
    let y = octet w (i - 2) in
    let s0 = bit_xor (bit_xor (rotate_right x 7) (rotate_right x 18)) (x / 2 ^ 3) in
    let s1 = bit_xor (bit_xor (rotate_right y 17) (rotate_right y 19)) (y / 2 ^ 10) in
    extend_words (w ++ (u32 (octet w (i - 16) + s0 + octet w (i - 7) + s1) ∷ [])) (i + 1) left

-- One round over the variables `a` to `h`.
unfoldable round : List ℕ → ℕ → ℕ → List ℕ
unfolding rotate_right
round (a ∷ b ∷ c ∷ d ∷ e ∷ f ∷ g ∷ h ∷ []) k w =
    let sigma1 = bit_xor (bit_xor (rotate_right e 6) (rotate_right e 11)) (rotate_right e 25) in
    let choose = bit_xor (bit_and e f) (bit_and (2 ^ 32 - 1 - e) g) in
    let t1 = u32 (h + sigma1 + choose + k + w) in
    let sigma0 = bit_xor (bit_xor (rotate_right a 2) (rotate_right a 13)) (rotate_right a 22) in
    let majority = bit_xor (bit_xor (bit_and a b) (bit_and a c)) (bit_and b c) in
    let t2 = u32 (sigma0 + majority) in u32 (t1 + t2) ∷ a ∷ b ∷ c ∷ u32 (d + t1) ∷ e ∷ f ∷ g ∷ []
round other k w = other

unfoldable rounds : List ℕ → List ℕ → List ℕ → List ℕ
unfolding round
rounds vars (k ∷ ks) (w ∷ ws) = rounds (round vars k w) ks ws
rounds vars ks ws = vars

unfoldable add_words : List ℕ → List ℕ → List ℕ
add_words (x ∷ xs) (y ∷ ys) = u32 (x + y) ∷ add_words xs ys
add_words xs ys = xs

unfoldable pub sha256_compress : Sha256 → Sha256
unfolding block_words extend_words rounds add_words
sha256_compress sha = record sha {
  state =
      add_words sha.state
        (rounds sha.state round_constants (extend_words (block_words sha.block 0 16) 16 48));
}

-- One octet into the block.
unfoldable pub put : Sha256 → ℕ → Sha256
put sha octet =
    let sha' = record sha { block = set sha.block sha.pending octet; pending = sha.pending + 1 } in
    if sha'.pending == block_size then record (sha256_compress sha') { pending = 0 } else sha'

unfoldable pub put_all : Sha256 → List ℕ → Sha256
unfolding put
put_all sha [] = sha
put_all sha (x ∷ xs) = put_all (put sha x) xs

unfoldable pub sha256_update : Sha256 → List ℕ → Sha256
unfolding put_all
sha256_update sha bytes = put_all (record sha { total = u64 (sha.total + length bytes) }) bytes

-- The padding loop of `sha256_finish`, with fuel for its rounds.
unfoldable pub pad_zeros : ℕ → Sha256 → Sha256
unfolding sha256_update
pad_zeros zero sha = sha
pad_zeros (suc fuel) sha =
    let more = pad_zeros fuel (sha256_update sha (0 ∷ [])) in
    if sha.pending == block_size - 8 then sha else more

-- The length in bits, in the last eight octets: `left` of them from number `i` on.
unfoldable put_length : List ℕ → ℕ → ℕ → ℕ → List ℕ
put_length block bits i zero = block
put_length block bits i (suc left) =
    put_length (set block (block_size - 8 + i) (u8 (bits / 2 ^ (56 - 8 * i)))) bits (i + 1) left

abbrev octets_of : List ℕ → List ℕ
octets_of [] = []
octets_of (w ∷ ws) = u8 (w / 2 ^ 24) ∷ u8 (w / 2 ^ 16) ∷ u8 (w / 2 ^ 8) ∷ u8 w ∷ octets_of ws

unfoldable pub sha256_finish : Sha256 → List ℕ
unfolding pad_zeros put_length
sha256_finish sha =
    let bits = u64 (sha.total * 8) in
    let padded = pad_zeros block_size (sha256_update sha (128 ∷ [])) in
    octets_of (sha256_compress (record padded { block = put_length padded.block bits 0 8 })).state
