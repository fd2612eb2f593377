-- ===== src/KeyStore/Streaming.antt =====
-- lib/KeyStore/KeyStore.cpp, `sha256_update` and the padding: the block is never overrun, and it does not
-- matter how a message is cut.
use bally_os.Base.{
  ℕ, zero, suc, ◌+◌, ◌-◌, ◌%◌, ◌<◌, ◌≡◌, refl, ap, sym, ◌∙◌, List, [], ◌∷◌, ◌++◌, length,
  length-set, length-append, u64, ◌==◌, arith, Bool-cases, inl, inr,
}
use bally_os.KeyStore.Sha256.{
  Sha256, sha256, sha256_compress, put, put_all, sha256_update, pad_zeros, block_size,
}

-- The block has its size, and the next octet has a place in it.
pub record ShaOk (sha : Sha256) : Type 0 where
  pub size : length sha.block ≡ block_size
  pub room : sha.pending < block_size

pub sha256-ShaOk : ShaOk sha256
unfolding sha256
sha256-ShaOk = record { size = refl; room = omega arith }

put-ShaOk : (sha : Sha256) (x : ℕ) → ShaOk sha → ShaOk (put sha x)
unfolding put sha256_compress
put-ShaOk sha x o = elim (Bool-cases (sha.pending + 1 == block_size)) [
  | inl e ↦ rw e (record { size = length-set sha.block sha.pending x ∙ o.size; room = omega arith })
  | inr e ↦
      rw e (record {
        size = length-set sha.block sha.pending x ∙ o.size;
        room = ground (arith, o.room);
      })
]

put_all-ShaOk : (sha : Sha256) (xs : List ℕ) → ShaOk sha → ShaOk (put_all sha xs)
unfolding put_all
put_all-ShaOk sha [] o = o
put_all-ShaOk sha (x ∷ xs) o = put_all-ShaOk (put sha x) xs (put-ShaOk sha x o)

pub sha256_update-ShaOk : (sha : Sha256) (xs : List ℕ) → ShaOk sha → ShaOk (sha256_update sha xs)
unfolding sha256_update
sha256_update-ShaOk sha xs o =
    put_all-ShaOk (record sha { total = u64 (sha.total + length xs) }) xs
      (record { size = o.size; room = o.room })

abbrev retotal : ℕ → Sha256 → Sha256
retotal n sha = record sha { total = n }

put-retotal : (sha : Sha256) (x n : ℕ) → put (retotal n sha) x ≡ retotal n (put sha x)
unfolding put sha256_compress
put-retotal sha x n = elim (Bool-cases (sha.pending + 1 == block_size)) [
  | inl e ↦ rw e refl
  | inr e ↦ rw e refl
]

put_all-retotal :
    (sha : Sha256) (xs : List ℕ) (n : ℕ) → put_all (retotal n sha) xs ≡ retotal n (put_all sha xs)
unfolding put_all
put_all-retotal sha [] n = refl
put_all-retotal sha (x ∷ xs) n =
    ap (λ s. put_all s xs) (put-retotal sha x n) ∙ put_all-retotal (put sha x) xs n

put_all-append :
    (sha : Sha256) (xs ys : List ℕ) → put_all sha (xs ++ ys) ≡ put_all (put_all sha xs) ys
unfolding put_all
put_all-append sha [] ys = refl
put_all-append sha (x ∷ xs) ys = put_all-append (put sha x) xs ys

put_all-total : (sha : Sha256) (xs : List ℕ) → (put_all sha xs).total ≡ sha.total
unfolding put_all put sha256_compress
put_all-total sha [] = refl
put_all-total sha (x ∷ xs) =
    put_all-total (put sha x) xs
    ∙ elim (Bool-cases (sha.pending + 1 == block_size)) [ inl e ↦ rw e refl | inr e ↦ rw e refl ]

-- A message may be given to `sha256_update` in pieces: the state after two pieces is the state after both
-- at once, the length included.
pub sha256_update-append :
    (sha : Sha256) (xs ys : List ℕ)
    → sha256_update (sha256_update sha xs) ys ≡ sha256_update sha (xs ++ ys)
unfolding sha256_update
sha256_update-append sha xs ys =
    let first = u64 (sha.total + length xs) in
    let both = u64 (sha.total + length (xs ++ ys)) in
    let counted : u64 ((put_all (retotal first sha) xs).total + length ys) ≡ both =
      ap (λ n. u64 (n + length ys)) (put_all-total (retotal first sha) xs)
      ∙ omega (arith, length-append xs ys) in
    ap (λ n. put_all (retotal n (put_all (retotal first sha) xs)) ys) counted
    ∙ ap (λ s. put_all (retotal both s) ys) (put_all-retotal sha xs first)
    ∙ ap (λ s. put_all s ys) (sym (put_all-retotal sha xs both))
    ∙ sym (put_all-append (retotal both sha) xs ys)

-- How many zeros are missing.
abbrev gap : ℕ → ℕ
gap pending = (block_size + 56 - pending) % block_size

put-pending :
    (sha : Sha256) (x : ℕ) → ShaOk sha → (put sha x).pending ≡ (sha.pending + 1) % block_size
unfolding put sha256_compress
put-pending sha x o = elim (Bool-cases (sha.pending + 1 == block_size)) [
  | inl e ↦ rw e (ground arith)
  | inr e ↦ rw e (ground (arith, o.room))
]

update_one :
    (sha : Sha256)
    → ShaOk sha
    → (sha256_update sha (0 ∷ [])).pending ≡ (sha.pending + 1) % block_size
unfolding sha256_update put_all
update_one sha o =
    put-pending (record sha { total = u64 (sha.total + 1) }) 0
      (record { size = o.size; room = o.room })

pad_zeros-pending :
    (fuel : ℕ) (sha : Sha256)
    → ShaOk sha
    → gap sha.pending < fuel
    → (pad_zeros fuel sha).pending ≡ 56
unfolding pad_zeros
pad_zeros-pending zero sha o lt = absurd (omega arith)
pad_zeros-pending (suc fuel) sha o lt = elim (Bool-cases (sha.pending == block_size - 8)) [
  | inl e ↦ rw e (ground arith)
  | inr e ↦
      let sha' = sha256_update sha (0 ∷ []) in
      let next = update_one sha o in
      let off : (sha.pending ≡ 56) → ⊥ = ground arith in
      rw e (
        pad_zeros-pending fuel sha' (sha256_update-ShaOk sha (0 ∷ []) o)
          (omega (arith, o.room, next, off)))
]

pad_zeros-ShaOk : (fuel : ℕ) (sha : Sha256) → ShaOk sha → ShaOk (pad_zeros fuel sha)
unfolding pad_zeros
pad_zeros-ShaOk zero sha o = o
pad_zeros-ShaOk (suc fuel) sha o = elim (Bool-cases (sha.pending == block_size - 8)) [
  | inl e ↦ rw e o
  | inr e ↦
      rw e (pad_zeros-ShaOk fuel (sha256_update sha (0 ∷ [])) (sha256_update-ShaOk sha (0 ∷ []) o))
]

-- The padding loop of `sha256_finish` ends within 64 rounds: from any state in which the next octet has a
-- place in the block, the block is then filled up to the eight octets of the length.
pub pad_zeros_total :
    (sha : Sha256)
    → ShaOk sha
    → ((pad_zeros block_size sha).pending ≡ 56) × ShaOk (pad_zeros block_size sha)
pad_zeros_total sha o =
    (pad_zeros-pending block_size sha o (omega (arith, o.room)), pad_zeros-ShaOk block_size sha o)
