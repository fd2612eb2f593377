-- ===== src/KeyStore/Verdict.antt =====
-- lib/KeyStore, `parse`: which field rejects a file.
use bally_os.Base.{
  ℕ, ◌≡◌, refl, ◌≢◌, ◌↔◌, Bool, true, false, List, [], ◌∷◌, length, take, ◌==◌, ==_iff, arith,
  Bool-cases, inl, inr,
}
use bally_os.KeyStore.Sha256.{octet}
use bally_os.KeyStore.{
  Error, ok, size, magic_error, format, cipher, kdf, crc, verify_e, verify_l, file, magic,
  file_size, same_prefix, read_u32_le, tag_matches_e, tag_matches_l, check,
}

same_prefix_iff :
    (bytes ms : List ℕ) → (same_prefix bytes ms ≡ true) ↔ (take (length ms) bytes ≡ ms)
unfolding same_prefix
same_prefix_iff (d ∷ bytes) (m ∷ ms) = ground (arith, same_prefix_iff bytes ms)
same_prefix_iff (d ∷ bytes) [] = ground arith
same_prefix_iff [] [] = ground arith
same_prefix_iff [] (m ∷ ms) = ground arith

no : {b : Bool} → b ≡ false → b ≡ true → ⊥
no e f = cc

module _ (crc32 : List ℕ → ℕ) (bytes : List ℕ) where
  -- The first eight octets are the magic of a file of the right size.
  abbrev pub HasMagic : Type 0
  HasMagic = (length bytes ≡ file_size) × (take 8 bytes ≡ magic)

  -- The fields up to the derivation of the keys are those that the robot knows.
  abbrev pub HasHeader : Type 0
  HasHeader = HasMagic × (octet bytes 8 ≡ 2) × (octet bytes 9 ≡ 0) × (octet bytes 10 ≡ 1)

  -- The sum covers the 92 octets before it.
  abbrev pub IsIntact : Type 0
  IsIntact = HasHeader × (crc32 (take 92 bytes) ≡ read_u32_le bytes 92)

  -- What each answer of `parse` says of the file.
  abbrev pub Verdict : Error → Type 0
  Verdict ok = IsIntact × (tag_matches_e bytes ≡ true) × (tag_matches_l bytes ≡ true)
  Verdict size = length bytes ≢ file_size
  Verdict magic_error = (length bytes ≡ file_size) × (take 8 bytes ≢ magic)
  Verdict format = HasMagic × (octet bytes 8 ≢ 2)
  Verdict cipher = HasMagic × (octet bytes 8 ≡ 2) × (octet bytes 9 ≢ 0)
  Verdict kdf = HasMagic × (octet bytes 8 ≡ 2) × (octet bytes 9 ≡ 0) × (octet bytes 10 ≢ 1)
  Verdict crc = HasHeader × (crc32 (take 92 bytes) ≢ read_u32_le bytes 92)
  Verdict verify_e = IsIntact × (tag_matches_e bytes ≡ false)
  Verdict verify_l = IsIntact × (tag_matches_e bytes ≡ true) × (tag_matches_l bytes ≡ false)
  Verdict file = ⊥

  -- The answer of `parse` names the first thing that is wrong with a file, in the order of the layout (size,
  -- magic, format, cipher, derivation, sum, tag of key E, tag of key L): everything before that field is
  -- right. So a damaged file is never reported as a wrong password, and a file is good only if all is
  -- right.
  pub check-Verdict : Verdict (check crc32 bytes)
  unfolding check
  check-Verdict = elim (Bool-cases (length bytes == 96)) [
    | inr e ↦ rw (e, check) (λ x. no e ((==_iff (length bytes) 96).1 x))
    | inl e0 ↦
        let sized = (==_iff (length bytes) 96).0 e0 in
        rw (e0, check)
          (elim (Bool-cases (same_prefix bytes magic)) [
            | inr e ↦ rw (e, check) ((sized, λ x. no e ((same_prefix_iff bytes magic).1 x)))
            | inl e1 ↦
                let named = (same_prefix_iff bytes magic).0 e1 in
                rw (e1, check)
                  (elim (Bool-cases (octet bytes 8 == 2)) [
                    | inr e ↦
                        rw (e, check) (((sized, named), λ x. no e ((==_iff (octet bytes 8) 2).1 x)))
                    | inl e2 ↦
                        let eight = (==_iff (octet bytes 8) 2).0 e2 in
                        rw (e2, check)
                          (elim (Bool-cases (octet bytes 9 == 0)) [
                            | inr e ↦
                                rw (e, check)
                                  ((
                                    (sized, named),
                                    eight,
                                    λ x. no e ((==_iff (octet bytes 9) 0).1 x),
                                  ))
                            | inl e3 ↦
                                let nine = (==_iff (octet bytes 9) 0).0 e3 in
                                rw (e3, check)
                                  (elim (Bool-cases (octet bytes 10 == 1)) [
                                    | inr e ↦
                                        rw (e, check)
                                          ((
                                            (sized, named),
                                            eight,
                                            nine,
                                            λ x. no e ((==_iff (octet bytes 10) 1).1 x),
                                          ))
                                    | inl e4 ↦
                                        let ten = (==_iff (octet bytes 10) 1).0 e4 in
                                        rw (e4, check)
                                          (elim (Bool-cases
                                            (crc32 (take 92 bytes) == read_u32_le bytes 92)) [
                                              | inr e ↦
                                                  rw (e, check)
                                                    ((
                                                      ((sized, named), eight, nine, ten),
                                                      λ x. no e (
                                                          (==_iff (crc32 (take 92 bytes))
                                                            (read_u32_le bytes 92)).1
                                                            x),
                                                    ))
                                              | inl e5 ↦
                                                  let summed =
                                                    (==_iff (crc32 (take 92 bytes))
                                                        (read_u32_le bytes 92)).0
                                                      e5 in
                                                  rw (e5, check)
                                                    (elim (Bool-cases (tag_matches_e bytes)) [
                                                      | inr e ↦
                                                          rw (e, check)
                                                            (
                                                            (
                                                            ((sized, named), eight, nine, ten),
                                                            summed,
                                                            ),
                                                            e,
                                                            )
                                                      | inl e6 ↦
                                                          rw (e6, check)
                                                            (elim (Bool-cases
                                                            (tag_matches_l bytes)) [
                                                              | inr e ↦
                                                                rw (e, check)
                                                                (
                                                                (
                                                                ((sized, named), eight, nine, ten),
                                                                summed,
                                                                ),
                                                                e6,
                                                                e,
                                                                )
                                                              | inl e ↦
                                                                rw (e, check)
                                                                (
                                                                (
                                                                ((sized, named), eight, nine, ten),
                                                                summed,
                                                                ),
                                                                e6,
                                                                e,
                                                                )
                                                            ])
                                                    ])
                                            ])
                                  ])
                          ])
                  ])
          ])
  ]

-- Only one answer fits a good file.
pub Verdict-check :
    (crc32 : List ℕ → ℕ) (bytes : List ℕ) → Verdict crc32 bytes ok → check crc32 bytes ≡ ok
Verdict-check crc32 bytes ((((len, mag), eight, nine, ten), sum), te, tl) =
    go (check crc32 bytes) (check-Verdict crc32 bytes)
  where
    go : (e : Error) → Verdict crc32 bytes e → e ≡ ok
    go ok v = refl
    go size bad = absurd (bad len)
    go magic_error (_, bad) = absurd (bad mag)
    go format (_, bad) = absurd (bad eight)
    go cipher (_, _, bad) = absurd (bad nine)
    go kdf (_, _, _, bad) = absurd (bad ten)
    go crc (_, bad) = absurd (bad sum)
    go verify_e (_, bad) = absurd (no bad te)
    go verify_l (_, _, bad) = absurd (no bad tl)
    go file v = absurd v
