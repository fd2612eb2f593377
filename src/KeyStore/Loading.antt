-- ===== src/KeyStore/Loading.antt =====
-- lib/KeyStore, `load` and `load_from_card`: which keys can be reached afterwards.
use bally_os.Base.{
  ℕ, ◌≡◌, refl, ap, sym, ◌∙◌, ◌≢◌, ◌⊎◌, inl, inr, Bool, true, false, Option, none, some, List,
  length, take, take_all, length-take, if◌then◌else◌, arith, subst,
}
use bally_os.KeyStore.{
  Error, ok, Contents, empty_contents, KeyStore, is_ok, check, parse, contents_of, load,
  load_from_card, unload, key_e_of, key_l_of, tag_e_of, tag_l_of, file_size,
}
use bally_os.KeyStore.Verdict.{Verdict, check-Verdict}

-- No key or tag is handed out, and no octet of one is left.
abbrev pub IsEmpty : KeyStore → Type 0
IsEmpty k =
    (k.loaded ≡ false)
    × (k.contents ≡ empty_contents)
    × (key_e_of k ≡ none)
    × (key_l_of k ≡ none)
    × (tag_e_of k ≡ none)
    × (tag_l_of k ≡ none)

-- The keys and tags handed out are those of some contents.
abbrev pub Holds : KeyStore → Contents → Type 0
Holds k c =
    (key_e_of k ≡ some c.key_e)
    × (key_l_of k ≡ some c.key_l)
    × (tag_e_of k ≡ some c.tag_e)
    × (tag_l_of k ≡ some c.tag_l)

module _ (crc32 : List ℕ → ℕ) where
  -- What `load` makes of some octets: a good file's keys, or nothing and the field that was wrong.
  abbrev pub Loads : List ℕ → KeyStore × Bool → Type 0
  Loads bytes (k, done) =
      Verdict crc32 bytes k.last_error
      × (((done ≡ true) × (k.last_error ≡ ok) × Holds k (contents_of bytes))
          ⊎ ((done ≡ false) × (k.last_error ≢ ok) × IsEmpty k))

  -- Whatever keys were held before, `load` gives either the keys and tags of a file in which everything is
  -- right, or no key at all, every octet of the old ones gone, and the first field that was wrong.
  pub load-Loads : (k : KeyStore) (bytes : List ℕ) → Loads bytes (load crc32 k (some bytes))
  unfolding load parse unload key_e_of key_l_of tag_e_of tag_l_of
  load-Loads k bytes = go (check crc32 bytes) (check-Verdict crc32 bytes)
    where
      outcome : Error → KeyStore × Bool
      outcome e =
          if is_ok e
          then (
            record k {
              contents = if is_ok e then contents_of bytes else empty_contents;
              loaded = true;
              last_error = ok;
            },
            true,
          )
          else (record (unload k) { last_error = e }, false)

      failed : (e : Error) → is_ok e ≡ false → Verdict crc32 bytes e → Loads bytes (outcome e)
      failed e bad v =
          let wrong : e ≢ ok = λ x. cc in
          subst
            (λ b. Loads bytes (
              if b
              then (
                record k {
                  contents = if b then contents_of bytes else empty_contents;
                  loaded = true;
                  last_error = ok;
                },
                true,
              )
              else (record (unload k) { last_error = e }, false)))
            (sym bad) (v, inr (refl, wrong, (refl, refl, refl, refl, refl, refl)))

      go : (e : Error) → Verdict crc32 bytes e → Loads bytes (outcome e)
      go ok v = (v, inl (refl, refl, (refl, refl, refl, refl)))
      go e v = failed e refl v

  -- A file on the card, all of it, was loaded; or no key is held.
  abbrev pub CardLoads : Bool → Option (List ℕ) → KeyStore × Bool → Type 0
  CardLoads mounted contents (k, done) =
      ((bytes : List ℕ) × (done ≡ true)
        × (mounted ≡ true)
        × (contents ≡ some bytes)
        × (length bytes ≡ file_size)
        × Verdict crc32 bytes ok
        × Holds k (contents_of bytes))
      ⊎ ((done ≡ false) × IsEmpty k)

  take-length : (bytes : List ℕ) → length (take 97 bytes) ≡ 96 → take 97 bytes ≡ bytes
  take-length bytes e = take_all 97 bytes (omega (arith, length-take 97 bytes, e))

  whole :
      (bytes : List ℕ) (r : KeyStore × Bool)
      → Loads (take 97 bytes) r
      → CardLoads true (some bytes) r
  whole bytes (k, done) (v, inl (yes_done, good, held)) =
      let fine : Verdict crc32 (take 97 bytes) ok = subst (Verdict crc32 (take 97 bytes)) good v in
      let all = take-length bytes fine.0.0.0.0 in
      inl (
        bytes,
        yes_done,
        refl,
        refl,
        ap length (sym all) ∙ fine.0.0.0.0,
        subst (λ x. Verdict crc32 x ok) all fine,
        subst (λ x. Holds k (contents_of x)) all held,
      )
  whole bytes (k, done) (v, inr (not_done, wrong, empty)) = inr (not_done, empty)

  -- `load_from_card` holds keys afterwards only if the card was mounted and its file could be read, was
  -- exactly 96 octets long (a longer one is not cut) and right in every field; in every other case it
  -- returns false, no key is held, and every octet of the old ones is gone.
  pub load_from_card-CardLoads :
      (k : KeyStore) (mounted : Bool) (contents : Option (List ℕ))
      → CardLoads mounted contents (load_from_card crc32 k mounted contents)
  unfolding load_from_card unload key_e_of key_l_of tag_e_of tag_l_of
  load_from_card-CardLoads k false contents = inr (refl, (refl, refl, refl, refl, refl, refl))
  load_from_card-CardLoads k true none = inr (refl, (refl, refl, refl, refl, refl, refl))
  load_from_card-CardLoads k true (some bytes) =
      whole bytes (load crc32 k (some (take 97 bytes))) (load-Loads k (take 97 bytes))
