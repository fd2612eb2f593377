-- ===== src/KeyStore/Image.antt =====
-- The layout of the key file, as lib/KeyStore/KeyStore.h documents it, and `parse` on it.
use bally_os.Base.{
  ℕ, zero, suc, ◌+◌, ◌*◌, ◌/◌, ◌^◌, ◌<◌, ◌≡◌, refl, ap, sym, ◌∙◌, List, [], ◌∷◌, ◌++◌, length,
  length-append, take, drop, take-append, drop-append, replicate, u8, true, some, arith,
  if◌then◌else◌,
}
use mathlib.Core.List.{append_assoc}
use bally_os.KeyStore.Sha256.{octet}
use bally_os.KeyStore.Hmac.{verify_tag_matches}
use bally_os.KeyStore.Verdict.{Verdict, Verdict-check}
use bally_os.KeyStore.{
  Contents, ok, field, contents_of, read_u32_le, tag_matches_e, tag_matches_l, label_e, label_l,
  parse, is_ok,
}

abbrev pub u32_le : ℕ → List ℕ
u32_le n = u8 n ∷ u8 (n / 2 ^ 8) ∷ u8 (n / 2 ^ 16) ∷ u8 (n / 2 ^ 24) ∷ []

-- Octets 80 to 91 and the sum behind them.
abbrev reserved : List ℕ
reserved = replicate 12 0

module _ (c : Contents) where
  -- The octets before the salt.
  abbrev pub head : List ℕ
  head =
      66
      ∷ 84
      ∷ 80
      ∷ 75
      ∷ 69
      ∷ 89
      ∷ 0
      ∷ 0
      ∷ 2
      ∷ 0
      ∷ 1
      ∷ 0
      ∷ u8 c.iterations
      ∷ u8 (c.iterations / 2 ^ 8)
      ∷ u8 (c.iterations / 2 ^ 16)
      ∷ u8 (c.iterations / 2 ^ 24)
      ∷ []

  abbrev pub fields : List ℕ → List ℕ
  fields rest = c.salt ++ (c.key_e ++ (c.key_l ++ (c.tag_e ++ (c.tag_l ++ (reserved ++ rest)))))

  -- The 92 octets under the sum.
  abbrev pub body : List ℕ
  body = head ++ fields []

  abbrev pub image : (List ℕ → ℕ) → List ℕ
  image crc32 = head ++ fields (u32_le (crc32 body))

  -- Fields of the right sizes, with tags that match the keys.
  pub record IsComplete : Type 0 where
    pub iterations_lt : c.iterations < 2 ^ 32
    pub salt_size : length c.salt ≡ 16
    pub key_e_size : length c.key_e ≡ 16
    pub key_l_size : length c.key_l ≡ 16
    pub tag_e_size : length c.tag_e ≡ 8
    pub tag_l_size : length c.tag_l ≡ 8
    pub matches_e : verify_tag_matches c.key_e label_e c.tag_e 8 ≡ true
    pub matches_l : verify_tag_matches c.key_l label_l c.tag_l 8 ≡ true

take_front : (n : ℕ) (xs ys : List ℕ) → length xs ≡ n → take n (xs ++ ys) ≡ xs
take_front n xs ys e = ap (λ k. take k (xs ++ ys)) (sym e) ∙ take-append xs ys

-- Past a field.
drop_front :
    (k m n : ℕ) (xs ys : List ℕ) → length xs ≡ m → k ≡ m + n → drop k (xs ++ ys) ≡ drop n ys
drop_front k m n xs ys e sum =
    ap (λ i. drop i (xs ++ ys)) {x = k} {y = length xs + n} (omega (arith, e, sum))
    ∙ drop-append n xs ys

module _ (c : Contents) (o : IsComplete c) (rest : List ℕ) where
  abbrev whole : List ℕ
  whole = head c ++ fields c rest

  abbrev f5 : List ℕ
  f5 = reserved ++ rest

  abbrev f4 : List ℕ
  f4 = c.tag_l ++ f5

  abbrev f3 : List ℕ
  f3 = c.tag_e ++ f4

  abbrev f2 : List ℕ
  f2 = c.key_l ++ f3

  abbrev f1 : List ℕ
  f1 = c.key_e ++ f2

  from_key_e : (n : ℕ) → drop (16 + n) (c.salt ++ f1) ≡ drop n f1
  from_key_e n = drop_front (16 + n) 16 n c.salt f1 o.salt_size refl

  from_key_l : (n : ℕ) → drop (16 + n) f1 ≡ drop n f2
  from_key_l n = drop_front (16 + n) 16 n c.key_e f2 o.key_e_size refl

  from_tag_e : (n : ℕ) → drop (16 + n) f2 ≡ drop n f3
  from_tag_e n = drop_front (16 + n) 16 n c.key_l f3 o.key_l_size refl

  from_tag_l : (n : ℕ) → drop (8 + n) f3 ≡ drop n f4
  from_tag_l n = drop_front (8 + n) 8 n c.tag_e f4 o.tag_e_size refl

  from_reserved : (n : ℕ) → drop (8 + n) f4 ≡ drop n f5
  from_reserved n = drop_front (8 + n) 8 n c.tag_l f5 o.tag_l_size refl

  salt_field : field whole 16 16 ≡ c.salt
  salt_field = take_front 16 c.salt f1 o.salt_size

  key_e_field : field whole 32 16 ≡ c.key_e
  key_e_field = ap (take 16) (from_key_e 0) ∙ take_front 16 c.key_e f2 o.key_e_size

  key_l_field : field whole 48 16 ≡ c.key_l
  key_l_field = ap (take 16) (from_key_e 16 ∙ from_key_l 0) ∙ take_front 16 c.key_l f3 o.key_l_size

  tag_e_field : field whole 64 8 ≡ c.tag_e
  tag_e_field =
      ap (take 8) (from_key_e 32 ∙ from_key_l 16 ∙ from_tag_e 0)
      ∙ take_front 8 c.tag_e f4 o.tag_e_size

  tag_l_field : field whole 72 8 ≡ c.tag_l
  tag_l_field =
      ap (take 8) (from_key_e 40 ∙ from_key_l 24 ∙ from_tag_e 8 ∙ from_tag_l 0)
      ∙ take_front 8 c.tag_l f5 o.tag_l_size

  sum_field : drop 92 whole ≡ rest
  sum_field = from_key_e 60 ∙ from_key_l 44 ∙ from_tag_e 28 ∙ from_tag_l 20 ∙ from_reserved 12

  length-fields : length (fields c rest) ≡ 76 + length rest
  length-fields = omega (
    arith,
    length-append c.salt f1,
    length-append c.key_e f2,
    length-append c.key_l f3,
    length-append c.tag_e f4,
    length-append c.tag_l f5,
    length-append reserved rest,
    o.salt_size,
    o.key_e_size,
    o.key_l_size,
    o.tag_e_size,
    o.tag_l_size,
  )

  fields-append : fields c rest ≡ fields c [] ++ rest
  fields-append = simp append_assoc refl

octet-drop : (xs : List ℕ) (n i : ℕ) → octet xs (n + i) ≡ octet (drop n xs) i
octet-drop xs zero i = ap (octet xs) {x = 0 + i} (omega arith)
octet-drop [] (suc n) i = refl
octet-drop (x ∷ xs) (suc n) i =
    ap (octet (x ∷ xs)) {x = suc n + i} {y = suc (n + i)} (omega arith) ∙ octet-drop xs n i

u32_le_lem :
    (n : ℕ)
    → n < 2 ^ 32
    → u8 n + u8 (n / 2 ^ 8) * 2 ^ 8 + u8 (n / 2 ^ 16) * 2 ^ 16 + u8 (n / 2 ^ 24) * 2 ^ 24 ≡ n
u32_le_lem n lt = omega arith

read_u32_le-drop : (xs : List ℕ) (n : ℕ) → read_u32_le xs n ≡ read_u32_le (drop n xs) 0
unfolding read_u32_le
read_u32_le-drop xs n = omega (
  arith,
  ap (octet xs) {x = n} {y = n + 0} (omega arith),
  octet-drop xs n 0,
  octet-drop xs n 1,
  octet-drop xs n 2,
  octet-drop xs n 3,
)

module _ (c : Contents) (o : IsComplete c) (crc32 : List ℕ → ℕ)
    (bounded : crc32 (body c) < 2 ^ 32) where
  abbrev sum : List ℕ
  sum = u32_le (crc32 (body c))

  sum_lem : read_u32_le (image c crc32) 92 ≡ crc32 (body c)
  unfolding read_u32_le
  sum_lem =
      read_u32_le-drop (image c crc32) 92
      ∙ ap (λ x. read_u32_le x 0) (sum_field c o sum)
      ∙ u32_le_lem (crc32 (body c)) bounded

  length-image : length (image c crc32) ≡ 96
  length-image = omega (arith, length-fields c o sum)

  take-image : take 92 (image c crc32) ≡ body c
  take-image =
      ap (λ x. take 92 (head c ++ x)) (fields-append c o sum)
      ∙ take_front 92 (body c) sum (omega (arith, length-fields c o []))

  image-Verdict : Verdict crc32 (image c crc32) ok
  unfolding tag_matches_e tag_matches_l
  image-Verdict = (
    (((length-image, refl), refl, refl, refl), ap crc32 take-image ∙ sym sum_lem),
    ap (λ k. verify_tag_matches k label_e (field (image c crc32) 64 8) 8) (key_e_field c o sum)
        ∙ ap (λ t. verify_tag_matches c.key_e label_e t 8) (tag_e_field c o sum)
        ∙ o.matches_e,
    ap (λ k. verify_tag_matches k label_l (field (image c crc32) 72 8) 8) (key_l_field c o sum)
        ∙ ap (λ t. verify_tag_matches c.key_l label_l t 8) (tag_l_field c o sum)
        ∙ o.matches_l,
  )

  iterations_lem : read_u32_le (image c crc32) 12 ≡ c.iterations
  unfolding read_u32_le
  iterations_lem = u32_le_lem c.iterations o.iterations_lt

  contents_lem : contents_of (image c crc32) ≡ c
  unfolding contents_of
  contents_lem =
      ap (λ x. record c' { iterations = x }) iterations_lem
      ∙ ap (λ x. record c' { iterations = c.iterations; salt = x }) (salt_field c o sum)
      ∙ ap (λ x. record c' { iterations = c.iterations; salt = c.salt; key_e = x })
          (key_e_field c o sum)
      ∙ ap (λ x. record c' { iterations = c.iterations; salt = c.salt; key_e = c.key_e; key_l = x })
          (key_l_field c o sum)
      ∙ ap (λ x. record c { tag_e = x; tag_l = c'.tag_l }) (tag_e_field c o sum)
      ∙ ap (λ x. record c { tag_l = x }) (tag_l_field c o sum)
    where
      c' : Contents
      c' = contents_of (image c crc32)

  -- A file that is laid out as documented, with fields of the right sizes, tags that match the keys and the
  -- sum of its first 92 octets, is accepted, and gives back exactly the fields it was made of.
  pub parse-image : (out : Contents) → parse crc32 (some (image c crc32)) out ≡ (ok, c)
  unfolding parse
  parse-image out =
      ap (λ e. (e, if is_ok e then contents_of (image c crc32) else out))
        (Verdict-check crc32 (image c crc32) image-Verdict)
      ∙ ap (λ x. (ok, x)) contents_lem
