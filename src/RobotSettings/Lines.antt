-- ===== src/RobotSettings/Lines.antt =====
-- lib/RobotSettings: the file that `save` writes, cut into lines and read line by line.
use bally_os.Base.{
  ℕ, ◌<◌, ◌≡◌, ◌≢◌, ◌⊎◌, refl, ap, sym, ◌∙◌, Bool, true, false, ◌&&◌, not, ◌||◌, some, List, [],
  ◌∷◌, ◌++◌, length, take_all, append-nil, append_assoc, arith, leb, ltb, ◌==◌, inl, inr, All,
}
use bally_os.RobotSettings.Table.{SettingEntry, SettingsData}
use bally_os.RobotSettings.Entries.{Platform, find, or_empty, format_entry}
use bally_os.RobotSettings.File.{
  Parsing, parse_header, parse_found, parse_pair, parse_trimmed, parse_line, split_lines, split_at,
  skip_blanks, emit, pair_text, header_text,
}

-- An octet that does not end a line or the text.
abbrev pub InLine : ℕ → Type 0
InLine c = (0 < c) × (c ≢ 10) × (c ≢ 13)

-- An octet of a name in the table: not '=', ']' or a control octet.
abbrev pub word : ℕ → Bool
word c = ltb 13 c && ltb c 128 && not (c == b'=') && not (c == b']')

abbrev pub words : List ℕ → Bool
words [] = true
words (c ∷ s) = word c && words s

-- A key starts with a letter.
abbrev pub key_like : List ℕ → Bool
key_like [] = false
key_like (c ∷ s) = leb b'a' c && leb c b'z' && words (c ∷ s)

abbrev pub name_like : List ℕ → Bool
name_like [] = false
name_like (c ∷ s) = words (c ∷ s) && ltb (length (c ∷ s)) 32

words-InLine : (s : List ℕ) → words s ≡ true → All InLine s
words-InLine [] h = tt
words-InLine (c ∷ s) h = (
  (ground (arith, h), λ e. ground (arith, h, e), λ e. ground (arith, h, e)),
  words-InLine s (ground (arith, h)),
)

-- A line and its end; `line` is what was read of it before.
split_lines-line :
    (cur line rest : List ℕ)
    → All InLine line
    → split_lines cur (line ++ 10 ∷ rest) ≡ emit (cur ++ line) (split_lines [] rest)
unfolding split_lines
split_lines-line cur [] rest plain = ap (λ l. emit l (split_lines [] rest)) (sym (append-nil cur))
split_lines-line cur (c ∷ line) rest ((pos, no_lf, no_cr), plain) =
    go (c == 0) (c == 10 || c == 13) (ground arith) (ground arith) (
      split_lines-line (cur ++ c ∷ []) line rest plain
      ∙ ap (λ l. emit l (split_lines [] rest)) {y = cur ++ c ∷ line}
          (append_assoc cur (c ∷ []) line))
  where
    go :
        (zero_octet end : Bool)
        → zero_octet ≡ false
        → end ≡ false
        → split_lines (cur ++ c ∷ []) (line ++ 10 ∷ rest)
          ≡ emit (cur ++ c ∷ line) (split_lines [] rest)
        → elim zero_octet [
          | true ↦ emit cur []
          | false ↦ elim end [
            | true ↦ emit cur (split_lines [] (line ++ 10 ∷ rest))
            | false ↦ split_lines (cur ++ c ∷ []) (line ++ 10 ∷ rest)
          ]
        ]
          ≡ emit (cur ++ c ∷ line) (split_lines [] rest)
    go false false z e read = read
    go true end z e read = absurd cc
    go false true z e read = absurd cc

split_at-first :
    (mark : ℕ) (before after : List ℕ)
    → All (λ c. c ≢ mark) before
    → split_at mark (before ++ mark ∷ after) ≡ some (before, after)
unfolding split_at
split_at-first mark [] after none_before = ground arith
split_at-first mark (c ∷ before) after (here, none_before) =
    ground (arith, here, split_at-first mark before after none_before)

words-but :
    (mark : ℕ) (s : List ℕ) → (mark ≡ b'=') ⊎ (mark ≡ b']') → words s ≡ true → All (λ c. c ≢ mark) s
words-but mark [] which h = tt
words-but mark (c ∷ s) which h =
    (λ e. ground (arith, h, e, which), words-but mark s which (ground (arith, h)))

parse_header-named :
    (s : Parsing) (m after : List ℕ)
    → name_like m ≡ true
    → parse_header s (some (m, after)) ≡ record s { current_module = m }
unfolding parse_header
parse_header-named s [] after h = absurd cc
parse_header-named s (c ∷ m) after h =
    ap (λ n. record s { current_module = n }) (take_all 31 (c ∷ m) (ground (arith, h)))

name_like-words : (m : List ℕ) → name_like m ≡ true → words m ≡ true
name_like-words [] h = absurd cc
name_like-words (c ∷ m) h = ground (arith, h)

key_like-words : (k : List ℕ) → key_like k ≡ true → words k ≡ true
key_like-words [] h = absurd cc
key_like-words (c ∷ k) h = ground (arith, h)

-- "[module]" sets the module.
pub parse_line-header :
    (p : Platform) (s : Parsing) (m : List ℕ)
    → name_like m ≡ true
    → parse_line p s (b'[' ∷ m ++ b']' ∷ []) ≡ record s { current_module = m }
unfolding parse_line parse_trimmed skip_blanks
parse_line-header p s m h =
    ap (parse_header s)
      (split_at-first b']' m [] (words-but b']' m (inr refl) (name_like-words m h)))
    ∙ parse_header-named s m [] h

-- "key=value" looks up the key in the module.
pub parse_line-pair :
    (p : Platform) (s : Parsing) (k value : List ℕ)
    → key_like k ≡ true
    → parse_line p s (k ++ b'=' ∷ value)
      ≡ parse_found p s value (find (some s.current_module) (some k))
unfolding parse_line parse_trimmed skip_blanks parse_pair
parse_line-pair p s [] value h = absurd cc
parse_line-pair p s (c ∷ k) value h = ground (
  arith,
  h,
  split_at-first b'=' (c ∷ k) value (words-but b'=' (c ∷ k) (inl refl) (key_like-words (c ∷ k) h)),
)

All-append : (P : ℕ → Type 0) (xs ys : List ℕ) → All P xs → All P ys → All P (xs ++ ys)
All-append P [] ys ax ay = ay
All-append P (x ∷ xs) ys (here, ax) ay = (here, All-append P xs ys ax ay)

emit-key :
    (k value : List ℕ) (lines : List (List ℕ))
    → key_like k ≡ true
    → emit (k ++ value) lines ≡ (k ++ value) ∷ lines
unfolding emit
emit-key [] value lines h = absurd cc
emit-key (c ∷ k) value lines h = refl

header_shape :
    (m rest : List ℕ) → (b'[' ∷ m ++ b']' ∷ 10 ∷ []) ++ rest ≡ (b'[' ∷ m ++ b']' ∷ []) ++ 10 ∷ rest
header_shape m rest = simp append_assoc

pair_shape : (k x rest : List ℕ) → (k ++ b'=' ∷ x ++ 10 ∷ []) ++ rest ≡ (k ++ b'=' ∷ x) ++ 10 ∷ rest
pair_shape k x rest = simp append_assoc

split_lines-blank : (rest : List ℕ) → split_lines [] (10 ∷ rest) ≡ split_lines [] rest
unfolding split_lines emit
split_lines-blank rest = refl

emit-header :
    (m : List ℕ) (lines : List (List ℕ))
    → emit (b'[' ∷ m ++ b']' ∷ []) lines ≡ (b'[' ∷ m ++ b']' ∷ []) ∷ lines
unfolding emit
emit-header m lines = refl

split_lines-named :
    (m rest : List ℕ)
    → name_like m ≡ true
    → split_lines [] ((b'[' ∷ m ++ b']' ∷ 10 ∷ []) ++ rest)
      ≡ (b'[' ∷ m ++ b']' ∷ []) ∷ split_lines [] rest
split_lines-named m rest h =
    ap (split_lines []) (header_shape m rest)
    ∙ split_lines-line [] (b'[' ∷ m ++ b']' ∷ []) rest (
      (omega arith, λ e. omega (arith, e), λ e. omega (arith, e)),
      All-append InLine m (b']' ∷ []) (words-InLine m (name_like-words m h))
          ((omega arith, λ e. omega (arith, e), λ e. omega (arith, e)), tt),
    )
    ∙ emit-header m (split_lines [] rest)

-- The lines of a header.
pub split_lines-header :
    (first : Bool) (m rest : List ℕ)
    → name_like m ≡ true
    → split_lines [] (header_text first m ++ rest) ≡ (b'[' ∷ m ++ b']' ∷ []) ∷ split_lines [] rest
unfolding header_text
split_lines-header true m rest h = split_lines-named m rest h
split_lines-header false m rest h =
    split_lines-blank ((b'[' ∷ m ++ b']' ∷ 10 ∷ []) ++ rest) ∙ split_lines-named m rest h

-- The line of a setting.
pub split_lines-pair :
    (p : Platform) (d : SettingsData) (e : SettingEntry) (rest : List ℕ)
    → key_like e.key ≡ true
    → All InLine (or_empty (format_entry p d e))
    → split_lines [] (pair_text p d e ++ rest)
      ≡ (e.key ++ b'=' ∷ or_empty (format_entry p d e)) ∷ split_lines [] rest
unfolding pair_text
split_lines-pair p d e rest h plain =
    let value : List ℕ = or_empty (format_entry p d e) in
    ap (split_lines []) (pair_shape e.key value rest)
    ∙ split_lines-line [] (e.key ++ b'=' ∷ value) rest (
        All-append InLine e.key (b'=' ∷ value) (words-InLine e.key (key_like-words e.key h))
          ((omega arith, λ x. omega (arith, x), λ x. omega (arith, x)), plain))
    ∙ emit-key e.key (b'=' ∷ value) (split_lines [] rest) h
