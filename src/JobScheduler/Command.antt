-- ===== src/JobScheduler/Command.antt =====
-- lib/JobScheduler/JobScheduler.cpp: which command lines are the scheduler's own.
use bally_os.Base.{
  ℕ, ◌+◌, Bool, true, false, ◌&&◌, ◌||◌, Option, none, some, List, [], ◌∷◌, leb, ◌==◌,
  if◌then◌else◌,
}

-- `static_cast<char>(c + ('a' - 'A'))` on an upper-case letter.
unfoldable pub to_lower : ℕ → ℕ
to_lower c = if leb b'A' c && leb c b'Z' then c + 32 else c

unfoldable pub skip_blanks : List ℕ → List ℕ
skip_blanks [] = []
skip_blanks (c ∷ cs) = if c == b' ' || c == 9 then skip_blanks cs else c ∷ cs

-- The loop over `kName`: the text behind the name, if the text starts with it.
unfoldable pub match_name : List ℕ → List ℕ → Option (List ℕ)
unfolding to_lower
match_name [] text = some text
match_name (k ∷ name) [] = none
match_name (k ∷ name) (c ∷ text) =
    let rest = match_name name text in if to_lower c == k then rest else none

-- The character after the name ends the word.
unfoldable pub ends_word : Option (List ℕ) → Bool
ends_word none = false
ends_word (some []) = true
ends_word (some (c ∷ cs)) = c == b' ' || c == 9 || c == b'-'

abbrev pub job_name : List ℕ
job_name = b'j' ∷ b'o' ∷ b'b' ∷ []

unfoldable pub first_word_is_job : List ℕ → Bool
unfolding skip_blanks match_name ends_word
first_word_is_job text = ends_word (match_name job_name (skip_blanks text))

unfoldable pub is_job_command : Option (List ℕ) → Bool
unfolding first_word_is_job
is_job_command none = false
is_job_command (some text) = first_word_is_job text
