-- ===== src/TerminalResponder/Rendering.antt =====
-- lib/TerminalResponder: how the output of a command and an unsolicited line are written.
use bally_os.Base.{
  ℕ, Bool, ◌||◌, ◌≤◌, Option, none, some, List, [], ◌∷◌, ◌++◌, length, take, ltb, ◌==◌,
  if◌then◌else◌, codes, arith, length-append, length-take, Bool-cases, inl, inr,
}
use bally_os.RobotSettings.Numbers.{print_unsigned}

-- A text without the octets of `tail` at its end.
unfoldable pub trim_end : (ℕ → Bool) → List ℕ → List ℕ
trim_end tail [] = []
trim_end tail (c ∷ s) = kept (trim_end tail s)
  where
    kept : List ℕ → List ℕ
    kept [] = if tail c then [] else c ∷ []
    kept (d ∷ more) = c ∷ d ∷ more

abbrev pub is_trailing : ℕ → Bool
is_trailing c = c == 13 || c == b' '

-- "! line\r\n", nothing of an empty line
unfoldable pub render_line : List ℕ → List ℕ
render_line [] = []
render_line (c ∷ line) = b'!' ∷ b' ' ∷ (c ∷ line) ++ 13 ∷ 10 ∷ []

-- The lines of a text; `line` is what was read of the first.
unfoldable pub render_lines : List ℕ → List ℕ → List ℕ
render_lines line [] = render_line (trim_end is_trailing line)
render_lines line (c ∷ rest) =
    let ended = render_lines [] rest in
    let more = render_lines (line ++ c ∷ []) rest in
    if c == 10 then render_line (trim_end is_trailing line) ++ ended else more

-- "! [status=%u]\r\n", which is shorter than the 32 octets of `note`
unfoldable pub status_note : ℕ → List ℕ
status_note status =
    if status == 0 then [] else codes "! [status=" ++ print_unsigned status ++ b']' ∷ 13 ∷ 10 ∷ []

unfoldable pub render_command_output : List ℕ → ℕ → List ℕ
render_command_output text status = render_lines [] text ++ status_note status

abbrev pub max_command_out : ℕ
max_command_out = 2048

abbrev pub truncated_note : List ℕ
truncated_note = 13 ∷ 10 ∷ codes "! [output truncated]" ++ 13 ∷ 10 ∷ []

unfoldable pub shorten : List ℕ → List ℕ
shorten rendered =
    if ltb max_command_out (length rendered)
    then take max_command_out rendered ++ truncated_note
    else rendered

unfoldable pub text_or_empty : Option (List ℕ) → List ℕ
text_or_empty none = []
text_or_empty (some text) = text

-- The text that `deliver_command_output` hands over; a null text is an empty one.
unfoldable pub command_output : Option (List ℕ) → ℕ → List ℕ
command_output text status = shorten (render_command_output (text_or_empty text) status)

abbrev pub is_line_end : ℕ → Bool
is_line_end c = c == 13 || c == 10 || c == b' '

-- The line of `push_async_output`; the loop that trims may take the space after the mark.
unfoldable pub async_line : List ℕ → List ℕ
async_line text = trim_end is_line_end (b'!' ∷ b' ' ∷ text) ++ 13 ∷ 10 ∷ []

length-shorten : (rendered : List ℕ) → length (shorten rendered) ≤ 2072
unfolding shorten
length-shorten rendered = elim (Bool-cases (ltb max_command_out (length rendered))) [
  | inl long ↦ rw long (
      omega (
        arith,
        length-append (take max_command_out rendered) truncated_note,
        length-take max_command_out rendered,
      ))
  | inr short ↦ rw short (ground (arith, short))
]

-- What is handed over has at most 2048 octets and the note.
pub length-command_output :
    (text : Option (List ℕ)) (status : ℕ) → length (command_output text status) ≤ 2072
unfolding command_output
length-command_output text status =
    length-shorten (render_command_output (text_or_empty text) status)
