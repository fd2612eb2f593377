-- ===== src/BtpTransport/Intake.antt =====
-- lib/CommandProcessor, `intake`, over the parser of requests of lib/BtpTransport: what reaches the shell.
use bally_os.Base.{
  ℕ, ◌<◌, ◌≤◌, ◌≡◌, ◌⊎◌, inl, inr, refl, ap, sym, subst, ◌∙◌, true, Option, none, some, List,
  length, All,
}
use bally_os.Btp.{Header}
use bally_os.Channels.{Channel}
use bally_os.CommandProcessor.{Outside, Processor, ParseError, fresh}
use bally_os.CommandProcessor.Taking.{intake}
use bally_os.CommandProcessor.Intakes.{is_ready, key_of, intake-Runs}
use bally_os.BtpTransport.{
  MessageError, RequestView, parse_error_of, parse_request, copy_shell_command,
}
use bally_os.BtpTransport.Requests.{
  IsCommand, IsForUs, IsPrintable, parse_request_iff, copy_shell_command_iff,
}

-- The size of `Intake::command`, 512 octets and a 0.
abbrev pub command_capacity : ℕ
command_capacity = 513

abbrev pub error_of : ParseError ⊎ RequestView → Option ParseError
error_of (inl e) = some e
error_of (inr r) = none

-- `copy_shell_command` of the request that `parse_request` decoded.
abbrev pub copy_decoded : MessageError ⊎ RequestView → ParseError ⊎ List ℕ
copy_decoded (inl e) = inl (parse_error_of e)
copy_decoded (inr r) = copy_shell_command r command_capacity

-- What is known of a command that goes to the shell.
abbrev pub ShellCommand :
    (List ℕ → MessageError ⊎ RequestView) → ℕ × ℕ → ℕ → Header → List ℕ → List ℕ → Type 0
ShellCommand decode (source, boot) command h payload text =
    (r : RequestView) × (decode payload ≡ inr r)
    × IsCommand command h
    × IsForUs source boot r
    × (r.action_id ≡ 1)
    × (r.action_version ≡ 1)
    × (text ≡ r.parameters)
    × (0 < length text)
    × (length text ≤ 512)
    × All IsPrintable text

error_of-none : (o : ParseError ⊎ RequestView) → error_of o ≡ none → (r : RequestView) × (o ≡ inr r)
error_of-none (inl e) h = absurd cc
error_of-none (inr r) h = (r, refl)

module _ {D E S : Type 0} where
  -- The parts that `CommandProcessor` calls, with the parser and the copying of lib/BtpTransport;
  -- `identity` is the source and the boot of the endpoint.
  abbrev pub over_transport :
      (List ℕ → MessageError ⊎ RequestView) → (E → ℕ × ℕ) → Outside D E S → Outside D E S
  over_transport decode identity x = record x {
    parse_request = λ e h payload.
        error_of (parse_request x.command decode h (some payload) (identity e).0 (identity e).1);
    copy_shell_command = λ payload. copy_decoded (decode payload);
  }

  -- A command that `intake` gives to the shell came in a whole request in the clear, addressed to this boot of this
  -- robot, for the shell's action; it is the text of the request unchanged, 1 to 512 octets without an
  -- end of line, and new to the cache under its source, boot and number.
  pub intake-ShellCommand :
      (decode : List ℕ → MessageError ⊎ RequestView) (identity : E → ℕ × ℕ) (x : Outside D E S)
      (p : Processor D S) (e : E) (h : Header) (payload : List ℕ) (now : ℕ) (channel : Channel)
      → is_ready
          (over_transport decode identity x)
          (intake (over_transport decode identity x) p e h (some payload) now channel).2.kind
        ≡ true
      → ((slot : ℕ) × ((x.classify p.dedup (key_of x h) payload).0 ≡ fresh slot))
        × ShellCommand decode
            (identity e)
            x.command
            h
            payload
            (intake (over_transport decode identity x) p e h (some payload) now channel).2.text
  intake-ShellCommand decode identity x p e h payload now channel ready =
      let text : List ℕ =
        (intake (over_transport decode identity x) p e h (some payload) now channel).2.text in
      let (slot, free, request, new, parses, other, copied, numbered) =
        intake-Runs (over_transport decode identity x) p e h payload now channel ready in
      let (r, parsed) =
        error_of-none
          (parse_request x.command decode h (some payload) (identity e).0 (identity e).1) parses in
      let (is_command, decoded, ours) =
        (parse_request_iff x.command decode h payload (identity e).0 (identity e).1 r).0 parsed in
      let (same, shell, version, pos, short, room, printable) =
        (copy_shell_command_iff r command_capacity text).0
          (sym (ap copy_decoded decoded) ∙ copied) in
      (
        (slot, new),
        (
          r,
          decoded,
          is_command,
          ours,
          shell,
          version,
          same,
          subst (λ t. 0 < length t) (sym same) pos,
          subst (λ t. length t ≤ 512) (sym same) short,
          subst (All IsPrintable) (sym same) printable,
        ),
      )
