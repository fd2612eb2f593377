-- ===== src/BtpTransport/Requests.antt =====
-- lib/BtpTransport, `parse_request` and `copy_shell_command`: which requests and texts pass.
use bally_os.Base.{
  ℕ, ◌<◌, ◌≤◌, ◌≡◌, ◌≢◌, ◌⊎◌, ◌↔◌, inl, inr, false, some, List, [], ◌∷◌, length, arith, All,
}
use bally_os.Btp.{Header}
use bally_os.BtpTransport.{
  MessageError, RequestView, is_envelope, check_request, parse_request, is_forbidden, has_forbidden,
  copy_shell_command,
}

-- A whole command request in the clear, from somebody.
abbrev pub IsCommand : ℕ → Header → Type 0
IsCommand command h =
    (h.message_type ≡ command)
    × (h.object_id ≡ 1)
    × (h.flags ≡ 0)
    × (h.fragment_index ≡ 0)
    × (h.fragment_count ≡ 1)
    × (h.source_id ≢ 0)
    × (h.boot_id ≢ 0)

-- A request to this boot of this robot, with a text of a permitted size.
abbrev pub IsForUs : ℕ → ℕ → RequestView → Type 0
IsForUs source boot r =
    (r.target_source_id ≡ source) × (r.target_boot_id ≡ boot) × (length r.parameters ≤ 512)

check_request_iff :
    (source boot : ℕ) (o : MessageError ⊎ RequestView) (r : RequestView)
    → (check_request source boot o ≡ inr r) ↔ ((o ≡ inr r) × IsForUs source boot r)
unfolding check_request
check_request_iff source boot (inl e) r = (λ x. cc, λ x. cc)
check_request_iff source boot (inr q) r = ground arith

module _ (command : ℕ) (decode : List ℕ → MessageError ⊎ RequestView) where
  -- A request is accepted exactly if its header is that of a whole command request in the clear, its
  -- payload decodes, it is addressed to this boot of this robot, and its parameters have at most 512 octets;
  -- what is given on is what was decoded.
  pub parse_request_iff :
      (h : Header) (payload : List ℕ) (source boot : ℕ) (r : RequestView)
      → (parse_request command decode h (some payload) source boot ≡ inr r)
        ↔ (IsCommand command h × (decode payload ≡ inr r) × IsForUs source boot r)
  unfolding parse_request is_envelope
  parse_request_iff h payload source boot r =
      ground (arith, check_request_iff source boot (decode payload) r)

-- Octets of one line: a tab, or none of the control octets.
abbrev pub IsPrintable : ℕ → Type 0
IsPrintable c = (c ≡ 9) ⊎ ((0x20 ≤ c) × (c ≢ 0x7f))

is_forbidden_iff : (c : ℕ) → (is_forbidden c ≡ false) ↔ IsPrintable c
unfolding is_forbidden
is_forbidden_iff c = ground arith

has_forbidden_iff : (s : List ℕ) → (has_forbidden s ≡ false) ↔ All IsPrintable s
unfolding has_forbidden
has_forbidden_iff [] = ground arith
has_forbidden_iff (c ∷ s) = ground (arith, is_forbidden_iff c, has_forbidden_iff s)

-- The text is copied exactly if the action is the shell's, the text is 1 to 512 octets of one line, and the
-- output has room for it and its closing 0; nothing is changed in it.
pub copy_shell_command_iff :
    (r : RequestView) (capacity : ℕ) (out : List ℕ)
    → (copy_shell_command r capacity ≡ inr out) ↔ (
        (out ≡ r.parameters)
        × (r.action_id ≡ 1)
        × (r.action_version ≡ 1)
        × (0 < length r.parameters)
        × (length r.parameters ≤ 512)
        × (length r.parameters < capacity)
        × All IsPrintable r.parameters)
unfolding copy_shell_command
copy_shell_command_iff r capacity out = ground (arith, has_forbidden_iff r.parameters)
