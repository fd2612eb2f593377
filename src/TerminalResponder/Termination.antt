-- ===== src/TerminalResponder/Termination.antt =====
-- lib/TerminalResponder, `emit_terminal_out`: the loop over the text that a pass has written.
use bally_os.Base.{
  ℕ, zero, suc, ◌≤◌, ◌<◌, ◌≡◌, refl, ap, List, [], ◌∷◌, length, take, drop, pieces_within, pieces,
  pieces_within-pieces, joined, joined-pieces_within, arith, ◌∙◌,
}
use bally_os.TerminalResponder.{LinkTarget, Stats}
use bally_os.TerminalResponder.Pumping.{Editor, Host, count_frame, terminal_out_stride, emit_chunks}

module _ {Ed W : Type 0} (ed : Editor Ed) (host : Host W) where
  -- Pieces of a text for a link, each one offered once; those that the link takes are counted.
  unfoldable pub send_all : LinkTarget → List (List ℕ) → Stats → W → Stats × W
  send_all target [] st w = (st, w)
  send_all target (piece ∷ rest) st w =
      let (sent, w1) = host.send w target piece in
      send_all target rest (count_frame ed host sent st) w1

  emit_chunks-send_all :
      (fuel : ℕ) (target : LinkTarget) (bytes : List ℕ) (st : Stats) (w : W)
      → emit_chunks ed host fuel target bytes st w
        ≡ send_all target (pieces_within (terminal_out_stride ed host target) fuel bytes) st w
  unfolding emit_chunks send_all
  emit_chunks-send_all zero target bytes st w = refl
  emit_chunks-send_all (suc fuel) target [] st w = refl
  emit_chunks-send_all (suc fuel) target (c ∷ bytes) st w =
      let stride = terminal_out_stride ed host target in
      let (sent, w1) = host.send w target (take stride (c ∷ bytes)) in
      emit_chunks-send_all fuel target (drop stride (c ∷ bytes)) (count_frame ed host sent st) w1

  -- Where a frame has room for an octet, the loop of `emit_terminal_out` ends by itself: any rounds from one for each
  -- octet on give the same. It offers each piece of the text once, in order, all as long as a frame
  -- holds but the last, whatever becomes of those before; the pieces are the whole text.
  pub emit_chunks_enough :
      (fuel : ℕ) (target : LinkTarget) (bytes : List ℕ) (st : Stats) (w : W)
      → 0 < terminal_out_stride ed host target
      → length bytes ≤ fuel
      → (emit_chunks ed host fuel target bytes st w
          ≡ send_all target (pieces (terminal_out_stride ed host target) bytes) st w)
        × (joined (pieces (terminal_out_stride ed host target) bytes) ≡ bytes)
  emit_chunks_enough fuel target bytes st w room le =
      let stride = terminal_out_stride ed host target in
      (
        emit_chunks-send_all fuel target bytes st w
            ∙ ap (λ texts. send_all target texts st w)
                (pieces_within-pieces stride fuel bytes room le),
        joined-pieces_within stride (length bytes) bytes room (omega arith),
      )
