-- ===== src/RunEvents/Forward.antt =====
-- What the relay of src/xpd_report_agent/api/sessions.py forwards.
use xpd_report_agent.Prelude.{
  String, ◌≡◌, refl, sym, ap, ◌∙◌, inl, inr, false, not, List, [], ◌∷◌, ◌++◌, map, arith, ◌==◌,
  Bool-cases, length, filter,
}
use Prim.Native.Char.{Char}
use mathlib.Core.List.{append_assoc, append-nil}
use xpd_report_agent.RunEvents.Frames.{
  joined, split_complete_sse_events, split_complete_sse_events-joined,
}
use xpd_report_agent.RunEvents.Relay.{
  Piece, forwarded, artifact_ready, Artifacts, Progress, new_artifact_ready_events,
  is_export_tool_completed, scan_artifacts, relay_frame, relay_frames, relay_end, relay_from, relay,
}

-- The text of the forwarded pieces
abbrev pub forwarded_text : List Piece → List Char
forwarded_text [] = []
forwarded_text (forwarded s ∷ ps) = s ++ forwarded_text ps
forwarded_text (artifact_ready id ∷ ps) = forwarded_text ps

text-append :
    (ps qs : List Piece) → forwarded_text (ps ++ qs) ≡ forwarded_text ps ++ forwarded_text qs
text-append [] qs = refl
text-append (forwarded s ∷ ps) qs =
    ap (λ t. s ++ t) (text-append ps qs)
    ∙ sym (append_assoc s (forwarded_text ps) (forwarded_text qs))
text-append (artifact_ready id ∷ ps) qs = text-append ps qs

text-artifacts : (ids : List String) → forwarded_text (map artifact_ready ids) ≡ []
text-artifacts [] = refl
text-artifacts (id ∷ ids) = text-artifacts ids

scan-text : (a : Artifacts) (p : Progress) → forwarded_text (scan_artifacts a p).0 ≡ []
unfolding scan_artifacts
scan-text a p =
    text-artifacts (new_artifact_ready_events a.existing p.emitted (a.listing p.listings)).0

frame-text :
    (a : Artifacts) (p : Progress) (frame : List Char)
    → forwarded_text (relay_frame a p frame).0 ≡ frame
unfolding relay_frame
frame-text a p frame = elim (Bool-cases (is_export_tool_completed a.loads frame)) [
  | inl b ↦ rw b (ap (λ t. frame ++ t) (scan-text a p) ∙ append-nil frame)
  | inr b ↦ rw b (append-nil frame)
]

frames-text :
    (a : Artifacts) (p : Progress) (frames : List (List Char))
    → forwarded_text (relay_frames a p frames).0 ≡ joined frames
unfolding relay_frames
frames-text a p [] = refl
frames-text a p (frame ∷ frames) =
    let next = (relay_frame a p frame).1 in
    text-append (relay_frame a p frame).0 (relay_frames a next frames).0
    ∙ ap (λ t. t ++ forwarded_text (relay_frames a next frames).0) (frame-text a p frame)
    ∙ ap (λ t. frame ++ t) (frames-text a next frames)

end-text :
    (a : Artifacts) (p : Progress) (buffer : List Char)
    → forwarded_text (relay_end a p buffer) ≡ buffer
unfolding relay_end
end-text a p [] = scan-text a p
end-text a p (c ∷ s) =
    let next = (relay_frame a p (c ∷ s)).1 in
    text-append (relay_frame a p (c ∷ s)).0 (scan_artifacts a next).0
    ∙ ap (λ t. t ++ forwarded_text (scan_artifacts a next).0) (frame-text a p (c ∷ s))
    ∙ ap (λ t. (c ∷ s) ++ t) (scan-text a next)
    ∙ append-nil (c ∷ s)

from-text :
    (a : Artifacts) (p : Progress) (buffer : List Char) (chunks : List (List Char))
    → forwarded_text (relay_from a p buffer chunks) ≡ buffer ++ joined chunks
unfolding relay_from
from-text a p buffer [] = end-text a p buffer ∙ sym (append-nil buffer)
from-text a p buffer (chunk ∷ chunks) =
    let split = split_complete_sse_events (buffer ++ chunk) in
    let relayed = relay_frames a p split.0 in
    text-append relayed.0 (relay_from a relayed.1 split.1 chunks)
    ∙ ap (λ t. t ++ forwarded_text (relay_from a relayed.1 split.1 chunks))
        (frames-text a p split.0)
    ∙ ap (λ t. joined split.0 ++ t) (from-text a relayed.1 split.1 chunks)
    ∙ sym (append_assoc (joined split.0) split.1 (joined chunks))
    ∙ ap (λ t. t ++ joined chunks) (split_complete_sse_events-joined (buffer ++ chunk))
    ∙ append_assoc buffer chunk (joined chunks)

empty-chunk : (chunk : List Char) → not (length chunk == 0) ≡ false → chunk ≡ []
empty-chunk [] h = refl
empty-chunk (c ∷ s) h = absurd (ground arith)

joined-filter :
    (chunks : List (List Char))
    → joined (filter (λ chunk. not (length chunk == 0)) chunks) ≡ joined chunks
joined-filter [] = refl
joined-filter (chunk ∷ chunks) = elim (Bool-cases (not (length chunk == 0))) [
  | inl b ↦ rw b (ap (λ t. chunk ++ t) (joined-filter chunks))
  | inr b ↦ rw b (joined-filter chunks ∙ ap (λ t. t ++ joined chunks) (sym (empty-chunk chunk b)))
]

-- However the upstream text is cut into chunks, and whatever artifacts appear and when: what the
-- relay forwards is the upstream text, with nothing lost, changed or out of order.
pub relay-forwarded_text :
    (a : Artifacts) (emitted : List String) (chunks : List (List Char))
    → forwarded_text (relay a emitted chunks) ≡ joined chunks
unfolding relay
relay-forwarded_text a emitted chunks =
    let full = filter (λ chunk. not (length chunk == 0)) chunks in
    from-text a (record { emitted = emitted; listings = 0 }) [] full ∙ joined-filter chunks
