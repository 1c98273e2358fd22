-- ===== src/Relay/Upstream/Body.antt =====
-- src/relay.rs: the bytes that an upstream is written behind its `354`.
use smtp_proxy_rs.Prelude.{
  ℕ, ◌-◌, ◌≡◌, ◌≢◌, refl, sym, ap, ◌∙◌, inl, inr, Bool, List, [], ◌∷◌, ◌++◌, Option, none, some,
  arith, Bytes, is_empty, leb, if◌then◌else◌, Bool-cases,
}
use mathlib.Core.List.{append_assoc, append-nil}
use smtp_proxy_rs.Proxy.Headers.Stuffing.{flat, flat-glue}
use smtp_proxy_rs.Relay.{UpstreamVerdict}
use smtp_proxy_rs.Relay.Wire.{
  Race, pushed, push_failed, reply_ready, reader_failed, Wire, Outcome, done, failed, exhausted, R,
  bind_outcome, pure, UpstreamReply, read_reply, chunks_from, chunks,
}
use smtp_proxy_rs.Relay.Upstream.{
  UpstreamSession, early_verdict, race_of, later_races, after_race, push_pieces, last_of, write,
}
use smtp_proxy_rs.Server.Data.{write_chunk}

-- All bytes that were handed to the transport, in their order.
unfoldable pub stream : List (Bool × Bytes) → Bytes
stream [] = []
stream (s ∷ older) = stream older ++ s.1

flat-chunks_from : (left : ℕ) (payload : Bytes) → flat (chunks_from left payload) ≡ payload
unfolding chunks_from
flat-chunks_from left [] = refl
flat-chunks_from left (c ∷ cs) =
    let next = if leb left 1 then write_chunk else left - 1 in
    let rest = flat-chunks_from next cs in
    elim (Bool-cases (leb left 1)) [
      | inl e ↦ ground (arith, rest)
      | inr e ↦ ground (arith, rest, flat-glue c (chunks_from next cs))
    ]

-- The pieces of a payload are the payload.
pub flat-chunks : (payload : Bytes) → flat (chunks payload) ≡ payload
unfolding chunks
flat-chunks payload = flat-chunks_from write_chunk payload

not_early :
    (o : Outcome UpstreamReply) (w : Wire)
    → (bind_outcome
        (early_verdict (o, w)).0
        (early_verdict (o, w)).1
        (λ verdict. pure (some verdict))).0
      ≢ done none
unfolding early_verdict
not_early (done r) w e = cc
not_early (failed x) w e = cc
not_early exhausted w e = cc

after_race-done :
    (again : R (Option UpstreamVerdict)) (race : Race) (w : Wire)
    → (after_race again race w).0 ≡ done none
    → (after_race again race w ≡ again w) × ((again w).0 ≡ done none)
after_race-done again pushed w e = (refl, e)
after_race-done again push_failed w e = cc
after_race-done again reader_failed w e = cc
after_race-done again reply_ready w e = absurd (not_early (read_reply w).0 (read_reply w).1 e)

push_pieces-stream :
    (pieces : List Bytes) (w : Wire)
    → (push_pieces pieces w).0 ≡ done none
    → stream (push_pieces pieces w).1.sent ≡ stream w.sent ++ flat pieces
unfolding push_pieces stream
push_pieces-stream [] w e = sym (append-nil (stream w.sent))
push_pieces-stream (piece ∷ pieces) w e =
    let raced = record w { races = later_races w.races; sent = (w.tls, piece) ∷ w.sent } in
    let (same, all) = after_race-done (push_pieces pieces) (race_of w.races) raced e in
    ap (λ r. stream r.1.sent) same
    ∙ (push_pieces-stream pieces raced all ∙ append_assoc (stream w.sent) piece (flat pieces))

pub write-stream :
    (u : UpstreamSession) (chunk : Bytes)
    → (write u chunk).0 ≡ done none
    → (stream (write u chunk).1.wire.sent ≡ stream u.wire.sent ++ chunk)
      × ((write u chunk).1.last_written
          ≡ (if is_empty chunk then u.last_written else last_of chunk))
unfolding write
write-stream u [] e = (sym (append-nil (stream u.wire.sent)), refl)
write-stream u (c ∷ cs) e = (
  push_pieces-stream (chunks (c ∷ cs)) u.wire e
      ∙ ap (λ b. stream u.wire.sent ++ b) (flat-chunks (c ∷ cs)),
  refl,
)

-- A body that is written in pieces, each with success, and the session behind it.
pub data Written (u : UpstreamSession) : Bytes → UpstreamSession → Type 0 where
  nothing : Written u [] u
  more :
      {b : Bytes} {v : UpstreamSession} (chunk : Bytes)
      → Written u b v
      → (write v chunk).0 ≡ done none
      → Written u (b ++ chunk) (write v chunk).1

last_of-append :
    (b chunk : Bytes) → last_of (b ++ chunk) ≡ (if is_empty chunk then last_of b else last_of chunk)
unfolding last_of
last_of-append [] [] = refl
last_of-append [] (c ∷ chunk) = refl
last_of-append (x ∷ []) [] = refl
last_of-append (x ∷ []) (c ∷ chunk) = refl
last_of-append (x ∷ y ∷ b) chunk = last_of-append (y ∷ b) chunk

pub Written-stream :
    (u : UpstreamSession) (b : Bytes) (v : UpstreamSession)
    → u.last_written ≡ none
    → Written u b v
    → (stream v.wire.sent ≡ stream u.wire.sent ++ b) × (v.last_written ≡ last_of b)
Written-stream u _ _ fresh nothing =
    (sym (append-nil (stream u.wire.sent)), unfold last_of in fresh)
Written-stream u _ _ fresh (more {b} {v} chunk d e) =
    let (same, last) = Written-stream u b v fresh d in
    let (same', last') = write-stream v chunk e in
    (
      same' ∙ (ap (λ s. s ++ chunk) same ∙ append_assoc (stream u.wire.sent) b chunk),
      last'
          ∙ (ap (λ o. if is_empty chunk then o else last_of chunk) last
              ∙ sym (last_of-append b chunk)),
    )
