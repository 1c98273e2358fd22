-- ===== src/Relay/Upstream/Verdicts.antt =====
-- src/relay.rs: the verdicts of an upstream on a body that is written to it.
use smtp_proxy_rs.Prelude.{
  ℕ, ◌/◌, ◌≡◌, refl, inl, inr, true, List, [], ◌∷◌, Option, none, some, Bytes, codes, is_empty,
  ◌==◌, Bool-cases, Result, ok, err,
}
use smtp_proxy_rs.Relay.{UpstreamVerdict, dropped, replied, verdict_replied, is_refusal}
use smtp_proxy_rs.Relay.Wire.{
  Race, pushed, push_failed, reply_ready, reader_failed, Wire, Outcome, done, failed, exhausted, R,
  bind_outcome, pure, UpstreamReply, read_reply, chunks, write_chunks, command,
}
use smtp_proxy_rs.Relay.Wire.Replies.{Ends, bind-Ends, Any, IsReply, read_reply-Ends}
use smtp_proxy_rs.Relay.Upstream.{
  UpstreamSession, early_verdict, race_of, later_races, after_race, push_pieces, write, tail_of,
  quit, conclude, terminate, finish,
}
use smtp_proxy_rs.Relay.Upstream.Ends.{write_chunks-Ends, command-Ends}

-- A verdict that a client can be told: the code is a refusal.
abbrev pub IsTellable : UpstreamVerdict → Type 0
IsTellable dropped = Unit
IsTellable (replied code text) = is_refusal code ≡ true

verdict_replied-IsTellable : (code : ℕ) (text : Bytes) → IsTellable (verdict_replied code text)
unfolding verdict_replied
verdict_replied-IsTellable code text = elim (Bool-cases (is_refusal code)) [
  | inl e ↦ rw e e
  | inr e ↦ rw e refl
]

abbrev pub IsTellableIfAny : Option UpstreamVerdict → Type 0
IsTellableIfAny none = Unit
IsTellableIfAny (some v) = IsTellable v

early_verdict-Ends :
    (o : Outcome UpstreamReply) (w : Wire)
    → Ends IsReply o
    → Ends IsTellable (early_verdict (o, w)).0
unfolding early_verdict
early_verdict-Ends (done r) w h = verdict_replied-IsTellable r.code r.text
early_verdict-Ends (failed e) w h = tt
early_verdict-Ends exhausted w h = h

after_race-Ends :
    (again : R (Option UpstreamVerdict)) (race : Race) (w : Wire)
    → Ends IsTellableIfAny (again w).0
    → Ends IsTellableIfAny (after_race again race w).0
after_race-Ends again pushed w h = h
after_race-Ends again push_failed w h = tt
after_race-Ends again reader_failed w h = tt
after_race-Ends again reply_ready w h =
    bind-Ends IsTellable IsTellableIfAny (λ v. early_verdict (read_reply v))
      (λ verdict. pure (some verdict)) w
      (early_verdict-Ends (read_reply w).0 (read_reply w).1 (read_reply-Ends w)) (λ _ _ k. k)

push_pieces-Ends : (pieces : List Bytes) (w : Wire) → Ends IsTellableIfAny (push_pieces pieces w).0
unfolding push_pieces
push_pieces-Ends [] w = tt
push_pieces-Ends (piece ∷ pieces) w =
    let raced = record w { races = later_races w.races; sent = (w.tls, piece) ∷ w.sent } in
    after_race-Ends (push_pieces pieces) (race_of w.races) raced (push_pieces-Ends pieces raced)

-- Whatever the network does: a piece of body is written, or there is a verdict whose code, if it has
-- one, lies from 400 to 599; and no loop runs out of fuel.
pub write-Ends : (u : UpstreamSession) (chunk : Bytes) → Ends IsTellableIfAny (write u chunk).0
unfolding write
write-Ends u chunk = elim (Bool-cases (is_empty chunk)) [
  | inl e ↦ rw e tt
  | inr e ↦ rw e (push_pieces-Ends (chunks chunk) u.wire)
]

abbrev pub IsTellableIfErr : Result UpstreamVerdict Bytes → Type 0
IsTellableIfErr (ok text) = Unit
IsTellableIfErr (err v) = IsTellable v

-- A step that comes to a result: it neither fails nor runs out of fuel.
abbrev pub Returns : {A : Type 0} → (A → Type 0) → Outcome A → Type 0
Returns P (done a) = P a
Returns P _ = ⊥

quit-Returns : (w : Wire) → Returns Any (quit w).0
unfolding quit
quit-Returns w =
    go (command (codes "QUIT") 2 w).0 (command (codes "QUIT") 2 w).1
      (command-Ends (codes "QUIT") 2 w)
  where
    go :
        (o : Outcome UpstreamReply) (w' : Wire)
        → Ends IsReply o
        → Returns Any
            (elim o as (λ _. Outcome (Unit {0}) × Wire) [
              | exhausted ↦ (exhausted, w')
              | _ ↦ (done tt, w')
            ]).0
    go (done r) w' h = tt
    go (failed e) w' h = tt
    go exhausted w' h = h

quit_text-Returns :
    (m : Outcome (Unit {0}) × Wire) (text : Bytes)
    → Returns Any m.0
    → Returns IsTellableIfErr (bind_outcome m.0 m.1 (λ _. pure (ok text))).0
quit_text-Returns (done _, w) text h = tt
quit_text-Returns (failed e, w) text h = h
quit_text-Returns (exhausted, w) text h = h

conclude-Returns :
    (o : Outcome UpstreamReply) (w : Wire)
    → Ends IsReply o
    → Returns IsTellableIfErr (conclude (o, w)).0
unfolding conclude
conclude-Returns (done r) w h = elim (Bool-cases (r.code / 100 == 2)) [
  | inl e ↦ rw e (quit_text-Returns (quit w) r.text (quit-Returns w))
  | inr e ↦ rw e (verdict_replied-IsTellable r.code r.text)
]
conclude-Returns (failed e) w h = tt
conclude-Returns exhausted w h = h

terminate-Returns :
    (o : Outcome (Unit {0})) (w : Wire) → Ends Any o → Returns IsTellableIfErr (terminate (o, w)).0
unfolding terminate
terminate-Returns (done _) w h =
    conclude-Returns (read_reply w).0 (read_reply w).1 (read_reply-Ends w)
terminate-Returns (failed e) w h = tt
terminate-Returns exhausted w h = h

-- Whatever the network does, errors included: the end of a message comes to a text for the client, or
-- to a verdict whose code, if it has one, lies from 400 to 599. It never fails otherwise, and no loop
-- runs out of fuel.
pub finish-Returns : (u : UpstreamSession) → Returns IsTellableIfErr (finish u).0
unfolding finish
finish-Returns u =
    terminate-Returns (write_chunks (tail_of u.last_written) u.wire).0
      (write_chunks (tail_of u.last_written) u.wire).1
      (write_chunks-Ends (tail_of u.last_written) u.wire)
