-- ===== src/Relay/Upstream/Sealed.antt =====
-- src/relay.rs: a session with the upstream where TLS is required.
use smtp_proxy_rs.Prelude.{
  ℕ, ◌/◌, ◌≡◌, inl, inr, ◌⊎◌, Bool, true, List, [], ◌∷◌, ◌++◌, Option, none, some, arith, Bytes,
  codes, is_empty, ◌==◌, Bool-cases, ok, All,
}
use smtp_proxy_rs.Relay.{UpstreamVerdict}
use smtp_proxy_rs.Relay.Wire.{
  Race, pushed, push_failed, reply_ready, reader_failed, Wire, Outcome, done, failed, exhausted, R,
  ◌>>◌, pure, UpstreamReply, read_reply, chunks, write_chunks, command,
}
use smtp_proxy_rs.Relay.Upstream.{UpstreamTlsMode, dial, greet, UpstreamCaps}
use smtp_proxy_rs.Relay.Upstream.Keeps.{
  Keeps, bind-Keeps, Of, MaySend, read_reply-Keeps, command-Keeps, write_chunks-Keeps,
}
use smtp_proxy_rs.Server.Data.{crlf}
use smtp_proxy_rs.Relay.Upstream.{
  UpstreamSession, Envelope, Recipient, connect, mail_line, rcpt_line, send_recipients,
  open_transaction, early_verdict, race_of, later_races, after_race, push_pieces, write, tail_of,
  quit, conclude, terminate, finish,
}
use smtp_proxy_rs.Relay.Upstream.Secure.{IsGreeting, connect-Keeps}
use smtp_proxy_rs.Relay.Upstream.Handshake.{Gives, InTls, NeedsTls, connect-Gives}

-- What is handed to the transport goes inside TLS, unless it is an EHLO, a HELO or STARTTLS.
abbrev pub ArePrivate : List (Bool × Bytes) → Type 0
ArePrivate = All λ s. (s.0 ≡ true) ⊎ IsGreeting s.1

-- And there is TLS.
abbrev pub Sealed : List (Bool × Bytes) → Bool → Type 0
Sealed s t = (t ≡ true) × ArePrivate s

may_send : (pieces : List Bytes) → All (MaySend Sealed) pieces
may_send [] = tt
may_send (piece ∷ pieces) = ((λ s t i. (i.0, (inl i.0, i.1))), may_send pieces)

command-Sealed : (line : Bytes) (class : ℕ) → Keeps (Of Sealed) (command line class)
command-Sealed line class = command-Keeps Sealed line class (may_send (chunks (line ++ crlf)))

send_recipients-Sealed :
    (caps : UpstreamCaps) (rs : List Recipient) → Keeps (Of Sealed) (send_recipients caps rs)
unfolding send_recipients
send_recipients-Sealed caps [] w i =
    bind-Keeps (Of Sealed) (command (codes "DATA") 3) (λ _. pure tt)
      (command-Sealed (codes "DATA") 3) (λ _ _ k. k) w i
send_recipients-Sealed caps (r ∷ rs) w i =
    bind-Keeps (Of Sealed) (command (rcpt_line caps r) 2) (λ _. send_recipients caps rs)
      (command-Sealed (rcpt_line caps r) 2) (λ _. send_recipients-Sealed caps rs) w i

open_transaction-Sealed :
    (caps : UpstreamCaps) (envelope : Envelope) → Keeps (Of Sealed) (open_transaction caps envelope)
unfolding open_transaction
open_transaction-Sealed caps envelope =
    bind-Keeps (Of Sealed) (command (mail_line caps envelope) 2)
      (λ _. send_recipients caps envelope.recipients) (command-Sealed (mail_line caps envelope) 2)
      (λ _. send_recipients-Sealed caps envelope.recipients)

early_verdict-Sealed :
    (o : Outcome UpstreamReply) (w : Wire) → Of Sealed w → Of Sealed (early_verdict (o, w)).1
unfolding early_verdict
early_verdict-Sealed (done r) w i = i
early_verdict-Sealed (failed e) w i = i
early_verdict-Sealed exhausted w i = i

after_race-Sealed :
    (again : R (Option UpstreamVerdict)) (race : Race)
    → Keeps (Of Sealed) again
    → Keeps (Of Sealed) (after_race again race)
after_race-Sealed again pushed h w i = h w i
after_race-Sealed again push_failed h w i = i
after_race-Sealed again reader_failed h w i = i
after_race-Sealed again reply_ready h w i =
    bind-Keeps (Of Sealed) (λ v. early_verdict (read_reply v)) (λ verdict. pure (some verdict))
      (λ v k. early_verdict-Sealed (read_reply v).0 (read_reply v).1 (read_reply-Keeps Sealed v k))
      (λ _ _ k. k) w i

push_pieces-Sealed : (pieces : List Bytes) → Keeps (Of Sealed) (push_pieces pieces)
unfolding push_pieces
push_pieces-Sealed [] w i = i
push_pieces-Sealed (piece ∷ pieces) w i =
    after_race-Sealed (push_pieces pieces) (race_of w.races) (push_pieces-Sealed pieces)
      (record w { races = later_races w.races; sent = (w.tls, piece) ∷ w.sent })
      (i.0, (inl i.0, i.1))

write-Sealed :
    (u : UpstreamSession) (chunk : Bytes) → Of Sealed u.wire → Of Sealed (write u chunk).1.wire
unfolding write
write-Sealed u chunk i = elim (Bool-cases (is_empty chunk)) [
  | inl e ↦ rw e i
  | inr e ↦ rw e (push_pieces-Sealed (chunks chunk) u.wire i)
]

quit-Sealed : Keeps (Of Sealed) quit
unfolding quit
quit-Sealed w i =
    go (command (codes "QUIT") 2 w).0 (command (codes "QUIT") 2 w).1
      (command-Sealed (codes "QUIT") 2 w i)
  where
    go :
        (o : Outcome UpstreamReply) (w' : Wire)
        → Of Sealed w'
        → Of Sealed
            (elim o as (λ _. Outcome (Unit {0}) × Wire) [
              | exhausted ↦ (exhausted, w')
              | _ ↦ (done tt, w')
            ]).1
    go (done r) w' k = k
    go (failed e) w' k = k
    go exhausted w' k = k

conclude-Sealed :
    (o : Outcome UpstreamReply) (w : Wire) → Of Sealed w → Of Sealed (conclude (o, w)).1
unfolding conclude
conclude-Sealed (done r) w i = elim (Bool-cases (r.code / 100 == 2)) [
  | inl e ↦ rw e (bind-Keeps (Of Sealed) quit (λ _. pure (ok r.text)) quit-Sealed (λ _ _ k. k) w i)
  | inr e ↦ rw e i
]
conclude-Sealed (failed e) w i = i
conclude-Sealed exhausted w i = i

terminate-Sealed :
    (o : Outcome (Unit {0})) (w : Wire) → Of Sealed w → Of Sealed (terminate (o, w)).1
unfolding terminate
terminate-Sealed (done _) w i =
    conclude-Sealed (read_reply w).0 (read_reply w).1 (read_reply-Keeps Sealed w i)
terminate-Sealed (failed e) w i = i
terminate-Sealed exhausted w i = i

finish-Sealed : (u : UpstreamSession) → Of Sealed u.wire → Of Sealed (finish u).1
unfolding finish
finish-Sealed u i =
    let tail = tail_of u.last_written in
    terminate-Sealed (write_chunks tail u.wire).0 (write_chunks tail u.wire).1
      (write_chunks-Keeps Sealed tail (may_send (chunks tail)) u.wire i)

-- What a session is driven to: messages are opened on it and bodies written, in any order.
pub data Driven (u : UpstreamSession) : UpstreamSession → Type 0 where
  connected : Driven u u
  opened :
      {v : UpstreamSession} (envelope : Envelope)
      → Driven u v
      → Driven u (record v { wire = (open_transaction v.caps envelope v.wire).1 })
  written : {v : UpstreamSession} (chunk : Bytes) → Driven u v → Driven u (write v chunk).1

Driven-Sealed : (u v : UpstreamSession) → Of Sealed u.wire → Driven u v → Of Sealed v.wire
Driven-Sealed u _ i connected = i
Driven-Sealed u _ i (opened {v} envelope d) =
    open_transaction-Sealed v.caps envelope v.wire (Driven-Sealed u v i d)
Driven-Sealed u _ i (written {v} chunk d) = write-Sealed v chunk (Driven-Sealed u v i d)

connected_wire :
    (o : Outcome UpstreamCaps) (w : Wire) (u : UpstreamSession)
    → elim o as (λ _. Outcome UpstreamSession) [
      | done caps ↦ done (record { wire = w; caps = caps; last_written = none })
      | failed e ↦ failed e
      | exhausted ↦ exhausted
    ]
      ≡ done u
    → Gives InTls (o, w)
    → (u.wire ≡ w) × (w.tls ≡ true)
connected_wire (done caps) w u e i = (ground arith, i)
connected_wire (failed t) w u e i = cc
connected_wire exhausted w u e i = cc

-- Where TLS is required or implicit, whatever the network does: on a connection that is new, or of
-- which nothing was sent but what may be sent without TLS, a session that is connected is inside TLS,
-- and so it is whatever messages are opened on it and bodies written, and at its end; and all that
-- was ever handed to the transport outside of TLS is an EHLO, a HELO or STARTTLS.
pub finish_private :
    (mode : UpstreamTlsMode) (w : Wire) (u v : UpstreamSession)
    → NeedsTls mode
    → ArePrivate w.sent
    → connect mode w ≡ done u
    → Driven u v
    → ((finish v).1.tls ≡ true) × ArePrivate (finish v).1.sent
unfolding connect
finish_private mode w u v needs private e d =
    let m = dial mode >> greet mode in
    let (same, inside) = connected_wire (m w).0 (m w).1 u e (connect-Gives mode w needs) in
    let kept =
      connect-Keeps (λ s _. ArePrivate s) (λ line h s t k. (inr h, k)) (λ s t k. k) mode w
        private in
    let sealed : Of Sealed u.wire = rw same (inside, kept) in
    finish-Sealed v (Driven-Sealed u v sealed d)
