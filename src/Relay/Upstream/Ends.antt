-- ===== src/Relay/Upstream/Ends.antt =====
-- src/relay.rs: each step of a session with the upstream, whatever the network does.
use smtp_proxy_rs.Prelude.{
  ℕ, ◌/◌, inl, inr, Bool, true, false, List, [], ◌∷◌, ◌++◌, Option, none, some, Bytes, codes,
  is_empty, ◌==◌, if◌then◌else◌, Bool-cases, Result, ok, err,
}
use smtp_proxy_rs.Relay.{RelayError, io, rejected, address, timeout, tls, no_start_tls}
use smtp_proxy_rs.Relay.Wire.{
  Arrival, Wire, Outcome, done, failed, exhausted, ◌>>=◌, ◌>>◌, pure, UpstreamReply, read_reply,
  chunks, write_outcome, write_all, flush, write_pieces, write_chunks, send_command, require_class,
  command,
}
use smtp_proxy_rs.Relay.Wire.Replies.{Ends, bind-Ends, Any, IsReply, read_reply-Ends}
use smtp_proxy_rs.Relay.Wire.{TlsHandshake}
use smtp_proxy_rs.Relay.Upstream.{
  UpstreamTlsMode, off, opportunistic, required, implicit, shaken, next_handshake, handshake,
  upgrade, ehlo, helo, after_ehlo, want_tls, start_tls, greeted, secure, say_ehlo, open_upstream,
  dial, greet, caps_of, UpstreamCaps, UpstreamSession, Envelope, Recipient, connect, mail_line,
  rcpt_line, send_recipients, open_transaction,
}
use smtp_proxy_rs.Server.Data.{crlf}
use smtp_proxy_rs.Smtp.Extensions.{Extensions, parse_extensions, contains_key}

write_outcome-Ends : (ws : List (Option RelayError)) (w : Wire) → Ends Any (write_outcome ws w).0
write_outcome-Ends [] w = tt
write_outcome-Ends (none ∷ ws) w = tt
write_outcome-Ends (some e ∷ ws) w = tt

write_pieces-Ends : (pieces : List Bytes) (w : Wire) → Ends Any (write_pieces pieces w).0
unfolding write_pieces write_all flush
write_pieces-Ends [] w = tt
write_pieces-Ends (piece ∷ pieces) w =
    bind-Ends Any Any (write_all piece >> flush) (λ _. write_pieces pieces) w
      (bind-Ends Any Any (write_all piece) (λ _. flush) w (write_outcome-Ends w.writes _)
        (λ _ w' _. write_outcome-Ends w'.writes w'))
      (λ _ w' _. write_pieces-Ends pieces w')

pub write_chunks-Ends : (payload : Bytes) (w : Wire) → Ends Any (write_chunks payload w).0
unfolding write_chunks
write_chunks-Ends payload w = write_pieces-Ends (chunks payload) w

require_class-Ends :
    (class : ℕ) (r : UpstreamReply) (w : Wire)
    → IsReply r
    → Ends IsReply (require_class class r w).0
unfolding require_class
require_class-Ends class r w h = elim (Bool-cases (r.code / 100 == class)) [
  | inl e ↦ rw e h
  | inr e ↦ rw e tt
]

pub command-Ends : (line : Bytes) (class : ℕ) (w : Wire) → Ends IsReply (command line class w).0
unfolding command send_command
command-Ends line class w =
    bind-Ends IsReply IsReply (send_command line >> read_reply) (require_class class) w
      (bind-Ends Any IsReply (send_command line) (λ _. read_reply) w
        (write_chunks-Ends (line ++ crlf) w) (λ _ w' _. read_reply-Ends w'))
      (λ r w' h. require_class-Ends class r w' h)

shaken-Ends :
    (hs : List TlsHandshake) (r : Result RelayError (List Arrival)) (w : Wire)
    → Ends Any (shaken hs r w).0
shaken-Ends hs (err e) w = tt
shaken-Ends hs (ok reads) w = tt

next_handshake-Ends : (hs : List TlsHandshake) (w : Wire) → Ends Any (next_handshake hs w).0
next_handshake-Ends [] w = tt
next_handshake-Ends (accept ∷ hs) w = shaken-Ends hs (accept w.reads) w

handshake-Ends : (w : Wire) → Ends Any (handshake w).0
unfolding handshake
handshake-Ends w = next_handshake-Ends w.handshakes w

upgrade-Ends : (w : Wire) → Ends Any (upgrade w).0
unfolding upgrade
upgrade-Ends w = elim (Bool-cases (is_empty w.buffer)) [
  | inl e ↦ rw e (handshake-Ends w)
  | inr e ↦ rw e tt
]

after_ehlo-Ends :
    (o : Outcome UpstreamReply) (w : Wire) → Ends IsReply o → Ends Any (after_ehlo (o, w)).0
unfolding after_ehlo
after_ehlo-Ends (done r) w h = tt
after_ehlo-Ends (failed (rejected code text)) w h = elim (Bool-cases (code / 100 == 5)) [
  | inl e ↦ rw e (
      bind-Ends IsReply Any (command helo 2) (λ _. pure []) w (command-Ends helo 2 w) (λ _ _ _. tt))
  | inr e ↦ rw e tt
]
after_ehlo-Ends (failed (io t)) w h = tt
after_ehlo-Ends (failed (address t)) w h = tt
after_ehlo-Ends (failed timeout) w h = tt
after_ehlo-Ends (failed (tls t)) w h = tt
after_ehlo-Ends (failed no_start_tls) w h = tt
after_ehlo-Ends exhausted w h = h

want_tls-Ends :
    (mode : UpstreamTlsMode) (x : Extensions) (w : Wire) → Ends Any (want_tls mode x w).0
unfolding want_tls
want_tls-Ends off x w = tt
want_tls-Ends implicit x w = tt
want_tls-Ends opportunistic x w = tt
want_tls-Ends required x w = elim (Bool-cases (contains_key x (codes "STARTTLS"))) [
  | inl e ↦ rw e tt
  | inr e ↦ rw e tt
]

start_tls-Ends : (w : Wire) → Ends Any (start_tls w).0
unfolding start_tls
start_tls-Ends w =
    bind-Ends IsReply Any (command (codes "STARTTLS") 2 >> upgrade >> command ehlo 2)
      (λ r. pure (parse_extensions r.raw)) w
      (bind-Ends Any IsReply (command (codes "STARTTLS") 2 >> upgrade) (λ _. command ehlo 2) w
        (bind-Ends IsReply Any (command (codes "STARTTLS") 2) (λ _. upgrade) w
          (command-Ends (codes "STARTTLS") 2 w) (λ _ w' _. upgrade-Ends w'))
        (λ _ w' _. command-Ends ehlo 2 w'))
      (λ _ _ _. tt)

greeted-Ends : (r : UpstreamReply) (w : Wire) → Ends Any (greeted r w).0
unfolding greeted
greeted-Ends r w = elim (Bool-cases (r.code / 100 == 2)) [ inl e ↦ rw e tt | inr e ↦ rw e tt ]

secure-Ends : (mode : UpstreamTlsMode) (x : Extensions) (w : Wire) → Ends Any (secure mode x w).0
unfolding secure
secure-Ends mode x w =
    bind-Ends Any Any (want_tls mode x) (λ want. if want then start_tls else pure x) w
      (want_tls-Ends mode x w) branch
  where
    branch :
        (want : Bool) (w' : Wire) → Any want → Ends Any ((if want then start_tls else pure x) w').0
    branch true w' _ = start_tls-Ends w'
    branch false w' _ = tt

pub open_upstream-Ends : (mode : UpstreamTlsMode) (w : Wire) → Ends Any (open_upstream mode w).0
unfolding open_upstream say_ehlo
open_upstream-Ends mode w =
    bind-Ends Any Any (read_reply >>= greeted >> say_ehlo) (secure mode) w
      (bind-Ends Any Any (read_reply >>= greeted) (λ _. say_ehlo) w
        (bind-Ends IsReply Any read_reply greeted w (read_reply-Ends w)
          (λ r w' _. greeted-Ends r w'))
        (λ _ w' _.
          after_ehlo-Ends (command ehlo 2 w').0 (command ehlo 2 w').1 (command-Ends ehlo 2 w')))
      (λ x w' _. secure-Ends mode x w')

dial-Ends : (mode : UpstreamTlsMode) (w : Wire) → Ends Any (dial mode w).0
unfolding dial
dial-Ends off w = tt
dial-Ends opportunistic w = tt
dial-Ends required w = tt
dial-Ends implicit w = handshake-Ends w

greet-Ends : (mode : UpstreamTlsMode) (w : Wire) → Ends Any (greet mode w).0
unfolding greet
greet-Ends mode w =
    bind-Ends Any Any (open_upstream mode) (λ x. pure (caps_of x)) w (open_upstream-Ends mode w)
      (λ _ _ _. tt)

connected-Ends :
    (o : Outcome UpstreamCaps) (w : Wire)
    → Ends Any o
    → Ends Any (elim o as (λ _. Outcome UpstreamSession) [
      | done caps ↦ done (record { wire = w; caps = caps; last_written = none })
      | failed e ↦ failed e
      | exhausted ↦ exhausted
    ])
connected-Ends (done caps) w h = tt
connected-Ends (failed e) w h = tt
connected-Ends exhausted w h = h

-- Whatever the network does: connecting, in every mode of TLS, comes to an end, and no loop runs out
-- of fuel.
pub connect-Ends : (mode : UpstreamTlsMode) (w : Wire) → Ends Any (connect mode w)
unfolding connect
connect-Ends mode w =
    connected-Ends ((dial mode >> greet mode) w).0 ((dial mode >> greet mode) w).1 (
      bind-Ends Any Any (dial mode) (λ _. greet mode) w (dial-Ends mode w)
        (λ _ w' _. greet-Ends mode w'))

send_recipients-Ends :
    (caps : UpstreamCaps) (rs : List Recipient) (w : Wire) → Ends Any (send_recipients caps rs w).0
unfolding send_recipients
send_recipients-Ends caps [] w =
    bind-Ends IsReply Any (command (codes "DATA") 3) (λ _. pure tt) w
      (command-Ends (codes "DATA") 3 w) (λ _ _ _. tt)
send_recipients-Ends caps (r ∷ rs) w =
    bind-Ends IsReply Any (command (rcpt_line caps r) 2) (λ _. send_recipients caps rs) w
      (command-Ends (rcpt_line caps r) 2 w) (λ _ w' _. send_recipients-Ends caps rs w')

-- Whatever the network does: the envelope is sent, or the opening of a message fails, and no loop
-- runs out of fuel.
pub open_transaction-Ends :
    (caps : UpstreamCaps) (envelope : Envelope) (w : Wire)
    → Ends Any (open_transaction caps envelope w).0
unfolding open_transaction
open_transaction-Ends caps envelope w =
    bind-Ends IsReply Any (command (mail_line caps envelope) 2)
      (λ _. send_recipients caps envelope.recipients) w (command-Ends (mail_line caps envelope) 2 w)
      (λ _ w' _. send_recipients-Ends caps envelope.recipients w')
