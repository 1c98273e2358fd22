-- ===== src/Relay/Upstream/Exchange.antt =====
-- src/relay.rs, `open_transaction`: the commands of an envelope and the replies to them.
use smtp_proxy_rs.Prelude.{
  ℕ, ◌/◌, ◌≡◌, refl, sym, ap, ◌∙◌, inl, inr, List, [], ◌∷◌, ◌++◌, Option, none, some, arith, Bytes,
  codes, map, ◌==◌, Bool-cases,
}
use mathlib.Core.List.{append_assoc, append-nil}
use smtp_proxy_rs.Proxy.Headers.Stuffing.{flat}
use smtp_proxy_rs.Relay.{RelayError}
use smtp_proxy_rs.Relay.Wire.{
  Wire, Outcome, done, failed, exhausted, R, bind_outcome, ◌>>=◌, ◌>>◌, pure, UpstreamReply,
  read_reply, chunks, write_outcome, write_all, flush, write_pieces, write_chunks, send_command,
  require_class, command,
}
use smtp_proxy_rs.Relay.Upstream.{
  UpstreamCaps, Recipient, Envelope, mail_line, rcpt_line, send_recipients, open_transaction,
}
use smtp_proxy_rs.Relay.Upstream.Body.{stream, flat-chunks}
use smtp_proxy_rs.Relay.Upstream.Keeps.{read_reply-Keeps}
use smtp_proxy_rs.Server.Data.{crlf}

-- Each line is sent, and a reply of the class behind it is read before the next.
pub data Exchanged : List (Bytes × ℕ) → Wire → Wire → Type 0 where
  over : {w : Wire} → Exchanged [] w w
  accepted :
      {line : Bytes} {class : ℕ} {rest : List (Bytes × ℕ)} {w0 w1 w2 w3 : Wire}
      (reply : UpstreamReply)
      → send_command line w0 ≡ (done tt, w1)
      → read_reply w1 ≡ (done reply, w2)
      → reply.code / 100 ≡ class
      → Exchanged rest w2 w3
      → Exchanged ((line, class) ∷ rest) w0 w3

-- The commands that an envelope is sent as, and the class of the reply that each asks for.
abbrev pub commands : UpstreamCaps → Envelope → List (Bytes × ℕ)
commands caps e =
    (mail_line caps e, 2)
    ∷ (map (λ r. (rcpt_line caps r, 2)) e.recipients ++ (codes "DATA", 3) ∷ [])

-- The bytes of the commands.
abbrev pub bytes_of : List (Bytes × ℕ) → Bytes
bytes_of [] = []
bytes_of ((line, class) ∷ rest) = (line ++ crlf) ++ bytes_of rest

bind_done :
    {A B : Type 0} (m : R A) (f : A → R B) (w w' : Wire) (b : B)
    → (m >>= f) w ≡ (done b, w')
    → (a : A) × (m w ≡ (done a, (m w).1)) × (f a (m w).1 ≡ (done b, w'))
bind_done {A} {B} m f w w' b e = go (m w).0 (m w).1 e
  where
    go :
        (o : Outcome A) (v : Wire)
        → bind_outcome o v f ≡ (done b, w')
        → (a : A) × (◌≡◌ {A = Outcome A × Wire} (o, v) (done a, v)) × (f a v ≡ (done b, w'))
    go (done a) v e' = (a, refl, e')
    go (failed x) v e' = cc
    go exhausted v e' = cc

require_class_lem :
    (class : ℕ) (r a : UpstreamReply) (w w' : Wire)
    → require_class class r w ≡ (done a, w')
    → (r.code / 100 ≡ class) × (w ≡ w')
unfolding require_class
require_class_lem class r a w w' e = elim (Bool-cases (r.code / 100 == class)) [
  | inl same ↦ ground arith
  | inr other ↦ ground arith
]

-- A command that is accepted, with what is done behind it.
command-Exchanged :
    (line : Bytes) (class : ℕ) (rest : List (Bytes × ℕ)) (a : UpstreamReply) (w v u : Wire)
    → command line class w ≡ (done a, v)
    → Exchanged rest v u
    → Exchanged ((line, class) ∷ rest) w u
unfolding command
command-Exchanged line class rest a w v u e h =
    let (reply, e1, e2) =
      bind_done (send_command line >> read_reply) (require_class class) w v a e in
    let (sent, e3, e4) = bind_done (send_command line) (λ _. read_reply) w _ reply e1 in
    let (same, at) = require_class_lem class reply a _ v e2 in
    accepted reply e3 (e4 ∙ ap (λ x. (done reply, x)) at) same h

over_at : (w w' : Wire) → w ≡ w' → Exchanged [] w w'
over_at w w' e = rw e over

send_recipients-Exchanged :
    (caps : UpstreamCaps) (rs : List Recipient) (w w' : Wire)
    → send_recipients caps rs w ≡ (done tt, w')
    → Exchanged (map (λ r. (rcpt_line caps r, 2)) rs ++ (codes "DATA", 3) ∷ []) w w'
unfolding send_recipients
send_recipients-Exchanged caps [] w w' e =
    let (a, e1, e2) = bind_done (command (codes "DATA") 3) (λ _. pure tt) w w' tt e in
    command-Exchanged (codes "DATA") 3 [] a w _ w' e1 (over_at _ w' (ap (λ p. p.1) e2))
send_recipients-Exchanged caps (r ∷ rs) w w' e =
    let (a, e1, e2) =
      bind_done (command (rcpt_line caps r) 2) (λ _. send_recipients caps rs) w w' tt e in
    command-Exchanged (rcpt_line caps r) 2 _ a w _ w' e1 (send_recipients-Exchanged caps rs _ w' e2)

-- A transaction that is open: each of its commands was sent and accepted.
pub open_transaction-Exchanged :
    (caps : UpstreamCaps) (e : Envelope) (w w' : Wire)
    → open_transaction caps e w ≡ (done tt, w')
    → Exchanged (commands caps e) w w'
unfolding open_transaction
open_transaction-Exchanged caps e w w' h =
    let (a, e1, e2) =
      bind_done (command (mail_line caps e) 2) (λ _. send_recipients caps e.recipients) w w' tt h in
    command-Exchanged (mail_line caps e) 2 _ a w _ w' e1
      (send_recipients-Exchanged caps e.recipients _ w' e2)

write_outcome-sent :
    (ws : List (Option RelayError)) (w : Wire) → (write_outcome ws w).1.sent ≡ w.sent
write_outcome-sent [] w = refl
write_outcome-sent (none ∷ ws) w = refl
write_outcome-sent (some e ∷ ws) w = refl

write_pieces-stream :
    (pieces : List Bytes) (w w' : Wire)
    → write_pieces pieces w ≡ (done tt, w')
    → stream w'.sent ≡ stream w.sent ++ flat pieces
unfolding write_pieces write_all flush stream
write_pieces-stream [] w w' e = ap (λ p. stream p.1.sent) (sym e) ∙ sym (append-nil (stream w.sent))
write_pieces-stream (piece ∷ pieces) w w' e =
    let (a, e1, e2) = bind_done (write_all piece >> flush) (λ _. write_pieces pieces) w w' tt e in
    let (b, e3, e4) = bind_done (write_all piece) (λ _. flush) w _ a e1 in
    let pushed = write_outcome-sent w.writes (record w { sent = (w.tls, piece) ∷ w.sent }) in
    let flushed = write_outcome-sent (write_all piece w).1.writes (write_all piece w).1 in
    let same = ap (λ p. p.1.sent) (sym e4) ∙ (flushed ∙ pushed) in
    write_pieces-stream pieces _ w' e2
    ∙ (ap (λ s. stream s ++ flat pieces) same ∙ append_assoc (stream w.sent) piece (flat pieces))

send_command-stream :
    (line : Bytes) (w w' : Wire)
    → send_command line w ≡ (done tt, w')
    → stream w'.sent ≡ stream w.sent ++ (line ++ crlf)
unfolding send_command write_chunks
send_command-stream line w w' e =
    write_pieces-stream (chunks (line ++ crlf)) w w' e
    ∙ ap (λ b. stream w.sent ++ b) (flat-chunks (line ++ crlf))

read_reply-sent : (w : Wire) → (read_reply w).1.sent ≡ w.sent
read_reply-sent w = read_reply-Keeps (λ s t. s ≡ w.sent) w refl

-- What is handed to the transport for commands that are exchanged is their lines.
pub Exchanged-stream :
    {cs : List (Bytes × ℕ)} {w w' : Wire}
    → Exchanged cs w w'
    → stream w'.sent ≡ stream w.sent ++ bytes_of cs
Exchanged-stream {w = w} over = sym (append-nil (stream w.sent))
Exchanged-stream {w = w} (accepted {line} {class} {rest} {w0} {w1} {w2} {w3} reply e1 e2 e3 h) =
    let read = ap (λ p. p.1.sent) (sym e2) ∙ read_reply-sent w1 in
    Exchanged-stream h
    ∙ (ap (λ s. stream s ++ bytes_of rest) read
        ∙ (ap (λ b. b ++ bytes_of rest) (send_command-stream line w0 w1 e1)
            ∙ append_assoc (stream w0.sent) (line ++ crlf) (bytes_of rest)))
