-- ===== src/Tests/Upstream.antt =====
-- src/relay.rs on concrete inputs: a message sent to an upstream over TLS.
use smtp_proxy_rs.Prelude.{
  ℕ, ◌≡◌, refl, ap, ◌∙◌, Bool, true, false, List, [], ◌∷◌, ◌++◌, none, Bytes, codes, All, ok,
  from_utf8,
}
use smtp_proxy_rs.Prelude.Utf8.{utf8_from, utf8_step}
use smtp_proxy_rs.Relay.{rejected}
use smtp_proxy_rs.Relay.Upstream.{
  implicit, ehlo, helo, UpstreamCaps, UpstreamSession, connect, Envelope, Recipient, handshake,
  greeted, open_upstream, say_ehlo, after_ehlo, secure, want_tls, greet, caps_of, mail_line,
  rcpt_line, send_recipients, open_transaction, write, finish, last_of, tail_of,
}
use smtp_proxy_rs.Relay.Wire.{
  Wire, Arrival, data_read, done, failed, exhausted, R, ◌>>=◌, ◌>>◌, pure, bind_outcome,
  UpstreamReply, read_reply, command,
}
use smtp_proxy_rs.Server.Data.{crlf}
use smtp_proxy_rs.Relay.{assert_relayable}
use smtp_proxy_rs.Relay.Suffixes.{InLine}
use smtp_proxy_rs.Relay.Wire.Replies.{Ends, IsReply, read_reply-Ends}
use smtp_proxy_rs.Server.Data.BodyFramer.Smuggling.{start, found, scan}
use smtp_proxy_rs.Relay.Upstream.Body.{Written, nothing, more, stream}
use smtp_proxy_rs.Relay.Upstream.Terminator.{finish_terminated}
use smtp_proxy_rs.Relay.Upstream.Sealed.{ArePrivate, connected, opened, written, finish_private}
use smtp_proxy_rs.Relay.Upstream.Verdicts.{IsTellableIfErr, Returns, finish-Returns}
use smtp_proxy_rs.Relay.Upstream.Commands.{IsSendable, envelope_lines-InLine}

abbrev wire_of : List Arrival → List (Bool × Bytes) → Wire
wire_of reads sent = record {
  buffer = [];
  reads = reads;
  writes = [];
  races = [];
  handshakes = [];
  tls = true;
  sent = sent;
}

-- What an upstream says that knows no EHLO, from what it says to DATA back to its greeting.
abbrev data_reads : List Arrival
data_reads = data_read (codes "354\n") ∷ data_read (codes "250\n") ∷ data_read (codes "221\n") ∷ []

abbrev mail_reads : List Arrival
mail_reads = data_read (codes "250\n") ∷ data_read (codes "251\n") ∷ data_reads

abbrev helo_reads : List Arrival
helo_reads = data_read (codes "250\n") ∷ mail_reads

abbrev ehlo_reads : List Arrival
ehlo_reads = data_read (codes "500\n") ∷ helo_reads

abbrev pub not_connected : Wire
not_connected = record {
  buffer = [];
  reads = [];
  writes = [];
  races = [];
  handshakes = (λ plain. ok (data_read (codes "220\n") ∷ ehlo_reads)) ∷ [];
  tls = false;
  sent = [];
}

abbrev line_sent : Bytes → Bool × Bytes
line_sent line = (true, line ++ crlf)

abbrev greeting_sent : List (Bool × Bytes)
greeting_sent = line_sent helo ∷ line_sent ehlo ∷ []

abbrev reply_of : ℕ → Bytes → UpstreamReply
reply_of code raw = record { code = code; text = []; raw = raw }

greeting_read :
    read_reply (wire_of (data_read (codes "220\n") ∷ ehlo_reads) [])
    ≡ (done (reply_of 220 (codes "220\n")), wire_of ehlo_reads [])
unfolding read_reply from_utf8 utf8_from utf8_step
greeting_read = refl

ehlo_refused :
    command ehlo 2 (wire_of ehlo_reads [])
    ≡ (failed (rejected 500 []), wire_of helo_reads (line_sent ehlo ∷ []))
unfolding command from_utf8 utf8_from utf8_step
ehlo_refused = refl

helo_accepted :
    command helo 2 (wire_of helo_reads (line_sent ehlo ∷ []))
    ≡ (done (reply_of 250 (codes "250\n")), wire_of mail_reads greeting_sent)
unfolding command from_utf8 utf8_from utf8_step
helo_accepted = refl

abbrev no_caps : UpstreamCaps
no_caps = record { dsn = false; size = none; size_announced = false }

abbrev pub session : UpstreamSession
session = record { wire = wire_of mail_reads greeting_sent; caps = no_caps; last_written = none }

then :
    {A B : Type 0} (m : R A) (f : A → R B) (w w' : Wire) (a : A)
    → m w ≡ (done a, w')
    → (m >>= f) w ≡ f a w'
then m f w w' a e = ap (λ p. bind_outcome p.0 p.1 f) e

-- A connection over TLS that says HELO behind a refused EHLO.
open_by_helo :
    (w0 w1 w2 w3 : Wire) (greeting accepted : UpstreamReply) (text : Bytes)
    → read_reply w0 ≡ (done greeting, w1)
    → greeted greeting w1 ≡ (done tt, w1)
    → command ehlo 2 w1 ≡ (failed (rejected 500 text), w2)
    → command helo 2 w2 ≡ (done accepted, w3)
    → open_upstream implicit w0 ≡ (done [], w3)
unfolding open_upstream say_ehlo after_ehlo secure want_tls
open_by_helo w0 w1 w2 w3 greeting accepted text h1 h2 h3 h4 =
    then (read_reply >>= greeted >> say_ehlo) (secure implicit) w0 w3 [] (
      then (read_reply >>= greeted) (λ _. say_ehlo) w0 w1 tt
        (then read_reply greeted w0 w1 greeting h1 ∙ h2)
      ∙ (ap after_ehlo h3 ∙ then (command helo 2) (λ _. pure []) w2 w3 accepted h4))

connect_opened :
    (first w0 w3 : Wire)
    → handshake first ≡ (done tt, w0)
    → open_upstream implicit w0 ≡ (done [], w3)
    → connect implicit first ≡ done (record { wire = w3; caps = caps_of []; last_written = none })
unfolding connect
connect_opened first w0 w3 h0 h =
    ap
      (λ p. elim p.0 [
        | done caps ↦ done (record { wire = p.1; caps = caps; last_written = none })
        | failed e ↦ failed e
        | exhausted ↦ exhausted
      ])
      (then handshake (λ _. greet implicit) first w0 tt h0
        ∙ then (open_upstream implicit) (λ extensions. pure (caps_of extensions)) w0 w3 [] h)

abbrev greeted_wire : Wire
greeted_wire = wire_of (data_read (codes "220\n") ∷ ehlo_reads) []

opened_over_tls : open_upstream implicit greeted_wire ≡ (done [], session.wire)
unfolding greeted
opened_over_tls =
    open_by_helo greeted_wire (wire_of ehlo_reads []) (wire_of helo_reads (line_sent ehlo ∷ []))
      session.wire (reply_of 220 (codes "220\n")) (reply_of 250 (codes "250\n")) [] greeting_read
      refl ehlo_refused helo_accepted

shaken : handshake not_connected ≡ (done tt, greeted_wire)
unfolding handshake
shaken = refl

no_caps_of : caps_of [] ≡ no_caps
unfolding caps_of
no_caps_of = refl

pub connected_over_tls : connect implicit not_connected ≡ done session
connected_over_tls =
    connect_opened not_connected greeted_wire session.wire shaken opened_over_tls
    ∙ ap (λ caps. done (record { wire = session.wire; caps = caps; last_written = none }))
        no_caps_of

abbrev pub recipient : Recipient
recipient = record { address = codes "b@d"; parameters = [] }

abbrev pub envelope : Envelope
envelope = record { from = codes "a@c"; mail_params = []; recipients = recipient ∷ [] }

-- The session in whose transaction the envelope has been accepted.
abbrev pub in_transaction : UpstreamSession
in_transaction = record session {
  wire = wire_of (data_read (codes "250\n") ∷ data_read (codes "221\n") ∷ []) (
      line_sent (codes "DATA")
      ∷ line_sent (codes "RCPT TO:<b@d>")
      ∷ line_sent (codes "MAIL FROM:<a@c>")
      ∷ greeting_sent);
}

-- The connection behind MAIL.
abbrev mail_sent : Wire
mail_sent =
    wire_of (data_read (codes "251\n") ∷ data_reads)
      (line_sent (codes "MAIL FROM:<a@c>") ∷ greeting_sent)

mail_accepted :
    command (codes "MAIL FROM:<a@c>") 2 session.wire
    ≡ (done (reply_of 250 (codes "250\n")), mail_sent)
unfolding command from_utf8 utf8_from utf8_step
mail_accepted = refl

rcpt_accepted : command (codes "RCPT TO:<b@d>") 2 mail_sent ≡ (
  done (reply_of 251 (codes "251\n")),
  wire_of data_reads
      (line_sent (codes "RCPT TO:<b@d>") ∷ line_sent (codes "MAIL FROM:<a@c>") ∷ greeting_sent),
)
unfolding command from_utf8 utf8_from utf8_step
rcpt_accepted = refl

data_accepted :
    command (codes "DATA") 3 (
      wire_of data_reads
        (line_sent (codes "RCPT TO:<b@d>") ∷ line_sent (codes "MAIL FROM:<a@c>") ∷ greeting_sent))
    ≡ (done (reply_of 354 (codes "354\n")), in_transaction.wire)
unfolding command from_utf8 utf8_from utf8_step
data_accepted = refl

-- An envelope of one recipient, sent with success.
open_for_one :
    (caps : UpstreamCaps) (e : Envelope) (r : Recipient) (w0 w1 w2 w3 : Wire)
    (mail_reply rcpt_reply data_reply : UpstreamReply)
    → e.recipients ≡ r ∷ []
    → command (mail_line caps e) 2 w0 ≡ (done mail_reply, w1)
    → command (rcpt_line caps r) 2 w1 ≡ (done rcpt_reply, w2)
    → command (codes "DATA") 3 w2 ≡ (done data_reply, w3)
    → open_transaction caps e w0 ≡ (done tt, w3)
unfolding open_transaction send_recipients
open_for_one caps e r w0 w1 w2 w3 mail_reply rcpt_reply data_reply h h1 h2 h3 =
    then (command (mail_line caps e) 2) (λ _. send_recipients caps e.recipients) w0 w1 mail_reply h1
    ∙ (ap (λ rs. send_recipients caps rs w1) h
        ∙ (then (command (rcpt_line caps r) 2) (λ _. send_recipients caps []) w1 w2 rcpt_reply h2
            ∙ then (command (codes "DATA") 3) (λ _. pure tt) w2 w3 data_reply h3))

envelope_lines :
    (mail_line no_caps envelope ≡ codes "MAIL FROM:<a@c>")
    × (rcpt_line no_caps recipient ≡ codes "RCPT TO:<b@d>")
unfolding mail_line rcpt_line
envelope_lines = (refl, refl)

pub transaction_open :
    open_transaction no_caps envelope session.wire ≡ (done tt, in_transaction.wire)
transaction_open =
    open_for_one no_caps envelope recipient session.wire _ _ in_transaction.wire _ _ _ refl
      (ap (λ line. command line 2 session.wire) envelope_lines.0 ∙ mail_accepted)
      (ap (λ line. command line 2 mail_sent) envelope_lines.1 ∙ rcpt_accepted) data_accepted

abbrev body : Bytes
body = codes "hi\r\n"

body_written : (write in_transaction body).0 ≡ done none
unfolding write
body_written = refl

body-Written : Written in_transaction body (write in_transaction body).1
body-Written = more body nothing body_written

finish_terminated_example :
    ((rest : Bytes) × (stream (finish (write in_transaction body).1).1.sent
        ≡ (stream in_transaction.wire.sent ++ (body ++ tail_of (last_of body))) ++ rest))
    × (scan start (body ++ tail_of (last_of body)) ≡ found)
finish_terminated_example =
    finish_terminated in_transaction (write in_transaction body).1 body refl body-Written

abbrev body_session : UpstreamSession
body_session =
    (write (record session { wire = (open_transaction no_caps envelope session.wire).1 }) body).1

finish_private_example :
    ((finish body_session).1.tls ≡ true) × ArePrivate (finish body_session).1.sent
finish_private_example =
    finish_private implicit not_connected session body_session tt tt connected_over_tls
      (written body (opened envelope connected))

read_reply-Ends_example : Ends IsReply (read_reply greeted_wire).0
read_reply-Ends_example = read_reply-Ends greeted_wire

finish-Returns_example : Returns IsTellableIfErr (finish in_transaction).0
finish-Returns_example = finish-Returns in_transaction

envelope-IsSendable : IsSendable envelope
unfolding assert_relayable
envelope-IsSendable = record { from = refl; mail_params = tt; recipients = ((refl, tt), tt) }

envelope_lines-InLine_example :
    All InLine (mail_line no_caps envelope)
    × All (λ r. All InLine (rcpt_line no_caps r)) envelope.recipients
envelope_lines-InLine_example = envelope_lines-InLine no_caps envelope envelope-IsSendable
