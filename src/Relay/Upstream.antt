-- ===== src/Relay/Upstream.antt =====
-- src/relay.rs: a session with the upstream, from its greeting to the end of a message.
pub mod Ends
pub mod Keeps
pub mod Verdicts
pub mod Secure
pub mod Handshake
pub mod Sealed
pub mod Commands
pub mod Body
pub mod Exchange
pub mod Terminator
use smtp_proxy_rs.Prelude.{
  ℕ, ◌/◌, Bool, true, false, not, ◌&&◌, List, [], ◌∷◌, ◌++◌, Option, none, some, Bytes, codes,
  is_empty, ◌==◌, if◌then◌else◌, Result, ok, err, eq_ignore_ascii_case,
}
use smtp_proxy_rs.Relay.{
  RelayError, rejected, tls, no_start_tls, UpstreamVerdict, dropped, verdict_replied, dsn_suffix,
  size_suffix,
}
use smtp_proxy_rs.Relay.Wire.{
  Arrival, TlsHandshake, Race, pushed, push_failed, reply_ready, reader_failed, Wire, Outcome, done,
  failed, exhausted, R, ◌>>=◌, ◌>>◌, pure, fail, UpstreamReply, read_reply, chunks, write_chunks,
  command,
}
use smtp_proxy_rs.Server.Data.{lf, crlf}
use smtp_proxy_rs.Smtp.Dsn.{is_mail_dsn_keyword, is_rcpt_dsn_keyword}
use smtp_proxy_rs.Smtp.Extensions.{Extensions, contains_key, size, parse_extensions}
use smtp_proxy_rs.Smtp.Params.{Param}

pub data UpstreamTlsMode : Type 0 where
  off opportunistic required implicit : UpstreamTlsMode

abbrev pub hello : Bytes
hello = codes "localhost.localdomain"

pub record UpstreamCaps : Type 0 where
  pub dsn : Bool
  pub size : Option ℕ
  pub size_announced : Bool

-- `UpstreamCaps::of`
unfoldable pub caps_of : Extensions → UpstreamCaps
unfolding contains_key size
caps_of extensions = record {
  dsn = contains_key extensions (codes "DSN");
  size = size extensions;
  size_announced = contains_key extensions (codes "SIZE");
}

-- An upstream that completes a handshake is read inside TLS from there on.
abbrev pub shaken :
    List TlsHandshake → Result RelayError (List Arrival) → Wire → Outcome (Unit {0}) × Wire
shaken later (err e) w = (failed e, record w { handshakes = later })
shaken later (ok reads) w =
    (done tt, record w { handshakes = later; buffer = []; reads = reads; tls = true })

-- The next handshake of TLS, over what is still to be read.
abbrev pub next_handshake : List TlsHandshake → Wire → Outcome (Unit {0}) × Wire
next_handshake [] w = (failed (tls (codes "no TLS client configuration")), w)
next_handshake (accept ∷ later) w = shaken later (accept w.reads) w

unfoldable pub handshake : R (Unit {0})
handshake w = next_handshake w.handshakes w

unfoldable pub upgrade : R (Unit {0})
unfolding handshake
upgrade w =
    if not (is_empty w.buffer)
    then (failed (tls (codes "the upstream sent data after its reply to STARTTLS")), w)
    else handshake w

abbrev pub ehlo : Bytes
ehlo = codes "EHLO " ++ hello

abbrev pub helo : Bytes
helo = codes "HELO " ++ hello

-- what becomes of the EHLO: its extensions, or a HELO where it is refused with a 5xx
unfoldable pub after_ehlo : Outcome UpstreamReply × Wire → Outcome Extensions × Wire
unfolding command parse_extensions
after_ehlo (done reply, w) = (done (parse_extensions reply.raw), w)
after_ehlo (failed (rejected code text), w) =
    if code / 100 == 5 then (command helo 2 >> pure []) w else (failed (rejected code text), w)
after_ehlo (failed e, w) = (failed e, w)
after_ehlo (exhausted, w) = (exhausted, w)

-- whether the connection is to be upgraded
unfoldable pub want_tls : UpstreamTlsMode → Extensions → R Bool
unfolding contains_key
want_tls off extensions = pure false
want_tls implicit extensions = pure false
want_tls opportunistic extensions = pure (contains_key extensions (codes "STARTTLS"))
want_tls required extensions =
    if not (contains_key extensions (codes "STARTTLS")) then fail no_start_tls else pure true

unfoldable pub start_tls : R Extensions
unfolding command upgrade parse_extensions
start_tls = command (codes "STARTTLS") 2 >> upgrade >> command ehlo 2 >>= λ reply.
    pure (parse_extensions reply.raw)

unfoldable pub greeted : UpstreamReply → R (Unit {0})
greeted greeting =
    if not (greeting.code / 100 == 2) then fail (rejected greeting.code greeting.text) else pure tt

-- `open` behind its EHLO
unfoldable pub secure : UpstreamTlsMode → Extensions → R Extensions
unfolding want_tls start_tls
secure mode extensions =
    want_tls mode extensions >>= λ want. if want then start_tls else pure extensions

-- the EHLO behind the greeting
unfoldable pub say_ehlo : R Extensions
unfolding command after_ehlo
say_ehlo w = after_ehlo (command ehlo 2 w)

-- `open`
unfoldable pub open_upstream : UpstreamTlsMode → R Extensions
unfolding read_reply greeted say_ehlo secure
open_upstream mode = read_reply >>= greeted >> say_ehlo >>= secure mode

-- `dial` behind the TCP connection
unfoldable pub dial : UpstreamTlsMode → R (Unit {0})
unfolding handshake
dial implicit = handshake
dial _ = pure tt

unfoldable pub greet : UpstreamTlsMode → R UpstreamCaps
unfolding open_upstream caps_of
greet mode = open_upstream mode >>= λ extensions. pure (caps_of extensions)

pub record Recipient : Type 0 where
  pub address : Bytes
  pub parameters : List Param

pub record Envelope : Type 0 where
  pub from : Bytes
  pub mail_params : List Param
  pub recipients : List Recipient

-- `last_written` is none until a body byte is written.
pub record UpstreamSession : Type 0 where
  pub wire : Wire
  pub caps : UpstreamCaps
  pub last_written : Option ℕ

-- `connect` behind the TCP connection, and `from_handshake`, which keeps what has been read ahead.
unfoldable pub connect : UpstreamTlsMode → Wire → Outcome UpstreamSession
unfolding dial greet
connect mode w =
    let (outcome, w') = (dial mode >> greet mode) w in
    elim outcome [
      | done caps ↦ done (record { wire = w'; caps = caps; last_written = none })
      | failed e ↦ failed e
      | exhausted ↦ exhausted
    ]

unfoldable pub mail_line : UpstreamCaps → Envelope → Bytes
unfolding dsn_suffix size_suffix is_mail_dsn_keyword
mail_line caps envelope =
    codes "MAIL FROM:<"
    ++ (envelope.from
        ++ (b'>'
            ∷ (dsn_suffix envelope.mail_params is_mail_dsn_keyword caps.dsn
                ++ size_suffix envelope.mail_params caps.size_announced)))

unfoldable pub rcpt_line : UpstreamCaps → Recipient → Bytes
unfolding dsn_suffix is_rcpt_dsn_keyword
rcpt_line caps r =
    codes "RCPT TO:<"
    ++ (r.address ++ (b'>' ∷ dsn_suffix r.parameters is_rcpt_dsn_keyword caps.dsn))

-- the loop over the recipients, then DATA
unfoldable pub send_recipients : UpstreamCaps → List Recipient → R (Unit {0})
unfolding command rcpt_line
send_recipients caps [] = command (codes "DATA") 3 >> pure tt
send_recipients caps (r ∷ rs) = command (rcpt_line caps r) 2 >> send_recipients caps rs

unfoldable pub open_transaction : UpstreamCaps → Envelope → R (Unit {0})
unfolding command mail_line send_recipients
open_transaction caps envelope =
    command (mail_line caps envelope) 2 >> send_recipients caps envelope.recipients

-- the upstream's answer to a body that it does not wait for the end of
unfoldable pub early_verdict : Outcome UpstreamReply × Wire → Outcome UpstreamVerdict × Wire
unfolding verdict_replied
early_verdict (done reply, w) = (done (verdict_replied reply.code reply.text), w)
early_verdict (failed e, w) = (done dropped, w)
early_verdict (exhausted, w) = (exhausted, w)

abbrev pub race_of : List Race → Race
race_of [] = pushed
race_of (race ∷ _) = race

abbrev pub later_races : List Race → List Race
later_races [] = []
later_races (_ ∷ later) = later

-- what the end of a piece's race comes to; `again` is the loop's next turn
abbrev pub after_race : R (Option UpstreamVerdict) → Race → R (Option UpstreamVerdict)
after_race again pushed = again
after_race again push_failed = pure (some dropped)
after_race again reader_failed = pure (some dropped)
after_race again reply_ready =
    (λ w. early_verdict (read_reply w)) >>= λ verdict. pure (some verdict)

-- The loop over the pieces: none is a body that has been pushed whole. A piece is recorded as sent
-- however its race ends.
unfoldable pub push_pieces : List Bytes → R (Option UpstreamVerdict)
unfolding read_reply early_verdict
push_pieces [] w = (done none, w)
push_pieces (piece ∷ pieces) w =
    let raced = record w { races = later_races w.races; sent = (w.tls, piece) ∷ w.sent } in
    after_race (push_pieces pieces) (race_of w.races) raced

unfoldable pub last_of : Bytes → Option ℕ
last_of [] = none
last_of (c ∷ []) = some c
last_of (c ∷ d ∷ rest) = last_of (d ∷ rest)

unfoldable pub write : UpstreamSession → Bytes → Outcome (Option UpstreamVerdict) × UpstreamSession
unfolding push_pieces chunks last_of
write u chunk =
    if is_empty chunk
    then (done none, u)
    else let (outcome, w) = push_pieces (chunks chunk) u.wire in
      (outcome, record u { wire = w; last_written = last_of chunk })

-- the terminator, on a line of its own
unfoldable pub tail_of : Option ℕ → Bytes
tail_of none = crlf ++ codes ".\r\n"
tail_of (some c) = if c == lf then codes ".\r\n" else crlf ++ codes ".\r\n"

-- `quit`, whose failure nothing depends on
unfoldable pub quit : R (Unit {0})
unfolding command
quit w =
    let (outcome, w') = command (codes "QUIT") 2 w in
    elim outcome [ exhausted ↦ (exhausted, w') | _ ↦ (done tt, w') ]

unfoldable pub conclude :
    Outcome UpstreamReply × Wire → Outcome (Result UpstreamVerdict Bytes) × Wire
unfolding verdict_replied quit
conclude (done accepted, w) =
    if not (accepted.code / 100 == 2)
    then (done (err (verdict_replied accepted.code accepted.text)), w)
    else (quit >> pure (ok accepted.text)) w
conclude (failed e, w) = (done (err dropped), w)
conclude (exhausted, w) = (exhausted, w)

unfoldable pub terminate : Outcome (Unit {0}) × Wire → Outcome (Result UpstreamVerdict Bytes) × Wire
unfolding read_reply conclude
terminate (done _, w) = conclude (read_reply w)
terminate (failed e, w) = (done (err dropped), w)
terminate (exhausted, w) = (exhausted, w)

unfoldable pub finish : UpstreamSession → Outcome (Result UpstreamVerdict Bytes) × Wire
unfolding write_chunks tail_of terminate
finish u = terminate (write_chunks (tail_of u.last_written) u.wire)

unfoldable pub probe : UpstreamTlsMode → R UpstreamCaps
unfolding dial greet quit
probe mode = dial mode >> greet mode >>= λ caps. quit >> pure caps
