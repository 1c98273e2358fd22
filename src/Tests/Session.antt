-- ===== src/Tests/Session.antt =====
-- src/server/session.rs: a whole session, with STARTTLS, AUTH and a message, and parts of one.
use smtp_proxy_rs.Prelude.{true, false, List, [], ◌∷◌, ◌++◌, Option, none, some, Bytes, codes, ok}
use smtp_proxy_rs.Prelude.{◌≢◌}
use smtp_proxy_rs.Server.Session.{stopped, panicked}
use smtp_proxy_rs.Server.Session.Calm.Message.{IsSound}
use smtp_proxy_rs.Server.Session.Calm.Serve.{serve-Calm}
use smtp_proxy_rs.Server.{Handler, ServerConfig}
use smtp_proxy_rs.Server.Session.{Read, chunk, cancelled, tls_failed}
use smtp_proxy_rs.Server.Session.Reading.{next_command_line}
use smtp_proxy_rs.Server.Data.BodyFramer
use smtp_proxy_rs.Server.Data.HeaderCollector
use smtp_proxy_rs.Server.Session.{Session, done, continue, want_data, want_start_tls}
use smtp_proxy_rs.Server.Session.Dispatch.{serve, initial, upgrade}
use smtp_proxy_rs.Server.Session.Message.{discard_to_terminator, read_body, read_headers}
use smtp_proxy_rs.Server.Session.Quiet.{weight}
use smtp_proxy_rs.Server.Session.Security.Injection.{upgrade_forgets}
use smtp_proxy_rs.Server.Session.Termination.{IsEnd, discard_to_terminator-IsEnd}
use smtp_proxy_rs.Server.Session.Termination.Message.{read_body-IsEnd, read_headers-IsEnd}
use smtp_proxy_rs.Prelude.{◌<◌, arith, ◌≡◌, refl}
use smtp_proxy_rs.Server.Session.Security.{Allowed}
use smtp_proxy_rs.Server.Session.Security.Serve.{serve_secure}

-- A handler that accepts everything; its sink is the bytes written.
abbrev accepting : Handler (Unit {0}) Bytes
accepting = record {
  auth = λ h zid cid pass. (h, true);
  mail = λ h from params. (h, none);
  rcpt = λ h to params. (h, none);
  open_body = λ h headers. (h, ok headers);
  reset = λ h. h;
  dsn_available = λ h. true;
  size_limit = λ h. some 1000;
  write = λ s bytes. ok (s ++ bytes);
  write_final = λ s bytes. ok (s ++ bytes);
  finish = λ s. ok (codes "queued");
}

abbrev strict : ServerConfig
strict = record {
  service_name = codes "mx";
  require_starttls = true;
  require_auth = true;
  tls = true;
  max_header_size = 100;
  idle_timeout = 300;
  greeting_timeout = 60;
  max_recipients = 1;
  drain = false;
}

-- What follows STARTTLS in the clear is an injected command.
abbrev plain_part : List Read
plain_part = chunk 0 (codes "EHLO c\r\nSTARTTLS\r\nMAIL FROM:<evil>\r\n") ∷ []

-- A decoder for the one token that the client sends.
abbrev decode : Bytes → Option Bytes
decode b64 = some (0 ∷ b'u' ∷ 0 ∷ b'p' ∷ [])

abbrev secret_part : List Read
secret_part =
    chunk 0 (codes "EHLO c\r\nAUTH PLAIN dQ\r\nMAIL FROM:<a>\r\n")
    ∷ chunk 0 (codes "RCPT TO:<b>\r\nRCPT TO:<c>\r\nDATA\r\n")
    ∷ chunk 0 (codes "S: t\r\n\r\nhi\n.\r\nQUIT\r\n")
    ∷ []

serve_secure_example :
    Allowed strict
      (serve accepting decode 40
        (initial strict tt plain_part ((λ plain. some secret_part) ∷ []) [])).1.calls
serve_secure_example =
    serve_secure accepting decode 40 strict tt plain_part ((λ plain. some secret_part) ∷ []) []

-- A client in the middle of a message, with a line in the buffer and more to come.
abbrev in_message : Session (Unit {0})
in_message = record (initial strict tt (chunk 0 (codes "lo\n.\r\n") ∷ []) [] []) {
  buf = codes "S: t\r\nhel";
  state = want_data;
}

in_message-weight : weight in_message < 20
unfolding initial
in_message-weight = omega arith

discard_to_terminator-IsEnd_example : IsEnd (discard_to_terminator 20 true in_message).0
discard_to_terminator-IsEnd_example =
    discard_to_terminator-IsEnd 20 true in_message in_message-weight

read_body-IsEnd_example : IsEnd (read_body accepting 20 BodyFramer.new [] in_message).0
read_body-IsEnd_example =
    read_body-IsEnd accepting 20 BodyFramer.new [] in_message in_message-weight

read_headers-IsEnd_example :
    IsEnd (read_headers accepting 20 (HeaderCollector.new 100) in_message).0
read_headers-IsEnd_example =
    read_headers-IsEnd accepting 20 (HeaderCollector.new 100) in_message in_message-weight

-- A client that has asked for STARTTLS, and what the handshake makes of what it sends then: a stream
-- of no bytes, if there is a record to begin with.
abbrev accepting_tls : List Read → Option (List Read)
accepting_tls [] = none
accepting_tls (_ ∷ _) = some []

abbrev asking : Bytes → List Read → Session (Unit {0})
asking buf reads = record (initial strict tt [] (accepting_tls ∷ []) []) {
  buf = buf;
  reads = reads;
  state = want_start_tls;
}

abbrev client_hello : List Read
client_hello = chunk 0 (codes "hello") ∷ []

asking_upgrades : (upgrade (asking [] client_hello)).0 ≡ done continue
unfolding upgrade initial smtp_proxy_rs.Smtp.Reply.new smtp_proxy_rs.Smtp.Reply.wire
asking_upgrades = refl

asking_fails : (upgrade (asking [] [])).0 ≡ done tls_failed
unfolding upgrade initial smtp_proxy_rs.Smtp.Reply.new smtp_proxy_rs.Smtp.Reply.wire
asking_fails = refl

-- A drain that has begun is noticed before the lines that are in the buffer.
drains_at_once :
    (next_command_line
      (record (initial (record strict { drain = true }) tt (cancelled ∷ []) [] []) {
        buf = codes "NOOP\r\n";
      })).0
    ≡ done none
unfolding next_command_line initial
drains_at_once = refl

upgrade_forgets_example :
    upgrade (asking (codes "MAIL FROM:<evil>\r\n") client_hello) ≡ upgrade (asking [] client_hello)
upgrade_forgets_example =
    upgrade_forgets (asking [] client_hello) (codes "MAIL FROM:<evil>\r\n") continue asking_upgrades

accepting-IsSound : IsSound accepting
accepting-IsSound = record {
  mail = λ h from params r e. cc;
  rcpt = λ h to params r e. cc;
  open_body = λ h headers r e. cc;
  write = λ s bytes. tt;
  write_final = λ s bytes. tt;
  finish = λ s. tt;
}

serve-Calm_example :
    (serve accepting decode 40
      (initial strict tt plain_part ((λ plain. some secret_part) ∷ []) [])).0
    ≢ stopped panicked
serve-Calm_example =
    serve-Calm accepting decode accepting-IsSound 40
      (initial strict tt plain_part ((λ plain. some secret_part) ∷ []) [])
