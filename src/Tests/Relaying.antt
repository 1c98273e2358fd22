-- ===== src/Tests/Relaying.antt =====
-- src/proxy.rs on concrete inputs: a message that is relayed.
use smtp_proxy_rs.Prelude.{
  ◌≡◌, refl, ap, ◌∙◌, true, false, List, [], ◌∷◌, none, some, Bytes, codes, ok, ◌>>=◌,
}
use smtp_proxy_rs.Proxy.Headers.{
  RawHeader, header_block, merge_headers, parse_headers, assert_header_relayable,
}
use smtp_proxy_rs.Proxy.Handler.{
  ProxyHandler, ProxySink, CheckResponse, check_request, open_body, mail, relay_headers, settled,
  header_written, relay_answered, assert_envelope, refuse,
}
use smtp_proxy_rs.Smtp.Params.{Param}
use smtp_proxy_rs.Proxy.Handler.Session.{proxy_session-Calm}
use smtp_proxy_rs.Proxy.Handler.{proxy_handler}
use smtp_proxy_rs.Prelude.{◌≢◌}
use smtp_proxy_rs.Server.{ServerConfig}
use smtp_proxy_rs.Server.Session.{Session, chunk, stopped, panicked}
use smtp_proxy_rs.Server.Session.Dispatch.{serve, initial}
use smtp_proxy_rs.Proxy.Handler.Opening.{with_headers, IsRelayed, open_body-IsRelayed}
use smtp_proxy_rs.Proxy.Handler.Refusals.{Refuses, RefusesIfAny, proxy_handler_refusals}
use smtp_proxy_rs.Relay.Upstream.{implicit, UpstreamSession, Envelope, open_transaction, write}
use smtp_proxy_rs.Relay.Wire.{Wire, done}
use smtp_proxy_rs.Tests.Upstream.{
  not_connected, session, in_transaction, recipient, envelope, connected_over_tls, transaction_open,
}

-- A handler in whose transaction a message is open, with an API that allows it.
abbrev allowed : CheckResponse
allowed = record { allow = true; reason = none; headers = []; from = none }

abbrev in_proxy : ProxyHandler (Unit {0})
in_proxy = record {
  username = some (codes "u");
  password = some (codes "p");
  transaction = record {
    from = codes "a@c";
    mail_params = [];
    recipients = recipient ∷ [];
    headers = [];
  };
  limiter = tt;
  upstream_dsn = false;
  upstream_dsn_known = false;
  upstream_size = 0;
  tls_mode = implicit;
  answers = ok allowed ∷ [];
  connections = ok not_connected ∷ [];
  asked = [];
}

abbrev given : Bytes
given = codes "S: t\r\n"

proxy_handler_refusals_example :
    ((headers : Bytes) → Refuses (open_body in_proxy headers).1)
    × ((from : Bytes) (params : List Param)
        → RefusesIfAny (mail (λ l user. (l, false)) in_proxy from params).1)
proxy_handler_refusals_example = proxy_handler_refusals (λ l user. (l, false)) in_proxy

abbrev sink_of : UpstreamSession → ProxySink
sink_of u = record {
  upstream = u;
  request = check_request (with_headers in_proxy given);
  outcome = allowed;
}

-- An envelope and headers that are sent with success.
headers_sent :
    (u u' : UpstreamSession) (e : Envelope) (merged : List RawHeader) (w : Wire)
    → open_transaction u.caps e u.wire ≡ (done tt, w)
    → write (record u { wire = w }) (header_block merged) ≡ (done none, u')
    → relay_headers u e merged ≡ ok u'
unfolding relay_headers settled header_written
headers_sent u u' e merged w h1 h2 =
    ap
      (λ p.
        let q = write (record u { wire = p.1 }) (header_block merged) in
        settled p.0 >>= λ _. (header_written q.0 >>= λ _. ok q.1))
      h1
    ∙ ap (λ q. header_written q.0 >>= λ _. ok q.1) h2

abbrev merged_headers : List RawHeader
merged_headers = merge_headers (parse_headers given) []

abbrev relayed_session : UpstreamSession
relayed_session = (write in_transaction (header_block merged_headers)).1

block_written : write in_transaction (header_block merged_headers) ≡ (done none, relayed_session)
unfolding write header_block merge_headers parse_headers
block_written = refl

abbrev relayed_sink : ProxySink
relayed_sink = sink_of relayed_session

relay_of_given :
    (relay_answered
      (record (with_headers in_proxy given) {
        answers = [];
        connections = [];
        asked = check_request (with_headers in_proxy given) ∷ [];
      })
      (check_request (with_headers in_proxy given))
      (ok session)
      (ok allowed)).1
    ≡ (refuse (relay_headers session envelope merged_headers) >>= λ opened. ok (sink_of opened))
unfolding relay_answered assert_header_relayable assert_envelope parse_headers
relay_of_given = refl

given_sent : relay_headers session envelope merged_headers ≡ ok relayed_session
given_sent =
    headers_sent session relayed_session envelope merged_headers in_transaction.wire
      transaction_open block_written

opened_with_given : (open_body in_proxy given).1 ≡ ok relayed_sink
unfolding open_body
opened_with_given =
    ap
      (λ upstream.
        (relay_answered
          (record (with_headers in_proxy given) {
            answers = [];
            connections = [];
            asked = check_request (with_headers in_proxy given) ∷ [];
          })
          (check_request (with_headers in_proxy given)) (settled upstream) (ok allowed)).1)
      connected_over_tls
    ∙ (relay_of_given ∙ ap (λ r. refuse r >>= λ opened. ok (sink_of opened)) given_sent)

open_body-IsRelayed_example : IsRelayed in_proxy given relayed_sink
open_body-IsRelayed_example = open_body-IsRelayed in_proxy given relayed_sink opened_with_given

abbrev config : ServerConfig
config = record {
  service_name = codes "mx";
  require_starttls = false;
  require_auth = false;
  tls = false;
  max_header_size = 100;
  idle_timeout = 300;
  greeting_timeout = 300;
  max_recipients = 2;
  drain = false;
}

abbrev client_session : Session (ProxyHandler (Unit {0}))
client_session =
    initial config in_proxy
      (chunk 0 (codes "EHLO c\r\nMAIL FROM:<a@c>\r\nRCPT TO:<b@d>\r\nDATA\r\n")
        ∷ chunk 0 (codes "S: t\r\n\r\nhi\r\n.\r\nQUIT\r\n")
        ∷ [])
      [] []

proxy_session-Calm_example :
    (serve (proxy_handler (λ l user. (l, true))) some 40 client_session).0 ≢ stopped panicked
proxy_session-Calm_example = proxy_session-Calm (λ l user. (l, true)) some 40 client_session
