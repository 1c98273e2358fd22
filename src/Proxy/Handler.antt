-- ===== src/Proxy/Handler.antt =====
-- src/proxy.rs, `ProxyHandler` and `ProxySink`, with the records of src/api.rs. The API and the TCP
-- connection are a script: what each call is answered, and what each connection is. Logging is left
-- out. The limiter is a parameter.
pub mod Refusals
pub mod Sending
pub mod Opening
pub mod Session
use smtp_proxy_rs.Prelude.{
  ℕ, zero, suc, ◌/◌, ◌≡◌, Bool, true, false, not, ◌&&◌, List, [], ◌∷◌, ◌++◌, map, Option, none,
  some, Bytes, codes, is_empty, ◌==◌, if◌then◌else◌, Result, ok, err, ◌>>=◌,
}
use smtp_proxy_rs.Proxy.Headers.{
  RawHeader, RequestHeader, ResponseHeader, to_request, parse_headers, merge_headers,
  assert_header_relayable, header_block,
}
use smtp_proxy_rs.Relay.{
  RelayError, io, rejected, address, timeout, tls, no_start_tls, client_code, UpstreamVerdict,
  dropped, into_relay_error, assert_relayable,
}
use smtp_proxy_rs.Relay.Wire.{Wire, Outcome, done, failed, exhausted}
use smtp_proxy_rs.Relay.Upstream.{
  UpstreamTlsMode, UpstreamCaps, Recipient, Envelope, UpstreamSession, connect, open_transaction,
  write, finish,
}
use smtp_proxy_rs.Server.{Rejection, rate_limited, Handler}
use smtp_proxy_rs.Smtp.Params.{Param}

pub record CheckRequest : Type 0 where
  pub username : Bytes
  pub password : Bytes
  pub from : Bytes
  pub to : List Bytes
  pub headers : List RequestHeader
  pub mail_parameters : List Param
  pub rcpt_parameters : List Recipient

-- Its `auth_id` is for the log only.
pub record CheckResponse : Type 0 where
  pub allow : Bool
  pub reason : Option Bytes
  pub headers : List ResponseHeader
  pub from : Option Bytes

pub record Transaction : Type 0 where
  pub from : Bytes
  pub mail_params : List Param
  pub recipients : List Recipient
  pub headers : List RawHeader

unfoldable pub default_transaction : Transaction
default_transaction = record { from = []; mail_params = []; recipients = []; headers = [] }

-- The handler with what it shares with the others of its factory, and the script of the API's answers
-- and of the connections. `asked` records the calls of the API, the last first.
pub record ProxyHandler (L : Type 0) : Type 0 where
  pub username : Option Bytes
  pub password : Option Bytes
  pub transaction : Transaction
  pub limiter : L
  pub upstream_dsn : Bool
  pub upstream_dsn_known : Bool
  pub upstream_size : ℕ
  pub tls_mode : UpstreamTlsMode
  pub answers : List (Result Bytes CheckResponse)
  pub connections : List (Result RelayError Wire)
  pub asked : List CheckRequest

pub record ProxySink : Type 0 where
  pub upstream : UpstreamSession
  pub request : CheckRequest
  pub outcome : CheckResponse

-- `RelayError`'s text
unfoldable pub display : RelayError → Bytes
display (io text) = text
display (rejected code text) = text
display (address a) =
    codes "Refusing to relay the address '"
    ++ (a ++ codes "': it contains characters that cannot appear in an SMTP command line")
display timeout = codes "timeout talking to the upstream"
display (tls text) = codes "TLS to the upstream failed: " ++ text
display no_start_tls = codes "upstream does not offer STARTTLS"

unfoldable pub relay_error_to_rejection : RelayError → Rejection
unfolding client_code display
relay_error_to_rejection e = record { code = client_code e; text = display e }

abbrev pub auth_service_failed_text : Bytes
auth_service_failed_text = codes "authentication service failed"

unfoldable pub auth_service_failed : Rejection
auth_service_failed = record { code = 550; text = auth_service_failed_text }

unfoldable pub auth_service_unavailable : Rejection
auth_service_unavailable = record { code = 451; text = auth_service_failed_text }

abbrev pub unwrap_or_default : Option Bytes → Bytes
unwrap_or_default none = []
unwrap_or_default (some text) = text

-- `outcome.from.filter(|f| !f.is_empty()).unwrap_or_else(..)`
unfoldable pub sender : Option Bytes → Bytes → Bytes
sender none own = own
sender (some from) own = if is_empty from then own else from

-- the loop over the recipients' addresses
unfoldable pub assert_recipients : List Recipient → Result RelayError (Unit {0})
unfolding assert_relayable
assert_recipients [] = ok tt
assert_recipients (r ∷ rs) = assert_relayable r.address >>= λ _. assert_recipients rs

-- both checks of the addresses
unfoldable pub assert_envelope : Envelope → Result RelayError (Unit {0})
unfolding assert_relayable assert_recipients
assert_envelope envelope =
    assert_relayable envelope.from >>= λ _. assert_recipients envelope.recipients

-- A step of the relay as a result. That a loop is out of fuel counts as a timeout.
unfoldable pub settled : {A : Type 0} → Outcome A → Result RelayError A
settled (done a) = ok a
settled (failed e) = err e
settled exhausted = err timeout

abbrev pub refuse : {A : Type 0} → Result RelayError A → Result Rejection A
refuse (ok a) = ok a
refuse (err e) = err (relay_error_to_rejection e)

-- the first write of a message as a result
unfoldable pub header_written : Outcome (Option UpstreamVerdict) → Result RelayError (Unit {0})
unfolding into_relay_error
header_written (done none) = ok tt
header_written (done (some v)) = err (into_relay_error v (codes "DATA"))
header_written (failed e) = err e
header_written exhausted = err timeout

abbrev pub size_or_zero : Option ℕ → ℕ
size_or_zero none = 0
size_or_zero (some n) = n

-- The next answer of the API, and the next TCP connection with the session on it.
abbrev pub next_answer : List (Result Bytes CheckResponse) → Result Bytes CheckResponse
next_answer [] = err (codes "no answer")
next_answer (answer ∷ _) = answer

abbrev pub later_answers : List (Result Bytes CheckResponse) → List (Result Bytes CheckResponse)
later_answers [] = []
later_answers (_ ∷ later) = later

abbrev pub connected :
    UpstreamTlsMode → List (Result RelayError Wire) → Result RelayError UpstreamSession
connected mode [] = err timeout
connected mode (err e ∷ _) = err e
connected mode (ok wire ∷ _) = settled (connect mode wire)

abbrev pub later_connections : List (Result RelayError Wire) → List (Result RelayError Wire)
later_connections [] = []
later_connections (_ ∷ later) = later

-- the envelope and the headers to an upstream that is connected
unfoldable pub relay_headers :
    UpstreamSession → Envelope → List RawHeader → Result RelayError UpstreamSession
unfolding open_transaction settled write header_block header_written
relay_headers u envelope merged =
    let (opening, wire) = open_transaction u.caps envelope u.wire in
    let (writing, u') = write (record u { wire = wire }) (header_block merged) in
    settled opening >>= λ _. (header_written writing >>= λ _. ok u')

module _ {L : Type 0} where
  unfoldable pub check_request : ProxyHandler L → CheckRequest
  unfolding to_request
  check_request h = record {
    username = unwrap_or_default h.username;
    password = unwrap_or_default h.password;
    from = h.transaction.from;
    to = map (λ r. r.address) h.transaction.recipients;
    headers = map to_request h.transaction.headers;
    mail_parameters = h.transaction.mail_params;
    rcpt_parameters = h.transaction.recipients;
  }

  -- The changes of what the factory knows; only what is logged depends on the values before.
  unfoldable pub note_upstream_caps : ProxyHandler L → UpstreamCaps → ProxyHandler L
  note_upstream_caps h caps = record h {
    upstream_dsn = caps.dsn;
    upstream_dsn_known = true;
    upstream_size = size_or_zero caps.size;
  }

  unfoldable pub upstream_size_limit : ProxyHandler L → Option ℕ
  upstream_size_limit h = if h.upstream_size == 0 then none else some h.upstream_size

  unfoldable pub auth : ProxyHandler L → Bytes → Bytes → Bytes → ProxyHandler L × Bool
  auth h authzid authcid password =
      (record h { username = some authcid; password = some password }, true)

  unfoldable pub reset : ProxyHandler L → ProxyHandler L
  unfolding default_transaction
  reset h = record h { transaction = default_transaction }

  unfoldable pub mail :
      (L → Bytes → L × Bool)
      → ProxyHandler L
      → Bytes
      → List Param
      → ProxyHandler L × Option Rejection
  unfolding reset rate_limited
  mail allow h from params =
      let (limiter, allowed) = allow h.limiter (unwrap_or_default h.username) in
      let fresh = reset (record h { limiter = limiter }) in
      if not allowed then (record h { limiter = limiter }, some rate_limited) else (
        record fresh {
          transaction = record fresh.transaction { from = from; mail_params = params };
        },
        none,
      )

  unfoldable pub rcpt : ProxyHandler L → Bytes → List Param → ProxyHandler L × Option Rejection
  rcpt h to params =
      let r : Recipient = record { address = to; parameters = params } in
      (
        record h {
          transaction = record h.transaction { recipients = h.transaction.recipients ++ r ∷ [] };
        },
        none,
      )

  -- what `open_body` does once the headers and the addresses are checked and there is an upstream, or
  -- not
  unfoldable pub relay_checked :
      ProxyHandler L
      → CheckRequest
      → CheckResponse
      → Envelope
      → List RawHeader
      → Result Bytes (Unit {0})
      → Result RelayError (Unit {0})
      → Result RelayError UpstreamSession
      → ProxyHandler L × Result Rejection ProxySink
  unfolding note_upstream_caps relay_headers relay_error_to_rejection auth_service_failed
  relay_checked h request outcome envelope merged (err which) _ _ = (h, err auth_service_failed)
  relay_checked h request outcome envelope merged (ok _) (err e) _ =
      (h, err (relay_error_to_rejection e))
  relay_checked h request outcome envelope merged (ok _) (ok _) (err e) =
      (h, err (relay_error_to_rejection e))
  relay_checked h request outcome envelope merged (ok _) (ok _) (ok u) = (
    note_upstream_caps h u.caps,
    refuse (relay_headers u envelope merged) >>= λ opened.
        ok (record { upstream = opened; request = request; outcome = outcome }),
  )

  -- the envelope that is relayed, whose sender the API may replace
  unfoldable pub envelope_of : ProxyHandler L → CheckResponse → Envelope
  unfolding sender
  envelope_of h outcome = record {
    from = sender outcome.from h.transaction.from;
    mail_params = h.transaction.mail_params;
    recipients = h.transaction.recipients;
  }

  -- what it does with an answer that allows the message
  unfoldable pub relay_allowed :
      ProxyHandler L
      → CheckRequest
      → Result RelayError UpstreamSession
      → CheckResponse
      → ProxyHandler L × Result Rejection ProxySink
  unfolding merge_headers assert_header_relayable envelope_of assert_envelope relay_checked
  relay_allowed h request upstream outcome =
      let merged = merge_headers h.transaction.headers outcome.headers in
      let envelope = envelope_of h outcome in
      relay_checked h request outcome envelope merged (assert_header_relayable merged)
        (assert_envelope envelope) upstream

  -- what it does with any answer
  unfoldable pub relay_answered :
      ProxyHandler L
      → CheckRequest
      → Result RelayError UpstreamSession
      → Result Bytes CheckResponse
      → ProxyHandler L × Result Rejection ProxySink
  unfolding relay_allowed
  relay_answered h request upstream (err e) = (h, err auth_service_unavailable)
  relay_answered h request upstream (ok outcome) =
      if not outcome.allow
      then (h, err (record { code = 550; text = unwrap_or_default outcome.reason }))
      else relay_allowed h request upstream outcome

  unfoldable pub open_body : ProxyHandler L → Bytes → ProxyHandler L × Result Rejection ProxySink
  unfolding parse_headers check_request connect settled relay_answered
  open_body h headers =
      let read = record h {
        transaction = record h.transaction { headers = parse_headers headers };
      } in
      let request = check_request read in
      relay_answered
        (record read {
          answers = later_answers h.answers;
          connections = later_connections h.connections;
          asked = request ∷ h.asked;
        })
        request (connected h.tls_mode h.connections) (next_answer h.answers)

-- the sink's step as a result; a step that is out of fuel counts as a lost connection
unfoldable pub sink_step :
    ProxySink
    → Outcome (Option UpstreamVerdict) × UpstreamSession
    → Result UpstreamVerdict ProxySink
sink_step sink (done none, u) = ok (record sink { upstream = u })
sink_step sink (done (some v), u) = err v
sink_step sink (failed e, u) = err dropped
sink_step sink (exhausted, u) = err dropped

-- `write_stage`, for `write` and for `write_final`
unfoldable pub write_stage : ProxySink → Bytes → Result UpstreamVerdict ProxySink
unfolding write sink_step
write_stage sink chunk = sink_step sink (write sink.upstream chunk)

unfoldable pub sink_end : Outcome (Result UpstreamVerdict Bytes) → Result UpstreamVerdict Bytes
sink_end (done r) = r
sink_end (failed e) = err dropped
sink_end exhausted = err dropped

-- `finish`
unfoldable pub finish_sink : ProxySink → Result UpstreamVerdict Bytes
unfolding finish sink_end
finish_sink sink = sink_end (finish sink.upstream).0

-- `impl Handler for ProxyHandler` and `impl BodySink for ProxySink`
unfoldable pub proxy_handler :
    {L : Type 0} → (L → Bytes → L × Bool) → Handler (ProxyHandler L) ProxySink
unfolding auth mail rcpt open_body reset upstream_size_limit write_stage finish_sink
proxy_handler allow = record {
  auth = auth;
  mail = mail allow;
  rcpt = rcpt;
  open_body = open_body;
  reset = reset;
  dsn_available = λ h. h.upstream_dsn;
  size_limit = upstream_size_limit;
  write = write_stage;
  write_final = write_stage;
  finish = finish_sink;
}
