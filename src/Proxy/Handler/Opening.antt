-- ===== src/Proxy/Handler/Opening.antt =====
-- src/proxy.rs: when a message is relayed.
use smtp_proxy_rs.Prelude.{
  ◌≡◌, refl, ap, subst, Bool, true, false, not, List, ◌∷◌, Option, none, some, map, arith, Bytes,
  All, is_empty, from_utf8_lossy, if◌then◌else◌, Result, ok, err, ◌>>=◌,
}
use smtp_proxy_rs.Proxy.Headers.{
  RawHeader, parse_headers, merge_headers, assert_header_relayable, to_request,
}
use smtp_proxy_rs.Proxy.Handler.{
  CheckRequest, CheckResponse, ProxyHandler, ProxySink, unwrap_or_default, envelope_of,
  assert_envelope, refuse, relay_headers, relay_checked, relay_allowed, relay_answered, open_body,
  next_answer, connected, check_request, later_answers, later_connections, sender,
}
use smtp_proxy_rs.Proxy.Handler.Sending.{IsSentTo, envelope_checked, relay_headers-IsSentTo}
use smtp_proxy_rs.Relay.{RelayError, assert_relayable}
use smtp_proxy_rs.Relay.Upstream.{UpstreamSession, Envelope}

-- The handler with the headers of the message.
abbrev pub with_headers : {L : Type 0} → ProxyHandler L → Bytes → ProxyHandler L
with_headers h headers = record h {
  transaction = record h.transaction { headers = parse_headers headers };
}

opened_lem :
    (r : Result RelayError UpstreamSession) (request : CheckRequest) (outcome : CheckResponse)
    (sink : ProxySink)
    → (refuse r >>= λ opened.
        ok (record { upstream = opened; request = request; outcome = outcome }))
      ≡ ok sink
    → (r ≡ ok sink.upstream) × (sink.request ≡ request) × (sink.outcome ≡ outcome)
opened_lem (err e) request outcome sink h = cc
opened_lem (ok u) request outcome sink h = (ground arith, ground arith, ground arith)

-- The checks that a message has passed.
record Checked (request : CheckRequest) (outcome : CheckResponse) (envelope : Envelope)
    (merged : List RawHeader) (headers : Result Bytes (Unit {0}))
    (addresses : Result RelayError (Unit {0})) (upstream : Result RelayError UpstreamSession)
    (sink : ProxySink) : Type 0 where
  pub headers_passed : headers ≡ ok tt
  pub addresses_passed : addresses ≡ ok tt
  pub u : UpstreamSession
  pub there : upstream ≡ ok u
  pub sent : relay_headers u envelope merged ≡ ok sink.upstream
  pub same_request : sink.request ≡ request
  pub same_outcome : sink.outcome ≡ outcome

-- What the API is asked about a message: who the client is, and the transaction with these headers.
abbrev pub question : {L : Type 0} → ProxyHandler L → Bytes → CheckRequest
question h headers = record {
  username = unwrap_or_default h.username;
  password = unwrap_or_default h.password;
  from = h.transaction.from;
  to = map (λ r. r.address) h.transaction.recipients;
  headers =
      map (λ x. record { name = from_utf8_lossy x.name; value = from_utf8_lossy x.value })
        (parse_headers headers);
  mail_parameters = h.transaction.mail_params;
  rcpt_parameters = h.transaction.recipients;
}

-- The envelope of a message, whose sender is that of the API's answer if it names one.
abbrev pub answered_envelope : {L : Type 0} → ProxyHandler L → CheckResponse → Envelope
answered_envelope h outcome = record {
  from = elim outcome.from [
    | none ↦ h.transaction.from
    | some f ↦ if is_empty f then h.transaction.from else f
  ];
  mail_params = h.transaction.mail_params;
  recipients = h.transaction.recipients;
}

-- What holds of a message that is relayed: the API was asked about it, once more than before, and
-- allows it, the headers as the API changes them and all addresses of the envelope may be relayed, and
-- they were sent to a connected upstream.
pub record IsRelayed {L : Type 0} (h : ProxyHandler L) (headers : Bytes) (sink : ProxySink)
    : Type 0 where
  pub asked : (open_body h headers).0.asked ≡ question h headers ∷ h.asked
  pub request : sink.request ≡ question h headers
  pub answered : next_answer h.answers ≡ ok sink.outcome
  pub allowed : sink.outcome.allow ≡ true
  pub headers_relayable :
      assert_header_relayable (merge_headers (parse_headers headers) sink.outcome.headers) ≡ ok tt
  pub sender_relayable : assert_relayable (answered_envelope h sink.outcome).from ≡ ok tt
  pub recipients_relayable : All (λ r. assert_relayable r.address ≡ ok tt) h.transaction.recipients
  pub upstream : UpstreamSession
  pub is_connected : connected h.tls_mode h.connections ≡ ok upstream
  pub is_sent :
      IsSentTo upstream
        (answered_envelope h sink.outcome)
        (merge_headers (parse_headers headers) sink.outcome.headers)
        sink.upstream

sender-answered :
    (o : Option Bytes) (from : Bytes)
    → sender o from
      ≡ elim o as (λ _. Bytes) [ none ↦ from | some f ↦ if is_empty f then from else f ]
unfolding sender
sender-answered none from = refl
sender-answered (some f) from = ground arith

module _ {L : Type 0} where
  relay_checked_lem :
      (h : ProxyHandler L) (request : CheckRequest) (outcome : CheckResponse) (envelope : Envelope)
      (merged : List RawHeader) (headers : Result Bytes (Unit {0}))
      (addresses : Result RelayError (Unit {0})) (upstream : Result RelayError UpstreamSession)
      (sink : ProxySink)
      → (relay_checked h request outcome envelope merged headers addresses upstream).1 ≡ ok sink
      → Checked request outcome envelope merged headers addresses upstream sink
  unfolding relay_checked
  relay_checked_lem h request outcome envelope merged (err which) addresses upstream sink e = cc
  relay_checked_lem h request outcome envelope merged (ok _) (err x) upstream sink e = cc
  relay_checked_lem h request outcome envelope merged (ok _) (ok _) (err x) sink e = cc
  relay_checked_lem h request outcome envelope merged (ok _) (ok _) (ok u) sink e =
      let (sent, asked, answered) =
        opened_lem (relay_headers u envelope merged) request outcome sink e in
      record {
        headers_passed = refl;
        addresses_passed = refl;
        u = u;
        there = refl;
        sent = sent;
        same_request = asked;
        same_outcome = answered;
      }

  relay_checked-asked :
      (h : ProxyHandler L) (request : CheckRequest) (outcome : CheckResponse) (envelope : Envelope)
      (merged : List RawHeader) (headers : Result Bytes (Unit {0}))
      (addresses : Result RelayError (Unit {0})) (upstream : Result RelayError UpstreamSession)
      → (relay_checked h request outcome envelope merged headers addresses upstream).0.asked
        ≡ h.asked
  unfolding relay_checked
  relay_checked-asked h request outcome envelope merged (err which) addresses upstream = refl
  relay_checked-asked h request outcome envelope merged (ok _) (err x) upstream = refl
  relay_checked-asked h request outcome envelope merged (ok _) (ok _) (err x) = refl
  relay_checked-asked h request outcome envelope merged (ok _) (ok _) (ok u) = refl

  relay_answered-asked :
      (h : ProxyHandler L) (request : CheckRequest) (upstream : Result RelayError UpstreamSession)
      (answer : Result Bytes CheckResponse)
      → (relay_answered h request upstream answer).0.asked ≡ h.asked
  unfolding relay_answered
  relay_answered-asked h request upstream (err x) = refl
  relay_answered-asked h request upstream (ok outcome) = go outcome.allow
    where
      go :
          (allow : Bool)
          → (if not allow
              then (h, err (record { code = 550; text = unwrap_or_default outcome.reason }))
              else relay_allowed h request upstream outcome).0.asked
            ≡ h.asked
      go false = refl
      go true =
          let merged = merge_headers h.transaction.headers outcome.headers in
          unfold relay_allowed in
          relay_checked-asked h request outcome (envelope_of h outcome) merged
            (assert_header_relayable merged) (assert_envelope (envelope_of h outcome)) upstream

  relay_answered_lem :
      (h : ProxyHandler L) (request : CheckRequest) (upstream : Result RelayError UpstreamSession)
      (answer : Result Bytes CheckResponse) (sink : ProxySink)
      → (relay_answered h request upstream answer).1 ≡ ok sink
      → (outcome : CheckResponse) × (answer ≡ ok outcome)
        × (outcome.allow ≡ true)
        × Checked request outcome
            (envelope_of h outcome)
            (merge_headers h.transaction.headers outcome.headers)
            (assert_header_relayable (merge_headers h.transaction.headers outcome.headers))
            (assert_envelope (envelope_of h outcome))
            upstream
            sink
  unfolding relay_answered
  relay_answered_lem h request upstream (err x) sink e = cc
  relay_answered_lem h request upstream (ok outcome) sink e =
      let (a, c) = go outcome.allow refl e in (outcome, refl, a, c)
    where
      go :
          (allow : Bool)
          → outcome.allow ≡ allow
          → (if not allow
              then (h, err (record { code = 550; text = unwrap_or_default outcome.reason }))
              else relay_allowed h request upstream outcome).1
            ≡ ok sink
          → (outcome.allow ≡ true)
            × Checked request outcome
                (envelope_of h outcome)
                (merge_headers h.transaction.headers outcome.headers)
                (assert_header_relayable (merge_headers h.transaction.headers outcome.headers))
                (assert_envelope (envelope_of h outcome))
                upstream
                sink
      go false a e' = cc
      go true a e' =
          let merged = merge_headers h.transaction.headers outcome.headers in
          (
            a,
            (unfold relay_allowed in
                relay_checked_lem h request outcome (envelope_of h outcome) merged
                  (assert_header_relayable merged) (assert_envelope (envelope_of h outcome))
                  upstream sink e'),
          )

  -- That it was asked about the message and its answer allows it, and the rest, in terms of the answer.
  outcome-IsRelayed :
      (h : ProxyHandler L) (headers : Bytes) (sink : ProxySink) (outcome : CheckResponse)
      → sink.outcome ≡ outcome
      → (open_body h headers).0.asked ≡ question h headers ∷ h.asked
      → next_answer h.answers ≡ ok outcome
      → outcome.allow ≡ true
      → Checked
          (question h headers)
          outcome
          (answered_envelope h outcome)
          (merge_headers (parse_headers headers) outcome.headers)
          (assert_header_relayable (merge_headers (parse_headers headers) outcome.headers))
          (assert_envelope (answered_envelope h outcome))
          (connected h.tls_mode h.connections)
          sink
      → IsRelayed h headers sink
  outcome-IsRelayed h headers sink outcome same asked answered allowed c =
      let (sender, recipients) =
        envelope_checked (answered_envelope h outcome) c.addresses_passed in
      let sent =
        relay_headers-IsSentTo c.u sink.upstream (answered_envelope h outcome)
          (merge_headers (parse_headers headers) outcome.headers) c.sent in
      record {
        asked = asked;
        request = c.same_request;
        answered = rw same answered;
        allowed = rw same allowed;
        headers_relayable = rw same c.headers_passed;
        sender_relayable = rw same sender;
        recipients_relayable = recipients;
        upstream = c.u;
        is_connected = c.there;
        is_sent = rw same sent;
      }

  envelope-answered :
      (h : ProxyHandler L) (outcome : CheckResponse)
      → envelope_of h outcome ≡ answered_envelope h outcome
  unfolding envelope_of
  envelope-answered h outcome =
      ap
        (λ from. record {
          from = from;
          mail_params = h.transaction.mail_params;
          recipients = h.transaction.recipients;
        })
        (sender-answered outcome.from h.transaction.from)

  -- A message is opened only if the API was asked about it, with the client's credentials, the envelope
  -- and the headers as they were given, and allows it; all headers, as the API changes them, and all
  -- addresses of its envelope, whose sender the API may replace, may be relayed; and there is a
  -- connected upstream, to which each command of that envelope was sent and which accepted it before the
  -- next, and then those headers were written: these bytes and no others.
  pub open_body-IsRelayed :
      (h : ProxyHandler L) (headers : Bytes) (sink : ProxySink)
      → (open_body h headers).1 ≡ ok sink
      → IsRelayed h headers sink
  unfolding open_body check_request to_request
  open_body-IsRelayed h headers sink e =
      let read = with_headers h headers in
      let request = check_request read in
      let later = record read {
        answers = later_answers h.answers;
        connections = later_connections h.connections;
        asked = request ∷ h.asked;
      } in
      let upstream = connected h.tls_mode h.connections in
      let (outcome, answered, allowed, c) =
        relay_answered_lem later request upstream (next_answer h.answers) sink e in
      let asked = relay_answered-asked later request upstream (next_answer h.answers) in
      outcome-IsRelayed h headers sink outcome c.same_outcome asked answered allowed (
        subst
          (λ x.
            Checked (question h headers) outcome x
              (merge_headers (parse_headers headers) outcome.headers)
              (assert_header_relayable (merge_headers (parse_headers headers) outcome.headers))
              (assert_envelope x) upstream sink)
          (envelope-answered later outcome) c)
