-- ===== src/Proxy/Handler/Refusals.antt =====
-- src/proxy.rs: what a client is told of a message that is not relayed.
use smtp_proxy_rs.Prelude.{
  ◌≡◌, refl, inl, inr, Bool-cases, Bool, true, false, not, List, Option, none, some, arith, Bytes,
  if◌then◌else◌, Result, ok, err, ◌>>=◌,
}
use smtp_proxy_rs.Proxy.Headers.{RawHeader, merge_headers, assert_header_relayable}
use smtp_proxy_rs.Proxy.Handler.{
  CheckRequest, CheckResponse, ProxyHandler, ProxySink, relay_error_to_rejection,
  auth_service_failed, auth_service_unavailable, unwrap_or_default, envelope_of, assert_envelope,
  refuse, mail, relay_headers, relay_checked, relay_allowed, relay_answered, open_body, sink_step,
  write_stage, sink_end, finish_sink, next_answer, connected,
}
use smtp_proxy_rs.Relay.{RelayError, is_refusal, client_code, UpstreamVerdict}
use smtp_proxy_rs.Relay.Wire.{Outcome, done, failed, exhausted}
use smtp_proxy_rs.Relay.Wire.Replies.{Ends}
use smtp_proxy_rs.Relay.Upstream.{UpstreamSession, Envelope, write, finish}
use smtp_proxy_rs.Relay.Upstream.Verdicts.{
  IsTellable, IsTellableIfAny, IsTellableIfErr, Returns, write-Ends, finish-Returns,
}
use smtp_proxy_rs.Server.{Rejection, rate_limited}
use smtp_proxy_rs.Smtp.Params.{Param}

-- A refusal, if it is one, has a code from 400 to 599.
abbrev pub Refuses : {A : Type 0} → Result Rejection A → Type 0
Refuses (ok a) = Unit
Refuses (err r) = is_refusal r.code ≡ true

rejection-Refuses : (e : RelayError) → is_refusal (relay_error_to_rejection e).code ≡ true
unfolding relay_error_to_rejection client_code
rejection-Refuses e = ground arith

refuse-Refuses : {A : Type 0} (r : Result RelayError A) → Refuses (refuse r)
refuse-Refuses (ok a) = tt
refuse-Refuses (err e) = rejection-Refuses e

opened-Refuses :
    {A : Type 0} (r : Result Rejection A) (f : A → ProxySink)
    → Refuses r
    → Refuses (r >>= λ a. ok (f a))
opened-Refuses (ok a) f h = tt
opened-Refuses (err r) f h = h

module _ {L : Type 0} where
  relay_checked-Refuses :
      (h : ProxyHandler L) (request : CheckRequest) (outcome : CheckResponse) (envelope : Envelope)
      (merged : List RawHeader) (headers : Result Bytes (Unit {0}))
      (addresses : Result RelayError (Unit {0})) (upstream : Result RelayError UpstreamSession)
      → Refuses (relay_checked h request outcome envelope merged headers addresses upstream).1
  unfolding relay_checked auth_service_failed
  relay_checked-Refuses h request outcome envelope merged (err which) addresses upstream = refl
  relay_checked-Refuses h request outcome envelope merged (ok _) (err e) upstream =
      rejection-Refuses e
  relay_checked-Refuses h request outcome envelope merged (ok _) (ok _) (err e) =
      rejection-Refuses e
  relay_checked-Refuses h request outcome envelope merged (ok _) (ok _) (ok u) =
      opened-Refuses (refuse (relay_headers u envelope merged))
        (λ opened. record { upstream = opened; request = request; outcome = outcome })
        (refuse-Refuses (relay_headers u envelope merged))

  relay_allowed-Refuses :
      (h : ProxyHandler L) (request : CheckRequest) (upstream : Result RelayError UpstreamSession)
      (outcome : CheckResponse)
      → Refuses (relay_allowed h request upstream outcome).1
  unfolding relay_allowed
  relay_allowed-Refuses h request upstream outcome =
      let merged = merge_headers h.transaction.headers outcome.headers in
      let envelope = envelope_of h outcome in
      relay_checked-Refuses h request outcome envelope merged (assert_header_relayable merged)
        (assert_envelope envelope) upstream

  relay_answered-Refuses :
      (h : ProxyHandler L) (request : CheckRequest) (upstream : Result RelayError UpstreamSession)
      (answer : Result Bytes CheckResponse)
      → Refuses (relay_answered h request upstream answer).1
  unfolding relay_answered auth_service_unavailable
  relay_answered-Refuses h request upstream (err e) = refl
  relay_answered-Refuses h request upstream (ok outcome) = go outcome.allow
    where
      go :
          (allow : Bool)
          → Refuses
              (if not allow
                then (h, err (record { code = 550; text = unwrap_or_default outcome.reason }))
                else relay_allowed h request upstream outcome).1
      go true = relay_allowed-Refuses h request upstream outcome
      go false = refl

-- What the sink answers that is not a success.
abbrev pub Tells : {A : Type 0} → Result UpstreamVerdict A → Type 0
Tells (ok a) = Unit
Tells (err v) = IsTellable v

sink_step-Tells :
    (sink : ProxySink) (o : Outcome (Option UpstreamVerdict)) (u : UpstreamSession)
    → Ends IsTellableIfAny o
    → Tells (sink_step sink (o, u))
unfolding sink_step
sink_step-Tells sink (done none) u h = tt
sink_step-Tells sink (done (some v)) u h = h
sink_step-Tells sink (failed e) u h = tt
sink_step-Tells sink exhausted u h = tt

sink_end-Tells :
    (o : Outcome (Result UpstreamVerdict Bytes)) → Returns IsTellableIfErr o → Tells (sink_end o)
unfolding sink_end
sink_end-Tells (done (ok text)) h = tt
sink_end-Tells (done (err v)) h = h
sink_end-Tells (failed e) h = absurd h
sink_end-Tells exhausted h = absurd h

-- A refusal, if there is one, has a code from 400 to 599.
abbrev pub RefusesIfAny : Option Rejection → Type 0
RefusesIfAny none = Unit
RefusesIfAny (some r) = is_refusal r.code ≡ true

mail-RefusesIfAny :
    {L : Type 0} (allow : L → Bytes → L × Bool) (h : ProxyHandler L) (from : Bytes)
    (params : List Param)
    → RefusesIfAny (mail allow h from params).1
unfolding mail rate_limited
mail-RefusesIfAny allow h from params =
    elim (Bool-cases (allow h.limiter (unwrap_or_default h.username)).1) [
      | inl e ↦ rw e tt
      | inr e ↦ rw e refl
    ]

-- That a message is not opened, for whatever reason, and that MAIL is over the rate limit, is answered
-- with a code from 400 to 599.
pub proxy_handler_refusals :
    {L : Type 0} (allow : L → Bytes → L × Bool) (h : ProxyHandler L)
    → ((headers : Bytes) → Refuses (open_body h headers).1)
      × ((from : Bytes) (params : List Param) → RefusesIfAny (mail allow h from params).1)
unfolding open_body
proxy_handler_refusals allow h = (
  (λ headers.
      relay_answered-Refuses _ _ (connected h.tls_mode h.connections) (next_answer h.answers)),
  mail-RefusesIfAny allow h,
)

-- What the sink answers for a piece of body, and for the end of it, is a success, or a verdict whose
-- code, if it has one, lies from 400 to 599.
pub proxy_sink_verdicts :
    (sink : ProxySink)
    → ((chunk : Bytes) → Tells (write_stage sink chunk)) × Tells (finish_sink sink)
unfolding write_stage finish_sink
proxy_sink_verdicts sink = (
  (λ chunk.
      sink_step-Tells sink (write sink.upstream chunk).0 (write sink.upstream chunk).1
        (write-Ends sink.upstream chunk)),
  sink_end-Tells (finish sink.upstream).0 (finish-Returns sink.upstream),
)
