-- ===== src/Proxy/Handler/Session.antt =====
-- src/proxy.rs and src/server/session.rs together: a session with the proxy's handler.
use smtp_proxy_rs.Prelude.{
  ℕ, ◌≡◌, ◌≢◌, Bool, true, Option, none, some, arith, Bytes, Result, ok, err,
}
use smtp_proxy_rs.Proxy.Handler.{
  ProxyHandler, mail, rcpt, open_body, write_stage, finish_sink, proxy_handler,
}
use smtp_proxy_rs.Proxy.Handler.Refusals.{
  Refuses, RefusesIfAny, Tells, proxy_handler_refusals, proxy_sink_verdicts,
}
use smtp_proxy_rs.Relay.{UpstreamVerdict, dropped, replied, is_refusal}
use smtp_proxy_rs.Server.{Rejection}
use smtp_proxy_rs.Server.Session.{Session, panicked, stopped}
use smtp_proxy_rs.Server.Session.Calm.{Replies, CanTellIfErr}
use smtp_proxy_rs.Server.Session.Calm.Message.{IsSound}
use smtp_proxy_rs.Server.Session.Calm.Serve.{serve-Calm}
use smtp_proxy_rs.Server.Session.Dispatch.{serve}

refusal_replies : (code : ℕ) → is_refusal code ≡ true → Replies code
refusal_replies code h = ground arith

mail_replies : (o : Option Rejection) (r : Rejection) → RefusesIfAny o → o ≡ some r → Replies r.code
mail_replies none r h e = cc
mail_replies (some x) r h e = ground arith

open_replies :
    {A : Type 0} (o : Result Rejection A) (r : Rejection) → Refuses o → o ≡ err r → Replies r.code
open_replies (ok a) r h e = cc
open_replies (err x) r h e = ground arith

can_tell : {A : Type 0} (r : Result UpstreamVerdict A) → Tells r → CanTellIfErr r
can_tell (ok a) h = tt
can_tell (err dropped) h = tt
can_tell (err (replied code text)) h = refusal_replies code h

module _ {L : Type 0} (allow : L → Bytes → L × Bool) where
  proxy_handler-IsSound : IsSound (proxy_handler allow)
  unfolding proxy_handler rcpt
  proxy_handler-IsSound = record {
    mail = λ h from params r e.
        mail_replies (mail allow h from params).1 r ((proxy_handler_refusals allow h).1 from params)
          e;
    rcpt = λ h to params r e. cc;
    open_body = λ h headers r e.
        open_replies (open_body h headers).1 r ((proxy_handler_refusals allow h).0 headers) e;
    write = λ s chunk. can_tell (write_stage s chunk) ((proxy_sink_verdicts s).0 chunk);
    write_final = λ s chunk. can_tell (write_stage s chunk) ((proxy_sink_verdicts s).0 chunk);
    finish = λ s. can_tell (finish_sink s) (proxy_sink_verdicts s).1;
  }

  -- Whatever the network, the client, the API, the upstreams and the base64 decoder do, and however
  -- the rate limiter decides, a session with the proxy's handler does not panic.
  pub proxy_session-Calm :
      (decode : Bytes → Option Bytes) (fuel : ℕ) (s : Session (ProxyHandler L))
      → (serve (proxy_handler allow) decode fuel s).0 ≢ stopped panicked
  proxy_session-Calm decode fuel s =
      serve-Calm (proxy_handler allow) decode proxy_handler-IsSound fuel s
