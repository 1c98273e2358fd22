-- ===== src/Server/Session/Security/Serve.antt =====
-- The loop of src/server/session.rs, from the connection to its end: what it has asked of its handler.
use smtp_proxy_rs.Prelude.{
  ℕ, zero, suc, ◌≤◌, ◌≡◌, inl, inr, refl, true, List, arith, Bytes, Option, none, some, Result, ok,
  err, codes, ◌++◌, Result-cases,
}
use smtp_proxy_rs.Server.{ServerConfig, Handler}
use smtp_proxy_rs.Server.Session.{
  ErrorKind, Line, got, too_long, Flow, continue, close, Call, Session, Outcome, done, stopped, M,
  pure, send, attempt, End, Read, Handshake, failed, timed_out,
}
use smtp_proxy_rs.Server.Session.Quiet.{
  IsQuiet, attempt-IsQuiet, send-IsQuiet, next_command_line-IsQuiet, refuse_long_line-IsQuiet,
}
use smtp_proxy_rs.Server.Session.Reading.{next_command_line, refuse_long_line}
use smtp_proxy_rs.Server.Session.Security.{Allowed, Inv}
use smtp_proxy_rs.Smtp.Reply
use smtp_proxy_rs.Smtp.Reply.{Reply}
use smtp_proxy_rs.Smtp.Command.{parse_command}
use smtp_proxy_rs.Server.Session.Dispatch.{
  dispatch, drained, or_end, run_line, on_flow, ended, on_command_line, serve_loop, greeted_first,
  serve, initial,
}
use smtp_proxy_rs.Server.Session.Security.Dispatch.{dispatch-Safe}
use smtp_proxy_rs.Server.Session.Security.Safe.{Fine, Safe, bind-Safe, then-Safe}

Allowed-config :
    {config config' : ServerConfig} (calls : List Call)
    → config ≡ config'
    → Allowed config calls
    → Allowed config' calls
Allowed-config calls p h = rw⁻¹ p h

module _ {H : Type 0} where
  tried-IsQuiet : (reply : Reply) → IsQuiet {H = H} (attempt (send reply))
  tried-IsQuiet reply = attempt-IsQuiet (send reply) (send-IsQuiet reply)

  or_end-Safe : (r : Result ErrorKind (Unit {0})) (s : Session H) → Inv s → Safe (or_end r) s
  or_end-Safe (ok _) s v = (v, refl)
  or_end-Safe (err k) s v = (v, refl)

  drained-Safe : (s : Session H) → Inv s → Safe drained s
  unfolding drained
  drained-Safe s v =
      then-Safe (attempt (send (farewell s))) (λ _. pure End.drained) s (tried-IsQuiet (farewell s))
        v (λ a t q w. (w, refl))
    where
      farewell : Session H → Reply
      farewell s =
          Reply.new 421
            (s.config.service_name ++ codes " Service not available, closing transmission channel")

  on_flow-Safe :
      (again : M H End) (r : Result End Flow) (s : Session H)
      → Inv s
      → Safe again s
      → Safe (on_flow again r) s
  on_flow-Safe again (ok continue) s v h = h
  on_flow-Safe again (ok Flow.quit) s v h = (v, refl)
  on_flow-Safe again (ok Flow.tls_failed) s v h = (v, refl)
  on_flow-Safe again (ok close) s v h = (v, refl)
  on_flow-Safe again (err e) s v h = (v, refl)

  ended-Fine :
      {config : ServerConfig} (r : Outcome End × Session H) → Fine config r → Fine config (ended r)
  ended-Fine (done e, t) h = h
  ended-Fine (stopped (failed timed_out), t) h = h
  ended-Fine (stopped (failed ErrorKind.other), t) h = h
  ended-Fine (stopped (failed k), t) h = h
  ended-Fine (stopped w, t) h = h

module _ {H S : Type 0} (handler : Handler H S) (decode : Bytes → Option Bytes) where
  run_line-Safe :
      (fuel : ℕ) (line : Bytes) (s : Session H) → Inv s → Safe (run_line handler decode fuel line) s
  unfolding run_line
  run_line-Safe fuel line s v = elim (Result-cases (parse_command line)) [
    | inl (e, p) ↦
        rw (p, run_line)
          (then-Safe (attempt (send (Reply.new e.code e.text))) or_end s
            (tried-IsQuiet (Reply.new e.code e.text)) v (λ r t q w. or_end-Safe r t w))
    | inr (command, p) ↦
        let h = dispatch-Safe handler decode fuel command s v in
        rw (p, run_line)
          (bind-Safe (dispatch handler decode fuel command) (λ flow. pure (ok flow)) s h
            (λ flow. (h.0, refl)))
  ]

  on_command_line-Safe :
      (fuel : ℕ) (again : M H End) (l : Option Line) (s : Session H)
      → Inv s
      → ((t : Session H) → Inv t → Safe again t)
      → Safe (on_command_line handler decode fuel again l) s
  on_command_line-Safe fuel again none s v h = drained-Safe s v
  on_command_line-Safe fuel again (some Line.eof) s v h = (v, refl)
  on_command_line-Safe fuel again (some too_long) s v h =
      then-Safe refuse_long_line (λ _. pure End.closed) s refuse_long_line-IsQuiet v
        (λ a t q w. (w, refl))
  on_command_line-Safe fuel again (some (got line)) s v h =
      let t : Session H = record s { first_command_seen = true } in
      let r = run_line-Safe fuel line t v in
      bind-Safe (run_line handler decode fuel line) (on_flow again) t r
        (λ a. on_flow-Safe again a _ r.0 (h _ r.0))

  serve_loop-Safe : (fuel : ℕ) (s : Session H) → Inv s → Safe (serve_loop handler decode fuel) s
  unfolding serve_loop
  serve_loop-Safe zero s v = (v, refl)
  serve_loop-Safe (suc fuel) s v =
      then-Safe next_command_line
        (on_command_line handler decode fuel (serve_loop handler decode fuel)) s
        next_command_line-IsQuiet v
        (λ l t q w.
          on_command_line-Safe fuel (serve_loop handler decode fuel) l t w (serve_loop-Safe fuel))

  greeted_first-Safe :
      (fuel : ℕ) (r : Result ErrorKind (Unit {0})) (s : Session H)
      → Inv s
      → Safe (greeted_first handler decode (serve_loop handler decode fuel) r) s
  greeted_first-Safe fuel (ok _) s v = serve_loop-Safe fuel s v
  greeted_first-Safe fuel (err k) s v = (v, refl)

  serve-Safe : (fuel : ℕ) (s : Session H) → Inv s → Safe (serve handler decode fuel) s
  unfolding serve
  serve-Safe fuel s v =
      let hello = Reply.new 220 (s.config.service_name ++ codes " SMTP service ready") in
      ended-Fine _ (
        then-Safe (attempt (send hello))
          (greeted_first handler decode (serve_loop handler decode fuel)) s (tried-IsQuiet hello) v
          (λ r t q w. greeted_first-Safe fuel r t w))

  initial-Inv :
      (config : ServerConfig) (h : H) (reads : List Read) (handshakes : List Handshake)
      (writes : List (Option ErrorKind))
      → Inv (initial config h reads handshakes writes)
  unfolding initial
  initial-Inv config h reads handshakes writes = record {
    allowed = tt;
    counted = refl;
    tls_known = refl;
    encrypted = λ k. absurd (low k);
    authorized = λ k. absurd (lowest k);
    has_recipient = λ e. cc;
    early = λ e. refl;
  }
    where
      low : ¬ (2 ≤ 0)
      low = omega arith

      lowest : ¬ (3 ≤ 0)
      lowest = omega arith

  -- Whatever the network, the client and the handler do, at every point of a session: AUTH is
  -- passed to the handler only behind TLS, where TLS is required; MAIL, RCPT and the opening of a
  -- message only behind TLS, where it is required, and behind an AUTH that the handler has
  -- accepted, where AUTH is required; a message is opened only with a recipient that was accepted
  -- since the last reset; no recipient is accepted beyond the limit, where there is one; and TLS
  -- is set up at most once.
  pub serve_secure :
      (fuel : ℕ) (config : ServerConfig) (h : H) (reads : List Read) (handshakes : List Handshake)
      (writes : List (Option ErrorKind))
      → Allowed config
          (serve handler decode fuel (initial config h reads handshakes writes)).1.calls
  unfolding initial
  serve_secure fuel config h reads handshakes writes =
      let s = initial config h reads handshakes writes in
      let r = serve-Safe fuel s (initial-Inv config h reads handshakes writes) in
      Allowed-config _ r.1 r.0.allowed
