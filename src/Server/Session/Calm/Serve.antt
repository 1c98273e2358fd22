-- ===== src/Server/Session/Calm/Serve.antt =====
-- src/server/session.rs: the connection loop, and the replies of a whole session.
use smtp_proxy_rs.Prelude.{
  ℕ, zero, suc, ◌≡◌, ◌≢◌, refl, inl, inr, Bool, true, false, List, [], ◌∷◌, ◌++◌, Option, none,
  some, ◌||◌, arith, Bytes, codes, if◌then◌else◌, Option-cases, Result, ok, err, leb,
}
use smtp_proxy_rs.Server.{Handler}
use smtp_proxy_rs.Server.Session.{
  ErrorKind, timed_out, max_command_buffer, State, want_greeting, want_start_tls, want_auth,
  want_mail, want_rcpt, want_data, rank, Line, got, too_long, End, Flow, continue, close, Session,
  failed, panicked, starved, exhausted, bind_outcome, Read, Handshake, chunk, cancelled, Outcome,
  done, stopped, M, ◌>>=◌, ◌>>◌, pure, goto, attempt, send, Pulled, line, settle, pull, interrupted,
}
use smtp_proxy_rs.Server.Session.Reading.{
  next_command_line, command_line_of, clear_buf, refuse_long_line, start_transaction, absorb,
  deadline, drain_begins, begin_drain,
}
use smtp_proxy_rs.Server.Session.Authentication.{reply_and_continue}
use smtp_proxy_rs.Server.Session.Transaction.{in_want_mail}
use smtp_proxy_rs.Server.Session.Dispatch.{
  shaken, next_handshake, upgrade, greeting_lines, greeted, drained, or_end, on_flow, ended,
  first_command, greeting, in_want_data, without_auth, in_want_auth, without_starttls,
  in_want_starttls, in_state, dispatch, run_line, on_command_line, serve_loop, greeted_first, serve,
}
use smtp_proxy_rs.Server.Session.Calm.{
  Calm, IsCalm, bind-Calm, attempt-Calm, new-Calm, send-Calm, refuse_long_line-Calm,
}
use smtp_proxy_rs.Server.Session.Calm.Message.{IsSound, read_message-Calm}
use smtp_proxy_rs.Server.Session.Calm.Commands.{
  reply-Calm, bad_sequence-Calm, do_auth-Calm, in_want_mail-Calm, in_want_rcpt-Calm,
}
use smtp_proxy_rs.Smtp.Command.{
  Command, CommandError, ehlo, helo, noop, quit, start_tls, data_cmd, rset, auth, rcpt, vrfy,
  parse_command, take_line,
}
use smtp_proxy_rs.Smtp.Command.Lines.{IsLine, take_line-IsLine}
use smtp_proxy_rs.Smtp.Command.Outcome
use smtp_proxy_rs.Smtp.Command.Outcome.{parse_command-Outcome}
use smtp_proxy_rs.Smtp.Reply
use smtp_proxy_rs.Smtp.Reply.{Reply}

-- A line that a wait gives is a complete one.
abbrev GotLine : Pulled → Type 0
GotLine (line (got l)) = IsLine l
GotLine _ = Unit

settle-GotLine :
    (n : ℕ) (buf : Bytes) (p : Pulled) (rest : Bytes) → settle n buf ≡ some (p, rest) → GotLine p
unfolding settle
settle-GotLine n buf p rest e = elim (Option-cases (take_line buf)) [
  | inl m ↦ ground arith
  | inr (l, m) ↦ ground (arith, take_line-IsLine buf l.0 l.1 m)
]

pull-GotLine :
    (stops : Bool) (dl n : ℕ) (d : Bool) (buf : Bytes) (reads : List Read)
    → GotLine (pull stops dl n d buf reads).pulled
unfolding pull
pull-GotLine stops dl n d buf [] = elim (Option-cases (settle n buf)) [
  | inl m ↦ ground arith
  | inr (r, m) ↦ ground (arith, settle-GotLine n buf r.0 r.1 m)
]
pull-GotLine stops dl n d buf (chunk wait bytes ∷ reads) = elim (Option-cases (settle n buf)) [
  | inl m ↦ ground (arith, pull-GotLine stops dl n d (buf ++ bytes) reads)
  | inr (r, m) ↦ ground (arith, settle-GotLine n buf r.0 r.1 m)
]
pull-GotLine stops dl n d buf (Read.failing wait k ∷ reads) = elim (Option-cases (settle n buf)) [
  | inl m ↦ ground arith
  | inr (r, m) ↦ ground (arith, settle-GotLine n buf r.0 r.1 m)
]
pull-GotLine stops dl n d buf (cancelled ∷ reads) = elim (Option-cases (settle n buf)) [
  | inl m ↦ ground (arith, pull-GotLine stops dl n true buf reads)
  | inr (r, m) ↦ ground (arith, settle-GotLine n buf r.0 r.1 m)
]

-- An action that does not panic, and whose result is so.
abbrev Gives : {A : Type 0} → (A → Type 0) → Outcome A → Type 0
Gives P (done a) = P a
Gives P (stopped panicked) = ⊥
Gives P (stopped _) = Unit

abbrev IsCommandLine : Option Line → Type 0
IsCommandLine (some (got l)) = IsLine l
IsCommandLine _ = Unit

command_line_of-Gives : (p : Pulled) → GotLine p → Gives IsCommandLine (command_line_of p)
command_line_of-Gives (line (got l)) h = h
command_line_of-Gives (line Line.eof) h = tt
command_line_of-Gives (line too_long) h = tt
command_line_of-Gives (Pulled.failing k) h = tt
command_line_of-Gives interrupted h = tt
command_line_of-Gives Pulled.starved h = tt

calm-ne : {A : Type 0} (o : Outcome A) → IsCalm o → o ≢ stopped panicked
calm-ne (done a) h e = cc
calm-ne (stopped panicked) h e = h
calm-ne (stopped (failed k)) h e = cc
calm-ne (stopped starved) h e = cc
calm-ne (stopped exhausted) h e = cc

module _ {H : Type 0} where
  given-Calm :
      {A B : Type 0} (P : A → Type 0) (o : Outcome A) (s : Session H) (f : A → M H B)
      → Gives P o
      → ((a : A) → P a → Calm (f a))
      → IsCalm (bind_outcome o s f).0
  given-Calm P (done a) s f h k = k a h s
  given-Calm P (stopped (failed e)) s f h k = tt
  given-Calm P (stopped panicked) s f h k = h
  given-Calm P (stopped starved) s f h k = tt
  given-Calm P (stopped exhausted) s f h k = tt

  drain_or :
      (a b : Bool) (o : Outcome (Option Line)) (s t : Session H)
      → Gives IsCommandLine o
      → Gives IsCommandLine
          (if◌then◌else◌ {A = Outcome (Option Line) × Session H} a
            (if b then (done none, s) else (o, t))
            (o, t)).0
  drain_or true true o s t h = tt
  drain_or true false o s t h = h
  drain_or false b o s t h = h

  next_command_line-Gives : (s : Session H) → Gives IsCommandLine (next_command_line s).0
  unfolding next_command_line
  next_command_line-Gives s =
      let p = pull s.config.drain (deadline s) max_command_buffer s.draining s.buf s.reads in
      drain_or s.config.drain (s.draining || drain_begins s.reads) (command_line_of p.pulled)
        (begin_drain s) (absorb s p)
        (command_line_of-Gives p.pulled
          (pull-GotLine s.config.drain (deadline s) max_command_buffer s.draining s.buf s.reads))

  shaken-Calm :
      (hs : List Handshake) (outcome : Option (List Read)) → Calm {H = H} (shaken hs outcome)
  shaken-Calm hs (some reads) s = tt
  shaken-Calm hs none s = tt

  next_handshake-Calm : (hs : List Handshake) → Calm {H = H} (next_handshake hs)
  next_handshake-Calm [] s = tt
  next_handshake-Calm (accept ∷ hs) s = shaken-Calm hs (accept s.reads) s

  upgrade-Calm : Calm {H = H} upgrade
  unfolding upgrade
  upgrade-Calm =
      bind-Calm (send (Reply.new 220 (codes "Go ahead")))
        (λ _. clear_buf >> λ s. next_handshake s.handshakes s)
        (new-Calm 220 (codes "Go ahead") refl) (λ _ s. next_handshake-Calm s.handshakes _)

  drained-Calm : Calm {H = H} drained
  unfolding drained
  drained-Calm s =
      let reply = send (
        Reply.new 421 (
          s.config.service_name ++ codes " Service not available, closing transmission channel")) in
      bind-Calm (attempt reply) (λ _. pure End.drained) (attempt-Calm reply (new-Calm 421 _ refl))
        (λ _ _. tt) s

  or_end-Calm : (r : Result ErrorKind (Unit {0})) → Calm {H = H} (or_end r)
  or_end-Calm (ok _) s = tt
  or_end-Calm (err k) s = tt

  on_flow-Calm : (again : M H End) (r : Result End Flow) → Calm again → Calm (on_flow again r)
  on_flow-Calm again (ok continue) h s = h s
  on_flow-Calm again (ok Flow.quit) h s = tt
  on_flow-Calm again (ok Flow.tls_failed) h s = tt
  on_flow-Calm again (ok close) h s = tt
  on_flow-Calm again (err e) h s = tt

  -- a multi-line greeting has its first line
  lines-ne :
      (s : Session H) (dsn : Bool) (size : Option ℕ) (is_ehlo : Bool)
      → greeting_lines s dsn size is_ehlo ≢ []
  unfolding greeting_lines
  lines-ne s dsn size is_ehlo e = cc

  ended-Calm : (o : Outcome End) (s : Session H) → IsCalm o → IsCalm (ended (o, s)).0
  ended-Calm (done e) s h = tt
  ended-Calm (stopped panicked) s h = h
  ended-Calm (stopped (failed timed_out)) s h = tt
  ended-Calm (stopped (failed ErrorKind.unexpected_eof)) s h = tt
  ended-Calm (stopped (failed ErrorKind.broken_pipe)) s h = tt
  ended-Calm (stopped (failed ErrorKind.connection_reset)) s h = tt
  ended-Calm (stopped (failed ErrorKind.connection_aborted)) s h = tt
  ended-Calm (stopped (failed ErrorKind.not_connected)) s h = tt
  ended-Calm (stopped (failed ErrorKind.other)) s h = tt
  ended-Calm (stopped starved) s h = tt
  ended-Calm (stopped exhausted) s h = tt

module _ {H S : Type 0} (handler : Handler H S) (decode : Bytes → Option Bytes)
    (sound : IsSound handler) where
  greeting-Calm : (is_ehlo : Bool) → Calm (greeting handler decode is_ehlo)
  unfolding greeting start_transaction Reply.multi
  greeting-Calm is_ehlo s =
      let lines =
        greeting_lines s (handler.dsn_available s.handler) (handler.size_limit s.handler) is_ehlo in
      bind-Calm (if leb 3 (rank s.state) then start_transaction handler else pure tt)
        (λ _. (λ t. goto (greeted t) t) >> send (Reply.multi 250 lines))
        (maybe (leb 3 (rank s.state)))
        (λ _ t.
          send-Calm (Reply.multi 250 lines) refl
            (lines-ne s (handler.dsn_available s.handler) (handler.size_limit s.handler) is_ehlo) _)
        s
    where
      maybe : (b : Bool) → Calm (if b then start_transaction handler else pure tt)
      maybe true t = tt
      maybe false t = tt

  in_want_data-Calm : (fuel : ℕ) (c : Command) → Calm (in_want_data handler decode fuel c)
  unfolding in_want_data
  in_want_data-Calm fuel (rcpt to params) = in_want_rcpt-Calm handler sound (rcpt to params)
  in_want_data-Calm fuel data_cmd = read_message-Calm handler sound fuel
  in_want_data-Calm fuel _ = bad_sequence-Calm

  either-Calm :
      (b : Bool) (m k : M H Flow) (s : Session H)
      → Calm m
      → Calm k
      → IsCalm (if b then m s else k s).0
  either-Calm true m k s h h' = h s
  either-Calm false m k s h h' = h' s

  without_auth-Calm : (c : Command) → Calm (without_auth handler decode c)
  without_auth-Calm c s =
      either-Calm s.config.require_auth (reply_and_continue 530 (codes "Authentication required"))
        (goto want_mail >> in_want_mail handler c) s
        (reply-Calm 530 (codes "Authentication required") refl)
        (λ t. in_want_mail-Calm handler sound c _)

  in_want_auth-Calm : (c : Command) → Calm (in_want_auth handler decode c)
  unfolding in_want_auth
  in_want_auth-Calm (auth mechanism initial) = do_auth-Calm handler decode mechanism initial
  in_want_auth-Calm c = without_auth-Calm c

  without_starttls-Calm : (c : Command) → Calm (without_starttls handler decode c)
  without_starttls-Calm c s =
      either-Calm s.config.require_starttls
        (reply_and_continue 530 (codes "Must issue a STARTTLS command first"))
        (goto want_auth >> in_want_auth handler decode c) s
        (reply-Calm 530 (codes "Must issue a STARTTLS command first") refl)
        (λ t. in_want_auth-Calm c _)

  in_want_starttls-Calm : (c : Command) → Calm (in_want_starttls handler decode c)
  unfolding in_want_starttls
  in_want_starttls-Calm start_tls s =
      either-Calm s.config.tls upgrade (without_starttls handler decode start_tls) s upgrade-Calm
        (without_starttls-Calm start_tls)
  in_want_starttls-Calm c s = without_starttls-Calm c s

  in_state-Calm : (fuel : ℕ) (st : State) (c : Command) → Calm (in_state handler decode fuel st c)
  in_state-Calm fuel want_greeting c = bad_sequence-Calm
  in_state-Calm fuel want_start_tls c = in_want_starttls-Calm c
  in_state-Calm fuel want_auth c = in_want_auth-Calm c
  in_state-Calm fuel want_mail c = in_want_mail-Calm handler sound c
  in_state-Calm fuel want_rcpt c = in_want_rcpt-Calm handler sound c
  in_state-Calm fuel want_data c = in_want_data-Calm fuel c

  dispatch-Calm : (fuel : ℕ) (c : Command) → Calm (dispatch handler decode fuel c)
  unfolding dispatch start_transaction
  dispatch-Calm fuel quit s =
      let text = s.config.service_name ++ codes " closing transmission channel" in
      bind-Calm (send (Reply.new 221 text)) (λ _. pure Flow.quit) (new-Calm 221 text refl)
        (λ _ _. tt) s
  dispatch-Calm fuel noop s = reply-Calm 250 (codes "OK") refl s
  dispatch-Calm fuel (vrfy _) s = reply-Calm 553 (codes "Unimplemented") refl s
  dispatch-Calm fuel (ehlo _) s =
      bind-Calm (greeting handler decode true) (λ _. pure continue) (greeting-Calm true) (λ _ _. tt)
        s
  dispatch-Calm fuel (helo _) s =
      bind-Calm (greeting handler decode false) (λ _. pure continue) (greeting-Calm false)
        (λ _ _. tt) s
  dispatch-Calm fuel rset s = reply-Calm 250 (codes "OK") refl _
  dispatch-Calm fuel c s = in_state-Calm fuel s.state c s

  run_line-Calm : (fuel : ℕ) (l : Bytes) → IsLine l → Calm (run_line handler decode fuel l)
  unfolding run_line
  run_line-Calm fuel l h = go (parse_command l) (parse_command-Outcome l h)
    where
      go :
          (r : Result CommandError Command)
          → Outcome.Outcome r
          → Calm (elim r as (λ _. M H (Result End Flow)) [
            | ok command ↦ dispatch handler decode fuel command >>= λ flow. pure (ok flow)
            | err e ↦ attempt (send (Reply.new e.code e.text)) >>= or_end
          ])
      go (ok c) k =
          bind-Calm (dispatch handler decode fuel c) (λ flow. pure (ok flow)) (dispatch-Calm fuel c)
            (λ _ _. tt)
      go (err e) k =
          bind-Calm (attempt (send (Reply.new e.code e.text))) or_end
            (attempt-Calm (send (Reply.new e.code e.text)) (new-Calm e.code e.text (ground arith)))
            or_end-Calm

  on_command_line-Calm :
      (fuel : ℕ) (again : M H End) (l : Option Line)
      → Calm again
      → IsCommandLine l
      → Calm (on_command_line handler decode fuel again l)
  on_command_line-Calm fuel again none h k = drained-Calm
  on_command_line-Calm fuel again (some Line.eof) h k = λ _. tt
  on_command_line-Calm fuel again (some too_long) h k =
      bind-Calm refuse_long_line (λ _. pure End.closed) refuse_long_line-Calm (λ _ _. tt)
  on_command_line-Calm fuel again (some (got l)) h k =
      bind-Calm first_command (λ _. run_line handler decode fuel l >>= on_flow again) (λ _. tt)
        (λ _.
          bind-Calm (run_line handler decode fuel l) (on_flow again) (run_line-Calm fuel l k)
            (λ r. on_flow-Calm again r h))

  serve_loop-Calm : (fuel : ℕ) → Calm (serve_loop handler decode fuel)
  unfolding serve_loop
  serve_loop-Calm zero s = tt
  serve_loop-Calm (suc fuel) s =
      given-Calm IsCommandLine (next_command_line s).0 (next_command_line s).1
        (on_command_line handler decode fuel (serve_loop handler decode fuel))
        (next_command_line-Gives s)
        (λ l k.
          on_command_line-Calm fuel (serve_loop handler decode fuel) l (serve_loop-Calm fuel) k)

  -- Of a handler of which every refusal and every verdict has a code from 200 to 599: whatever the
  -- network, the client and the base64 decoder do, the session does not panic.
  pub serve-Calm : (fuel : ℕ) (s : Session H) → (serve handler decode fuel s).0 ≢ stopped panicked
  unfolding serve
  serve-Calm fuel s =
      let text = s.config.service_name ++ codes " SMTP service ready" in
      let first = attempt (send (Reply.new 220 text)) in
      let m = first >>= greeted_first handler decode (serve_loop handler decode fuel) in
      calm-ne (serve handler decode fuel s).0 (
        ended-Calm (m s).0 (m s).1 (
          bind-Calm first (greeted_first handler decode (serve_loop handler decode fuel))
            (attempt-Calm (send (Reply.new 220 text)) (new-Calm 220 text refl)) loop s))
    where
      loop :
          (r : Result ErrorKind (Unit {0}))
          → Calm (greeted_first handler decode (serve_loop handler decode fuel) r)
      loop (ok _) t = serve_loop-Calm fuel t
      loop (err k) t = tt
