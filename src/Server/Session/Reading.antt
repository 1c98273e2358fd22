-- ===== src/Server/Session/Reading.antt =====
-- src/server/session.rs: `next_line` and `next_command_line` over the session, and the replies of
-- DATA with their allowance for a client that has gone.
use smtp_proxy_rs.Prelude.{
  ℕ, Bool, true, false, ◌||◌, List, [], ◌∷◌, ◌++◌, Option, none, some, Bytes, codes, if◌then◌else◌,
  Result, ok, err,
}
use smtp_proxy_rs.Relay.{UpstreamVerdict, dropped, replied}
use smtp_proxy_rs.Server.{Handler}
use smtp_proxy_rs.Server.Session.{
  max_command_buffer, ErrorKind, is_hangup, want_mail, Line, Flow, continue, close, Session, failed,
  starved, Read, cancelled, Outcome, done, stopped, M, ◌>>=◌, ◌>>◌, pure, stop, modify, goto,
  attempt, send, Pulled, line, interrupted, Pull, pull, reset,
}
use smtp_proxy_rs.Smtp.Reply

-- The state after a wait.
abbrev pub absorb : {H : Type 0} → Session H → Pull → Session H
absorb s p = record s { buf = p.buf; reads = p.reads; draining = p.draining }

abbrev pub deadline : {H : Type 0} → Session H → ℕ
deadline s = if s.first_command_seen then s.config.idle_timeout else s.config.greeting_timeout

-- `interrupted` comes of a wait for a command only.
abbrev pub line_of : Pulled → Outcome Line
line_of (line l) = done l
line_of (Pulled.failing k) = stopped (failed k)
line_of interrupted = stopped starved
line_of Pulled.starved = stopped starved

abbrev pub command_line_of : Pulled → Outcome (Option Line)
command_line_of (line l) = done (some l)
command_line_of (Pulled.failing k) = stopped (failed k)
command_line_of interrupted = done none
command_line_of Pulled.starved = stopped starved

-- Whether a drain begins before anything more is read.
abbrev pub drain_begins : List Read → Bool
drain_begins (cancelled ∷ _) = true
drain_begins _ = false

abbrev pub behind_drain : List Read → List Read
behind_drain (cancelled ∷ reads) = reads
behind_drain reads = reads

abbrev pub begin_drain : {H : Type 0} → Session H → Session H
begin_drain s = record s { reads = behind_drain s.reads; draining = true }

module _ {H : Type 0} where
  unfoldable pub next_line : ℕ → M H Line
  unfolding pull
  next_line max_incomplete s =
      let p = pull false (deadline s) max_incomplete s.draining s.buf s.reads in
      (line_of p.pulled, absorb s p)

  -- `none` says that a drain has begun. It is looked for first, whatever is in the buffer.
  unfoldable pub next_command_line : M H (Option Line)
  unfolding pull
  next_command_line s =
      let p = pull s.config.drain (deadline s) max_command_buffer s.draining s.buf s.reads in
      if s.config.drain
      then (if s.draining || drain_begins s.reads
          then (done none, begin_drain s)
          else (command_line_of p.pulled, absorb s p))
      else (command_line_of p.pulled, absorb s p)

  abbrev pub clear_buf : M H (Unit {0})
  clear_buf = modify (λ s. record s { buf = [] })

  -- `refuse_long_line`
  unfoldable pub refuse_long_line : M H (Unit {0})
  unfolding send
  refuse_long_line = do _ ← attempt (send (Reply.new 500 (codes "Line too long"))); pure tt

  -- what a failed reply of DATA comes to
  abbrev pub forgive : Result ErrorKind (Unit {0}) → M H Flow
  forgive (ok _) = pure continue
  forgive (err k) = if is_hangup k then pure close else stop (failed k)

  -- a reply whose failure is a value
  abbrev pub try_reply : ℕ → Bytes → M H (Result ErrorKind (Unit {0}))
  try_reply code text = attempt (send (Reply.new code text))

  unfoldable pub refuse_data : ℕ → Bytes → M H Flow
  unfolding send is_hangup
  refuse_data code text = try_reply code text >>= forgive

  unfoldable pub conclude : Result UpstreamVerdict Bytes → M H Flow
  unfolding send is_hangup refuse_data
  conclude (ok message) = goto want_mail >> (try_reply 250 (codes "OK: " ++ message) >>= forgive)
  conclude (err (replied code text)) = goto want_mail >> refuse_data code text
  conclude (err dropped) = goto want_mail >> pure close

module _ {H S : Type 0} (handler : Handler H S) where
  unfoldable pub start_transaction : M H (Unit {0})
  start_transaction =
      modify (λ s. record s {
        recipients = 0;
        handler = handler.reset s.handler;
        calls = reset ∷ s.calls;
      })
