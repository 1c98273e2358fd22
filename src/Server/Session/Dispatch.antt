-- ===== src/Server/Session/Dispatch.antt =====
-- src/server/session.rs: greetings, STARTTLS, and the loop that reads commands.
use smtp_proxy_rs.Prelude.{
  ℕ, zero, suc, Bool, true, false, not, ◌&&◌, ◌||◌, List, [], ◌∷◌, ◌++◌, Option, none, some, Bytes,
  codes, if◌then◌else◌, Result, ok, err, decimal, leb, ltb,
}
use smtp_proxy_rs.Server.{Handler, ServerConfig}
use smtp_proxy_rs.Server.Session.{
  ErrorKind, timed_out, State, want_greeting, want_start_tls, want_auth, want_mail, want_rcpt,
  want_data, rank, Line, got, too_long, End, Flow, continue, close, Session, failed, starved,
  exhausted, Read, Handshake, Outcome, done, stopped, M, ◌>>=◌, ◌>>◌, pure, stop, modify, goto,
  attempt, send, upgraded,
}
use smtp_proxy_rs.Server.Session.Reading.{
  next_command_line, clear_buf, refuse_long_line, start_transaction,
}
use smtp_proxy_rs.Server.Session.Message.{read_message}
use smtp_proxy_rs.Smtp.Command.{
  Command, ehlo, helo, noop, quit, start_tls, data_cmd, rset, auth, rcpt, vrfy, parse_command,
}
use smtp_proxy_rs.Smtp.Reply
use smtp_proxy_rs.Server.Session.Authentication.{reply_and_continue, do_auth}
use smtp_proxy_rs.Server.Session.Transaction.{bad_sequence, in_want_mail, in_want_rcpt}

module _ {H : Type 0} where
  -- what comes of a TLS handshake: the decrypted stream, or its failure
  abbrev pub shaken : List Handshake → Option (List Read) → M H Flow
  shaken hs (some reads) s = (
    done continue,
    record s {
      handshakes = hs;
      reads = reads;
      tls_active = true;
      state = want_auth;
      calls = upgraded ∷ s.calls;
    },
  )
  shaken hs none s = (done Flow.tls_failed, record s { handshakes = hs; reads = [] })

  -- the next TLS handshake, over what is still to be read
  abbrev pub next_handshake : List Handshake → M H Flow
  next_handshake [] s = (stopped starved, s)
  next_handshake (accept ∷ hs) s = shaken hs (accept s.reads) s

  -- The arm for STARTTLS. What is in the buffer arrived in the clear, and goes.
  unfoldable pub upgrade : M H Flow
  unfolding send
  upgrade = do
    send (Reply.new 220 (codes "Go ahead"))
    clear_buf
    λ s. next_handshake s.handshakes s

  unfoldable pub greeting_lines : Session H → Bool → Option ℕ → Bool → List Bytes
  greeting_lines s dsn size is_ehlo =
      let first =
        s.config.service_name
        ++ (if s.tls_active
            then codes " offers another warm hug of welcome"
            else codes " offers a warm hug of welcome") in
      let extensions =
        (if not s.tls_active && s.config.tls then codes "STARTTLS" ∷ [] else [])
        ++ ((if s.tls_active || not s.config.require_starttls
              then codes "AUTH PLAIN LOGIN" ∷ []
              else [])
            ++ ((if dsn then codes "DSN" ∷ [] else [])
                ++ (elim size [ none ↦ [] | some n ↦ (codes "SIZE " ++ decimal n) ∷ [] ]))) in
      first ∷ (if is_ehlo then extensions else [])

  -- the state after a greeting
  unfoldable pub greeted : Session H → State
  greeted s =
      if leb 3 (rank s.state)
      then want_mail
      else if leb 2 (rank s.state) || s.tls_active
      then want_auth
      else want_start_tls

  -- `drained`
  unfoldable pub drained : M H End
  unfolding send
  drained s =
      (attempt (
            send (
              Reply.new 421 (
                s.config.service_name
                ++ codes " Service not available, closing transmission channel")))
          >> pure End.drained)
        s

  -- A failed reply of the loop itself ends the session; what it was is kept.
  abbrev pub or_end : Result ErrorKind (Unit {0}) → M H (Result End Flow)
  or_end (ok _) = pure (ok continue)
  or_end (err k) = pure (err (End.io k))

  -- the `match` on the flow of a command; `again` is the next round of the loop
  abbrev pub on_flow : M H End → Result End Flow → M H End
  on_flow again (ok continue) = again
  on_flow again (ok Flow.quit) = pure End.quit
  on_flow again (ok Flow.tls_failed) = pure End.tls_failed
  on_flow again (ok close) = pure End.closed
  on_flow again (err e) = pure e

  -- An error of a read or of a command as the end of the session.
  abbrev pub ended : Outcome End × Session H → Outcome End × Session H
  ended (stopped (failed timed_out), s) = (done End.timeout, s)
  ended (stopped (failed k), s) = (done (End.io k), s)
  ended r = r

  abbrev pub first_command : M H (Unit {0})
  first_command = modify (λ s. record s { first_command_seen = true })

module _ {H S : Type 0} (handler : Handler H S) (decode : Bytes → Option Bytes) where
  unfoldable pub greeting : Bool → M H (Unit {0})
  unfolding greeting_lines start_transaction greeted send
  greeting is_ehlo s =
      let lines =
        greeting_lines s (handler.dsn_available s.handler) (handler.size_limit s.handler) is_ehlo in
      ((if leb 3 (rank s.state) then start_transaction handler else pure tt)
          >> ((λ t. goto (greeted t) t) >> send (Reply.multi 250 lines)))
        s

  unfoldable pub in_want_data : ℕ → Command → M H Flow
  unfolding in_want_rcpt read_message bad_sequence
  in_want_data fuel (rcpt to params) = in_want_rcpt handler (rcpt to params)
  in_want_data fuel data_cmd = read_message handler fuel
  in_want_data fuel _ = bad_sequence

  abbrev pub without_auth : Command → M H Flow
  without_auth command s =
      if s.config.require_auth
      then reply_and_continue 530 (codes "Authentication required") s
      else (goto want_mail >> in_want_mail handler command) s

  unfoldable pub in_want_auth : Command → M H Flow
  unfolding do_auth in_want_mail send
  in_want_auth (auth mechanism initial) = do_auth handler decode mechanism initial
  in_want_auth command = without_auth command

  abbrev pub without_starttls : Command → M H Flow
  without_starttls command s =
      if s.config.require_starttls
      then reply_and_continue 530 (codes "Must issue a STARTTLS command first") s
      else (goto want_auth >> in_want_auth command) s

  unfoldable pub in_want_starttls : Command → M H Flow
  unfolding upgrade in_want_auth send
  in_want_starttls start_tls s = if s.config.tls then upgrade s else without_starttls start_tls s
  in_want_starttls command s = without_starttls command s

  -- `RSET`: back to MAIL from within a transaction, and never forward
  abbrev pub back_to_mail : M H (Unit {0})
  back_to_mail s = (done tt, if ltb 3 (rank s.state) then record s { state = want_mail } else s)

  abbrev pub in_state : ℕ → State → Command → M H Flow
  in_state fuel want_greeting command = bad_sequence
  in_state fuel want_start_tls command = in_want_starttls command
  in_state fuel want_auth command = in_want_auth command
  in_state fuel want_mail command = in_want_mail handler command
  in_state fuel want_rcpt command = in_want_rcpt handler command
  in_state fuel want_data command = in_want_data fuel command

  -- `stream.shutdown()` is left out: nothing is sent behind it.
  unfoldable pub dispatch : ℕ → Command → M H Flow
  unfolding greeting start_transaction send bad_sequence in_want_starttls in_want_auth in_want_data
  dispatch fuel quit s =
      (send (Reply.new 221 (s.config.service_name ++ codes " closing transmission channel"))
          >> pure Flow.quit)
        s
  dispatch fuel noop s = reply_and_continue 250 (codes "OK") s
  dispatch fuel (vrfy _) s = reply_and_continue 553 (codes "Unimplemented") s
  dispatch fuel (ehlo _) s = (greeting true >> pure continue) s
  dispatch fuel (helo _) s = (greeting false >> pure continue) s
  dispatch fuel rset s =
      (start_transaction handler >> (back_to_mail >> reply_and_continue 250 (codes "OK"))) s
  dispatch fuel command s = in_state fuel s.state command s

  -- one command line, refused or dispatched
  unfoldable pub run_line : ℕ → Bytes → M H (Result End Flow)
  unfolding dispatch send
  run_line fuel line = elim (parse_command line) [
    | ok command ↦ dispatch fuel command >>= λ flow. pure (ok flow)
    | err e ↦ attempt (send (Reply.new e.code e.text)) >>= or_end
  ]

  -- what the loop does with a wait's result; `again` is its next round
  abbrev pub on_command_line : ℕ → M H End → Option Line → M H End
  on_command_line fuel again none = drained
  on_command_line fuel again (some Line.eof) = pure End.eof
  on_command_line fuel again (some too_long) = refuse_long_line >> pure End.closed
  on_command_line fuel again (some (got line)) =
      first_command >> (run_line fuel line >>= on_flow again)

  unfoldable pub serve_loop : ℕ → M H End
  unfolding next_command_line run_line refuse_long_line drained
  serve_loop zero = stop exhausted
  serve_loop (suc fuel) = next_command_line >>= on_command_line fuel (serve_loop fuel)

  abbrev pub greeted_first : M H End → Result ErrorKind (Unit {0}) → M H End
  greeted_first loop (ok _) = loop
  greeted_first loop (err k) = pure (End.io k)

  unfoldable pub serve : ℕ → M H End
  unfolding serve_loop send
  serve fuel s = ended (
      (attempt (send (Reply.new 220 (s.config.service_name ++ codes " SMTP service ready")))
          >>= greeted_first (serve_loop fuel))
        s)

-- `run`: a session as it begins, over the script of the connection.
unfoldable pub initial :
    {H : Type 0}
    → ServerConfig
    → H
    → List Read
    → List Handshake
    → List (Option ErrorKind)
    → Session H
initial config handler reads handshakes writes = record {
  buf = [];
  state = want_greeting;
  tls_active = false;
  config = config;
  handler = handler;
  first_command_seen = false;
  recipients = 0;
  reads = reads;
  handshakes = handshakes;
  writes = writes;
  draining = false;
  sent = [];
  calls = [];
}
