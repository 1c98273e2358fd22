-- ===== src/Server/Session/Termination.antt =====
-- The fuel of the loops of DATA in src/server/session.rs: a round that goes on has taken a line off
-- the input or emptied a buffer that was not empty.
pub mod Message
use smtp_proxy_rs.Prelude.{
  ℕ, zero, suc, ◌+◌, ◌≤◌, ◌<◌, ◌≡◌, ◌≢◌, inl, inr, refl, ◌∙◌, sym, ap, Bool, true, false, ◌||◌,
  List, [], ◌∷◌, arith, Bytes, Option, none, some, Result, ok, err, codes, ◌++◌, Bool-cases,
  Option-cases, ◌&&◌, is_empty, ltb, leb, not, contains, bytes_eq, from_utf8_lossy, ltb→lt,
  if◌then◌else◌,
}
use smtp_proxy_rs.Server.{ServerConfig, Handler, Rejection}
use smtp_proxy_rs.Server.Auth.{
  Credentials, username_challenge, password_challenge, decode_plain, decode_login,
}
use smtp_proxy_rs.Server.Session.{
  max_command_buffer, ErrorKind, State, want_greeting, want_start_tls, want_auth, want_mail,
  want_rcpt, want_data, rank, Line, got, too_long, Flow, continue, close, Call, upgraded,
  asked_auth, authenticated, asked_mail, asked_rcpt, recipient, opened, reset, Session, Outcome,
  done, stopped, Stop, M, ◌>>=◌, ◌>>◌, pure, stop, goto, send, attempt, bind_outcome, End, Read,
  failed, timed_out,
}
use smtp_proxy_rs.Server.Session.Quiet.{
  Quiet, Quiet-refl, IsQuiet, bind-IsQuiet, attempt-IsQuiet, send-IsQuiet, next_line-IsQuiet,
  next_command_line-IsQuiet, clear_buf-IsQuiet, refuse_long_line-IsQuiet,
}
use smtp_proxy_rs.Server.Session.Reading.{
  next_line, next_command_line, refuse_long_line, clear_buf, start_transaction,
}
use smtp_proxy_rs.Server.Session.Security.{
  IsEncrypted, IsAuthenticated, Permits, Allowed, InvOf, InvOf-path, Inv, Quiet-Inv, has_upgrade,
  has_auth, accepted,
}
use smtp_proxy_rs.Smtp.Reply
use smtp_proxy_rs.Smtp.Reply.{Reply}
use smtp_proxy_rs.Smtp.Params.{Param}
use smtp_proxy_rs.Smtp.Command.{
  Command, ehlo, helo, noop, quit, start_tls, data_cmd, rset, auth, mail, rcpt, vrfy, parse_command,
}
use smtp_proxy_rs.Relay.{UpstreamVerdict, dropped, replied}
use smtp_proxy_rs.Server.Data.{is_terminator, write_chunk}
use smtp_proxy_rs.Server.Data.BodyFramer.{BodyFramer, BodyPiece, pending, push, push_partial, flush}
use smtp_proxy_rs.Server.Session.{Pulled, panicked, starved, exhausted, caught, write_outcome}
use smtp_proxy_rs.Server.Session.Message.{
  discarded, discard_to_terminator, after_discard, resync, mirror, finish_written, finish_body,
  on_written, on_piece, on_body_line, read_body,
}
use smtp_proxy_rs.Server.Session.Quiet.{
  weight, refuse_data-IsQuiet, next_line_cost, forgive-IsQuiet,
}
use smtp_proxy_rs.Server.Session.Reading.{forgive, try_reply, refuse_data, conclude, line_of}

-- An outcome other than that of a loop out of fuel.
abbrev pub IsEnd : {A : Type 0} → Outcome A → Type 0
IsEnd (stopped exhausted) = ⊥
IsEnd _ = Unit

line_of-IsEnd : (p : Pulled) → IsEnd (line_of p)
line_of-IsEnd (Pulled.line l) = tt
line_of-IsEnd (Pulled.failing k) = tt
line_of-IsEnd Pulled.interrupted = tt
line_of-IsEnd Pulled.starved = tt

module _ {H : Type 0} where
  abbrev pub Ends : {A : Type 0} → M H A → Session H → Type 0
  Ends m s = IsEnd (m s).0

  -- An action without a loop.
  abbrev pub IsPlain : {A : Type 0} → M H A → Type 0
  IsPlain m = (s : Session H) → Ends m s

  pub bind-Ends :
      {A B : Type 0} (m : M H A) (f : A → M H B) (s : Session H)
      → Ends m s
      → ((a : A) → (m s).0 ≡ done a → Ends (f a) (m s).1)
      → Ends (m >>= f) s
  bind-Ends {A} m f s h k = go (m s).0 h k
    where
      go :
          (o : Outcome A)
          → IsEnd o
          → ((a : A) → o ≡ done a → Ends (f a) (m s).1)
          → IsEnd (bind_outcome o (m s).1 f).0
      go (done a) h k = k a refl
      go (stopped (failed e)) h k = tt
      go (stopped panicked) h k = tt
      go (stopped starved) h k = tt
      go (stopped exhausted) h k = h

  write-Ends : (ws : List (Option ErrorKind)) (s : Session H) → IsEnd (write_outcome ws s).0
  write-Ends [] s = tt
  write-Ends (none ∷ ws) s = tt
  write-Ends (some k ∷ ws) s = tt

  pub send-IsPlain : (reply : Reply) → IsPlain (send reply)
  unfolding send
  send-IsPlain reply s = elim (Option-cases (Reply.wire reply)) [
    | inl n ↦ rw (n, send) tt
    | inr (w, n) ↦ rw (n, send) (write-Ends s.writes (record s { sent = reply ∷ s.sent }))
  ]

  attempt-IsPlain : {A : Type 0} (m : M H A) → IsPlain m → IsPlain (attempt m)
  attempt-IsPlain {A} m h s = go (m s) (h s)
    where
      go : (r : Outcome A × Session H) → IsEnd r.0 → IsEnd (caught r).0
      go (done a, t) k = tt
      go (stopped (failed e), t) k = tt
      go (stopped panicked, t) k = tt
      go (stopped starved, t) k = tt
      go (stopped exhausted, t) k = k

  forgive-IsPlain : (r : Result ErrorKind (Unit {0})) → IsPlain (forgive r)
  forgive-IsPlain (ok _) s = tt
  forgive-IsPlain (err k) s = ground arith

  reply-IsPlain : (code : ℕ) (text : Bytes) → IsPlain (try_reply code text >>= forgive)
  reply-IsPlain code text s =
      bind-Ends (try_reply code text) forgive s
        (attempt-IsPlain (send (Reply.new code text)) (send-IsPlain (Reply.new code text)) s)
        (λ r e. forgive-IsPlain r (try_reply code text s).1)

  pub refuse_data-IsPlain : (code : ℕ) (text : Bytes) → IsPlain (refuse_data code text)
  unfolding refuse_data
  refuse_data-IsPlain code text = reply-IsPlain code text

  pub conclude-IsPlain : (r : Result UpstreamVerdict Bytes) → IsPlain (conclude r)
  unfolding conclude
  conclude-IsPlain (ok message) s =
      reply-IsPlain 250 (codes "OK: " ++ message) (record s { state = want_mail })
  conclude-IsPlain (err (replied code text)) s =
      refuse_data-IsPlain code text (record s { state = want_mail })
  conclude-IsPlain (err dropped) s = tt

  next_line-IsPlain : (n : ℕ) → IsPlain (next_line n)
  unfolding next_line
  next_line-IsPlain n s = line_of-IsEnd _

  -- One round of a loop that reads lines.
  pub round-Ends :
      {A : Type 0} (n : ℕ) (k : Line → M H A) (fuel : ℕ) (s : Session H)
      → weight s < suc fuel
      → ((l : Bytes) (t : Session H) → weight t < fuel → Ends (k (got l)) t)
      → ((t : Session H) → weight (record t { buf = [] }) < fuel → Ends (k too_long) t)
      → ((t : Session H) → Ends (k Line.eof) t)
      → Ends (next_line n >>= k) s
  round-Ends n k fuel s w line long eof =
      bind-Ends (next_line n) k s (next_line-IsPlain n s) (λ l e. go l e)
    where
      go : (l : Line) → (next_line n s).0 ≡ done l → Ends (k l) (next_line n s).1
      go (got l) e = line l _ (omega (arith, w, (next_line_cost n s).0 l e))
      go too_long e =
          long _ (omega (arith, w, (next_line-IsQuiet n s).lighter, (next_line_cost n s).1 e))
      go Line.eof e = eof _

  -- With more fuel than there are bytes to come, the discard of a message comes to an end, and does
  -- not run out of fuel.
  pub discard_to_terminator-IsEnd :
      (fuel : ℕ) (at_line_start : Bool) (s : Session H)
      → weight s < fuel
      → IsEnd (discard_to_terminator fuel at_line_start s).0
  unfolding discard_to_terminator
  discard_to_terminator-IsEnd zero b s w = absurd (omega (arith, w))
  discard_to_terminator-IsEnd (suc fuel) b s w =
      round-Ends max_command_buffer (discarded (discard_to_terminator fuel) b) fuel s w
        (λ l t v. elim (Bool-cases (b && is_terminator l)) [
          | inl e ↦ rw (e, discarded) tt
          | inr e ↦ rw (e, discarded) (discard_to_terminator-IsEnd fuel true t v)
        ])
        (λ t v. discard_to_terminator-IsEnd fuel false (record t { buf = [] }) v) (λ t. tt)

  pub after_discard-Ends :
      (k : M H Flow) (flow : Flow) (s : Session H) → Ends k s → Ends (after_discard k flow) s
  after_discard-Ends k close s h = tt
  after_discard-Ends k continue s h = h
  after_discard-Ends k Flow.quit s h = h
  after_discard-Ends k Flow.tls_failed s h = h
