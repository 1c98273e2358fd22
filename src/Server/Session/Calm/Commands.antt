-- ===== src/Server/Session/Calm/Commands.antt =====
-- src/server/session.rs, AUTH, MAIL and RCPT: their replies.
use smtp_proxy_rs.Prelude.{
  ℕ, ◌≡◌, refl, inl, inr, Bool, true, false, ◌||◌, List, [], Option, none, some, Bytes, codes,
  is_empty, if◌then◌else◌, Bool-cases, Result, ok, err, contains, bytes_eq, from_utf8_lossy,
}
use smtp_proxy_rs.Server.{Handler, Rejection}
use smtp_proxy_rs.Server.Auth.{
  Credentials, username_challenge, password_challenge, decode_plain, decode_login,
}
use smtp_proxy_rs.Server.Session.{
  max_command_buffer, Outcome, State, want_mail, want_rcpt, want_data, Line, got, too_long, Flow,
  continue, Session, M, ◌>>=◌, ◌>>◌, pure, goto, send,
}
use smtp_proxy_rs.Server.Session.Reading.{next_line, refuse_long_line, start_transaction}
use smtp_proxy_rs.Server.Session.Authentication.{
  AuthLine, token, confused, closed, continuation_text, reply_and_continue, on_auth_line,
  auth_continuation, with_token, ask_auth, auth_answer, finish_auth, auth_plain, auth_password,
  auth_login, do_auth,
}
use smtp_proxy_rs.Server.Session.Transaction.{
  bad_sequence, call_mail, answered, do_mail, counted_rcpt, call_rcpt, at_limit, do_rcpt,
  in_want_mail, in_want_rcpt,
}
use smtp_proxy_rs.Server.Session.Calm.{
  Calm, IsCalm, bind-Calm, Replies, new-Calm, next_line-Calm, refuse_long_line-Calm,
}
use smtp_proxy_rs.Server.Session.Calm.Message.{IsSound}
use smtp_proxy_rs.Smtp.Command.{Command, mail, rcpt}
use smtp_proxy_rs.Smtp.Dsn
use smtp_proxy_rs.Smtp.Dsn.{validate_dsn}
use smtp_proxy_rs.Smtp.Params.{Param}
use smtp_proxy_rs.Smtp.Reply

module _ {H : Type 0} where
  pub reply-Calm :
      (code : ℕ) (text : Bytes) → Replies code → Calm {H = H} (reply_and_continue code text)
  reply-Calm code text h =
      bind-Calm (send (Reply.new code text)) (λ _. pure continue) (new-Calm code text h) (λ _ _. tt)

  if-Calm :
      {A : Type 0} (b : Bool) (m k : M H A) → Calm m → Calm k → Calm (λ s. (if b then m else k) s)
  if-Calm true m k h h' = h
  if-Calm false m k h h' = h'

  on_auth_line-Calm : (l : Line) → Calm {H = H} (on_auth_line l)
  on_auth_line-Calm Line.eof s = tt
  on_auth_line-Calm too_long s =
      bind-Calm refuse_long_line (λ _. pure closed) refuse_long_line-Calm (λ _ _. tt) s
  on_auth_line-Calm (got line) s =
      let text = continuation_text (from_utf8_lossy line) in
      let reply = send (Reply.new 500 (codes "confused authentication response")) in
      if-Calm (is_empty text || (contains b'\r' text || contains b'\n' text))
        (reply >> pure confused) (pure (token text))
        (bind-Calm reply (λ _. pure confused)
          (new-Calm 500 (codes "confused authentication response") refl) (λ _ _. tt))
        (λ _. tt) s

  continuation-Calm : Calm {H = H} auth_continuation
  unfolding auth_continuation
  continuation-Calm =
      bind-Calm (next_line max_command_buffer) on_auth_line (next_line-Calm max_command_buffer)
        on_auth_line-Calm

  with_token-Calm :
      (k : Bytes → M H Flow) (l : AuthLine) → ((t : Bytes) → Calm (k t)) → Calm (with_token k l)
  with_token-Calm k (token t) h s = h t s
  with_token-Calm k confused h s = tt
  with_token-Calm k closed h s = tt

  -- a challenge and what its answer comes to
  challenged-Calm :
      (text : Bytes) (k : Bytes → M H Flow)
      → ((t : Bytes) → Calm (k t))
      → Calm (send (Reply.new 334 text) >>= λ _. auth_continuation >>= with_token k)
  challenged-Calm text k h =
      bind-Calm (send (Reply.new 334 text)) (λ _. auth_continuation >>= with_token k)
        (new-Calm 334 text refl)
        (λ _.
          bind-Calm auth_continuation (with_token k) continuation-Calm (λ l. with_token-Calm k l h))

  pub bad_sequence-Calm : Calm {H = H} bad_sequence
  unfolding bad_sequence
  bad_sequence-Calm = reply-Calm 503 (codes "Bad sequence of commands") refl

module _ {H S : Type 0} (handler : Handler H S) (decode : Bytes → Option Bytes) where
  ask-Calm : (c : Option Credentials) → Calm (ask_auth handler decode c)
  ask-Calm none s = tt
  ask-Calm (some c) s = tt

  answer-Calm : (b : Bool) → Calm (auth_answer handler decode b)
  answer-Calm true =
      bind-Calm (send (Reply.new 235 (codes "Authentication successful")))
        (λ _. goto want_mail >> pure continue)
        (new-Calm 235 (codes "Authentication successful") refl) (λ _ _. tt)
  answer-Calm false = reply-Calm 535 (codes "Authentication credentials invalid") refl

  finish_auth-Calm : (c : Option Credentials) → Calm (finish_auth handler decode c)
  unfolding finish_auth
  finish_auth-Calm c =
      bind-Calm (ask_auth handler decode c) (auth_answer handler decode) (ask-Calm c) answer-Calm

  auth_plain-Calm : (initial : Option Bytes) → Calm (auth_plain handler decode initial)
  unfolding auth_plain
  auth_plain-Calm (some t) = finish_auth-Calm (decode_plain decode t)
  auth_plain-Calm none =
      challenged-Calm [] (λ t. finish_auth handler decode (decode_plain decode t))
        (λ t. finish_auth-Calm (decode_plain decode t))

  auth_password-Calm : (user : Bytes) → Calm (auth_password handler decode user)
  unfolding auth_password
  auth_password-Calm user =
      challenged-Calm password_challenge
        (λ pass. finish_auth handler decode (decode_login decode user pass))
        (λ pass. finish_auth-Calm (decode_login decode user pass))

  auth_login-Calm : Calm (auth_login handler decode)
  unfolding auth_login
  auth_login-Calm =
      challenged-Calm username_challenge (auth_password handler decode) auth_password-Calm

  pub do_auth-Calm :
      (mechanism : Bytes) (initial : Option Bytes) → Calm (do_auth handler decode mechanism initial)
  unfolding do_auth
  do_auth-Calm mechanism initial s = elim (Bool-cases (bytes_eq mechanism (codes "PLAIN"))) [
    | inl e ↦ rw e (auth_plain-Calm initial s)
    | inr e ↦ elim (Bool-cases (bytes_eq mechanism (codes "LOGIN"))) [
      | inl e' ↦ rw (e, e') (auth_login-Calm s)
      | inr e' ↦ rw (e, e') (reply-Calm 504 (codes "Authentication mechanism not supported") refl s)
    ]
  ]

module _ {H S : Type 0} (handler : Handler H S) (sound : IsSound handler) where
  answered-Calm :
      (st : State) (o : Option Rejection)
      → ((r : Rejection) → o ≡ some r → Replies r.code)
      → Calm (answered handler st o)
  answered-Calm st none h =
      bind-Calm (send (Reply.new 250 (codes "OK"))) (λ _. goto st >> pure continue)
        (new-Calm 250 (codes "OK") refl) (λ _ _. tt)
  answered-Calm st (some r) h = reply-Calm r.code r.text (h r refl)

  mailed-Calm :
      (from : Bytes) (params : List Param)
      → Calm (
          start_transaction handler
          >> (call_mail handler from params >>= answered handler want_rcpt))
  unfolding start_transaction
  mailed-Calm from params s =
      answered-Calm want_rcpt (handler.mail (handler.reset s.handler) from params).1
        (sound.mail (handler.reset s.handler) from params) _

  do_mail-Calm : (from : Bytes) (params : List Param) → Calm (do_mail handler from params)
  unfolding do_mail
  do_mail-Calm from params = go (validate_dsn params Dsn.DsnCommand.mail)
    where
      go :
          (r : Result Bytes (Unit {0}))
          → Calm (elim r as (λ _. M H Flow) [
            | err text ↦ reply_and_continue 501 text
            | ok _ ↦
                start_transaction handler
                >> (call_mail handler from params >>= answered handler want_rcpt)
          ])
      go (err text) = reply-Calm 501 text refl
      go (ok _) = mailed-Calm from params

  rcpt_answer-Calm :
      (to : Bytes) (r : H × Option Rejection)
      → ((x : Rejection) → r.1 ≡ some x → Replies x.code)
      → Calm (counted_rcpt handler to r >>= answered handler want_data)
  rcpt_answer-Calm to (h, none) k s = answered-Calm want_data none (λ x e. cc) _
  rcpt_answer-Calm to (h, some x) k s = answered-Calm want_data (some x) k _

  do_rcpt-Calm : (to : Bytes) (params : List Param) → Calm (do_rcpt handler to params)
  unfolding do_rcpt
  do_rcpt-Calm to params s = go (validate_dsn params Dsn.DsnCommand.rcpt)
    where
      room :
          (b : Bool)
          → IsCalm
              ((if b
                then reply_and_continue 452 (codes "4.5.3 Too many recipients") s
                else (call_rcpt handler to params >>= answered handler want_data) s)).0
      room true = reply-Calm 452 (codes "4.5.3 Too many recipients") refl s
      room false =
          rcpt_answer-Calm to (handler.rcpt s.handler to params) (sound.rcpt s.handler to params) s

      go :
          (r : Result Bytes (Unit {0}))
          → IsCalm
              (elim r as (λ _. Outcome Flow × Session H) [
                | err text ↦ reply_and_continue 501 text s
                | ok _ ↦
                    if at_limit handler s
                    then reply_and_continue 452 (codes "4.5.3 Too many recipients") s
                    else (call_rcpt handler to params >>= answered handler want_data) s
              ]).0
      go (err text) = reply-Calm 501 text refl s
      go (ok _) = room (at_limit handler s)

  pub in_want_mail-Calm : (c : Command) → Calm (in_want_mail handler c)
  unfolding in_want_mail
  in_want_mail-Calm (mail from params) = do_mail-Calm from params
  in_want_mail-Calm _ = bad_sequence-Calm

  pub in_want_rcpt-Calm : (c : Command) → Calm (in_want_rcpt handler c)
  unfolding in_want_rcpt
  in_want_rcpt-Calm (rcpt to params) = do_rcpt-Calm to params
  in_want_rcpt-Calm _ = bad_sequence-Calm
