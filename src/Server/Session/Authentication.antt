-- ===== src/Server/Session/Authentication.antt =====
-- src/server/session.rs: AUTH, from its continuation lines to the handler's answer. The base64
-- decoder is a parameter.
use smtp_proxy_rs.Prelude.{
  ℕ, Bool, true, false, ◌||◌, [], ◌∷◌, Option, none, some, Bytes, codes, if◌then◌else◌, is_empty,
  ◌==◌, contains, bytes_eq, strip_crlf, from_utf8_lossy,
}
use smtp_proxy_rs.Server.{Handler}
use smtp_proxy_rs.Server.Auth.{
  Credentials, username_challenge, password_challenge, decode_plain, decode_login,
}
use smtp_proxy_rs.Server.Session.{
  max_command_buffer, want_mail, Line, got, too_long, Flow, continue, close, done, M, ◌>>=◌, ◌>>◌,
  pure, goto, send, asked_auth, authenticated,
}
use smtp_proxy_rs.Server.Session.Reading.{next_line, refuse_long_line}
use smtp_proxy_rs.Smtp.Reply

pub data AuthLine : Type 0 where
  token : Bytes → AuthLine
  confused closed : AuthLine

-- `strip_suffix('\n')`
unfoldable pub strip_lf : Bytes → Option Bytes
strip_lf [] = none
strip_lf (c ∷ []) = if c == b'\n' then some [] else none
strip_lf (c ∷ d ∷ rest) = elim (strip_lf (d ∷ rest)) [ none ↦ none | some s ↦ some (c ∷ s) ]

-- the text of a continuation line, without its line ending
unfoldable pub continuation_text : Bytes → Bytes
unfolding strip_lf
continuation_text raw = elim (strip_crlf raw) [
  | some s ↦ s
  | none ↦ elim (strip_lf raw) [ some s ↦ s | none ↦ raw ]
]

module _ {H : Type 0} where
  abbrev pub reply_and_continue : ℕ → Bytes → M H Flow
  reply_and_continue code text = send (Reply.new code text) >> pure continue

  abbrev pub on_auth_line : Line → M H AuthLine
  on_auth_line Line.eof = pure closed
  on_auth_line too_long = refuse_long_line >> pure closed
  on_auth_line (got line) =
      let text = continuation_text (from_utf8_lossy line) in
      if is_empty text || (contains b'\r' text || contains b'\n' text)
      then (send (Reply.new 500 (codes "confused authentication response")) >> pure confused)
      else pure (token text)

  unfoldable pub auth_continuation : M H AuthLine
  unfolding next_line refuse_long_line continuation_text send
  auth_continuation = next_line max_command_buffer >>= on_auth_line

  -- what a continuation line that is no token comes to
  abbrev pub with_token : (Bytes → M H Flow) → AuthLine → M H Flow
  with_token k (token t) = k t
  with_token k confused = pure continue
  with_token k closed = pure close

module _ {H S : Type 0} (handler : Handler H S) (decode : Bytes → Option Bytes) where
  abbrev pub call_auth : Credentials → M H Bool
  call_auth c s =
      let r = handler.auth s.handler c.authzid c.authcid c.password in
      let calls = asked_auth ∷ s.calls in
      (done r.1, record s { handler = r.0; calls = if r.1 then authenticated ∷ calls else calls })

  abbrev pub ask_auth : Option Credentials → M H Bool
  ask_auth none = pure false
  ask_auth (some c) = call_auth c

  abbrev pub auth_answer : Bool → M H Flow
  auth_answer true =
      send (Reply.new 235 (codes "Authentication successful")) >> (goto want_mail >> pure continue)
  auth_answer false = reply_and_continue 535 (codes "Authentication credentials invalid")

  unfoldable pub finish_auth : Option Credentials → M H Flow
  unfolding send
  finish_auth creds = ask_auth creds >>= auth_answer

  unfoldable pub auth_plain : Option Bytes → M H Flow
  unfolding send auth_continuation finish_auth
  auth_plain (some t) = finish_auth (decode_plain decode t)
  auth_plain none = do
    send (Reply.new 334 [])
    l ← auth_continuation
    with_token (λ t. finish_auth (decode_plain decode t)) l

  unfoldable pub auth_password : Bytes → M H Flow
  unfolding send auth_continuation finish_auth
  auth_password user = do
    send (Reply.new 334 password_challenge)
    p ← auth_continuation
    with_token (λ pass. finish_auth (decode_login decode user pass)) p

  unfoldable pub auth_login : M H Flow
  unfolding send auth_continuation auth_password
  auth_login = do
    send (Reply.new 334 username_challenge)
    u ← auth_continuation
    with_token auth_password u

  unfoldable pub do_auth : Bytes → Option Bytes → M H Flow
  unfolding auth_plain auth_login send
  do_auth mechanism initial =
      if bytes_eq mechanism (codes "PLAIN")
      then auth_plain initial
      else if bytes_eq mechanism (codes "LOGIN")
      then auth_login
      else reply_and_continue 504 (codes "Authentication mechanism not supported")
