-- ===== src/Server/Session/Security/Authentication.antt =====
-- STARTTLS and AUTH of src/server/session.rs keep the invariant.
use smtp_proxy_rs.Prelude.{
  ℕ, ◌≤◌, ◌≡◌, ◌≢◌, inl, inr, refl, ◌∙◌, sym, ap, Bool, true, false, ◌||◌, List, [], ◌∷◌, arith,
  Bytes, Option, none, some, codes, Bool-cases, is_empty, contains, bytes_eq, from_utf8_lossy,
  if◌then◌else◌,
}
use smtp_proxy_rs.Server.{ServerConfig, Handler}
use smtp_proxy_rs.Server.Auth.{
  Credentials, username_challenge, password_challenge, decode_plain, decode_login,
}
use smtp_proxy_rs.Server.Session.{
  max_command_buffer, State, want_start_tls, want_auth, want_mail, want_data, rank, Line, got,
  too_long, Flow, Call, upgraded, asked_auth, authenticated, Session, M, ◌>>=◌, pure, send, Read,
}
use smtp_proxy_rs.Server.Session.Quiet.{
  Quiet-refl, IsQuiet, bind-IsQuiet, send-IsQuiet, next_line-IsQuiet, refuse_long_line-IsQuiet,
}
use smtp_proxy_rs.Server.Session.Reading.{next_line, refuse_long_line, clear_buf}
use smtp_proxy_rs.Server.Session.Security.{InvOf, InvOf-path, Inv}
use smtp_proxy_rs.Smtp.Reply
use smtp_proxy_rs.Smtp.Reply.{Reply}
use smtp_proxy_rs.Server.Session.Authentication.{
  AuthLine, token, confused, closed, continuation_text, on_auth_line, auth_continuation, with_token,
  auth_answer, finish_auth, auth_plain, auth_password, auth_login, do_auth,
}
use smtp_proxy_rs.Server.Session.Dispatch.{shaken, next_handshake, upgrade}
use smtp_proxy_rs.Server.Session.{Handshake}
use smtp_proxy_rs.Server.Session.Security.Safe.{
  Safe, then-Safe, say-Safe, say-IsQuiet, say_goto-Safe, call-InvOf,
}

-- The state behind an AUTH that was accepted.
authenticated-InvOf :
    {config : ServerConfig} {state : State} {tls : Bool} {n : ℕ} {calls : List Call} (next : State)
    → 2 ≤ rank state
    → next ≢ want_data
    → next ≢ want_start_tls
    → InvOf config state tls n calls
    → InvOf config next tls n (authenticated ∷ asked_auth ∷ calls)
authenticated-InvOf next k d t v = record {
  allowed = (tt, (v.encrypted k, v.allowed));
  counted = v.counted;
  tls_known = v.tls_known;
  encrypted = λ _. v.encrypted k;
  authorized = λ _. (v.encrypted k, λ _. refl);
  has_recipient = λ e. absurd (d e);
  early = λ e. absurd (t e);
}

low : ¬ (3 ≤ 2)
low = omega arith

upgraded-InvOf :
    {config : ServerConfig} {tls : Bool} {n : ℕ} {calls : List Call}
    → InvOf config want_start_tls tls n calls
    → InvOf config want_auth true n (upgraded ∷ calls)
upgraded-InvOf v = record {
  allowed = (sym v.tls_known ∙ v.early refl, v.allowed);
  counted = v.counted;
  tls_known = refl;
  encrypted = λ _ _. refl;
  authorized = λ k. absurd (low k);
  has_recipient = λ e. cc;
  early = λ e. cc;
}

abbrev go_ahead : Reply
go_ahead = Reply.new 220 (codes "Go ahead")

module _ {H : Type 0} where
  on_auth_line-IsQuiet : (l : Line) → IsQuiet {H = H} (on_auth_line l)
  on_auth_line-IsQuiet Line.eof s = Quiet-refl s
  on_auth_line-IsQuiet too_long s =
      bind-IsQuiet refuse_long_line (λ _. pure closed) refuse_long_line-IsQuiet
        (λ _ t. Quiet-refl t) s
  on_auth_line-IsQuiet (got line) s =
      let text = continuation_text (from_utf8_lossy line) in
      elim (Bool-cases (is_empty text || (contains b'\r' text || contains b'\n' text))) [
        | inl e ↦
            rw e (say-IsQuiet (Reply.new 500 (codes "confused authentication response")) confused s)
        | inr e ↦ rw e (Quiet-refl s)
      ]

  auth_continuation-IsQuiet : IsQuiet {H = H} auth_continuation
  unfolding auth_continuation
  auth_continuation-IsQuiet =
      bind-IsQuiet (next_line max_command_buffer) on_auth_line
        (next_line-IsQuiet max_command_buffer) on_auth_line-IsQuiet

  shaken-Safe :
      (hs : List Handshake) (outcome : Option (List Read)) (s : Session H)
      → Inv s
      → s.state ≡ want_start_tls
      → Safe (shaken hs outcome) s
  shaken-Safe hs none s v e = (v, refl)
  shaken-Safe hs (some reads) s v e =
      (upgraded-InvOf (InvOf-path refl (sym e) refl refl refl v), refl)

  next_handshake-Safe :
      (hs : List Handshake) (s : Session H)
      → Inv s
      → s.state ≡ want_start_tls
      → Safe (next_handshake hs) s
  next_handshake-Safe [] s v e = (v, refl)
  next_handshake-Safe (accept ∷ hs) s v e = shaken-Safe hs (accept s.reads) s v e

  pub upgrade-Safe : (s : Session H) → Inv s → s.state ≡ want_start_tls → Safe upgrade s
  unfolding upgrade
  upgrade-Safe s v e =
      then-Safe (send go_ahead) (λ _. clear_buf >>= λ _ t. next_handshake t.handshakes t) s
        (send-IsQuiet go_ahead) v
        (λ a t q w. next_handshake-Safe t.handshakes (record t { buf = [] }) w (q.same_state ∙ e))

  -- In the state for AUTH, which reading and replying do not leave.
  abbrev pub AtAuth : Session H → Type 0
  AtAuth s = s.state ≡ want_auth

module _ {H S : Type 0} (handler : Handler H S) (decode : Bytes → Option Bytes) where
  answer-Safe :
      (s : Session H) (h : H) (b : Bool)
      → Inv s
      → AtAuth s
      → Safe (auth_answer handler decode b) (record s {
        handler = h;
        calls = if b then authenticated ∷ asked_auth ∷ s.calls else asked_auth ∷ s.calls;
      })
  answer-Safe s h true v e =
      let k : 2 ≤ rank s.state = omega (arith, ap rank e) in
      say_goto-Safe (Reply.new 235 (codes "Authentication successful")) want_mail _
        (authenticated-InvOf s.state k (λ d. cc) (λ d. cc) v)
        (authenticated-InvOf want_mail k (λ d. cc) (λ d. cc) v)
  answer-Safe s h false v e =
      say-Safe _ _ _
        (call-InvOf asked_auth (v.encrypted (omega (arith, ap rank e))) refl refl refl v)

  finish_auth-Safe :
      (c : Option Credentials) (s : Session H)
      → Inv s
      → AtAuth s
      → Safe (finish_auth handler decode c) s
  unfolding finish_auth
  finish_auth-Safe none s v e = say-Safe _ _ s v
  finish_auth-Safe (some c) s v e =
      let r = handler.auth s.handler c.authzid c.authcid c.password in answer-Safe s r.0 r.1 v e

  with_token-Safe :
      (k : Bytes → M H Flow) (l : AuthLine) (s : Session H)
      → Inv s
      → ((t : Bytes) → Safe (k t) s)
      → Safe (with_token k l) s
  with_token-Safe k (token t) s v h = h t
  with_token-Safe k confused s v h = (v, refl)
  with_token-Safe k closed s v h = (v, refl)

  -- a challenge and the client's answer to it
  asked-Safe :
      (text : Bytes) (k : Bytes → M H Flow) (s : Session H)
      → Inv s
      → AtAuth s
      → ((t : Bytes) (u : Session H) → Inv u → AtAuth u → Safe (k t) u)
      → Safe (send (Reply.new 334 text) >>= λ _. auth_continuation >>= λ l. with_token k l) s
  asked-Safe text k s v e h =
      then-Safe (send (Reply.new 334 text)) (λ _. auth_continuation >>= λ l. with_token k l) s
        (send-IsQuiet (Reply.new 334 text)) v
        (λ a t q w.
          then-Safe auth_continuation (λ l. with_token k l) t auth_continuation-IsQuiet w
            (λ l u p x.
              with_token-Safe k l u x (λ tok. h tok u x (p.same_state ∙ (q.same_state ∙ e)))))

  auth_plain-Safe :
      (initial : Option Bytes) (s : Session H)
      → Inv s
      → AtAuth s
      → Safe (auth_plain handler decode initial) s
  unfolding auth_plain
  auth_plain-Safe (some t) s v e = finish_auth-Safe (decode_plain decode t) s v e
  auth_plain-Safe none s v e =
      asked-Safe [] (λ t. finish_auth handler decode (decode_plain decode t)) s v e
        (λ t. finish_auth-Safe (decode_plain decode t))

  auth_password-Safe :
      (user : Bytes) (s : Session H) → Inv s → AtAuth s → Safe (auth_password handler decode user) s
  unfolding auth_password
  auth_password-Safe user s v e =
      asked-Safe password_challenge
        (λ pass. finish_auth handler decode (decode_login decode user pass)) s v e
        (λ pass. finish_auth-Safe (decode_login decode user pass))

  auth_login-Safe : (s : Session H) → Inv s → AtAuth s → Safe (auth_login handler decode) s
  unfolding auth_login
  auth_login-Safe s v e =
      asked-Safe username_challenge (auth_password handler decode) s v e auth_password-Safe

  pub do_auth-Safe :
      (mechanism : Bytes) (initial : Option Bytes) (s : Session H)
      → Inv s
      → AtAuth s
      → Safe (do_auth handler decode mechanism initial) s
  unfolding do_auth
  do_auth-Safe mechanism initial s v e = elim (Bool-cases (bytes_eq mechanism (codes "PLAIN"))) [
    | inl p ↦ rw p (auth_plain-Safe initial s v e)
    | inr p ↦ elim (Bool-cases (bytes_eq mechanism (codes "LOGIN"))) [
      | inl l ↦ rw (p, l) (auth_login-Safe s v e)
      | inr l ↦ rw (p, l) (say-Safe _ _ s v)
    ]
  ]
