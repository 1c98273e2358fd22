-- ===== src/Server/Session/Security/Commands.antt =====
-- MAIL, RCPT and the greetings of src/server/session.rs keep the invariant.
use smtp_proxy_rs.Prelude.{
  ℕ, ◌+◌, ◌≤◌, ◌<◌, ◌≡◌, ◌≢◌, inl, inr, refl, ap, Bool, false, List, ◌∷◌, arith, Bytes, Option,
  none, some, codes, Result-cases,
}
use smtp_proxy_rs.Server.{ServerConfig, Handler, Rejection}
use smtp_proxy_rs.Server.Session.{
  State, want_start_tls, want_rcpt, want_data, rank, continue, Call, asked_mail, asked_rcpt,
  recipient, reset, Session, ◌>>=◌,
}
use smtp_proxy_rs.Server.Session.Reading.{start_transaction}
use smtp_proxy_rs.Server.Session.Security.{InvOf, Inv}
use smtp_proxy_rs.Smtp.Reply
use smtp_proxy_rs.Smtp.Reply.{Reply}
use smtp_proxy_rs.Smtp.Params.{Param}
use smtp_proxy_rs.Smtp.Command.{Command, mail, rcpt}
use smtp_proxy_rs.Smtp.Dsn
use smtp_proxy_rs.Smtp.Dsn.{validate_dsn}
use smtp_proxy_rs.Server.Session.Transaction.{
  bad_sequence, answered, do_mail, counted_rcpt, at_limit, do_rcpt, in_want_mail, in_want_rcpt,
}
use smtp_proxy_rs.Server.Session.Security.Data.{Mailing, AtMail}
use smtp_proxy_rs.Server.Session.Security.Safe.{Safe, if-Fine, say-Safe, say_goto-Safe, call-InvOf}

-- A state for MAIL or RCPT, behind what both need.
pub enter-InvOf :
    {config : ServerConfig} {state : State} {tls : Bool} {n : ℕ} {calls : List Call} (next : State)
    → Mailing state
    → next ≢ want_start_tls
    → (next ≡ want_data → 0 < n)
    → InvOf config state tls n calls
    → InvOf config next tls n calls
enter-InvOf next k t d v = record {
  allowed = v.allowed;
  counted = v.counted;
  tls_known = v.tls_known;
  encrypted = λ _. v.encrypted (omega (arith, k));
  authorized = λ _. v.authorized k;
  has_recipient = d;
  early = λ e. absurd (t e);
}

-- The reset that begins a transaction, in a state that is not DATA's.
pub begin-InvOf :
    {config : ServerConfig} {state : State} {tls : Bool} {n : ℕ} {calls : List Call} (next : State)
    → (2 ≤ rank next → 2 ≤ rank state)
    → (3 ≤ rank next → 3 ≤ rank state)
    → next ≢ want_data
    → (next ≡ want_start_tls → tls ≡ false)
    → InvOf config state tls n calls
    → InvOf config next tls 0 (reset ∷ calls)
begin-InvOf next k l d t v = record {
  allowed = (tt, v.allowed);
  counted = refl;
  tls_known = v.tls_known;
  encrypted = λ h. v.encrypted (k h);
  authorized = λ h. v.authorized (l h);
  has_recipient = λ e. absurd (d e);
  early = t;
}

recipient-InvOf :
    {config : ServerConfig} {state : State} {tls : Bool} {n : ℕ} {calls : List Call} (to : Bytes)
    → Mailing state
    → (0 < config.max_recipients → n < config.max_recipients)
    → InvOf config state tls n calls
    → InvOf config state tls (n + 1) (recipient to ∷ asked_rcpt to ∷ calls)
recipient-InvOf to k b v = record {
  allowed = ((v.authorized k, λ h. omega (arith, b h, v.counted)), (v.authorized k, v.allowed));
  counted = omega (arith, v.counted);
  tls_known = v.tls_known;
  encrypted = v.encrypted;
  authorized = v.authorized;
  has_recipient = λ e. omega arith;
  early = v.early;
}

module _ {H : Type 0} where
  pub bad_sequence-Safe : (s : Session H) → Inv s → Safe bad_sequence s
  unfolding bad_sequence
  bad_sequence-Safe s v = say-Safe _ continue s v

module _ {H S : Type 0} (handler : Handler H S) where
  -- The count of recipients below its limit, where there is one.
  below_limit :
      (s : Session H)
      → at_limit handler s ≡ false
      → 0 < s.config.max_recipients
      → s.recipients < s.config.max_recipients
  below_limit s e h = ground (arith, e, h)

  answered-Safe :
      (next : State) (r : Option Rejection) (s : Session H)
      → Inv s
      → InvOf s.config next s.tls_active s.recipients s.calls
      → Safe (answered handler next r) s
  answered-Safe next none s v w = say_goto-Safe (Reply.new 250 (codes "OK")) next s v w
  answered-Safe next (some r) s v w = say-Safe (Reply.new r.code r.text) continue s v

  do_mail-Safe :
      (from : Bytes) (params : List Param) (s : Session H)
      → Inv s
      → AtMail s.state
      → Safe (do_mail handler from params) s
  unfolding do_mail start_transaction
  do_mail-Safe from params s v e =
      let k : Mailing s.state = omega (arith, ap rank e) in
      elim (Result-cases (validate_dsn params Dsn.DsnCommand.mail)) [
        | inl (text, p) ↦ rw (p, do_mail) (say-Safe (Reply.new 501 text) continue s v)
        | inr (u, p) ↦
            rw (p, do_mail)
              (let w =
                  call-InvOf (asked_mail from) (v.authorized k) refl refl refl
                    (begin-InvOf s.state (λ h. h) (λ h. h) (λ d. cc) (λ t. cc) v) in
                answered-Safe want_rcpt _ _ w (enter-InvOf want_rcpt k (λ t. cc) (λ d. cc) w))
      ]

  counted_rcpt-Safe :
      (to : Bytes) (r : H × Option Rejection) (s : Session H)
      → Inv s
      → Mailing s.state
      → (0 < s.config.max_recipients → s.recipients < s.config.max_recipients)
      → Safe (counted_rcpt handler to r >>= answered handler want_data) s
  counted_rcpt-Safe to (h, none) s v k b =
      let w = recipient-InvOf to k b v in
      answered-Safe want_data none _ w (enter-InvOf want_data k (λ e. cc) (λ e. omega arith) w)
  counted_rcpt-Safe to (h, some r) s v k b =
      say-Safe (Reply.new r.code r.text) continue _
        (call-InvOf (asked_rcpt to) (v.authorized k) refl refl refl v)

  pub do_rcpt-Safe :
      (to : Bytes) (params : List Param) (s : Session H)
      → Inv s
      → Mailing s.state
      → Safe (do_rcpt handler to params) s
  unfolding do_rcpt
  do_rcpt-Safe to params s v k = elim (Result-cases (validate_dsn params Dsn.DsnCommand.rcpt)) [
    | inl (text, p) ↦ rw (p, do_rcpt) (say-Safe (Reply.new 501 text) continue s v)
    | inr (u, p) ↦
        rw (p, do_rcpt)
          (if-Fine (at_limit handler s) _ _
            (λ l. say-Safe (Reply.new 452 (codes "4.5.3 Too many recipients")) continue s v)
            (λ l. counted_rcpt-Safe to (handler.rcpt s.handler to params) s v k (below_limit s l)))
  ]

  pub in_want_mail-Safe :
      (command : Command) (s : Session H)
      → Inv s
      → AtMail s.state
      → Safe (in_want_mail handler command) s
  unfolding in_want_mail
  in_want_mail-Safe (mail from params) s v e = do_mail-Safe from params s v e
  in_want_mail-Safe _ s v e = bad_sequence-Safe s v

  pub in_want_rcpt-Safe :
      (command : Command) (s : Session H)
      → Inv s
      → Mailing s.state
      → Safe (in_want_rcpt handler command) s
  unfolding in_want_rcpt
  in_want_rcpt-Safe (rcpt to params) s v k = do_rcpt-Safe to params s v k
  in_want_rcpt-Safe _ s v k = bad_sequence-Safe s v
