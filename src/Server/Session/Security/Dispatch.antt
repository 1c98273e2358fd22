-- ===== src/Server/Session/Security/Dispatch.antt =====
-- Every command of src/server/session.rs keeps the invariant: the greetings, RSET, and the commands
-- that each state accepts.
use smtp_proxy_rs.Prelude.{
  ℕ, ◌≤◌, ◌<◌, ◌≡◌, ◌≢◌, inl, inr, refl, ◌∙◌, sym, ap, Bool, true, false, List, ◌∷◌, arith, Bytes,
  Option, codes, Bool-cases, ltb, leb, ltb→lt, leb→le, ◌⊎◌, if◌then◌else◌,
}
use smtp_proxy_rs.Server.{ServerConfig, Handler}
use smtp_proxy_rs.Server.Session.{
  State, want_greeting, want_start_tls, want_auth, want_mail, want_rcpt, want_data, rank, continue,
  Call, reset, Session, M, ◌>>◌, pure, goto, send,
}
use smtp_proxy_rs.Server.Session.Quiet.{send-IsQuiet}
use smtp_proxy_rs.Server.Session.Reading.{start_transaction}
use smtp_proxy_rs.Server.Session.Security.{IsEncrypted, IsAuthenticated, InvOf, Inv}
use smtp_proxy_rs.Smtp.Reply
use smtp_proxy_rs.Smtp.Reply.{Reply}
use smtp_proxy_rs.Smtp.Command.{
  Command, ehlo, helo, noop, quit, start_tls, data_cmd, rset, auth, rcpt, vrfy,
}
use smtp_proxy_rs.Server.Session.Dispatch.{
  greeting_lines, greeted, greeting, in_want_data, without_auth, in_want_auth, without_starttls,
  in_want_starttls, in_state, dispatch,
}
use smtp_proxy_rs.Server.Session.Security.Message.{read_message-Keeps}
use smtp_proxy_rs.Server.Session.Security.Authentication.{AtAuth, upgrade-Safe, do_auth-Safe}
use smtp_proxy_rs.Server.Session.Security.Commands.{
  begin-InvOf, bad_sequence-Safe, in_want_mail-Safe, in_want_rcpt-Safe,
}
use smtp_proxy_rs.Server.Session.Security.Safe.{Safe, if-Fine, quiet-Safe, bind-Safe, say-Safe}

low : ¬ (3 ≤ 2)
low = omega arith

lower : ¬ (2 ≤ 1)
lower = omega arith

lowest : ¬ (3 ≤ 1)
lowest = omega arith

two : {st : State} → st ≡ want_auth → 2 ≤ rank st
two e = omega (arith, ap rank e)

-- A state for AUTH or MAIL, where what it needs is not required.
relaxed-InvOf :
    {config : ServerConfig} {state : State} {tls : Bool} {n : ℕ} {calls : List Call} (next : State)
    → (2 ≤ rank next → IsEncrypted config calls)
    → (3 ≤ rank next → IsAuthenticated config calls)
    → next ≢ want_data
    → (next ≡ want_start_tls → tls ≡ false)
    → InvOf config state tls n calls
    → InvOf config next tls n calls
relaxed-InvOf next e a d t v = record {
  allowed = v.allowed;
  counted = v.counted;
  tls_known = v.tls_known;
  encrypted = e;
  authorized = a;
  has_recipient = λ h. absurd (d h);
  early = t;
}

module _ {H S : Type 0} (handler : Handler H S) (decode : Bytes → Option Bytes) where
  without_auth-Safe :
      (command : Command) (s : Session H)
      → Inv s
      → AtAuth s
      → Safe (without_auth handler decode command) s
  without_auth-Safe command s v e =
      if-Fine s.config.require_auth _ _
        (λ r. say-Safe (Reply.new 530 (codes "Authentication required")) continue s v)
        (λ r.
          in_want_mail-Safe handler command (record s { state = want_mail })
            (relaxed-InvOf want_mail (λ _. v.encrypted (two e))
              (λ _. (v.encrypted (two e), λ h. cc)) (λ d. cc) (λ t. cc) v)
            refl)

  in_want_auth-Safe :
      (command : Command) (s : Session H)
      → Inv s
      → AtAuth s
      → Safe (in_want_auth handler decode command) s
  unfolding in_want_auth
  in_want_auth-Safe (auth mechanism initial) s v e =
      do_auth-Safe handler decode mechanism initial s v e
  in_want_auth-Safe command s v e = without_auth-Safe command s v e

  without_starttls-Safe :
      (command : Command) (s : Session H) → Inv s → Safe (without_starttls handler decode command) s
  without_starttls-Safe command s v =
      if-Fine s.config.require_starttls _ _
        (λ r. say-Safe (Reply.new 530 (codes "Must issue a STARTTLS command first")) continue s v)
        (λ r.
          in_want_auth-Safe command (record s { state = want_auth })
            (relaxed-InvOf want_auth (λ _ h. cc) (λ h. absurd (low h)) (λ d. cc) (λ t. cc) v) refl)

  in_want_starttls-Safe :
      (command : Command) (s : Session H)
      → Inv s
      → s.state ≡ want_start_tls
      → Safe (in_want_starttls handler decode command) s
  unfolding in_want_starttls
  in_want_starttls-Safe start_tls s v e =
      if-Fine s.config.tls _ _ (λ r. upgrade-Safe s v e) (λ r. without_starttls-Safe start_tls s v)
  in_want_starttls-Safe command s v e = without_starttls-Safe command s v

  in_want_data-Safe :
      (fuel : ℕ) (command : Command) (s : Session H)
      → Inv s
      → s.state ≡ want_data
      → Safe (in_want_data handler decode fuel command) s
  unfolding in_want_data
  in_want_data-Safe fuel (rcpt to params) s v e =
      in_want_rcpt-Safe handler (rcpt to params) s v (omega (arith, ap rank e))
  in_want_data-Safe fuel data_cmd s v e =
      let r = read_message-Keeps handler fuel s in ((r.0 (v, e)).0, r.1)
  in_want_data-Safe fuel _ s v e = bad_sequence-Safe s v

  in_state-Safe :
      (fuel : ℕ) (st : State) (command : Command) (s : Session H)
      → Inv s
      → s.state ≡ st
      → Safe (in_state handler decode fuel st command) s
  in_state-Safe fuel want_greeting command s v e = bad_sequence-Safe s v
  in_state-Safe fuel want_start_tls command s v e = in_want_starttls-Safe command s v e
  in_state-Safe fuel want_auth command s v e = in_want_auth-Safe command s v e
  in_state-Safe fuel want_mail command s v e = in_want_mail-Safe handler command s v e
  in_state-Safe fuel want_rcpt command s v e =
      in_want_rcpt-Safe handler command s v (omega (arith, ap rank e))
  in_state-Safe fuel want_data command s v e = in_want_data-Safe fuel command s v e

  -- The state that a greeting leads to.
  greet-Safe :
      (st : State) (reply : Reply) (s : Session H)
      → InvOf s.config st s.tls_active s.recipients s.calls
      → Safe (goto st >> send reply) s
  greet-Safe st reply s w = quiet-Safe (send reply) (record s { state = st }) (send-IsQuiet reply) w

  -- Before MAIL, a greeting leads to AUTH behind TLS or an earlier greeting, and else to STARTTLS.
  greeted-cases :
      (s : Session H)
      → leb 3 (rank s.state) ≡ false
      → ((greeted s ≡ want_auth) × ((leb 2 (rank s.state) ≡ true) ⊎ (s.tls_active ≡ true)))
        ⊎ ((greeted s ≡ want_start_tls) × (s.tls_active ≡ false))
  unfolding greeted
  greeted-cases s e = ground (arith, e)

  greeted-InvOf :
      (s : Session H)
      → Inv s
      → leb 3 (rank s.state) ≡ false
      → InvOf s.config (greeted s) s.tls_active s.recipients s.calls
  greeted-InvOf s v e = elim (greeted-cases s e) [
    | inl (p, inl k) ↦ rw p (
        relaxed-InvOf want_auth (λ _. v.encrypted (leb→le 2 (rank s.state) k)) (λ h. absurd (low h))
          (λ d. cc) (λ t. cc) v)
    | inl (p, inr k) ↦ rw p (
        relaxed-InvOf want_auth (λ _ r. sym v.tls_known ∙ k) (λ h. absurd (low h)) (λ d. cc)
          (λ t. cc) v)
    | inr (p, k) ↦ rw p (
        relaxed-InvOf want_start_tls (λ h. absurd (lower h)) (λ h. absurd (lowest h)) (λ d. cc)
          (λ t. k) v)
  ]

  greeted_again : (s : Session H) → leb 3 (rank s.state) ≡ true → greeted s ≡ want_mail
  unfolding greeted
  greeted_again s e = rw e refl

  maybe-Safe :
      {A B : Type 0} (b : Bool) (m : M H A) (a : A) (k : M H B) (s : Session H)
      → (b ≡ true → Safe (m >> k) s)
      → (b ≡ false → Safe k s)
      → Safe ((if b then m else pure a) >> k) s
  maybe-Safe true m a k s h g = h refl
  maybe-Safe false m a k s h g = g refl

  greeting-Safe :
      (is_ehlo : Bool) (s : Session H) → Inv s → Safe (greeting handler decode is_ehlo) s
  unfolding greeting start_transaction
  greeting-Safe is_ehlo s v =
      let reply = Reply.multi 250 (
        greeting_lines s (handler.dsn_available s.handler) (handler.size_limit s.handler)
          is_ehlo) in
      maybe-Safe (leb 3 (rank s.state)) (start_transaction handler) tt
        ((λ t. goto (greeted t) t) >> send reply) s
        (λ e.
          let k : 3 ≤ rank s.state = leb→le 3 (rank s.state) e in
          let t : Session H = record s {
            recipients = 0;
            handler = handler.reset s.handler;
            calls = reset ∷ s.calls;
          } in
          greet-Safe (greeted t) reply t (
            rw (greeted_again t e)
              (begin-InvOf want_mail (λ h. omega (arith, k)) (λ h. k) (λ d. cc) (λ h. cc) v)))
        (λ e. greet-Safe (greeted s) reply s (greeted-InvOf s v e))

  rset-Safe : (s : Session H) → Inv s → Safe (dispatch handler decode 0 rset) s
  unfolding dispatch start_transaction
  rset-Safe s v = elim (Bool-cases (ltb 3 (rank s.state))) [
    | inl e ↦
        let k : 3 < rank s.state = ltb→lt 3 (rank s.state) e in
        rw (e, dispatch)
          (say-Safe _ continue _ (
            begin-InvOf want_mail (λ h. omega (arith, k)) (λ h. omega (arith, k)) (λ d. cc)
              (λ t. cc) v))
    | inr e ↦
        rw (e, dispatch)
          (say-Safe _ continue _ (
            begin-InvOf s.state (λ h. h) (λ h. h) (λ d. absurd (omega (arith, ap rank d, ge e)))
              v.early v))
  ]
    where
      ge : ltb 3 (rank s.state) ≡ false → rank s.state ≤ 3
      ge h = ground (arith, h)

  pub dispatch-Safe :
      (fuel : ℕ) (command : Command) (s : Session H)
      → Inv s
      → Safe (dispatch handler decode fuel command) s
  unfolding dispatch
  dispatch-Safe fuel quit s v = say-Safe _ _ s v
  dispatch-Safe fuel noop s v = say-Safe _ _ s v
  dispatch-Safe fuel (vrfy _) s v = say-Safe _ _ s v
  dispatch-Safe fuel (ehlo _) s v =
      bind-Safe (greeting handler decode true) (λ _. pure continue) s (greeting-Safe true s v)
        (λ _. ((greeting-Safe true s v).0, refl))
  dispatch-Safe fuel (helo _) s v =
      bind-Safe (greeting handler decode false) (λ _. pure continue) s (greeting-Safe false s v)
        (λ _. ((greeting-Safe false s v).0, refl))
  dispatch-Safe fuel rset s v = rset-Safe s v
  dispatch-Safe fuel command s v = in_state-Safe fuel s.state command s v refl
