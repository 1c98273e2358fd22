-- ===== src/Server/Session/Security/Data.antt =====
-- DATA of src/server/session.rs keeps the invariant.
use smtp_proxy_rs.Prelude.{
  ℕ, zero, suc, ◌≤◌, ◌≡◌, ◌≢◌, inl, inr, refl, ◌∙◌, Bool, true, false, List, ◌∷◌, arith, Bytes,
  Result, ok, err, codes, ◌++◌, Bool-cases, ◌&&◌,
}
use smtp_proxy_rs.Relay.{UpstreamVerdict, dropped, replied}
use smtp_proxy_rs.Server.{ServerConfig, Handler}
use smtp_proxy_rs.Server.Data.{is_terminator}
use smtp_proxy_rs.Server.Session.{
  max_command_buffer, State, want_start_tls, want_mail, want_rcpt, want_data, rank, Line, got, Flow,
  continue, close, Call, reset, Session, Outcome, done, stopped, M, ◌>>=◌, ◌>>◌, pure, goto, send,
  bind_outcome,
}
use smtp_proxy_rs.Server.Session.Reading.{
  next_line, clear_buf, refuse_data, conclude, start_transaction, forgive, try_reply,
}
use smtp_proxy_rs.Server.Session.Message.{
  reply_too_large, resync, discarded, discard_to_terminator, refuse_large_headers, mirror,
  after_discard, too_large_text,
}
use smtp_proxy_rs.Server.Session.Quiet.{
  Quiet-refl, IsQuiet, bind-IsQuiet, attempt-IsQuiet, send-IsQuiet, next_line-IsQuiet,
  clear_buf-IsQuiet, refuse_data-IsQuiet, forgive-IsQuiet,
}
use smtp_proxy_rs.Server.Session.Security.{InvOf, Inv, Quiet-Inv}
use smtp_proxy_rs.Smtp.Reply

-- The invariant, with what is known of the state.
abbrev pub InvAt : {H : Type 0} → (State → Type 0) → Session H → Type 0
InvAt K s = Inv s × K s.state

-- In a transaction or between two of them; and between two of them.
abbrev pub Mailing : State → Type 0
Mailing st = 3 ≤ rank st

abbrev pub AtMail : State → Type 0
AtMail st = st ≡ want_mail

goto_mail-InvOf :
    {config : ServerConfig} {state : State} {tls : Bool} {n : ℕ} {calls : List Call}
    → InvOf config state tls n calls
    → Mailing state
    → InvOf config want_mail tls n calls
goto_mail-InvOf v h = record {
  allowed = v.allowed;
  counted = v.counted;
  tls_known = v.tls_known;
  encrypted = λ _. v.encrypted (omega arith);
  authorized = λ _. v.authorized h;
  has_recipient = λ e. cc;
  early = λ e. cc;
}

pub reset-InvOf :
    {config : ServerConfig} {state : State} {tls : Bool} {n : ℕ} {calls : List Call}
    → InvOf config state tls n calls
    → state ≢ want_data
    → InvOf config state tls 0 (reset ∷ calls)
reset-InvOf v h = record {
  allowed = (tt, v.allowed);
  counted = refl;
  tls_known = v.tls_known;
  encrypted = v.encrypted;
  authorized = v.authorized;
  has_recipient = λ e. absurd (h e);
  early = v.early;
}

-- An action that keeps the invariant and the configuration, whatever comes of it.
abbrev pub Keeps : {H A : Type 0} → (State → Type 0) → (State → Type 0) → M H A → Type 0
Keeps {H} K L m = (s : Session H) → (InvAt K s → InvAt L (m s).1) × ((m s).1.config ≡ s.config)

module _ {H : Type 0} (K : State → Type 0) where
  pub quiet-Keeps : {A : Type 0} (m : M H A) → IsQuiet m → Keeps K K m
  quiet-Keeps m q s = ((λ v. (Quiet-Inv (q s) v.0, rw (q s).same_state v.1)), (q s).same_config)

  pub pure-Keeps : {A : Type 0} (a : A) → Keeps {H = H} K K (pure a)
  pure-Keeps a s = ((λ v. v), refl)

  -- One action behind another that always ends in `L`.
  pub bind-Keeps :
      {A B : Type 0} (L : State → Type 0) (m : M H A) (f : A → M H B)
      → Keeps K L m
      → ((a : A) → Keeps L L (f a))
      → Keeps K L (m >>= f)
  bind-Keeps {A} L m f h k s = go (m s).0 (m s).1 (h s)
    where
      go :
          (o : Outcome A) (t : Session H)
          → (InvAt K s → InvAt L t) × (t.config ≡ s.config)
          → (InvAt K s → InvAt L (bind_outcome o t f).1)
            × ((bind_outcome o t f).1.config ≡ s.config)
      go (done a) t p = ((λ v. (k a t).0 (p.0 v)), (k a t).1 ∙ p.1)
      go (stopped w) t p = p

AtMail-Mailing : (st : State) → AtMail st → Mailing st
AtMail-Mailing want_mail h = omega arith
AtMail-Mailing want_start_tls h = cc
AtMail-Mailing State.want_greeting h = cc
AtMail-Mailing State.want_auth h = cc
AtMail-Mailing want_rcpt h = cc
AtMail-Mailing want_data h = cc

-- What ends between two transactions ends in or between them.
pub loosen : {H A : Type 0} (K : State → Type 0) (m : M H A) → Keeps K AtMail m → Keeps K Mailing m
loosen K m h s = ((λ v. let w = (h s).0 v in (w.0, AtMail-Mailing (m s).1.state w.1)), (h s).1)

module _ {H : Type 0} where
  pub goto_mail_then :
      (m : M H Flow) → Keeps AtMail AtMail m → Keeps Mailing AtMail (goto want_mail >> m)
  goto_mail_then m h =
      bind-Keeps Mailing AtMail (goto want_mail) (λ _. m)
        (λ s. ((λ v. (goto_mail-InvOf v.0 v.1, refl)), refl)) (λ _. h)

  discarded-IsQuiet :
      (again : Bool → M H Flow) (at_line_start : Bool) (l : Line)
      → ((b : Bool) → IsQuiet (again b))
      → IsQuiet (discarded again at_line_start l)
  discarded-IsQuiet again at_line_start (got line) h s =
      elim (Bool-cases (at_line_start && is_terminator line)) [
        | inl e ↦ rw (e, discarded) (Quiet-refl s)
        | inr e ↦ rw (e, discarded) (h true s)
      ]
  discarded-IsQuiet again at_line_start Line.too_long h s =
      bind-IsQuiet clear_buf (λ _. again false) clear_buf-IsQuiet (λ _. h false) s
  discarded-IsQuiet again at_line_start Line.eof h s = Quiet-refl s

  pub discard-IsQuiet :
      (fuel : ℕ) (at_line_start : Bool) → IsQuiet {H = H} (discard_to_terminator fuel at_line_start)
  unfolding discard_to_terminator
  discard-IsQuiet zero at_line_start s = Quiet-refl s
  discard-IsQuiet (suc fuel) at_line_start s =
      bind-IsQuiet (next_line max_command_buffer)
        (discarded (discard_to_terminator fuel) at_line_start)
        (next_line-IsQuiet max_command_buffer)
        (λ l. discarded-IsQuiet (discard_to_terminator fuel) at_line_start l (discard-IsQuiet fuel))
        s

  pub after_discard-Keeps :
      (K : State → Type 0) (k : M H Flow) (flow : Flow)
      → Keeps K K k
      → Keeps K K (after_discard k flow)
  after_discard-Keeps K k close h = pure-Keeps K close
  after_discard-Keeps K k continue h = h
  after_discard-Keeps K k _ h = h

  pub refuse_data-Keeps :
      (K : State → Type 0) (code : ℕ) (text : Bytes) → Keeps K K (refuse_data {H = H} code text)
  refuse_data-Keeps K code text =
      quiet-Keeps K (refuse_data code text) (refuse_data-IsQuiet code text)

  accept-IsQuiet : (code : ℕ) (text : Bytes) → IsQuiet {H = H} (try_reply code text >>= forgive)
  accept-IsQuiet code text =
      bind-IsQuiet (try_reply code text) forgive
        (attempt-IsQuiet (send (Reply.new code text)) (send-IsQuiet (Reply.new code text)))
        forgive-IsQuiet

  pub conclude-Keeps :
      (r : Result UpstreamVerdict Bytes) → Keeps Mailing AtMail (conclude {H = H} r)
  unfolding conclude
  conclude-Keeps (ok message) =
      let reply = try_reply 250 (codes "OK: " ++ message) >>= forgive in
      goto_mail_then reply (quiet-Keeps AtMail reply (accept-IsQuiet 250 (codes "OK: " ++ message)))
  conclude-Keeps (err (replied code text)) =
      goto_mail_then (refuse_data code text) (refuse_data-Keeps AtMail code text)
  conclude-Keeps (err dropped) = goto_mail_then (pure close) (pure-Keeps AtMail close)

-- With a handler.
module _ {H S : Type 0} (handler : Handler H S) where
  not_data : (st : State) → AtMail st → st ≢ want_data
  not_data st h e = cc

  reset-Keeps : Keeps AtMail AtMail (start_transaction handler)
  unfolding start_transaction
  reset-Keeps s = ((λ v. (reset-InvOf v.0 (not_data s.state v.1), v.1)), refl)

  pub discard-Keeps :
      (K : State → Type 0) (fuel : ℕ) (b : Bool) → Keeps K K (discard_to_terminator {H = H} fuel b)
  discard-Keeps K fuel b = quiet-Keeps K (discard_to_terminator fuel b) (discard-IsQuiet fuel b)

  too_large-Keeps : Keeps Mailing AtMail (reply_too_large handler)
  unfolding reply_too_large
  too_large-Keeps =
      let refusal : M H Flow = λ s. refuse_data 552 (too_large_text s) s in
      goto_mail_then (start_transaction handler >> refusal) (
        bind-Keeps AtMail AtMail (start_transaction handler) (λ _. refusal) reset-Keeps
          (λ _ s. refuse_data-Keeps AtMail 552 (too_large_text s) s))

  pub refuse_large-Keeps :
      (fuel : ℕ) (b : Bool) → Keeps Mailing Mailing (refuse_large_headers handler fuel b)
  unfolding refuse_large_headers
  refuse_large-Keeps fuel b =
      bind-Keeps Mailing Mailing (discard_to_terminator fuel b)
        (after_discard (reply_too_large handler)) (discard-Keeps Mailing fuel b)
        (λ flow.
          after_discard-Keeps Mailing (reply_too_large handler) flow
            (loosen Mailing (reply_too_large handler) too_large-Keeps))

  resync-Keeps : (fuel : ℕ) (b : Bool) → Keeps AtMail AtMail (resync handler fuel b)
  unfolding resync
  resync-Keeps fuel b =
      bind-Keeps AtMail AtMail (discard_to_terminator fuel b)
        (λ flow. start_transaction handler >> pure flow) (discard-Keeps AtMail fuel b)
        (λ flow.
          bind-Keeps AtMail AtMail (start_transaction handler) (λ _. pure flow) reset-Keeps
            (λ _. pure-Keeps AtMail flow))

  pub mirror-Keeps :
      (fuel : ℕ) (v : UpstreamVerdict) (b : Bool) → Keeps Mailing AtMail (mirror handler fuel v b)
  unfolding mirror
  mirror-Keeps fuel dropped b = conclude-Keeps (err dropped)
  mirror-Keeps fuel (replied code text) b =
      goto_mail_then (refuse_data code text >>= after_discard (resync handler fuel b)) (
        bind-Keeps AtMail AtMail (refuse_data code text) (after_discard (resync handler fuel b))
          (refuse_data-Keeps AtMail code text)
          (λ flow. after_discard-Keeps AtMail (resync handler fuel b) flow (resync-Keeps fuel b)))
