-- ===== src/Server/Session/Calm.antt =====
-- src/server/session.rs: where the session could panic: a reply that has no wire form.
pub mod Message
pub mod Commands
pub mod Serve
use smtp_proxy_rs.Prelude.{
  ℕ, ◌≡◌, ◌≢◌, ◌<◌, ◌⊎◌, refl, inl, inr, Bool, true, false, List, [], ◌∷◌, ◌++◌, Option, none, some,
  arith, Bytes, codes, within, is_empty, if◌then◌else◌, Bool-cases, Option-cases, Result, ok, err,
}
use smtp_proxy_rs.Relay.{UpstreamVerdict, dropped, replied}
use smtp_proxy_rs.Server.{Handler, Rejection}
use smtp_proxy_rs.Server.Session.{
  ErrorKind, Session, Stop, failed, panicked, starved, exhausted, Outcome, done, stopped, M, ◌>>=◌,
  ◌>>◌, pure, stop, modify, goto, attempt, caught, send, bind_outcome, write_outcome, Pulled, Line,
  Flow, is_hangup, pull, want_mail, close,
}
use smtp_proxy_rs.Server.Session.Reading.{
  line_of, command_line_of, next_line, next_command_line, clear_buf, refuse_long_line, forgive,
  refuse_data, conclude, start_transaction, try_reply, deadline,
}
use smtp_proxy_rs.Smtp.Reply
use smtp_proxy_rs.Smtp.Reply.{Reply}
use smtp_proxy_rs.Smtp.Reply.Wire.{wire-none}

abbrev pub IsCalm : {A : Type 0} → Outcome A → Type 0
IsCalm (stopped panicked) = ⊥
IsCalm _ = Unit

has_form :
    (r : Reply)
    → within 200 599 r.code ≡ true
    → r.lines ≢ []
    → ((r.code < 200) ⊎ ((599 < r.code) ⊎ (r.lines ≡ [])))
    → ⊥
has_form r c l (inl h) = ground arith
has_form r c l (inr (inl h)) = ground arith
has_form r c l (inr (inr h)) = l h

abbrev pub Replies : ℕ → Type 0
Replies code = within 200 599 code ≡ true

-- What the upstream said is a code that a reply can have.
abbrev pub CanTell : UpstreamVerdict → Type 0
CanTell dropped = Unit
CanTell (replied code text) = Replies code

abbrev pub CanTellIfErr : {A : Type 0} → Result UpstreamVerdict A → Type 0
CanTellIfErr (ok a) = Unit
CanTellIfErr (err v) = CanTell v

line_of-Calm : (p : Pulled) → IsCalm (line_of p)
line_of-Calm (Pulled.line l) = tt
line_of-Calm (Pulled.failing k) = tt
line_of-Calm Pulled.interrupted = tt
line_of-Calm Pulled.starved = tt

module _ {H : Type 0} where
  -- An action that does not panic, in whatever state.
  abbrev pub Calm : {A : Type 0} → M H A → Type 0
  Calm m = (s : Session H) → IsCalm (m s).0

  outcome-Calm :
      {A B : Type 0} (o : Outcome A) (s : Session H) (f : A → M H B)
      → IsCalm o
      → ((a : A) → Calm (f a))
      → IsCalm (bind_outcome o s f).0
  outcome-Calm (done a) s f h k = k a s
  outcome-Calm (stopped (failed e)) s f h k = tt
  outcome-Calm (stopped panicked) s f h k = h
  outcome-Calm (stopped starved) s f h k = tt
  outcome-Calm (stopped exhausted) s f h k = tt

  pub bind-Calm :
      {A B : Type 0} (m : M H A) (f : A → M H B) → Calm m → ((a : A) → Calm (f a)) → Calm (m >>= f)
  bind-Calm m f h k s = outcome-Calm (m s).0 (m s).1 f (h s) k

  caught-Calm : {A : Type 0} (o : Outcome A) (s : Session H) → IsCalm o → IsCalm (caught (o, s)).0
  caught-Calm (done a) s h = tt
  caught-Calm (stopped (failed e)) s h = tt
  caught-Calm (stopped panicked) s h = h
  caught-Calm (stopped starved) s h = tt
  caught-Calm (stopped exhausted) s h = tt

  pub attempt-Calm : {A : Type 0} (m : M H A) → Calm m → Calm (attempt m)
  attempt-Calm m h s = caught-Calm (m s).0 (m s).1 (h s)

  write_outcome-Calm :
      (ws : List (Option ErrorKind)) (s : Session H) → IsCalm (write_outcome ws s).0
  write_outcome-Calm [] s = tt
  write_outcome-Calm (none ∷ ws) s = tt
  write_outcome-Calm (some k ∷ ws) s = tt

  sent-Calm :
      (o : Option Bytes) (reply : Reply) (s : Session H)
      → o ≢ none
      → IsCalm
          (elim o as (λ _. Outcome (Unit {0}) × Session H) [
            | none ↦ (stopped panicked, s)
            | some _ ↦ write_outcome s.writes (record s { sent = reply ∷ s.sent })
          ]).0
  sent-Calm none reply s ne = ne refl
  sent-Calm (some out) reply s ne = write_outcome-Calm s.writes (record s { sent = reply ∷ s.sent })

  pub send-Calm :
      (reply : Reply) → within 200 599 reply.code ≡ true → reply.lines ≢ [] → Calm (send reply)
  unfolding send
  send-Calm reply c l s =
      sent-Calm (Reply.wire reply) reply s (λ e. has_form reply c l ((wire-none reply).0 e))

  pub new-Calm :
      (code : ℕ) (text : Bytes) → within 200 599 code ≡ true → Calm (send (Reply.new code text))
  unfolding Reply.new
  new-Calm code text h = send-Calm (Reply.new code text) h (λ e. cc)

  pub next_line-Calm : (n : ℕ) → Calm (next_line n)
  unfolding next_line
  next_line-Calm n s = line_of-Calm (pull false (deadline s) n s.draining s.buf s.reads).pulled

  pub refuse_long_line-Calm : Calm refuse_long_line
  unfolding refuse_long_line
  refuse_long_line-Calm =
      let reply = send (Reply.new 500 (codes "Line too long")) in
      bind-Calm (attempt reply) (λ _. pure tt)
        (attempt-Calm reply (new-Calm 500 (codes "Line too long") refl)) (λ _ _. tt)

  pub forgive-Calm : (r : Result ErrorKind (Unit {0})) → Calm (forgive r)
  forgive-Calm (ok _) s = tt
  forgive-Calm (err k) s = elim (Bool-cases (is_hangup k)) [ inl e ↦ rw e tt | inr e ↦ rw e tt ]

  pub refuse_data-Calm : (code : ℕ) (text : Bytes) → Replies code → Calm (refuse_data code text)
  unfolding refuse_data
  refuse_data-Calm code text h =
      bind-Calm (try_reply code text) forgive
        (attempt-Calm (send (Reply.new code text)) (new-Calm code text h)) forgive-Calm

  pub conclude-Calm : (r : Result UpstreamVerdict Bytes) → CanTellIfErr r → Calm (conclude r)
  unfolding conclude
  conclude-Calm (ok message) h =
      bind-Calm (goto want_mail) (λ _. try_reply 250 (codes "OK: " ++ message) >>= forgive)
        (λ _. tt)
        (λ _.
          bind-Calm (try_reply 250 (codes "OK: " ++ message)) forgive
            (attempt-Calm (send (Reply.new 250 (codes "OK: " ++ message)))
              (new-Calm 250 (codes "OK: " ++ message) refl))
            forgive-Calm)
  conclude-Calm (err (replied code text)) h =
      bind-Calm (goto want_mail) (λ _. refuse_data code text) (λ _. tt)
        (λ _. refuse_data-Calm code text h)
  conclude-Calm (err dropped) h = bind-Calm (goto want_mail) (λ _. pure close) (λ _. tt) (λ _ _. tt)
