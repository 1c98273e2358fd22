-- ===== src/Server/Session/Security/Message.antt =====
-- The rest of DATA of src/server/session.rs: its headers, its body and its refusal.
use smtp_proxy_rs.Prelude.{
  ℕ, zero, suc, ◌≡◌, inl, inr, refl, ◌∙◌, Bool, true, false, List, [], ◌∷◌, arith, Bytes, Option,
  none, some, Result, ok, err, codes, Bool-cases, is_empty, not,
}
use smtp_proxy_rs.Relay.{UpstreamVerdict}
use smtp_proxy_rs.Server.{ServerConfig, Handler, Rejection}
use smtp_proxy_rs.Server.Data.{write_chunk}
use smtp_proxy_rs.Server.Data.BodyFramer
use smtp_proxy_rs.Server.Data.BodyFramer.{BodyFramer, BodyPiece, pending, push, push_partial, flush}
use smtp_proxy_rs.Server.Data.HeaderCollector
use smtp_proxy_rs.Server.Data.HeaderCollector.{
  HeaderCollector, HeaderEvent, complete, terminator, too_large, push_line, remaining_capacity,
}
use smtp_proxy_rs.Server.Session.{
  State, want_start_tls, want_mail, want_rcpt, want_data, Line, got, Flow, continue, close, Call,
  opened, Session, Outcome, done, Stop, stopped, M, ◌>>=◌, pure, send, bind_outcome,
}
use smtp_proxy_rs.Server.Session.Reading.{next_line, clear_buf, refuse_data, conclude}
use smtp_proxy_rs.Server.Session.Message.{
  budget, refuse_large_headers, read_headers, mirror, finish_body, on_piece, read_body, open_body,
  refuse_message, read_opened, read_message, after_discard, finish_written, on_written,
  on_body_line, drain_body, reply_rejection, refused_headers, on_event, on_header_line,
  start_headers, on_headers,
}
use smtp_proxy_rs.Server.Session.Quiet.{IsQuiet, send-IsQuiet, next_line-IsQuiet, clear_buf-IsQuiet}
use smtp_proxy_rs.Server.Session.Security.{InvOf}
use smtp_proxy_rs.Smtp.Reply
use smtp_proxy_rs.Smtp.Reply.{Reply}
use smtp_proxy_rs.Server.Session.Security.Data.{
  InvAt, Mailing, AtMail, Keeps, quiet-Keeps, pure-Keeps, bind-Keeps, loosen, goto_mail_then,
  after_discard-Keeps, refuse_data-Keeps, conclude-Keeps, discard-Keeps, refuse_large-Keeps,
  mirror-Keeps,
}

-- The invariant, with what is known of the state.

-- The state behind the header loop: still in DATA if it has a block, and back in a session that
-- may go on otherwise.
abbrev pub AtData : State → Type 0
AtData st = st ≡ want_data

abbrev HeadersEnd : Outcome (Result Flow (Bytes × Bool)) → State → Type 0
HeadersEnd (done (ok _)) = AtData
HeadersEnd _ = Mailing

-- `Keeps`, with a last state that depends on the outcome.
abbrev KeepsBy : {H A : Type 0} → (State → Type 0) → (Outcome A → State → Type 0) → M H A → Type 0
KeepsBy {H} K P m =
    (s : Session H) → (InvAt K s → InvAt (P (m s).0) (m s).1) × ((m s).1.config ≡ s.config)

abbrev go_on : Reply
go_on = Reply.new 354 (codes "End data with <CR><LF>.<CR><LF>")

AtData-Mailing : (st : State) → AtData st → Mailing st
AtData-Mailing want_mail h = cc
AtData-Mailing want_start_tls h = cc
AtData-Mailing State.want_greeting h = cc
AtData-Mailing State.want_auth h = cc
AtData-Mailing want_rcpt h = cc
AtData-Mailing want_data h = omega arith

opened-InvOf :
    {config : ServerConfig} {state : State} {tls : Bool} {n : ℕ} {calls : List Call}
    (headers : Bytes)
    → InvOf config state tls n calls
    → AtData state
    → InvOf config state tls n (opened headers ∷ calls)
opened-InvOf {state} headers v h = record {
  allowed = (
    (v.authorized (AtData-Mailing state h), omega (arith, v.counted, v.has_recipient h)),
    v.allowed,
  );
  counted = v.counted;
  tls_known = v.tls_known;
  encrypted = v.encrypted;
  authorized = v.authorized;
  has_recipient = v.has_recipient;
  early = v.early;
}

module _ {H A B : Type 0} (K : State → Type 0) where
  bind-KeepsBy :
      (L : Outcome A → State → Type 0) (Q : Outcome B → State → Type 0) (m : M H A) (f : A → M H B)
      → KeepsBy K L m
      → ((a : A) → KeepsBy (L (done a)) Q (f a))
      → ((w : Stop) (st : State) → L (stopped w) st → Q (stopped w) st)
      → KeepsBy K Q (m >>= f)
  bind-KeepsBy L Q m f h k e s = go (m s).0 (m s).1 (h s)
    where
      go :
          (o : Outcome A) (t : Session H)
          → (InvAt K s → InvAt (L o) t) × (t.config ≡ s.config)
          → (InvAt K s → InvAt (Q (bind_outcome o t f).0) (bind_outcome o t f).1)
            × ((bind_outcome o t f).1.config ≡ s.config)
      go (done a) t p = ((λ v. (k a t).0 (p.0 v)), (k a t).1 ∙ p.1)
      go (stopped w) t p = ((λ v. ((p.0 v).0, e w t.state (p.0 v).1)), p.1)

  -- a quiet action before one that depends on the state it starts in
  after_quiet-KeepsBy :
      (Q : Outcome B → State → Type 0) (m : M H A) (f : A → M H B)
      → IsQuiet m
      → ((a : A) → KeepsBy K Q (f a))
      → ((w : Stop) (st : State) → K st → Q (stopped w) st)
      → KeepsBy K Q (m >>= f)
  after_quiet-KeepsBy Q m f q h e = bind-KeepsBy (λ _. K) Q m f (quiet-Keeps K m q) h e

from_data : {H A : Type 0} (m : M H A) → Keeps Mailing Mailing m → Keeps AtData Mailing m
from_data m h s = ((λ v. (h s).0 (v.0, AtData-Mailing s.state v.1)), (h s).1)

module _ {H S : Type 0} (handler : Handler H S) where
  finish_written-Keeps :
      (r : Result UpstreamVerdict S) → Keeps {H = H} Mailing AtMail (finish_written handler r)
  finish_written-Keeps (err verdict) = conclude-Keeps (err verdict)
  finish_written-Keeps (ok sink) = conclude-Keeps (handler.finish sink)

  finish_body-Keeps :
      (framer : BodyFramer) (sink : S)
      → Keeps {H = H} Mailing AtMail (finish_body handler framer sink)
  unfolding finish_body
  finish_body-Keeps framer sink = elim (Bool-cases (not (is_empty (flush framer).1))) [
    | inl e ↦ rw e (finish_written-Keeps (handler.write_final sink (flush framer).1))
    | inr e ↦ rw e (conclude-Keeps (handler.finish sink))
  ]

  on_written-Keeps :
      (fuel : ℕ) (again : S → M H Flow) (b : Bool) (r : Result UpstreamVerdict S)
      → ((sink : S) → Keeps Mailing Mailing (again sink))
      → Keeps Mailing Mailing (on_written handler fuel again b r)
  on_written-Keeps fuel again b (err v) h =
      loosen Mailing (mirror handler fuel v b) (mirror-Keeps handler fuel v b)
  on_written-Keeps fuel again b (ok sink) h = h sink

  on_piece-Keeps :
      (fuel : ℕ) (again : BodyFramer → S → M H Flow) (p : BodyFramer × BodyPiece) (sink : S)
      (b : Bool)
      → ((framer : BodyFramer) (sink : S) → Keeps Mailing Mailing (again framer sink))
      → Keeps Mailing Mailing (on_piece handler fuel again p sink b)
  unfolding on_piece
  on_piece-Keeps fuel again (framer, pending) sink b h = h framer sink
  on_piece-Keeps fuel again (framer, BodyPiece.chunk bytes) sink b h =
      on_written-Keeps fuel (again framer) b (handler.write sink bytes) (h framer)
  on_piece-Keeps fuel again (framer, BodyPiece.terminator) sink b h =
      loosen Mailing (finish_body handler framer sink) (finish_body-Keeps framer sink)

  on_body_line-Keeps :
      (fuel : ℕ) (again : BodyFramer → S → M H Flow) (framer : BodyFramer) (sink : S) (l : Line)
      → ((framer : BodyFramer) (sink : S) → Keeps Mailing Mailing (again framer sink))
      → Keeps Mailing Mailing (on_body_line handler fuel again framer sink l)
  on_body_line-Keeps fuel again framer sink (got line) h s =
      on_piece-Keeps fuel again (push framer line) sink true h s
  on_body_line-Keeps fuel again framer sink Line.too_long h s =
      on_piece-Keeps fuel again (push_partial framer s.buf) sink false h (record s { buf = [] })
  on_body_line-Keeps fuel again framer sink Line.eof h s = pure-Keeps Mailing close s

  read_body-Keeps :
      (fuel : ℕ) (framer : BodyFramer) (sink : S)
      → Keeps Mailing Mailing (read_body handler fuel framer sink)
  unfolding read_body
  read_body-Keeps zero framer sink s = ((λ v. v), refl)
  read_body-Keeps (suc fuel) framer sink s =
      bind-Keeps Mailing Mailing (next_line write_chunk)
        (on_body_line handler fuel (read_body handler fuel) framer sink)
        (quiet-Keeps Mailing (next_line write_chunk) (next_line-IsQuiet write_chunk))
        (λ l. on_body_line-Keeps fuel (read_body handler fuel) framer sink l (read_body-Keeps fuel))
        s

  drain_body-Keeps : (fuel : ℕ) (b : Bool) → Keeps Mailing Mailing (drain_body handler fuel b)
  drain_body-Keeps fuel true = discard-Keeps handler Mailing fuel true
  drain_body-Keeps fuel false = pure-Keeps Mailing continue

  refuse_message-Keeps :
      (fuel : ℕ) (b : Bool) (r : Rejection)
      → Keeps Mailing Mailing (refuse_message handler fuel b r)
  unfolding refuse_message
  refuse_message-Keeps fuel b r =
      bind-Keeps Mailing Mailing (drain_body handler fuel b)
        (after_discard (reply_rejection handler r)) (drain_body-Keeps fuel b)
        (λ flow. after_discard-Keeps Mailing (reply_rejection handler r) flow (
          loosen Mailing (reply_rejection handler r)
            (goto_mail_then (refuse_data r.code r.text) (refuse_data-Keeps AtMail r.code r.text))))

  read_opened-Keeps :
      (fuel : ℕ) (b : Bool) (r : Result Rejection S)
      → Keeps Mailing Mailing (read_opened handler fuel b r)
  unfolding read_opened
  read_opened-Keeps fuel b (err r) = refuse_message-Keeps fuel b r
  read_opened-Keeps fuel true (ok sink) = read_body-Keeps fuel BodyFramer.new sink
  read_opened-Keeps fuel false (ok sink) =
      loosen Mailing (conclude (handler.finish sink)) (conclude-Keeps (handler.finish sink))

  refused-Keeps :
      (m : M H Flow)
      → Keeps Mailing Mailing m
      → KeepsBy AtData HeadersEnd (refused_headers handler m)
  refused-Keeps m h =
      bind-KeepsBy AtData (λ _. Mailing) HeadersEnd m (λ flow. pure (err flow)) (from_data m h)
        (λ flow s. ((λ v. v), refl)) (λ w st h. h)

  on_event-Keeps :
      (fuel : ℕ) (again : HeaderCollector → M H (Result Flow (Bytes × Bool)))
      (r : HeaderCollector × Option HeaderEvent)
      → ((c : HeaderCollector) → KeepsBy AtData HeadersEnd (again c))
      → KeepsBy AtData HeadersEnd (on_event handler fuel again r)
  on_event-Keeps fuel again (c, none) h s = h c s
  on_event-Keeps fuel again (c, some (complete block)) h s = ((λ v. v), refl)
  on_event-Keeps fuel again (c, some HeaderEvent.terminator) h s = ((λ v. v), refl)
  on_event-Keeps fuel again (c, some HeaderEvent.too_large) h s =
      refused-Keeps (refuse_large_headers handler fuel true) (refuse_large-Keeps handler fuel true)
        s

  on_header_line-Keeps :
      (fuel : ℕ) (again : HeaderCollector → M H (Result Flow (Bytes × Bool))) (c : HeaderCollector)
      (l : Line)
      → ((c : HeaderCollector) → KeepsBy AtData HeadersEnd (again c))
      → KeepsBy AtData HeadersEnd (on_header_line handler fuel again c l)
  on_header_line-Keeps fuel again c (got line) h s =
      on_event-Keeps fuel again (push_line c line) h s
  on_header_line-Keeps fuel again c Line.too_long h s =
      after_quiet-KeepsBy AtData HeadersEnd clear_buf
        (λ _. refused_headers handler (refuse_large_headers handler fuel false)) clear_buf-IsQuiet
        (λ _.
          refused-Keeps (refuse_large_headers handler fuel false)
            (refuse_large-Keeps handler fuel false))
        (λ w. AtData-Mailing) s
  on_header_line-Keeps fuel again c Line.eof h s = ((λ v. (v.0, AtData-Mailing s.state v.1)), refl)

  read_headers-Keeps :
      (fuel : ℕ) (c : HeaderCollector) → KeepsBy AtData HeadersEnd (read_headers handler fuel c)
  unfolding read_headers
  read_headers-Keeps zero c s = ((λ v. (v.0, AtData-Mailing s.state v.1)), refl)
  read_headers-Keeps (suc fuel) c s =
      after_quiet-KeepsBy AtData HeadersEnd (next_line (budget (remaining_capacity c)))
        (on_header_line handler fuel (read_headers handler fuel) c)
        (next_line-IsQuiet (budget (remaining_capacity c)))
        (λ l. on_header_line-Keeps fuel (read_headers handler fuel) c l (read_headers-Keeps fuel))
        (λ w. AtData-Mailing) s

  open_body-Keeps : (headers : Bytes) → Keeps AtData AtData (open_body handler headers)
  unfolding open_body
  open_body-Keeps headers s = ((λ v. (opened-InvOf headers v.0 v.1, v.1)), refl)

  on_headers-Keeps :
      (fuel : ℕ) (r : Result Flow (Bytes × Bool))
      → Keeps (HeadersEnd (done r)) Mailing (on_headers handler fuel r)
  unfolding on_headers
  on_headers-Keeps fuel (err flow) = pure-Keeps Mailing flow
  on_headers-Keeps fuel (ok (headers, body_follows)) =
      bind-KeepsBy AtData (λ _. AtData) (λ _. Mailing) (open_body handler headers)
        (read_opened handler fuel body_follows) (open_body-Keeps headers)
        (λ r.
          from_data (read_opened handler fuel body_follows r)
            (read_opened-Keeps fuel body_follows r))
        (λ w. AtData-Mailing)

  -- DATA ends in a session between or behind transactions, whatever becomes of the message.
  pub read_message-Keeps : (fuel : ℕ) → Keeps AtData Mailing (read_message handler fuel)
  unfolding read_message
  read_message-Keeps fuel =
      after_quiet-KeepsBy AtData (λ _. Mailing) (send go_on)
        (λ _. start_headers handler fuel >>= on_headers handler fuel) (send-IsQuiet go_on)
        (λ _.
          bind-KeepsBy AtData HeadersEnd (λ _. Mailing) (start_headers handler fuel)
            (on_headers handler fuel)
            (λ s. read_headers-Keeps fuel (HeaderCollector.new s.config.max_header_size) s)
            (on_headers-Keeps fuel) (λ w st h. h))
        (λ w. AtData-Mailing)
