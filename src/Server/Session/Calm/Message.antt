-- ===== src/Server/Session/Calm/Message.antt =====
-- src/server/session.rs, DATA: its replies.
use smtp_proxy_rs.Prelude.{
  ℕ, zero, suc, ◌≡◌, refl, inl, inr, Bool, true, false, List, [], Option, none, some, Bytes, codes,
  is_empty, Bool-cases, Result, ok, err, ◌&&◌,
}
use smtp_proxy_rs.Relay.{UpstreamVerdict, dropped, replied}
use smtp_proxy_rs.Server.{Handler, Rejection}
use smtp_proxy_rs.Server.Data.{write_chunk, is_terminator}
use smtp_proxy_rs.Server.Data.BodyFramer
use smtp_proxy_rs.Server.Data.BodyFramer.{BodyFramer, BodyPiece, pending, push, push_partial, flush}
use smtp_proxy_rs.Server.Data.HeaderCollector
use smtp_proxy_rs.Server.Data.HeaderCollector.{
  HeaderCollector, HeaderEvent, complete, push_line, remaining_capacity,
}
use smtp_proxy_rs.Server.Session.{
  max_command_buffer, want_mail, Line, got, too_long, Flow, continue, close, quit, tls_failed,
  Session, M, ◌>>=◌, ◌>>◌, pure, goto, send,
}
use smtp_proxy_rs.Server.Session.Reading.{next_line, refuse_data, start_transaction}
use smtp_proxy_rs.Server.Session.Message.{
  budget, discarded, discard_to_terminator, after_discard, reply_too_large, refuse_large_headers,
  refused_headers, on_event, on_header_line, read_headers, resync, mirror, finish_written,
  finish_body, on_written, on_piece, on_body_line, read_body, open_body, drain_body,
  reply_rejection, refuse_message, read_opened, on_headers, start_headers, read_message,
}
use smtp_proxy_rs.Server.Session.Calm.{
  Calm, IsCalm, bind-Calm, Replies, CanTell, CanTellIfErr, new-Calm, next_line-Calm,
  refuse_data-Calm, conclude-Calm,
}
use smtp_proxy_rs.Smtp.Params.{Param}
use smtp_proxy_rs.Smtp.Reply

-- A handler of which every refusal is a code that a reply can have.
pub record IsSound {H S : Type 0} (handler : Handler H S) : Type 0 where
  pub mail :
      (h : H) (from : Bytes) (params : List Param) (r : Rejection)
      → (handler.mail h from params).1 ≡ some r
      → Replies r.code
  pub rcpt :
      (h : H) (to : Bytes) (params : List Param) (r : Rejection)
      → (handler.rcpt h to params).1 ≡ some r
      → Replies r.code
  pub open_body :
      (h : H) (headers : Bytes) (r : Rejection)
      → (handler.open_body h headers).1 ≡ err r
      → Replies r.code
  pub write : (s : S) (chunk : Bytes) → CanTellIfErr (handler.write s chunk)
  pub write_final : (s : S) (chunk : Bytes) → CanTellIfErr (handler.write_final s chunk)
  pub finish : (s : S) → CanTellIfErr (handler.finish s)

module _ {H : Type 0} where
  stopped_or :
      (b : Bool) (again : M H Flow)
      → Calm again
      → (s : Session H)
      → IsCalm ((elim b as (λ _. M H Flow) [ true ↦ pure continue | false ↦ again ]) s).0
  stopped_or true again h s = tt
  stopped_or false again h s = h s

  discarded-Calm :
      (again : Bool → M H Flow) (at_line_start : Bool) (l : Line)
      → ((b : Bool) → Calm (again b))
      → Calm (discarded again at_line_start l)
  discarded-Calm again at_line_start (got line) h s =
      stopped_or (at_line_start && is_terminator line) (again true) (h true) s
  discarded-Calm again at_line_start too_long h s = h false (record s { buf = [] })
  discarded-Calm again at_line_start Line.eof h s = tt

  pub discard-Calm :
      (fuel : ℕ) (at_line_start : Bool) → Calm {H = H} (discard_to_terminator fuel at_line_start)
  unfolding discard_to_terminator
  discard-Calm zero at_line_start s = tt
  discard-Calm (suc fuel) at_line_start s =
      bind-Calm (next_line max_command_buffer)
        (discarded (discard_to_terminator fuel) at_line_start) (next_line-Calm max_command_buffer)
        (λ l. discarded-Calm (discard_to_terminator fuel) at_line_start l (discard-Calm fuel)) s

  after_discard-Calm : (k : M H Flow) → Calm k → (f : Flow) → Calm (after_discard k f)
  after_discard-Calm k h continue s = h s
  after_discard-Calm k h quit s = h s
  after_discard-Calm k h tls_failed s = h s
  after_discard-Calm k h close s = tt

module _ {H S : Type 0} (handler : Handler H S) (sound : IsSound handler) where
  too_large-Calm : Calm (reply_too_large handler)
  unfolding reply_too_large start_transaction
  too_large-Calm s = refuse_data-Calm 552 _ refl _

  refuse_large_headers-Calm : (fuel : ℕ) (b : Bool) → Calm (refuse_large_headers handler fuel b)
  unfolding refuse_large_headers
  refuse_large_headers-Calm fuel b =
      bind-Calm (discard_to_terminator fuel b) (after_discard (reply_too_large handler))
        (discard-Calm fuel b) (after_discard-Calm (reply_too_large handler) too_large-Calm)

  refused-Calm : (m : M H Flow) → Calm m → Calm (refused_headers handler m)
  refused-Calm m h = bind-Calm m (λ flow. pure (err flow)) h (λ _ _. tt)

  on_event-Calm :
      (fuel : ℕ) (again : HeaderCollector → M H (Result Flow (Bytes × Bool)))
      (e : HeaderCollector × Option HeaderEvent)
      → ((c : HeaderCollector) → Calm (again c))
      → Calm (on_event handler fuel again e)
  on_event-Calm fuel again (collector, none) h s = h collector s
  on_event-Calm fuel again (collector, some (complete block)) h s = tt
  on_event-Calm fuel again (collector, some HeaderEvent.terminator) h s = tt
  on_event-Calm fuel again (collector, some HeaderEvent.too_large) h s =
      refused-Calm (refuse_large_headers handler fuel true) (refuse_large_headers-Calm fuel true) s

  on_header_line-Calm :
      (fuel : ℕ) (again : HeaderCollector → M H (Result Flow (Bytes × Bool))) (c : HeaderCollector)
      (l : Line)
      → ((c' : HeaderCollector) → Calm (again c'))
      → Calm (on_header_line handler fuel again c l)
  on_header_line-Calm fuel again c (got line) h s = on_event-Calm fuel again (push_line c line) h s
  on_header_line-Calm fuel again c too_long h s =
      refused-Calm (refuse_large_headers handler fuel false) (refuse_large_headers-Calm fuel false)
        (record s { buf = [] })
  on_header_line-Calm fuel again c Line.eof h s = tt

  read_headers-Calm : (fuel : ℕ) (c : HeaderCollector) → Calm (read_headers handler fuel c)
  unfolding read_headers
  read_headers-Calm zero c s = tt
  read_headers-Calm (suc fuel) c s =
      bind-Calm (next_line (budget (remaining_capacity c)))
        (on_header_line handler fuel (read_headers handler fuel) c)
        (next_line-Calm (budget (remaining_capacity c)))
        (λ l. on_header_line-Calm fuel (read_headers handler fuel) c l (read_headers-Calm fuel)) s

  resync-Calm : (fuel : ℕ) (b : Bool) → Calm (resync handler fuel b)
  unfolding resync start_transaction
  resync-Calm fuel b =
      bind-Calm (discard_to_terminator fuel b) (λ flow. start_transaction handler >> pure flow)
        (discard-Calm fuel b) (λ _ _. tt)

  mirror-Calm :
      (fuel : ℕ) (v : UpstreamVerdict) (b : Bool) → CanTell v → Calm (mirror handler fuel v b)
  unfolding mirror
  mirror-Calm fuel dropped b h = conclude-Calm (err dropped) h
  mirror-Calm fuel (replied code text) b h =
      bind-Calm (goto want_mail)
        (λ _. refuse_data code text >>= after_discard (resync handler fuel b)) (λ _. tt)
        (λ _.
          bind-Calm (refuse_data code text) (after_discard (resync handler fuel b))
            (refuse_data-Calm code text h)
            (after_discard-Calm (resync handler fuel b) (resync-Calm fuel b)))

  finish_written-Calm :
      (r : Result UpstreamVerdict S) → CanTellIfErr r → Calm (finish_written handler r)
  finish_written-Calm (err v) h = conclude-Calm (err v) h
  finish_written-Calm (ok sink) h = conclude-Calm (handler.finish sink) (sound.finish sink)

  finish_body-Calm : (f : BodyFramer) (sink : S) → Calm (finish_body handler f sink)
  unfolding finish_body
  finish_body-Calm f sink s = elim (Bool-cases (is_empty (flush f).1)) [
    | inl e ↦ rw e (conclude-Calm (handler.finish sink) (sound.finish sink) s)
    | inr e ↦ rw e (
        finish_written-Calm (handler.write_final sink (flush f).1)
          (sound.write_final sink (flush f).1) s)
  ]

  on_written-Calm :
      (fuel : ℕ) (again : S → M H Flow) (b : Bool) (r : Result UpstreamVerdict S)
      → ((sink : S) → Calm (again sink))
      → CanTellIfErr r
      → Calm (on_written handler fuel again b r)
  on_written-Calm fuel again b (err v) h k = mirror-Calm fuel v b k
  on_written-Calm fuel again b (ok sink) h k = h sink

  on_piece-Calm :
      (fuel : ℕ) (again : BodyFramer → S → M H Flow) (p : BodyFramer × BodyPiece) (sink : S)
      (b : Bool)
      → ((f : BodyFramer) (t : S) → Calm (again f t))
      → Calm (on_piece handler fuel again p sink b)
  unfolding on_piece
  on_piece-Calm fuel again (f, pending) sink b h = h f sink
  on_piece-Calm fuel again (f, BodyPiece.chunk bytes) sink b h =
      on_written-Calm fuel (again f) b (handler.write sink bytes) (h f) (sound.write sink bytes)
  on_piece-Calm fuel again (f, BodyPiece.terminator) sink b h = finish_body-Calm f sink

  on_body_line-Calm :
      (fuel : ℕ) (again : BodyFramer → S → M H Flow) (f : BodyFramer) (sink : S) (l : Line)
      → ((f' : BodyFramer) (t : S) → Calm (again f' t))
      → Calm (on_body_line handler fuel again f sink l)
  on_body_line-Calm fuel again f sink (got line) h s =
      on_piece-Calm fuel again (push f line) sink true h s
  on_body_line-Calm fuel again f sink too_long h s =
      on_piece-Calm fuel again (push_partial f s.buf) sink false h (record s { buf = [] })
  on_body_line-Calm fuel again f sink Line.eof h s = tt

  read_body-Calm : (fuel : ℕ) (f : BodyFramer) (sink : S) → Calm (read_body handler fuel f sink)
  unfolding read_body
  read_body-Calm zero f sink s = tt
  read_body-Calm (suc fuel) f sink s =
      bind-Calm (next_line write_chunk) (on_body_line handler fuel (read_body handler fuel) f sink)
        (next_line-Calm write_chunk)
        (λ l. on_body_line-Calm fuel (read_body handler fuel) f sink l (read_body-Calm fuel)) s

  drain_body-Calm : (fuel : ℕ) (b : Bool) → Calm (drain_body handler fuel b)
  drain_body-Calm fuel true s = discard-Calm fuel true s
  drain_body-Calm fuel false s = tt

  refuse_message-Calm :
      (fuel : ℕ) (b : Bool) (r : Rejection)
      → Replies r.code
      → Calm (refuse_message handler fuel b r)
  unfolding refuse_message
  refuse_message-Calm fuel b r h =
      bind-Calm (drain_body handler fuel b) (after_discard (reply_rejection handler r))
        (drain_body-Calm fuel b)
        (after_discard-Calm (reply_rejection handler r) (
          bind-Calm (goto want_mail) (λ _. refuse_data r.code r.text) (λ _. tt)
            (λ _. refuse_data-Calm r.code r.text h)))

  read_opened-Calm :
      (fuel : ℕ) (b : Bool) (o : Result Rejection S)
      → ((r : Rejection) → o ≡ err r → Replies r.code)
      → Calm (read_opened handler fuel b o)
  unfolding read_opened
  read_opened-Calm fuel b (err r) h = refuse_message-Calm fuel b r (h r refl)
  read_opened-Calm fuel true (ok sink) h = read_body-Calm fuel BodyFramer.new sink
  read_opened-Calm fuel false (ok sink) h = conclude-Calm (handler.finish sink) (sound.finish sink)

  on_headers-Calm : (fuel : ℕ) (r : Result Flow (Bytes × Bool)) → Calm (on_headers handler fuel r)
  unfolding on_headers open_body
  on_headers-Calm fuel (err flow) s = tt
  on_headers-Calm fuel (ok (headers, b)) s =
      read_opened-Calm fuel b (handler.open_body s.handler headers).1
        (sound.open_body s.handler headers) _

  pub read_message-Calm : (fuel : ℕ) → Calm (read_message handler fuel)
  unfolding read_message
  read_message-Calm fuel =
      let go_ahead = send (Reply.new 354 (codes "End data with <CR><LF>.<CR><LF>")) in
      bind-Calm go_ahead (λ _. start_headers handler fuel >>= on_headers handler fuel)
        (new-Calm 354 (codes "End data with <CR><LF>.<CR><LF>") refl)
        (λ _.
          bind-Calm (start_headers handler fuel) (on_headers handler fuel)
            (λ s. read_headers-Calm fuel (HeaderCollector.new s.config.max_header_size) s)
            (on_headers-Calm fuel))
