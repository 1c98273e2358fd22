-- ===== src/Server/Session/Message.antt =====
-- src/server/session.rs: DATA, from the `354` to the reply that ends it. Each loop takes fuel, and
-- one round of it takes a line off the input or empties the buffer.
use smtp_proxy_rs.Prelude.{
  ℕ, zero, suc, ◌+◌, Bool, true, false, not, ◌&&◌, [], ◌∷◌, ◌++◌, Option, none, some, Bytes, codes,
  if◌then◌else◌, Result, ok, err, is_empty, decimal,
}
use smtp_proxy_rs.Relay.{UpstreamVerdict, dropped, replied}
use smtp_proxy_rs.Server.{Handler, Rejection}
use smtp_proxy_rs.Server.Data.{write_chunk, is_terminator}
use smtp_proxy_rs.Server.Data.BodyFramer
use smtp_proxy_rs.Server.Data.BodyFramer.{BodyFramer, BodyPiece, pending, push, push_partial, flush}
use smtp_proxy_rs.Server.Data.HeaderCollector
use smtp_proxy_rs.Server.Data.HeaderCollector.{
  HeaderCollector, HeaderEvent, complete, push_line, remaining_capacity, take_pending,
}
use smtp_proxy_rs.Server.Session.{
  max_command_buffer, terminator_slack, want_mail, Line, got, too_long, Flow, continue, close,
  Session, exhausted, done, M, ◌>>=◌, ◌>>◌, pure, stop, goto, send, opened,
}
use smtp_proxy_rs.Server.Session.Reading.{
  next_line, clear_buf, refuse_data, conclude, start_transaction,
}
use smtp_proxy_rs.Smtp.Reply

abbrev unwrap_or_default : Option Bytes → Bytes
unwrap_or_default none = []
unwrap_or_default (some b) = b

-- `remaining_capacity().map_or(MAX_COMMAND_BUFFER, |left| left + TERMINATOR_SLACK)`
abbrev pub budget : Option ℕ → ℕ
budget none = max_command_buffer
budget (some left) = left + terminator_slack

module _ {H : Type 0} where
  -- what `discard_to_terminator` does with a line; `again` is its next round
  abbrev pub discarded : (Bool → M H Flow) → Bool → Line → M H Flow
  discarded again at_line_start (got line) = elim (at_line_start && is_terminator line) [
    | true ↦ pure continue
    | false ↦ again true
  ]
  discarded again at_line_start too_long = clear_buf >> again false
  discarded again at_line_start Line.eof = pure close

  unfoldable pub discard_to_terminator : ℕ → Bool → M H Flow
  unfolding next_line
  discard_to_terminator zero at_line_start = stop exhausted
  discard_to_terminator (suc fuel) at_line_start =
      next_line max_command_buffer >>= discarded (discard_to_terminator fuel) at_line_start

  -- what follows a discard, unless the client has gone
  abbrev pub after_discard : M H Flow → Flow → M H Flow
  after_discard k close = pure close
  after_discard k _ = k

  unfoldable pub too_large_text : Session H → Bytes
  too_large_text s =
      codes "Header block exceeds maximum size of "
      ++ (decimal s.config.max_header_size ++ codes " bytes")

module _ {H S : Type 0} (handler : Handler H S) where
  -- the `552`, and the half-read transaction that it clears
  unfoldable pub reply_too_large : M H Flow
  unfolding start_transaction refuse_data too_large_text
  reply_too_large =
      goto want_mail >> (start_transaction handler >> λ s. refuse_data 552 (too_large_text s) s)

  unfoldable pub refuse_large_headers : ℕ → Bool → M H Flow
  unfolding reply_too_large discard_to_terminator
  refuse_large_headers fuel at_line_start =
      discard_to_terminator fuel at_line_start >>= after_discard reply_too_large

  abbrev pub refused_headers : M H Flow → M H (Result Flow (Bytes × Bool))
  refused_headers m = m >>= λ flow. pure (err flow)

  -- what the header loop does with the collector's answer to a line
  abbrev pub on_event :
      ℕ
      → (HeaderCollector → M H (Result Flow (Bytes × Bool)))
      → HeaderCollector × Option HeaderEvent
      → M H (Result Flow (Bytes × Bool))
  on_event fuel again (collector, none) = again collector
  on_event fuel again (collector, some (complete h)) = pure (ok (h, true))
  on_event fuel again (collector, some HeaderEvent.terminator) =
      pure (ok (unwrap_or_default (take_pending collector).1, false))
  on_event fuel again (collector, some HeaderEvent.too_large) =
      refused_headers (refuse_large_headers fuel true)

  abbrev pub on_header_line :
      ℕ
      → (HeaderCollector → M H (Result Flow (Bytes × Bool)))
      → HeaderCollector
      → Line
      → M H (Result Flow (Bytes × Bool))
  on_header_line fuel again collector (got line) = on_event fuel again (push_line collector line)
  on_header_line fuel again collector too_long =
      clear_buf >> refused_headers (refuse_large_headers fuel false)
  on_header_line fuel again collector Line.eof = pure (err close)

  -- The header loop: the block and whether a body follows, or how the command ended.
  unfoldable pub read_headers : ℕ → HeaderCollector → M H (Result Flow (Bytes × Bool))
  unfolding next_line refuse_large_headers
  read_headers zero collector = stop exhausted
  read_headers (suc fuel) collector =
      next_line (budget (remaining_capacity collector))
      >>= on_header_line fuel (read_headers fuel) collector

  -- the drain behind a reply that was mirrored mid-body
  unfoldable pub resync : ℕ → Bool → M H Flow
  unfolding start_transaction discard_to_terminator
  resync fuel at_line_start =
      discard_to_terminator fuel at_line_start >>= λ flow. start_transaction handler >> pure flow

  unfoldable pub mirror : ℕ → UpstreamVerdict → Bool → M H Flow
  unfolding resync refuse_data conclude
  mirror fuel dropped at_line_start = conclude (err dropped)
  mirror fuel (replied code text) at_line_start =
      goto want_mail >> (refuse_data code text >>= after_discard (resync fuel at_line_start))

  abbrev pub finish_written : Result UpstreamVerdict S → M H Flow
  finish_written (err verdict) = conclude (err verdict)
  finish_written (ok sink) = conclude (handler.finish sink)

  -- behind the terminator: the staged rest, and the upstream's last word
  unfoldable pub finish_body : BodyFramer → S → M H Flow
  unfolding conclude
  finish_body framer sink =
      let rest = (flush framer).1 in
      if not (is_empty rest)
      then finish_written (handler.write_final sink rest)
      else conclude (handler.finish sink)

  abbrev pub on_written : ℕ → (S → M H Flow) → Bool → Result UpstreamVerdict S → M H Flow
  on_written fuel again at_line_start (err verdict) = mirror fuel verdict at_line_start
  on_written fuel again at_line_start (ok sink) = again sink

  -- what the loop does with a piece; `again` is its next round
  unfoldable pub on_piece :
      ℕ → (BodyFramer → S → M H Flow) → BodyFramer × BodyPiece → S → Bool → M H Flow
  unfolding mirror finish_body
  on_piece fuel again (framer, pending) sink at_line_start = again framer sink
  on_piece fuel again (framer, BodyPiece.chunk bytes) sink at_line_start =
      on_written fuel (again framer) at_line_start (handler.write sink bytes)
  on_piece fuel again (framer, BodyPiece.terminator) sink at_line_start = finish_body framer sink

  abbrev pub on_body_line : ℕ → (BodyFramer → S → M H Flow) → BodyFramer → S → Line → M H Flow
  on_body_line fuel again framer sink (got line) s =
      on_piece fuel again (push framer line) sink true s
  on_body_line fuel again framer sink too_long s =
      on_piece fuel again (push_partial framer s.buf) sink false (record s { buf = [] })
  on_body_line fuel again framer sink Line.eof s = (done close, s)

  -- The body loop. The count of the body's bytes, which is logged, is left out.
  unfoldable pub read_body : ℕ → BodyFramer → S → M H Flow
  unfolding next_line on_piece
  read_body zero framer sink = stop exhausted
  read_body (suc fuel) framer sink =
      next_line write_chunk >>= on_body_line fuel (read_body fuel) framer sink

  -- the call of `Handler::open_body`
  unfoldable pub open_body : Bytes → M H (Result Rejection S)
  open_body headers s =
      let r = handler.open_body s.handler headers in
      (done r.1, record s { handler = r.0; calls = opened headers ∷ s.calls })

  -- The handler has refused: the rest of the message is read away first, if there is more of it.
  abbrev pub drain_body : ℕ → Bool → M H Flow
  drain_body fuel true = discard_to_terminator fuel true
  drain_body fuel false = pure continue

  abbrev pub reply_rejection : Rejection → M H Flow
  reply_rejection rejection = goto want_mail >> refuse_data rejection.code rejection.text

  unfoldable pub refuse_message : ℕ → Bool → Rejection → M H Flow
  unfolding discard_to_terminator refuse_data
  refuse_message fuel body_follows rejection =
      drain_body fuel body_follows >>= after_discard (reply_rejection rejection)

  unfoldable pub read_opened : ℕ → Bool → Result Rejection S → M H Flow
  unfolding refuse_message read_body conclude
  read_opened fuel body_follows (err rejection) = refuse_message fuel body_follows rejection
  read_opened fuel true (ok sink) = read_body fuel BodyFramer.new sink
  read_opened fuel false (ok sink) = conclude (handler.finish sink)

  unfoldable pub on_headers : ℕ → Result Flow (Bytes × Bool) → M H Flow
  unfolding open_body read_opened
  on_headers fuel (err flow) = pure flow
  on_headers fuel (ok (headers, body_follows)) = open_body headers >>= read_opened fuel body_follows

  abbrev pub start_headers : ℕ → M H (Result Flow (Bytes × Bool))
  start_headers fuel s = read_headers fuel (HeaderCollector.new s.config.max_header_size) s

  unfoldable pub read_message : ℕ → M H Flow
  unfolding send read_headers on_headers
  read_message fuel =
      send (Reply.new 354 (codes "End data with <CR><LF>.<CR><LF>"))
      >> (start_headers fuel >>= on_headers fuel)
