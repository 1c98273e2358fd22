-- ===== src/Server/Session/Termination/Message.antt =====
-- The fuel of the header loop and of the body loop of src/server/session.rs.
use smtp_proxy_rs.Prelude.{
  ℕ, zero, suc, ◌<◌, inl, inr, Bool, true, false, [], arith, Bytes, Option, none, some, Result, ok,
  err, Bool-cases, is_empty, not,
}
use smtp_proxy_rs.Server.{Handler}
use smtp_proxy_rs.Server.Session.{want_mail, Flow, Session, M, ◌>>◌, pure}
use smtp_proxy_rs.Server.Session.Reading.{start_transaction}
use smtp_proxy_rs.Relay.{UpstreamVerdict, dropped, replied}
use smtp_proxy_rs.Server.Data.{write_chunk}
use smtp_proxy_rs.Server.Data.BodyFramer.{BodyFramer, BodyPiece, pending, push, push_partial, flush}
use smtp_proxy_rs.Server.Session.Message.{
  discard_to_terminator, after_discard, resync, mirror, finish_written, finish_body, on_written,
  on_piece, on_body_line, read_body, reply_too_large, refuse_large_headers, refused_headers,
  on_event, on_header_line, read_headers, budget,
}
use smtp_proxy_rs.Server.Session.Quiet.{weight, refuse_data-IsQuiet}
use smtp_proxy_rs.Server.Session.Reading.{refuse_data}
use smtp_proxy_rs.Server.Data.HeaderCollector.{
  HeaderCollector, HeaderEvent, complete, push_line, remaining_capacity,
}
use smtp_proxy_rs.Server.Session.Termination.{
  IsEnd, IsPlain, bind-Ends, refuse_data-IsPlain, conclude-IsPlain, round-Ends, after_discard-Ends,
  discard_to_terminator-IsEnd,
}

module _ {H S : Type 0} (handler : Handler H S) where
  resync-Ends :
      (fuel : ℕ) (b : Bool) (s : Session H) → weight s < fuel → IsEnd (resync handler fuel b s).0
  unfolding resync start_transaction
  resync-Ends fuel b s w =
      bind-Ends (discard_to_terminator fuel b) (λ flow. start_transaction handler >> pure flow) s
        (discard_to_terminator-IsEnd fuel b s w) (λ flow e. tt)

  mirror-Ends :
      (fuel : ℕ) (v : UpstreamVerdict) (b : Bool) (s : Session H)
      → weight s < fuel
      → IsEnd (mirror handler fuel v b s).0
  unfolding mirror
  mirror-Ends fuel dropped b s w = conclude-IsPlain (err dropped) s
  mirror-Ends fuel (replied code text) b s w =
      let t : Session H = record s { state = want_mail } in
      bind-Ends (refuse_data code text) (after_discard (resync handler fuel b)) t
        (refuse_data-IsPlain code text t)
        (λ flow e.
          after_discard-Ends (resync handler fuel b) flow _
            (resync-Ends fuel b _ (omega (arith, w, (refuse_data-IsQuiet code text t).lighter))))

  finish_written-Ends :
      (r : Result UpstreamVerdict S) (s : Session H) → IsEnd (finish_written handler r s).0
  finish_written-Ends (err v) s = conclude-IsPlain (err v) s
  finish_written-Ends (ok sink) s = conclude-IsPlain (handler.finish sink) s

  finish_body-Ends :
      (framer : BodyFramer) (sink : S) (s : Session H) → IsEnd (finish_body handler framer sink s).0
  unfolding finish_body
  finish_body-Ends framer sink s = elim (Bool-cases (not (is_empty (flush framer).1))) [
    | inl e ↦
        rw (e, finish_body) (finish_written-Ends (handler.write_final sink (flush framer).1) s)
    | inr e ↦ rw (e, finish_body) (conclude-IsPlain (handler.finish sink) s)
  ]

  on_written-Ends :
      (fuel : ℕ) (again : S → M H Flow) (b : Bool) (r : Result UpstreamVerdict S) (s : Session H)
      → weight s < fuel
      → ((sink : S) → IsEnd (again sink s).0)
      → IsEnd (on_written handler fuel again b r s).0
  on_written-Ends fuel again b (err v) s w h = mirror-Ends fuel v b s w
  on_written-Ends fuel again b (ok sink) s w h = h sink

  on_piece-Ends :
      (fuel : ℕ) (again : BodyFramer → S → M H Flow) (p : BodyFramer × BodyPiece) (sink : S)
      (b : Bool) (s : Session H)
      → weight s < fuel
      → ((framer : BodyFramer) (sink : S) → IsEnd (again framer sink s).0)
      → IsEnd (on_piece handler fuel again p sink b s).0
  unfolding on_piece
  on_piece-Ends fuel again (framer, pending) sink b s w h = h framer sink
  on_piece-Ends fuel again (framer, BodyPiece.chunk bytes) sink b s w h =
      on_written-Ends fuel (again framer) b (handler.write sink bytes) s w (h framer)
  on_piece-Ends fuel again (framer, BodyPiece.terminator) sink b s w h =
      finish_body-Ends framer sink s

  -- With more fuel than there are bytes to come, the body of a message is read to an end, and
  -- no loop runs out of fuel.
  pub read_body-IsEnd :
      (fuel : ℕ) (framer : BodyFramer) (sink : S) (s : Session H)
      → weight s < fuel
      → IsEnd (read_body handler fuel framer sink s).0
  unfolding read_body
  read_body-IsEnd zero framer sink s w = absurd (omega (arith, w))
  read_body-IsEnd (suc fuel) framer sink s w =
      let again = read_body handler fuel in
      round-Ends write_chunk (on_body_line handler fuel again framer sink) fuel s w
        (λ l t v.
          on_piece-Ends fuel again (push framer l) sink true t v
            (λ f k. read_body-IsEnd fuel f k t v))
        (λ t v.
          on_piece-Ends fuel again (push_partial framer t.buf) sink false (record t { buf = [] }) v
            (λ f k. read_body-IsEnd fuel f k (record t { buf = [] }) v))
        (λ t. tt)

  reply_too_large-IsPlain : IsPlain (reply_too_large handler)
  unfolding reply_too_large start_transaction
  reply_too_large-IsPlain s = refuse_data-IsPlain 552 _ _

  refuse_large-Ends :
      (fuel : ℕ) (b : Bool) (s : Session H)
      → weight s < fuel
      → IsEnd (refuse_large_headers handler fuel b s).0
  unfolding refuse_large_headers
  refuse_large-Ends fuel b s w =
      bind-Ends (discard_to_terminator fuel b) (after_discard (reply_too_large handler)) s
        (discard_to_terminator-IsEnd fuel b s w)
        (λ flow e.
          after_discard-Ends (reply_too_large handler) flow _
            (reply_too_large-IsPlain (discard_to_terminator fuel b s).1))

  refused-Ends :
      (fuel : ℕ) (b : Bool) (s : Session H)
      → weight s < fuel
      → IsEnd (refused_headers handler (refuse_large_headers handler fuel b) s).0
  refused-Ends fuel b s w =
      bind-Ends (refuse_large_headers handler fuel b) (λ flow. pure (err flow)) s
        (refuse_large-Ends fuel b s w) (λ flow e. tt)

  on_event-Ends :
      (fuel : ℕ) (again : HeaderCollector → M H (Result Flow (Bytes × Bool)))
      (r : HeaderCollector × Option HeaderEvent) (s : Session H)
      → weight s < fuel
      → ((c : HeaderCollector) → IsEnd (again c s).0)
      → IsEnd (on_event handler fuel again r s).0
  on_event-Ends fuel again (c, none) s w h = h c
  on_event-Ends fuel again (c, some (complete block)) s w h = tt
  on_event-Ends fuel again (c, some HeaderEvent.terminator) s w h = tt
  on_event-Ends fuel again (c, some HeaderEvent.too_large) s w h = refused-Ends fuel true s w

  -- With more fuel than there are bytes to come, the headers of a message are read to an end, and
  -- no loop runs out of fuel.
  pub read_headers-IsEnd :
      (fuel : ℕ) (collector : HeaderCollector) (s : Session H)
      → weight s < fuel
      → IsEnd (read_headers handler fuel collector s).0
  unfolding read_headers
  read_headers-IsEnd zero c s w = absurd (omega (arith, w))
  read_headers-IsEnd (suc fuel) c s w =
      let again = read_headers handler fuel in
      round-Ends (budget (remaining_capacity c)) (on_header_line handler fuel again c) fuel s w
        (λ l t v. on_event-Ends fuel again (push_line c l) t v (λ d. read_headers-IsEnd fuel d t v))
        (λ t v. refused-Ends fuel false (record t { buf = [] }) v) (λ t. tt)
