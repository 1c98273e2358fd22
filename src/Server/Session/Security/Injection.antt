-- ===== src/Server/Session/Security/Injection.antt =====
-- STARTTLS of src/server/session.rs, over what was read in the clear.
use smtp_proxy_rs.Prelude.{
  ◌≡◌, refl, inl, inr, List, [], ◌∷◌, Option, none, some, Bytes, codes, Option-cases,
}
use smtp_proxy_rs.Server.Session.{
  ErrorKind, Flow, Session, Outcome, done, stopped, M, bind_outcome, send, write_outcome,
}
use smtp_proxy_rs.Server.Session.Dispatch.{next_handshake, upgrade}
use smtp_proxy_rs.Smtp.Reply
use smtp_proxy_rs.Smtp.Reply.{Reply}

abbrev go_ahead : Reply
go_ahead = Reply.new 220 (codes "Go ahead")

module _ {H : Type 0} where
  -- the session over another buffer
  abbrev with_buf : Bytes → Session H → Session H
  with_buf buf s = record s { buf = buf }

  abbrev after_buf : Bytes → Outcome (Unit {0}) × Session H → Outcome (Unit {0}) × Session H
  after_buf buf (o, t) = (o, with_buf buf t)

  write_forgets :
      (buf : Bytes) (ws : List (Option ErrorKind)) (s : Session H)
      → write_outcome ws (with_buf buf s) ≡ after_buf buf (write_outcome ws s)
  write_forgets buf [] s = refl
  write_forgets buf (none ∷ ws) s = refl
  write_forgets buf (some k ∷ ws) s = refl

  send_forgets :
      (reply : Reply) (buf : Bytes) (s : Session H)
      → send reply (with_buf buf s) ≡ after_buf buf (send reply s)
  unfolding send
  send_forgets reply buf s = elim (Option-cases (Reply.wire reply)) [
    | inl n ↦ rw (n, send) refl
    | inr (w, n) ↦ rw (n, send) (write_forgets buf s.writes (record s { sent = reply ∷ s.sent }))
  ]

  -- The arm of STARTTLS behind its reply.
  abbrev accept_tls : Unit {0} → M H Flow
  accept_tls _ s = next_handshake s.handshakes (record s { buf = [] })

  answered_forgets :
      (r : Outcome (Unit {0}) × Session H) (buf : Bytes) (flow : Flow)
      → (bind_outcome r.0 r.1 accept_tls).0 ≡ done flow
      → bind_outcome (after_buf buf r).0 (after_buf buf r).1 accept_tls
        ≡ bind_outcome r.0 r.1 accept_tls
  answered_forgets (done a, t) buf flow e = refl
  answered_forgets (stopped w, t) buf flow e = cc

  -- What the session had read in the clear, beyond the line of STARTTLS, changes nothing of an upgrade
  -- that comes to an end, whatever the handshake makes of what was still to be read: neither its
  -- outcome nor the session behind it.
  pub upgrade_forgets :
      (s : Session H) (buf : Bytes) (flow : Flow)
      → (upgrade s).0 ≡ done flow
      → upgrade (record s { buf = buf }) ≡ upgrade s
  unfolding upgrade
  upgrade_forgets s buf flow e =
      rw (send_forgets go_ahead buf s) (answered_forgets (send go_ahead s) buf flow e)
