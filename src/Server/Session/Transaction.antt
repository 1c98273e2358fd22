-- ===== src/Server/Session/Transaction.antt =====
-- src/server/session.rs: MAIL and RCPT.
use smtp_proxy_rs.Prelude.{
  ◌+◌, Bool, ◌&&◌, List, ◌∷◌, Option, none, some, Bytes, codes, if◌then◌else◌, ok, err, leb, ltb,
}
use smtp_proxy_rs.Server.{Handler, Rejection}
use smtp_proxy_rs.Server.Session.{
  State, want_rcpt, want_data, Flow, continue, Session, done, M, ◌>>=◌, ◌>>◌, pure, goto, send,
  asked_mail, asked_rcpt, recipient,
}
use smtp_proxy_rs.Server.Session.Reading.{start_transaction}
use smtp_proxy_rs.Smtp.Command.{Command, mail, rcpt}
use smtp_proxy_rs.Smtp.Dsn
use smtp_proxy_rs.Smtp.Dsn.{validate_dsn}
use smtp_proxy_rs.Smtp.Params.{Param}
use smtp_proxy_rs.Smtp.Reply
use smtp_proxy_rs.Server.Session.Authentication.{reply_and_continue}

module _ {H : Type 0} where
  unfoldable pub bad_sequence : M H Flow
  unfolding send
  bad_sequence = send (Reply.new 503 (codes "Bad sequence of commands")) >> pure continue

module _ {H S : Type 0} (handler : Handler H S) where
  abbrev pub call_mail : Bytes → List Param → M H (Option Rejection)
  call_mail from params s =
      let r = handler.mail s.handler from params in
      (done r.1, record s { handler = r.0; calls = asked_mail from ∷ s.calls })

  -- the answer to a MAIL or a RCPT, and the state behind one that is accepted
  abbrev pub answered : State → Option Rejection → M H Flow
  answered st none = send (Reply.new 250 (codes "OK")) >> (goto st >> pure continue)
  answered st (some rejection) = reply_and_continue rejection.code rejection.text

  unfoldable pub do_mail : Bytes → List Param → M H Flow
  unfolding start_transaction send validate_dsn
  do_mail from params = elim (validate_dsn params Dsn.DsnCommand.mail) [
    | err text ↦ reply_and_continue 501 text
    | ok _ ↦ start_transaction handler >> (call_mail from params >>= answered want_rcpt)
  ]

  -- `self.handler.rcpt(..)`, and the count of the recipients that it accepts
  abbrev pub counted_rcpt : Bytes → H × Option Rejection → M H (Option Rejection)
  counted_rcpt to (h, none) s = (
    done none,
    record s {
      handler = h;
      recipients = s.recipients + 1;
      calls = recipient to ∷ asked_rcpt to ∷ s.calls;
    },
  )
  counted_rcpt to (h, some rejection) s =
      (done (some rejection), record s { handler = h; calls = asked_rcpt to ∷ s.calls })

  abbrev pub call_rcpt : Bytes → List Param → M H (Option Rejection)
  call_rcpt to params s = counted_rcpt to (handler.rcpt s.handler to params) s

  -- `config.max_recipients > 0 && self.recipients >= self.config.max_recipients`
  abbrev pub at_limit : Session H → Bool
  at_limit s = ltb 0 s.config.max_recipients && leb s.config.max_recipients s.recipients

  unfoldable pub do_rcpt : Bytes → List Param → M H Flow
  unfolding send validate_dsn
  do_rcpt to params s = elim (validate_dsn params Dsn.DsnCommand.rcpt) [
    | err text ↦ reply_and_continue 501 text s
    | ok _ ↦
        if at_limit s
        then reply_and_continue 452 (codes "4.5.3 Too many recipients") s
        else (call_rcpt to params >>= answered want_data) s
  ]

  unfoldable pub in_want_mail : Command → M H Flow
  unfolding do_mail bad_sequence
  in_want_mail (mail from params) = do_mail from params
  in_want_mail _ = bad_sequence

  unfoldable pub in_want_rcpt : Command → M H Flow
  unfolding do_rcpt bad_sequence
  in_want_rcpt (rcpt to params) = do_rcpt to params
  in_want_rcpt _ = bad_sequence
