-- ===== src/Relay/Upstream/Commands.antt =====
-- src/relay.rs, `open_transaction`: the command lines that an envelope is sent as.
use smtp_proxy_rs.Prelude.{
  ◌≡◌, inl, inr, true, List, [], ◌∷◌, ◌++◌, arith, Bytes, codes, all, All, All-append, Bool-cases,
  ok,
}
use smtp_proxy_rs.Relay.{assert_relayable, is_address_char, dsn_suffix, size_suffix}
use smtp_proxy_rs.Relay.Suffixes.{InLine, dsn_suffix-InLine, size_suffix-InLine}
use smtp_proxy_rs.Relay.Upstream.{UpstreamCaps, Recipient, Envelope, mail_line, rcpt_line}
use smtp_proxy_rs.Smtp.Dsn.{is_mail_dsn_keyword, is_rcpt_dsn_keyword}
use smtp_proxy_rs.Smtp.Params.Grammar.{IsParam}

address_chars : (a : Bytes) → all is_address_char a ≡ true → All InLine a
address_chars [] h = tt
address_chars (c ∷ a) h = (ground arith, address_chars a (ground arith))

-- An address that `assert_relayable` lets through.
abbrev pub IsRelayable : Bytes → Type 0
IsRelayable a = assert_relayable a ≡ ok tt

address-InLine : (a : Bytes) → IsRelayable a → All InLine a
unfolding assert_relayable
address-InLine a h = elim (Bool-cases (all is_address_char a)) [
  | inl e ↦ address_chars a e
  | inr e ↦ absurd (ground arith)
]

-- An envelope whose addresses may be relayed and whose parameters are well formed.
pub record IsSendable (envelope : Envelope) : Type 0 where
  pub from : IsRelayable envelope.from
  pub mail_params : All IsParam envelope.mail_params
  pub recipients : All (λ r. IsRelayable r.address × All IsParam r.parameters) envelope.recipients

mail_prefix : All InLine (codes "MAIL FROM:<")
mail_prefix = omega arith

rcpt_prefix : All InLine (codes "RCPT TO:<")
rcpt_prefix = omega arith

closed-InLine :
    (address suffix : Bytes)
    → IsRelayable address
    → All InLine suffix
    → All InLine (address ++ b'>' ∷ suffix)
closed-InLine address suffix h k =
    All-append InLine address (b'>' ∷ suffix) (address-InLine address h) (omega arith, k)

rcpt_lines-InLine :
    (caps : UpstreamCaps) (rs : List Recipient)
    → All (λ r. IsRelayable r.address × All IsParam r.parameters) rs
    → All (λ r. All InLine (rcpt_line caps r)) rs
unfolding rcpt_line
rcpt_lines-InLine caps [] h = tt
rcpt_lines-InLine caps (r ∷ rs) h =
    let suffix = dsn_suffix r.parameters is_rcpt_dsn_keyword caps.dsn in
    (
      All-append InLine (codes "RCPT TO:<") (r.address ++ b'>' ∷ suffix) rcpt_prefix (
          closed-InLine r.address suffix h.0.0
            (dsn_suffix-InLine r.parameters is_rcpt_dsn_keyword caps.dsn h.0.1)),
      rcpt_lines-InLine caps rs h.1,
    )

-- Of an envelope whose addresses may be relayed and whose parameters are well formed: no command line
-- that it is sent as holds a CR or an LF, whatever the upstream announces.
pub envelope_lines-InLine :
    (caps : UpstreamCaps) (envelope : Envelope)
    → IsSendable envelope
    → All InLine (mail_line caps envelope)
      × All (λ r. All InLine (rcpt_line caps r)) envelope.recipients
unfolding mail_line
envelope_lines-InLine caps envelope h =
    let dsn = dsn_suffix envelope.mail_params is_mail_dsn_keyword caps.dsn in
    let size = size_suffix envelope.mail_params caps.size_announced in
    (
      All-append InLine (codes "MAIL FROM:<") (envelope.from ++ b'>' ∷ (dsn ++ size)) mail_prefix (
          closed-InLine envelope.from (dsn ++ size) h.from (
            All-append InLine dsn size
              (dsn_suffix-InLine envelope.mail_params is_mail_dsn_keyword caps.dsn h.mail_params)
              (size_suffix-InLine envelope.mail_params caps.size_announced h.mail_params))),
      rcpt_lines-InLine caps envelope.recipients h.recipients,
    )
