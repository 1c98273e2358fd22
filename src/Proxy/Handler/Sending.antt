-- ===== src/Proxy/Handler/Sending.antt =====
-- src/proxy.rs: the checks of an envelope, and how it reaches an upstream with the headers.
use smtp_proxy_rs.Prelude.{
  ◌≡◌, refl, sym, ap, ◌∙◌, inl, inr, List, [], ◌∷◌, ◌++◌, Option, none, some, arith, All,
  Result-cases, Result, ok, err, ◌>>=◌,
}
use smtp_proxy_rs.Proxy.Headers.{RawHeader, header_block}
use smtp_proxy_rs.Proxy.Handler.{
  assert_envelope, relay_headers, assert_recipients, settled, header_written,
}
use smtp_proxy_rs.Relay.{RelayError, UpstreamVerdict, assert_relayable}
use smtp_proxy_rs.Relay.Upstream.{UpstreamSession, Envelope, Recipient, open_transaction, write}
use smtp_proxy_rs.Relay.Upstream.Body.{stream, write-stream}
use smtp_proxy_rs.Relay.Upstream.Exchange.{
  Exchanged, commands, bytes_of, open_transaction-Exchanged, Exchanged-stream,
}
use smtp_proxy_rs.Relay.Wire.{Wire, Outcome, done, failed, exhausted}

-- How an envelope and headers reach an upstream: each command of the envelope is sent and accepted, the
-- headers are written behind them, and these bytes and no others are handed to the transport.
pub record IsSentTo (u : UpstreamSession) (envelope : Envelope) (merged : List RawHeader)
    (v : UpstreamSession) : Type 0 where
  pub behind : Wire
  pub exchanged : Exchanged (commands u.caps envelope) u.wire behind
  pub written : write (record u { wire = behind }) (header_block merged) ≡ (done none, v)
  pub bytes :
      stream v.wire.sent
      ≡ (stream u.wire.sent ++ bytes_of (commands u.caps envelope)) ++ header_block merged

recipients-All :
    (rs : List Recipient)
    → assert_recipients rs ≡ ok tt
    → All (λ r. assert_relayable r.address ≡ ok tt) rs
unfolding assert_recipients
recipients-All [] e = tt
recipients-All (r ∷ rs) e = elim (Result-cases (assert_relayable r.address)) [
  | inl (x, n) ↦ absurd (ground arith)
  | inr (x, n) ↦ (n, recipients-All rs (ground arith))
]

pub envelope_checked :
    (e : Envelope)
    → assert_envelope e ≡ ok tt
    → (assert_relayable e.from ≡ ok tt) × All (λ r. assert_relayable r.address ≡ ok tt) e.recipients
unfolding assert_envelope
envelope_checked e h = elim (Result-cases (assert_relayable e.from)) [
  | inl (x, n) ↦ absurd (ground arith)
  | inr (x, n) ↦ (n, recipients-All e.recipients (ground arith))
]

settled_done : {A : Type 0} (o : Outcome A) (a : A) → settled o ≡ ok a → o ≡ done a
unfolding settled
settled_done (done b) a e = ground arith
settled_done (failed x) a e = cc
settled_done exhausted a e = cc

header_written_done :
    (o : Outcome (Option UpstreamVerdict)) (x : Unit {0}) → header_written o ≡ ok x → o ≡ done none
unfolding header_written
header_written_done (done none) x e = refl
header_written_done (done (some v)) x e = cc
header_written_done (failed t) x e = cc
header_written_done exhausted x e = cc

bind_ok :
    {A B : Type 0} (r : Result RelayError A) (f : A → Result RelayError B) (b : B)
    → (r >>= f) ≡ ok b
    → (a : A) × (r ≡ ok a) × (f a ≡ ok b)
bind_ok (ok a) f b e = (a, refl, e)
bind_ok (err x) f b e = cc

written_as :
    (writing : Outcome (Option UpstreamVerdict) × UpstreamSession) (b : Unit {0})
    (v : UpstreamSession)
    → header_written writing.0 ≡ ok b
    → ◌≡◌ {A = Result RelayError UpstreamSession} (ok writing.1) (ok v)
    → writing ≡ (done none, v)
written_as (o, u) b v e1 e2 = ground (arith, header_written_done o b e1)

pub relay_headers-IsSentTo :
    (u v : UpstreamSession) (envelope : Envelope) (merged : List RawHeader)
    → relay_headers u envelope merged ≡ ok v
    → IsSentTo u envelope merged v
unfolding relay_headers
relay_headers-IsSentTo u v envelope merged e =
    let opening = open_transaction u.caps envelope u.wire in
    let writing = write (record u { wire = opening.1 }) (header_block merged) in
    let (a, e1, e2) =
      bind_ok (settled opening.0) (λ _. header_written writing.0 >>= λ _. ok writing.1) v e in
    let (b, e3, e4) = bind_ok (header_written writing.0) (λ _. ok writing.1) v e2 in
    let exchanged =
      open_transaction-Exchanged u.caps envelope u.wire opening.1
        (ap (λ o. (o, opening.1)) (settled_done opening.0 a e1)) in
    let written = written_as writing b v e3 e4 in
    record {
      behind = opening.1;
      exchanged = exchanged;
      written = written;
      bytes =
          ap (λ p. stream p.1.wire.sent) (sym written)
          ∙ ((write-stream (record u { wire = opening.1 }) (header_block merged)
                (ap (λ p. p.0) written)).0
              ∙ ap (λ b. b ++ header_block merged) (Exchanged-stream exchanged));
    }
