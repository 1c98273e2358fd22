-- ===== src/Relay/Upstream/Terminator.antt =====
-- src/relay.rs, `finish`: how a reader that frames on LF sees the end of a message.
use smtp_proxy_rs.Prelude.{
  ℕ, ◌/◌, ◌≡◌, ◌≢◌, refl, sym, ap, ◌∙◌, ◌⊎◌, inl, inr, Bool, List, [], ◌∷◌, ◌++◌, Option, none,
  some, arith, Bytes, codes, ◌==◌, Bool-cases, ok, All,
}
use mathlib.Core.List.{append_assoc, append-nil}
use smtp_proxy_rs.Relay.Wire.{
  Wire, Outcome, done, failed, exhausted, bind_outcome, pure, UpstreamReply, read_reply,
  chunks_from, chunks, write_chunks, write_all, flush, write_pieces, write_outcome, command,
}
use smtp_proxy_rs.Relay.Upstream.{
  UpstreamSession, last_of, tail_of, quit, conclude, terminate, finish,
}
use smtp_proxy_rs.Relay.Upstream.Keeps.{
  Keeps, outcome-Keeps, bind-Keeps, write_outcome-Keeps, Of, MaySend, read_reply-Keeps,
  command-Keeps,
}
use smtp_proxy_rs.Server.Data.{lf, crlf}
use smtp_proxy_rs.Server.Data.BodyFramer.Smuggling.{
  Scan, start, dot, dot_cr, mid, found, scan_step, scan, scan-append,
}
use smtp_proxy_rs.Relay.Upstream.Body.{stream, Written, Written-stream}

-- What has been sent begins so.
abbrev Begins : Bytes → List (Bool × Bytes) → Bool → Type 0
Begins text s t = (rest : Bytes) × (stream s ≡ text ++ rest)

may_follow : (text : Bytes) (pieces : List Bytes) → All (MaySend (Begins text)) pieces
unfolding stream
may_follow text [] = tt
may_follow text (piece ∷ pieces) = (
  (λ s t i. (i.0 ++ piece, ap (λ b. b ++ piece) i.1 ∙ append_assoc text i.0 piece)),
  may_follow text pieces,
)

quit-Begins : (text : Bytes) → Keeps (Of (Begins text)) quit
unfolding quit
quit-Begins text w i =
    let m = command (codes "QUIT") 2 in
    go (m w).0 (m w).1 (
      command-Keeps (Begins text) (codes "QUIT") 2 (may_follow text (chunks (codes "QUIT" ++ crlf)))
        w i)
  where
    go :
        (o : Outcome UpstreamReply) (w' : Wire)
        → Of (Begins text) w'
        → Of
            (Begins text)
            (elim o as (λ _. Outcome (Unit {0}) × Wire) [
              | exhausted ↦ (exhausted, w')
              | _ ↦ (done tt, w')
            ]).1
    go (done r) w' k = k
    go (failed e) w' k = k
    go exhausted w' k = k

conclude-Begins :
    (text : Bytes) (o : Outcome UpstreamReply) (w : Wire)
    → Of (Begins text) w
    → Of (Begins text) (conclude (o, w)).1
unfolding conclude
conclude-Begins text (done r) w i = elim (Bool-cases (r.code / 100 == 2)) [
  | inl e ↦ rw e (
      bind-Keeps (Of (Begins text)) quit (λ _. pure (ok r.text)) (quit-Begins text) (λ _ _ k. k) w
        i)
  | inr e ↦ rw e i
]
conclude-Begins text (failed e) w i = i
conclude-Begins text exhausted w i = i

terminate-Begins :
    (text : Bytes) (o : Outcome (Unit {0})) (w : Wire)
    → Of (Begins text) w
    → Of (Begins text) (terminate (o, w)).1
unfolding terminate
terminate-Begins text (done _) w i =
    conclude-Begins text (read_reply w).0 (read_reply w).1 (read_reply-Keeps (Begins text) w i)
terminate-Begins text (failed e) w i = i
terminate-Begins text exhausted w i = i

first_piece :
    (J : List (Bool × Bytes) → Bool → Type 0) (piece : Bytes) (w : Wire)
    → J ((w.tls, piece) ∷ w.sent) w.tls
    → Of J (write_pieces (piece ∷ []) w).1
unfolding write_pieces write_all flush
first_piece J piece w i =
    let w1 = record w { sent = (w.tls, piece) ∷ w.sent } in
    let first = write_outcome w.writes w1 in
    let second = bind_outcome first.0 first.1 (λ _. flush) in
    outcome-Keeps (Of J) second.0 second.1 (λ _. write_pieces [])
      (outcome-Keeps (Of J) first.0 first.1 (λ _. flush) (write_outcome-Keeps J w.writes w1 i)
        (λ _ w' k. write_outcome-Keeps J w'.writes w' k))
      (λ _ w' k. k)

-- A payload of one piece is recorded however its write ends.
one_piece :
    (payload : Bytes) (w : Wire)
    → chunks payload ≡ payload ∷ []
    → Of (Begins (stream w.sent ++ payload)) (write_chunks payload w).1
unfolding write_chunks stream
one_piece payload w e =
    let (rest, same) =
      first_piece (Begins (stream w.sent ++ payload)) payload w
        ([], sym (append-nil (stream w.sent ++ payload))) in
    (rest, ap (λ ps. stream (write_pieces ps w).1.sent) e ∙ same)

tail_chunks : (o : Option ℕ) → chunks (tail_of o) ≡ tail_of o ∷ []
unfolding tail_of chunks chunks_from
tail_chunks none = refl
tail_chunks (some c) = elim (Bool-cases (c == lf)) [ inl e ↦ rw e refl | inr e ↦ rw e refl ]

-- Behind an LF a reader that frames on it is at the start of a line, or past a terminator.
AtLine : Scan → Type 0
AtLine s = (s ≡ start) ⊎ (s ≡ found)

scan_lf : (s : Scan) → AtLine (scan_step s lf)
unfolding scan_step AtLine
scan_lf start = ground arith
scan_lf dot = ground arith
scan_lf dot_cr = ground arith
scan_lf mid = ground arith
scan_lf found = ground arith

scan-last : (s : Scan) (b : Bytes) → last_of b ≡ some lf → AtLine (scan s b)
unfolding scan last_of
scan-last s [] e = cc
scan-last s (c ∷ []) e = let is_lf : c ≡ lf = ground arith in rw is_lf (scan_lf s)
scan-last s (c ∷ d ∷ b) e = scan-last (scan_step s c) (d ∷ b) e

scan_dot : (s : Scan) → AtLine s → scan s (codes ".\r\n") ≡ found
unfolding scan scan_step AtLine
scan_dot s (inl e) = rw e refl
scan_dot s (inr e) = rw e refl

scan_break : (s : Scan) → scan s (crlf ++ codes ".\r\n") ≡ found
unfolding scan scan_step
scan_break start = refl
scan_break dot = refl
scan_break dot_cr = refl
scan_break mid = refl
scan_break found = refl

scan_early : (s : Scan) → AtLine s → s ≢ found → scan s (codes ".\r") ≢ found
unfolding scan scan_step AtLine
scan_early s (inl e) ne = rw e (λ z. cc)
scan_early s (inr e) ne = absurd (ne e)

scan-tail : (b : Bytes) (o : Option ℕ) → last_of b ≡ o → scan start (b ++ tail_of o) ≡ found
unfolding tail_of
scan-tail b none e = rw (scan-append start b (crlf ++ codes ".\r\n")) (scan_break (scan start b))
scan-tail b (some c) e = elim (Bool-cases (c == lf)) [
  | inl is_lf ↦
      rw (is_lf, scan-append start b (codes ".\r\n"))
        (scan_dot (scan start b) (scan-last start b (ground arith)))
  | inr other ↦ rw (other, scan-append start b (crlf ++ codes ".\r\n")) (scan_break (scan start b))
]

-- Of a session to which no body byte was written before: the bytes that are handed to the transport
-- for a body written in pieces with success, whatever the pieces are, and for its end are the body as
-- it is, the tail and what may follow the reply; and a reader that ends a line at each LF finds the
-- lone dot once it has the tail.
pub finish_terminated :
    (u v : UpstreamSession) (body : Bytes)
    → u.last_written ≡ none
    → Written u body v
    → ((rest : Bytes) × (stream (finish v).1.sent
          ≡ (stream u.wire.sent ++ (body ++ tail_of (last_of body))) ++ rest))
      × (scan start (body ++ tail_of (last_of body)) ≡ found)
unfolding finish
finish_terminated u v body fresh d =
    let (same, last) = Written-stream u body v fresh d in
    let tail = tail_of v.last_written in
    let written = one_piece tail v.wire (tail_chunks v.last_written) in
    let (rest, ends) =
      terminate-Begins (stream v.wire.sent ++ tail) (write_chunks tail v.wire).0
        (write_chunks tail v.wire).1 written in
    (
      (
        rest,
        ends
            ∙ ap (λ b. b ++ rest)
                (ap (λ b. b ++ tail) same
                  ∙ (append_assoc (stream u.wire.sent) body tail
                      ∙ ap (λ o. stream u.wire.sent ++ (body ++ tail_of o)) last)),
      ),
      scan-tail body (last_of body) refl,
    )

-- Of a body that ends in an LF and in which a reader that ends a line at each LF finds no lone dot:
-- with the tail behind it, the reader finds one at the last byte of the tail and not before.
pub tail_exact :
    (body : Bytes)
    → last_of body ≡ some lf
    → scan start body ≢ found
    → (tail_of (last_of body) ≡ codes ".\r" ++ lf ∷ [])
      × (scan start (body ++ codes ".\r") ≢ found)
      × (scan start (body ++ tail_of (last_of body)) ≡ found)
tail_exact body at_lf ne = (
  rw at_lf (unfold tail_of in refl),
  rw (scan-append start body (codes ".\r"))
      (scan_early (scan start body) (scan-last start body at_lf) ne),
  scan-tail body (last_of body) refl,
)
