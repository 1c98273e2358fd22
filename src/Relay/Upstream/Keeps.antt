-- ===== src/Relay/Upstream/Keeps.antt =====
-- src/relay.rs: what each step of a session keeps of what has been sent and of TLS.
use smtp_proxy_rs.Prelude.{
  ℕ, zero, suc, ◌+◌, ◌/◌, inl, inr, Bool, true, false, not, List, [], ◌∷◌, ◌++◌, Option, none, some,
  Bytes, codes, is_empty, ◌==◌, Bool-cases, All, ◌&&◌, leb, ltb, length,
}
use smtp_proxy_rs.Relay.{RelayError, io}
use smtp_proxy_rs.Relay.Wire.{
  Wire, Outcome, done, failed, exhausted, R, bind_outcome, ◌>>=◌, ◌>>◌, pure, fail, UpstreamReply,
  read_line, take_line, read_reply_loop, read_reply, chunks, write_outcome, write_all, flush,
  write_pieces, write_chunks, send_command, require_class, command, line_code, trim_line, text_of,
  ends_with_lf, max_upstream_reply_line, max_reply_total, join_texts,
}
use smtp_proxy_rs.Server.Data.{crlf}

-- A property of the connection that a step keeps, however it ends.
abbrev pub Keeps : {A : Type 0} → (Wire → Type 0) → R A → Type 0
Keeps I m = (w : Wire) → I w → I (m w).1

pub outcome-Keeps :
    {A B : Type 0} (I : Wire → Type 0) (o : Outcome A) (w : Wire) (f : A → R B)
    → I w
    → ((a : A) → Keeps I (f a))
    → I (bind_outcome o w f).1
outcome-Keeps I (done a) w f i k = k a w i
outcome-Keeps I (failed e) w f i k = i
outcome-Keeps I exhausted w f i k = i

pub bind-Keeps :
    {A B : Type 0} (I : Wire → Type 0) (m : R A) (f : A → R B)
    → Keeps I m
    → ((a : A) → Keeps I (f a))
    → Keeps I (m >>= f)
bind-Keeps I m f h k w i = outcome-Keeps I (m w).0 (m w).1 f (h w i) k

module _ (J : List (Bool × Bytes) → Bool → Type 0) where
  -- A property of what has been sent and of whether there is TLS.
  abbrev pub Of : Wire → Type 0
  Of w = J w.sent w.tls

  -- Such a piece may be sent.
  abbrev pub MaySend : Bytes → Type 0
  MaySend piece = (s : List (Bool × Bytes)) (t : Bool) → J s t → J ((t, piece) ∷ s) t

  next-Keeps :
      (o : Option (ℕ × Bool)) (e : RelayError) (r : ℕ → UpstreamReply) (again : R UpstreamReply)
      → Keeps Of again
      → Keeps Of (elim o as (λ _. R UpstreamReply) [
        | none ↦ fail e
        | some (code, true) ↦ pure (r code)
        | some (code, false) ↦ again
      ])
  next-Keeps none e r again h w i = i
  next-Keeps (some (code, true)) e r again h w i = i
  next-Keeps (some (code, false)) e r again h w i = h w i

  take_line-Keeps :
      (again : Bytes → List Bytes → R UpstreamReply) (raw : Bytes) (texts : List Bytes)
      (line : Bytes)
      → ((more : Bytes) (texts' : List Bytes) → Keeps Of (again more texts'))
      → Keeps Of (take_line again raw texts line)
  unfolding take_line
  take_line-Keeps again raw texts line h w i =
      let trimmed = trim_line line in
      let more = texts ++ text_of trimmed ∷ [] in
      elim (Bool-cases (is_empty line)) [
        | inl e ↦ rw e i
        | inr e ↦
            elim (Bool-cases
              (not (ends_with_lf line) && leb max_upstream_reply_line (length line))) [
                | inl long ↦ rw (e, long) i
                | inr short ↦ elim (Bool-cases (ltb max_reply_total (length (raw ++ line)))) [
                  | inl large ↦ rw (e, short, large) i
                  | inr fits ↦
                      rw (e, short, fits)
                        (next-Keeps (line_code trimmed)
                          (io (codes "unparseable upstream reply: " ++ trimmed))
                          (λ code. record {
                            code = code;
                            text = join_texts more;
                            raw = raw ++ line;
                          })
                          (again (raw ++ line) more) (h (raw ++ line) more) w i)
                ]
              ]
      ]

  read_line-Keeps : Keeps Of read_line
  unfolding read_line
  read_line-Keeps w i = i

  read_reply_loop-Keeps :
      (fuel : ℕ) (raw : Bytes) (texts : List Bytes) → Keeps Of (read_reply_loop fuel raw texts)
  unfolding read_reply_loop
  read_reply_loop-Keeps zero raw texts w i = i
  read_reply_loop-Keeps (suc fuel) raw texts w i =
      bind-Keeps Of read_line (take_line (read_reply_loop fuel) raw texts) read_line-Keeps
        (λ line.
          take_line-Keeps (read_reply_loop fuel) raw texts line
            (λ more texts'. read_reply_loop-Keeps fuel more texts'))
        w i

  pub read_reply-Keeps : Keeps Of read_reply
  unfolding read_reply
  read_reply-Keeps = read_reply_loop-Keeps (suc max_reply_total + 1) [] []

  pub write_outcome-Keeps :
      (ws : List (Option RelayError)) (w : Wire) → Of w → Of (write_outcome ws w).1
  write_outcome-Keeps [] w i = i
  write_outcome-Keeps (none ∷ ws) w i = i
  write_outcome-Keeps (some e ∷ ws) w i = i

  pub write_pieces-Keeps :
      (pieces : List Bytes) → All MaySend pieces → Keeps Of (write_pieces pieces)
  unfolding write_pieces write_all flush
  write_pieces-Keeps [] may w i = i
  write_pieces-Keeps (piece ∷ pieces) may w i =
      bind-Keeps Of (write_all piece >> flush) (λ _. write_pieces pieces)
        (bind-Keeps Of (write_all piece) (λ _. flush)
          (λ w' i'.
            write_outcome-Keeps w'.writes (record w' { sent = (w'.tls, piece) ∷ w'.sent })
              (may.0 w'.sent w'.tls i'))
          (λ _ w' i'. write_outcome-Keeps w'.writes w' i'))
        (λ _. write_pieces-Keeps pieces may.1) w i

  pub write_chunks-Keeps :
      (payload : Bytes) → All MaySend (chunks payload) → Keeps Of (write_chunks payload)
  unfolding write_chunks
  write_chunks-Keeps payload may = write_pieces-Keeps (chunks payload) may

  require_class-Keeps : (class : ℕ) (r : UpstreamReply) → Keeps Of (require_class class r)
  unfolding require_class
  require_class-Keeps class r w i = elim (Bool-cases (r.code / 100 == class)) [
    | inl e ↦ rw e i
    | inr e ↦ rw e i
  ]

  pub command-Keeps :
      (line : Bytes) (class : ℕ)
      → All MaySend (chunks (line ++ crlf))
      → Keeps Of (command line class)
  unfolding command send_command
  command-Keeps line class may =
      bind-Keeps Of (send_command line >> read_reply) (require_class class)
        (bind-Keeps Of (send_command line) (λ _. read_reply) (write_chunks-Keeps (line ++ crlf) may)
          (λ _. read_reply-Keeps))
        (require_class-Keeps class)
