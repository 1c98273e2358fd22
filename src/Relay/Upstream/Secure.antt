-- ===== src/Relay/Upstream/Secure.antt =====
-- src/relay.rs: what an upstream is sent before the connection is inside TLS.
use smtp_proxy_rs.Prelude.{
  ℕ, ◌/◌, ◌≡◌, refl, inl, inr, ◌⊎◌, Bool, true, false, List, [], ◌∷◌, ◌++◌, Bytes, codes, is_empty,
  ◌==◌, if◌then◌else◌, Bool-cases, Result, ok, err,
}
use smtp_proxy_rs.Relay.{RelayError, io, rejected, address, timeout, tls, no_start_tls}
use smtp_proxy_rs.Relay.Wire.{
  Arrival, Wire, Outcome, done, failed, exhausted, ◌>>=◌, ◌>>◌, pure, UpstreamReply, read_reply,
  chunks, chunks_from, command,
}
use smtp_proxy_rs.Relay.Wire.{TlsHandshake}
use smtp_proxy_rs.Relay.Upstream.{
  UpstreamTlsMode, off, opportunistic, required, implicit, shaken, next_handshake, handshake,
  upgrade, ehlo, helo, after_ehlo, want_tls, start_tls, greeted, secure, say_ehlo, open_upstream,
  dial, greet, caps_of,
}
use smtp_proxy_rs.Relay.Upstream.Keeps.{
  Keeps, bind-Keeps, Of, MaySend, read_reply-Keeps, command-Keeps,
}
use smtp_proxy_rs.Server.Data.{crlf}
use smtp_proxy_rs.Smtp.Extensions.{Extensions, parse_extensions, contains_key}

-- The lines that an upstream may be sent without TLS.
abbrev pub IsGreeting : Bytes → Type 0
IsGreeting line =
    (line ≡ ehlo ++ crlf) ⊎ ((line ≡ helo ++ crlf) ⊎ (line ≡ codes "STARTTLS" ++ crlf))

chunks-ehlo : chunks (ehlo ++ crlf) ≡ (ehlo ++ crlf) ∷ []
unfolding chunks chunks_from
chunks-ehlo = refl

chunks-helo : chunks (helo ++ crlf) ≡ (helo ++ crlf) ∷ []
unfolding chunks chunks_from
chunks-helo = refl

chunks_starttls : chunks (codes "STARTTLS" ++ crlf) ≡ (codes "STARTTLS" ++ crlf) ∷ []
unfolding chunks chunks_from
chunks_starttls = refl

module _ (J : List (Bool × Bytes) → Bool → Type 0)
    (may_greet : (line : Bytes) → IsGreeting line → MaySend J line)
    (lift : (s : List (Bool × Bytes)) (t : Bool) → J s t → J s true) where
  greeting-Keeps :
      (line : Bytes) (class : ℕ)
      → IsGreeting (line ++ crlf)
      → chunks (line ++ crlf) ≡ (line ++ crlf) ∷ []
      → Keeps (Of J) (command line class)
  greeting-Keeps line class h e = command-Keeps J line class (rw e (may_greet (line ++ crlf) h, tt))

  pub ehlo-Keeps : (class : ℕ) → Keeps (Of J) (command ehlo class)
  ehlo-Keeps class = greeting-Keeps ehlo class (inl refl) chunks-ehlo

  shaken-Keeps :
      (hs : List TlsHandshake) (r : Result RelayError (List Arrival)) (w : Wire)
      → Of J w
      → Of J (shaken hs r w).1
  shaken-Keeps hs (err e) w i = i
  shaken-Keeps hs (ok reads) w i = lift w.sent w.tls i

  next_handshake-Keeps : (hs : List TlsHandshake) (w : Wire) → Of J w → Of J (next_handshake hs w).1
  next_handshake-Keeps [] w i = i
  next_handshake-Keeps (accept ∷ hs) w i = shaken-Keeps hs (accept w.reads) w i

  handshake-Keeps : Keeps (Of J) handshake
  unfolding handshake
  handshake-Keeps w i = next_handshake-Keeps w.handshakes w i

  upgrade-Keeps : Keeps (Of J) upgrade
  unfolding upgrade
  upgrade-Keeps w i = elim (Bool-cases (is_empty w.buffer)) [
    | inl e ↦ rw e (handshake-Keeps w i)
    | inr e ↦ rw e i
  ]

  after_ehlo-Keeps : (o : Outcome UpstreamReply) (w : Wire) → Of J w → Of J (after_ehlo (o, w)).1
  unfolding after_ehlo
  after_ehlo-Keeps (done r) w i = i
  after_ehlo-Keeps (failed (rejected code text)) w i = elim (Bool-cases (code / 100 == 5)) [
    | inl e ↦ rw e (
        bind-Keeps (Of J) (command helo 2) (λ _. pure [])
          (greeting-Keeps helo 2 (inr (inl refl)) chunks-helo) (λ _ _ i'. i') w i)
    | inr e ↦ rw e i
  ]
  after_ehlo-Keeps (failed (io t)) w i = i
  after_ehlo-Keeps (failed (address t)) w i = i
  after_ehlo-Keeps (failed timeout) w i = i
  after_ehlo-Keeps (failed (tls t)) w i = i
  after_ehlo-Keeps (failed no_start_tls) w i = i
  after_ehlo-Keeps exhausted w i = i

  say_ehlo-Keeps : Keeps (Of J) say_ehlo
  unfolding say_ehlo
  say_ehlo-Keeps w i = after_ehlo-Keeps (command ehlo 2 w).0 (command ehlo 2 w).1 (ehlo-Keeps 2 w i)

  start_tls-Keeps : Keeps (Of J) start_tls
  unfolding start_tls
  start_tls-Keeps =
      bind-Keeps (Of J) (command (codes "STARTTLS") 2 >> upgrade >> command ehlo 2)
        (λ r. pure (parse_extensions r.raw))
        (bind-Keeps (Of J) (command (codes "STARTTLS") 2 >> upgrade) (λ _. command ehlo 2)
          (bind-Keeps (Of J) (command (codes "STARTTLS") 2) (λ _. upgrade)
            (greeting-Keeps (codes "STARTTLS") 2 (inr (inr refl)) chunks_starttls)
            (λ _. upgrade-Keeps))
          (λ _. ehlo-Keeps 2))
        (λ _ _ i. i)

  want_tls-Keeps : (mode : UpstreamTlsMode) (x : Extensions) → Keeps (Of J) (want_tls mode x)
  unfolding want_tls
  want_tls-Keeps off x w i = i
  want_tls-Keeps implicit x w i = i
  want_tls-Keeps opportunistic x w i = i
  want_tls-Keeps required x w i = elim (Bool-cases (contains_key x (codes "STARTTLS"))) [
    | inl e ↦ rw e i
    | inr e ↦ rw e i
  ]

  branch-Keeps : (x : Extensions) (want : Bool) → Keeps (Of J) (if want then start_tls else pure x)
  branch-Keeps x true w i = start_tls-Keeps w i
  branch-Keeps x false w i = i

  greeted-Keeps : (r : UpstreamReply) → Keeps (Of J) (greeted r)
  unfolding greeted
  greeted-Keeps r w i = elim (Bool-cases (r.code / 100 == 2)) [ inl e ↦ rw e i | inr e ↦ rw e i ]

  pub open_upstream-Keeps : (mode : UpstreamTlsMode) → Keeps (Of J) (open_upstream mode)
  unfolding open_upstream secure
  open_upstream-Keeps mode =
      bind-Keeps (Of J) (read_reply >>= greeted >> say_ehlo) (secure mode)
        (bind-Keeps (Of J) (read_reply >>= greeted) (λ _. say_ehlo)
          (bind-Keeps (Of J) read_reply greeted (read_reply-Keeps J) greeted-Keeps)
          (λ _. say_ehlo-Keeps))
        (λ x.
          bind-Keeps (Of J) (want_tls mode x) (λ want. if want then start_tls else pure x)
            (want_tls-Keeps mode x) (branch-Keeps x))

  dial-Keeps : (mode : UpstreamTlsMode) → Keeps (Of J) (dial mode)
  unfolding dial
  dial-Keeps off w i = i
  dial-Keeps opportunistic w i = i
  dial-Keeps required w i = i
  dial-Keeps implicit w i = handshake-Keeps w i

  pub greet-Keeps : (mode : UpstreamTlsMode) → Keeps (Of J) (greet mode)
  unfolding greet
  greet-Keeps mode =
      bind-Keeps (Of J) (open_upstream mode) (λ x. pure (caps_of x)) (open_upstream-Keeps mode)
        (λ _ _ i. i)

  pub connect-Keeps : (mode : UpstreamTlsMode) → Keeps (Of J) (dial mode >> greet mode)
  connect-Keeps mode =
      bind-Keeps (Of J) (dial mode) (λ _. greet mode) (dial-Keeps mode) (λ _. greet-Keeps mode)
