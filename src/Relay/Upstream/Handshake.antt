-- ===== src/Relay/Upstream/Handshake.antt =====
-- src/relay.rs: what a connection is behind its handshake.
use smtp_proxy_rs.Prelude.{
  ◌≡◌, refl, inl, inr, Bool, true, List, [], ◌∷◌, Bytes, codes, is_empty, Bool-cases, Result, ok,
  err,
}
use smtp_proxy_rs.Relay.{RelayError}
use smtp_proxy_rs.Relay.Wire.{
  Arrival, Wire, Outcome, done, failed, exhausted, R, bind_outcome, ◌>>=◌, ◌>>◌, pure, read_reply,
  command,
}
use smtp_proxy_rs.Relay.Wire.{TlsHandshake}
use smtp_proxy_rs.Relay.Upstream.{
  UpstreamTlsMode, off, opportunistic, required, implicit, shaken, next_handshake, handshake,
  upgrade, ehlo, want_tls, start_tls, greeted, secure, say_ehlo, open_upstream, dial, greet,
  caps_of,
}
use smtp_proxy_rs.Smtp.Extensions.{Extensions, parse_extensions, contains_key}
use smtp_proxy_rs.Relay.Upstream.Secure.{ehlo-Keeps, greet-Keeps}

-- What a step gives if it is done.
abbrev pub Gives : {A : Type 0} → (Wire → Type 0) → Outcome A × Wire → Type 0
Gives I (done a, w) = I w
Gives I (failed e, w) = Unit
Gives I (exhausted, w) = Unit

outcome-Gives :
    {A B : Type 0} (I K : Wire → Type 0) (o : Outcome A) (w : Wire) (f : A → R B)
    → Gives I (o, w)
    → ((a : A) (w' : Wire) → I w' → Gives K (f a w'))
    → Gives K (bind_outcome o w f)
outcome-Gives I K (done a) w f h k = k a w h
outcome-Gives I K (failed e) w f h k = tt
outcome-Gives I K exhausted w f h k = tt

bind-Gives :
    {A B : Type 0} (I K : Wire → Type 0) (m : R A) (f : A → R B) (w : Wire)
    → Gives I (m w)
    → ((a : A) (w' : Wire) → I w' → Gives K (f a w'))
    → Gives K ((m >>= f) w)
bind-Gives I K m f w h k = outcome-Gives I K (m w).0 (m w).1 f h k

Gives-any : {A : Type 0} (I : Wire → Type 0) (o : Outcome A) (w : Wire) → I w → Gives I (o, w)
Gives-any I (done a) w i = i
Gives-any I (failed e) w i = tt
Gives-any I exhausted w i = tt

Gives-true : {A : Type 0} (o : Outcome A) (w : Wire) → Gives (λ _. Unit {0}) (o, w)
Gives-true (done a) w = tt
Gives-true (failed e) w = tt
Gives-true exhausted w = tt

abbrev pub InTls : Wire → Type 0
InTls w = w.tls ≡ true

-- Whether there is TLS, as a property of what is sent and of that.
abbrev TlsOn : List (Bool × Bytes) → Bool → Type 0
TlsOn s t = t ≡ true

shaken-Gives :
    (hs : List TlsHandshake) (r : Result RelayError (List Arrival)) (w : Wire)
    → Gives InTls (shaken hs r w)
shaken-Gives hs (err e) w = tt
shaken-Gives hs (ok reads) w = refl

next_handshake-Gives : (hs : List TlsHandshake) (w : Wire) → Gives InTls (next_handshake hs w)
next_handshake-Gives [] w = tt
next_handshake-Gives (accept ∷ hs) w = shaken-Gives hs (accept w.reads) w

upgrade-Gives : (w : Wire) → Gives InTls (upgrade w)
unfolding upgrade handshake
upgrade-Gives w = elim (Bool-cases (is_empty w.buffer)) [
  | inl e ↦ rw e (next_handshake-Gives w.handshakes w)
  | inr e ↦ rw e tt
]

start_tls-Gives : (w : Wire) → Gives InTls (start_tls w)
unfolding start_tls
start_tls-Gives w =
    let starttls = command (codes "STARTTLS") 2 in
    bind-Gives InTls InTls (starttls >> upgrade >> command ehlo 2)
      (λ r. pure (parse_extensions r.raw)) w
      (bind-Gives InTls InTls (starttls >> upgrade) (λ _. command ehlo 2) w
        (bind-Gives (λ _. Unit {0}) InTls starttls (λ _. upgrade) w
          (Gives-true (starttls w).0 (starttls w).1) (λ _ w' _. upgrade-Gives w'))
        (λ _ w' i.
          Gives-any InTls (command ehlo 2 w').0 (command ehlo 2 w').1
            (ehlo-Keeps TlsOn (λ _ _ _ _ k. k) (λ _ _ _. refl) 2 w' i)))
      (λ _ _ i. i)

required-Gives : (x : Extensions) (w : Wire) → Gives InTls (secure required x w)
unfolding secure want_tls
required-Gives x w = elim (Bool-cases (contains_key x (codes "STARTTLS"))) [
  | inl e ↦ rw e (start_tls-Gives w)
  | inr e ↦ rw e tt
]

greet-Gives : (w : Wire) → Gives InTls (greet required w)
unfolding greet open_upstream
greet-Gives w =
    let before = read_reply >>= greeted >> say_ehlo in
    bind-Gives InTls InTls (before >>= secure required) (λ x. pure (caps_of x)) w
      (bind-Gives (λ _. Unit {0}) InTls before (secure required) w
        (Gives-true (before w).0 (before w).1) (λ x w' _. required-Gives x w'))
      (λ _ _ i. i)

-- The modes that ask for TLS whatever the upstream announces.
abbrev pub NeedsTls : UpstreamTlsMode → Type 0
NeedsTls required = Unit
NeedsTls implicit = Unit
NeedsTls _ = ⊥

pub connect-Gives :
    (mode : UpstreamTlsMode) (w : Wire) → NeedsTls mode → Gives InTls ((dial mode >> greet mode) w)
unfolding dial handshake
connect-Gives off w n = absurd n
connect-Gives opportunistic w n = absurd n
connect-Gives required w n = greet-Gives w
connect-Gives implicit w n =
    bind-Gives InTls InTls (dial implicit) (λ _. greet implicit) w
      (next_handshake-Gives w.handshakes w)
      (λ _ w' i.
        Gives-any InTls (greet implicit w').0 (greet implicit w').1
          (greet-Keeps TlsOn (λ _ _ _ _ k. k) (λ _ _ _. refl) implicit w' i))
