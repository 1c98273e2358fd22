-- ===== src/Server/Session/Security/Safe.antt =====
-- What one step from a given state of src/server/session.rs leaves: the invariant, and the
-- configuration that it found.
use smtp_proxy_rs.Prelude.{ℕ, ◌≡◌, refl, ◌∙◌, sym, Bool, true, false, List, ◌∷◌, if◌then◌else◌}
use smtp_proxy_rs.Server.{ServerConfig}
use smtp_proxy_rs.Server.Session.{
  State, continue, Call, Session, Outcome, done, stopped, M, ◌>>=◌, ◌>>◌, pure, goto, send,
  bind_outcome,
}
use smtp_proxy_rs.Server.Session.Quiet.{Quiet, Quiet-refl, IsQuiet, bind-IsQuiet, send-IsQuiet}
use smtp_proxy_rs.Server.Session.Security.{
  Permits, InvOf, InvOf-path, Inv, Quiet-Inv, has_upgrade, has_auth, accepted,
}
use smtp_proxy_rs.Smtp.Reply.{Reply}

module _ {H : Type 0} where
  abbrev pub Fine : {A : Type 0} → ServerConfig → Outcome A × Session H → Type 0
  Fine config r = Inv r.1 × (r.1.config ≡ config)

  abbrev pub Safe : {A : Type 0} → M H A → Session H → Type 0
  Safe m s = Fine s.config (m s)

  pub if-Fine :
      {A : Type 0} {config : ServerConfig} (b : Bool) (x y : Outcome A × Session H)
      → (b ≡ true → Fine config x)
      → (b ≡ false → Fine config y)
      → Fine config (if b then x else y)
  if-Fine true x y h k = h refl
  if-Fine false x y h k = k refl

  pub quiet-Safe : {A : Type 0} (m : M H A) (s : Session H) → IsQuiet m → Inv s → Safe m s
  quiet-Safe m s q v = (Quiet-Inv (q s) v, (q s).same_config)

  pub bind-Safe :
      {A B : Type 0} (m : M H A) (f : A → M H B) (s : Session H)
      → Safe m s
      → ((a : A) → Safe (f a) (m s).1)
      → Safe (m >>= f) s
  bind-Safe {A} {B} m f s h k = go (m s).0
    where
      go :
          (o : Outcome A)
          → Inv (bind_outcome o (m s).1 f).1 × ((bind_outcome o (m s).1 f).1.config ≡ s.config)
      go (done a) = ((k a).0, (k a).1 ∙ h.1)
      go (stopped w) = h

  -- A quiet action first; what follows starts in the same state.
  pub then-Safe :
      {A B : Type 0} (m : M H A) (f : A → M H B) (s : Session H)
      → IsQuiet m
      → Inv s
      → ((a : A) (t : Session H) → Quiet s t → Inv t → Safe (f a) t)
      → Safe (m >>= f) s
  then-Safe m f s q v k =
      bind-Safe m f s (quiet-Safe m s q v) (λ a. k a (m s).1 (q s) (Quiet-Inv (q s) v))

  pub say-IsQuiet : {A : Type 0} (reply : Reply) (a : A) → IsQuiet {H = H} (send reply >> pure a)
  say-IsQuiet reply a =
      bind-IsQuiet (send reply) (λ _. pure a) (send-IsQuiet reply) (λ _ s. Quiet-refl s)

  pub say-Safe :
      {A : Type 0} (reply : Reply) (a : A) (s : Session H) → Inv s → Safe (send reply >> pure a) s
  say-Safe reply a s v = quiet-Safe (send reply >> pure a) s (say-IsQuiet reply a) v

  -- A reply, and the state that it announces.
  pub say_goto-Safe :
      (reply : Reply) (st : State) (s : Session H)
      → Inv s
      → InvOf s.config st s.tls_active s.recipients s.calls
      → Safe (send reply >> (goto st >> pure continue)) s
  say_goto-Safe reply st s v w =
      then-Safe (send reply) (λ _. goto st >> pure continue) s (send-IsQuiet reply) v
        (λ a t q u.
          (InvOf-path q.same_config refl q.same_tls q.same_recipients q.same_calls w, refl))

-- One more call that changes nothing of what the invariant counts.
pub call-InvOf :
    {config : ServerConfig} {state : State} {tls : Bool} {n : ℕ} {calls : List Call} (c : Call)
    → Permits config c calls
    → has_upgrade (c ∷ calls) ≡ has_upgrade calls
    → has_auth (c ∷ calls) ≡ has_auth calls
    → accepted (c ∷ calls) ≡ accepted calls
    → InvOf config state tls n calls
    → InvOf config state tls n (c ∷ calls)
call-InvOf c h p q r v = record {
  allowed = (h, v.allowed);
  counted = v.counted ∙ sym r;
  tls_known = v.tls_known ∙ sym p;
  encrypted = λ k e. p ∙ v.encrypted k e;
  authorized = λ k. ((λ e. p ∙ (v.authorized k).0 e), λ e. q ∙ (v.authorized k).1 e);
  has_recipient = v.has_recipient;
  early = v.early;
}
