-- ===== src/Server/Session/Security.antt =====
-- What src/server/session.rs asks of its handler, and in which order: the invariant of a session,
-- which the children show every command to keep.
pub mod Data
pub mod Message
pub mod Safe
pub mod Injection
pub mod Authentication
pub mod Commands
pub mod Dispatch
pub mod Serve
use smtp_proxy_rs.Prelude.{
  ℕ, zero, suc, ◌+◌, ◌≤◌, ◌<◌, ◌≡◌, refl, Bool, true, false, ◌||◌, List, [], ◌∷◌, arith,
}
use smtp_proxy_rs.Server.{ServerConfig}
use smtp_proxy_rs.Server.Session.{
  State, want_start_tls, want_mail, want_rcpt, want_data, rank, Call, upgraded, asked_auth,
  authenticated, asked_mail, asked_rcpt, recipient, opened, reset, Session, Outcome, done, stopped,
  M, ◌>>=◌, bind_outcome,
}
use smtp_proxy_rs.Server.Session.Quiet.{Quiet, IsQuiet}

-- Of calls, the last first: whether TLS has been set up, and whether an AUTH has been accepted.
abbrev pub has_upgrade : List Call → Bool
has_upgrade [] = false
has_upgrade (upgraded ∷ calls) = true
has_upgrade (_ ∷ calls) = has_upgrade calls

abbrev pub has_auth : List Call → Bool
has_auth [] = false
has_auth (authenticated ∷ calls) = true
has_auth (_ ∷ calls) = has_auth calls

-- The recipients that have been accepted since the last reset.
abbrev pub accepted : List Call → ℕ
accepted [] = 0
accepted (reset ∷ calls) = 0
accepted (recipient _ ∷ calls) = suc (accepted calls)
accepted (_ ∷ calls) = accepted calls

-- TLS first, where it is required; then AUTH, where it is required.
abbrev pub IsEncrypted : ServerConfig → List Call → Type 0
IsEncrypted config calls = config.require_starttls ≡ true → has_upgrade calls ≡ true

abbrev pub IsAuthenticated : ServerConfig → List Call → Type 0
IsAuthenticated config calls =
    IsEncrypted config calls × (config.require_auth ≡ true → has_auth calls ≡ true)

-- What may be asked of the handler after the calls that came before.
abbrev pub Permits : ServerConfig → Call → List Call → Type 0
Permits config asked_auth before = IsEncrypted config before
Permits config (asked_mail from) before = IsAuthenticated config before
Permits config (asked_rcpt to) before = IsAuthenticated config before
Permits config (recipient to) before =
    IsAuthenticated config before
    × (0 < config.max_recipients → accepted before < config.max_recipients)
Permits config (opened headers) before = IsAuthenticated config before × (0 < accepted before)
Permits config upgraded before = has_upgrade before ≡ false
Permits config _ before = Unit

abbrev pub Allowed : ServerConfig → List Call → Type 0
Allowed config [] = Unit
Allowed config (c ∷ before) = Permits config c before × Allowed config before

pub record InvOf (config : ServerConfig) (state : State) (tls : Bool) (n : ℕ) (calls : List Call)
    : Type 0 where
  pub allowed : Allowed config calls
  pub counted : n ≡ accepted calls
  pub tls_known : tls ≡ has_upgrade calls
  pub encrypted : 2 ≤ rank state → IsEncrypted config calls
  pub authorized : 3 ≤ rank state → IsAuthenticated config calls
  pub has_recipient : state ≡ want_data → 0 < n
  pub early : state ≡ want_start_tls → tls ≡ false

abbrev pub Inv : {H : Type 0} → Session H → Type 0
Inv s = InvOf s.config s.state s.tls_active s.recipients s.calls

pub InvOf-path :
    {config config' : ServerConfig} {state state' : State} {tls tls' : Bool} {n n' : ℕ}
    {calls calls' : List Call}
    → config' ≡ config
    → state' ≡ state
    → tls' ≡ tls
    → n' ≡ n
    → calls' ≡ calls
    → InvOf config state tls n calls
    → InvOf config' state' tls' n' calls'
InvOf-path p q r e u v = rw (p, q, r, e, u) v

module _ {H : Type 0} where
  pub Quiet-Inv : {s t : Session H} → Quiet s t → Inv s → Inv t
  Quiet-Inv q v = InvOf-path q.same_config q.same_state q.same_tls q.same_recipients q.same_calls v
