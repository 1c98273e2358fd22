-- ===== src/Relay/Codes.antt =====
-- The codes of src/relay.rs that a client is given for what the upstream did.
use smtp_proxy_rs.Prelude.{ℕ, ◌≤◌, ◌≡◌, refl, arith, Bytes, [], ◌∷◌, map, within, if◌then◌else◌}
use smtp_proxy_rs.Relay.{
  RelayError, rejected, timeout, tls, no_start_tls, address, dropped, client_code, verdict_replied,
  into_relay_error,
}

-- The code that a client is told of a reply that the upstream rejected with.
abbrev pub told : ℕ → ℕ
told code = if within 400 599 code then code else 451

-- Whatever went wrong, the client is given a code of a refusal, 400 to 599. Of an upstream's reply,
-- whether it ends the body or a command, that is the reply's own code if it is one of a refusal, and
-- 451 if it is not; and through the verdict a refusal keeps its text too. It is 451 for an upstream that
-- was lost, a timeout and TLS that fails or is not offered, and 550 for an address.
pub client_code_range :
    (e : RelayError) (code : ℕ) (text step : Bytes)
    → (400 ≤ client_code e)
      × (client_code e ≤ 599)
      × (client_code (into_relay_error (verdict_replied code text) step) ≡ told code)
      × (client_code (rejected code text) ≡ told code)
      × (400 ≤ code
          → code ≤ 599
          → into_relay_error (verdict_replied code text) step ≡ rejected code text)
      × (map client_code
            (into_relay_error dropped step ∷ timeout ∷ tls text ∷ no_start_tls ∷ address text ∷ [])
          ≡ 451 ∷ 451 ∷ 451 ∷ 451 ∷ 550 ∷ [])
unfolding client_code into_relay_error verdict_replied
client_code_range e code text step =
    (ground arith, ground arith, ground arith, ground arith, (λ lo hi. ground arith), refl)
