-- ===== src/Prelude/Decimal.antt =====
-- `Display` of an unsigned integer: its decimal digits.
use Prim.Native.Nat.{ℕ, zero, suc, ◌+◌, ◌/◌, ◌%◌}
use mathlib.Core.Bool.{true, false}
use mathlib.Core.List.{[], ◌∷◌}
use smtp_proxy_rs.Prelude.Tests.{ltb}
use smtp_proxy_rs.Prelude.Text.{Bytes}

-- The digits of `n` in front of those that are there; the fuel bounds their number.
unfoldable pub decimal_from : ℕ → ℕ → Bytes → Bytes
decimal_from zero n digits = digits
decimal_from (suc fuel) n digits = elim (ltb n 10) [
  | true ↦ (n + b'0') ∷ digits
  | false ↦ decimal_from fuel (n / 10) ((n % 10 + b'0') ∷ digits)
]

-- A number has at most as many digits as its value and one.
unfoldable pub decimal : ℕ → Bytes
unfolding decimal_from
decimal n = decimal_from (suc n) n []
