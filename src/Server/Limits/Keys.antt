-- ===== src/Server/Limits/Keys.antt =====
-- src/server/listener.rs, `limit_key`: which addresses share a limit.
use smtp_proxy_rs.Prelude.{◌≡◌, ◌↔◌, true, [], ◌∷◌, arith, Bytes, bytes_eq}
use smtp_proxy_rs.Server.Limits.{IpAddr, v4, v6, ip_eq}

pub bytes_eq_iff : (a b : Bytes) → (bytes_eq a b ≡ true) ↔ (a ≡ b)
unfolding bytes_eq
bytes_eq_iff [] [] = ground arith
bytes_eq_iff [] (y ∷ b) = ground arith
bytes_eq_iff (x ∷ a) [] = ground arith
bytes_eq_iff (x ∷ a) (y ∷ b) = ground (arith, bytes_eq_iff a b)

pub ip_eq_iff : (a b : IpAddr) → (ip_eq a b ≡ true) ↔ (a ≡ b)
unfolding ip_eq
ip_eq_iff (v4 a) (v4 b) = ground (arith, bytes_eq_iff a b)
ip_eq_iff (v6 a) (v6 b) = ground (arith, bytes_eq_iff a b)
ip_eq_iff (v4 a) (v6 b) = ground arith
ip_eq_iff (v6 a) (v4 b) = ground arith
