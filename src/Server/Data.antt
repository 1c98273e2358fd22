-- ===== src/Server/Data.antt =====
-- src/server/data.rs: the two halves of a DATA payload, and the line tests that they share.
pub mod HeaderCollector
pub mod BodyFramer
use smtp_proxy_rs.Prelude.{ℕ, Bool, ◌||◌, [], ◌∷◌, Bytes, bytes_eq}

abbrev pub write_chunk : ℕ
write_chunk = 65536

abbrev pub cr : ℕ
cr = 13

abbrev pub lf : ℕ
lf = 10

abbrev pub crlf : Bytes
crlf = cr ∷ lf ∷ []

unfoldable pub is_empty_line : Bytes → Bool
unfolding bytes_eq
is_empty_line line = bytes_eq line crlf || bytes_eq line (lf ∷ [])

unfoldable pub is_terminator : Bytes → Bool
unfolding bytes_eq
is_terminator line = bytes_eq line (b'.' ∷ crlf) || bytes_eq line (b'.' ∷ lf ∷ [])
