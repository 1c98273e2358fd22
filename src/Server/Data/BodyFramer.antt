-- ===== src/Server/Data/BodyFramer.antt =====
-- src/server/data.rs, `BodyFramer`: passes body lines on verbatim but for their endings, which
-- become CRLF, and stages them in writes of `write_chunk` bytes.
pub mod Stream
pub mod Smuggling
use smtp_proxy_rs.Prelude.{
  ℕ, Bool, true, false, ◌&&◌, [], ◌∷◌, ◌++◌, Bytes, length, leb, ◌==◌, if◌then◌else◌,
}
use smtp_proxy_rs.Server.Data.{write_chunk, cr, lf, crlf, is_terminator}

pub data BodyPiece : Type 0 where
  pending : BodyPiece
  chunk : Bytes → BodyPiece
  terminator : BodyPiece

pub record BodyFramer : Type 0 where
  pub out : Bytes
  pub at_line_start : Bool
  pub held_cr : Bool

unfoldable pub new : BodyFramer
new = record { out = []; at_line_start = true; held_cr = false }

-- The `while` loop of `append` over what is left of the bytes: the bytes that it stages, and
-- whether a CR is held at the end.
unfoldable pub append_loop : Bytes → Bytes → Bytes × Bool
append_loop out [] = (out, false)
append_loop out (c ∷ []) =
    if c == cr
    then (out, true)
    else if c == lf
    then (out ++ crlf, false)
    else (out ++ c ∷ [], false)
append_loop out (c ∷ d ∷ rest) = elim (c == cr && d == lf) [
  | true ↦ append_loop (out ++ crlf) rest
  | false ↦ append_loop (out ++ (if c == lf then crlf else c ∷ [])) (d ∷ rest)
]

unfoldable pub starts_with_lf : Bytes → Bool
starts_with_lf [] = false
starts_with_lf (c ∷ _) = c == lf

unfoldable pub tail : Bytes → Bytes
tail [] = []
tail (_ ∷ rest) = rest

unfoldable pub append : BodyFramer → Bytes → BodyFramer
unfolding append_loop starts_with_lf tail
append f bytes =
    let (out, held) =
      if f.held_cr
      then (if starts_with_lf bytes
          then append_loop (f.out ++ crlf) (tail bytes)
          else append_loop (f.out ++ cr ∷ []) bytes)
      else append_loop f.out bytes in
    record f { out = out; held_cr = held }

unfoldable pub piece : BodyFramer → BodyFramer × BodyPiece
piece f =
    if leb write_chunk (length f.out) then (record f { out = [] }, chunk f.out) else (f, pending)

unfoldable pub push : BodyFramer → Bytes → BodyFramer × BodyPiece
unfolding append piece
push f line =
    if f.at_line_start && is_terminator line
    then (f, terminator)
    else piece (record (append f line) { at_line_start = true })

unfoldable pub push_partial : BodyFramer → Bytes → BodyFramer × BodyPiece
unfolding append piece
push_partial f bytes = piece (record (append f bytes) { at_line_start = false })

unfoldable pub flush : BodyFramer → BodyFramer × Bytes
flush f = (record f { out = [] }, f.out)
