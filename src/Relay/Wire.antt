-- ===== src/Relay/Wire.antt =====
-- src/relay.rs: the connection to the upstream, and a reply read from it. What the network does is a
-- script: what each read brings, which writes fail and how, and what each TLS handshake makes of the
-- rest.
pub mod Replies
use smtp_proxy_rs.Prelude.{
  ℕ, zero, suc, ◌+◌, ◌-◌, ◌*◌, ◌/◌, Bool, true, false, not, ◌&&◌, ◌||◌, List, [], ◌∷◌, ◌++◌, Option,
  none, some, Bytes, codes, ◌==◌, ltb, leb, if◌then◌else◌, length, take, drop, all, glue,
  is_ascii_digit, is_empty, within, from_utf8, Result, ok, err,
}
use smtp_proxy_rs.Relay.{RelayError, io, timeout, rejected}
use smtp_proxy_rs.Server.Data.{write_chunk, cr, lf, crlf}

abbrev pub max_upstream_reply_line : ℕ
max_upstream_reply_line = 4096

abbrev pub max_reply_total : ℕ
max_reply_total = 65536

-- What a read brings: bytes (none: the upstream closed its side), an error, or nothing until the
-- inactivity timer fires, as when the script is at its end.
pub data Arrival : Type 0 where
  data_read : Bytes → Arrival
  read_failed : Bytes → Arrival
  silence : Arrival

-- How one step of a body write ends, which is raced against the reader: it is done, it fails, or the
-- reader has something or fails first.
pub data Race : Type 0 where
  pushed push_failed reply_ready reader_failed : Race

-- The TLS library's part of a handshake: it is fed what is still to be read, and yields the decrypted
-- stream, or fails.
abbrev pub TlsHandshake : Type 0
TlsHandshake = List Arrival → Result RelayError (List Arrival)

-- `sent` records what is handed to the transport, the last first, and whether it goes inside TLS.
pub record Wire : Type 0 where
  pub buffer : Bytes
  pub reads : List Arrival
  pub writes : List (Option RelayError)
  pub races : List Race
  pub handshakes : List TlsHandshake
  pub tls : Bool
  pub sent : List (Bool × Bytes)

-- How a step ends; `exhausted` is a model's loop that is out of fuel.
pub data Outcome (A : Type 0) : Type 0 where
  done : A → Outcome A
  failed : RelayError → Outcome A
  exhausted : Outcome A

abbrev pub R : Type 0 → Type 0
R A = Wire → Outcome A × Wire

abbrev pub bind_outcome : {A B : Type 0} → Outcome A → Wire → (A → R B) → Outcome B × Wire
bind_outcome (done a) w f = f a w
bind_outcome (failed e) w f = (failed e, w)
bind_outcome exhausted w f = (exhausted, w)

infixl 5 ◌>>=◌ ◌>>◌
abbrev pub ◌>>=◌ : {A B : Type 0} → R A → (A → R B) → R B
◌>>=◌ m f w = bind_outcome (m w).0 (m w).1 f

abbrev pub ◌>>◌ : {A B : Type 0} → R A → R B → R B
m >> k = m >>= λ _. k

abbrev pub pure : {A : Type 0} → A → R A
pure a w = (done a, w)

abbrev pub fail : {A : Type 0} → RelayError → R A
fail e w = (failed e, w)

-- The bytes up to an LF, and at most so many; with what is left, and whether the line is complete
-- or the budget spent.
unfoldable pub cut_line : ℕ → Bytes → Bytes × Bytes × Bool
cut_line zero bytes = ([], bytes, true)
cut_line (suc budget) [] = ([], [], false)
cut_line (suc budget) (c ∷ cs) =
    let (line, rest, complete) = cut_line budget cs in
    if c == lf then (c ∷ [], cs, true) else (c ∷ line, rest, complete)

-- What `read_line` comes to if the buffer does not complete the line: with what was read of it.
abbrev pub ReadLine : Type 0
ReadLine = Result RelayError Bytes × Bytes × List Arrival

-- `reader.take(budget).read_line(..)` before its check for UTF-8, under the timer
unfoldable pub read_bytes : ℕ → Bytes → Bytes → List Arrival → ReadLine
unfolding cut_line
read_bytes budget line buffer [] =
    let (more, rest, complete) = cut_line budget buffer in
    if complete then (ok (line ++ more), rest, []) else (err timeout, rest, [])
read_bytes budget line buffer (silence ∷ later) =
    let (more, rest, complete) = cut_line budget buffer in
    if complete then (ok (line ++ more), rest, silence ∷ later) else (err timeout, rest, later)
read_bytes budget line buffer (read_failed e ∷ later) =
    let (more, rest, complete) = cut_line budget buffer in
    if complete then (ok (line ++ more), rest, read_failed e ∷ later) else (err (io e), rest, later)
read_bytes budget line buffer (data_read bytes ∷ later) =
    let (more, rest, complete) = cut_line budget buffer in
    let again = read_bytes (budget - length more) (line ++ more) bytes later in
    if complete
    then (ok (line ++ more), rest, data_read bytes ∷ later)
    else if is_empty bytes
    then (ok (line ++ more), rest, later)
    else again

abbrev pub not_utf8 : Bytes
not_utf8 = codes "stream did not contain valid UTF-8"

-- The line is a `String`.
abbrev pub as_text : Result RelayError Bytes → Outcome Bytes
as_text (err e) = failed e
as_text (ok line) = elim (from_utf8 line) [ none ↦ failed (io not_utf8) | some text ↦ done text ]

unfoldable pub read_line : R Bytes
unfolding read_bytes from_utf8
read_line w =
    let (line, rest, reads) = read_bytes max_upstream_reply_line [] w.buffer w.reads in
    (as_text line, record w { buffer = rest; reads = reads })

pub record UpstreamReply : Type 0 where
  pub code : ℕ
  pub text : Bytes
  pub raw : Bytes

-- `trim_end_matches(['\r', '\n'])`
unfoldable pub trim_line : Bytes → Bytes
trim_line [] = []
trim_line (c ∷ cs) =
    let rest = trim_line cs in if is_empty rest && (c == cr || c == lf) then [] else c ∷ rest

-- `s.get(4..).unwrap_or("")`, which is none within a character
unfoldable pub text_of : Bytes → Bytes
text_of (a ∷ b ∷ c ∷ d ∷ e ∷ rest) = if within 0x80 0xbf e then [] else e ∷ rest
text_of _ = []

-- The code of a reply line, and whether it is the last of its reply.
unfoldable pub line_code : Bytes → Option (ℕ × Bool)
line_code (a ∷ b ∷ c ∷ rest) =
    if is_ascii_digit a && (is_ascii_digit b && is_ascii_digit c)
    then some (
      (a - b'0') * 100 + (b - b'0') * 10 + (c - b'0'),
      elim rest [ [] ↦ true | d ∷ _ ↦ d == b' ' ],
    )
    else none
line_code _ = none

-- `texts.join("\n")`
unfoldable pub join_texts : List Bytes → Bytes
join_texts [] = []
join_texts (text ∷ []) = text
join_texts (text ∷ more ∷ texts) = text ++ (lf ∷ join_texts (more ∷ texts))

unfoldable pub ends_with_lf : Bytes → Bool
ends_with_lf [] = false
ends_with_lf (c ∷ []) = c == lf
ends_with_lf (c ∷ d ∷ rest) = ends_with_lf (d ∷ rest)

-- what `read_reply` does with a line; `again` is the loop's next turn
unfoldable pub take_line :
    (Bytes → List Bytes → R UpstreamReply) → Bytes → List Bytes → Bytes → R UpstreamReply
unfolding ends_with_lf trim_line line_code text_of join_texts
take_line again raw texts line =
    let raw = raw ++ line in
    let trimmed = trim_line line in
    let texts = texts ++ text_of trimmed ∷ [] in
    if is_empty line
    then fail (io (codes "upstream closed the connection"))
    else if not (ends_with_lf line) && leb max_upstream_reply_line (length line)
    then fail (io (codes "upstream reply line exceeds 4096 bytes"))
    else if ltb max_reply_total (length raw)
    then fail (io (codes "upstream reply exceeds 65536 bytes"))
    else elim (line_code trimmed) [
      | none ↦ fail (io (codes "unparseable upstream reply: " ++ trimmed))
      | some (code, true) ↦ pure (record { code = code; text = join_texts texts; raw = raw })
      | some (code, false) ↦ again raw texts
    ]

unfoldable pub read_reply_loop : ℕ → Bytes → List Bytes → R UpstreamReply
unfolding read_line take_line
read_reply_loop zero raw texts w = (exhausted, w)
read_reply_loop (suc fuel) raw texts w =
    (read_line >>= take_line (read_reply_loop fuel) raw texts) w

-- Each line has a byte at least, so that the cap on the reply bounds the number of them.
unfoldable pub read_reply : R UpstreamReply
unfolding read_reply_loop
read_reply = read_reply_loop (suc max_reply_total + 1) [] []

-- `payload.chunks(WRITE_CHUNK)`, with so many bytes left of the piece at the front
unfoldable pub chunks_from : ℕ → Bytes → List Bytes
chunks_from left [] = []
chunks_from left (c ∷ cs) =
    let rest = chunks_from (if leb left 1 then write_chunk else left - 1) cs in
    if leb left 1 then (c ∷ []) ∷ rest else glue c rest

unfoldable pub chunks : Bytes → List Bytes
unfolding chunks_from
chunks payload = chunks_from write_chunk payload

-- how the next step of a write ends; it succeeds if the script names nothing
abbrev pub write_outcome : List (Option RelayError) → Wire → Outcome (Unit {0}) × Wire
write_outcome [] w = (done tt, w)
write_outcome (none ∷ later) w = (done tt, record w { writes = later })
write_outcome (some e ∷ later) w = (failed e, record w { writes = later })

-- `write_all` of a piece, which is recorded however it ends
unfoldable pub write_all : Bytes → R (Unit {0})
write_all piece w = write_outcome w.writes (record w { sent = (w.tls, piece) ∷ w.sent })

unfoldable pub flush : R (Unit {0})
flush w = write_outcome w.writes w

unfoldable pub write_pieces : List Bytes → R (Unit {0})
unfolding write_all flush
write_pieces [] w = (done tt, w)
write_pieces (piece ∷ pieces) w = (write_all piece >> flush >> write_pieces pieces) w

unfoldable pub write_chunks : Bytes → R (Unit {0})
unfolding write_pieces chunks
write_chunks payload = write_pieces (chunks payload)

unfoldable pub send_command : Bytes → R (Unit {0})
unfolding write_chunks
send_command line = write_chunks (line ++ crlf)

unfoldable pub require_class : ℕ → UpstreamReply → R UpstreamReply
require_class expect_class reply =
    if not (reply.code / 100 == expect_class)
    then fail (rejected reply.code reply.text)
    else pure reply

unfoldable pub command : Bytes → ℕ → R UpstreamReply
unfolding send_command read_reply require_class
command line expect_class = send_command line >> read_reply >>= require_class expect_class
