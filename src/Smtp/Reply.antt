-- ===== src/Smtp/Reply.antt =====
-- src/smtp/reply.rs: reply formatting. A text of the source is UTF-8 here, and the loop of
-- `sanitize` goes over its bytes where the source goes over its characters: every byte of a
-- character outside ASCII lies outside ASCII too, so the same runs are folded.
pub mod Wire
use smtp_proxy_rs.Prelude.{
  ℕ, ◌-◌, ◌+◌, Bool, true, false, not, ◌&&◌, ◌||◌, List, [], ◌∷◌, ◌++◌, Option, none, some, Bytes,
  codes, is_empty, length, take, within, ltb, ◌==◌, if◌then◌else◌, decimal, trim_end, Result, ok,
  err,
}

abbrev pub rfc_max_client_reply_line : ℕ
rfc_max_client_reply_line = 512

-- less "250 " and "\r\n"
abbrev pub max_text : ℕ
max_text = rfc_max_client_reply_line - 4 - 2

pub data ReplyError : Type 0 where
  invalid_code : ℕ → ReplyError
  no_lines : ReplyError

abbrev pub is_printable : ℕ → Bool
is_printable c = c == b'\t' || within 0x20 0x7e c

-- the loop of `sanitize`; the flag is `in_run`
unfoldable pub fold_runs : Bool → Bytes → Bytes
fold_runs in_run [] = []
fold_runs in_run (c ∷ cs) =
    let rest = fold_runs (not (is_printable c)) cs in
    if is_printable c then c ∷ rest else if not in_run then b' ' ∷ rest else rest

unfoldable pub sanitize : Bytes → Bytes
unfolding fold_runs trim_end
sanitize text =
    let trimmed = trim_end (fold_runs false text) in
    if ltb max_text (length trimmed) then take (max_text - 3) trimmed ++ codes "..." else trimmed

-- one line of the reply
unfoldable pub format_line : ℕ → ℕ → Bytes → Bytes
format_line code sep line = decimal code ++ (sep ∷ (sanitize line ++ codes "\r\n"))

-- the loop over the lines
unfoldable pub format_lines : ℕ → List Bytes → Bytes
unfolding format_line
format_lines code [] = []
format_lines code (line ∷ []) = format_line code b' ' line
format_lines code (line ∷ more ∷ lines) =
    format_line code b'-' line ++ format_lines code (more ∷ lines)

unfoldable pub format_reply : ℕ → List Bytes → Result ReplyError Bytes
unfolding format_lines
format_reply code lines =
    if not (within 200 599 code)
    then err (invalid_code code)
    else if is_empty lines
    then err no_lines
    else ok (format_lines code lines)

pub record Reply : Type 0 where
  pub code : ℕ
  pub lines : List Bytes

unfoldable pub new : ℕ → Bytes → Reply
new code text = record { code = code; lines = text ∷ [] }

unfoldable pub multi : ℕ → List Bytes → Reply
multi code lines = record { code = code; lines = lines }

-- The wire form; `none` is the panic of `expect`.
unfoldable pub wire : Reply → Option Bytes
unfolding format_reply
wire r = elim (format_reply r.code r.lines) [ ok out ↦ some out | err _ ↦ none ]
