-- ===== src/Tests/Smtp.antt =====
-- src/smtp: the parser, the reply formatter and the parameter lists on concrete inputs.
use smtp_proxy_rs.Prelude.{
  ℕ, ◌≤◌, ◌<◌, ◌≡◌, ◌≢◌, ◌↔◌, ◌⊎◌, refl, List, [], ◌∷◌, ◌++◌, Option, none, some, arith, Bytes,
  codes, All, length, err, ok,
}
use smtp_proxy_rs.Smtp.Command.{take_line, parse_command, mail}
use smtp_proxy_rs.Smtp.Command.Lines.{IsLine, take_line-IsLine, take_line-none}
use smtp_proxy_rs.Smtp.Command.Outcome
use smtp_proxy_rs.Smtp.Command.Outcome.{parse_command-Outcome}
use smtp_proxy_rs.Smtp.Dsn.{DsnCommand, pick_check, ret, validate_dsn}
use smtp_proxy_rs.Smtp.Dsn.Accepted.{occurrences, Passes, validate_dsn_lem}
use smtp_proxy_rs.Smtp.Params.{Param, parse_params}
use smtp_proxy_rs.Smtp.Reply.{Reply, sanitize, max_text, wire}
use smtp_proxy_rs.Smtp.Reply.Wire.{IsPrintable, count_lf, longest, sanitize_lem, wire_lines}

abbrev mail_line : Bytes
mail_line = codes "mail from:<a@b> SIZE=12\r\n"

mail_line-IsLine : IsLine mail_line
mail_line-IsLine = omega arith

parse_mail :
    parse_command mail_line
    ≡ ok (mail (codes "a@b") (record { keyword = codes "SIZE"; value = some (codes "12") } ∷ []))
unfolding parse_command smtp_proxy_rs.Prelude.strip_crlf smtp_proxy_rs.Prelude.contains
    smtp_proxy_rs.Prelude.take_while smtp_proxy_rs.Prelude.drop_while
    smtp_proxy_rs.Prelude.from_utf8 smtp_proxy_rs.Prelude.bytes_eq
    smtp_proxy_rs.Prelude.to_ascii_uppercase smtp_proxy_rs.Prelude.to_upper
    smtp_proxy_rs.Prelude.eq_ignore_ascii_case smtp_proxy_rs.Prelude.strip_prefix
    smtp_proxy_rs.Prelude.trim_start smtp_proxy_rs.Prelude.split_once parse_params
    smtp_proxy_rs.Prelude.split_ascii_whitespace
parse_mail = refl

parse_command-Outcome_example : Outcome.Outcome (parse_command mail_line)
parse_command-Outcome_example = parse_command-Outcome mail_line mail_line-IsLine

abbrev pipelined : Bytes
pipelined = codes "RSET\r\nQU"

take_pipelined : take_line pipelined ≡ some (codes "RSET\r\n", codes "QU")
unfolding take_line
take_pipelined = refl

take_line-IsLine_example : (codes "RSET\r\n" ++ codes "QU" ≡ pipelined) × IsLine (codes "RSET\r\n")
take_line-IsLine_example = take_line-IsLine pipelined (codes "RSET\r\n") (codes "QU") take_pipelined

take_line-none_example : (take_line (codes "QU") ≡ none) ↔ All (λ c. c ≢ b'\n') (codes "QU")
take_line-none_example = take_line-none (codes "QU")

abbrev size_and_body : List Param
size_and_body =
    record { keyword = codes "SIZE"; value = some (codes "100") }
    ∷ record { keyword = codes "SMTPUTF8"; value = none }
    ∷ []

parse_size_and_body : parse_params (codes "SIZE=100  SMTPUTF8") ≡ some size_and_body
unfolding parse_params smtp_proxy_rs.Prelude.split_ascii_whitespace smtp_proxy_rs.Prelude.split_once
parse_size_and_body = refl

abbrev forged : Bytes
forged = codes "no\r\n250 OK"

sanitize-forged : sanitize forged ≡ codes "no 250 OK"
unfolding sanitize
sanitize-forged = refl

sanitize_lem_example : IsPrintable (sanitize forged) × (length (sanitize forged) ≤ max_text)
sanitize_lem_example = sanitize_lem forged

abbrev two_lines : Reply
two_lines = record { code = 550; lines = forged ∷ codes "go" ∷ [] }

abbrev two_lines_wire : Bytes
two_lines_wire = codes "550-no 250 OK\r\n550 go\r\n"

wire-two_lines : wire two_lines ≡ some two_lines_wire
unfolding wire smtp_proxy_rs.Prelude.decimal sanitize
wire-two_lines = refl

wire_lines_example :
    (count_lf two_lines_wire ≡ length two_lines.lines) × (longest 0 two_lines_wire ≤ 512)
wire_lines_example = wire_lines two_lines {out = two_lines_wire} wire-two_lines

abbrev full_once : List Param
full_once = record { keyword = codes "Ret"; value = some (codes "full") } ∷ size_and_body

full_once_accepted : validate_dsn full_once DsnCommand.mail ≡ ok tt
unfolding validate_dsn smtp_proxy_rs.Prelude.to_ascii_uppercase smtp_proxy_rs.Prelude.bytes_eq
    smtp_proxy_rs.Prelude.eq_ignore_ascii_case smtp_proxy_rs.Prelude.to_upper
full_once_accepted = refl

ret_picked : pick_check DsnCommand.mail (codes "RET") ≡ some ret
unfolding pick_check smtp_proxy_rs.Prelude.bytes_eq
ret_picked = refl

validate_dsn_lem_example :
    (occurrences (codes "RET") full_once ≤ 1) × All (Passes (codes "RET") ret) full_once
validate_dsn_lem_example =
    validate_dsn_lem full_once DsnCommand.mail (codes "RET") ret full_once_accepted ret_picked
