-- ===== src/Smtp/Command.antt =====
-- src/smtp/command.rs: one SMTP command line -> Command. The verb is letters only, the argument is
-- separated by exactly one space, and the line must end in CRLF.
pub mod Outcome
pub mod Lines
use smtp_proxy_rs.Prelude.{
  ℕ, suc, Bool, true, false, not, ◌&&◌, ◌||◌, List, [], ◌∷◌, Option, none, some, Bytes, codes, all,
  is_empty, length, take, drop, leb, ◌==◌, within, if◌then◌else◌, is_ascii_alphabetic,
  is_ascii_alphanumeric, to_ascii_uppercase, bytes_eq, eq_ignore_ascii_case, contains, split_once,
  strip_prefix, take_while, drop_while, strip_crlf, from_utf8, trim_start, Result, ok, err, ◌>>=◌,
  ok_or,
}
use smtp_proxy_rs.Smtp.Params.{Param, parse_params}

pub data Command : Type 0 where
  ehlo : Bytes → Command
  helo : Bytes → Command
  noop quit start_tls data_cmd rset : Command
  auth : Bytes → Option Bytes → Command
  mail : Bytes → List Param → Command
  rcpt : Bytes → List Param → Command
  vrfy : Bytes → Command

pub record CommandError : Type 0 where
  pub code : ℕ
  pub text : Bytes

-- Removes the first line, terminator included: that line and what is left of the buffer.
unfoldable pub take_line : Bytes → Option (Bytes × Bytes)
take_line [] = none
take_line (c ∷ cs) =
    let rest = take_line cs in
    if c == b'\n'
    then some (c ∷ [], cs)
    else elim rest [ none ↦ none | some (line, buf) ↦ some (c ∷ line, buf) ]

abbrev error {ℓ} : {A : Type ℓ} → ℕ → Bytes → Result CommandError A
error code text = err (record { code = code; text = text })

abbrev malformed : CommandError
malformed = record { code = 500; text = codes "malformed command" }

-- `args.split_once(' ')`, or all of it and nothing behind
unfoldable pub split_mechanism : Bytes → Bytes × Option Bytes
split_mechanism args = elim (split_once b' ' args) [
  | some (m, rest) ↦ (m, some rest)
  | none ↦ (args, none)
]

-- `filter(|s| !s.is_empty())`
abbrev pub nonempty : Option Bytes → Option Bytes
nonempty none = none
nonempty (some s) = if is_empty s then none else some s

abbrev pub is_mechanism_char : ℕ → Bool
is_mechanism_char b = is_ascii_alphanumeric b || (b == b'-' || b == b'_')

unfoldable pub parse_auth : Option Bytes → Result CommandError Command
unfolding split_mechanism
parse_auth none = error 501 (codes "invalid AUTH arguments")
parse_auth (some args) =
    let (mechanism, initial) = split_mechanism args in
    let ok_len = within 1 20 (length mechanism) in
    let ok_chars = all is_mechanism_char mechanism in
    if not ok_len || not ok_chars
    then error 501 (codes "invalid AUTH arguments")
    else ok (auth (to_ascii_uppercase mechanism) (nonempty initial))

pub data PathError : Type 0 where
  arguments parameters : PathError

-- `args.as_bytes().get(..keyword.len())` is there and is the keyword, in any case.
unfoldable pub has_keyword : Bytes → Bytes → Bool
has_keyword args keyword =
    leb (length keyword) (length args) && eq_ignore_ascii_case (take (length keyword) args) keyword

-- what stands behind the closing bracket
unfoldable pub parse_tail : Bytes → Result PathError (List Param)
parse_tail [] = ok []
parse_tail (c ∷ param_text) =
    if c == b' '
    then (if is_empty param_text then ok [] else ok_or (parse_params param_text) parameters)
    else err arguments

-- from behind the opening bracket
unfoldable pub parse_address : Bool → Bytes → Result PathError (Bytes × List Param)
unfolding parse_tail
parse_address allow_empty rest = do
  (address, tail) ← ok_or (split_once b'>' rest) arguments
  if is_empty address && not allow_empty
      then err arguments
      else (parse_tail tail >>= λ params. ok (address, params))

unfoldable pub parse_path : Option Bytes → Bytes → Bool → Result PathError (Bytes × List Param)
unfolding has_keyword parse_address
parse_path none keyword allow_empty = err arguments
parse_path (some args) keyword allow_empty =
    if not (has_keyword args keyword)
    then err arguments
    else (ok_or (strip_prefix b'<' (trim_start (drop (length keyword) args))) arguments >>= λ rest.
        parse_address allow_empty rest)

-- `map_err` over the two kinds
abbrev path_error {ℓ} : {A : Type ℓ} → Bytes → Bytes → Result PathError A → Result CommandError A
path_error args params (ok a) = ok a
path_error args params (err arguments) = error 501 args
path_error args params (err parameters) = error 501 params

-- the `match &body[verb_len..]`
unfoldable pub read_args : Bytes → Result CommandError (Option Bytes)
read_args [] = ok none
read_args (c ∷ rest) =
    if c == b' '
    then (ok_or (from_utf8 rest) malformed >>= λ args. ok (some args))
    else err malformed

-- `args.is_some_and(|a| !a.is_empty())`
abbrev has_arguments : Option Bytes → Bool
has_arguments none = false
has_arguments (some a) = not (is_empty a)

abbrev no_arguments : Option Bytes → Command → Result CommandError Command
no_arguments args c = if has_arguments args then error 501 (codes "no arguments allowed") else ok c

abbrev domain_required : CommandError
domain_required = record { code = 501; text = codes "domain required" }

abbrev string_required : CommandError
string_required = record { code = 501; text = codes "string required" }

-- the `match verb.as_str()`
unfoldable pub parse_verb : Bytes → Option Bytes → Result CommandError Command
unfolding parse_auth parse_path
parse_verb verb args =
    if bytes_eq verb (codes "EHLO")
    then (ok_or (nonempty args) domain_required >>= λ domain. ok (ehlo domain))
    else if bytes_eq verb (codes "HELO")
    then (ok_or (nonempty args) domain_required >>= λ domain. ok (helo domain))
    else if bytes_eq verb (codes "NOOP")
    then ok noop
    else if bytes_eq verb (codes "QUIT")
    then no_arguments args quit
    else if bytes_eq verb (codes "STARTTLS")
    then no_arguments args start_tls
    else if bytes_eq verb (codes "DATA")
    then no_arguments args data_cmd
    else if bytes_eq verb (codes "RSET")
    then no_arguments args rset
    else if bytes_eq verb (codes "AUTH")
    then parse_auth args
    else if bytes_eq verb (codes "MAIL")
    then (path_error (codes "invalid MAIL arguments") (codes "invalid MAIL parameters")
          (parse_path args (codes "FROM:") true)
        >>= λ (from, params). ok (mail from params))
    else if bytes_eq verb (codes "RCPT")
    then (path_error (codes "invalid RCPT arguments") (codes "invalid RCPT parameters")
          (parse_path args (codes "TO:") false)
        >>= λ (to, params). ok (rcpt to params))
    else if bytes_eq verb (codes "VRFY")
    then (ok_or (nonempty args) string_required >>= λ string. ok (vrfy string))
    else error 502 (codes "unknown command")

-- from the verb on
unfoldable pub read_body : Bytes → Result CommandError Command
unfolding read_args parse_verb
read_body body =
    let verb = take_while is_ascii_alphabetic body in
    if is_empty verb
    then err malformed
    else (read_args (drop_while is_ascii_alphabetic body) >>= λ args.
        parse_verb (to_ascii_uppercase verb) args)

unfoldable pub parse_command : Bytes → Result CommandError Command
unfolding read_body
parse_command line = do
  body ← ok_or (strip_crlf line) malformed
  if contains b'\r' body then err malformed else read_body body
