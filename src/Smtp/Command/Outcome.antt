-- ===== src/Smtp/Command/Outcome.antt =====
-- What src/smtp/command.rs makes of a line that a client sent: a refusal with a code of its own,
-- or a command whose fields cannot break out of a line.
use smtp_proxy_rs.Prelude.Text.Members.{
  All-drop, All-drop_while, All-strip_prefix, All-split_once, All-trim_start, split_once-contains,
  strip_crlf_lem,
}
use smtp_proxy_rs.Prelude.{
  ℕ, ◌≤◌, ◌≡◌, ◌≢◌, refl, ◌⊎◌, inl, inr, Bool, true, false, List, [], ◌∷◌, ◌++◌, Option, none, some,
  arith, Bytes, codes, Option-cases, Bool-cases, Result, ok, err, ◌>>=◌, ok_or, take_while,
  drop_while, is_ascii_alphabetic, to_ascii_uppercase, strip_crlf, contains, split_once,
  strip_prefix, is_empty, trim_start, drop, length, if◌then◌else◌, bytes_eq, All, all, to_upper,
  from_utf8,
}
use smtp_proxy_rs.Smtp.Params.{Param, parse_params}
use smtp_proxy_rs.Smtp.Params.Grammar.{IsParam, parse_params-IsParam}
use smtp_proxy_rs.Smtp.Command.Lines.{IsLine}
use smtp_proxy_rs.Smtp.Command.{
  Command, ehlo, helo, noop, quit, start_tls, data_cmd, rset, auth, mail, rcpt, vrfy, CommandError,
  PathError, arguments, parameters, parse_auth, parse_path, read_body, parse_address, has_keyword,
  parse_tail, parse_verb, read_args, parse_command, path_error, nonempty, no_arguments,
  domain_required, string_required, is_mechanism_char,
}

-- Neither CR nor LF.
abbrev pub IsClean : ℕ → Type 0
IsClean c = (c ≢ b'\r') × (c ≢ b'\n')

abbrev pub IsCleanArgs : Option Bytes → Type 0
IsCleanArgs none = Unit
IsCleanArgs (some a) = All IsClean a

-- An address of MAIL or RCPT has no line break and no closing bracket.
abbrev pub IsAddress : Bytes → Type 0
IsAddress a = All IsClean a × (contains b'>' a ≡ false)

abbrev pub IsSafe : Command → Type 0
IsSafe (ehlo domain) = All IsClean domain
IsSafe (helo domain) = All IsClean domain
IsSafe (vrfy string) = All IsClean string
IsSafe (auth mechanism initial) =
    (1 ≤ length mechanism)
    × (length mechanism ≤ 20)
    × (all is_mechanism_char mechanism ≡ true)
    × IsCleanArgs initial
IsSafe (mail from params) = IsAddress from × All IsParam params
IsSafe (rcpt to params) = IsAddress to × (to ≢ []) × All IsParam params
IsSafe _ = Unit

abbrev pub Outcome : Result CommandError Command → Type 0
Outcome (ok c) = IsSafe c
Outcome (err e) = (e.code ≡ 500) ⊎ ((e.code ≡ 501) ⊎ (e.code ≡ 502))

is_mechanism_char-to_upper :
    (c : ℕ) → is_mechanism_char c ≡ true → is_mechanism_char (to_upper c) ≡ true
unfolding to_upper
is_mechanism_char-to_upper c h = ground arith

upper_mechanism :
    (m : Bytes)
    → (length (to_ascii_uppercase m) ≡ length m)
      × (all is_mechanism_char m ≡ true → all is_mechanism_char (to_ascii_uppercase m) ≡ true)
unfolding to_ascii_uppercase
upper_mechanism [] = (refl, λ h. refl)
upper_mechanism (c ∷ m) =
    let ih = upper_mechanism m in
    (omega (arith, ih.0), λ h. ground (arith, ih.1, is_mechanism_char-to_upper c))

parse_auth-Outcome : (args : Option Bytes) → IsCleanArgs args → Outcome (parse_auth args)
unfolding parse_auth
parse_auth-Outcome none h = inr (inl refl)
parse_auth-Outcome (some args) h = elim (Option-cases (split_once b' ' args)) [
  | inl n ↦ ground (arith, upper_mechanism args)
  | inr (p, n) ↦ ground (arith, upper_mechanism p.0, All-split_once IsClean b' ' args p.0 p.1 n h)
]

abbrev PathOutcome : Bool → Result PathError (Bytes × List Param) → Type 0
PathOutcome allow_empty (ok r) = IsAddress r.0 × (allow_empty ≡ false → r.0 ≢ []) × All IsParam r.1
PathOutcome allow_empty (err e) = Unit

parse_tail-IsParam : (tail : Bytes) {ps : List Param} → parse_tail tail ≡ ok ps → All IsParam ps
unfolding parse_tail
parse_tail-IsParam [] {ps} e = ground arith
parse_tail-IsParam (c ∷ text) {ps} e = elim (Option-cases (parse_params text)) [
  | inl n ↦ ground arith
  | inr (qs, n) ↦ ground (arith, parse_params-IsParam text n)
]

Result-cases {ℓ κ} :
    {E : Type κ} {A : Type ℓ} (r : Result E A) → ((a : A) × (r ≡ ok a)) ⊎ ((e : E) × (r ≡ err e))
Result-cases (ok a) = inl (a, refl)
Result-cases (err e) = inr (e, refl)

is_empty-ne : (s : Bytes) → is_empty s ≡ false → s ≢ []
is_empty-ne [] e = cc
is_empty-ne (c ∷ s) e = λ h. cc

parse_address-PathOutcome :
    (allow_empty : Bool) (rest : Bytes)
    → All IsClean rest
    → PathOutcome allow_empty (parse_address allow_empty rest)
unfolding parse_address
parse_address-PathOutcome allow_empty rest h = elim (Option-cases (split_once b'>' rest)) [
  | inl n ↦ rw n tt
  | inr (p, n) ↦ elim (Result-cases (parse_tail p.1)) [
    | inl (ps, e) ↦ ground (
      arith,
      All-split_once IsClean b'>' rest p.0 p.1 n h,
      split_once-contains b'>' rest p.0 p.1 n,
      is_empty-ne p.0,
      parse_tail-IsParam p.1 e,
    )
    | inr (_, e) ↦ ground arith
  ]
]

parse_path-PathOutcome :
    (args : Option Bytes) (keyword : Bytes) (allow_empty : Bool)
    → IsCleanArgs args
    → PathOutcome allow_empty (parse_path args keyword allow_empty)
unfolding parse_path
parse_path-PathOutcome none keyword allow_empty h = tt
parse_path-PathOutcome (some args) keyword allow_empty h =
    let value = trim_start (drop (length keyword) args) in
    let trimmed =
      All-trim_start IsClean (drop (length keyword) args)
        (All-drop IsClean (length keyword) args h) in
    elim (Bool-cases (has_keyword args keyword)) [
      | inr e ↦ rw e tt
      | inl e ↦ elim (Option-cases (strip_prefix b'<' value)) [
        | inl n ↦ rw (e, n) tt
        | inr (rest, n) ↦
            rw (e, n)
              (parse_address-PathOutcome allow_empty rest
                (All-strip_prefix IsClean b'<' value n trimmed))
      ]
    ]

-- `Outcome` under a name that stays as it is written.
record Meets (r : Result CommandError Command) : Type 0 where
  outcome : Outcome r

-- Each arm of the `match` on the verb.
meets : (r : Result CommandError Command) → Outcome r → Meets r
meets r h = record { outcome = h }

safe : (c : Command) → IsSafe c → Meets (ok c)
safe c h = record { outcome = h }

arm :
    {x y : Result CommandError Command} (b : Bool) → Meets x → Meets y → Meets (if b then x else y)
arm true h k = h
arm false h k = k

required_arm :
    (args : Option Bytes) (e : CommandError) (c : Bytes → Command)
    → IsCleanArgs args
    → Outcome (err e)
    → ((a : Bytes) → All IsClean a → IsSafe (c a))
    → Meets (ok_or (nonempty args) e >>= λ a. ok (c a))
required_arm none e c h k f = record { outcome = k }
required_arm (some []) e c h k f = record { outcome = k }
required_arm (some (x ∷ a)) e c h k f = record { outcome = f (x ∷ a) h }

no_arguments_arm : (args : Option Bytes) (c : Command) → IsSafe c → Meets (no_arguments args c)
no_arguments_arm none c h = record { outcome = h }
no_arguments_arm (some []) c h = record { outcome = h }
no_arguments_arm (some (x ∷ a)) c h = record { outcome = inr (inl refl) }

path_arm :
    (x y : Bytes) (allow_empty : Bool) (c : Bytes → List Param → Command)
    (r : Result PathError (Bytes × List Param))
    → PathOutcome allow_empty r
    → ((a : Bytes) (ps : List Param)
        → IsAddress a
        → (allow_empty ≡ false → a ≢ [])
        → All IsParam ps
        → IsSafe (c a ps))
    → Meets (path_error x y r >>= λ (a, ps). ok (c a ps))
path_arm x y allow_empty c (ok r) h f = record { outcome = f r.0 r.1 h.0 h.1 h.2 }
path_arm x y allow_empty c (err arguments) h f = record { outcome = inr (inl refl) }
path_arm x y allow_empty c (err parameters) h f = record { outcome = inr (inl refl) }

parse_verb-Meets :
    (verb : Bytes) (args : Option Bytes) → IsCleanArgs args → Meets (parse_verb verb args)
unfolding parse_verb
parse_verb-Meets verb args h =
    let is = λ (s : Bytes). bytes_eq verb s in
    arm (is (codes "EHLO")) (required_arm args domain_required ehlo h (inr (inl refl)) (λ a k. k)) (
      arm (is (codes "HELO")) (required_arm args domain_required helo h (inr (inl refl)) (λ a k. k))
        (arm (is (codes "NOOP")) (safe noop tt) (
          arm (is (codes "QUIT")) (no_arguments_arm args quit tt) (
            arm (is (codes "STARTTLS")) (no_arguments_arm args start_tls tt) (
              arm (is (codes "DATA")) (no_arguments_arm args data_cmd tt) (
                arm (is (codes "RSET")) (no_arguments_arm args rset tt) (
                  arm (is (codes "AUTH")) (meets (parse_auth args) (parse_auth-Outcome args h)) (
                    arm (is (codes "MAIL"))
                      (path_arm (codes "invalid MAIL arguments") (codes "invalid MAIL parameters")
                        true mail (parse_path args (codes "FROM:") true)
                        (parse_path-PathOutcome args (codes "FROM:") true h)
                        (λ a ps k ne l. (k, l)))
                      (arm (is (codes "RCPT"))
                        (path_arm (codes "invalid RCPT arguments") (codes "invalid RCPT parameters")
                          false rcpt (parse_path args (codes "TO:") false)
                          (parse_path-PathOutcome args (codes "TO:") false h)
                          (λ a ps k ne l. (k, ne refl, l)))
                        (arm (is (codes "VRFY"))
                          (required_arm args string_required vrfy h (inr (inl refl)) (λ a k. k))
                          (meets (err (record { code = 502; text = codes "unknown command" }))
                            (inr (inr refl)))))))))))))

read_args-IsCleanArgs :
    (bytes : Bytes) {args : Option Bytes}
    → All IsClean bytes
    → read_args bytes ≡ ok args
    → IsCleanArgs args
unfolding read_args from_utf8
read_args-IsCleanArgs [] {args} h e = ground arith
read_args-IsCleanArgs (c ∷ rest) {args} h e = ground arith

read_args-code : (bytes : Bytes) {e : CommandError} → read_args bytes ≡ err e → e.code ≡ 500
unfolding read_args from_utf8
read_args-code [] {e} h = cc
read_args-code (c ∷ rest) {e} h = ground arith

IsLine-body :
    (body : Bytes)
    → IsLine (body ++ b'\r' ∷ b'\n' ∷ [])
    → contains b'\r' body ≡ false
    → All IsClean body
unfolding contains
IsLine-body [] h k = tt
IsLine-body (c ∷ []) h k = ground arith
IsLine-body (c ∷ d ∷ body) h k = ground (arith, IsLine-body (d ∷ body) h.1)

verb_and_args : (body : Bytes) → All IsClean body → Outcome (read_body body)
unfolding read_body
verb_and_args body clean = elim (Bool-cases (is_empty (take_while is_ascii_alphabetic body))) [
  | inl e ↦ rw e (inl refl)
  | inr e ↦ elim (Result-cases (read_args (drop_while is_ascii_alphabetic body))) [
    | inl (args, a) ↦
        rw (e, a)
          (parse_verb-Meets (to_ascii_uppercase (take_while is_ascii_alphabetic body)) args (
            read_args-IsCleanArgs (drop_while is_ascii_alphabetic body)
              (All-drop_while IsClean is_ascii_alphabetic body clean) a)).outcome
    | inr (x, a) ↦ rw (e, a) (inl (read_args-code (drop_while is_ascii_alphabetic body) a))
  ]
]

-- Every complete line, whose one LF is its last byte, comes to one of two. It is refused with 500,
-- 501 or 502;
-- or it is a command in which no domain, address, string or initial response holds a CR or an
-- LF, an address holds no '>' either, that of RCPT is not empty, a mechanism has 1 to 20
-- characters of its alphabet, and every parameter is well formed.
pub parse_command-Outcome : (line : Bytes) → IsLine line → Outcome (parse_command line)
unfolding parse_command
parse_command-Outcome line h = elim (Option-cases (strip_crlf line)) [
  | inl n ↦ rw n (inl refl)
  | inr (body, n) ↦ elim (Bool-cases (contains b'\r' body)) [
    | inl r ↦ rw (n, r) (inl refl)
    | inr r ↦
        rw (n, r) (verb_and_args body (IsLine-body body (rw (strip_crlf_lem line body n) at h) r))
  ]
]
