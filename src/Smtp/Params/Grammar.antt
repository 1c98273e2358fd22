-- ===== src/Smtp/Params/Grammar.antt =====
-- What src/smtp/params.rs accepts.
use smtp_proxy_rs.Prelude.{
  ◌≡◌, inl, inr, true, List, [], ◌∷◌, some, arith, Bytes, All, Option-cases, split_ascii_whitespace,
}
use smtp_proxy_rs.Smtp.Params.{Param, is_keyword, is_value, parse_words, parse_params}

-- A keyword of letters, digits and dashes that does not begin with a dash, and a value, if there
-- is one, of at least one printable character, none of them '='.
abbrev pub IsParam : Param → Type 0
IsParam p = (is_keyword p.keyword ≡ true) × (is_value p.value ≡ true)

parse_words-IsParam :
    (words : List Bytes) {ps : List Param} → parse_words words ≡ some ps → All IsParam ps
unfolding parse_words
parse_words-IsParam [] {ps} e = ground arith
parse_words-IsParam (w ∷ words) {ps} e = elim (Option-cases (parse_words words)) [
  | inl n ↦ ground arith
  | inr (qs, n) ↦ ground (arith, parse_words-IsParam words {ps = qs} n)
]

-- A list of parameters is accepted only if each of them is well formed.
pub parse_params-IsParam :
    (text : Bytes) {ps : List Param} → parse_params text ≡ some ps → All IsParam ps
unfolding parse_params
parse_params-IsParam text e = parse_words-IsParam (split_ascii_whitespace text) e
