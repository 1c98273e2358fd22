-- ===== src/Smtp/Params.antt =====
-- src/smtp/params.rs: RFC 5321 esmtp-param lists.
pub mod Grammar
use smtp_proxy_rs.Prelude.{
  ℕ, Bool, true, false, not, ◌&&◌, ◌||◌, List, [], ◌∷◌, Option, none, some, Bytes, all, is_empty,
  within, ◌==◌, if◌then◌else◌, is_ascii_alphanumeric, split_once, split_ascii_whitespace,
}

pub record Param : Type 0 where
  pub keyword : Bytes
  pub value : Option Bytes

abbrev pub is_keyword_start : ℕ → Bool
is_keyword_start b = is_ascii_alphanumeric b

abbrev pub is_keyword_char : ℕ → Bool
is_keyword_char b = is_ascii_alphanumeric b || b == b'-'

-- esmtp-value: printable ASCII excluding "=" and space
abbrev pub is_value_char : ℕ → Bool
is_value_char b = within 0x21 0x7e b && not (b == b'=')

-- the test on `kb`, first byte first
abbrev pub is_keyword : Bytes → Bool
is_keyword [] = false
is_keyword (b ∷ bs) = is_keyword_start b && all is_keyword_char (b ∷ bs)

abbrev pub is_value : Option Bytes → Bool
is_value none = true
is_value (some v) = not (is_empty v) && all is_value_char v

-- a word at its first '='
unfoldable pub split_word : Bytes → Param
split_word word = elim (split_once b'=' word) [
  | some (k, v) ↦ record { keyword = k; value = some v }
  | none ↦ record { keyword = word; value = none }
]

-- the body of the loop of `parse_params`
unfoldable pub parse_param : Bytes → Option Param
unfolding split_word
parse_param word =
    let p = split_word word in
    if not (is_keyword p.keyword) then none else if not (is_value p.value) then none else some p

unfoldable pub parse_words : List Bytes → Option (List Param)
unfolding parse_param
parse_words [] = some []
parse_words (word ∷ words) = elim (parse_param word) [
  | none ↦ none
  | some p ↦ elim (parse_words words) [ none ↦ none | some ps ↦ some (p ∷ ps) ]
]

unfoldable pub parse_params : Bytes → Option (List Param)
unfolding parse_words
parse_params text = parse_words (split_ascii_whitespace text)
