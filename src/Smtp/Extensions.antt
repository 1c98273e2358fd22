-- ===== src/Smtp/Extensions.antt =====
-- src/smtp/extensions.rs: the extension keywords that an EHLO reply announces.
use smtp_proxy_rs.Prelude.{
  ℕ, ◌+◌, ◌-◌, ◌*◌, ◌^◌, Bool, true, false, not, ◌&&◌, ◌||◌, List, [], ◌∷◌, Option, none, some,
  Bytes, codes, ◌==◌, ltb, if◌then◌else◌, length, drop, all, is_empty, glue, split_ascii_whitespace,
  trim_start, bytes_eq, to_ascii_uppercase, is_ascii_digit, strip_prefix,
}
use smtp_proxy_rs.Prelude.Maps.{get, insert}

-- The map from a keyword to the rest of its line.
abbrev pub Extensions : Type 0
Extensions = List (Bytes × Bytes)

unfoldable pub contains_key : Extensions → Bytes → Bool
unfolding get to_ascii_uppercase bytes_eq
contains_key extensions keyword = elim (get bytes_eq (to_ascii_uppercase keyword) extensions) [
  | none ↦ false
  | some _ ↦ true
]

abbrev pub usize_limit : ℕ
usize_limit = 2 ^ 64

unfoldable pub read_digits : ℕ → Bytes → ℕ
read_digits n [] = n
read_digits n (c ∷ cs) = read_digits (n * 10 + (c - b'0')) cs

-- digits only, at least one, and no overflow
unfoldable pub parse_digits : Bytes → Option ℕ
unfolding read_digits
parse_digits text =
    if is_empty text || not (all is_ascii_digit text)
    then none
    else if ltb (read_digits 0 text) usize_limit
    then some (read_digits 0 text)
    else none

-- `str::parse::<usize>`, which takes a sign `+`
unfoldable pub parse_usize : Bytes → Option ℕ
unfolding parse_digits strip_prefix
parse_usize text = elim (strip_prefix b'+' text) [
  | none ↦ parse_digits text
  | some digits ↦ parse_digits digits
]

abbrev pub positive : Option ℕ → Option ℕ
positive none = none
positive (some n) = if n == 0 then none else some n

-- the first word of the parameters, if it is a number
abbrev pub first_number : List Bytes → Option ℕ
first_number [] = none
first_number (word ∷ _) = parse_usize word

unfoldable pub size : Extensions → Option ℕ
unfolding get bytes_eq parse_usize split_ascii_whitespace
size extensions = elim (get bytes_eq (codes "SIZE") extensions) [
  | none ↦ none
  | some params ↦ positive (first_number (split_ascii_whitespace params))
]

-- `split(['\r', '\n'])`
unfoldable pub split_breaks : Bytes → List Bytes
split_breaks [] = [] ∷ []
split_breaks (c ∷ cs) =
    let rest = split_breaks cs in if c == b'\r' || c == b'\n' then [] ∷ rest else glue c rest

-- three digits, then `-` or a space
unfoldable pub is_reply_line : Bytes → Bool
is_reply_line (a ∷ b ∷ c ∷ d ∷ _) =
    (is_ascii_digit a && (is_ascii_digit b && is_ascii_digit c)) && (d == b'-' || d == b' ')
is_reply_line _ = false

-- the keyword with the rest of its line, into the map
unfoldable pub insert_word : Bytes → List Bytes → Extensions → Extensions
unfolding insert bytes_eq to_ascii_uppercase trim_start
insert_word rest [] map = map
insert_word rest (word ∷ _) map =
    insert bytes_eq (to_ascii_uppercase word) (trim_start (drop (length word) rest)) map

unfoldable pub announce : Bytes → Extensions → Extensions
unfolding insert_word trim_start split_ascii_whitespace
announce line map =
    let rest = trim_start (drop 4 line) in insert_word rest (split_ascii_whitespace rest) map

-- the loop over the lines
unfoldable pub announce_lines : List Bytes → Extensions → Extensions
unfolding announce is_reply_line
announce_lines [] map = map
announce_lines (line ∷ lines) map =
    announce_lines lines (if is_reply_line line then announce line map else map)

unfoldable pub parse_extensions : Bytes → Extensions
unfolding split_breaks announce_lines
parse_extensions ehlo_reply = announce_lines (split_breaks ehlo_reply) []
