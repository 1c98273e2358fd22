-- ===== src/Proxy/Headers.antt =====
-- src/proxy.rs: header lines parsed, merged with those of the API, checked, and written again for
-- the upstream. The warning about a line that is not a header goes to the log and is left out.
pub mod Breaks
pub mod Stuffing
pub mod Fields
pub mod Lines
pub mod Folds
pub mod Blocks
pub mod RoundTrip
pub mod Reread
pub mod Parsed
pub mod Merge
use smtp_proxy_rs.Prelude.{
  ℕ, Bool, true, false, not, ◌&&◌, ◌||◌, List, [], ◌∷◌, ◌++◌, map, Option, none, some, Bytes, codes,
  is_empty, ◌==◌, if◌then◌else◌, glue, split_once, drop_while, eq_ignore_ascii_case,
  from_utf8_lossy, Result, ok, err,
}
use smtp_proxy_rs.Server.Data.{cr, lf, crlf}

pub record RawHeader : Type 0 where
  pub name : Bytes
  pub value : Bytes

-- src/api.rs: a header that the API names, with its value if it is to be added.
pub record ResponseHeader : Type 0 where
  pub name : Bytes
  pub value : Option Bytes

-- src/api.rs: a header as the API is told of it.
pub record RequestHeader : Type 0 where
  pub name : Bytes
  pub value : Bytes

unfoldable pub to_request : RawHeader → RequestHeader
to_request h = record { name = from_utf8_lossy h.name; value = from_utf8_lossy h.value }

unfoldable pub name_text : RawHeader → Bytes
name_text h = from_utf8_lossy h.name

-- `split_inclusive(|b| *b == b'\n')`: the lines, each with its LF.
unfoldable pub split_inclusive : Bytes → List Bytes
split_inclusive [] = []
split_inclusive (c ∷ cs) =
    let rest = split_inclusive cs in if c == lf then (c ∷ []) ∷ rest else glue c rest

-- A space, a tab, a vertical tab or a form feed first.
abbrev pub is_continuation : Bytes → Bool
is_continuation [] = false
is_continuation (c ∷ _) = c == b' ' || (c == b'\t' || (c == 0x0b || c == 0x0c))

-- one turn of the loop over the lines: on to the last line, or a line of its own
unfoldable pub join_line : List Bytes → Bytes → List Bytes
join_line [] raw = raw ∷ []
join_line (last ∷ []) raw = if is_continuation raw then (last ++ raw) ∷ [] else last ∷ raw ∷ []
join_line (line ∷ next ∷ lines) raw = line ∷ join_line (next ∷ lines) raw

unfoldable pub join_lines : List Bytes → List Bytes → List Bytes
unfolding join_line
join_lines lines [] = lines
join_lines lines (raw ∷ raws) = join_lines (join_line lines raw) raws

unfoldable pub is_perl_space : ℕ → Bool
is_perl_space b =
    b == b' ' || (b == b'\t' || (b == b'\n' || (b == b'\r' || (b == 0x0b || b == 0x0c))))

abbrev pub is_break : ℕ → Bool
is_break b = b == cr || b == lf

unfoldable pub trim_end_breaks : Bytes → Bytes
trim_end_breaks [] = []
trim_end_breaks (c ∷ cs) =
    let rest = trim_end_breaks cs in if is_empty rest && is_break c then [] else c ∷ rest

-- `rest.last()` as a string of that byte
unfoldable pub last_byte : Bytes → Bytes
last_byte [] = []
last_byte (c ∷ []) = c ∷ []
last_byte (c ∷ d ∷ rest) = last_byte (d ∷ rest)

unfoldable pub perl_header_value : Bytes → Bytes
unfolding is_perl_space last_byte drop_while
perl_header_value rest =
    let behind = drop_while is_perl_space rest in if is_empty behind then last_byte rest else behind

-- the second loop's body
unfoldable pub parse_field : Bytes → Option RawHeader
unfolding split_once trim_end_breaks perl_header_value
parse_field line = elim (split_once b':' (trim_end_breaks line)) [
  | none ↦ none
  | some (name, rest) ↦
      if is_empty name || is_empty rest
      then none
      else some (record { name = name; value = perl_header_value rest })
]

unfoldable pub parse_fields : List Bytes → List RawHeader
unfolding parse_field
parse_fields [] = []
parse_fields (line ∷ lines) = elim (parse_field line) [
  | none ↦ parse_fields lines
  | some h ↦ h ∷ parse_fields lines
]

unfoldable pub parse_headers : Bytes → List RawHeader
unfolding split_inclusive join_lines parse_fields
parse_headers block = parse_fields (join_lines [] (split_inclusive block))

-- `api.iter().any(|a| ..)`
unfoldable pub is_named : List ResponseHeader → Bytes → Bool
unfolding eq_ignore_ascii_case
is_named [] name = false
is_named (a ∷ api) name = eq_ignore_ascii_case a.name name || is_named api name

unfoldable pub keep_unnamed : List RawHeader → List ResponseHeader → List RawHeader
unfolding is_named
keep_unnamed [] api = []
keep_unnamed (h ∷ hs) api =
    let rest = keep_unnamed hs api in if is_named api h.name then rest else h ∷ rest

unfoldable pub given_values : List ResponseHeader → List RawHeader
given_values [] = []
given_values (a ∷ api) = elim a.value [
  | none ↦ given_values api
  | some value ↦ record { name = a.name; value = value } ∷ given_values api
]

unfoldable pub merge_headers : List RawHeader → List ResponseHeader → List RawHeader
unfolding keep_unnamed given_values
merge_headers existing api = keep_unnamed existing api ++ given_values api

-- `matches!(value.get(after), Some(b' ' | b'\t'))`, of what is left at `after`
abbrev pub begins_fold : Bytes → Bool
begins_fold [] = false
begins_fold (c ∷ _) = c == b' ' || c == b'\t'

-- The position `i` in `value` is what is left of `value` from there.
unfoldable pub folds_at : Bytes → Bool
folds_at [] = false
folds_at (c ∷ []) = false
folds_at (c ∷ d ∷ rest) =
    if c == cr then (if not (d == lf) then false else begins_fold rest) else begins_fold (d ∷ rest)

-- the loop over the positions of a value
unfoldable pub value_folds : Bytes → Bool
unfolding folds_at
value_folds [] = true
value_folds (c ∷ rest) =
    let later = value_folds rest in if is_break c && not (folds_at (c ∷ rest)) then false else later

unfoldable pub bad_in_name : Bytes → Bool
unfolding is_perl_space
bad_in_name [] = false
bad_in_name (b ∷ bs) = (is_break b || b == b':') || is_perl_space b || bad_in_name bs

unfoldable pub assert_header_relayable : List RawHeader → Result Bytes (Unit {0})
unfolding value_folds bad_in_name name_text
assert_header_relayable [] = ok tt
assert_header_relayable (h ∷ hs) =
    let later = assert_header_relayable hs in
    if is_empty h.name || bad_in_name h.name
    then err (name_text h)
    else if not (value_folds h.value)
    then err (name_text h)
    else later

unfoldable pub normalize_breaks : Bytes → Bytes
normalize_breaks [] = []
normalize_breaks (c ∷ []) = if c == lf then crlf else c ∷ []
normalize_breaks (c ∷ d ∷ rest) = elim (c == cr && d == lf) [
  | true ↦ crlf ++ normalize_breaks rest
  | false ↦ (if c == lf then crlf else c ∷ []) ++ normalize_breaks (d ∷ rest)
]

-- the loop of `dot_stuff`; the flag is `at_line_start`
unfoldable pub dot_stuff_from : Bool → Bytes → Bytes
dot_stuff_from at_line_start [] = []
dot_stuff_from at_line_start (b ∷ block) =
    (if at_line_start && b == b'.' then b'.' ∷ b ∷ [] else b ∷ []) ++ dot_stuff_from (b == lf) block

unfoldable pub dot_stuff : Bytes → Bytes
unfolding dot_stuff_from
dot_stuff block = dot_stuff_from true block

unfoldable pub write_headers : List RawHeader → Bytes
write_headers [] = crlf
write_headers (h ∷ hs) = h.name ++ (codes ": " ++ (h.value ++ (crlf ++ write_headers hs)))

unfoldable pub header_block : List RawHeader → Bytes
unfolding write_headers normalize_breaks dot_stuff
header_block headers = dot_stuff (normalize_breaks (write_headers headers))
