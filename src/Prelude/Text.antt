-- ===== src/Prelude/Text.antt =====
-- Text as the program holds it: `Vec<u8>` and `String` are lists of bytes, the latter in UTF-8.
-- What the source uses of Rust's byte and string methods, by the names they have there.
pub mod Members
use Prim.Native.Char.{code}
use Prim.Native.Nat.{ℕ, suc, ◌+◌, ◌-◌}
use Prim.Native.String.{String}
use mathlib.Core.Bool.{Bool, true, false, ◌&&◌, ◌||◌}
use mathlib.Core.List.{List, [], ◌∷◌, map}
use mathlib.Core.Option.{Option, none, some}
use smtp_proxy_rs.Prelude.Lists.{is_empty}
use smtp_proxy_rs.Prelude.Tests.{◌==◌, within, if◌then◌else◌}

abbrev pub Bytes : Type 0
Bytes = List ℕ

-- The bytes of an ASCII literal.
abbrev pub codes : String → Bytes
codes String.[] = []
codes (String.◌∷◌ c s) = code c ∷ codes s

abbrev pub is_ascii_alphabetic : ℕ → Bool
is_ascii_alphabetic c = within b'A' b'Z' c || within b'a' b'z' c

abbrev pub is_ascii_digit : ℕ → Bool
is_ascii_digit c = within b'0' b'9' c

abbrev pub is_ascii_alphanumeric : ℕ → Bool
is_ascii_alphanumeric c = is_ascii_alphabetic c || is_ascii_digit c

abbrev pub is_ascii_hexdigit : ℕ → Bool
is_ascii_hexdigit c = is_ascii_digit c || (within b'A' b'F' c || within b'a' b'f' c)

-- space, \t, \n, form feed and \r
abbrev pub is_ascii_whitespace : ℕ → Bool
is_ascii_whitespace c = c == 32 || (c == 9 || (c == 10 || (c == 12 || c == 13)))

unfoldable pub to_upper : ℕ → ℕ
to_upper c = if within b'a' b'z' c then c - 32 else c

unfoldable pub to_lower : ℕ → ℕ
to_lower c = if within b'A' b'Z' c then c + 32 else c

unfoldable pub to_ascii_uppercase : Bytes → Bytes
to_ascii_uppercase s = map to_upper s

unfoldable pub bytes_eq : Bytes → Bytes → Bool
bytes_eq [] [] = true
bytes_eq (x ∷ xs) (y ∷ ys) = x == y && bytes_eq xs ys
bytes_eq _ _ = false

unfoldable pub eq_ignore_ascii_case : Bytes → Bytes → Bool
unfolding to_lower
eq_ignore_ascii_case [] [] = true
eq_ignore_ascii_case (x ∷ xs) (y ∷ ys) = to_lower x == to_lower y && eq_ignore_ascii_case xs ys
eq_ignore_ascii_case _ _ = false

unfoldable pub contains : ℕ → Bytes → Bool
contains b [] = false
contains b (c ∷ cs) = c == b || contains b cs

unfoldable pub split_once : ℕ → Bytes → Option (Bytes × Bytes)
split_once sep [] = none
split_once sep (c ∷ cs) =
    let rest = split_once sep cs in
    if c == sep then some ([], cs) else elim rest [ none ↦ none | some (a, b) ↦ some (c ∷ a, b) ]

unfoldable pub strip_prefix : ℕ → Bytes → Option Bytes
strip_prefix b [] = none
strip_prefix b (c ∷ cs) = if c == b then some cs else none

unfoldable pub take_while : (ℕ → Bool) → Bytes → Bytes
take_while p [] = []
take_while p (c ∷ cs) = let rest = take_while p cs in if p c then c ∷ rest else []

unfoldable pub drop_while : (ℕ → Bool) → Bytes → Bytes
drop_while p [] = []
drop_while p (c ∷ cs) = let rest = drop_while p cs in if p c then rest else c ∷ cs

-- A byte in front of the first piece.
abbrev pub glue : ℕ → List Bytes → List Bytes
glue c [] = (c ∷ []) ∷ []
glue c (w ∷ ws) = (c ∷ w) ∷ ws

-- `split(sep)`: one piece more than there are separators.
unfoldable pub split : ℕ → Bytes → List Bytes
split sep [] = [] ∷ []
split sep (c ∷ cs) = let rest = split sep cs in if c == sep then [] ∷ rest else glue c rest

abbrev pub starts_word : Bytes → Bool
starts_word [] = false
starts_word (c ∷ _) = if is_ascii_whitespace c then false else true

unfoldable pub split_ascii_whitespace : Bytes → List Bytes
split_ascii_whitespace [] = []
split_ascii_whitespace (c ∷ cs) =
    let rest = split_ascii_whitespace cs in
    if is_ascii_whitespace c then rest else if starts_word cs then glue c rest else (c ∷ []) ∷ rest

-- `strip_suffix(b"\r\n")`
unfoldable pub strip_crlf : Bytes → Option Bytes
strip_crlf [] = none
strip_crlf (c ∷ []) = none
strip_crlf (c ∷ d ∷ []) = if c == 13 && d == 10 then some [] else none
strip_crlf (c ∷ d ∷ e ∷ rest) = elim (strip_crlf (d ∷ e ∷ rest)) [
  | none ↦ none
  | some body ↦ some (c ∷ body)
]
