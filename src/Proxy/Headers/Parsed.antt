-- ===== src/Proxy/Headers/Parsed.antt =====
-- src/proxy.rs, `parse_headers`: what a header is that it yields.
use smtp_proxy_rs.Prelude.{
  ℕ, ◌≡◌, refl, inl, inr, false, ◌||◌, List, [], ◌∷◌, Option, some, none, arith, Bytes, All,
  is_empty, if◌then◌else◌, Bool-cases, Option-cases, contains, split_once, drop_while,
}
use smtp_proxy_rs.Proxy.Headers.{
  RawHeader, is_perl_space, last_byte, perl_header_value, parse_field, parse_fields, parse_headers,
  trim_end_breaks, join_lines, split_inclusive,
}
use smtp_proxy_rs.Proxy.Headers.Reread.{IsValue}

-- A name that is not empty and holds no colon, and a value as `perl_header_value` yields it.
abbrev pub IsParsed : RawHeader → Type 0
IsParsed h = (is_empty h.name ≡ false) × (contains b':' h.name ≡ false) × IsValue h.value

IsValue-last_byte : (c : ℕ) (cs : Bytes) → IsValue (last_byte (c ∷ cs))
unfolding last_byte
IsValue-last_byte c [] = tt
IsValue-last_byte c (d ∷ cs) = IsValue-last_byte d cs

IsValue-cons : (c : ℕ) (cs : Bytes) → is_perl_space c ≡ false → IsValue (c ∷ cs)
IsValue-cons c [] e = tt
IsValue-cons c (d ∷ cs) e = e

IsValue-drop_while :
    (cs : Bytes)
    → is_empty (drop_while is_perl_space cs) ≡ false
    → IsValue (drop_while is_perl_space cs)
unfolding drop_while
IsValue-drop_while [] e = cc
IsValue-drop_while (c ∷ cs) e = elim (Bool-cases (is_perl_space c)) [
  | inl space ↦ rw space (IsValue-drop_while cs (ground arith))
  | inr other ↦ rw other (IsValue-cons c cs other)
]

IsValue-perl_header_value : (c : ℕ) (cs : Bytes) → IsValue (perl_header_value (c ∷ cs))
unfolding perl_header_value
IsValue-perl_header_value c cs = elim (Bool-cases (is_empty (drop_while is_perl_space (c ∷ cs)))) [
  | inl e ↦ rw e (IsValue-last_byte c cs)
  | inr e ↦ rw e (IsValue-drop_while (c ∷ cs) e)
]

contains-split_once :
    (sep : ℕ) (s a b : Bytes) → split_once sep s ≡ some (a, b) → contains sep a ≡ false
unfolding split_once contains
contains-split_once sep [] a b e = cc
contains-split_once sep (c ∷ s) a b e = elim (Option-cases (split_once sep s)) [
  | inl n ↦ ground arith
  | inr (p, n) ↦ ground (arith, contains-split_once sep s p.0 p.1 n)
]

field_lem :
    (name rest : Bytes) (h : RawHeader)
    → contains b':' name ≡ false
    → (if is_empty name || is_empty rest
        then none
        else some (record { name = name; value = perl_header_value rest }))
      ≡ some h
    → IsParsed h
field_lem [] rest h k e = cc
field_lem (c ∷ name) [] h k e = cc
field_lem (c ∷ name) (d ∷ rest) h k e = ground (arith, IsValue-perl_header_value d rest)

cut_lem :
    (cut : Option (Bytes × Bytes)) (h : RawHeader)
    → ((name rest : Bytes) → cut ≡ some (name, rest) → contains b':' name ≡ false)
    → elim cut [
      | none ↦ none
      | some (name, rest) ↦
          if is_empty name || is_empty rest
          then none
          else some (record { name = name; value = perl_header_value rest })
    ]
      ≡ some h
    → IsParsed h
cut_lem none h k e = cc
cut_lem (some (name, rest)) h k e = field_lem name rest h (k name rest refl) e

parse_field-IsParsed : (line : Bytes) (h : RawHeader) → parse_field line ≡ some h → IsParsed h
unfolding parse_field
parse_field-IsParsed line h e =
    let trimmed = trim_end_breaks line in
    cut_lem (split_once b':' trimmed) h (contains-split_once b':' trimmed) e

one_more :
    (o : Option RawHeader) (hs : List RawHeader)
    → ((h : RawHeader) → o ≡ some h → IsParsed h)
    → All IsParsed hs
    → All IsParsed (elim o [ none ↦ hs | some h ↦ h ∷ hs ])
one_more none hs k m = m
one_more (some h) hs k m = (k h refl, m)

parse_fields-AreParsed : (lines : List Bytes) → All IsParsed (parse_fields lines)
unfolding parse_fields
parse_fields-AreParsed [] = tt
parse_fields-AreParsed (line ∷ lines) =
    one_more (parse_field line) (parse_fields lines) (parse_field-IsParsed line)
      (parse_fields-AreParsed lines)

-- Whatever the block, each header that it parses to has a name that is not empty and holds no
-- colon, and a value of one byte or one that begins with no white space.
pub parse_headers-AreParsed : (block : Bytes) → All IsParsed (parse_headers block)
unfolding parse_headers
parse_headers-AreParsed block = parse_fields-AreParsed (join_lines [] (split_inclusive block))
