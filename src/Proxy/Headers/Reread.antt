-- ===== src/Proxy/Headers/Reread.antt =====
-- src/proxy.rs: the headers that are written for the upstream, parsed again.
use smtp_proxy_rs.Prelude.{
  ℕ, ◌≡◌, refl, sym, ap, ◌∙◌, inl, inr, true, false, ◌&&◌, List, [], ◌∷◌, ◌++◌, map, some, arith,
  Bytes, All, is_empty, ◌==◌, if◌then◌else◌, length, leb, ok, bytes_eq, Bool-cases, split_once,
  drop_while,
}
use mathlib.Core.List.{append_assoc, append-nil}
use smtp_proxy_rs.Proxy.Headers.{
  RawHeader, split_inclusive, is_break, is_perl_space, begins_fold, join_lines, trim_end_breaks,
  last_byte, perl_header_value, parse_field, parse_fields, parse_headers, value_folds,
  normalize_breaks, assert_header_relayable, header_block,
}
use smtp_proxy_rs.Proxy.Headers.Fields.{
  IsRelayable, IsPlainName, bad_in_name-IsPlainName, field, fields, assert_header_relayable-All,
}
use smtp_proxy_rs.Proxy.Headers.Stuffing.{stuff, flat, unstuffed_block-stuff, flat-split_inclusive}
use smtp_proxy_rs.Proxy.Headers.Folds.{
  normalize_breaks-other, normalize_breaks-lf, normalize_breaks-pair, folds_later, break_folds,
  pair_folds, no_lone_cr, no_last_break,
}
use smtp_proxy_rs.Proxy.Headers.Blocks.{all_lines, join_lines-blocks, blocks-AreHeaderLines}
use smtp_proxy_rs.Proxy.Headers.RoundTrip.{
  field_lines, IsBlock-fields, split-fields, split-header_block, joined-fields,
}
use smtp_proxy_rs.Server.Data.{cr, lf, crlf, is_terminator, is_empty_line}
use smtp_proxy_rs.Server.Data.HeaderCollector.{complete, too_large, new}
use smtp_proxy_rs.Server.Data.HeaderCollector.Block.{collect, collect-block}

-- A header as the upstream reads it: its value has CRLF for each line break.
abbrev pub relayed : RawHeader → RawHeader
relayed h = record { name = h.name; value = normalize_breaks h.value }

-- Values that `perl_header_value` yields: one byte, or several that begin with no white space.
abbrev pub IsValue : Bytes → Type 0
IsValue [] = ⊥
IsValue (c ∷ []) = Unit
IsValue (c ∷ d ∷ rest) = is_perl_space c ≡ false

trim-crlf : (xs : Bytes) → trim_end_breaks (xs ++ crlf) ≡ trim_end_breaks xs
unfolding trim_end_breaks
trim-crlf [] = refl
trim-crlf (c ∷ xs) = rw (trim-crlf xs) refl

trim-plain :
    (c : ℕ) (cs : Bytes)
    → is_break c ≡ false
    → trim_end_breaks cs ≡ cs
    → trim_end_breaks (c ∷ cs) ≡ c ∷ cs
unfolding trim_end_breaks
trim-plain c cs e h = ground arith

trim-more :
    (c d : ℕ) (cs : Bytes)
    → trim_end_breaks (d ∷ cs) ≡ d ∷ cs
    → trim_end_breaks (c ∷ d ∷ cs) ≡ c ∷ d ∷ cs
unfolding trim_end_breaks
trim-more c d cs h = rw h refl

trim-append :
    (xs : Bytes) (d : ℕ) (cs : Bytes)
    → trim_end_breaks (d ∷ cs) ≡ d ∷ cs
    → trim_end_breaks (xs ++ d ∷ cs) ≡ xs ++ d ∷ cs
trim-append [] d cs h = h
trim-append (x ∷ []) d cs h = trim-more x d cs h
trim-append (x ∷ y ∷ xs) d cs h = trim-more x y (xs ++ d ∷ cs) (trim-append (y ∷ xs) d cs h)

-- Behind a break there is more of the value.
trim-break :
    (value : Bytes)
    → begins_fold value ≡ true
    → trim_end_breaks (normalize_breaks value) ≡ normalize_breaks value
    → trim_end_breaks (crlf ++ normalize_breaks value) ≡ crlf ++ normalize_breaks value
trim-break [] e h = cc
trim-break (c ∷ cs) e h =
    let whole = normalize_breaks-other c cs (ground arith) in
    rw whole (trim-append crlf c (normalize_breaks cs) (rw (sym whole) h))

trim-value :
    (value : Bytes)
    → value_folds value ≡ true
    → trim_end_breaks (normalize_breaks value) ≡ normalize_breaks value
trim-value [] e = unfold trim_end_breaks normalize_breaks in refl
trim-value (c ∷ []) e =
    let plain = no_last_break c e in
    rw (normalize_breaks-other c [] plain)
      (trim-plain c (normalize_breaks []) plain (trim-value [] (folds_later c [] e)))
trim-value (c ∷ d ∷ rest) e = elim (Bool-cases (c == cr && d == lf)) [
  | inl pair ↦ rw (normalize_breaks-pair c d rest pair) (
      trim-break rest (pair_folds c d rest e pair)
        (trim-value rest (folds_later d rest (folds_later c (d ∷ rest) e))))
  | inr other ↦ elim (Bool-cases (c == lf)) [
    | inl is_lf ↦ rw (normalize_breaks-lf c (d ∷ rest) is_lf) (
        trim-break (d ∷ rest) (break_folds c (d ∷ rest) e is_lf)
          (trim-value (d ∷ rest) (folds_later c (d ∷ rest) e)))
    | inr not_lf ↦
        let plain = no_lone_cr c d rest e other not_lf in
        rw (normalize_breaks-other c (d ∷ rest) plain) (
          trim-plain c (normalize_breaks (d ∷ rest)) plain
            (trim-value (d ∷ rest) (folds_later c (d ∷ rest) e)))
  ]
]

split_once-name :
    (name rest : Bytes)
    → IsPlainName name
    → split_once b':' (name ++ b':' ∷ rest) ≡ some (name, rest)
unfolding split_once
split_once-name [] rest h = refl
split_once-name (c ∷ name) rest h = ground (arith, split_once-name name rest h.1)

header_value :
    (value : Bytes)
    → IsValue value
    → value_folds value ≡ true
    → perl_header_value (b' ' ∷ normalize_breaks value) ≡ normalize_breaks value
unfolding perl_header_value is_perl_space last_byte drop_while
header_value [] v e = absurd v
header_value (c ∷ []) v e =
    rw (normalize_breaks-other c [] (no_last_break c e)) (unfold normalize_breaks in ground arith)
header_value (c ∷ d ∷ rest) v e =
    rw (normalize_breaks-other c (d ∷ rest) (ground arith)) (ground arith)

parse_field-cut :
    (line name rest : Bytes)
    → split_once b':' (trim_end_breaks line) ≡ some (name, rest)
    → is_empty name ≡ false
    → is_empty rest ≡ false
    → parse_field line ≡ some (record { name = name; value = perl_header_value rest })
unfolding parse_field
parse_field-cut line name rest e n r = ground arith

parse_field-field :
    (h : RawHeader) → IsRelayable h → IsValue h.value → parse_field (field h) ≡ some (relayed h)
parse_field-field h k v =
    let value = normalize_breaks h.value in
    let text = b' ' ∷ value in
    let trimmed =
      trim-append (b':' ∷ []) b' ' value (trim-plain b' ' value refl (trim-value h.value k.2)) in
    let cut =
      ap trim_end_breaks (sym (append_assoc h.name (b':' ∷ text) crlf))
      ∙ (trim-crlf (h.name ++ b':' ∷ text) ∙ trim-append h.name b':' text trimmed) in
    parse_field-cut (field h) h.name text
      (ap (split_once b':') cut ∙ split_once-name h.name text (bad_in_name-IsPlainName h.name k.1))
      k.0 refl
    ∙ ap (λ x. some (record { name = h.name; value = x })) (header_value h.value v k.2)

parse_fields-fields :
    (hs : List RawHeader)
    → All IsRelayable hs
    → All (λ h. IsValue h.value) hs
    → parse_fields (map field hs) ≡ map relayed hs
unfolding parse_fields
parse_fields-fields [] k v = refl
parse_fields-fields (h ∷ hs) k v =
    ground (arith, parse_field-field h k.0 v.0, parse_fields-fields hs k.1 v.1)

split_inclusive-fields :
    (hs : List RawHeader) → split_inclusive (fields hs) ≡ all_lines (map field_lines hs)
split_inclusive-fields hs =
    ap split_inclusive (sym (append-nil (fields hs)))
    ∙ (split-fields hs [] ∙ (unfold split_inclusive in append-nil (all_lines (map field_lines hs))))

parse_headers-fields :
    (hs : List RawHeader)
    → All IsRelayable hs
    → All (λ h. IsValue h.value) hs
    → parse_headers (fields hs) ≡ map relayed hs
unfolding parse_headers
parse_headers-fields hs k v =
    let lines = all_lines (map field_lines hs) in
    let joined = join_lines-blocks [] (map field_lines hs) [] (IsBlock-fields hs k) in
    ap (λ ls. parse_fields (join_lines [] ls)) (split_inclusive-fields hs ∙ sym (append-nil lines))
    ∙ (ap parse_fields (joined ∙ (unfold join_lines in joined-fields hs))
        ∙ parse_fields-fields hs k v)

flat-field_lines : (hs : List RawHeader) → flat (all_lines (map field_lines hs)) ≡ fields hs
flat-field_lines hs = ap flat (sym (split_inclusive-fields hs)) ∙ flat-split_inclusive (fields hs)

-- Of headers that may be relayed and whose values are as `perl_header_value` yields them: from the
-- block that is written for the upstream, a session's reader takes the headers' lines with their
-- stuffing undone, if they fit its cap, and answers `too_large` if they do not; and those lines
-- parse to the same headers, with CRLF for each line break of a value.
pub header_block-parse :
    (cap : ℕ) (hs : List RawHeader)
    → assert_header_relayable hs ≡ ok tt
    → All (λ h. IsValue h.value) hs
    → (collect (new cap) (split_inclusive (header_block hs))
        ≡ (if leb (length (fields hs)) cap then some (complete (fields hs)) else some too_large))
      × (parse_headers (fields hs) ≡ map relayed hs)
header_block-parse cap hs h v =
    let each = assert_header_relayable-All hs h in
    let lines = all_lines (map field_lines hs) in
    let collected =
      collect-block cap (map stuff lines) crlf
        (blocks-AreHeaderLines (map field_lines hs) (IsBlock-fields hs each))
        (unfold is_terminator bytes_eq in refl) (unfold is_empty_line bytes_eq in refl) in
    let text = unstuffed_block-stuff lines ∙ flat-field_lines hs in
    (rw (split-header_block hs each, sym text) collected, parse_headers-fields hs each v)
