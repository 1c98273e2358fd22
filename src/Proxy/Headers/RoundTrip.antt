-- ===== src/Proxy/Headers/RoundTrip.antt =====
-- src/proxy.rs: what an upstream reads of the header block that is written for it.
use smtp_proxy_rs.Prelude.{
  ℕ, ◌≡◌, refl, sym, ap, ◌∙◌, false, List, [], ◌∷◌, ◌++◌, map, arith, Bytes, codes, All, is_empty,
  ok, glue,
}
use mathlib.Core.List.{append_assoc, map-append}
use smtp_proxy_rs.Proxy.Headers.{
  RawHeader, split_inclusive, is_continuation, is_break, is_perl_space, join_lines,
  normalize_breaks, assert_header_relayable, header_block,
}
use smtp_proxy_rs.Proxy.Headers.Fields.{
  IsRelayable, IsPlainName, bad_in_name-IsPlainName, field, fields, assert_header_relayable-All,
  normalize_breaks-write_headers,
}
use smtp_proxy_rs.Proxy.Headers.Stuffing.{stuff, flat, split-dot_stuff, flat-split_inclusive}
use smtp_proxy_rs.Proxy.Headers.Lines.{
  split-other, split_inclusive-append, EndsLine-field, behind_first, AreFolds,
}
use smtp_proxy_rs.Proxy.Headers.Folds.{AreFolds-field}
use smtp_proxy_rs.Proxy.Headers.Blocks.{
  IsBlock, all_lines, join_lines-blocks, stuff-IsBlock, blocks-AreHeaderLines, join_lines-blank,
}
use smtp_proxy_rs.Server.Data.{crlf}
use smtp_proxy_rs.Server.Data.HeaderCollector.Block.{IsHeaderLine}

-- The lines that a header is written as, before their dots are doubled.
abbrev pub field_lines : RawHeader → List Bytes
field_lines h = split_inclusive (field h)

abbrev wire_lines : RawHeader → List Bytes
wire_lines h = map stuff (field_lines h)

IsBlock-glue :
    (c : ℕ) (lines : List Bytes)
    → is_continuation (c ∷ []) ≡ false
    → is_break c ≡ false
    → AreFolds (behind_first (glue c lines))
    → IsBlock (glue c lines)
IsBlock-glue c [] e b h = (e, b, tt)
IsBlock-glue c (line ∷ lines) e b h = (e, b, h)

IsBlock-text :
    (c : ℕ) (cs : Bytes)
    → is_break c ≡ false
    → is_continuation (c ∷ []) ≡ false
    → AreFolds (behind_first (split_inclusive (c ∷ cs)))
    → IsBlock (split_inclusive (c ∷ cs))
IsBlock-text c cs e n h =
    let other = split-other c cs (ground arith) in
    rw other (IsBlock-glue c (split_inclusive cs) n e (rw (sym other) h))

IsBlock-named :
    (name rest : Bytes)
    → is_empty name ≡ false
    → IsPlainName name
    → AreFolds (behind_first (split_inclusive (name ++ rest)))
    → IsBlock (split_inclusive (name ++ rest))
IsBlock-named [] rest ne plain h = cc
IsBlock-named (c ∷ name) rest ne plain h =
    let space = plain.0.2 in
    IsBlock-text c (name ++ rest) plain.0.0 (unfold is_perl_space in ground arith) h

IsBlock-field : (h : RawHeader) → IsRelayable h → IsBlock (field_lines h)
IsBlock-field h k =
    IsBlock-named h.name (codes ": " ++ (normalize_breaks h.value ++ crlf)) k.0
      (bad_in_name-IsPlainName h.name k.1) (AreFolds-field h k)

pub IsBlock-fields : (hs : List RawHeader) → All IsRelayable hs → All IsBlock (map field_lines hs)
IsBlock-fields [] h = tt
IsBlock-fields (x ∷ hs) h = (IsBlock-field x h.0, IsBlock-fields hs h.1)

IsBlock-wires : (hs : List RawHeader) → All IsRelayable hs → All IsBlock (map wire_lines hs)
IsBlock-wires [] h = tt
IsBlock-wires (x ∷ hs) h =
    ((stuff-IsBlock (field_lines x) (IsBlock-field x h.0)).0, IsBlock-wires hs h.1)

pub split-fields :
    (hs : List RawHeader) (rest : Bytes)
    → split_inclusive (fields hs ++ rest) ≡ all_lines (map field_lines hs) ++ split_inclusive rest
split-fields [] rest = refl
split-fields (h ∷ hs) rest =
    rw
      (
        append_assoc (field h) (fields hs) rest,
        split_inclusive-append (field h) (fields hs ++ rest) (EndsLine-field h),
        split-fields hs rest,
        append_assoc (field_lines h) (all_lines (map field_lines hs)) (split_inclusive rest),
      )
      refl

map-all_lines :
    (hs : List RawHeader)
    → map stuff (all_lines (map field_lines hs)) ≡ all_lines (map wire_lines hs)
map-all_lines [] = refl
map-all_lines (h ∷ hs) =
    rw (map-append stuff (field_lines h) (all_lines (map field_lines hs)), map-all_lines hs) refl

-- The lines of a header block whose headers may be relayed.
pub split-header_block :
    (hs : List RawHeader)
    → All IsRelayable hs
    → split_inclusive (header_block hs) ≡ map stuff (all_lines (map field_lines hs)) ++ crlf ∷ []
unfolding header_block
split-header_block hs h =
    rw
      (
        normalize_breaks-write_headers hs h,
        split-dot_stuff (fields hs ++ crlf),
        split-fields hs crlf,
        map-append stuff (all_lines (map field_lines hs)) (split_inclusive crlf),
      )
      (unfold split_inclusive in refl)

pub joined-fields : (hs : List RawHeader) → map flat (map field_lines hs) ≡ map field hs
joined-fields [] = refl
joined-fields (h ∷ hs) =
    rw (flat-split_inclusive (field h)) (ap (λ ls. field h ∷ ls) (joined-fields hs))

joined-wires :
    (hs : List RawHeader)
    → All IsRelayable hs
    → map flat (map wire_lines hs) ≡ map (λ h. stuff (field h)) hs
joined-wires [] k = refl
joined-wires (h ∷ hs) k =
    rw
      (
        (stuff-IsBlock (field_lines h) (IsBlock-field h k.0)).1,
        flat-split_inclusive (field h),
        joined-wires hs k.1,
      )
      refl

-- Of headers that may be relayed: the block that is written is lines of which none is blank or a
-- lone dot, and the blank line behind them; and put together with their folds, the lines are one for
-- each header, its name, a colon and a space, and its value with CRLF for each line break, with
-- the leading dot doubled if there is one.
pub header_block-lines :
    (hs : List RawHeader)
    → assert_header_relayable hs ≡ ok tt
    → ((lines : List Bytes) × (split_inclusive (header_block hs) ≡ lines ++ crlf ∷ [])
        × All IsHeaderLine lines)
      × (join_lines [] (split_inclusive (header_block hs))
          ≡ map (λ h. stuff (field h)) hs ++ crlf ∷ [])
header_block-lines hs h =
    let each = assert_header_relayable-All hs h in
    let lines = map stuff (all_lines (map field_lines hs)) in
    let cut = split-header_block hs each in
    (
      (lines, cut, blocks-AreHeaderLines (map field_lines hs) (IsBlock-fields hs each)),
      ap (join_lines []) (cut ∙ ap (λ ls. ls ++ crlf ∷ []) (map-all_lines hs))
          ∙ (join_lines-blocks [] (map wire_lines hs) (crlf ∷ []) (IsBlock-wires hs each)
              ∙ (ap (λ ls. join_lines ls (crlf ∷ [])) (joined-wires hs each)
                  ∙ join_lines-blank (map (λ h. stuff (field h)) hs))),
    )
