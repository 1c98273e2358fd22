-- ===== src/Tests/Proxy.antt =====
-- src/proxy.rs on concrete inputs: headers, and a handler with one upstream.
use smtp_proxy_rs.Prelude.{
  ◌≡◌, refl, Bool, true, false, List, [], ◌∷◌, ◌++◌, map, Option, none, some, Bytes, codes, All,
  Result, ok, err, leb, length, if◌then◌else◌,
}
use smtp_proxy_rs.Proxy.Headers.{
  RawHeader, ResponseHeader, parse_headers, merge_headers, is_named, given_values,
  assert_header_relayable, normalize_breaks, dot_stuff, header_block, split_inclusive, join_lines,
}
use smtp_proxy_rs.Proxy.Headers.Breaks.{left_over, normalize_breaks-normalize}
use smtp_proxy_rs.Server.Data.BodyFramer.Stream.{normalize, holds_after}
use smtp_proxy_rs.Proxy.Headers.Fields.{field, fields}
use smtp_proxy_rs.Proxy.Headers.Merge.{names, given, named, named-merge_headers}
use smtp_proxy_rs.Proxy.Headers.Parsed.{IsParsed, parse_headers-AreParsed}
use smtp_proxy_rs.Proxy.Headers.Reread.{relayed, header_block-parse}
use smtp_proxy_rs.Proxy.Headers.RoundTrip.{header_block-lines}
use smtp_proxy_rs.Proxy.Headers.Stuffing.{stuff, dot_stuff-unstuff}
use smtp_proxy_rs.Server.Data.{crlf, is_terminator}
use smtp_proxy_rs.Server.Data.HeaderCollector.{complete, too_large, new}
use smtp_proxy_rs.Server.Data.HeaderCollector.Block.{IsHeaderLine, collect, unstuffed_block}

-- A header that is folded, and one whose name begins with a dot.
abbrev headers : List RawHeader
headers =
    record { name = codes "Subject"; value = codes "hi\n there" }
    ∷ record { name = codes ".x"; value = codes "y" }
    ∷ []

headers_relayable : assert_header_relayable headers ≡ ok tt
unfolding assert_header_relayable
headers_relayable = refl

headers_of_block :
    parse_headers (codes "Subject: hi\r\n there\r\nno header\r\n.x:  y\n")
    ≡ record { name = codes "Subject"; value = codes "hi\r\n there" }
      ∷ record { name = codes ".x"; value = codes "y" }
      ∷ []
unfolding parse_headers smtp_proxy_rs.Prelude.split_once smtp_proxy_rs.Prelude.drop_while
headers_of_block = refl

written_block : header_block headers ≡ codes "Subject: hi\r\n there\r\n..x: y\r\n\r\n"
unfolding header_block
written_block = refl

header_block-parse_example :
    (collect (new 100) (split_inclusive (header_block headers)) ≡ (
      if leb (length (fields headers)) 100
      then some (complete (fields headers))
      else some too_large))
    × (parse_headers (fields headers) ≡ map relayed headers)
unfolding smtp_proxy_rs.Proxy.Headers.is_perl_space
header_block-parse_example = header_block-parse 100 headers headers_relayable (refl, (tt, tt))

header_block-lines_example :
    ((lines : List Bytes) × (split_inclusive (header_block headers) ≡ lines ++ crlf ∷ [])
      × All IsHeaderLine lines)
    × (join_lines [] (split_inclusive (header_block headers))
        ≡ map (λ h. stuff (field h)) headers ++ crlf ∷ [])
header_block-lines_example = header_block-lines headers headers_relayable

dot_stuff-unstuff_example :
    All (λ line. is_terminator line ≡ false) (split_inclusive (dot_stuff (codes ".\r\na\r\n.b")))
    × (unstuffed_block (split_inclusive (dot_stuff (codes ".\r\na\r\n.b"))) ≡ codes ".\r\na\r\n.b")
dot_stuff-unstuff_example = dot_stuff-unstuff (codes ".\r\na\r\n.b")

normalize_breaks-normalize_example :
    normalize_breaks (codes "a\nb\r\n\r")
    ≡ normalize false (codes "a\nb\r\n\r") ++ left_over (holds_after false (codes "a\nb\r\n\r"))
normalize_breaks-normalize_example = normalize_breaks-normalize (codes "a\nb\r\n\r")

abbrev api_headers : List ResponseHeader
api_headers =
    record { name = codes "SUBJECT"; value = some (codes "spam") }
    ∷ record { name = codes ".X"; value = none }
    ∷ []

named-merge_headers_example :
    named (codes "subject") (merge_headers headers api_headers)
    ≡ (if names api_headers (codes "subject") then [] else named (codes "subject") headers)
      ++ given api_headers (codes "subject")
named-merge_headers_example = named-merge_headers (codes "subject") headers api_headers

parse_headers-AreParsed_example : All IsParsed (parse_headers (codes "Subject: hi\r\n there\r\n"))
parse_headers-AreParsed_example = parse_headers-AreParsed (codes "Subject: hi\r\n there\r\n")
