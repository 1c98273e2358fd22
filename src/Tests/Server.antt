-- ===== src/Tests/Server.antt =====
-- src/server/data.rs and src/server/auth.rs on concrete inputs.
use smtp_proxy_rs.Prelude.{
  ◌≤◌, ◌<◌, ◌≡◌, ◌≢◌, refl, true, false, List, [], ◌∷◌, ◌++◌, some, arith, Bytes, codes, All,
  length, leb, if◌then◌else◌,
}
use smtp_proxy_rs.Prelude.{Option, inl}
use smtp_proxy_rs.Server.Auth.{Credentials, decode_plain}
use smtp_proxy_rs.Server.Auth.Bounds.{decoded_authcid_length}
use smtp_proxy_rs.Server.Data.{write_chunk, is_terminator, is_empty_line}
use smtp_proxy_rs.Server.Data.BodyFramer
use smtp_proxy_rs.Server.Data.BodyFramer.{BodyFramer}
use smtp_proxy_rs.Server.Data.BodyFramer.Smuggling.{
  IsArrival, scan, start, found, feed_no_smuggling,
}
use smtp_proxy_rs.Server.Data.BodyFramer.Stream.{
  Arrival, line, bytes_of, feed, body, normalize, take_in, feed-normalize, take_in_staged,
}
use smtp_proxy_rs.Server.Data.HeaderCollector
use smtp_proxy_rs.Server.Data.HeaderCollector.{HeaderCollector, complete, too_large, push_line}
use smtp_proxy_rs.Server.Data.HeaderCollector.Block.{
  IsBounded, IsHeaderLine, unstuffed_block, collect, new-IsBounded, push_line-IsBounded,
  push_line_capped, collect-block,
}

-- A lone dot behind a bare CR, and behind a bare LF.
abbrev smuggled : List Arrival
smuggled = line (codes "a\n") ∷ line (codes "\r.\r\n") ∷ line (codes "..\n") ∷ []

smuggled-IsArrival : All IsArrival smuggled
smuggled-IsArrival = omega arith

feed_no_smuggling_example :
    scan start ((feed BodyFramer.new smuggled).0 ++ (feed BodyFramer.new smuggled).1.out) ≢ found
feed_no_smuggling_example = feed_no_smuggling smuggled smuggled-IsArrival

smuggled_ne : All (λ a. bytes_of a ≢ []) smuggled
smuggled_ne = ((λ e. cc), ((λ e. cc), ((λ e. cc), tt)))

feed-normalize_example :
    (feed BodyFramer.new smuggled).0 ++ (feed BodyFramer.new smuggled).1.out
    ≡ BodyFramer.new.out
      ++ normalize BodyFramer.new.held_cr (body BodyFramer.new.at_line_start smuggled)
feed-normalize_example = feed-normalize BodyFramer.new smuggled smuggled_ne

new_staged : length BodyFramer.new.out < write_chunk
unfolding BodyFramer.new
new_staged = omega arith

take_in_staged_example : length (take_in BodyFramer.new (line (codes "a\n"))).0.out < write_chunk
take_in_staged_example = take_in_staged BodyFramer.new (line (codes "a\n")) new_staged

push_line-IsBounded_example : IsBounded (push_line (HeaderCollector.new 3) (codes "X: y\r\n")).0
push_line-IsBounded_example =
    push_line-IsBounded (HeaderCollector.new 3) (codes "X: y\r\n") (new-IsBounded 3)

push_line_capped_example :
    (length (push_line (HeaderCollector.new 3) (codes "X: y\r\n")).0.headers
      ≤ (HeaderCollector.new 3).max_header_size)
    × ((block : Bytes)
        → (push_line (HeaderCollector.new 3) (codes "X: y\r\n")).1 ≡ some (complete block)
        → length block ≤ (HeaderCollector.new 3).max_header_size)
    × ((push_line (HeaderCollector.new 3) (codes "X: y\r\n")).0.max_header_size
        ≡ (HeaderCollector.new 3).max_header_size)
push_line_capped_example =
    push_line_capped (HeaderCollector.new 3) (codes "X: y\r\n") (new-IsBounded 3)

abbrev two_headers : List Bytes
two_headers = codes "A: b\r\n" ∷ codes "..c\r\n" ∷ []

two_headers-IsHeaderLine : All IsHeaderLine two_headers
unfolding is_terminator is_empty_line
two_headers-IsHeaderLine = ((refl, refl), ((refl, refl), tt))

blank_ends : (is_terminator (codes "\r\n") ≡ false) × (is_empty_line (codes "\r\n") ≡ true)
unfolding is_terminator is_empty_line
blank_ends = (refl, refl)

collect-block_example : collect (HeaderCollector.new 100) (two_headers ++ codes "\r\n" ∷ []) ≡ (
    if leb (length (unstuffed_block two_headers)) 100
    then some (complete (unstuffed_block two_headers))
    else some too_large)
collect-block_example =
    collect-block 100 two_headers (codes "\r\n") two_headers-IsHeaderLine blank_ends.0 blank_ends.1

-- A decoder for the one token that is tried.
abbrev decode : Bytes → Option Bytes
decode b64 = some (0 ∷ b'u' ∷ 0 ∷ b'p' ∷ [])

abbrev user_u : Credentials
user_u = record { authzid = []; authcid = codes "u"; password = codes "p" }

user_u_decoded : decode_plain decode (codes "AHUAcA") ≡ some user_u
unfolding decode_plain smtp_proxy_rs.Prelude.split smtp_proxy_rs.Prelude.from_utf8_lossy
user_u_decoded = refl

decoded_authcid_length_example : length user_u.authcid ≤ 768
decoded_authcid_length_example =
    decoded_authcid_length decode (codes "AHUAcA") [] [] user_u (inl user_u_decoded)
