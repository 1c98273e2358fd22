-- ===== src/Proxy/Headers/Fields.antt =====
-- src/proxy.rs, `header_block`: which lines a header that may be relayed is written as.
use smtp_proxy_rs.Prelude.{
  ◌≡◌, refl, sym, ap, ◌∙◌, true, false, List, [], ◌∷◌, ◌++◌, arith, Bytes, codes, is_empty, All,
  ◌==◌, ok,
}
use mathlib.Core.List.{append_assoc}
use smtp_proxy_rs.Proxy.Headers.{
  RawHeader, is_break, is_perl_space, folds_at, value_folds, bad_in_name, assert_header_relayable,
  normalize_breaks, write_headers,
}
use smtp_proxy_rs.Proxy.Headers.Breaks.{normalize_breaks-append}
use smtp_proxy_rs.Server.Data.{crlf}
use smtp_proxy_rs.Server.Data.BodyFramer.Stream.{holds_after}

-- What `assert_header_relayable` lets through.
abbrev pub IsRelayable : RawHeader → Type 0
IsRelayable h =
    (is_empty h.name ≡ false) × (bad_in_name h.name ≡ false) × (value_folds h.value ≡ true)

pub assert_header_relayable-All :
    (hs : List RawHeader) → assert_header_relayable hs ≡ ok tt → All IsRelayable hs
unfolding assert_header_relayable
assert_header_relayable-All [] e = tt
assert_header_relayable-All (h ∷ hs) e = ground (arith, assert_header_relayable-All hs)

-- A header as it is written, before its leading dot is doubled.
abbrev pub field : RawHeader → Bytes
field h = h.name ++ (codes ": " ++ (normalize_breaks h.value ++ crlf))

abbrev pub IsPlainName : Bytes → Type 0
IsPlainName = All λ c. (is_break c ≡ false) × ((c == b':') ≡ false) × (is_perl_space c ≡ false)

pub bad_in_name-IsPlainName : (name : Bytes) → bad_in_name name ≡ false → IsPlainName name
unfolding bad_in_name
bad_in_name-IsPlainName [] e = tt
bad_in_name-IsPlainName (c ∷ cs) e = ground (arith, bad_in_name-IsPlainName cs)

holds_after-name : (name : Bytes) → IsPlainName name → holds_after false name ≡ false
unfolding holds_after
holds_after-name [] h = refl
holds_after-name (c ∷ cs) h = ground (arith, holds_after-name cs h.1)

holds_after-value : (value : Bytes) → value_folds value ≡ true → holds_after false value ≡ false
unfolding holds_after value_folds folds_at
holds_after-value [] e = refl
holds_after-value (c ∷ []) e = ground arith
holds_after-value (c ∷ d ∷ rest) e = ground (arith, holds_after-value (d ∷ rest))

normalize_breaks-name : (name : Bytes) → IsPlainName name → normalize_breaks name ≡ name
unfolding normalize_breaks
normalize_breaks-name [] h = refl
normalize_breaks-name (c ∷ []) h = ground arith
normalize_breaks-name (c ∷ d ∷ rest) h = ground (arith, normalize_breaks-name (d ∷ rest) h.1)

-- The headers as they are written, without the empty line behind them.
abbrev pub fields : List RawHeader → Bytes
fields [] = []
fields (h ∷ hs) = field h ++ fields hs

field-append :
    (h : RawHeader) (rest : Bytes)
    → field h ++ rest ≡ h.name ++ (codes ": " ++ (normalize_breaks h.value ++ (crlf ++ rest)))
field-append h rest = simp append_assoc

normalize_breaks-field :
    (h : RawHeader) (rest : Bytes)
    → IsRelayable h
    → normalize_breaks (h.name ++ (codes ": " ++ (h.value ++ (crlf ++ rest))))
      ≡ field h ++ normalize_breaks rest
normalize_breaks-field h rest (_, plain, folds) =
    let name_ok = bad_in_name-IsPlainName h.name plain in
    rw
      (
        normalize_breaks-append h.name (codes ": " ++ (h.value ++ (crlf ++ rest)))
            (holds_after-name h.name name_ok),
        normalize_breaks-name h.name name_ok,
        normalize_breaks-append (codes ": ") (h.value ++ (crlf ++ rest))
            (unfold holds_after in refl),
        normalize_breaks-append h.value (crlf ++ rest) (holds_after-value h.value folds),
        normalize_breaks-append crlf rest (unfold holds_after in refl),
        field-append h (normalize_breaks rest),
      )
      (unfold normalize_breaks in refl)

pub normalize_breaks-write_headers :
    (hs : List RawHeader)
    → All IsRelayable hs
    → normalize_breaks (write_headers hs) ≡ fields hs ++ crlf
unfolding write_headers
normalize_breaks-write_headers [] h = unfold normalize_breaks in refl
normalize_breaks-write_headers (h ∷ hs) (here, more) =
    normalize_breaks-field h (write_headers hs) here
    ∙ (ap (λ b. field h ++ b) (normalize_breaks-write_headers hs more)
        ∙ sym (append_assoc (field h) (fields hs) crlf))
