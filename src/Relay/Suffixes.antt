-- ===== src/Relay/Suffixes.antt =====
-- The bytes that src/relay.rs appends to MAIL and RCPT.
use smtp_proxy_rs.Prelude.{
  ℕ, ◌≡◌, ◌≢◌, refl, inl, inr, Bool, true, List, [], ◌∷◌, ◌++◌, Option, none, some, arith, Bytes,
  codes, All, All-append, all, Option-cases,
}
use smtp_proxy_rs.Smtp.Params.{
  Param, is_keyword, is_keyword_char, is_value, is_value_char, parse_params,
}
use smtp_proxy_rs.Smtp.Params.Grammar.{IsParam, parse_params-IsParam}
use smtp_proxy_rs.Relay.{filter_params, show_param, show_params, dsn_suffix, find_size, size_suffix}

-- A byte that stands within one line.
abbrev pub InLine : ℕ → Type 0
InLine c = (c ≢ b'\r') × (c ≢ b'\n')

keyword_chars : (k : Bytes) → all is_keyword_char k ≡ true → All InLine k
keyword_chars [] h = tt
keyword_chars (c ∷ k) h = (ground (arith, h), keyword_chars k (ground (arith, h)))

keyword-InLine : (k : Bytes) → is_keyword k ≡ true → All InLine k
keyword-InLine [] h = cc
keyword-InLine (c ∷ k) h = keyword_chars (c ∷ k) (ground (arith, h))

value_chars : (v : Bytes) → all is_value_char v ≡ true → All InLine v
value_chars [] h = tt
value_chars (c ∷ v) h = (ground (arith, h), value_chars v (ground (arith, h)))

value-InLine : (v : Bytes) → is_value (some v) ≡ true → All InLine v
value-InLine [] h = cc
value-InLine (c ∷ v) h = value_chars (c ∷ v) (ground (arith, h))

show_param-InLine :
    (keyword : Bytes) (value : Option Bytes)
    → is_keyword keyword ≡ true
    → is_value value ≡ true
    → All InLine (show_param keyword value)
unfolding show_param
show_param-InLine keyword none k v = (omega arith, keyword-InLine keyword k)
show_param-InLine keyword (some value) k v = (
  omega arith,
  All-append InLine keyword (b'=' ∷ value) (keyword-InLine keyword k)
      (omega arith, value-InLine value v),
)

show_params-InLine : (ps : List Param) → All IsParam ps → All InLine (show_params ps)
unfolding show_params
show_params-InLine [] h = tt
show_params-InLine (p ∷ ps) h =
    All-append InLine (show_param p.keyword p.value) (show_params ps)
      (show_param-InLine p.keyword p.value h.0.0 h.0.1) (show_params-InLine ps h.1)

pub filter_params-IsParam :
    (keep : Bytes → Bool) (ps : List Param) → All IsParam ps → All IsParam (filter_params keep ps)
unfolding filter_params
filter_params-IsParam keep [] h = tt
filter_params-IsParam keep (p ∷ ps) h = ground (arith, filter_params-IsParam keep ps h.1)

pub dsn_suffix-InLine :
    (ps : List Param) (keep : Bytes → Bool) (upstream_dsn : Bool)
    → All IsParam ps
    → All InLine (dsn_suffix ps keep upstream_dsn)
unfolding dsn_suffix
dsn_suffix-InLine ps keep upstream_dsn h =
    ground (arith, show_params-InLine (filter_params keep ps) (filter_params-IsParam keep ps h))

find_size_value : (ps : List Param) → All IsParam ps → is_value (find_size ps) ≡ true
unfolding find_size
find_size_value [] h = refl
find_size_value (p ∷ ps) h = ground (arith, find_size_value ps h.1)

size_keyword : All InLine (codes " SIZE=")
size_keyword = omega arith

pub size_suffix-InLine :
    (ps : List Param) (announced : Bool) → All IsParam ps → All InLine (size_suffix ps announced)
unfolding size_suffix
size_suffix-InLine ps announced h = elim (Option-cases (find_size ps)) [
  | inl n ↦ ground arith
  | inr (v, n) ↦
      let k =
        All-append InLine (codes " SIZE=") v size_keyword
          (value-InLine v (rw n at (find_size_value ps h))) in
      ground (arith, k)
]

-- What is appended to the upstream's MAIL or RCPT line of parameters that a client's line was
-- parsed to holds no CR and no LF, whichever parameters are kept and whatever the upstream
-- announces.
pub suffixes-InLine :
    (text : Bytes) (ps : List Param) (keep : Bytes → Bool) (upstream_dsn announced : Bool)
    → parse_params text ≡ some ps
    → All InLine (dsn_suffix ps keep upstream_dsn ++ size_suffix ps announced)
suffixes-InLine text ps keep upstream_dsn announced e =
    let h = parse_params-IsParam text e in
    All-append InLine (dsn_suffix ps keep upstream_dsn) (size_suffix ps announced)
      (dsn_suffix-InLine ps keep upstream_dsn h) (size_suffix-InLine ps announced h)
