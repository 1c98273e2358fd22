-- ===== src/Tests/Relay.antt =====
-- src/relay.rs on concrete inputs.
use smtp_proxy_rs.Prelude.{
  ◌≤◌, ◌≡◌, refl, true, List, [], ◌∷◌, ◌++◌, none, some, Bytes, codes, All, map,
}
use smtp_proxy_rs.Relay.{
  timeout, rejected, tls, no_start_tls, address, dropped, client_code, verdict_replied,
  into_relay_error, dsn_suffix, size_suffix,
}
use smtp_proxy_rs.Relay.Codes.{told, client_code_range}
use smtp_proxy_rs.Relay.Reparse.{kept, parse_params-dsn_suffix}
use smtp_proxy_rs.Relay.Suffixes.{InLine, suffixes-InLine}
use smtp_proxy_rs.Smtp.Dsn.{is_mail_dsn_keyword}
use smtp_proxy_rs.Smtp.Params.{Param, parse_params}

client_code_range_example :
    (400 ≤ client_code timeout)
    × (client_code timeout ≤ 599)
    × (client_code (into_relay_error (verdict_replied 250 []) (codes "DATA")) ≡ told 250)
    × (client_code (rejected 250 []) ≡ told 250)
    × (400 ≤ 250
        → 250 ≤ 599
        → into_relay_error (verdict_replied 250 []) (codes "DATA") ≡ rejected 250 [])
    × (map client_code (
          into_relay_error dropped (codes "DATA")
          ∷ timeout
          ∷ tls []
          ∷ no_start_tls
          ∷ address []
          ∷ [])
        ≡ 451 ∷ 451 ∷ 451 ∷ 451 ∷ 550 ∷ [])
client_code_range_example = client_code_range timeout 250 [] (codes "DATA")

abbrev client_params : List Param
client_params =
    record { keyword = codes "RET"; value = some (codes "FULL") }
    ∷ record { keyword = codes "SIZE"; value = some (codes "12") }
    ∷ record { keyword = codes "BODY"; value = none }
    ∷ []

parse_client_params : parse_params (codes "RET=FULL SIZE=12 BODY") ≡ some client_params
unfolding parse_params smtp_proxy_rs.Prelude.split_ascii_whitespace smtp_proxy_rs.Prelude.split_once
parse_client_params = refl

suffix_of_client_params :
    dsn_suffix client_params is_mail_dsn_keyword true ++ size_suffix client_params true
    ≡ codes " RET=FULL SIZE=12"
unfolding dsn_suffix size_suffix is_mail_dsn_keyword smtp_proxy_rs.Prelude.eq_ignore_ascii_case
suffix_of_client_params = refl

suffixes-InLine_example :
    All InLine (dsn_suffix client_params is_mail_dsn_keyword true ++ size_suffix client_params true)
suffixes-InLine_example =
    suffixes-InLine (codes "RET=FULL SIZE=12 BODY") client_params is_mail_dsn_keyword true true
      parse_client_params

parse_params-dsn_suffix_example :
    parse_params (dsn_suffix client_params is_mail_dsn_keyword true)
    ≡ some (kept is_mail_dsn_keyword client_params)
parse_params-dsn_suffix_example =
    parse_params-dsn_suffix (codes "RET=FULL SIZE=12 BODY") client_params is_mail_dsn_keyword
      parse_client_params
