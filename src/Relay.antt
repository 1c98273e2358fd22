-- ===== src/Relay.antt =====
-- src/relay.rs: what the upstream did, and the reply codes that the client is given for it.
pub mod Codes
pub mod Suffixes
pub mod Reparse
pub mod Wire
pub mod Upstream
use smtp_proxy_rs.Prelude.{
  ℕ, Bool, true, false, not, ◌&&◌, ◌||◌, List, [], ◌∷◌, ◌++◌, Option, none, some, Bytes, codes, all,
  is_empty, within, ◌==◌, if◌then◌else◌, eq_ignore_ascii_case, Result, ok, err,
}
use smtp_proxy_rs.Smtp.Params.{Param}

pub data RelayError : Type 0 where
  io : Bytes → RelayError
  rejected : ℕ → Bytes → RelayError
  address : Bytes → RelayError
  timeout : RelayError
  tls : Bytes → RelayError
  no_start_tls : RelayError

-- `(400..600).contains(code)`
abbrev pub is_refusal : ℕ → Bool
is_refusal code = within 400 599 code

unfoldable pub client_code : RelayError → ℕ
client_code (rejected code text) = if is_refusal code then code else 451
client_code (address _) = 550
client_code (io _) = 451
client_code timeout = 451
client_code (tls _) = 451
client_code no_start_tls = 451

pub data UpstreamVerdict : Type 0 where
  dropped : UpstreamVerdict
  replied : ℕ → Bytes → UpstreamVerdict

-- the constructor function `UpstreamVerdict::replied`
unfoldable pub verdict_replied : ℕ → Bytes → UpstreamVerdict
verdict_replied code text = replied (if is_refusal code then code else 451) text

abbrev pub lost : Bytes → Bytes
lost command =
    codes "lost the upstream during "
    ++ (command ++ codes ": it stopped reading, closed the connection, or answered unintelligibly")

unfoldable pub into_relay_error : UpstreamVerdict → Bytes → RelayError
into_relay_error dropped command = io (lost command)
into_relay_error (replied code text) command = rejected code text

abbrev pub is_address_char : ℕ → Bool
is_address_char b = within 0x21 0x7e b && (not (b == b'<') && not (b == b'>'))

unfoldable pub assert_relayable : Bytes → Result RelayError (Unit {0})
assert_relayable a = if all is_address_char a then ok tt else err (address a)

unfoldable pub filter_params : (Bytes → Bool) → List Param → List Param
filter_params keep [] = []
filter_params keep (p ∷ ps) =
    let rest = filter_params keep ps in if keep p.keyword then p ∷ rest else rest

-- the `map` over one parameter
unfoldable pub show_param : Bytes → Option Bytes → Bytes
show_param keyword (some v) = b' ' ∷ (keyword ++ (b'=' ∷ v))
show_param keyword none = b' ' ∷ keyword

unfoldable pub show_params : List Param → Bytes
unfolding show_param
show_params [] = []
show_params (p ∷ ps) = show_param p.keyword p.value ++ show_params ps

-- The warning that goes to the log is left out.
unfoldable pub dsn_suffix : List Param → (Bytes → Bool) → Bool → Bytes
unfolding filter_params show_params
dsn_suffix params keep upstream_dsn =
    let wanted = filter_params keep params in
    if is_empty wanted then [] else if not upstream_dsn then [] else show_params wanted

-- `find(..).and_then(|p| p.value.as_deref())`
unfoldable pub find_size : List Param → Option Bytes
find_size [] = none
find_size (p ∷ ps) =
    let rest = find_size ps in
    if eq_ignore_ascii_case p.keyword (codes "SIZE") then p.value else rest

unfoldable pub size_suffix : List Param → Bool → Bytes
unfolding find_size
size_suffix params upstream_announces_size = elim (find_size params) [
  | none ↦ []
  | some size ↦ if not upstream_announces_size then [] else codes " SIZE=" ++ size
]
